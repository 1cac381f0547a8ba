-- ===== src/Master.antt =====
-- The state of the MasterService (mooncake-store/include/master_service.h), its sharded metadata, and
-- the MetadataAccessor. Locks are not modelled: a call runs as one step.
pub mod Path
pub mod View
pub mod Loops
pub mod Fresh
pub mod Lease
pub mod Read
pub mod Put
pub mod Remove
pub mod Mount
pub mod Monitor
pub mod Clients
pub mod Sound
pub mod Handlers
pub mod Requests
pub mod Evict
pub mod Sweep
pub mod Puts
pub mod Restart
pub mod Starts
pub mod Frames
use mooncake.Prelude.{
  ℕ, ◌+◌, ◌%◌, String, Bool, true, false, not, ◌&&◌, Option, none, some, List, [], ◌∷◌, ◌++◌,
  if◌then◌else◌, string_eq, ◌==◌, get_or, set, is_empty, replicate, map, take, drop,
}
use mooncake.Prelude.Dict.{Dict, find, put, erase}
use mooncake.Prelude.Int.{ℤ, pos}
use mooncake.Types.{Uuid, BufferAllocatorType}
use mooncake.Allocator.{Engine, Memory}
use mooncake.Replica.{Replica, destroy_replicas}
use mooncake.Segment.{SegmentManager, init, is_alive}
use mooncake.Strategy.{Shuffle}
use mooncake.Metadata.{ObjectMetadata, clean, stale_replicas, is_stale}

-- MasterServiceConfig, as far as the service keeps it.
pub record Config : Type 0 where
  pub default_kv_lease_ttl : ℕ
  pub default_kv_soft_pin_ttl : ℕ
  pub allow_evict_soft_pinned_objects : Bool
  pub client_live_ttl_sec : ℤ
  pub cluster_id : String
  pub root_fs_dir : String
  pub memory_allocator_type : BufferAllocatorType

-- What the service calls and does not implement: the allocation engines, `std::hash`, the random
-- generator, boost's queue (`none`: the push failed), and `std::filesystem`'s paths.
pub record Env (S : Type 0) : Type 0 where
  pub engine : Engine S
  pub hash : String → ℕ
  pub rng : Shuffle
  pub queue_push : List Uuid → Uuid → Option (List Uuid)
  pub path_join : String → String → String
  pub lexically_normal : String → String

abbrev pub Shard : Type 0
Shard = Dict String ObjectMetadata

pub record Master (S : Type 0) : Type 0 where
  pub config : Config
  pub shards : List Shard
  pub segments : SegmentManager S
  pub need_eviction : Bool
  pub ok_client : List Uuid
  pub client_ping_queue : List Uuid
  pub active_clients : ℤ
  pub view_version : ℕ
  pub draws : ℕ
  pub retry_counter : ℕ

-- kNumShards
abbrev pub num_shards : ℕ
num_shards = 1024

-- use_disk_replica_
abbrev pub use_disk_replica : Config → Bool
use_disk_replica c = not (c.root_fs_dir == "")

-- The loop over all shards: each is rewritten, and an accumulator goes along.
unfoldable pub walk_shards {ℓ} :
    {A : Type ℓ} → (Shard → A → Shard × A) → List Shard → A → List Shard × A
walk_shards g [] a = ([], a)
walk_shards g (sh ∷ rest) a =
    let (sh', a') = g sh a in let (rest', a'') = walk_shards g rest a' in (sh' ∷ rest', a'')

-- The same loop from shard `start` on, and round again.
unfoldable pub walk_shards_from {ℓ} :
    {A : Type ℓ} → ℕ → (Shard → A → Shard × A) → List Shard → A → List Shard × A
unfolding walk_shards
walk_shards_from start g shards a =
    let (back, a') = walk_shards g (drop start shards) a in
    let (front, a'') = walk_shards g (take start shards) a' in (front ++ back, a'')

module _ {S : Type 0} where
  -- The constructor, for ratios that it accepts: nothing is mounted, and no client is known. The code
  -- leaves `view_version_` as it finds it: `version` is what happens to be there.
  unfoldable pub make_service : Config → ℕ → Master S
  make_service c version = record {
    config = c;
    shards = replicate num_shards [];
    segments = init c.memory_allocator_type;
    need_eviction = false;
    ok_client = [];
    client_ping_queue = [];
    active_clients = pos 0;
    view_version = version;
    draws = 0;
    retry_counter = 0;
  }

  abbrev pub alive : Master S → ℕ → Bool
  alive m = is_alive m.segments

  -- The destructors of replicas that leave the metadata.
  unfoldable pub free_replicas : Env S → Master S → List Replica → Master S
  free_replicas env m rs = record m {
    segments = record m.segments {
      memory = destroy_replicas env.engine (alive m) m.segments.memory rs;
    };
  }

  -- getShardIndex
  abbrev pub get_shard_index : Env S → String → ℕ
  get_shard_index env key = env.hash key % num_shards

  abbrev pub get_shard : Env S → Master S → String → Shard
  get_shard env m key = get_or m.shards (get_shard_index env key) []

  abbrev pub set_shard : Env S → Master S → String → Shard → Master S
  set_shard env m key sh = record m { shards = set m.shards (get_shard_index env key) sh }

  -- The object that the metadata of a key holds.
  unfoldable pub object : Env S → Master S → String → Option ObjectMetadata
  object env m key = find key (get_shard env m key)

  -- The metadata of a key is rewritten in place.
  unfoldable pub store : Env S → Master S → String → ObjectMetadata → Master S
  store env m key o = set_shard env m key (put key o (get_shard env m key))

  -- The metadata of a key goes, and its replicas with it.
  unfoldable pub discard : Env S → Master S → String → ObjectMetadata → Master S
  unfolding free_replicas
  discard env m key o =
      let m' = free_replicas env m o.replicas in
      set_shard env m' key (erase key (get_shard env m' key))

  -- MetadataAccessor: find the key, and drop its stale replicas; if none is left, the key goes.
  unfoldable pub access : Env S → Master S → String → Option ObjectMetadata × Master S
  unfolding object store discard free_replicas
  access env m key = elim (object env m key) [
    | none ↦ (none, m)
    | some o ↦
        let m' = free_replicas env m (stale_replicas (alive m) o) in
        let o' = clean (alive m) o in
        if is_stale (alive m) o
        then (none, discard env m' key o')
        else (some o', store env m' key o')
  ]
