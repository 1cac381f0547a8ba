-- ===== src/Tests/Data.antt =====
-- An engine that hands out addresses in order, a service with one segment, and an object in it.
use mooncake.Prelude.{
  ℕ, ◌+◌, ◌≡◌, refl, ap, false, none, some, [], ◌∷◌, replicate, ltb, if◌then◌else◌, All, length,
  length-replicate, string_eq, max, ◌*◌, ◌-◌, zero, suc,
}
use mooncake.Prelude.Dict.{find, IsMap}
use mooncake.Prelude.Int.{pos}
use mooncake.Types.{Uuid, Segment, offset, ReplicateConfig}
use mooncake.Allocator.{Engine, AllocatedBuffer}
use mooncake.Replica.{ReplicaStatus, memory_data, complete, processing}
use mooncake.Segment.{SegmentManager, MountedSegment, mounted, init, mount_segment}
use mooncake.Segment.Invariant.{IsWellFormed, init-IsWellFormed}
use mooncake.Segment.Mount.{mount_segment-IsWellFormed}
use mooncake.Strategy.{Shuffle}
use mooncake.Metadata.{ObjectMetadata}
use mooncake.Master.{Env, Config, Master, Shard}
use mooncake.Master.Evict.{Double}
use mooncake.Master.Loops.{HasMaps}

-- The state is the next address and the end.
abbrev pub bump : Engine (ℕ × ℕ)
bump = record {
  create = λ kind base size. some (base, base + size);
  obtain = λ s size. if ltb s.1 (s.0 + size) then none else some (s.0, (s.0 + size, s.1));
  release = λ s p. some s;
  largest_free_region = λ s. s.1 - s.0;
}

abbrev pub in_order : Shuffle
in_order = record { order = λ k xs. xs }

abbrev pub anna : Uuid
anna = record { first = 1; second = 0 }

abbrev pub bert : Uuid
bert = record { first = 2; second = 0 }

abbrev pub here : Segment
here = record { id = anna; name = "here"; base = 1000; size = 500; te_endpoint = "host:1" }

abbrev pub there : Segment
there = record { id = bert; name = "there"; base = 2000; size = 500; te_endpoint = "host:2" }

abbrev pub empty : SegmentManager (ℕ × ℕ)
empty = init offset

abbrev pub one_segment : SegmentManager (ℕ × ℕ)
one_segment = (mount_segment bump empty here anna).1

abbrev pub two_segments : SegmentManager (ℕ × ℕ)
two_segments = (mount_segment bump one_segment there anna).1

pub empty-IsWellFormed : IsWellFormed empty
empty-IsWellFormed = init-IsWellFormed offset

pub one_segment-IsWellFormed : IsWellFormed one_segment
one_segment-IsWellFormed = mount_segment-IsWellFormed bump empty here anna empty-IsWellFormed

pub two_segments-IsWellFormed : IsWellFormed two_segments
two_segments-IsWellFormed =
    mount_segment-IsWellFormed bump one_segment there anna one_segment-IsWellFormed

abbrev pub entry_of : Segment → ℕ → MountedSegment
entry_of s a = record { segment = s; status = mounted; buf_allocator = some a }

abbrev pub env : Env (ℕ × ℕ)
env = record {
  engine = bump;
  hash = λ key. 0;
  rng = in_order;
  queue_push = λ q client. some (client ∷ q);
  path_join = λ a b. b;
  lexically_normal = λ p. p;
}

abbrev pub config : Config
config = record {
  default_kv_lease_ttl = 5000;
  default_kv_soft_pin_ttl = 60000;
  allow_evict_soft_pinned_objects = false;
  client_live_ttl_sec = pos 10;
  cluster_id = "cluster";
  root_fs_dir = "";
  memory_allocator_type = offset;
}

-- A buffer of 100 bytes in the allocator `a`.
abbrev pub buffer : ℕ → AllocatedBuffer
buffer a = record { allocator = a; buffer_ptr = 1000; size = 100 }

abbrev pub holding : ReplicaStatus → ℕ → ObjectMetadata
holding status a = record {
  replicas = record { replica_data = memory_data (buffer a ∷ []); status = status } ∷ [];
  size = 100;
  lease_timeout = 40;
  soft_pin_timeout = none;
  disk_replica_size = 0;
}

-- A service over one_segment with one object, "key".
abbrev pub service_with : ObjectMetadata → Master (ℕ × ℕ)
service_with o = record {
  config = config;
  shards = (("key", o) ∷ []) ∷ replicate 1023 [];
  segments = one_segment;
  need_eviction = false;
  ok_client = [];
  client_ping_queue = [];
  active_clients = pos 0;
  view_version = 1;
  draws = 0;
  retry_counter = 0;
}

-- The object is complete, being written, or left without a live replica.
abbrev pub readable : Master (ℕ × ℕ)
readable = service_with (holding complete 0)

abbrev pub writing : Master (ℕ × ℕ)
writing = service_with (holding processing 0)

abbrev pub orphaned : Master (ℕ × ℕ)
orphaned = service_with (holding complete 7)

pub service-HasShards : (o : ObjectMetadata) → length (service_with o).shards ≡ 1024
service-HasShards o = ap suc (length-replicate {A = Shard} 1023 [])

replicate-IsMap : (n : ℕ) → All (λ (sh : Shard). IsMap sh) (replicate n [])
replicate-IsMap zero = tt
replicate-IsMap (suc n) = (tt, replicate-IsMap n)

pub service-HasMaps : (o : ObjectMetadata) → HasMaps (service_with o)
unfolding find
service-HasMaps o = ((refl, tt), replicate-IsMap 1023)

abbrev pub put_config : ReplicateConfig
put_config = record {
  replica_num = 1;
  with_soft_pin = false;
  preferred_segment = "";
  prefer_alloc_in_same_node = false;
}

-- Thousandths stand in for doubles.
abbrev pub thousandths : Double
thousandths = record {
  Value = ℕ;
  lt = ltb;
  max_of = max;
  plus = ◌+◌;
  minus = ◌-◌;
  half = λ x. x;
  is_positive = ltb 0;
  ceil_mul = λ n x. n * x;
}
