-- ===== src/Master/Requests.antt =====
-- The requests that a service takes, as a step relation (mooncake-store/src/master_service.cpp), and what
-- all of them keep.
use mooncake.Prelude.{
  ℕ, String, Bool, Option, none, some, List, inl, inr, Bool-cases, if◌then◌else◌, ltb, ◌||◌, ◌&&◌,
  ◌==◌, nat_eq,
}
use mooncake.Types.{Uuid, uuid_eq, Segment, ReplicateConfig}
use mooncake.Replica.{ReplicaType}
use mooncake.Segment.Invariant.{IsWellFormed, init-IsWellFormed}
use mooncake.Master.Evict.{Double, batch_evict, evict_passes, eviction_round}
use mooncake.Master.{Config, make_service, Env, Master}
use mooncake.Master.Read.{exist_key, get_replica_list, get_replica_list_by_regex}
use mooncake.Master.Put.{put_start, put_end, put_revoke}
use mooncake.Master.Remove.{remove, remove_by_regex, remove_all}
use mooncake.Master.Mount.{mount, remount, unmount, ping}
use mooncake.Master.Sound.{free_replicas-IsWellFormed, unmount-IsWellFormed, mount-IsWellFormed}
use mooncake.Master.Handlers.{
  Sound, exist_key-Sound, get_replica_list-Sound, put_end-Sound, put_revoke-Sound, remove-Sound,
  remove_by_regex-Sound, remove_all-Sound, remount-Sound, ping-Sound, put_start-Sound,
}

-- A request of a client, or a round of the eviction thread, takes the service from one state to the
-- next. The rounds of the client monitor are not among the steps.
pub data Step {S : Type 0} (env : Env S) (d : Double) : Master S → Master S → Type 1 where
  mounts : (m : Master S) (s : Segment) (client : Uuid) → Step env d m (mount env m s client).1
  remounts :
      (m : Master S) (ss : List Segment) (client : Uuid) → Step env d m (remount env m ss client).1
  unmounts : (m : Master S) (id client : Uuid) → Step env d m (unmount env m id client).1
  pings : (m : Master S) (client : Uuid) → Step env d m (ping env m client).1
  asks : (m : Master S) (now : ℕ) (key : String) → Step env d m (exist_key env now m key).1
  reads : (m : Master S) (now : ℕ) (key : String) → Step env d m (get_replica_list env now m key).1
  lists :
      (m : Master S) (clock : String → ℕ) (pattern : Option (String → Bool))
      → Step env d m (get_replica_list_by_regex clock m pattern).1
  starts :
      (m : Master S) (key : String) (slices : List ℕ) (rc : ReplicateConfig)
      → Step env d m (put_start env m key slices rc).1
  ends :
      (m : Master S) (now : ℕ) (key : String) (type : ReplicaType)
      → Step env d m (put_end env now m key type).1
  revokes :
      (m : Master S) (key : String) (type : ReplicaType)
      → Step env d m (put_revoke env m key type).1
  removes : (m : Master S) (now : ℕ) (key : String) → Step env d m (remove env now m key).1
  removes_matching :
      (m : Master S) (clock : String → ℕ) (pattern : Option (String → Bool))
      → Step env d m (remove_by_regex env clock m pattern).1
  removes_all : (m : Master S) (now : ℕ) → Step env d m (remove_all env now m).1
  evicts :
      (m : Master S) (now start : ℕ) (used ratio watermark : d.Value)
      → Step env d m (eviction_round env d now start used ratio watermark m)

-- The states that a new service can get into by such steps.
pub data Reachable {S : Type 0} (env : Env S) (d : Double) : Master S → Type 1 where
  begin : (c : Config) (version : ℕ) → Reachable env d (make_service c version)
  next : (m m' : Master S) → Reachable env d m → Step env d m m' → Reachable env d m'

module _ {S : Type 0} (env : Env S) (d : Double) where
  batch_evict-Sound :
      (now start : ℕ) (target lower : d.Value) (m : Master S)
      → Sound env m
      → Sound env (batch_evict env d now start target lower m)
  unfolding batch_evict
  batch_evict-Sound now start target lower m w =
      let low = if d.lt target lower then target else lower in
      let passes =
        evict_passes now m.config.allow_evict_soft_pinned_objects (λ n. d.ceil_mul n target)
          (λ n. d.ceil_mul n low) start m.shards in
      let w' = free_replicas-IsWellFormed env (record m { shards = passes.0 }) passes.1.freed w in
      elim (Bool-cases (ltb 0 passes.1.evicted_count || passes.1.object_count == 0)) [
        | inl e ↦ rw e w'
        | inr e ↦ rw e w'
      ]

  eviction_round-Sound :
      (now start : ℕ) (used ratio watermark : d.Value) (m : Master S)
      → Sound env m
      → Sound env (eviction_round env d now start used ratio watermark m)
  unfolding eviction_round
  eviction_round-Sound now start used ratio watermark m w =
      let target = d.max_of ratio (d.plus (d.minus used watermark) ratio) in
      let lower = d.max_of (d.half target) (d.minus used watermark) in
      elim (Bool-cases (d.lt watermark used || (m.need_eviction && d.is_positive ratio))) [
        | inl e ↦ rw e (batch_evict-Sound now start target lower m w)
        | inr e ↦ rw e w
      ]

  list-Sound :
      (clock : String → ℕ) (m : Master S) (pattern : Option (String → Bool))
      → Sound env m
      → Sound env (get_replica_list_by_regex clock m pattern).1
  unfolding get_replica_list_by_regex
  list-Sound clock m none w = w
  list-Sound clock m (some p) w = w

  Step-Sound : (m m' : Master S) → Step env d m m' → Sound env m → Sound env m'
  Step-Sound m m' (mounts _ s client) w = mount-IsWellFormed env m s client w
  Step-Sound m m' (remounts _ ss client) w = remount-Sound env m ss client w
  Step-Sound m m' (unmounts _ id client) w = unmount-IsWellFormed env m id client w
  Step-Sound m m' (pings _ client) w = ping-Sound env m client w
  Step-Sound m m' (asks _ now key) w = exist_key-Sound env now m key w
  Step-Sound m m' (reads _ now key) w = get_replica_list-Sound env now m key w
  Step-Sound m m' (lists _ clock p) w = list-Sound clock m p w
  Step-Sound m m' (starts _ key slices rc) w = put_start-Sound env m key slices rc w
  Step-Sound m m' (ends _ now key type) w = put_end-Sound env now m key type w
  Step-Sound m m' (revokes _ key type) w = put_revoke-Sound env m key type w
  Step-Sound m m' (removes _ now key) w = remove-Sound env now m key w
  Step-Sound m m' (removes_matching _ clock p) w = remove_by_regex-Sound env clock m p w
  Step-Sound m m' (removes_all _ now) w = remove_all-Sound env now m w
  Step-Sound m m' (evicts _ now start used ratio watermark) w =
      eviction_round-Sound now start used ratio watermark m w

  -- In every state that a new service gets into by requests and evictions, the segment manager is well
  -- formed: the allocators in its containers are those of the segments in its table, one for each
  -- segment that is not on its way out, and the capacity gauge counts the mounted bytes.
  pub Reachable-IsWellFormed : (m : Master S) → Reachable env d m → IsWellFormed m.segments
  unfolding make_service
  Reachable-IsWellFormed m (begin c version) = init-IsWellFormed c.memory_allocator_type
  Reachable-IsWellFormed m (next m0 _ r s) = Step-Sound m0 m s (Reachable-IsWellFormed m0 r)
