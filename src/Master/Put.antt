-- ===== src/Master/Put.antt =====
-- PutStart, PutEnd and PutRevoke with their batch forms
-- (mooncake-store/src/master_service.cpp).
use mooncake.Prelude.{
  ℕ, ◌+◌, ◌%◌, String, Bool, true, false, ◌||◌, none, some, List, [], ◌∷◌, ◌++◌, map, any, is_empty,
  if◌then◌else◌, ltb, string_eq, nat_eq, ◌==◌,
}
use mooncake.Prelude.Dict.{emplace}
use mooncake.Types.{
  Expected, ok, err, invalid_params, object_already_exists, no_available_handle, object_not_found,
  invalid_write, ReplicateConfig, BufferAllocatorType, cachelib, offset, max_slice_size, u64_mod,
}
use mooncake.Replica.{
  Replica, ReplicaType, memory, ReplicaDescriptor, processing, disk_data, get_descriptor,
  mark_complete, replica_type, same_type,
}
use mooncake.Strategy.{allocate_replicas}
use mooncake.Metadata.{
  ObjectMetadata, make_metadata, grant_lease, has_diff_rep_status, erase_replica, erased_replicas,
  is_valid, clean, is_stale, stale_replicas,
}
use mooncake.Master.Path.{resolve_path}
use mooncake.Master.{
  Env, Master, Config, alive, access, store, discard, object, free_replicas, get_shard, set_shard,
  use_disk_replica,
}

-- The sum of the slice lengths in a uint64_t.
unfoldable pub total_length : List ℕ → ℕ → ℕ
total_length [] acc = acc
total_length (x ∷ xs) acc = total_length xs ((acc + x) % u64_mod)

abbrev too_long : BufferAllocatorType → ℕ → Bool
too_long cachelib x = ltb max_slice_size x
too_long offset x = false

-- The checks of PutStart on its arguments.
abbrev pub is_bad_put : Config → String → List ℕ → ReplicateConfig → Bool
is_bad_put c key slices rc =
    rc.replica_num == 0
    || key == ""
    || is_empty slices
    || any (too_long c.memory_allocator_type) slices

-- The loop of PutEnd.
abbrev pub mark_type : ReplicaType → Replica → Replica
mark_type type r = if same_type (replica_type r) type then mark_complete r else r

abbrev pub complete_type : ReplicaType → ObjectMetadata → ObjectMetadata
complete_type type o = record o { replicas = map (mark_type type) o.replicas }

module _ {S : Type 0} (env : Env S) where
  -- The replicas that an allocation gives, and the disk replica if there is a root directory.
  unfoldable pub with_disk_replica : Master S → String → ℕ → List Replica → List Replica
  with_disk_replica m key total rs =
      if use_disk_replica m.config
      then rs
        ++ (record {
          replica_data = disk_data (resolve_path env m.config key) total;
          status = processing;
        })
          ∷ []
      else rs

  -- The end of PutStart: descriptors, and `emplace`, which destroys the new metadata if the key is
  -- there already.
  unfoldable pub insert_object :
      Master S → String → ℕ → Bool → List Replica → List ReplicaDescriptor × Master S
  insert_object m key total soft_pin rs =
      let list = map (get_descriptor (alive m) m.segments.memory) rs in
      elim (object env m key) [
        | some old ↦ (list, free_replicas env m rs)
        | none ↦ (
          list,
          set_shard env m key (emplace key (make_metadata total rs soft_pin) (get_shard env m key)),
        )
      ]

  -- PutStart from the result of the allocation on.
  unfoldable pub finish_put :
      Master S
      → String
      → ℕ
      → ReplicateConfig
      → Expected (List Replica)
      → Expected (List ReplicaDescriptor) × Master S
  unfolding insert_object with_disk_replica
  finish_put m key total rc (err invalid_params) = (err invalid_params, m)
  finish_put m key total rc (err code) =
      (err no_available_handle, record m { need_eviction = true })
  finish_put m key total rc (ok rs) =
      let (list, m') =
        insert_object m key total rc.with_soft_pin (with_disk_replica m key total rs) in
      (ok list, m')

  -- The middle of PutStart, from the allocation on.
  unfoldable pub put_allocated :
      Master S → String → List ℕ → ReplicateConfig → Expected (List ReplicaDescriptor) × Master S
  unfolding finish_put
  put_allocated m key slices rc =
      let (r, t) =
        allocate_replicas env.engine env.rng m.segments.allocators m.segments.allocators_by_name rc
          (alive m)
          (record { memory = m.segments.memory; draws = m.draws; retry_counter = m.retry_counter })
          slices in
      let m' = record m {
        segments = record m.segments { memory = t.memory };
        draws = t.draws;
        retry_counter = t.retry_counter;
      } in
      finish_put m' key (total_length slices 0) rc r

  -- PutStart
  unfoldable pub put_start :
      Master S → String → List ℕ → ReplicateConfig → Expected (List ReplicaDescriptor) × Master S
  unfolding put_allocated object store free_replicas
  put_start m key slices rc =
      if is_bad_put m.config key slices rc
      then (err invalid_params, m)
      else elim (object env m key) [
        | none ↦ put_allocated m key slices rc
        | some o ↦
            let m' =
              store env (free_replicas env m (stale_replicas (alive m) o)) key
                (clean (alive m) o) in
            if is_stale (alive m) o
            then put_allocated m' key slices rc
            else (err object_already_exists, m')
      ]

  -- PutEnd
  unfoldable pub put_end : ℕ → Master S → String → ReplicaType → Expected (Unit {0}) × Master S
  put_end now m key type =
      let (found, m') = access env m key in
      elim found [
        | none ↦ (err object_not_found, m')
        | some o ↦ (
          ok tt,
          store env m' key
              (grant_lease now 0 m'.config.default_kv_soft_pin_ttl (complete_type type o)),
        )
      ]

  -- PutRevoke
  unfoldable pub put_revoke : Master S → String → ReplicaType → Expected (Unit {0}) × Master S
  put_revoke m key type =
      let (found, m') = access env m key in
      elim found [
        | none ↦ (err object_not_found, m')
        | some o ↦ elim (has_diff_rep_status o processing type) [
          | some status ↦ (err invalid_write, m')
          | none ↦
              let m'' = free_replicas env m' (erased_replicas type o) in
              let o' = erase_replica type o in
              (ok tt, (if is_valid o' then store env m'' key o' else discard env m'' key o'))
        ]
      ]

  -- BatchPutEnd
  unfoldable pub batch_put_end : ℕ → Master S → List String → List (Expected (Unit {0})) × Master S
  batch_put_end now m [] = ([], m)
  batch_put_end now m (key ∷ rest) =
      let (r, m') = put_end now m key memory in
      let (rs, m'') = batch_put_end now m' rest in (r ∷ rs, m'')

  -- BatchPutRevoke
  unfoldable pub batch_put_revoke : Master S → List String → List (Expected (Unit {0})) × Master S
  batch_put_revoke m [] = ([], m)
  batch_put_revoke m (key ∷ rest) =
      let (r, m') = put_revoke m key memory in
      let (rs, m'') = batch_put_revoke m' rest in (r ∷ rs, m'')
