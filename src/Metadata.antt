-- ===== src/Metadata.antt =====
-- MasterService::ObjectMetadata (mooncake-store/include/master_service.h): an object's replicas, its
-- lease and its soft pin. A time_point is a number of milliseconds since the clock's epoch.
use mooncake.Prelude.{
  ℕ, ◌+◌, max, Bool, false, not, ◌&&◌, Option, none, some, List, [], ◌∷◌, any, all, count_if,
  keep_if, is_empty, leb, ltb, if◌then◌else◌,
}
use mooncake.Replica.{
  Replica, ReplicaType, ReplicaStatus, complete, same_type, same_status, replica_type,
  is_memory_replica, has_invalid_mem_handle, disk_size,
}

pub record ObjectMetadata : Type 0 where
  pub replicas : List Replica
  pub size : ℕ
  pub lease_timeout : ℕ
  pub soft_pin_timeout : Option ℕ
  pub disk_replica_size : ℕ

abbrev disk_bytes : List Replica → ℕ
disk_bytes [] = 0
disk_bytes (r ∷ rs) = disk_size r + disk_bytes rs

-- The constructor: the lease and the soft pin start at the epoch.
unfoldable pub make_metadata : ℕ → List Replica → Bool → ObjectMetadata
make_metadata length reps enable_soft_pin = record {
  replicas = reps;
  size = length;
  lease_timeout = 0;
  soft_pin_timeout = if enable_soft_pin then some 0 else none;
  disk_replica_size = disk_bytes reps;
}

-- HasDiffRepStatus: the status of the first replica of a type whose status is another one.
abbrev pub diff_status : ReplicaStatus → ReplicaType → List Replica → Option ReplicaStatus
diff_status status type [] = none
diff_status status type (r ∷ rs) =
    if not (same_status r.status status) && same_type (replica_type r) type
    then some r.status
    else diff_status status type rs

abbrev pub has_diff_rep_status : ObjectMetadata → ReplicaStatus → ReplicaType → Option ReplicaStatus
has_diff_rep_status o status type = diff_status status type o.replicas

abbrev extend_pin : Option ℕ → ℕ → Option ℕ
extend_pin none until = none
extend_pin (some t) until = some (max t until)

-- GrantLease at the time `now`.
abbrev pub grant_lease : ℕ → ℕ → ℕ → ObjectMetadata → ObjectMetadata
grant_lease now ttl soft_ttl o = record o {
  lease_timeout = max o.lease_timeout (now + ttl);
  soft_pin_timeout = extend_pin o.soft_pin_timeout (now + soft_ttl);
}

-- EraseReplica
abbrev pub erase_replica : ReplicaType → ObjectMetadata → ObjectMetadata
erase_replica type o = record o {
  replicas = keep_if (λ (r : Replica). not (same_type (replica_type r) type)) o.replicas;
}

-- The replicas that EraseReplica destroys.
abbrev pub erased_replicas : ReplicaType → ObjectMetadata → List Replica
erased_replicas type o = keep_if (λ (r : Replica). same_type (replica_type r) type) o.replicas

-- HasMemReplica
abbrev pub has_mem_replica : ObjectMetadata → Bool
has_mem_replica o = any is_memory_replica o.replicas

-- GetMemReplicaCount
abbrev pub get_mem_replica_count : ObjectMetadata → ℕ
get_mem_replica_count o = count_if is_memory_replica o.replicas

-- IsLeaseExpired
abbrev pub is_lease_expired : ℕ → ObjectMetadata → Bool
is_lease_expired now o = leb o.lease_timeout now

abbrev pinned_until : ℕ → Option ℕ → Bool
pinned_until now none = false
pinned_until now (some t) = ltb now t

-- IsSoftPinned
abbrev pub is_soft_pinned : ℕ → ObjectMetadata → Bool
is_soft_pinned now o = pinned_until now o.soft_pin_timeout

-- IsValid
abbrev pub is_valid : ObjectMetadata → Bool
is_valid o = not (is_empty o.replicas) && ltb 0 o.size

-- IsAllReplicasComplete
abbrev pub is_all_replicas_complete : ObjectMetadata → Bool
is_all_replicas_complete o = all (λ (r : Replica). same_status r.status complete) o.replicas

-- CleanupStaleHandles: the replicas that stay, those that are destroyed, and whether none stays.
abbrev pub clean : (ℕ → Bool) → ObjectMetadata → ObjectMetadata
clean alive o = record o {
  replicas = keep_if (λ (r : Replica). not (has_invalid_mem_handle alive r)) o.replicas;
}

abbrev pub stale_replicas : (ℕ → Bool) → ObjectMetadata → List Replica
stale_replicas alive o = keep_if (has_invalid_mem_handle alive) o.replicas

abbrev pub is_stale : (ℕ → Bool) → ObjectMetadata → Bool
is_stale alive o = is_empty (clean alive o).replicas
