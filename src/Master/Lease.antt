-- ===== src/Master/Lease.antt =====
-- A lease protects its object: what Remove does after a read.
use mooncake.Prelude.{
  ℕ, ◌+◌, ◌<◌, ◌≡◌, refl, ap, String, some, is_empty, arith, inl, inr, Bool-cases, Option-cases,
}
use mooncake.Types.{ok, err, object_has_lease}
use mooncake.Metadata.{ObjectMetadata}
use mooncake.Master.{Config, Env, Master, store, access}
use mooncake.Master.View.{HasShards, access-SameService}
use mooncake.Master.Fresh.{access-IsFresh, access-store-access}
use mooncake.Master.Read.{get_replica_list, ReplicaListResponse, complete_descriptors, lease}
use mooncake.Master.Remove.{remove}

module _ {S : Type 0} (env : Env S) where
  -- A successful GetReplicaList has stored its object under a lease.
  get_replica_list_leases :
      (now : ℕ) (m : Master S) (key : String) (r : ReplicaListResponse)
      → (get_replica_list env now m key).0 ≡ ok r
      → (o : ObjectMetadata) × ((access env m key).0 ≡ some o)
        × ((get_replica_list env now m key).1
            ≡ store env (access env m key).1 key (lease (access env m key).1 now o))
  unfolding get_replica_list
  get_replica_list_leases now m key r h = elim (Option-cases (access env m key).0) [
    | inl e ↦ cc (rw (e, get_replica_list) at h)
    | inr (o, e) ↦ (
      o,
      e,
      elim (Bool-cases (is_empty (complete_descriptors (access env m key).1 o))) [
        | inl none_done ↦ cc (rw (e, get_replica_list, none_done) at h)
        | inr done ↦ rw (e, get_replica_list, done) refl
      ],
    )
  ]

  -- An object found with a lease that has not run out is not removed.
  remove_leased :
      (t : ℕ) (m : Master S) (key : String) (o : ObjectMetadata)
      → (access env m key).0 ≡ some o
      → t < o.lease_timeout
      → (remove env t m key).0 ≡ err object_has_lease
  unfolding remove
  remove_leased t m key o e h = rw (e, remove) (ground arith)

  -- In a service with its kNumShards shards: after a successful GetReplicaList at the time `now`,
  -- Remove refuses the object with OBJECT_HAS_LEASE at every time before `now` plus the lease's
  -- time to live.
  pub get-then-remove :
      (now t : ℕ) (m : Master S) (key : String) (r : ReplicaListResponse)
      → HasShards m
      → (get_replica_list env now m key).0 ≡ ok r
      → t < now + m.config.default_kv_lease_ttl
      → (remove env t (get_replica_list env now m key).1 key).0 ≡ err object_has_lease
  get-then-remove now t m key r n h before =
      let (o, found, left) = get_replica_list_leases now m key r h in
      let fresh = access-IsFresh env m key o found in
      let m' = (access env m key).1 in
      rw left (
        remove_leased t (store env m' key (lease m' now o)) key (lease m' now o)
          (access-store-access env m key (lease m' now o) n
            (record { no_stale = fresh.no_stale; some_left = fresh.some_left }))
          (let ttl : (access env m key).1.config.default_kv_lease_ttl
                ≡ m.config.default_kv_lease_ttl =
              ap (λ (c : Config). c.default_kv_lease_ttl) (access-SameService env m key).config in
            omega arith))
