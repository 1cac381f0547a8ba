-- ===== src/Master/Puts.antt =====
-- What the three steps of a put do to an object (mooncake-store/src/master_service.cpp).
use mooncake.Prelude.{
  ℕ, ◌≡◌, refl, sym, subst, ◌∙◌, String, Bool, true, false, not, ◌&&◌, Option, none, some, List, [],
  ◌∷◌, map, any, keep_if, is_empty, if◌then◌else◌, arith, inl, inr, Option-cases, Bool-cases,
  string_eq, ==_refl,
}
use mooncake.Types.{ok, err, invalid_write}
use mooncake.Replica.{
  Replica, ReplicaType, processing, same_type, same_status, replica_type, has_invalid_mem_handle,
}
use mooncake.Metadata.{
  ObjectMetadata, grant_lease, has_diff_rep_status, diff_status, erase_replica, is_valid,
  erased_replicas,
}
use mooncake.Master.{Env, Master, alive, object, free_replicas, access, store}
use mooncake.Master.View.{
  HasShards, object-store, access-SameService, HasShards-after, object-discard,
  free_replicas-SameService,
}
use mooncake.Master.Fresh.{IsFresh, access-IsFresh, access-store-access}
use mooncake.Master.Read.{is_complete, exist_key}
use mooncake.Master.Put.{complete_type, mark_type, put_end, put_revoke}

abbrev pub is_pending : ReplicaType → Replica → Bool
is_pending type r = same_type (replica_type r) type && same_status r.status processing

abbrev pub is_none {ℓ} : {A : Type ℓ} → Option A → Bool
is_none none = true
is_none (some a) = false

module _ (type : ReplicaType) (live : ℕ → Bool) where
  mark_stale :
      (rs : List Replica)
      → any (has_invalid_mem_handle live) (map (mark_type type) rs)
        ≡ any (has_invalid_mem_handle live) rs
  mark_stale [] = refl
  mark_stale (r ∷ rs) = ground (arith, mark_stale rs)

  mark_left : (rs : List Replica) → is_empty (map (mark_type type) rs) ≡ is_empty rs
  mark_left [] = refl
  mark_left (r ∷ rs) = refl

  mark_pending : (r : Replica) → is_pending type r ≡ true → is_complete (mark_type type r) ≡ true
  mark_pending r h = ground arith

  mark_complete_lem :
      (rs : List Replica)
      → any (is_pending type) rs ≡ true
      → any is_complete (map (mark_type type) rs) ≡ true
  mark_complete_lem [] h = cc
  mark_complete_lem (r ∷ rs) h = ground (arith, mark_complete_lem rs, mark_pending r)

  mark_differs :
      (rs : List Replica)
      → any (is_pending type) rs ≡ true
      → is_none (diff_status processing type (map (mark_type type) rs)) ≡ false
  mark_differs [] h = cc
  mark_differs (r ∷ rs) h = ground (arith, mark_differs rs, mark_pending r)

  complete_type-IsFresh :
      (now ttl soft_ttl : ℕ) (o : ObjectMetadata)
      → IsFresh live o
      → IsFresh live (grant_lease now ttl soft_ttl (complete_type type o))
  complete_type-IsFresh now ttl soft_ttl o f = record {
    no_stale = mark_stale o.replicas ∙ f.no_stale;
    some_left = mark_left o.replicas ∙ f.some_left;
  }

module _ {S : Type 0} (env : Env S) where
  put_end_lem :
      (now : ℕ) (m : Master S) (key : String) (type : ReplicaType) (o : ObjectMetadata)
      → (access env m key).0 ≡ some o
      → put_end env now m key type ≡ (
        ok tt,
        store env (access env m key).1 key (
            grant_lease now 0
              (access env m key).1.config.default_kv_soft_pin_ttl
              (complete_type type o)),
      )
  unfolding put_end
  put_end_lem now m key type o found = rw (found, put_end) refl

  -- In a service with its kNumShards shards: after a PutEnd on a key whose object the accessor
  -- finds with a replica of the type that is being written, the put is visible. PutEnd returns OK,
  -- and ExistKey right after it finds the key, at whatever time.
  pub put_end-exist_key :
      (now t : ℕ) (m : Master S) (key : String) (type : ReplicaType) (o : ObjectMetadata)
      → HasShards m
      → (access env m key).0 ≡ some o
      → any (is_pending type) o.replicas ≡ true
      → ((put_end env now m key type).0 ≡ ok tt)
        × ((exist_key env t (put_end env now m key type).1 key).0 ≡ ok true)
  unfolding exist_key
  put_end-exist_key now t m key type o n found pending =
      let m' = (access env m key).1 in
      let pin = m'.config.default_kv_soft_pin_ttl in
      let o' = grant_lease now 0 pin (complete_type type o) in
      let there : (access env (store env m' key o') key).0 ≡ some o' =
        access-store-access env m key o' n
          (complete_type-IsFresh type (alive m) now 0 pin o (access-IsFresh env m key o found)) in
      rw (put_end_lem now m key type o found) (
        refl,
        rw (there, exist_key) (rw (mark_complete_lem type (alive m) o.replicas pending) refl),
      )

  -- In a service with its kNumShards shards: after a PutEnd on a key whose object the accessor
  -- finds with a replica of the type that is being written, PutRevoke of that type returns
  -- INVALID_WRITE.
  pub put_end-put_revoke :
      (now : ℕ) (m : Master S) (key : String) (type : ReplicaType) (o : ObjectMetadata)
      → HasShards m
      → (access env m key).0 ≡ some o
      → any (is_pending type) o.replicas ≡ true
      → (put_revoke env (put_end env now m key type).1 key type).0 ≡ err invalid_write
  unfolding put_revoke
  put_end-put_revoke now m key type o n found pending =
      let m' = (access env m key).1 in
      let pin = m'.config.default_kv_soft_pin_ttl in
      let o' = grant_lease now 0 pin (complete_type type o) in
      let there : (access env (store env m' key o') key).0 ≡ some o' =
        access-store-access env m key o' n
          (complete_type-IsFresh type (alive m) now 0 pin o (access-IsFresh env m key o found)) in
      let differs = mark_differs type (alive m) o.replicas pending in
      elim (Option-cases (diff_status processing type (complete_type type o).replicas)) [
        | inl e ↦ cc (rw e at differs)
        | inr (status, e) ↦ rw (put_end_lem now m key type o found, there, put_revoke, e) refl
      ]

  keep_if_none :
      (p : Replica → Bool) (rs : List Replica)
      → any p (keep_if (λ (r : Replica). not (p r)) rs) ≡ false
  keep_if_none p [] = refl
  keep_if_none p (r ∷ rs) = ground (arith, keep_if_none p rs)

  put_revoke_lem :
      (m : Master S) (key : String) (type : ReplicaType)
      → HasShards m
      → (put_revoke env m key type).0 ≡ ok tt
      → (o : ObjectMetadata) × (object env (put_revoke env m key type).1 key
          ≡ (if is_valid (erase_replica type o) then some (erase_replica type o) else none))
  unfolding put_revoke
  put_revoke_lem m key type n h =
      let after : ObjectMetadata → Master S =
        λ (o : ObjectMetadata). free_replicas env (access env m key).1 (erased_replicas type o) in
      let kept : (o : ObjectMetadata) → HasShards (after o) = λ o.
        HasShards-after
          (free_replicas-SameService env (access env m key).1 (erased_replicas type o))
          (HasShards-after (access-SameService env m key) n) in
      elim (Option-cases (access env m key).0) [
        | inl e ↦ cc (rw (e, put_revoke) at h)
        | inr (o, e) ↦ elim (Option-cases (has_diff_rep_status o processing type)) [
          | inr (s, e') ↦ cc (rw (e, put_revoke, e') at h)
          | inl e' ↦ (
            o,
            elim (Bool-cases (is_valid (erase_replica type o))) [
              | inl v ↦
                  rw (put_revoke, e, e', v)
                    (object-store env (after o) key key (erase_replica type o) (kept o)
                      ∙ rw (==_refl key) refl)
              | inr v ↦
                  rw (put_revoke, e, e', v)
                    (object-discard env (after o) key key (erase_replica type o) (kept o)
                      ∙ rw (==_refl key) refl)
            ],
          )
        ]
      ]

  -- In a service with its kNumShards shards: after a PutRevoke that returned OK, no replica of the
  -- type is left of the key's object.
  pub put_revoke_gone :
      (m : Master S) (key : String) (type : ReplicaType) (o : ObjectMetadata)
      → HasShards m
      → (put_revoke env m key type).0 ≡ ok tt
      → object env (put_revoke env m key type).1 key ≡ some o
      → any (λ (r : Replica). same_type (replica_type r) type) o.replicas ≡ false
  put_revoke_gone m key type o n h there =
      let (x, e) = put_revoke_lem m key type n h in
      let none_left = keep_if_none (λ (r : Replica). same_type (replica_type r) type) x.replicas in
      elim (Bool-cases (is_valid (erase_replica type x))) [
        | inl v ↦
            let q : some (erase_replica type x) ≡ some o = sym (rw v at e) ∙ there in
            let eq : erase_replica type x ≡ o = cc in
            subst
              (λ (y : ObjectMetadata).
                any (λ (r : Replica). same_type (replica_type r) type) y.replicas ≡ false)
              eq none_left
        | inr v ↦ cc (sym (rw v at e) ∙ there)
      ]
