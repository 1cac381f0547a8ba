-- ===== src/Master/Restart.antt =====
-- PutStart on a key that is there already (mooncake-store/src/master_service.cpp).
use mooncake.Prelude.{
  ℕ, ◌≡◌, refl, ◌∙◌, String, Bool, true, not, none, some, List, [], ◌∷◌, keep_if, is_empty, inl,
  inr, Bool-cases, string_eq, ==_refl,
}
use mooncake.Types.{ok, err, object_not_found, invalid_params, ReplicateConfig, Expected}
use mooncake.Replica.{Replica, ReplicaType, has_invalid_mem_handle, ReplicaDescriptor}
use mooncake.Metadata.{ObjectMetadata, is_stale, stale_replicas, clean}
use mooncake.Master.{Env, Master, alive, object, free_replicas, access, store}
use mooncake.Master.View.{
  HasShards, access_found, object-store, HasShards-after, free_replicas-SameService,
}
use mooncake.Master.Put.{put_end, put_start, put_allocated, finish_put, insert_object, is_bad_put}

module _ {S : Type 0} (env : Env S) where
  empty_stale :
      (live : ℕ → Bool) (rs : List Replica)
      → is_empty rs ≡ true
      → is_empty (keep_if (λ (r : Replica). not (has_invalid_mem_handle live r)) rs) ≡ true
  empty_stale live [] h = refl
  empty_stale live (r ∷ rs) h = cc

  -- An object without replicas is not found.
  put_end_empty :
      (now : ℕ) (m : Master S) (key : String) (type : ReplicaType) (o : ObjectMetadata)
      → object env m key ≡ some o
      → is_empty o.replicas ≡ true
      → (put_end env now m key type).0 ≡ err object_not_found
  unfolding put_end
  put_end_empty now m key type o there empty =
      let gone : (access env m key).0 ≡ none =
        rw (access_found env m key, there, empty_stale (alive m) o.replicas empty) refl in
      rw (gone, put_end) refl

  finish_put_present :
      (m : Master S) (key : String) (total : ℕ) (rc : ReplicateConfig) (o : ObjectMetadata)
      → object env m key ≡ some o
      → (r : Expected (List Replica)) → object env (finish_put env m key total rc r).1 key ≡ some o
  unfolding finish_put insert_object object free_replicas
  finish_put_present m key total rc o there (ok rs) = rw (there, insert_object, object) there
  finish_put_present m key total rc o there (err invalid_params) = there
  finish_put_present m key total rc o there (err code) = there

  -- An allocation leaves the metadata of a key that is there already as it was.
  put_allocated_present :
      (m : Master S) (key : String) (slices : List ℕ) (rc : ReplicateConfig) (o : ObjectMetadata)
      → object env m key ≡ some o
      → object env (put_allocated env m key slices rc).1 key ≡ some o
  unfolding put_allocated object
  put_allocated_present m key slices rc o there = finish_put_present _ key _ rc o there _

  abbrev swept : Master S → ObjectMetadata → Master S
  swept m o = free_replicas env m (stale_replicas (alive m) o)

  swept-HasShards : (m : Master S) (o : ObjectMetadata) → HasShards m → HasShards (swept m o)
  swept-HasShards m o n =
      HasShards-after (free_replicas-SameService env m (stale_replicas (alive m) o)) n

  object-stored :
      (m : Master S) (key : String) (o : ObjectMetadata)
      → HasShards m
      → object env (store env (swept m o) key (clean (alive m) o)) key ≡ some (clean (alive m) o)
  object-stored m key o n =
      object-store env (swept m o) key key (clean (alive m) o) (swept-HasShards m o n)
      ∙ rw (==_refl key) refl

  -- In a service with its kNumShards shards: PutStart on a key whose object has lost all its
  -- replicas, and that ClearInvalidHandles has not reached yet, keeps the old, empty metadata even
  -- when it returns OK with the descriptors of newly allocated replicas. The PutEnd that follows
  -- such a PutStart returns OBJECT_NOT_FOUND.
  pub put_start-put_end_stale :
      (now : ℕ) (m : Master S) (key : String) (slices : List ℕ) (rc : ReplicateConfig)
      (type : ReplicaType) (o : ObjectMetadata) (list : List ReplicaDescriptor)
      → HasShards m
      → object env m key ≡ some o
      → is_stale (alive m) o ≡ true
      → (put_start env m key slices rc).0 ≡ ok list
      → (put_end env now (put_start env m key slices rc).1 key type).0 ≡ err object_not_found
  unfolding put_start
  put_start-put_end_stale now m key slices rc type o list n there stale h =
      elim (Bool-cases (is_bad_put m.config key slices rc)) [
        | inl bad ↦ cc (rw (put_start, bad) at h)
        | inr good ↦
            rw (put_start, good, there, stale)
              (put_end_empty now _ key type (clean (alive m) o)
                (put_allocated_present (store env (swept m o) key (clean (alive m) o)) key slices rc
                  (clean (alive m) o) (object-stored m key o n))
                stale)
      ]
