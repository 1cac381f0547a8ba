-- ===== src/Master/Frames.antt =====
-- What an operation on one key does to the objects of all keys (mooncake-store/src/master_service.cpp).
use mooncake.Prelude.{
  ℕ, ◌≡◌, refl, ap, ◌∙◌, String, Bool, true, false, ◌&&◌, Option, none, some, if◌then◌else◌, arith,
  inl, inr, Option-cases, Bool-cases, string_eq, ◌==◌,
}
use mooncake.Prelude.Dict.{and_then}
use mooncake.Metadata.{ObjectMetadata, is_lease_expired, is_all_replicas_complete}
use mooncake.Master.{Env, Master, object, access, discard}
use mooncake.Master.View.{
  HasShards, object-discard, access-SameService, HasShards-after, object-access,
}
use mooncake.Master.Remove.{remove}
use mooncake.Master.Sweep.{unless}

-- Remove may take the object.
abbrev pub is_idle : ℕ → ObjectMetadata → Bool
is_idle now o = is_lease_expired now o && is_all_replicas_complete o

module _ {S : Type 0} (env : Env S) where
  pub remove_idle :
      (now : ℕ) (m : Master S) (key : String) (o : ObjectMetadata)
      → (access env m key).0 ≡ some o
      → is_idle now o ≡ true
      → (remove env now m key).1 ≡ discard env (access env m key).1 key o
  unfolding remove
  remove_idle now m key o e h = rw (remove, e) (ground arith)

  pub remove_busy :
      (now : ℕ) (m : Master S) (key : String) (o : ObjectMetadata)
      → (access env m key).0 ≡ some o
      → is_idle now o ≡ false
      → (remove env now m key).1 ≡ (access env m key).1
  unfolding remove
  remove_busy now m key o e h = rw (remove, e) (ground arith)

  -- In a service with its kNumShards shards, Remove takes the object of its key exactly if the
  -- object still has a replica that is not stale, its lease has run out and all its replicas are
  -- complete; otherwise the object loses its stale replicas and nothing else. The objects of all
  -- other keys stay as they were.
  pub object-remove :
      (now : ℕ) (m : Master S) (key j : String)
      → HasShards m
      → object env (remove env now m key).1 j ≡ (
          if key == j then and_then (access env m key).0 (unless (is_idle now)) else object env m j)
  unfolding remove
  object-remove now m key j n = elim (Option-cases (access env m key).0) [
    | inl e ↦ rw (remove, e) (object-access env m key j n ∙ rw e refl)
    | inr (o, e) ↦ elim (Bool-cases (is_idle now o)) [
      | inl idle ↦
          rw (remove_idle now m key o e idle, e, idle)
            (object-discard env (access env m key).1 key j o
                (HasShards-after (access-SameService env m key) n)
              ∙ ap (λ (x : Option ObjectMetadata). if key == j then none else x)
                  (object-access env m key j n)
              ∙ ground arith)
      | inr busy ↦
          rw (remove_busy now m key o e busy) (object-access env m key j n ∙ rw (e, busy) refl)
    ]
  ]
