-- ===== src/Master/Remove.antt =====
-- Remove, RemoveByRegex and RemoveAll (mooncake-store/src/master_service.cpp).
use mooncake.Prelude.{
  ℕ, ◌+◌, String, Bool, not, Option, none, some, List, [], ◌++◌, if◌then◌else◌, string_eq,
}
use mooncake.Prelude.Dict.{walk}
use mooncake.Types.{
  Expected, ok, err, object_not_found, object_has_lease, replica_is_not_ready, invalid_params,
}
use mooncake.Replica.{Replica}
use mooncake.Metadata.{ObjectMetadata, is_lease_expired, is_all_replicas_complete}
use mooncake.Master.{Env, Master, access, discard, free_replicas, walk_shards}

-- What a removing loop gathers: the replicas that it destroys, and the number of objects removed.
pub record Removed : Type 0 where
  pub freed : List Replica
  pub count : ℕ

abbrev pub nothing_removed : Removed
nothing_removed = record { freed = []; count = 0 }

abbrev pub remove_one : ObjectMetadata → Removed → Removed
remove_one o a = record { freed = a.freed ++ o.replicas; count = a.count + 1 }

-- The loop body of RemoveByRegex.
unfoldable pub remove_matching :
    (String → Bool)
    → (String → ℕ)
    → String
    → ObjectMetadata
    → Removed
    → Option ObjectMetadata × Removed
remove_matching matches clock key o a =
    if matches key
    then if not (is_lease_expired (clock key) o)
      then (some o, a)
      else if not (is_all_replicas_complete o)
      then (some o, a)
      else (none, remove_one o a)
    else (some o, a)

-- The loop body of RemoveAll.
unfoldable pub remove_expired :
    ℕ → String → ObjectMetadata → Removed → Option ObjectMetadata × Removed
remove_expired now key o a = if is_lease_expired now o then (none, remove_one o a) else (some o, a)

module _ {S : Type 0} (env : Env S) where
  -- Remove
  unfoldable pub remove : ℕ → Master S → String → Expected (Unit {0}) × Master S
  remove now m key =
      let (found, m') = access env m key in
      elim found [
        | none ↦ (err object_not_found, m')
        | some o ↦
            if not (is_lease_expired now o)
            then (err object_has_lease, m')
            else if not (is_all_replicas_complete o)
            then (err replica_is_not_ready, m')
            else (ok tt, discard env m' key o)
      ]

  -- RemoveByRegex
  unfoldable pub remove_by_regex :
      (String → ℕ) → Master S → Option (String → Bool) → Expected ℕ × Master S
  unfolding remove_matching
  remove_by_regex clock m none = (err invalid_params, m)
  remove_by_regex clock m (some matches) =
      let (shards, a) =
        walk_shards (walk (remove_matching matches clock)) m.shards nothing_removed in
      (ok a.count, free_replicas env (record m { shards = shards }) a.freed)

  -- RemoveAll
  unfoldable pub remove_all : ℕ → Master S → ℕ × Master S
  unfolding remove_expired
  remove_all now m =
      let (shards, a) = walk_shards (walk (remove_expired now)) m.shards nothing_removed in
      (a.count, free_replicas env (record m { shards = shards }) a.freed)
