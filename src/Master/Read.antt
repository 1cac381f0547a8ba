-- ===== src/Master/Read.antt =====
-- The MasterService's queries (mooncake-store/src/master_service.cpp): ExistKey, GetReplicaList and
-- their batch and regex forms, GetAllKeys, GetKeyCount. A compiled regex is its test of a key, `none`
-- one that does not compile; `clock key` is the time at which a loop reaches a key.
use mooncake.Prelude.{
  ℕ, ◌+◌, String, Bool, true, false, Option, none, some, List, [], ◌∷◌, ◌++◌, map, any, keep_if,
  is_empty, if◌then◌else◌, length, string_eq,
}
use mooncake.Prelude.Dict.{keys, walk}
use mooncake.Types.{Expected, ok, err, object_not_found, replica_is_not_ready, invalid_params}
use mooncake.Replica.{Replica, ReplicaDescriptor, complete, same_status, get_descriptor}
use mooncake.Metadata.{ObjectMetadata, grant_lease}
use mooncake.Master.{Env, Master, Shard, alive, access, store, walk_shards}

-- GetReplicaListResponse
pub record ReplicaListResponse : Type 0 where
  pub replicas : List ReplicaDescriptor
  pub lease_ttl_ms : ℕ

abbrev pub is_complete : Replica → Bool
is_complete r = same_status r.status complete

-- The loops of GetAllKeys and GetKeyCount.
unfoldable pub all_keys : List Shard → List String
all_keys [] = []
all_keys (sh ∷ rest) = keys sh ++ all_keys rest

unfoldable pub key_count : List Shard → ℕ
key_count [] = 0
key_count (sh ∷ rest) = length sh + key_count rest

module _ {S : Type 0} where
  -- The descriptors of the replicas that are complete.
  abbrev pub complete_descriptors : Master S → ObjectMetadata → List ReplicaDescriptor
  complete_descriptors m o =
      map (get_descriptor (alive m) m.segments.memory) (keep_if is_complete o.replicas)

  -- GrantLease with the service's two times.
  abbrev pub lease : Master S → ℕ → ObjectMetadata → ObjectMetadata
  lease m now o = grant_lease now m.config.default_kv_lease_ttl m.config.default_kv_soft_pin_ttl o

  module _ (env : Env S) where
    -- ExistKey
    unfoldable pub exist_key : ℕ → Master S → String → Expected Bool × Master S
    exist_key now m key =
        let (found, m') = access env m key in
        elim found [
          | none ↦ (ok false, m')
          | some o ↦
              if any is_complete o.replicas
              then (ok true, store env m' key (lease m' now o))
              else (ok false, m')
        ]

    -- BatchExistKey
    unfoldable pub batch_exist_key : ℕ → Master S → List String → List (Expected Bool) × Master S
    batch_exist_key now m [] = ([], m)
    batch_exist_key now m (key ∷ rest) =
        let (r, m') = exist_key now m key in
        let (rs, m'') = batch_exist_key now m' rest in (r ∷ rs, m'')

    -- GetReplicaList
    unfoldable pub get_replica_list :
        ℕ → Master S → String → Expected ReplicaListResponse × Master S
    get_replica_list now m key =
        let (found, m') = access env m key in
        elim found [
          | none ↦ (err object_not_found, m')
          | some o ↦
              let list = complete_descriptors m' o in
              if is_empty list then (err replica_is_not_ready, m') else (
                ok (record { replicas = list; lease_ttl_ms = m'.config.default_kv_lease_ttl }),
                store env m' key (lease m' now o),
              )
        ]

  -- The loop of GetReplicaListByRegex over one shard: what it does to an entry, and to the results.
  unfoldable pub list_entry :
      (String → Bool)
      → (String → ℕ)
      → Master S
      → String
      → ObjectMetadata
      → List (String × List ReplicaDescriptor)
      → Option ObjectMetadata × List (String × List ReplicaDescriptor)
  list_entry matches clock m key o results =
      let list = complete_descriptors m o in
      if matches key
      then if is_empty list
        then (some o, results)
        else (some (lease m (clock key) o), results ++ (key, list) ∷ [])
      else (some o, results)

  -- GetReplicaListByRegex
  unfoldable pub get_replica_list_by_regex :
      (String → ℕ)
      → Master S
      → Option (String → Bool)
      → Expected (List (String × List ReplicaDescriptor)) × Master S
  unfolding list_entry
  get_replica_list_by_regex clock m none = (err invalid_params, m)
  get_replica_list_by_regex clock m (some matches) =
      let (shards, results) = walk_shards (walk (list_entry matches clock m)) m.shards [] in
      (ok results, record m { shards = shards })

  -- GetAllKeys
  unfoldable pub get_all_keys : Master S → List String
  unfolding all_keys
  get_all_keys m = all_keys m.shards

  -- GetKeyCount
  unfoldable pub get_key_count : Master S → ℕ
  unfolding key_count
  get_key_count m = key_count m.shards
