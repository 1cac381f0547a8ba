-- ===== src/BucketStorage/Load.antt =====
-- BatchLoad and BatchLoadBucket. A batch gives the size of each key's slice; the result lists what has
-- been read into which slice, also when an error ends the loop.
use mooncake.Prelude.{
  ℕ, ◌+◌, String, none, some, List, [], ◌∷◌, ◌++◌, if◌then◌else◌, string_eq, length, nat_beq,
}
use mooncake.Prelude.Int.{ℤ}
use mooncake.Prelude.Dict.{Dict, find, put}
use mooncake.Types.{
  Void, Expected, ok, err, invalid_key, object_not_found, bucket_not_found, file_open_fail,
  file_read_fail,
}
use mooncake.Segment.{or_empty}
use mooncake.Serializer.{Byte}
use mooncake.BucketStorage.{Disk, BucketStorage, int_eq}
use mooncake.BucketStorage.Build.{bucket_data_path}

-- What has been read, by key.
abbrev pub Loaded : Type 0
Loaded = List (String × List Byte)

-- `batched_slices[key]`, whose size is 0 for a key that is missing.
abbrev pub slice_size : Dict String ℕ → String → ℕ
slice_size batch key = elim (find key batch) [ none ↦ 0 | some n ↦ n ]

-- The first loop of BatchLoad: the keys of the batch, by bucket.
unfoldable pub group_keys :
    BucketStorage → Dict String ℕ → Dict ℤ (List String) → Expected (Dict ℤ (List String))
group_keys s [] groups = ok groups
group_keys s ((key, size) ∷ batch) groups = elim (find key s.object_bucket_map) [
  | none ↦ err invalid_key
  | some o ↦
      group_keys s batch (put o.bucket_id (or_empty (find o.bucket_id groups) ++ key ∷ []) groups)
]

module _ {W : Type 0} (disk : Disk W) where
  -- The body of BatchLoadBucket's loop, for one key.
  unfoldable pub load_object : W → BucketStorage → ℤ → String → Dict String ℕ → Expected (List Byte)
  unfolding bucket_data_path
  load_object w s id key batch = elim (find id s.buckets) [
    | none ↦ err bucket_not_found
    | some bucket ↦ elim (find key bucket.contents.object_metadata) [
      | none ↦ err object_not_found
      | some o ↦
          if nat_beq o.data_size (slice_size batch key)
          then elim (disk.vector_read w (bucket_data_path disk s.storage_path id)
              (slice_size batch key) (o.offset + length (disk.bytes_of key))) [
                | err code ↦ err code
                | ok bytes ↦
                    if nat_beq (length bytes) (slice_size batch key)
                    then ok bytes
                    else err file_read_fail
              ]
          else err file_read_fail
    ]
  ]

  unfoldable pub load_objects :
      W → BucketStorage → ℤ → List String → Dict String ℕ → Loaded → Expected Void × Loaded
  unfolding load_object
  load_objects w s id [] batch loaded = (ok tt, loaded)
  load_objects w s id (key ∷ keys) batch loaded = elim (load_object w s id key batch) [
    | err code ↦ (err code, loaded)
    | ok bytes ↦ load_objects w s id keys batch (loaded ++ (key, bytes) ∷ [])
  ]

  -- BatchLoadBucket
  unfoldable pub batch_load_bucket :
      W → BucketStorage → ℤ → List String → Dict String ℕ → Loaded → Expected Void × Loaded
  unfolding load_objects bucket_data_path
  batch_load_bucket w s id keys batch loaded =
      if disk.open_read w (bucket_data_path disk s.storage_path id)
      then load_objects w s id keys batch loaded
      else (err file_open_fail, loaded)

  -- The second loop of BatchLoad.
  unfoldable pub load_groups :
      W → BucketStorage → Dict ℤ (List String) → Dict String ℕ → Loaded → Expected Void × Loaded
  unfolding batch_load_bucket
  load_groups w s [] batch loaded = (ok tt, loaded)
  load_groups w s ((id, keys) ∷ groups) batch loaded =
      let (result, loaded') = batch_load_bucket w s id keys batch loaded in
      let rest = load_groups w s groups batch loaded' in
      elim result [ err code ↦ (err code, loaded') | ok done ↦ rest ]

  -- BatchLoad
  unfoldable pub batch_load : W → BucketStorage → Dict String ℕ → Expected Void × Loaded
  unfolding group_keys load_groups
  batch_load w s batch = elim (group_keys s batch []) [
    | err code ↦ (err code, [])
    | ok groups ↦ load_groups w s groups batch []
  ]
