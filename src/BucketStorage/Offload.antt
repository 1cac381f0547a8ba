-- ===== src/BucketStorage/Offload.antt =====
-- BatchOffload, BatchQuery, IsExist, GetBucketKeys and GetStoreMetadata, and the generator of bucket
-- identifiers.
use mooncake.Prelude.{
  ℕ, ◌+◌, ◌*◌, String, Bool, true, false, Option, none, some, List, [], ◌∷◌, ◌++◌, if◌then◌else◌,
  string_eq, is_empty, length, not,
}
use mooncake.Prelude.Int.{less, ℤ, pos, ◌+ℤ◌}
use mooncake.Prelude.Dict.{Dict, find, emplace}
use mooncake.Types.{
  Void, is_ok, ErrorCode, ok_code, Expected, ok, err, invalid_key, internal_error, object_not_found,
  bucket_not_found,
}
use mooncake.Serializer.{Byte}
use mooncake.BucketStorage.{
  Disk, BucketStorage, BucketObjectMetadata, BucketMetadata, StorageObjectMetadata, OffloadMetadata,
  int_eq, int_beq,
}
use mooncake.BucketStorage.Build.{build_bucket, write_bucket}

-- BucketIdGenerator::BucketIdGenerator: a start that is not positive gives way to the time, shifted by
-- SEQUENCE_BITS.
unfoldable pub first_id : ℕ → ℤ → ℤ
first_id now start = if less (pos 0) start then start else pos (now * 4096)

-- BucketIdGenerator::NextId
abbrev pub next_id : ℤ → ℤ
next_id current = current +ℤ pos 1

-- std::map::emplace: a key that is present keeps its value, and the keys stay in order.
unfoldable pub emplace_ordered : {V : Type 0} → ℤ → V → Dict ℤ V → Dict ℤ V
emplace_ordered k v [] = (k, v) ∷ []
emplace_ordered k v ((j, w) ∷ m) =
    let rest = emplace_ordered k v m in
    if int_beq j k then (j, w) ∷ m else if less k j then (k, v) ∷ (j, w) ∷ m else (j, w) ∷ rest

abbrev pub located : ℤ → BucketObjectMetadata → StorageObjectMetadata
located id o = record {
  bucket_id = id;
  offset = o.offset;
  key_size = o.key_size;
  data_size = o.data_size;
}

-- The loop that enters the objects of a bucket in the index.
unfoldable pub index_objects :
    ℤ
    → Dict String BucketObjectMetadata
    → Dict String StorageObjectMetadata
    → Dict String StorageObjectMetadata
index_objects id [] index = index
index_objects id ((key, o) ∷ objects) index =
    index_objects id objects (emplace key (located id o) index)

-- The end of BatchOffload.
unfoldable pub enter_bucket : ℤ → BucketMetadata → BucketStorage → BucketStorage
unfolding index_objects emplace_ordered
enter_bucket id bucket s = record s {
  total_size = s.total_size + (bucket.contents.data_size + bucket.meta_size);
  object_bucket_map = index_objects id bucket.contents.object_metadata s.object_bucket_map;
  buckets = emplace_ordered id bucket s.buckets;
}

-- What a caller passes to hear of the stored objects; `none` is nullptr.
abbrev pub CompleteHandler : Type 0
CompleteHandler = Option (Dict String BucketObjectMetadata → ErrorCode)

abbrev pub handle_complete : CompleteHandler → Dict String BucketObjectMetadata → ErrorCode
handle_complete none objects = ok_code
handle_complete (some handler) objects = handler objects

module _ {W : Type 0} (disk : Disk W) where
  -- BatchOffload from BuildBucket on, for the bucket `id`.
  unfoldable pub offload :
      W
      → BucketStorage
      → ℤ
      → Dict String (List (List Byte))
      → CompleteHandler
      → Expected ℤ × W × BucketStorage
  unfolding build_bucket write_bucket enter_bucket
  offload w s id batch handler = elim (build_bucket disk batch) [
    | err code ↦ (err code, w, s)
    | ok (bucket, iovs) ↦
        let (result, w') = write_bucket disk w s.storage_path id bucket iovs in
        elim result [
          | err code ↦ (err code, w', s)
          | ok stored ↦
              let code = handle_complete handler stored.contents.object_metadata in
              if is_ok code then (ok id, w', enter_bucket id stored s) else (err code, w', s)
        ]
  ]

  -- BatchOffload; an initialized backend has a generator.
  unfoldable pub batch_offload :
      W
      → BucketStorage
      → Dict String (List (List Byte))
      → CompleteHandler
      → Expected ℤ × W × BucketStorage
  unfolding offload
  batch_offload w s batch handler =
      if not s.initialized
      then (err internal_error, w, s)
      else if is_empty batch
      then (err invalid_key, w, s)
      else elim s.current_id [
        | none ↦ (err internal_error, w, s)
        | some current ↦
            let id = next_id current in
            offload w (record s { current_id = some id }) id batch handler
      ]

-- BatchQuery; what an error leaves in the out-parameter is kept.
unfoldable pub batch_query :
    BucketStorage
    → List String
    → Dict String StorageObjectMetadata
    → Expected Void × Dict String StorageObjectMetadata
batch_query s [] found = (ok tt, found)
batch_query s (key ∷ keys) found = elim (find key s.object_bucket_map) [
  | none ↦ (err object_not_found, found)
  | some o ↦ batch_query s keys (emplace key o found)
]

-- GetBucketKeys
unfoldable pub get_bucket_keys : BucketStorage → ℤ → List String → Expected Void × List String
get_bucket_keys s id bucket_keys = elim (find id s.buckets) [
  | none ↦ (err bucket_not_found, bucket_keys)
  | some bucket ↦ (ok tt, bucket_keys ++ bucket.contents.keys)
]

-- IsExist
unfoldable pub is_exist : BucketStorage → String → Expected Bool
is_exist s key = elim (find key s.object_bucket_map) [ none ↦ ok false | some o ↦ ok true ]

-- GetStoreMetadata
unfoldable pub get_store_metadata : BucketStorage → Expected OffloadMetadata
get_store_metadata s =
    ok (record { total_keys = length s.object_bucket_map; total_size = s.total_size })
