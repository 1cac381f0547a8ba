-- ===== src/BucketStorage/Build.antt =====
-- BuildBucket, WriteBucket and what they call: how a batch becomes the files of a bucket.
use Prim.Native.String as Text
use mooncake.Prelude.{
  ℕ, ◌+◌, String, Bool, false, List, [], ◌∷◌, ◌++◌, if◌then◌else◌, string_eq, is_empty, length,
  ◌==◌,
}
use mooncake.Prelude.Int.{ℤ}
use mooncake.Prelude.Dict.{Dict, emplace}
use mooncake.Types.{Expected, ok, err, invalid_key, file_open_fail, file_write_fail}
use mooncake.Serializer.{Byte}
use mooncake.BucketStorage.{Disk, BucketContents, BucketMetadata}

-- The bytes of an object's slices: object_total_size.
unfoldable pub object_size : List (List Byte) → ℕ
object_size [] = 0
object_size (slice ∷ slices) = length slice + object_size slices

-- The last character of a path, for `storage_path_.back() == '/'`.
unfoldable pub ends_with_slash : String → Bool
ends_with_slash Text.[] = false
ends_with_slash (Text.◌∷◌ c s) = if s == "" then Text.◌∷◌ c "" == "/" else ends_with_slash s

module _ {W : Type 0} (disk : Disk W) where
  -- The loop of BuildBucket, from `storage_offset` on.
  unfoldable pub build_from :
      Dict String (List (List Byte))
      → ℕ
      → BucketContents
      → List (List Byte)
      → Expected (BucketContents × List (List Byte))
  unfolding object_size
  build_from [] storage_offset bucket iovs = ok (bucket, iovs)
  build_from ((key, slices) ∷ objects) storage_offset bucket iovs =
      let key_size = length (disk.bytes_of key) in
      let total = object_size slices in
      let rest =
        build_from objects (storage_offset + (total + key_size))
          (record {
            data_size = bucket.data_size + (total + key_size);
            object_metadata =
                emplace key
                  (record { offset = storage_offset; key_size = key_size; data_size = total })
                  bucket.object_metadata;
            keys = bucket.keys ++ key ∷ [];
          })
          (iovs ++ (disk.bytes_of key ∷ slices)) in
      if is_empty slices then err invalid_key else rest

  -- BuildBucket
  unfoldable pub build_bucket :
      Dict String (List (List Byte)) → Expected (BucketMetadata × List (List Byte))
  unfolding build_from
  build_bucket batch =
      elim (build_from batch 0 (record { data_size = 0; object_metadata = []; keys = [] }) []) [
        | err code ↦ err code
        | ok (contents, iovs) ↦ ok (record { meta_size = 0; contents = contents }, iovs)
      ]

  -- GetBucketDataPath, which never fails
  unfoldable pub bucket_data_path : String → ℤ → String
  unfolding ends_with_slash
  bucket_data_path storage_path id =
      let sep =
        if storage_path == "" then "" else if ends_with_slash storage_path then "" else "/" in
      Text.◌++◌ (Text.◌++◌ storage_path sep) (disk.to_string id)

  -- GetBucketMetadataPath
  unfoldable pub bucket_metadata_path : String → ℤ → String
  unfolding bucket_data_path
  bucket_metadata_path storage_path id = Text.◌++◌ (bucket_data_path storage_path id) ".meta"

  -- StoreBucketMetadata: the metadata with its size set, and the disk.
  unfoldable pub store_bucket_metadata :
      W → String → ℤ → BucketMetadata → Expected BucketMetadata × W
  unfolding bucket_metadata_path
  store_bucket_metadata w storage_path id metadata =
      let path = bucket_metadata_path storage_path id in
      let (opened, w') = disk.open_write w path in
      let str = disk.to_pb metadata.contents in
      let (written, w'') = disk.write w' path str in
      if opened
      then elim written [
        | err code ↦ (err code, w'')
        | ok n ↦ (ok (record metadata { meta_size = length str }), w'')
      ]
      else (err file_open_fail, w')

  -- WriteBucket
  unfoldable pub write_bucket :
      W → String → ℤ → BucketMetadata → List (List Byte) → Expected BucketMetadata × W
  unfolding bucket_data_path store_bucket_metadata
  write_bucket w storage_path id metadata iovs =
      let path = bucket_data_path storage_path id in
      let (opened, w') = disk.open_write w path in
      let (written, w'') = disk.vector_write w' path iovs in
      let (stored, v) = store_bucket_metadata w'' storage_path id metadata in
      if opened
      then elim written [
        | err code ↦ (err code, w'')
        | ok n ↦ elim stored [
          | err code ↦ (err file_write_fail, v)
          | ok metadata' ↦ (ok metadata', v)
        ]
      ]
      else (err file_open_fail, w')
