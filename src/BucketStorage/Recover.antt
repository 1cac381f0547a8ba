-- ===== src/BucketStorage/Recover.antt =====
-- Init: the index is built again from the metadata files; a bucket whose metadata cannot be read, or
-- are empty, loses both its files. The directory is listed before any of its files goes.
use mooncake.Prelude.{
  String, Bool, true, false, Option, none, some, List, [], ◌∷◌, if◌then◌else◌, string_eq, is_empty,
  length, nat_beq, ◌||◌, ◌==◌,
}
use mooncake.Prelude.Int.{less, ℤ, negsuc}
use mooncake.Prelude.Dict.{find}
use mooncake.Types.{
  Void, ErrorCode, Expected, ok, err, internal_error, file_open_fail, file_read_fail,
  bucket_already_exists,
}
use mooncake.BucketStorage.{Disk, BucketStorage, DirectoryEntry, BucketMetadata, int_eq}
use mooncake.BucketStorage.Build.{bucket_data_path, bucket_metadata_path}
use mooncake.BucketStorage.Offload.{first_id, enter_bucket, emplace_ordered}

-- Init's check of what it has read.
abbrev pub is_hollow : BucketMetadata → Bool
is_hollow m =
    nat_beq m.contents.data_size 0
    || nat_beq m.meta_size 0
    || is_empty m.contents.object_metadata
    || is_empty m.contents.keys

-- What `std::make_shared<BucketMetadata>()` makes; from_pb is taken to leave it so when it throws.
abbrev pub blank : BucketMetadata
blank = record {
  meta_size = 0;
  contents = record { data_size = 0; object_metadata = []; keys = [] };
}

-- How an attempt to recover ends: `broken` is an exception, which Init makes INTERNAL_ERROR.
pub data Recovery (A : Type 0) : Type 0 where
  recovered : A → Recovery A
  refused : ErrorCode → A → Recovery A
  broken : A → Recovery A

-- What the loop changes: the backend, and max_bucket_id.
abbrev pub Progress : Type 0 → Type 0
Progress W = W × BucketStorage × ℤ

abbrev pub cleared : BucketStorage → BucketStorage
cleared s = record s { object_bucket_map = []; buckets = []; total_size = 0 }

module _ {W : Type 0} (disk : Disk W) where
  -- LoadBucketMetadata; `none` is an exception that it does not catch, that of file_size.
  unfoldable pub load_bucket_metadata : W → String → ℤ → Option (Expected BucketMetadata)
  unfolding bucket_metadata_path
  load_bucket_metadata w storage_path id =
      let path = bucket_metadata_path disk storage_path id in
      if disk.open_read w path
      then elim (disk.file_size w path) [
        | none ↦ none
        | some size ↦ elim (disk.read w path size) [
          | err code ↦ some (err code)
          | ok str ↦
              if nat_beq (length str) size
              then elim (disk.from_pb str) [
                | none ↦ some (err file_read_fail)
                | some contents ↦ some (ok (record { meta_size = size; contents = contents }))
              ]
              else some (err file_read_fail)
        ]
      ]
      else some (err file_open_fail)

  -- The two files of a bucket that cannot be used go.
  unfoldable pub remove_bucket : W → String → ℤ → Bool × W
  unfolding bucket_data_path bucket_metadata_path
  remove_bucket w storage_path id =
      let (gone, w') = disk.remove w (bucket_data_path disk storage_path id) in
      let rest = disk.remove w' (bucket_metadata_path disk storage_path id) in
      if gone then rest else (false, w')

  -- The bucket is dropped from `buckets_` once its files are gone; an exception leaves it there.
  unfoldable pub drop_bucket : W → BucketStorage → ℤ → ℤ → BucketMetadata → Recovery (Progress W)
  unfolding remove_bucket
  drop_bucket w s max_id id bucket =
      let (gone, w') = remove_bucket w s.storage_path id in
      if gone
      then recovered (w', s, max_id)
      else broken (w', record s { buckets = emplace_ordered id bucket s.buckets }, max_id)

  -- A bucket whose metadata have been read, or not.
  unfoldable pub settle_bucket :
      W → BucketStorage → ℤ → ℤ → Expected BucketMetadata → Recovery (Progress W)
  unfolding drop_bucket enter_bucket
  settle_bucket w s max_id id (err code) = drop_bucket w s max_id id blank
  settle_bucket w s max_id id (ok bucket) =
      if is_hollow bucket
      then drop_bucket w s max_id id bucket
      else recovered (w, enter_bucket id bucket s, if less max_id id then id else max_id)

  -- The body of Init's loop.
  unfoldable pub recover_entry : Progress W → DirectoryEntry → Recovery (Progress W)
  unfolding load_bucket_metadata settle_bucket
  recover_entry (w, s, max_id) entry =
      if entry.extension == ".meta"
      then elim (disk.stoll entry.stem) [
        | none ↦ broken (w, s, max_id)
        | some id ↦ elim (find id s.buckets) [
          | some bucket ↦ refused bucket_already_exists (w, s, max_id)
          | none ↦ elim (load_bucket_metadata w s.storage_path id) [
            | none ↦ broken (w, record s { buckets = emplace_ordered id blank s.buckets }, max_id)
            | some result ↦ settle_bucket w s max_id id result
          ]
        ]
      ]
      else recovered (w, s, max_id)

  unfoldable pub recover_entries : Progress W → List DirectoryEntry → Recovery (Progress W)
  unfolding recover_entry
  recover_entries p [] = recovered p
  recover_entries p (entry ∷ entries) = elim (recover_entry p entry) [
    | recovered p' ↦ recover_entries p' entries
    | refused code p' ↦ refused code p'
    | broken p' ↦ broken p'
  ]

  -- The end of Init, once the loop is over.
  unfoldable pub finish_init : Recovery (Progress W) → Expected Void × W × BucketStorage
  unfolding first_id
  finish_init (broken (w, s, max_id)) = (err internal_error, w, s)
  finish_init (refused code (w, s, max_id)) = (err code, w, s)
  finish_init (recovered (w, s, max_id)) = (
    ok tt,
    w,
    record s { initialized = true; current_id = some (first_id (disk.time_gen w) max_id) },
  )

  -- Init
  unfoldable pub init : W → BucketStorage → Expected Void × W × BucketStorage
  unfolding recover_entries finish_init
  init w s =
      if s.initialized then (err internal_error, w, s) else elim (disk.directory w s.storage_path) [
        | none ↦ (err internal_error, w, cleared s)
        | some entries ↦ finish_init (recover_entries (w, cleared s, negsuc 0) entries)
      ]
