-- ===== src/BucketStorage/Files.antt =====
-- WriteBucket and BatchLoadBucket over files that keep what is written to them.
use mooncake.Prelude.{
  ℕ, ◌+◌, ◌≤◌, String, ◌≡◌, ◌≢◌, refl, ◌∙◌, sym, ap, ap₂, true, Option, some, List, [], string_eq,
  arith, Bool-cases, inl, inr, subst, nat_beq, take, drop, length,
}
use Prim.Native.String as Text
use Prim.Native.String.{len}
use text.Mathlib.TextPositions.{len-append}
use mooncake.Prelude.Int.{ℤ}
use mooncake.Prelude.Dict.{Dict, find}
use mooncake.Prelude.Spans.{concat}
use mooncake.Types.{Expected, ok, err, Expected-cases}
use mooncake.Serializer.{Byte}
use mooncake.BucketStorage.{
  Disk, BucketStorage, BucketObjectMetadata, BucketContents, BucketMetadata, int_eq,
}
use mooncake.BucketStorage.Build.{
  write_bucket, store_bucket_metadata, bucket_data_path, bucket_metadata_path,
}
use mooncake.BucketStorage.Load.{slice_size, load_object}
use mooncake.BucketStorage.Layout.{IsStored}

-- Files that keep what is written to them, and whose reads do not fail: `content` is what a file holds.
pub record IsReliable {W : Type 0} (disk : Disk W) : Type 0 where
  pub content : W → String → Option (List Byte)
  pub open_write_empties :
      (w : W) (path : String)
      → (disk.open_write w path).0 ≡ true
      → content (disk.open_write w path).1 path ≡ some []
  pub open_write_elsewhere :
      (w : W) (path other : String)
      → other ≢ path
      → content (disk.open_write w path).1 other ≡ content w other
  pub vector_write_all :
      (w : W) (path : String) (iovs : List (List Byte)) (n : ℕ)
      → content w path ≡ some []
      → (disk.vector_write w path iovs).0 ≡ ok n
      → content (disk.vector_write w path iovs).1 path ≡ some (concat iovs)
  pub write_elsewhere :
      (w : W) (path other : String) (bytes : List Byte)
      → other ≢ path
      → content (disk.write w path bytes).1 other ≡ content w other
  pub open_read_there :
      (w : W) (path : String) (bytes : List Byte)
      → content w path ≡ some bytes
      → disk.open_read w path ≡ true
  pub vector_read_within :
      (w : W) (path : String) (bytes : List Byte) (n offset : ℕ)
      → content w path ≡ some bytes
      → offset + n ≤ length bytes
      → disk.vector_read w path n offset ≡ ok (take n (drop offset bytes))

contents_of : Expected BucketMetadata → BucketContents
contents_of (ok b) = b.contents
contents_of (err code) = record { data_size = 0; object_metadata = []; keys = [] }

longer : (s : String) → s ≢ Text.◌++◌ s ".meta"
longer s e = let n : len s ≡ len s + 5 = ap len e ∙ len-append s ".meta" in absurd (omega arith)

module _ {W : Type 0} (disk : Disk W) where
  paths_differ :
      (path : String) (id : ℤ) → bucket_data_path disk path id ≢ bucket_metadata_path disk path id
  unfolding bucket_metadata_path
  paths_differ path id = longer (bucket_data_path disk path id)

  module _ (good : IsReliable disk) where
    store_bucket_metadata_elsewhere :
        (w : W) (storage_path : String) (id : ℤ) (b : BucketMetadata) (other : String)
        → other ≢ bucket_metadata_path disk storage_path id
        → good.content (store_bucket_metadata disk w storage_path id b).1 other
          ≡ good.content w other
    unfolding store_bucket_metadata
    store_bucket_metadata_elsewhere w storage_path id b other ne =
        let path = bucket_metadata_path disk storage_path id in
        let w' = (disk.open_write w path).1 in
        let opened = good.open_write_elsewhere w path other ne in
        let written = good.write_elsewhere w' path other (disk.to_pb b.contents) ne ∙ opened in
        elim (Bool-cases (disk.open_write w path).0) [
          | inr e ↦ simp (e, store_bucket_metadata) opened
          | inl e ↦ elim (Expected-cases (disk.write w' path (disk.to_pb b.contents)).0) [
            | inl (n, f) ↦ simp (e, f, store_bucket_metadata) written
            | inr (code, f) ↦ simp (e, f, store_bucket_metadata) written
          ]
        ]

    store_bucket_metadata_keeps :
        (w : W) (storage_path : String) (id : ℤ) (b stored : BucketMetadata)
        → (store_bucket_metadata disk w storage_path id b).0 ≡ ok stored
        → stored.contents ≡ b.contents
    unfolding store_bucket_metadata contents_of
    store_bucket_metadata_keeps w storage_path id b stored h =
        let path = bucket_metadata_path disk storage_path id in
        let w' = (disk.open_write w path).1 in
        elim (Bool-cases (disk.open_write w path).0) [
          | inr e ↦ let h' = simp (e, store_bucket_metadata) at h in cc
          | inl e ↦ elim (Expected-cases (disk.write w' path (disk.to_pb b.contents)).0) [
            | inl (n, f) ↦
                let h' = simp (e, f, store_bucket_metadata) at h in sym (ap contents_of h')
            | inr (code, f) ↦ let h' = simp (e, f, store_bucket_metadata) at h in cc
          ]
        ]

    pub write_bucket_content :
        (w w' : W) (storage_path : String) (id : ℤ) (b stored : BucketMetadata)
        (iovs : List (List Byte))
        → write_bucket disk w storage_path id b iovs ≡ (ok stored, w')
        → (good.content w' (bucket_data_path disk storage_path id) ≡ some (concat iovs))
          × (stored.contents ≡ b.contents)
    unfolding write_bucket
    write_bucket_content w w' storage_path id b stored iovs h =
        let path = bucket_data_path disk storage_path id in
        let w1 = (disk.open_write w path).1 in
        let w2 = (disk.vector_write w1 path iovs).1 in
        let store = store_bucket_metadata disk w2 storage_path id b in
        elim (Bool-cases (disk.open_write w path).0) [
          | inr e ↦ let h' = simp (e, write_bucket) at h in cc
          | inl e ↦ elim (Expected-cases (disk.vector_write w1 path iovs).0) [
            | inr (code, f) ↦ let h' = simp (e, f, write_bucket) at h in cc
            | inl (n, f) ↦ elim (Expected-cases store.0) [
              | inr (code, g) ↦ let h' = simp (e, f, g, write_bucket) at h in cc
              | inl (metadata, g) ↦
                  let h' = simp (e, f, g, write_bucket) at h in
                  let same : metadata ≡ stored = cc in
                  let end : store.1 ≡ w' = cc in
                  let all_written =
                    good.vector_write_all w1 path iovs n (good.open_write_empties w path e) f in
                  (
                    subst (λ v. good.content v path ≡ some (concat iovs)) end
                        (store_bucket_metadata_elsewhere w2 storage_path id b path
                            (paths_differ storage_path id)
                          ∙ all_written),
                    sym (ap (λ (m : BucketMetadata). m.contents) same)
                        ∙ store_bucket_metadata_keeps w2 storage_path id b metadata g,
                  )
            ]
          ]
        ]

    pub load_object_stored :
        (w : W) (s : BucketStorage) (id : ℤ) (key : String) (wanted : Dict String ℕ)
        (bucket : BucketMetadata) (o : BucketObjectMetadata) (file : List Byte)
        (slices : List (List Byte))
        → find id s.buckets ≡ some bucket
        → find key bucket.contents.object_metadata ≡ some o
        → IsStored file (disk.bytes_of key) slices o
        → good.content w (bucket_data_path disk s.storage_path id) ≡ some file
        → slice_size wanted key ≡ length (concat slices)
        → load_object disk w s id key wanted ≡ ok (concat slices)
    unfolding load_object
    load_object_stored w s id key wanted bucket o file slices there there' stored content size =
        let n = slice_size wanted key in
        let same : nat_beq o.data_size n ≡ true = ground (arith, stored.data_length, size) in
        let n_eq : n ≡ o.data_size = size ∙ sym stored.data_length in
        let at : o.offset + length (disk.bytes_of key) ≡ o.offset + o.key_size =
          omega (arith, stored.key_length) in
        let got : take n (drop (o.offset + length (disk.bytes_of key)) file) ≡ concat slices =
          ap₂ (λ i j. take i (drop j file)) n_eq at ∙ stored.data_there in
        let answer =
          good.vector_read_within w (bucket_data_path disk s.storage_path id) file n
            (o.offset + length (disk.bytes_of key)) content
            (omega (arith, stored.within, stored.key_length, n_eq))
          ∙ ap ok got in
        let whole : nat_beq (length (concat slices)) n ≡ true = ground (arith, size) in
        simp (there, there', same, answer, whole, load_object) refl
