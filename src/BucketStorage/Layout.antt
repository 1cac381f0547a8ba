-- ===== src/BucketStorage/Layout.antt =====
-- Where BuildBucket puts the objects of a batch.
use mooncake.Prelude.{
  ℕ, ◌+◌, ◌≤◌, String, ◌≡◌, refl, ◌∙◌, sym, ap, ap₂, none, some, List, [], ◌∷◌, ◌++◌, string_eq,
  length, length-append, ◌==◌, ==_iff, ==_refl, take, drop, arith, Bool-cases, inl, inr, subst,
  subst₂,
}
use mooncake.Prelude.Dict.{
  Dict, find, emplace, IsMap, find-emplace_absent, find-emplace_keeps, find-emplace_other,
  find_other, find_head, behind_head,
}
use mooncake.Prelude.Spans.{concat, append_assoc, append_nil, take-append, drop-append, drop-drop}
use mathlib.Core.Option.{some-injective, none-ne-some}
use mooncake.Types.{Expected-cases, ok}
use mooncake.Serializer.{Byte}
use mooncake.BucketStorage.{Disk, BucketObjectMetadata, BucketContents, BucketMetadata}
use mooncake.BucketStorage.Build.{object_size, build_from, build_bucket}

pub object_size_lem : (slices : List (List Byte)) → object_size slices ≡ length (concat slices)
unfolding object_size
object_size_lem [] = refl
object_size_lem (slice ∷ slices) =
    omega (arith, object_size_lem slices, length-append slice (concat slices))

pub concat-append : (xss yss : List (List Byte)) → concat (xss ++ yss) ≡ concat xss ++ concat yss
concat-append [] yss = refl
concat-append (xs ∷ xss) yss =
    ap (λ zs. xs ++ zs) (concat-append xss yss) ∙ sym (append_assoc xs (concat xss) (concat yss))

-- An object lies in a file where its metadata say: its key, and then its bytes.
pub record IsStored (file key_bytes : List Byte) (slices : List (List Byte))
    (o : BucketObjectMetadata) : Type 0 where
  pub key_length : o.key_size ≡ length key_bytes
  pub data_length : o.data_size ≡ length (concat slices)
  pub within : o.offset + o.key_size + o.data_size ≤ length file
  pub key_there : take o.key_size (drop o.offset file) ≡ key_bytes
  pub data_there : take o.data_size (drop (o.offset + o.key_size) file) ≡ concat slices

IsStored-at :
    (before key_bytes after : List Byte) (slices : List (List Byte))
    → IsStored (before ++ (key_bytes ++ (concat slices ++ after))) key_bytes slices (record {
      offset = length before;
      key_size = length key_bytes;
      data_size = length (concat slices);
    })
IsStored-at before key_bytes after slices =
    let bytes = concat slices in
    let whole = length-append before (key_bytes ++ (bytes ++ after)) in
    let split = length-append key_bytes (bytes ++ after) in
    let split' = length-append bytes after in
    let found = drop-append before (key_bytes ++ (bytes ++ after)) in
    record {
      key_length = refl;
      data_length = refl;
      within = omega (arith, whole, split, split');
      key_there = ap (take (length key_bytes)) found ∙ take-append key_bytes (bytes ++ after);
      data_there =
          ap (take (length bytes)) (
            sym (
              drop-drop (length before) (length key_bytes)
                (before ++ (key_bytes ++ (bytes ++ after))))
            ∙ ap (drop (length key_bytes)) found
            ∙ drop-append key_bytes (bytes ++ after))
          ∙ take-append bytes after;
    }

-- What the loop makes of the rest of a batch, for the objects that it meets and those behind it.
pub record IsBuilt {W : Type 0} (disk : Disk W) (batch : Dict String (List (List Byte)))
    (bucket : BucketContents) (iovs : List (List Byte)) (bucket' : BucketContents)
    (iovs' : List (List Byte)) : Type 0 where
  pub grown : (rest : List Byte) × (concat iovs' ≡ concat iovs ++ rest)
  pub counted : bucket'.data_size + length (concat iovs) ≡ bucket.data_size + length (concat iovs')
  pub kept :
      (key : String) (o : BucketObjectMetadata)
      → find key bucket.object_metadata ≡ some o
      → find key bucket'.object_metadata ≡ some o
  pub stored :
      (key : String) (slices : List (List Byte))
      → find key batch ≡ some slices
      → (o : BucketObjectMetadata) × (find key bucket'.object_metadata ≡ some o)
        × IsStored (concat iovs') (disk.bytes_of key) slices o

module _ {W : Type 0} (disk : Disk W) where
  abbrev entry : String → List (List Byte) → ℕ → BucketObjectMetadata
  entry key slices offset = record {
    offset = offset;
    key_size = length (disk.bytes_of key);
    data_size = object_size slices;
  }

  -- The accumulators after one object.
  abbrev next_contents : String → List (List Byte) → ℕ → BucketContents → BucketContents
  next_contents key slices offset bucket = record {
    data_size = bucket.data_size + (object_size slices + length (disk.bytes_of key));
    object_metadata = emplace key (entry key slices offset) bucket.object_metadata;
    keys = bucket.keys ++ key ∷ [];
  }

  abbrev next_iovs : String → List (List Byte) → List (List Byte) → List (List Byte)
  next_iovs key slices iovs = iovs ++ (disk.bytes_of key ∷ slices)

  next_whole :
      (key : String) (slices iovs : List (List Byte)) (rest : List Byte)
      → concat (next_iovs key slices iovs) ++ rest
        ≡ concat iovs ++ (disk.bytes_of key ++ (concat slices ++ rest))
  next_whole key slices iovs rest =
      ap (λ xs. xs ++ rest) (concat-append iovs (disk.bytes_of key ∷ slices))
      ∙ append_assoc (concat iovs) (disk.bytes_of key ++ concat slices) rest
      ∙ ap (λ xs. concat iovs ++ xs) (append_assoc (disk.bytes_of key) (concat slices) rest)

  build_from-cons :
      (key : String) (slices : List (List Byte)) (batch : Dict String (List (List Byte)))
      (offset : ℕ) (bucket bucket' : BucketContents) (iovs iovs' : List (List Byte))
      → build_from disk ((key, slices) ∷ batch) offset bucket iovs ≡ ok (bucket', iovs')
      → build_from disk batch
          (offset + (object_size slices + length (disk.bytes_of key)))
          (next_contents key slices offset bucket)
          (next_iovs key slices iovs)
        ≡ ok (bucket', iovs')
  unfolding build_from
  build_from-cons key slices batch offset bucket bucket' iovs iovs' h = ground arith

  length-next :
      (key : String) (slices iovs : List (List Byte))
      → length (concat (next_iovs key slices iovs))
        ≡ length (concat iovs) + (object_size slices + length (disk.bytes_of key))
  length-next key slices iovs =
      ap length (concat-append iovs (disk.bytes_of key ∷ slices))
      ∙ omega (
        arith,
        length-append (concat iovs) (disk.bytes_of key ++ concat slices),
        length-append (disk.bytes_of key) (concat slices),
        object_size_lem slices,
      )

  IsStored-entry :
      (key : String) (slices : List (List Byte)) (offset : ℕ) (file before after : List Byte)
      → offset ≡ length before
      → file ≡ before ++ (disk.bytes_of key ++ (concat slices ++ after))
      → IsStored file (disk.bytes_of key) slices (entry key slices offset)
  IsStored-entry key slices offset file before after at whole =
      rw (at, whole, object_size_lem slices) (IsStored-at before (disk.bytes_of key) after slices)

  -- No object of the batch is in the bucket yet.
  abbrev IsFree : Dict String (List (List Byte)) → BucketContents → Type 0
  IsFree batch bucket =
      (key : String) (slices : List (List Byte))
      → find key batch ≡ some slices
      → find key bucket.object_metadata ≡ none

  next-IsFree :
      (key : String) (slices : List (List Byte)) (batch : Dict String (List (List Byte)))
      (offset : ℕ) (bucket : BucketContents)
      → IsMap ((key, slices) ∷ batch)
      → IsFree ((key, slices) ∷ batch) bucket
      → IsFree batch (next_contents key slices offset bucket)
  next-IsFree key slices batch offset bucket w free k v e =
      let other = behind_head key k slices v batch w e in
      find-emplace_other key k (entry key slices offset) bucket.object_metadata other
      ∙ free k v (find_other key k slices batch other ∙ e)

  build_from-IsBuilt :
      (batch : Dict String (List (List Byte))) (offset : ℕ) (bucket bucket' : BucketContents)
      (iovs iovs' : List (List Byte))
      → IsMap batch
      → IsFree batch bucket
      → offset ≡ length (concat iovs)
      → build_from disk batch offset bucket iovs ≡ ok (bucket', iovs')
      → IsBuilt disk batch bucket iovs bucket' iovs'
  unfolding find build_from
  build_from-IsBuilt [] offset bucket bucket' iovs iovs' w free at h =
      let same : bucket ≡ bucket' = cc in
      let same' : iovs ≡ iovs' = cc in
      record {
        grown = ([], ap concat (sym same') ∙ sym (append_nil (concat iovs)));
        counted =
            ap₂ (λ (b : BucketContents) n. b.data_size + n) (sym same)
              (ap (λ xs. length (concat xs)) same');
        kept =
            λ key o e. subst (λ (b : BucketContents). find key b.object_metadata ≡ some o) same e;
        stored = λ key slices e. absurd (none-ne-some slices e);
      }
  build_from-IsBuilt ((key, slices) ∷ batch) offset bucket bucket' iovs iovs' w free at h =
      let size = object_size slices + length (disk.bytes_of key) in
      let e = entry key slices offset in
      let mine = free key slices (find_head key slices batch) in
      let r =
        build_from-IsBuilt batch (offset + size) (next_contents key slices offset bucket) bucket'
          (next_iovs key slices iovs) iovs' w.1 (next-IsFree key slices batch offset bucket w free)
          (omega (arith, at, length-next key slices iovs))
          (build_from-cons key slices batch offset bucket bucket' iovs iovs' h) in
      let (rest, tail) = r.grown in
      let whole = tail ∙ next_whole key slices iovs rest in
      record {
        grown = (disk.bytes_of key ++ (concat slices ++ rest), whole);
        counted = omega (arith, r.counted, length-next key slices iovs);
        kept = λ k o found. r.kept k o (find-emplace_keeps key k e o bucket.object_metadata found);
        stored = λ k v found. elim (Bool-cases (key == k)) [
          | inr other ↦ r.stored k v (sym (find_other key k slices batch other) ∙ found)
          | inl same ↦
              let eq = (==_iff key k).0 same in
              let v_eq : slices ≡ v = some-injective slices v (
                sym (find_head key slices batch)
                ∙ subst (λ x. find x ((key, slices) ∷ batch) ≡ some v) (sym eq) found) in
              subst₂
                (λ x y.
                  (o : BucketObjectMetadata) × (find x bucket'.object_metadata ≡ some o)
                  × IsStored (concat iovs') (disk.bytes_of x) y o)
                eq v_eq
                (
                  e,
                  r.kept key e (
                      find-emplace_absent key key e bucket.object_metadata mine
                      ∙ rw (==_refl key) refl),
                  IsStored-entry key slices offset (concat iovs') (concat iovs) rest at whole,
                )
        ];
      }

  build_bucket-ok :
      (batch : Dict String (List (List Byte))) (bucket : BucketMetadata) (iovs : List (List Byte))
      → build_bucket disk batch ≡ ok (bucket, iovs)
      → build_from disk batch 0 (record { data_size = 0; object_metadata = []; keys = [] }) []
        ≡ ok (bucket.contents, iovs)
  unfolding build_bucket
  build_bucket-ok batch bucket iovs h =
      elim (Expected-cases
        (build_from disk batch 0 (record { data_size = 0; object_metadata = []; keys = [] }) [])) [
          | inr (code, e) ↦ let h' = rw (e, build_bucket) at h in cc
          | inl ((contents, iovs'), e) ↦
              let h' = rw (e, build_bucket) at h in
              let same : contents ≡ bucket.contents = cc in
              let same' : iovs' ≡ iovs = cc in e ∙ ap₂ (λ c i. ok (c, i)) same same'
        ]

  -- If no key stands twice in a batch and BuildBucket makes a bucket of it: the bucket's data_size is
  -- the number of bytes handed to the file, and each object of the batch lies in them, its key and
  -- then its slices, where its metadata say.
  pub build_bucket-IsStored :
      (batch : Dict String (List (List Byte))) (bucket : BucketMetadata) (iovs : List (List Byte))
      → IsMap batch
      → build_bucket disk batch ≡ ok (bucket, iovs)
      → (bucket.contents.data_size ≡ length (concat iovs))
        × ((key : String) (slices : List (List Byte))
            → find key batch ≡ some slices
            → (o : BucketObjectMetadata) × (find key bucket.contents.object_metadata ≡ some o)
              × IsStored (concat iovs) (disk.bytes_of key) slices o)
  unfolding find
  build_bucket-IsStored batch bucket iovs w h =
      let r =
        build_from-IsBuilt batch 0 (record { data_size = 0; object_metadata = []; keys = [] })
          bucket.contents [] iovs w (λ key slices e. refl) refl
          (build_bucket-ok batch bucket iovs h) in
      (omega (arith, r.counted), r.stored)
