-- ===== src/BucketStorage/Located.antt =====
-- The index of a BucketStorageBackend, and how entering a bucket changes it.
use mooncake.Prelude.{
  ℕ, ◌+◌, String, ◌≡◌, refl, ◌∙◌, sym, ap, true, false, none, some, [], ◌∷◌, if◌then◌else◌,
  string_eq, ◌==◌, ==_iff, ==_refl, arith, Bool-cases, Option-cases, inl, inr, subst,
}
use mooncake.Prelude.Int.{less, ℤ, pos, negsuc, ◌+ℤ◌}
use mooncake.Prelude.Dict.{
  Dict, find, emplace, find-emplace_keeps, find-emplace_absent, find-emplace_other,
}
use mathlib.Core.Option.{some-injective, none-ne-some}
use mooncake.BucketStorage.{
  BucketStorage, BucketObjectMetadata, BucketMetadata, StorageObjectMetadata, int_eq, int_beq_iff,
}
use mooncake.BucketStorage.Offload.{next_id, emplace_ordered, located, index_objects, enter_bucket}

abbrev size_of : BucketMetadata → ℕ
size_of b = b.contents.data_size + b.meta_size

abbrev pub sum_buckets : Dict ℤ BucketMetadata → ℕ
sum_buckets [] = 0
sum_buckets ((id, b) ∷ m) = size_of b + sum_buckets m

-- An entry of the index says of a key what the metadata of a bucket say of it.
pub record IsLocated (buckets : Dict ℤ BucketMetadata) (key : String) (x : StorageObjectMetadata)
    : Type 0 where
  pub bucket : BucketMetadata
  pub object : BucketObjectMetadata
  pub bucket_there : find x.bucket_id buckets ≡ some bucket
  pub object_there : find key bucket.contents.object_metadata ≡ some object
  pub same : x ≡ located x.bucket_id object

pub record IsIndexed (s : BucketStorage) : Type 0 where
  pub indexed :
      (key : String) (x : StorageObjectMetadata)
      → find key s.object_bucket_map ≡ some x
      → IsLocated s.buckets key x
  pub counted : s.total_size ≡ sum_buckets s.buckets

-- No bucket has an identifier above `bound`.
abbrev pub IsBelow : ℤ → Dict ℤ BucketMetadata → Type 0
IsBelow bound m = (id : ℤ) (b : BucketMetadata) → find id m ≡ some b → less bound id ≡ false

pub index_objects_keeps :
    (id : ℤ) (objects : Dict String BucketObjectMetadata)
    (index : Dict String StorageObjectMetadata) (key : String) (x : StorageObjectMetadata)
    → find key index ≡ some x
    → find key (index_objects id objects index) ≡ some x
unfolding index_objects
index_objects_keeps id [] index key x h = h
index_objects_keeps id ((k, o) ∷ objects) index key x h =
    index_objects_keeps id objects (emplace k (located id o) index) key x
      (find-emplace_keeps k key (located id o) x index h)

-- A key that had no entry has that of the bucket, and other keys have none.
pub find-index_objects :
    (id : ℤ) (objects : Dict String BucketObjectMetadata)
    (index : Dict String StorageObjectMetadata) (key : String)
    → find key index ≡ none
    → find key (index_objects id objects index)
      ≡ elim (find key objects) [ none ↦ none | some o ↦ some (located id o) ]
unfolding index_objects find
find-index_objects id [] index key h = h
find-index_objects id ((k, o) ∷ objects) index key h = elim (Bool-cases (k == key)) [
  | inr other ↦
      rw (other, find)
        (find-index_objects id objects (emplace k (located id o) index) key
          (find-emplace_other k key (located id o) index other ∙ h))
  | inl same ↦
      let eq = (==_iff k key).0 same in
      rw (same, find)
        (index_objects_keeps id objects (emplace k (located id o) index) key (located id o) (
          subst (λ j. find key (emplace j (located id o) index) ≡ some (located id o)) (sym eq)
            (find-emplace_absent key key (located id o) index h ∙ rw (==_refl key) refl)))
]

pub find-emplace_ordered :
    {V : Type 0} (id j : ℤ) (v : V) (m : Dict ℤ V)
    → find id m ≡ none
    → find j (emplace_ordered id v m) ≡ (if id == j then some v else find j m)
unfolding find emplace_ordered
find-emplace_ordered id j v [] h = refl
find-emplace_ordered id j v ((k, w) ∷ m) h =
    ground
      (arith, find-emplace_ordered id j v m, int_beq_iff k id, int_beq_iff k j, int_beq_iff id j)

sum-emplace_ordered :
    (id : ℤ) (b : BucketMetadata) (m : Dict ℤ BucketMetadata)
    → find id m ≡ none
    → sum_buckets (emplace_ordered id b m) ≡ sum_buckets m + size_of b
unfolding find emplace_ordered
sum-emplace_ordered id b [] h = omega arith
sum-emplace_ordered id b ((k, w) ∷ m) h = ground (arith, sum-emplace_ordered id b m)

IsLocated-grow :
    (id : ℤ) (b : BucketMetadata) (m : Dict ℤ BucketMetadata) (key : String)
    (x : StorageObjectMetadata)
    → find id m ≡ none
    → IsLocated m key x
    → IsLocated (emplace_ordered id b m) key x
IsLocated-grow id b m key x absent l = record {
  bucket = l.bucket;
  object = l.object;
  bucket_there =
      find-emplace_ordered id x.bucket_id b m absent
      ∙ ground (arith, absent, l.bucket_there, int_beq_iff id x.bucket_id);
  object_there = l.object_there;
  same = l.same;
}

IsLocated-new :
    (id : ℤ) (b : BucketMetadata) (m : Dict ℤ BucketMetadata) (key : String)
    (x : StorageObjectMetadata) (o : BucketObjectMetadata)
    → find id m ≡ none
    → find key b.contents.object_metadata ≡ some o
    → x ≡ located id o
    → IsLocated (emplace_ordered id b m) key x
IsLocated-new id b m key x o absent there same =
    subst (IsLocated (emplace_ordered id b m) key) (sym same) (record {
      bucket = b;
      object = o;
      bucket_there = find-emplace_ordered id id b m absent ∙ rw (==_refl id) refl;
      object_there = there;
      same = refl;
    })

pub enter_bucket-IsIndexed :
    (id : ℤ) (b : BucketMetadata) (s : BucketStorage)
    → IsIndexed s
    → find id s.buckets ≡ none
    → IsIndexed (enter_bucket id b s)
unfolding enter_bucket
enter_bucket-IsIndexed id b s w absent =
    let objects = b.contents.object_metadata in
    let index = s.object_bucket_map in
    record {
      indexed = λ key x h. elim (Option-cases (find key index)) [
        | inr (y, old) ↦
            let same =
              some-injective y x (sym (index_objects_keeps id objects index key y old) ∙ h) in
            IsLocated-grow id b s.buckets key x absent (w.indexed key x (old ∙ ap some same))
        | inl new ↦
            let found = sym h ∙ find-index_objects id objects index key new in
            elim (Option-cases (find key objects)) [
              | inl nothing ↦ absurd (none-ne-some x (sym (found ∙ rw (nothing) refl)))
              | inr (o, there) ↦
                  IsLocated-new id b s.buckets key x o absent there
                    (some-injective x (located id o) (found ∙ rw (there) refl))
            ]
      ];
      counted = omega (arith, w.counted, sum-emplace_ordered id b s.buckets absent);
    }

pub less-trans_next : (current id : ℤ) → less current id ≡ false → less (next_id current) id ≡ false
unfolding ◌+ℤ◌
less-trans_next (pos a) (pos b) h = ground arith
less-trans_next (pos a) (negsuc b) h = ground arith
less-trans_next (negsuc a) (pos b) h = ground arith
less-trans_next (negsuc a) (negsuc b) h = ground arith

pub less_next : (current : ℤ) → less current (next_id current) ≡ true
unfolding ◌+ℤ◌
less_next (pos a) = ground arith
less_next (negsuc a) = ground arith

pub less_irrefl : (a : ℤ) → less a a ≡ false
less_irrefl (pos a) = ground arith
less_irrefl (negsuc a) = ground arith

-- A number above all identifiers is none of them.
pub above_absent :
    (bound id : ℤ) (m : Dict ℤ BucketMetadata)
    → IsBelow bound m
    → less bound id ≡ true
    → find id m ≡ none
above_absent bound id m below h = elim (Option-cases (find id m)) [
  | inl absent ↦ absent
  | inr (b, there) ↦ let no = below id b there in cc
]

-- What a caller sees of a backend between two calls.
pub record IsReady (s : BucketStorage) : Type 0 where
  pub index : IsIndexed s
  pub below : (current : ℤ) → s.current_id ≡ some current → IsBelow current s.buckets

pub emplace_ordered-IsBelow :
    (bound id : ℤ) (b : BucketMetadata) (m : Dict ℤ BucketMetadata)
    → find id m ≡ none
    → less bound id ≡ false
    → IsBelow bound m
    → IsBelow bound (emplace_ordered id b m)
emplace_ordered-IsBelow bound id b m absent h below j c there =
    let found = sym (find-emplace_ordered id j b m absent) ∙ there in
    elim (Bool-cases (id == j)) [
      | inl same ↦ subst (λ k. less bound k ≡ false) ((==_iff id j).0 same) h
      | inr other ↦ below j c (rw (other) at found)
    ]
