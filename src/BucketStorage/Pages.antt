-- ===== src/BucketStorage/Pages.antt =====
-- BucketScan goes through the buckets in order and leaves none out.
use mooncake.Prelude.{
  ◌+◌, ◌≤◌, ◌<◌, String, ◌≡◌, refl, ◌∙◌, sym, ap, List, [], ◌∷◌, ◌++◌, Bool-cases, inl, inr, ◌⊎◌,
  ltb, ltb→lt, ltb_ge, length, All, none, some, Option-cases, arith, ==_iff, ◌==◌, string_eq, false,
}
use mooncake.Prelude.Int.{ℤ, pos}
use mooncake.Prelude.Dict.{Dict, keys, find, emplace}
use mooncake.Prelude.Spans.{append_assoc, append_nil}
use mooncake.Types.{Expected, ok, err, keys_ultra_bucket_limit}
use mooncake.BucketStorage.{BucketStorage, BucketObjectMetadata, BucketMetadata, int_eq}
use mooncake.BucketStorage.Scan.{Page, unsigned, lower_bound, add_objects, scan_from, bucket_scan}

-- The metadata of the objects of these buckets, in a row.
abbrev pub objects_of : Dict ℤ BucketMetadata → Dict String BucketObjectMetadata
objects_of [] = []
objects_of ((id, b) ∷ m) = b.contents.object_metadata ++ objects_of m

-- `m` leads each key to where a search through `n` leads it.
abbrev pub SameEntries :
    Dict String BucketObjectMetadata → Dict String BucketObjectMetadata → Type 0
SameEntries m n = (key : String) → find key m ≡ find key n

-- An entry may stand at either end of entries that are not of its key,
moved :
    (key k : String) (o : BucketObjectMetadata) (m n : Dict String BucketObjectMetadata)
    → find key m ≡ none
    → find k ((key, o) ∷ m ++ n) ≡ find k (m ++ (key, o) ∷ n)
unfolding find
moved key k o [] n absent = refl
moved key k o ((j, v) ∷ m) n absent =
    let rest = moved key k o m n in ground (arith, rest, ==_iff j key, ==_iff key k, ==_iff j k)

found_in_front :
    (k : String) (v : BucketObjectMetadata) (m n : Dict String BucketObjectMetadata)
    → find k m ≡ some v
    → find k (m ++ n) ≡ some v
unfolding find
found_in_front k v [] n there = cc
found_in_front k v ((j, w) ∷ m) n there = ground (arith, found_in_front k v m n)

found_aside :
    (key k : String) (o : BucketObjectMetadata) (m n : Dict String BucketObjectMetadata)
    → (key == k) ≡ false
    → find k (m ++ n) ≡ find k (m ++ (key, o) ∷ n)
unfolding find
found_aside key k o [] n other = rw (other) refl
found_aside key k o ((j, w) ∷ m) n other = ground (arith, found_aside key k o m n other)

-- and is not found behind one of its key.
shadowed :
    (key k : String) (o v : BucketObjectMetadata) (m n : Dict String BucketObjectMetadata)
    → find key m ≡ some v
    → find k (m ++ n) ≡ find k (m ++ (key, o) ∷ n)
shadowed key k o v m n there = elim (Bool-cases (key == k)) [
  | inr other ↦ found_aside key k o m n other
  | inl e ↦
      let same : key ≡ k = (==_iff key k).0 e in
      let there' : find k m ≡ some v = cc in
      found_in_front k v m n there' ∙ sym (found_in_front k v m ((key, o) ∷ n) there')
]

find-emplace :
    (key k : String) (o : BucketObjectMetadata) (m n : Dict String BucketObjectMetadata)
    → find k (emplace key o m ++ n) ≡ find k (m ++ (key, o) ∷ n)
unfolding emplace find
find-emplace key k o m n = elim (Option-cases (find key m)) [
  | inl absent ↦ rw (absent, emplace) (moved key k o m n absent)
  | inr (v, there) ↦ rw (there, emplace) (shadowed key k o v m n there)
]

find-add_objects :
    (more objects n : Dict String BucketObjectMetadata) (k : String)
    → find k (add_objects more objects ++ n) ≡ find k (objects ++ (more ++ n))
unfolding add_objects
find-add_objects [] objects n k = refl
find-add_objects ((key, o) ∷ more) objects n k =
    find-add_objects more (emplace key o objects) n k ∙ find-emplace key k o objects (more ++ n)

-- Why it stopped: nothing is left, or the next bucket is too large for the rest of the page, or for
-- any page.
abbrev pub Reason :
    Dict ℤ BucketMetadata → Dict String BucketObjectMetadata → ℤ → Expected ℤ → Type 0
Reason [] objects limit next = next ≡ ok (pos 0)
Reason ((id, b) ∷ m) objects limit next =
    ((next ≡ ok id)
      × (unsigned limit < length b.contents.keys + length objects)
      × (length b.contents.keys ≤ unsigned limit))
    ⊎ ((next ≡ err keys_ultra_bucket_limit) × (unsigned limit < length b.contents.keys))

-- A page that took the buckets `taken`, each small enough, and stopped before `left`.
pub record IsPage (m : Dict ℤ BucketMetadata) (objects : Dict String BucketObjectMetadata)
    (buckets : List ℤ) (limit : ℤ) (p : Page) : Type 0 where
  pub taken : Dict ℤ BucketMetadata
  pub left : Dict ℤ BucketMetadata
  pub parted : m ≡ taken ++ left
  pub listed : p.buckets ≡ buckets ++ keys taken
  pub collected : SameEntries p.objects (objects ++ objects_of taken)
  pub small : All (λ (e : ℤ × BucketMetadata). length e.1.contents.keys ≤ unsigned limit) taken
  pub reason : Reason left p.objects limit p.next

stopped-IsPage :
    (m : Dict ℤ BucketMetadata) (objects : Dict String BucketObjectMetadata) (buckets : List ℤ)
    (limit : ℤ) (next : Expected ℤ)
    → Reason m objects limit next
    → IsPage m objects buckets limit (record { next = next; objects = objects; buckets = buckets })
stopped-IsPage m objects buckets limit next why = record {
  taken = [];
  left = m;
  parted = refl;
  listed = sym (append_nil buckets);
  collected = λ key. ap (find key) (sym (append_nil objects));
  small = tt;
  reason = why;
}

went_on-IsPage :
    (id : ℤ) (b : BucketMetadata) (m : Dict ℤ BucketMetadata)
    (objects : Dict String BucketObjectMetadata) (buckets : List ℤ) (limit : ℤ) (p : Page)
    → length b.contents.keys ≤ unsigned limit
    → IsPage m (add_objects b.contents.object_metadata objects) (buckets ++ id ∷ []) limit p
    → IsPage ((id, b) ∷ m) objects buckets limit p
went_on-IsPage id b m objects buckets limit p fits r = record {
  taken = (id, b) ∷ r.taken;
  left = r.left;
  parted = ap (◌∷◌ (id, b)) r.parted;
  listed = r.listed ∙ append_assoc buckets (id ∷ []) (keys r.taken);
  collected = λ key.
      r.collected key
      ∙ find-add_objects b.contents.object_metadata objects (objects_of r.taken) key;
  small = (fits, r.small);
  reason = r.reason;
}

scan_from-IsPage :
    (m : Dict ℤ BucketMetadata) (objects : Dict String BucketObjectMetadata) (buckets : List ℤ)
    (limit : ℤ)
    → IsPage m objects buckets limit (scan_from m objects buckets limit)
unfolding scan_from
scan_from-IsPage [] objects buckets limit =
    stopped-IsPage [] objects buckets limit (ok (pos 0)) refl
scan_from-IsPage ((id, b) ∷ m) objects buckets limit =
    let n = length b.contents.keys in
    let whole = (id, b) ∷ m in
    elim (Bool-cases (ltb (unsigned limit) n)) [
      | inl huge ↦
          rw (huge, scan_from)
            (stopped-IsPage whole objects buckets limit (err keys_ultra_bucket_limit)
              (inr (refl, ltb→lt (unsigned limit) n huge)))
      | inr fits ↦ elim (Bool-cases (ltb (unsigned limit) (n + length objects))) [
        | inl over ↦
            rw (fits, over, scan_from)
              (stopped-IsPage whole objects buckets limit (ok id) (
                inl (
                  refl,
                  ltb→lt (unsigned limit) (n + length objects) over,
                  ltb_ge (unsigned limit) n fits,
                )))
        | inr room ↦
            rw (fits, room, scan_from)
              (went_on-IsPage id b m objects buckets limit _ (ltb_ge (unsigned limit) n fits) (
                scan_from-IsPage m (add_objects b.contents.object_metadata objects)
                  (buckets ++ id ∷ []) limit))
      ]
    ]

-- BucketScan takes the buckets from the identifier given on, in order and none left out, each with no
-- more keys than the limit, and adds their identifiers to what it was given; each key then leads to
-- what it was given for it or else to what the first of the buckets has for it. It ends with 0 where no bucket is left, with the identifier of the next bucket where that one's keys and the
-- objects so far are more than the limit, or with KEYS_ULTRA_BUCKET_LIMIT where its keys alone are.
pub bucket_scan-IsPage :
    (s : BucketStorage) (id : ℤ) (objects : Dict String BucketObjectMetadata) (buckets : List ℤ)
    (limit : ℤ)
    → IsPage
        (lower_bound id s.buckets)
        objects
        buckets
        limit
        (bucket_scan s id objects buckets limit)
unfolding bucket_scan
bucket_scan-IsPage s id objects buckets limit =
    scan_from-IsPage (lower_bound id s.buckets) objects buckets limit
