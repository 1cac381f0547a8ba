-- ===== src/BucketStorage/Requests.antt =====
-- BatchLoad of objects that lie in one bucket.
use mooncake.Prelude.{
  ℕ, String, ◌≡◌, refl, ◌∙◌, sym, ap, true, some, List, [], ◌∷◌, ◌++◌, string_eq, ==_refl, arith,
  length, All,
}
use mooncake.Prelude.Int.{ℤ}
use mooncake.Prelude.Dict.{Dict, find, put, IsMap, find_head, find_other, behind_head}
use mooncake.Prelude.Spans.{concat, append_assoc, append_nil}
use mooncake.Types.{Void, Expected, ok}
use mooncake.Serializer.{Byte}
use mooncake.BucketStorage.{Disk, BucketStorage, StorageObjectMetadata, int_eq}
use mooncake.BucketStorage.Build.{bucket_data_path}
use mooncake.BucketStorage.Load.{
  Loaded, slice_size, group_keys, load_object, load_objects, batch_load_bucket, load_groups,
  batch_load,
}

-- Objects by key, with their slices; the sizes that a caller asks for, and what is then read.
abbrev pub Objects : Type 0
Objects = Dict String (List (List Byte))

abbrev pub sizes : Objects → Dict String ℕ
sizes [] = []
sizes ((key, slices) ∷ m) = (key, length (concat slices)) ∷ sizes m

abbrev pub contents : Objects → Loaded
contents [] = []
contents ((key, slices) ∷ m) = (key, concat slices) ∷ contents m

abbrev keys : Objects → List String
keys [] = []
keys ((key, slices) ∷ m) = key ∷ keys m

pub slice_size-sizes :
    (key : String) (slices : List (List Byte)) (m : Objects)
    → find key m ≡ some slices
    → slice_size (sizes m) key ≡ length (concat slices)
unfolding find
slice_size-sizes key slices [] h = cc
slice_size-sizes key slices ((k, v) ∷ m) h = ground (arith, slice_size-sizes key slices m)

-- What holds of every entry that is found holds along the list.
pub All-entries :
    (P : String → List (List Byte) → Type 0) (m : Objects)
    → IsMap m
    → ((key : String) (slices : List (List Byte)) → find key m ≡ some slices → P key slices)
    → All (λ (e : String × List (List Byte)). P e.0 e.1) m
All-entries P [] w h = tt
All-entries P ((key, slices) ∷ m) w h = (
  h key slices (find_head key slices m),
  All-entries P m w.1 (λ k v found.
      h k v (find_other key k slices m (behind_head key k slices v m w found) ∙ found)),
)

group_keys_one :
    (s : BucketStorage) (id : ℤ) (m : Objects) (ks : List String)
    → All
        (λ (e : String × List (List Byte)).
          (x : StorageObjectMetadata) × (find e.0 s.object_bucket_map ≡ some x)
          × (x.bucket_id ≡ id))
        m
    → group_keys s (sizes m) ((id, ks) ∷ []) ≡ ok ((id, ks ++ keys m) ∷ [])
unfolding group_keys find put
group_keys_one s id [] ks h = ap (λ xs. ok ((id, xs) ∷ [])) (sym (append_nil ks))
group_keys_one s id ((key, slices) ∷ m) ks h =
    let (x, found, at) = h.0 in
    rw (found, group_keys)
      (rw (at, ==_refl id)
        (group_keys_one s id m (ks ++ key ∷ []) h.1
          ∙ ap (λ xs. ok ((id, xs) ∷ [])) (append_assoc ks (key ∷ []) (keys m))))

load_objects_each :
    {W : Type 0} (disk : Disk W) (w : W) (s : BucketStorage) (id : ℤ) (wanted : Dict String ℕ)
    (m : Objects) (loaded : Loaded)
    → All
        (λ (e : String × List (List Byte)). load_object disk w s id e.0 wanted ≡ ok (concat e.1))
        m
    → load_objects disk w s id (keys m) wanted loaded ≡ (ok tt, loaded ++ contents m)
unfolding load_objects
load_objects_each disk w s id wanted [] loaded h = ap (λ xs. (ok tt, xs)) (sym (append_nil loaded))
load_objects_each disk w s id wanted ((key, slices) ∷ m) loaded h =
    rw (h.0, load_objects)
      (load_objects_each disk w s id wanted m (loaded ++ (key, concat slices) ∷ []) h.1
        ∙ ap (λ xs. (ok tt, xs)) (append_assoc loaded ((key, concat slices) ∷ []) (contents m)))

load_groups_one :
    {W : Type 0} (disk : Disk W) (w : W) (s : BucketStorage) (id : ℤ) (ks : List String)
    (wanted : Dict String ℕ) (loaded : Loaded)
    → disk.open_read w (bucket_data_path disk s.storage_path id) ≡ true
    → load_objects disk w s id ks wanted [] ≡ (ok tt, loaded)
    → load_groups disk w s ((id, ks) ∷ []) wanted [] ≡ (ok tt, loaded)
unfolding load_groups batch_load_bucket
load_groups_one disk w s id ks wanted loaded opened all_read =
    let one : batch_load_bucket disk w s id ks wanted [] ≡ (ok tt, loaded) =
      rw (opened, batch_load_bucket) all_read in
    let done = ap (λ (r : Expected Void × Loaded). r.0) one in
    rw (done, load_groups) (ap (λ (r : Expected Void × Loaded). (ok tt, r.1)) one)

-- If each object asked for lies in the bucket `id`, by the index and by what its bucket loads, then
-- BatchLoad reads them all, in the order asked for.
pub batch_load_one :
    {W : Type 0} (disk : Disk W) (w : W) (s : BucketStorage) (id : ℤ) (m : Objects)
    → disk.open_read w (bucket_data_path disk s.storage_path id) ≡ true
    → All
        (λ (e : String × List (List Byte)).
          (x : StorageObjectMetadata) × (find e.0 s.object_bucket_map ≡ some x)
          × (x.bucket_id ≡ id))
        m
    → All
        (λ (e : String × List (List Byte)). load_object disk w s id e.0 (sizes m) ≡ ok (concat e.1))
        m
    → batch_load disk w s (sizes m) ≡ (ok tt, contents m)
unfolding batch_load group_keys load_groups batch_load_bucket find put
batch_load_one disk w s id [] opened indexed loads = refl
batch_load_one disk w s id ((key, slices) ∷ m) opened indexed loads =
    let (x, found, at) = indexed.0 in
    let whole = (key, slices) ∷ m in
    let grouped : group_keys s (sizes whole) [] ≡ ok ((id, keys whole) ∷ []) =
      rw (found, group_keys) (rw (at) (group_keys_one s id m (key ∷ []) indexed.1)) in
    let loaded = load_objects_each disk w s id (sizes whole) whole [] loads in
    rw (grouped, batch_load)
      (load_groups_one disk w s id (keys whole) (sizes whole) (contents whole) opened loaded)
