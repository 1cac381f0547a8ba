-- ===== src/BucketStorage/Scan.antt =====
-- BucketScan: the objects of whole buckets, a page at a time.
use mooncake.Prelude.{
  ℕ, ◌+◌, ◌-◌, String, List, [], ◌∷◌, ◌++◌, if◌then◌else◌, string_eq, length, ltb,
}
use mooncake.Prelude.Int.{less, ℤ, pos, negsuc}
use mooncake.Prelude.Dict.{Dict, emplace}
use mooncake.Types.{Expected, ok, err, keys_ultra_bucket_limit, u64_mod}
use mooncake.BucketStorage.{BucketStorage, BucketObjectMetadata, BucketMetadata}

-- The result, and the out-parameters `objects` and `buckets`.
pub record Page : Type 0 where
  pub next : Expected ℤ
  pub objects : Dict String BucketObjectMetadata
  pub buckets : List ℤ

-- An int64_t that is compared with a size_t.
abbrev pub unsigned : ℤ → ℕ
unsigned (pos n) = n
unsigned (negsuc n) = u64_mod - 1 - n

-- std::map::lower_bound, up to the end.
unfoldable pub lower_bound : {V : Type 0} → ℤ → Dict ℤ V → Dict ℤ V
lower_bound id [] = []
lower_bound id ((k, v) ∷ m) = if less k id then lower_bound id m else (k, v) ∷ m

unfoldable pub add_objects :
    Dict String BucketObjectMetadata
    → Dict String BucketObjectMetadata
    → Dict String BucketObjectMetadata
add_objects [] objects = objects
add_objects ((key, o) ∷ more) objects = add_objects more (emplace key o objects)

-- The loop over the buckets, from an iterator on.
unfoldable pub scan_from :
    Dict ℤ BucketMetadata → Dict String BucketObjectMetadata → List ℤ → ℤ → Page
unfolding add_objects
scan_from [] objects buckets limit = record {
  next = ok (pos 0);
  objects = objects;
  buckets = buckets;
}
scan_from ((id, bucket) ∷ m) objects buckets limit =
    let n = length bucket.contents.keys in
    let rest =
      scan_from m (add_objects bucket.contents.object_metadata objects) (buckets ++ id ∷ [])
        limit in
    if ltb (unsigned limit) n
    then record { next = err keys_ultra_bucket_limit; objects = objects; buckets = buckets }
    else if ltb (unsigned limit) (n + length objects)
    then record { next = ok id; objects = objects; buckets = buckets }
    else rest

-- BucketScan
unfoldable pub bucket_scan :
    BucketStorage → ℤ → Dict String BucketObjectMetadata → List ℤ → ℤ → Page
unfolding lower_bound scan_from
bucket_scan s id objects buckets limit = scan_from (lower_bound id s.buckets) objects buckets limit
