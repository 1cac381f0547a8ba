-- ===== src/BucketStorage/Index.antt =====
-- The index of a BucketStorageBackend agrees with its buckets, after Init and after every BatchOffload.
use mooncake.Prelude.{
  String, ◌≡◌, refl, ◌∙◌, sym, ap, false, none, some, List, string_eq, is_empty, Bool-cases,
  Option-cases, inl, inr, ◌⊎◌, subst,
}
use mooncake.Prelude.Int.{less, ℤ}
use mooncake.Prelude.Dict.{Dict, find}
use mathlib.Core.Option.{some-injective}
use mooncake.Types.{
  is_ok, ErrorCode, internal_error, invalid_key, Expected, ok, err, Expected-cases,
}
use mooncake.Serializer.{Byte}
use mooncake.BucketStorage.{Disk, BucketStorage, BucketMetadata, int_eq}
use mooncake.BucketStorage.Build.{build_bucket, write_bucket}
use mooncake.BucketStorage.Offload.{
  next_id, enter_bucket, handle_complete, CompleteHandler, offload, batch_offload,
}
use mooncake.BucketStorage.Located.{
  enter_bucket-IsIndexed, less-trans_next, less_next, less_irrefl, above_absent, IsReady,
  emplace_ordered-IsBelow,
}

module _ {W : Type 0} (disk : Disk W) where
  -- How an offload ends that has stored its bucket.
  pub record HasStored (w : W) (s : BucketStorage) (id : ℤ) (batch : Dict String (List (List Byte)))
      (handler : CompleteHandler) : Type 0 where
    pub bucket : BucketMetadata
    pub iovs : List (List Byte)
    pub stored : BucketMetadata
    pub world : W
    pub built : build_bucket disk batch ≡ ok (bucket, iovs)
    pub written : write_bucket disk w s.storage_path id bucket iovs ≡ (ok stored, world)
    pub ended : offload disk w s id batch handler ≡ (ok id, world, enter_bucket id stored s)

  -- How one ends that has not.
  abbrev HasFailed :
      W → BucketStorage → ℤ → Dict String (List (List Byte)) → CompleteHandler → Type 0
  HasFailed w s id batch handler =
      ((code : ErrorCode) × ((offload disk w s id batch handler).0 ≡ err code))
      × ((offload disk w s id batch handler).2 ≡ s)

  pub offload-cases :
      (w : W) (s : BucketStorage) (id : ℤ) (batch : Dict String (List (List Byte)))
      (handler : CompleteHandler)
      → HasFailed w s id batch handler ⊎ HasStored w s id batch handler
  unfolding offload
  offload-cases w s id batch handler = elim (Expected-cases (build_bucket disk batch)) [
    | inr (code, e) ↦ inl (rw (e, offload) ((code, refl), refl))
    | inl ((bucket, iovs), e) ↦
        let result = write_bucket disk w s.storage_path id bucket iovs in
        elim (Expected-cases result.0) [
          | inr (code, f) ↦ inl (rw (e, f, offload) ((code, refl), refl))
          | inl (stored, f) ↦
              elim (Bool-cases (is_ok (handle_complete handler stored.contents.object_metadata))) [
                | inl good ↦ inr (record {
                  bucket = bucket;
                  iovs = iovs;
                  stored = stored;
                  world = result.1;
                  built = e;
                  written = ap (λ r. (r, result.1)) f;
                  ended = rw (e, f, good, offload) refl;
                })
                | inr bad ↦ inl (rw (e, f, bad, offload) ((_, refl), refl))
              ]
        ]
  ]

  -- With a new identifier, all that is stored lies below or at it.
  renewed-IsReady :
      (s : BucketStorage) (current : ℤ)
      → IsReady s
      → s.current_id ≡ some current
      → IsReady (record s { current_id = some (next_id current) })
  renewed-IsReady s current r e = record {
    index = record { indexed = r.index.indexed; counted = r.index.counted };
    below = λ c same id b there.
        subst (λ x. less x id ≡ false) (some-injective (next_id current) c same)
          (less-trans_next current id (r.below current e id b there));
  }

  entered-IsReady :
      (s : BucketStorage) (id : ℤ) (b : BucketMetadata)
      → IsReady s
      → s.current_id ≡ some id
      → find id s.buckets ≡ none
      → IsReady (enter_bucket id b s)
  unfolding enter_bucket
  entered-IsReady s id b r e absent = record {
    index = enter_bucket-IsIndexed id b s r.index absent;
    below = λ c same.
        let here = some-injective id c (sym e ∙ same) in
        emplace_ordered-IsBelow c id b s.buckets absent
          (subst (λ x. less x id ≡ false) here (less_irrefl id)) (r.below c same);
  }

  offload-IsReady :
      (w : W) (s : BucketStorage) (id : ℤ) (batch : Dict String (List (List Byte)))
      (handler : CompleteHandler)
      → IsReady s
      → s.current_id ≡ some id
      → find id s.buckets ≡ none
      → IsReady (offload disk w s id batch handler).2
  offload-IsReady w s id batch handler r e absent = elim (offload-cases w s id batch handler) [
    | inl failed ↦ subst IsReady (sym failed.1) r
    | inr h ↦
        subst IsReady (sym (ap (λ (x : Expected ℤ × W × BucketStorage). x.2) h.ended))
          (entered-IsReady s id h.stored r e absent)
  ]

  -- The identifier of the next bucket is new.
  pub next_id_absent :
      (s : BucketStorage) (current : ℤ)
      → IsReady s
      → s.current_id ≡ some current
      → find (next_id current) s.buckets ≡ none
  next_id_absent s current r e =
      above_absent current (next_id current) s.buckets (r.below current e) (less_next current)

  abbrev pub renewed : BucketStorage → ℤ → BucketStorage
  renewed s current = record s { current_id = some (next_id current) }

  -- BatchOffload refuses and changes nothing, or takes the next identifier and goes on.
  pub batch_offload-cases :
      (w : W) (s : BucketStorage) (batch : Dict String (List (List Byte)))
      (handler : CompleteHandler)
      → ((code : ErrorCode) × (batch_offload disk w s batch handler ≡ (err code, w, s)))
        ⊎ ((current : ℤ) × (s.current_id ≡ some current)
            × (batch_offload disk w s batch handler
                ≡ offload disk w (renewed s current) (next_id current) batch handler))
  unfolding batch_offload
  batch_offload-cases w s batch handler = elim (Bool-cases s.initialized) [
    | inr e ↦ inl (internal_error, simp (e, batch_offload) refl)
    | inl e ↦ elim (Bool-cases (is_empty batch)) [
      | inl f ↦ inl (invalid_key, simp (e, f, batch_offload) refl)
      | inr f ↦ elim (Option-cases s.current_id) [
        | inl g ↦ inl (internal_error, simp (e, f, g, batch_offload) refl)
        | inr (current, g) ↦ inr (current, g, simp (e, f, g, batch_offload) refl)
      ]
    ]
  ]

  -- If every entry of the index says what the metadata of its bucket say, the byte count is that of
  -- the buckets, and no bucket has an identifier above the generator's, so it is after BatchOffload,
  -- however that ends.
  pub batch_offload-IsReady :
      (w : W) (s : BucketStorage) (batch : Dict String (List (List Byte)))
      (handler : CompleteHandler)
      → IsReady s
      → IsReady (batch_offload disk w s batch handler).2
  batch_offload-IsReady w s batch handler r = elim (batch_offload-cases w s batch handler) [
    | inl (code, e) ↦ subst IsReady (sym (ap (λ (x : Expected ℤ × W × BucketStorage). x.2) e)) r
    | inr (current, g, e) ↦
        subst IsReady (sym (ap (λ (x : Expected ℤ × W × BucketStorage). x.2) e)) (
          offload-IsReady w (renewed s current) (next_id current) batch handler
            (renewed-IsReady s current r g) refl (next_id_absent s current r g))
  ]
