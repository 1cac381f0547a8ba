-- ===== src/BucketStorage/RoundTrip.antt =====
-- What BatchOffload stores, BatchLoad reads back.
use mooncake.Prelude.{
  String, ◌≡◌, refl, ◌∙◌, sym, ap, none, some, List, string_eq, ==_refl, inl, inr, subst, subst₂,
}
use mooncake.Prelude.Int.{ℤ}
use mooncake.Prelude.Dict.{find, IsMap}
use mooncake.Prelude.Spans.{concat}
use mooncake.Types.{Expected, ok}
use mooncake.Serializer.{Byte}
use mooncake.BucketStorage.{Disk, BucketStorage, BucketObjectMetadata, BucketContents, int_eq}
use mooncake.BucketStorage.Build.{bucket_data_path}
use mooncake.BucketStorage.Offload.{next_id, located, enter_bucket, CompleteHandler, batch_offload}
use mooncake.BucketStorage.Load.{batch_load}
use mooncake.BucketStorage.Layout.{IsStored, build_bucket-IsStored}
use mooncake.BucketStorage.Located.{IsReady, find-index_objects, find-emplace_ordered}
use mooncake.BucketStorage.Index.{
  HasStored, offload-cases, next_id_absent, batch_offload-cases, renewed,
}
use mooncake.BucketStorage.Files.{IsReliable, write_bucket_content, load_object_stored}
use mooncake.BucketStorage.Requests.{
  Objects, sizes, contents, slice_size-sizes, All-entries, batch_load_one,
}

module _ {W : Type 0} (disk : Disk W) (good : IsReliable disk) where
  stored-batch_load :
      (w : W) (s : BucketStorage) (id : ℤ) (batch request : Objects) (handler : CompleteHandler)
      → find id s.buckets ≡ none
      → IsMap batch
      → IsMap request
      → ((key : String) (slices : List (List Byte))
          → find key request ≡ some slices
          → (find key batch ≡ some slices) × (find key s.object_bucket_map ≡ none))
      → (h : HasStored disk w s id batch handler)
      → batch_load disk h.world (enter_bucket id h.stored s) (sizes request)
        ≡ (ok tt, contents request)
  unfolding enter_bucket find
  stored-batch_load w s id batch request handler absent w_batch w_request asked h =
      let s' = enter_bucket id h.stored s in
      let path = bucket_data_path disk s.storage_path id in
      let (content, same) =
        write_bucket_content disk good w h.world s.storage_path id h.bucket h.stored h.iovs
          h.written in
      let layout = (build_bucket-IsStored disk batch h.bucket h.iovs w_batch h.built).1 in
      let objects = h.stored.contents.object_metadata in
      let found = λ (key : String) (slices : List (List Byte)) (e : find key request ≡ some slices).
        subst
          (λ (c : BucketContents).
            (o : BucketObjectMetadata) × (find key c.object_metadata ≡ some o)
            × IsStored (concat h.iovs) (disk.bytes_of key) slices o)
          (sym same) (layout key slices (asked key slices e).0) in
      let there = find-emplace_ordered id id h.stored s.buckets absent ∙ rw (==_refl id) refl in
      batch_load_one disk h.world s' id request
        (good.open_read_there h.world path (concat h.iovs) content)
        (All-entries _ request w_request (λ key slices e.
          let (o, at, stored) = found key slices e in
          (
            located id o,
            find-index_objects id objects s.object_bucket_map key (asked key slices e).1
                ∙ rw (at) refl,
            refl,
          )))
        (All-entries _ request w_request (λ key slices e.
          let (o, at, stored) = found key slices e in
          load_object_stored disk good h.world s' id key (sizes request) h.stored o (concat h.iovs)
            slices there at stored content (slice_size-sizes key slices request e)))

  -- On reliable files, in a backend whose index agrees with its buckets, if BatchOffload of a batch
  -- with distinct keys succeeds, then BatchLoad of any of its objects that were not indexed before, in
  -- any order, succeeds and reads for each key the bytes of its slices, end to end.
  pub batch_offload-batch_load :
      (w w' : W) (s s' : BucketStorage) (id : ℤ) (batch request : Objects)
      (handler : CompleteHandler)
      → IsReady s
      → IsMap batch
      → IsMap request
      → ((key : String) (slices : List (List Byte))
          → find key request ≡ some slices
          → (find key batch ≡ some slices) × (find key s.object_bucket_map ≡ none))
      → batch_offload disk w s batch handler ≡ (ok id, w', s')
      → batch_load disk w' s' (sizes request) ≡ (ok tt, contents request)
  batch_offload-batch_load w w' s s' id batch request handler r w_batch w_request asked h =
      elim (batch_offload-cases disk w s batch handler) [
        | inl (code, e) ↦ let bad = sym e ∙ h in cc
        | inr (current, g, e) ↦
            let s1 = renewed disk s current in
            let absent = next_id_absent disk s current r g in
            elim (offload-cases disk w s1 (next_id current) batch handler) [
              | inl failed ↦
                  let bad =
                    sym failed.0.1 ∙ ap (λ (x : Expected ℤ × W × BucketStorage). x.0) (sym e ∙ h) in
                  cc
              | inr stored ↦
                  let end = sym stored.ended ∙ sym e ∙ h in
                  subst₂ (λ v t. batch_load disk v t (sizes request) ≡ (ok tt, contents request))
                    (ap (λ (x : Expected ℤ × W × BucketStorage). x.1) end)
                    (ap (λ (x : Expected ℤ × W × BucketStorage). x.2) end)
                    (stored-batch_load w s1 (next_id current) batch request handler absent w_batch
                      w_request asked stored)
            ]
      ]
