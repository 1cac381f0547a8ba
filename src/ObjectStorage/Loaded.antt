-- ===== src/ObjectStorage/Loaded.antt =====
-- LoadObject reads into each slice the bytes of the file at the slice's place.
use mooncake.Prelude.{
  ℕ, ◌+◌, ◌≤◌, String, ◌≡◌, refl, ◌∙◌, sym, ap, ap₂, true, false, List, [], ◌∷◌, ◌++◌,
  if◌then◌else◌, nat_beq, length, take, drop, is_empty, arith, Bool-cases, inl, inr, List-cases,
  some, subst,
}
use mooncake.Prelude.Spans.{concat, append_assoc, append_nil, length-take-drop}
use mooncake.Types.{Expected-cases, ok}
use mooncake.Serializer.{Byte}
use mooncake.BucketStorage.{Disk}
use mooncake.BucketStorage.Files.{IsReliable}
use mooncake.ObjectStorage.Pieces.{
  sum, gather, total_size, pieces, scatter-gather, gather-append, sum-append,
}
use mooncake.ObjectStorage.{
  Target, Progress, scatter, start, add_to_chunk, pass_over, process_chunk, load_targets,
  load_slices, store_slices,
}

-- The loop is at `current_offset`, what is not yet counted is the chunk, and that ends here.
record IsAt (p : Progress) : Type 0 where
  sized : p.chunk_length ≡ sum p.iovs_chunk
  counted : p.total_bytes_processed + p.chunk_length ≡ p.current_offset
  ends : is_empty p.iovs_chunk ≡ false → p.chunk_start_offset + p.chunk_length ≡ p.current_offset

start-IsAt : IsAt start
start-IsAt = record { sized = refl; counted = refl; ends = λ e. cc }

-- After process_chunk: nothing is pending.
record IsFlushed (file : List Byte) (p p' : Progress) : Type 0 where
  empty : p'.iovs_chunk ≡ []
  nothing : p'.chunk_length ≡ 0
  here : p'.current_offset ≡ p.current_offset
  total : p'.total_bytes_processed ≡ p.current_offset
  got : p'.loaded ≡ p.loaded ++ gather file p.chunk_start_offset p.iovs_chunk

add_to_chunk-IsAt : (n : ℕ) (p : Progress) → IsAt p → IsAt (add_to_chunk n p)
add_to_chunk-IsAt n p a = elim (List-cases p.iovs_chunk) [
  | inl e ↦ record {
    sized = omega (arith, a.sized, sum-append n p.iovs_chunk);
    counted = omega (arith, a.counted);
    ends = λ h.
        rw (e)
          (let none_yet : sum p.iovs_chunk ≡ 0 = rw (e) refl in omega (arith, a.sized, none_yet));
  }
  | inr (m, ns, e) ↦
      let some_yet : is_empty p.iovs_chunk ≡ false = rw (e) refl in
      record {
        sized = omega (arith, a.sized, sum-append n p.iovs_chunk);
        counted = omega (arith, a.counted);
        ends = λ h. rw (some_yet) (omega (arith, a.ends some_yet));
      }
]

module _ {W : Type 0} (disk : Disk W) (good : IsReliable disk) where
  process_chunk-IsFlushed :
      (w : W) (path : String) (file : List Byte) (p : Progress)
      → good.content w path ≡ some file
      → IsAt p
      → p.current_offset ≤ length file
      → (p' : Progress) × (process_chunk disk w path p ≡ ok p') × IsFlushed file p p'
  unfolding process_chunk
  process_chunk-IsFlushed w path file p there a le = elim (List-cases p.iovs_chunk) [
    | inl e ↦
        let none_yet : is_empty p.iovs_chunk ≡ true = rw (e) refl in
        let no_sum : sum p.iovs_chunk ≡ 0 = rw (e) refl in
        let no_bytes : gather file p.chunk_start_offset p.iovs_chunk ≡ [] = rw (e) refl in
        (
          p,
          simp (none_yet, process_chunk) refl,
          record {
            empty = e;
            nothing = omega (arith, a.sized, no_sum);
            here = refl;
            total = omega (arith, a.counted, a.sized, no_sum);
            got = sym (append_nil p.loaded) ∙ ap (λ xs. p.loaded ++ xs) (sym no_bytes);
          },
        )
    | inr (m, ns, e) ↦
        let some_yet : is_empty p.iovs_chunk ≡ false = rw (e) refl in
        let end = a.ends some_yet in
        let bytes = take p.chunk_length (drop p.chunk_start_offset file) in
        let answer =
          good.vector_read_within w path file p.chunk_length p.chunk_start_offset there
            (omega (arith, end)) in
        let whole : length bytes ≡ p.chunk_length =
          length-take-drop p.chunk_start_offset p.chunk_length file (omega (arith, end)) in
        let fits : nat_beq (length bytes) p.chunk_length ≡ true = ground (arith, whole) in
        let p' : Progress = record p {
          total_bytes_processed = p.total_bytes_processed + p.chunk_length;
          iovs_chunk = [];
          chunk_length = 0;
          loaded = p.loaded ++ scatter p.iovs_chunk bytes;
        } in
        (
          p',
          simp (some_yet, answer, fits, process_chunk) refl,
          record {
            empty = refl;
            nothing = refl;
            here = refl;
            total = a.counted;
            got =
                ap (λ xs. p.loaded ++ xs)
                  (ap (λ n. scatter p.iovs_chunk (take n (drop p.chunk_start_offset file))) a.sized
                    ∙ scatter-gather file p.chunk_start_offset p.iovs_chunk);
          },
        )
  ]

  passed-IsAt :
      (file : List Byte) (n : ℕ) (p p' : Progress) → IsFlushed file p p' → IsAt (pass_over n p')
  passed-IsAt file n p p' f = record {
    sized = f.nothing ∙ sym (ap sum f.empty);
    counted = omega (arith, f.total, f.nothing, f.here);
    ends = λ h. let none_yet : is_empty p'.iovs_chunk ≡ true = ap is_empty f.empty in cc;
  }

  -- A slice joins the chunk at the place that the loop has reached.
  gather-chunk :
      (file : List Byte) (n : ℕ) (p : Progress)
      → IsAt p
      → gather file (add_to_chunk n p).chunk_start_offset (add_to_chunk n p).iovs_chunk
        ≡ gather file p.chunk_start_offset p.iovs_chunk ++ take n (drop p.current_offset file) ∷ []
  gather-chunk file n p a = elim (List-cases p.iovs_chunk) [
    | inl e ↦ rw (e) refl
    | inr (m, ns, e) ↦
        let some_yet : is_empty p.iovs_chunk ≡ false = rw (e) refl in
        let here : p.chunk_start_offset + sum p.iovs_chunk ≡ p.current_offset =
          omega (arith, a.ends some_yet, a.sized) in
        ap
          (λ b.
            gather file (if b then p.current_offset else p.chunk_start_offset)
              (p.iovs_chunk ++ n ∷ []))
          some_yet
        ∙ gather-append file p.chunk_start_offset n p.iovs_chunk
        ∙ ap (λ i. gather file p.chunk_start_offset p.iovs_chunk ++ take n (drop i file) ∷ []) here
  ]

  load_targets_lem :
      (w : W) (path : String) (file : List Byte) (targets : List Target) (p : Progress)
      → good.content w path ≡ some file
      → IsAt p
      → p.current_offset + total_size targets ≤ length file
      → (p' : Progress) × (load_targets disk w path targets p ≡ ok p')
        × (p'.loaded
            ≡ p.loaded
              ++ (gather file p.chunk_start_offset p.iovs_chunk
                  ++ pieces file p.current_offset targets))
        × (p'.total_bytes_processed ≡ p.current_offset + total_size targets)
  unfolding load_targets
  load_targets_lem w path file [] p there a le =
      let (p', e, f) = process_chunk-IsFlushed w path file p there a (omega arith) in
      (
        p',
        e,
        f.got
            ∙ ap (λ xs. p.loaded ++ xs)
                (sym (append_nil (gather file p.chunk_start_offset p.iovs_chunk))),
        omega (arith, f.total),
      )
  load_targets_lem w path file (t ∷ targets) p there a le = elim (Bool-cases t.has_memory) [
    | inl memory ↦
        let n = t.size in
        let (p', e, got, total) =
          load_targets_lem w path file targets (add_to_chunk n p) there (add_to_chunk-IsAt n p a)
            (omega arith) in
        let chunk = gather file p.chunk_start_offset p.iovs_chunk in
        let rest = pieces file (p.current_offset + n) targets in
        (
          p',
          rw (memory) e,
          rw (memory) (
              got
              ∙ ap (λ xs. p.loaded ++ (xs ++ rest)) (gather-chunk file n p a)
              ∙ ap (λ xs. p.loaded ++ xs)
                  (append_assoc chunk (take n (drop p.current_offset file) ∷ []) rest)),
          omega (arith, total),
        )
    | inr gap ↦
        let n = t.size in
        let (p1, flushed, f) = process_chunk-IsFlushed w path file p there a (omega arith) in
        let (p', e, got, total) =
          load_targets_lem w path file targets (pass_over n p1) there (passed-IsAt file n p p1 f)
            (omega (arith, f.here)) in
        let chunk = gather file p.chunk_start_offset p.iovs_chunk in
        let at : p1.current_offset + n ≡ p.current_offset + n = omega (arith, f.here) in
        (
          p',
          rw (gap, flushed) e,
          rw (gap) (
              got
              ∙ ap₂
                  (λ xs ns.
                    xs
                    ++ (gather file p1.chunk_start_offset ns
                        ++ pieces file (p1.current_offset + n) targets))
                  f.got f.empty
              ∙ ap (λ i. p.loaded ++ chunk ++ pieces file i targets) at
              ∙ append_assoc p.loaded chunk (pieces file (p.current_offset + n) targets)),
          omega (arith, total, f.here),
        )
  ]

  -- A file that holds the bytes of all the slices asked for, and the length that is theirs.
  pub load_slices-pieces :
      (w : W) (path : String) (file : List Byte) (targets : List Target)
      → good.content w path ≡ some file
      → total_size targets ≤ length file
      → load_slices disk w path targets (total_size targets) ≡ ok (pieces file 0 targets)
  unfolding load_slices
  load_slices-pieces w path file targets there le =
      let (p', e, got, total) =
        load_targets_lem w path file targets start there start-IsAt (omega arith) in
      let opened = good.open_read_there w path file there in
      let whole : nat_beq p'.total_bytes_processed (total_size targets) ≡ true =
        ground (arith, total) in
      simp (opened, e, whole, load_slices) (ap ok got)

  store_slices-content :
      (w w' : W) (path : String) (slices : List (List Byte))
      → store_slices disk w path slices ≡ (ok tt, w')
      → good.content w' path ≡ some (concat slices)
  unfolding store_slices
  store_slices-content w w' path slices h =
      let w1 = (disk.open_write w path).1 in
      elim (Bool-cases (disk.open_write w path).0) [
        | inr e ↦ let h' = simp (e, store_slices) at h in cc
        | inl e ↦ elim (Expected-cases (disk.vector_write w1 path slices).0) [
          | inr (code, f) ↦ let h' = simp (e, f, store_slices) at h in cc
          | inl (n, f) ↦ elim (Bool-cases (nat_beq n (length (concat slices)))) [
            | inr short ↦ let h' = simp (e, f, short, store_slices) at h in cc
            | inl whole ↦
                let h' = simp (e, f, whole, store_slices) at h in
                let end : (disk.vector_write w1 path slices).1 ≡ w' = cc in
                subst (λ v. good.content v path ≡ some (concat slices)) end
                  (good.vector_write_all w1 path slices n (good.open_write_empties w path e) f)
          ]
        ]
      ]

  -- On reliable files, if StoreObject of some slices succeeds, then LoadObject into slices of no more
  -- bytes, of the length that these have together, succeeds, and reads into each of them that has
  -- memory the stored bytes at its place, whichever of them have none.
  pub store-load :
      (w w' : W) (path : String) (slices : List (List Byte)) (targets : List Target)
      → store_slices disk w path slices ≡ (ok tt, w')
      → total_size targets ≤ length (concat slices)
      → load_slices disk w' path targets (total_size targets)
        ≡ ok (pieces (concat slices) 0 targets)
  store-load w w' path slices targets h le =
      load_slices-pieces w' path (concat slices) targets (store_slices-content w w' path slices h)
        le
