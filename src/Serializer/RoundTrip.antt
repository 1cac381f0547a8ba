-- ===== src/Serializer/RoundTrip.antt =====
-- What deserialize_from accepts: exactly the buffers that the class's reads use up.
use mooncake.Prelude.{
  ℕ, ◌+◌, ◌%◌, ◌<◌, ◌≤◌, ◌≡◌, ◌↔◌, refl, ◌∙◌, sym, ap, ap₂, false, Option, none, some, List, [],
  ◌∷◌, ◌++◌, if◌then◌else◌, ltb, nat_beq, length, length-append, take, drop, arith, Option-cases,
  inl, inr, subst,
}
use mooncake.Prelude.Spans.{
  concat, append_assoc, append_nil, take-append, drop-append, drop-drop, take-add, take_all,
  length-take-drop,
}
use mooncake.Types.{ok_code, u64_mod}
use mooncake.Serializer.{
  Byte, Reads, read, done, null, throw, Reader, Outcome, threw, returned, read_bytes, run_reads,
  accept, deserialize_from, serialize_to,
}
use mooncake.Serializer.Written.{writes, serialize_to_exact}

-- The class's reads, given pieces instead of a buffer: each read takes one piece of its size.
unfoldable pub feed : {A : Type 0} → Reads A → List (List Byte) → Option A
feed (read n next) [] = none
feed (read n next) (piece ∷ pieces) =
    let rest = feed (next piece) pieces in if nat_beq (length piece) n then rest else none
feed (done a) [] = some a
feed (done a) (piece ∷ pieces) = none
feed null pieces = none
feed throw pieces = none

-- No read asks for so much that an offset within `limit` would wrap.
abbrev pub IsBounded : {A : Type 0} → ℕ → Reads A → Type 0
IsBounded limit (read n next) =
    (limit + n < u64_mod) × ((bytes : List Byte) → IsBounded limit (next bytes))
IsBounded limit (done a) = Unit
IsBounded limit null = Unit
IsBounded limit throw = Unit

abbrev at : List Byte → ℕ → Reader
at buffer offset = record { buffer = buffer; offset = offset }

run_reads-read :
    {A : Type 0} (n : ℕ) (next : List Byte → Reads A) (r r' : Reader) (bytes : List Byte)
    → read_bytes r n ≡ some (bytes, r')
    → run_reads (read n next) r ≡ run_reads (next bytes) r'
unfolding run_reads
run_reads-read n next r r' bytes h = rw (h, run_reads) refl

-- A read within the buffer.
read_bytes_within :
    (buffer before piece after : List Byte)
    → buffer ≡ before ++ (piece ++ after)
    → length buffer < u64_mod
    → read_bytes (at buffer (length before)) (length piece)
      ≡ some (piece, at buffer (length (before ++ piece)))
unfolding read_bytes
read_bytes_within buffer before piece after e h =
    let whole = ap length e ∙ length-append before (piece ++ after) in
    let split = length-append piece after in
    let reach = length-append before piece in
    let wrap : (length before + length piece) % u64_mod ≡ length (before ++ piece) =
      omega (arith, whole, split, reach) in
    let fits : ltb (length buffer) (length (before ++ piece)) ≡ false =
      ground (arith, whole, split, reach) in
    let found : take (length piece) (drop (length before) buffer) ≡ piece =
      ap (λ xs. take (length piece) (drop (length before) xs)) e
      ∙ ap (take (length piece)) (drop-append before (piece ++ after))
      ∙ take-append piece after in
    rw (wrap, fits, found) refl

run_reads-feed :
    {A : Type 0} (reads : Reads A) (pieces : List (List Byte)) (buffer before after : List Byte)
    (a : A)
    → feed reads pieces ≡ some a
    → buffer ≡ before ++ (concat pieces ++ after)
    → length buffer < u64_mod
    → run_reads reads (at buffer (length before))
      ≡ returned (some a) (at buffer (length (before ++ concat pieces)))
unfolding run_reads feed
run_reads-feed (read n next) [] buffer before after a h e small = cc
run_reads-feed (read n next) (piece ∷ pieces) buffer before after a h e small =
    let (size, rest) : (length piece ≡ n) × (feed (next piece) pieces ≡ some a) = ground arith in
    let assoc = ap (λ xs. before ++ xs) (append_assoc piece (concat pieces) after) in
    let got = read_bytes_within buffer before piece (concat pieces ++ after) (e ∙ assoc) small in
    run_reads-read n next _ _ piece (
      subst
        (λ m.
          read_bytes (at buffer (length before)) m
          ≡ some (piece, at buffer (length (before ++ piece))))
        size got)
    ∙ run_reads-feed (next piece) pieces buffer (before ++ piece) after a rest
        (e ∙ assoc ∙ sym (append_assoc before piece (concat pieces ++ after))) small
    ∙ ap (λ xs. returned (some a) (at buffer (length xs)))
        (append_assoc before piece (concat pieces))
run_reads-feed (done b) [] buffer before after a h e small =
    let same : b ≡ a = cc in
    ap₂ (λ x xs. returned (some x) (at buffer (length xs))) same (sym (append_nil before))
run_reads-feed (done b) (piece ∷ pieces) buffer before after a h e small = cc
run_reads-feed null pieces buffer before after a h e small = cc
run_reads-feed throw pieces buffer before after a h e small = cc

read_bytes_inv :
    (buffer : List Byte) (offset n : ℕ) (bytes : List Byte) (r : Reader)
    → offset + n < u64_mod
    → read_bytes (at buffer offset) n ≡ some (bytes, r)
    → (offset + n ≤ length buffer)
      × (bytes ≡ take n (drop offset buffer))
      × (r ≡ at buffer (offset + n))
unfolding read_bytes
read_bytes_inv buffer offset n bytes r small h =
    let wrap : (offset + n) % u64_mod ≡ offset + n = omega arith in
    let h' = rw (wrap) at h in ground arith

whole_taken :
    (buffer : List Byte) (offset n : ℕ) (bytes rest : List Byte)
    → bytes ≡ take n (drop offset buffer)
    → length bytes ≡ n
    → rest ≡ take (length rest) (drop (offset + n) buffer)
    → bytes ++ rest ≡ take (length (bytes ++ rest)) (drop offset buffer)
whole_taken buffer offset n bytes rest cut size tiled =
    let total : length (bytes ++ rest) ≡ n + length rest =
      omega (arith, length-append bytes rest) in
    ap₂ ◌++◌ cut (tiled ∙ ap (take (length rest)) (sym (drop-drop offset n buffer)))
    ∙ sym (take-add n (length rest) (drop offset buffer))
    ∙ ap (λ m. take m (drop offset buffer)) (sym total)

-- What the reads took, if they returned an object.
feed-run_reads :
    {A : Type 0} (reads : Reads A) (buffer : List Byte) (offset : ℕ) (a : A) (r : Reader)
    → IsBounded (length buffer) reads
    → offset ≤ length buffer
    → run_reads reads (at buffer offset) ≡ returned (some a) r
    → (pieces : List (List Byte)) × (feed reads pieces ≡ some a)
      × (r ≡ at buffer (offset + length (concat pieces)))
      × (concat pieces ≡ take (length (concat pieces)) (drop offset buffer))
unfolding run_reads feed
feed-run_reads (read n next) buffer offset a r bounded le h =
    elim (Option-cases (read_bytes (at buffer offset) n)) [
      | inl stuck ↦ let threw' = rw (stuck, run_reads) at h in cc
      | inr ((bytes, r'), got) ↦
          let (fits, cut, r'_at) =
            read_bytes_inv buffer offset n bytes r' (omega (arith, bounded.0)) got in
          let h' = sym (run_reads-read n next (at buffer offset) r' bytes got) ∙ h in
          let (pieces, fed, end, tiled) =
            feed-run_reads (next bytes) buffer (offset + n) a r (bounded.1 bytes) fits
              (subst (λ x. run_reads (next bytes) x ≡ returned (some a) r) r'_at h') in
          let size : length bytes ≡ n = ap length cut ∙ length-take-drop offset n buffer fits in
          let total = length-append bytes (concat pieces) in
          (
            bytes ∷ pieces,
            ground (arith, fed, size),
            end ∙ ap (at buffer) (omega (arith, total, size)),
            whole_taken buffer offset n bytes (concat pieces) cut size tiled,
          )
    ]
feed-run_reads (done b) buffer offset a r bounded le h =
    let same : b ≡ a = cc in
    let r_at : at buffer offset ≡ r = cc in
    ([], ap some same, sym r_at ∙ ap (at buffer) (omega arith), refl)
feed-run_reads null buffer offset a r bounded le h = cc
feed-run_reads throw buffer offset a r bounded le h = cc

accept_inv :
    {A : Type 0} (o : Outcome A) (a : A)
    → accept o ≡ some a
    → (r : Reader) × (o ≡ returned (some a) r) × (r.offset ≡ length r.buffer)
unfolding accept
accept_inv threw a h = cc
accept_inv (returned none r) a h = cc
accept_inv (returned (some b) r) a h =
    let (same, full) : (b ≡ a) × (r.offset ≡ length r.buffer) = ground arith in
    (r, ap (λ x. returned (some x) r) same, full)

accept_whole :
    {A : Type 0} (a : A) (bytes : List Byte)
    → accept (returned (some a) (at bytes (length bytes))) ≡ some a
unfolding accept
accept_whole a bytes = ground arith

deserialize_from-feed :
    {A : Type 0} (reads : Reads A) (pieces : List (List Byte)) (a : A)
    → length (concat pieces) < u64_mod
    → feed reads pieces ≡ some a
    → deserialize_from reads (concat pieces) ≡ some a
unfolding deserialize_from
deserialize_from-feed reads pieces a small fed =
    ap accept (
      run_reads-feed reads pieces (concat pieces) [] [] a fed (sym (append_nil (concat pieces)))
        small)
    ∙ accept_whole a (concat pieces)

feed-deserialize_from :
    {A : Type 0} (reads : Reads A) (buffer : List Byte) (a : A)
    → IsBounded (length buffer) reads
    → deserialize_from reads buffer ≡ some a
    → (pieces : List (List Byte)) × (concat pieces ≡ buffer) × (feed reads pieces ≡ some a)
unfolding deserialize_from
feed-deserialize_from reads buffer a bounded h =
    let (r, ran, full) = accept_inv (run_reads reads (at buffer 0)) a h in
    let (pieces, fed, end, tiled) = feed-run_reads reads buffer 0 a r bounded (omega arith) ran in
    let offset = ap (λ (x : Reader). x.offset) end in
    let whole = ap (λ (x : Reader). length x.buffer) end in
    let all_bytes : length (concat pieces) ≡ length buffer = omega (arith, offset, full, whole) in
    (pieces, tiled ∙ ap (λ n. take n buffer) all_bytes ∙ take_all buffer, fed)

-- deserialize_from returns an object for a buffer, fewer than 2 ^ 64 bytes long, exactly if the
-- buffer falls into pieces of the sizes that the class's reads ask for, one after the other and with
-- nothing left over, and these reads make the object of them. No read asks for so much that its offset
-- would wrap.
pub deserialize_from_iff :
    {A : Type 0} (reads : Reads A) (buffer : List Byte) (a : A)
    → length buffer < u64_mod
    → IsBounded (length buffer) reads
    → (deserialize_from reads buffer ≡ some a)
      ↔ ((pieces : List (List Byte)) × (concat pieces ≡ buffer) × (feed reads pieces ≡ some a))
unfolding deserialize_from
deserialize_from_iff reads buffer a small bounded = (
  feed-deserialize_from reads buffer a bounded,
  λ (pieces, whole, fed).
      subst (λ b. deserialize_from reads b ≡ some a) whole
        (deserialize_from-feed reads pieces a (subst (λ b. length b < u64_mod) (sym whole) small)
          fed),
)

-- If an object writes `pieces`, fewer than 2 ^ 64 bytes in all, and its class's reads, given these
-- pieces, make the object again: serialize_to returns OK, and deserialize_from makes the object again
-- of the buffer that it leaves.
pub serialize-deserialize :
    {A : Type 0} (reads : Reads A) (pieces : List (List Byte)) (buffer : List Byte) (a : A)
    → length (concat pieces) < u64_mod
    → feed reads pieces ≡ some a
    → ((serialize_to (some (writes pieces)) buffer).0 ≡ ok_code)
      × (deserialize_from reads (serialize_to (some (writes pieces)) buffer).1 ≡ some a)
serialize-deserialize reads pieces buffer a small fed =
    rw (serialize_to_exact pieces buffer small)
      (refl, deserialize_from-feed reads pieces a small fed)
