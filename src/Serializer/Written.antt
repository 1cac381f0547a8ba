-- ===== src/Serializer/Written.antt =====
-- What serialize_to writes: the pieces of the object end to end, or nothing.
use mooncake.Prelude.{
  ℕ, ◌+◌, ◌%◌, ◌<◌, ◌≤◌, ◌≡◌, refl, ◌∙◌, sym, ap, ap₂, true, false, Bool, none, some, String, List,
  [], ◌∷◌, ◌++◌, ltb, length, length-append, drop, replicate, length-replicate, arith,
}
use mooncake.Prelude.Spans.{
  concat, append_assoc, append_nil, take-append, drop-append, drop-drop, drop-length, length-drop,
}
use mooncake.Types.{ok_code, internal_error, u64_mod}
use mooncake.Serializer.{
  Byte, Output, write, set_error, SizeCounter, Writer, count_write, count_output, copy_at,
  write_bytes, write_output, settle_write, new_writer, serialize_to,
}

-- An object that writes these pieces, and no null pointer.
abbrev pub writes : List (List Byte) → List Output
writes [] = []
writes (piece ∷ pieces) = write (some piece) ∷ writes pieces

-- The object sets an error, or writes from a null pointer.
abbrev pub fails : List Output → Bool
fails [] = false
fails (write none ∷ os) = true
fails (write (some piece) ∷ os) = fails os
fails (set_error e ∷ os) = true

count_output-writes :
    (pieces : List (List Byte)) (n : ℕ)
    → n + length (concat pieces) < u64_mod
    → count_output (writes pieces) (record { size = n; error = none })
      ≡ record { size = n + length (concat pieces); error = none }
unfolding count_output count_write
count_output-writes [] n h = ap (λ m. record { size = m; error = none }) (omega arith)
count_output-writes (piece ∷ pieces) n h =
    let split = length-append piece (concat pieces) in
    let small : (n + length piece) % u64_mod ≡ n + length piece = omega (arith, split) in
    ap (λ m. count_output (writes pieces) (record { size = m; error = none })) small
    ∙ count_output-writes pieces (n + length piece) (omega (arith, split))
    ∙ ap (λ m. record { size = m; error = none }) (omega (arith, split))

count_output_failed :
    (os : List Output) (n : ℕ) (e : String)
    → (e' : String) × ((count_output os (record { size = n; error = some e })).error ≡ some e')
unfolding count_output count_write
count_output_failed [] n e = (e, refl)
count_output_failed (write source ∷ os) n e = count_output_failed os n e
count_output_failed (set_error e' ∷ os) n e = count_output_failed os n e'

count_output-fails :
    (os : List Output) (n : ℕ)
    → fails os ≡ true
    → (e : String) × ((count_output os (record { size = n; error = none })).error ≡ some e)
unfolding count_output count_write
count_output-fails [] n h = cc
count_output-fails (write none ∷ os) n h = count_output_failed os n "data is nullptr"
count_output-fails (write (some piece) ∷ os) n h =
    count_output-fails os ((n + length piece) % u64_mod) h
count_output-fails (set_error e ∷ os) n h = count_output_failed os n e

-- The writer after `before`, with `room` in front of it.
abbrev writer_at : List Byte → List Byte → Writer
writer_at before room = record { buffer = before ++ room; offset = length before; error = none }

-- A piece for which there is room is copied.
write_bytes_fits :
    (before room piece : List Byte)
    → length piece ≤ length room
    → length before + length room < u64_mod
    → write_bytes (writer_at before room) (some piece)
      ≡ writer_at (before ++ piece) (drop (length piece) room)
unfolding write_bytes
write_bytes_fits before room piece h small =
    let whole = length-append before room in
    let wrap : (length before + length piece) % u64_mod ≡ length before + length piece =
      omega arith in
    let wrap' : (length piece + length before) % u64_mod ≡ length before + length piece =
      omega arith in
    let fits : ltb (length (before ++ room)) (length before + length piece) ≡ false =
      ground (arith, whole) in
    let rest =
      sym (drop-drop (length before) (length piece) (before ++ room))
      ∙ ap (drop (length piece)) (drop-append before room) in
    let copied : copy_at (length before) piece (before ++ room)
        ≡ before ++ piece ++ drop (length piece) room =
      ap₂ (λ a b. a ++ piece ++ b) (take-append before room) rest in
    rw (wrap', wrap, fits, copied, length-append before piece) refl

write_output-writes :
    (pieces : List (List Byte)) (before room : List Byte)
    → length (concat pieces) ≤ length room
    → length before + length room < u64_mod
    → write_output (writes pieces) (writer_at before room)
      ≡ writer_at (before ++ concat pieces) (drop (length (concat pieces)) room)
unfolding write_output
write_output-writes [] before room h small = rw (append_nil before) refl
write_output-writes (piece ∷ pieces) before room h small =
    let split = length-append piece (concat pieces) in
    let left = length-drop (length piece) room in
    let grown = length-append before piece in
    ap (write_output (writes pieces))
      (write_bytes_fits before room piece (omega (arith, split)) small)
    ∙ write_output-writes pieces (before ++ piece) (drop (length piece) room)
        (omega (arith, split, left)) (omega (arith, left, grown, split))
    ∙ ap₂ writer_at (append_assoc before piece (concat pieces))
        (drop-drop (length piece) (length (concat pieces)) room ∙ ap (λ n. drop n room) (sym split))

settle_write_full :
    (bytes : List Byte)
    → settle_write (record { buffer = bytes; offset = length bytes; error = none })
      ≡ (ok_code, bytes)
unfolding settle_write
settle_write_full bytes = ground arith

write_output_full :
    (pieces : List (List Byte))
    → length (concat pieces) < u64_mod
    → write_output (writes pieces) (new_writer (length (concat pieces)))
      ≡ record { buffer = concat pieces; offset = length (concat pieces); error = none }
write_output_full pieces h =
    let n = length (concat pieces) in
    let room : List Byte = replicate n 0 in
    let full : length room ≡ n = length-replicate n 0 in
    write_output-writes pieces [] room (omega (arith, full)) (omega (arith, full))
    ∙ ap (writer_at (concat pieces)) (drop-length n room (omega (arith, full)))
    ∙ ap (λ xs. record { buffer = xs; offset = n; error = none }) (append_nil (concat pieces))

abbrev no_error : ℕ → SizeCounter
no_error n = record { size = n; error = none }

serialize_to_counted :
    (os : List Output) (n : ℕ) (buffer : List Byte)
    → count_output os (no_error 0) ≡ no_error n
    → serialize_to (some os) buffer ≡ settle_write (write_output os (new_writer n))
unfolding serialize_to
serialize_to_counted os n buffer h =
    let clear : (count_output os (no_error 0)).error ≡ none = ap (λ (c : SizeCounter). c.error) h in
    rw (clear, serialize_to)
      (ap (λ (c : SizeCounter). settle_write (write_output os (new_writer c.size))) h)

-- If an object writes `pieces`, fewer than 2 ^ 64 bytes in all: serialize_to returns OK and leaves in
-- the buffer the pieces end to end, whatever the buffer held.
pub serialize_to_exact :
    (pieces : List (List Byte)) (buffer : List Byte)
    → length (concat pieces) < u64_mod
    → serialize_to (some (writes pieces)) buffer ≡ (ok_code, concat pieces)
serialize_to_exact pieces buffer h =
    let n = length (concat pieces) in
    let counted : count_output (writes pieces) (no_error 0) ≡ no_error n =
      count_output-writes pieces 0 (omega arith) ∙ ap no_error (omega arith) in
    serialize_to_counted (writes pieces) n buffer counted
    ∙ ap settle_write (write_output_full pieces h)
    ∙ settle_write_full (concat pieces)

-- If an object sets an error or writes from a null pointer, serialize_to returns INTERNAL_ERROR and
-- leaves the buffer as it was.
pub serialize_to_failed :
    (outputs : List Output) (buffer : List Byte)
    → fails outputs ≡ true
    → serialize_to (some outputs) buffer ≡ (internal_error, buffer)
unfolding serialize_to
serialize_to_failed outputs buffer h =
    let (e, failed) = count_output-fails outputs 0 h in rw (failed, serialize_to) refl
