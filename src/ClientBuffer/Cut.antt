-- ===== src/ClientBuffer/Cut.antt =====
-- The loop that cuts a buffer ends, and its slices tile the buffer.
use mooncake.Prelude.{
  ℕ, zero, suc, ◌+◌, ◌-◌, ◌*◌, ◌<◌, ◌≤◌, ◌≡◌, refl, min, some, List, [], ◌∷◌, ltb, Bool-cases, inl,
  inr, arith, All, length, ltb→lt, subst₂,
}
use mooncake.Types.{Slice, max_slice_size}
use mooncake.ClientBuffer.{BufferHandle, cut, split_into_slices}

-- The slices lie end to end from `base` on and have `total` bytes together.
abbrev pub Tiles : ℕ → ℕ → List Slice → Type 0
Tiles base total [] = total ≡ 0
Tiles base total (s ∷ slices) =
    (s.ptr ≡ base) × (s.size ≤ total) × Tiles (base + s.size) (total - s.size) slices

-- A transfer takes no more at a time, and no slice is empty.
abbrev pub IsTransferable : Slice → Type 0
IsTransferable s = (0 < s.size) × (s.size ≤ max_slice_size)

pub record IsCut (base total : ℕ) (slices : List Slice) : Type 0 where
  pub tiles : Tiles base total slices
  pub transferable : All IsTransferable slices
  pub enough : total ≤ length slices * max_slice_size
  pub few : length slices * max_slice_size < total + max_slice_size

abbrev chunk : ℕ → ℕ
chunk rest = min rest max_slice_size

IsCut-cons :
    (base rest : ℕ) (slices : List Slice)
    → 0 < rest
    → IsCut (base + chunk rest) (rest - chunk rest) slices
    → IsCut base rest (record { ptr = base; size = chunk rest } ∷ slices)
IsCut-cons base rest slices lt w = record {
  tiles = (refl, ground arith, w.tiles);
  transferable = ((ground arith, ground arith), w.transferable);
  enough = ground (arith, w.enough);
  few = ground (arith, w.few);
}

pub cut-IsCut :
    (fuel base total offset : ℕ)
    → total < offset + fuel
    → offset ≤ total
    → (slices : List Slice) × (cut fuel base total offset ≡ some slices)
      × IsCut (base + offset) (total - offset) slices
unfolding cut
cut-IsCut zero base total offset h le = absurd (omega arith)
cut-IsCut (suc fuel) base total offset h le = elim (Bool-cases (ltb offset total)) [
  | inr done ↦ (
    [],
    rw (done, cut) refl,
    record { tiles = ground arith; transferable = tt; enough = ground arith; few = ground arith },
  )
  | inl more ↦
      let lt = ltb→lt offset total more in
      let c = chunk (total - offset) in
      let (slices, e, w) = cut-IsCut fuel base total (offset + c) (ground arith) (ground arith) in
      let at : base + (offset + c) ≡ base + offset + c = omega arith in
      let left : total - (offset + c) ≡ total - offset - c = omega arith in
      (
        record { ptr = base + offset; size = c } ∷ slices,
        rw (more, e, cut) refl,
        IsCut-cons (base + offset) (total - offset) slices (omega arith)
            (subst₂ (λ b t. IsCut b t slices) at left w),
      )
]

-- From the beginning, with one round more than there are bytes.
pub cut_whole :
    (base total : ℕ)
    → (slices : List Slice) × (cut (suc total) base total 0 ≡ some slices) × IsCut base total slices
cut_whole base total =
    let (slices, e, w) = cut-IsCut (suc total) base total 0 (omega arith) (omega arith) in
    let at : base + 0 ≡ base = omega arith in
    let left : total - 0 ≡ total = omega arith in
    (slices, e, subst₂ (λ b t. IsCut b t slices) at left w)

-- split_into_slices ends for every buffer, with slices that tile the buffer, none of them empty or
-- longer than kMaxSliceSize, and no more of them than that takes.
pub split_into_slices-IsCut :
    (handle : BufferHandle)
    → (slices : List Slice) × (split_into_slices handle ≡ some slices)
      × IsCut handle.ptr handle.size slices
unfolding split_into_slices
split_into_slices-IsCut handle = cut_whole handle.ptr handle.size
