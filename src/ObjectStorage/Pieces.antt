-- ===== src/ObjectStorage/Pieces.antt =====
-- The bytes that a vectored read puts into slices in a row, and those at the places of slices with memory.
use mooncake.Prelude.{
  ℕ, zero, suc, ◌+◌, ◌≡◌, refl, ◌∙◌, sym, ap, ap₂, List, [], ◌∷◌, ◌++◌, if◌then◌else◌, take, drop,
  arith,
}
use mooncake.Prelude.Spans.{drop-drop}
use mooncake.Serializer.{Byte}
use mooncake.ObjectStorage.{Target, scatter}

abbrev pub sum : List ℕ → ℕ
sum [] = 0
sum (n ∷ ns) = n + sum ns

abbrev pub total_size : List Target → ℕ
total_size [] = 0
total_size (t ∷ targets) = t.size + total_size targets

-- The bytes of a file from an offset on, for sizes in a row.
abbrev pub gather : List Byte → ℕ → List ℕ → List (List Byte)
gather file offset [] = []
gather file offset (n ∷ ns) = take n (drop offset file) ∷ gather file (offset + n) ns

-- The bytes at the places of the slices that have memory.
abbrev pub pieces : List Byte → ℕ → List Target → List (List Byte)
pieces file offset [] = []
pieces file offset (t ∷ targets) =
    let rest = pieces file (offset + t.size) targets in
    if t.has_memory then take t.size (drop offset file) ∷ rest else rest

take_nothing : (n : ℕ) → take {A = Byte} n [] ≡ []
take_nothing zero = refl
take_nothing (suc n) = refl

take-take : (n m : ℕ) (xs : List Byte) → take n (take (n + m) xs) ≡ take n xs
take-take zero m xs = refl
take-take (suc n) m [] = ap (take (suc n)) (take_nothing (suc n + m))
take-take (suc n) m (x ∷ xs) =
    let next : suc n + m ≡ suc (n + m) = omega arith in
    ap (λ i. take (suc n) (take i (x ∷ xs))) next ∙ ap (◌∷◌ x) (take-take n m xs)

drop-take : (n m : ℕ) (xs : List Byte) → drop n (take (n + m) xs) ≡ take m (drop n xs)
drop-take zero m xs = ap (λ i. take i xs) (omega arith)
drop-take (suc n) m [] =
    let next : suc n + m ≡ suc (n + m) = omega arith in
    ap (λ i. drop (suc n) (take i [])) next ∙ sym (take_nothing m)
drop-take (suc n) m (x ∷ xs) =
    let next : suc n + m ≡ suc (n + m) = omega arith in
    ap (λ i. drop (suc n) (take i (x ∷ xs))) next ∙ drop-take n m xs

pub scatter-gather :
    (file : List Byte) (offset : ℕ) (ns : List ℕ)
    → scatter ns (take (sum ns) (drop offset file)) ≡ gather file offset ns
unfolding scatter
scatter-gather file offset [] = refl
scatter-gather file offset (n ∷ ns) = ap₂ ◌∷◌ (take-take n (sum ns) (drop offset file)) (
    ap (scatter ns)
      (drop-take n (sum ns) (drop offset file) ∙ ap (take (sum ns)) (drop-drop offset n file))
    ∙ scatter-gather file (offset + n) ns)

pub gather-append :
    (file : List Byte) (offset n : ℕ) (ns : List ℕ)
    → gather file offset (ns ++ n ∷ [])
      ≡ gather file offset ns ++ take n (drop (offset + sum ns) file) ∷ []
gather-append file offset n [] = ap (λ i. take n (drop i file) ∷ []) (omega arith)
gather-append file offset n (m ∷ ns) = ap (◌∷◌ (take m (drop offset file))) (
    gather-append file (offset + m) n ns
    ∙ ap (λ i. gather file (offset + m) ns ++ take n (drop i file) ∷ []) (omega arith))

pub sum-append : (n : ℕ) (ns : List ℕ) → sum (ns ++ n ∷ []) ≡ sum ns + n
sum-append n [] = omega arith
sum-append n (m ∷ ns) = omega (arith, sum-append n ns)
