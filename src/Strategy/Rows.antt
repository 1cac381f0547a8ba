-- ===== src/Strategy/Rows.antt =====
-- The rows of buffers that Allocate builds: one row for each replica, one column for each slice.
use mooncake.Prelude.{
  ℕ, zero, suc, ◌≡◌, refl, sym, ap, ◌∙◌, false, List, [], ◌∷◌, ◌++◌, arith, map, All, length,
  contains, string_eq, ◌==◌, take, All-take, ap₂, replicate,
}
use mooncake.Prelude.Distinct.{Distinct}
use mooncake.Allocator.{Memory, AllocatedBuffer}
use mooncake.Strategy.{name_of, push_each}
use mooncake.Strategy.Slice.{segments}

abbrev pub sizes_of : List AllocatedBuffer → List ℕ
sizes_of bs = map (λ (b : AllocatedBuffer). b.size) bs

-- Slice by slice, two replicas lie on different segments.
abbrev pub Apart : {S : Type 0} → Memory S → List AllocatedBuffer → List AllocatedBuffer → Type 0
Apart m [] cs = Unit
Apart m (b ∷ bs) [] = Unit
Apart m (b ∷ bs) (c ∷ cs) =
    ((name_of m c.allocator == name_of m b.allocator) ≡ false) × Apart m bs cs

abbrev pub AllApart : {S : Type 0} → Memory S → List (List AllocatedBuffer) → Type 0
AllApart m [] = Unit
AllApart m (row ∷ rows) = All (Apart m row) rows × AllApart m rows

abbrev pub Sized : List ℕ → List (List AllocatedBuffer) → Type 0
Sized sizes rows = All (λ (row : List AllocatedBuffer). sizes_of row ≡ sizes) rows

module _ {S : Type 0} (m : Memory S) where
  Apart-snoc :
      (xs ys : List AllocatedBuffer) (b c : AllocatedBuffer)
      → length xs ≡ length ys
      → Apart m xs ys
      → (name_of m c.allocator == name_of m b.allocator) ≡ false
      → Apart m (xs ++ b ∷ []) (ys ++ c ∷ [])
  Apart-snoc [] [] b c e h ne = (ne, tt)
  Apart-snoc [] (y ∷ ys) b c e h ne = absurd (omega arith)
  Apart-snoc (x ∷ xs) [] b c e h ne = absurd (omega arith)
  Apart-snoc (x ∷ xs) (y ∷ ys) b c e h ne = (h.0, Apart-snoc xs ys b c (omega arith) h.1 ne)

  Apart-push_each :
      (row : List AllocatedBuffer) (b : AllocatedBuffer) (rows : List (List AllocatedBuffer))
      (cs : List AllocatedBuffer)
      → All (λ (r : List AllocatedBuffer). length row ≡ length r) rows
      → length rows ≡ length cs
      → All (Apart m row) rows
      → contains (segments m cs) (name_of m b.allocator) ≡ false
      → All (Apart m (row ++ b ∷ [])) (push_each rows cs)
  Apart-push_each row b [] cs l n h out = tt
  Apart-push_each row b (r ∷ rows) [] l n h out = absurd (omega arith)
  Apart-push_each row b (r ∷ rows) (c ∷ cs) l n h out = (
    Apart-snoc row r b c l.0 h.0 (ground (arith, out)),
    Apart-push_each row b rows cs l.1 (omega arith) h.1 (ground (arith, out)),
  )

  length-sizes_of : (bs : List AllocatedBuffer) → length (sizes_of bs) ≡ length bs
  length-sizes_of [] = refl
  length-sizes_of (b ∷ bs) = ap suc (length-sizes_of bs)

  same_lengths :
      (done : List ℕ) (row : List AllocatedBuffer) (rows : List (List AllocatedBuffer))
      → sizes_of row ≡ done
      → Sized done rows
      → All (λ (r : List AllocatedBuffer). length row ≡ length r) rows
  same_lengths done row [] e h = tt
  same_lengths done row (r ∷ rows) e h = (
    sym (length-sizes_of row) ∙ ap length (e ∙ sym h.0) ∙ length-sizes_of r,
    same_lengths done row rows e h.1,
  )

  -- A column of buffers on different segments keeps the rows apart.
  pub push_each-AllApart :
      (done : List ℕ) (rows : List (List AllocatedBuffer)) (cs : List AllocatedBuffer)
      → length rows ≡ length cs
      → Sized done rows
      → Distinct (segments m cs)
      → AllApart m rows
      → AllApart m (push_each rows cs)
  push_each-AllApart done [] cs n sized d h = tt
  push_each-AllApart done (r ∷ rows) [] n sized d h = absurd (omega arith)
  push_each-AllApart done (r ∷ rows) (c ∷ cs) n sized d h = (
    Apart-push_each r c rows cs (same_lengths done r rows sized.0 sized.1) (omega arith) h.0 d.0,
    push_each-AllApart done rows cs (omega arith) sized.1 d.1 h.1,
  )

  pub AllApart-take :
      (n : ℕ) (rows : List (List AllocatedBuffer)) → AllApart m rows → AllApart m (take n rows)
  AllApart-take zero rows h = tt
  AllApart-take (suc n) [] h = tt
  AllApart-take (suc n) (r ∷ rows) h = (All-take (Apart m r) n rows h.0, AllApart-take n rows h.1)

sizes_of-snoc :
    (bs : List AllocatedBuffer) (b : AllocatedBuffer)
    → sizes_of (bs ++ b ∷ []) ≡ sizes_of bs ++ b.size ∷ []
sizes_of-snoc [] b = refl
sizes_of-snoc (x ∷ bs) b = ap (◌∷◌ x.size) (sizes_of-snoc bs b)

pub push_each-Sized :
    (done : List ℕ) (size : ℕ) (rows : List (List AllocatedBuffer)) (cs : List AllocatedBuffer)
    → length rows ≡ length cs
    → All (λ (b : AllocatedBuffer). b.size ≡ size) cs
    → Sized done rows
    → Sized (done ++ size ∷ []) (push_each rows cs)
push_each-Sized done size [] cs n all h = tt
push_each-Sized done size (r ∷ rows) [] n all h = absurd (omega arith)
push_each-Sized done size (r ∷ rows) (c ∷ cs) n all h = (
  sizes_of-snoc r c ∙ ap₂ (λ (xs : List ℕ) (x : ℕ). xs ++ x ∷ []) h.0 all.0,
  push_each-Sized done size rows cs (omega arith) all.1 h.1,
)

pub length-push_each :
    (rows : List (List AllocatedBuffer)) (cs : List AllocatedBuffer)
    → length (push_each rows cs) ≡ length rows
length-push_each [] cs = refl
length-push_each (r ∷ rows) [] = refl
length-push_each (r ∷ rows) (c ∷ cs) = ap suc (length-push_each rows cs)

AllApart_none : {S : Type 0} (m : Memory S) (n : ℕ) → All (Apart m []) (replicate n [])
AllApart_none m zero = tt
AllApart_none m (suc n) = (tt, AllApart_none m n)

pub AllApart-replicate : {S : Type 0} (m : Memory S) (n : ℕ) → AllApart m (replicate n [])
AllApart-replicate m zero = tt
AllApart-replicate m (suc n) = (AllApart_none m n, AllApart-replicate m n)

pub Sized-replicate : (n : ℕ) → Sized [] (replicate n [])
Sized-replicate zero = tt
Sized-replicate (suc n) = (refl, Sized-replicate n)
