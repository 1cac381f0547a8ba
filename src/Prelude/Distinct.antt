-- ===== src/Prelude/Distinct.antt =====
-- Vectors that hold nothing twice, under `erase_first` and a push at the end.
use mooncake.Prelude.{
  ◌≡◌, refl, true, false, ◌||◌, List, [], ◌∷◌, ◌++◌, arith, if◌then◌else◌, HasEq, ◌==◌, ==_iff,
  ==_refl, contains, erase_first, is_empty,
}

module _ {ℓ} {A : Type ℓ} ⦃e : HasEq A⦄ where
  abbrev pub Distinct : List A → Type 0
  Distinct [] = Unit
  Distinct (x ∷ xs) = (contains xs x ≡ false) × Distinct xs

  pub contains-erase_first :
      (a b : A) (xs : List A)
      → Distinct xs
      → contains (erase_first a xs) b ≡ (if a == b then false else contains xs b)
  contains-erase_first a b [] h = ground arith
  contains-erase_first a b (x ∷ xs) h =
      ground (arith, contains-erase_first a b xs h.1, ==_iff x a, ==_iff x b, ==_iff a b)

  pub contains-append :
      (a b : A) (xs : List A) → contains (xs ++ a ∷ []) b ≡ (contains xs b || a == b)
  contains-append a b [] = ground arith
  contains-append a b (x ∷ xs) = ground (arith, contains-append a b xs)

  pub erase_first-Distinct : (a : A) (xs : List A) → Distinct xs → Distinct (erase_first a xs)
  erase_first-Distinct a [] h = h
  erase_first-Distinct a (x ∷ xs) h =
      ground (arith, erase_first-Distinct a xs h.1, contains-erase_first a x xs h.1)

  pub append-Distinct :
      (a : A) (xs : List A) → Distinct xs → contains xs a ≡ false → Distinct (xs ++ a ∷ [])
  append-Distinct a [] h k = (refl, tt)
  append-Distinct a (x ∷ xs) h k =
      ground (arith, append-Distinct a xs h.1, contains-append a x xs, ==_iff x a, ==_iff a x)

  pub not-contains-empty : (xs : List A) (a : A) → is_empty xs ≡ true → contains xs a ≡ false
  not-contains-empty [] a h = refl
  not-contains-empty (x ∷ xs) a h = cc

  pub contains_nonempty : (xs : List A) (a : A) → contains xs a ≡ true → is_empty xs ≡ false
  contains_nonempty [] a h = cc
  contains_nonempty (x ∷ xs) a h = refl

  -- What is erased from its only place can be pushed and erased again.
  pub erase_first-append_absent :
      (a : A) (xs : List A) → contains xs a ≡ false → erase_first a (xs ++ a ∷ []) ≡ xs
  erase_first-append_absent a [] h = ground (arith, ==_refl a)
  erase_first-append_absent a (x ∷ xs) h = ground (arith, erase_first-append_absent a xs)

  pub append-nonempty : (a : A) (xs : List A) → is_empty (xs ++ a ∷ []) ≡ false
  append-nonempty a [] = refl
  append-nonempty a (x ∷ xs) = refl
