-- ===== src/Prelude/Dict.antt =====
-- `std::unordered_map` as an association list. The order of iteration is the order of the list:
-- a statement about every list is a statement about every order.
use mooncake.Prelude.{
  ◌≡◌, refl, false, Option, none, some, List, [], ◌∷◌, arith, if◌then◌else◌, HasEq, ◌==◌,
  Bool-cases, inl, inr, ==_iff, ==_refl,
}

abbrev pub Dict {ℓ κ} : Type ℓ → Type κ → Type (ℓ ⊔ κ)
Dict K V = List (K × V)

-- What is found, handed on.
abbrev pub and_then {ℓ κ} : {A : Type ℓ} {B : Type κ} → Option A → (A → Option B) → Option B
and_then none f = none
and_then (some a) f = f a

module _ {ℓ κ} {K : Type ℓ} {V : Type κ} ⦃e : HasEq K⦄ where
  -- m.find(k)
  unfoldable pub find : K → Dict K V → Option V
  find k [] = none
  find k ((j, v) ∷ m) = if j == k then some v else find k m

  -- m.erase(k)
  unfoldable pub erase : K → Dict K V → Dict K V
  erase k [] = []
  erase k ((j, v) ∷ m) = let rest = erase k m in if j == k then rest else (j, v) ∷ rest

  -- m[k] = v
  unfoldable pub put : K → V → Dict K V → Dict K V
  put k v [] = (k, v) ∷ []
  put k v ((j, w) ∷ m) = if j == k then (k, v) ∷ m else (j, w) ∷ put k v m

  -- m.emplace(k, v): a key that is present keeps its value.
  unfoldable pub emplace : K → V → Dict K V → Dict K V
  unfolding find
  emplace k v m = elim (find k m) [ none ↦ (k, v) ∷ m | some w ↦ m ]

  -- A loop over the entries that rewrites some and erases others (`it = m.erase(it)`), with an
  -- accumulator.
  unfoldable pub walk {μ} : {A : Type μ} → (K → V → A → Option V × A) → Dict K V → A → Dict K V × A
  walk f [] a = ([], a)
  walk f ((k, v) ∷ m) a =
      let (kept, a') = f k v a in
      let (rest, a'') = walk f m a' in (elim kept [ none ↦ rest | some w ↦ (k, w) ∷ rest ], a'')

  abbrev pub keys : Dict K V → List K
  keys [] = []
  keys ((j, v) ∷ m) = j ∷ keys m

  -- No key stands twice.
  abbrev pub IsMap : Dict K V → Type κ
  IsMap [] = Unit
  IsMap ((j, v) ∷ m) = (find j m ≡ none) × IsMap m

  pub find-erase :
      (k j : K) (m : Dict K V) → find j (erase k m) ≡ (if k == j then none else find j m)
  unfolding find erase
  find-erase k j [] = ground arith
  find-erase k j ((i, v) ∷ m) = ground (arith, find-erase k j m, ==_iff i k, ==_iff i j, ==_iff k j)

  pub find-put :
      (k j : K) (v : V) (m : Dict K V) → find j (put k v m) ≡ (if k == j then some v else find j m)
  unfolding find put
  find-put k j v [] = refl
  find-put k j v ((i, w) ∷ m) = ground (arith, find-put k j v m, ==_iff i k, ==_iff i j, ==_iff k j)

  pub find-emplace_absent :
      (k j : K) (v : V) (m : Dict K V)
      → find k m ≡ none
      → find j (emplace k v m) ≡ (if k == j then some v else find j m)
  unfolding find emplace
  find-emplace_absent k j v m h = rw (h, emplace) refl

  pub emplace_present : (k : K) (v w : V) (m : Dict K V) → find k m ≡ some w → emplace k v m ≡ m
  unfolding emplace
  emplace_present k v w m h = rw (h, emplace) refl

  -- What a key leads to stays, whatever is emplaced.
  pub find-emplace_keeps :
      (k j : K) (v w : V) (m : Dict K V) → find j m ≡ some w → find j (emplace k v m) ≡ some w
  unfolding find emplace
  find-emplace_keeps k j v w m h = ground (arith, ==_iff k j, find-emplace_absent k j v m)

  pub find-emplace_other :
      (k j : K) (v : V) (m : Dict K V) → (k == j) ≡ false → find j (emplace k v m) ≡ find j m
  unfolding find emplace
  find-emplace_other k j v m h = ground (arith, find-emplace_absent k j v m)

  pub find_other :
      (k j : K) (v : V) (m : Dict K V) → (k == j) ≡ false → find j ((k, v) ∷ m) ≡ find j m
  unfolding find
  find_other k j v m h = rw (h) refl

  pub find_head : (k : K) (v : V) (m : Dict K V) → find k ((k, v) ∷ m) ≡ some v
  unfolding find
  find_head k v m = rw (==_refl k) refl

  -- A key behind the head of a map is not the head.
  pub behind_head :
      (k j : K) (v w : V) (m : Dict K V) → IsMap ((k, v) ∷ m) → find j m ≡ some w → (k == j) ≡ false
  behind_head k j v w m h e = ground (arith, ==_iff k j, h.0)

  pub find-walk_absent {μ} :
      {A : Type μ} (f : K → V → A → Option V × A) (j : K) (m : Dict K V) (a : A)
      → find j m ≡ none
      → find j (walk f m a).0 ≡ none
  unfolding find walk
  find-walk_absent f j [] a h = refl
  find-walk_absent f j ((k, v) ∷ m) a h = ground (arith, find-walk_absent f j m (f k v a).1)

  -- An entry that the loop meets is what the body made of it, at some value of the accumulator.
  pub find-walk {μ} :
      {A : Type μ} (f : K → V → A → Option V × A) (j : K) (m : Dict K V) (a : A) (v : V)
      → IsMap m
      → find j m ≡ some v
      → (b : A) × (find j (walk f m a).0 ≡ (f j v b).0)
  unfolding find walk
  find-walk f j [] a v w h = cc
  find-walk f j ((k, x) ∷ m) a v w h = elim (Bool-cases (k == j)) [
    | inl here ↦ (a, ground (arith, ==_iff k j, find-walk_absent f j m (f k x a).1, w.0, ==_refl j))
    | inr there ↦
        let (b, e) = find-walk f j m (f k x a).1 v w.1 (ground (arith, there)) in
        (b, ground (arith, there))
  ]

  pub erase-IsMap : (k : K) (m : Dict K V) → IsMap m → IsMap (erase k m)
  unfolding erase
  erase-IsMap k [] h = h
  erase-IsMap k ((i, v) ∷ m) h = ground (arith, erase-IsMap k m h.1, find-erase k i m)

  pub put-IsMap : (k : K) (v : V) (m : Dict K V) → IsMap m → IsMap (put k v m)
  unfolding put find
  put-IsMap k v [] h = (refl, tt)
  put-IsMap k v ((i, w) ∷ m) h =
      ground (arith, put-IsMap k v m h.1, find-put k i v m, ==_iff i k, ==_iff k i)

  pub emplace-IsMap : (k : K) (v : V) (m : Dict K V) → IsMap m → IsMap (emplace k v m)
  unfolding emplace
  emplace-IsMap k v m h = ground arith

  pub walk-IsMap {μ} :
      {A : Type μ} (f : K → V → A → Option V × A) (m : Dict K V) (a : A)
      → IsMap m
      → IsMap (walk f m a).0
  unfolding walk
  walk-IsMap f [] a w = tt
  walk-IsMap f ((k, v) ∷ m) a w =
      ground (arith, walk-IsMap f m (f k v a).1 w.1, find-walk_absent f k m (f k v a).1 w.0)

  -- What every step keeps of the accumulator, the loop keeps.
  pub walk-keeps {μ} :
      {A : Type μ} (I : A → Type 0) (f : K → V → A → Option V × A)
      → ((k : K) (v : V) (a : A) → I a → I (f k v a).1)
      → (m : Dict K V) (a : A) → I a
      → I (walk f m a).1
  unfolding walk
  walk-keeps I f keep [] a i = i
  walk-keeps I f keep ((k, v) ∷ m) a i = walk-keeps I f keep m (f k v a).1 (keep k v a i)

  pub erase_absent : (k : K) (m : Dict K V) → find k m ≡ none → erase k m ≡ m
  unfolding find erase
  erase_absent k [] h = refl
  erase_absent k ((i, v) ∷ m) h = ground (arith, erase_absent k m)

  pub find-put_self : (k : K) (v : V) (m : Dict K V) → find k (put k v m) ≡ some v
  find-put_self k v m = rw (find-put k k v m, ==_refl k)

  pub find-put_ne :
      (k j : K) (v : V) (m : Dict K V) → (k == j) ≡ false → find j (put k v m) ≡ find j m
  find-put_ne k j v m h = rw (find-put k j v m, h)
