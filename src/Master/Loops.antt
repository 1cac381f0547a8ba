-- ===== src/Master/Loops.antt =====
-- The loops over all shards, seen object by object.
use mooncake.Prelude.{
  ℕ, zero, suc, ◌≡◌, refl, ap, subst, ◌∙◌, String, Option, List, [], ◌∷◌, ◌++◌, string_eq, get_or,
  inl, inr, Option-cases, All, take, drop,
}
use mooncake.Prelude.Dict.{find, walk, IsMap, find-walk, find-walk_absent, walk-IsMap, and_then}
use mooncake.Metadata.{ObjectMetadata}
use mooncake.Master.{Env, Master, Shard, walk_shards, walk_shards_from, object, get_shard_index}

-- Two lists of shards of one length, related shard by shard.
abbrev pub Pointwise : (Shard → Shard → Type 0) → List Shard → List Shard → Type 0
Pointwise R [] [] = Unit
Pointwise R [] (y ∷ ys) = ⊥
Pointwise R (x ∷ xs) [] = ⊥
Pointwise R (x ∷ xs) (y ∷ ys) = R x y × Pointwise R xs ys

-- No shard holds a key twice.
abbrev pub HasMaps : {S : Type 0} → Master S → Type 0
HasMaps m = All (λ (sh : Shard). IsMap sh) m.shards

module _ (R : Shard → Shard → Type 0) where
  pub Pointwise-get :
      R [] []
      → (xs ys : List Shard) (i : ℕ) → Pointwise R xs ys
      → R (get_or xs i []) (get_or ys i [])
  Pointwise-get e [] [] i h = e
  Pointwise-get e [] (y ∷ ys) i h = absurd h
  Pointwise-get e (x ∷ xs) [] i h = absurd h
  Pointwise-get e (x ∷ xs) (y ∷ ys) zero h = h.0
  Pointwise-get e (x ∷ xs) (y ∷ ys) (suc i) h = Pointwise-get e xs ys i h.1

  pub Pointwise-trans :
      ((x y z : Shard) → R x y → R y z → R x z)
      → (xs ys zs : List Shard) → Pointwise R xs ys
      → Pointwise R ys zs
      → Pointwise R xs zs
  Pointwise-trans t [] [] zs h k = k
  Pointwise-trans t [] (y ∷ ys) zs h k = absurd h
  Pointwise-trans t (x ∷ xs) [] zs h k = absurd h
  Pointwise-trans t (x ∷ xs) (y ∷ ys) [] h k = absurd k
  Pointwise-trans t (x ∷ xs) (y ∷ ys) (z ∷ zs) h k =
      (t x y z h.0 k.0, Pointwise-trans t xs ys zs h.1 k.1)

  Pointwise-append :
      (xs ys xs' ys' : List Shard)
      → Pointwise R xs ys
      → Pointwise R xs' ys'
      → Pointwise R (xs ++ xs') (ys ++ ys')
  Pointwise-append [] [] xs' ys' h k = k
  Pointwise-append [] (y ∷ ys) xs' ys' h k = absurd h
  Pointwise-append (x ∷ xs) [] xs' ys' h k = absurd h
  Pointwise-append (x ∷ xs) (y ∷ ys) xs' ys' h k = (h.0, Pointwise-append xs ys xs' ys' h.1 k)

  -- A loop whose body keeps `I` of the accumulator and relates each shard to its new value.
  pub walk_shards-Pointwise :
      {A : Type 0} (I : A → Type 0) (g : Shard → A → Shard × A)
      → ((sh : Shard) (a : A) → I a → R sh (g sh a).0 × I (g sh a).1)
      → (xs : List Shard) (a : A) → I a
      → Pointwise R xs (walk_shards g xs a).0 × I (walk_shards g xs a).1
  unfolding walk_shards
  walk_shards-Pointwise I g keep [] a i = (tt, i)
  walk_shards-Pointwise I g keep (x ∷ xs) a i =
      let step = keep x a i in
      let rest = walk_shards-Pointwise I g keep xs (g x a).1 step.1 in ((step.0, rest.0), rest.1)

  take-drop : (n : ℕ) (xs : List Shard) → take n xs ++ drop n xs ≡ xs
  take-drop zero xs = refl
  take-drop (suc n) [] = refl
  take-drop (suc n) (x ∷ xs) = ap (◌∷◌ x) (take-drop n xs)

  pub walk_shards_from-Pointwise :
      {A : Type 0} (I : A → Type 0) (start : ℕ) (g : Shard → A → Shard × A)
      → ((sh : Shard) (a : A) → I a → R sh (g sh a).0 × I (g sh a).1)
      → (xs : List Shard) (a : A) → I a
      → Pointwise R xs (walk_shards_from start g xs a).0 × I (walk_shards_from start g xs a).1
  unfolding walk_shards_from
  walk_shards_from-Pointwise I start g keep xs a i =
      let back = walk_shards-Pointwise I g keep (drop start xs) a i in
      let front =
        walk_shards-Pointwise I g keep (take start xs) (walk_shards g (drop start xs) a).1 back.1 in
      (
        subst (λ (l : List Shard). Pointwise R l (walk_shards_from start g xs a).0)
            (take-drop start xs) (Pointwise-append _ _ _ _ front.0 back.0),
        front.1,
      )

pub IsMap-get :
    (xs : List Shard) (i : ℕ) → All (λ (sh : Shard). IsMap sh) xs → IsMap (get_or xs i [])
IsMap-get [] i h = tt
IsMap-get (x ∷ xs) zero h = h.0
IsMap-get (x ∷ xs) (suc i) h = IsMap-get xs i h.1

-- A loop over a shard whose body decides by the entry alone.
module _ {A : Type 0} (f : String → ObjectMetadata → A → Option ObjectMetadata × A)
    (F : String → ObjectMetadata → Option ObjectMetadata)
    (decided : (k : String) (o : ObjectMetadata) (a : A) → (f k o a).0 ≡ F k o) where
  find-walk_decided :
      (sh : Shard) (a : A) (j : String)
      → IsMap sh
      → find j (walk f sh a).0 ≡ and_then (find j sh) (F j)
  find-walk_decided sh a j w = elim (Option-cases (find j sh)) [
    | inl e ↦ rw e (find-walk_absent f j sh a e)
    | inr (o, e) ↦ let (b, q) = find-walk f j sh a o w e in rw e (q ∙ decided j o b)
  ]

  abbrev Decided : Shard → Shard → Type 0
  Decided sh sh' = IsMap sh → IsMap sh' × ((j : String) → find j sh' ≡ and_then (find j sh) (F j))

  walk_shards-Decided :
      (xs : List Shard) (a : A) → Pointwise Decided xs (walk_shards (walk f) xs a).0
  walk_shards-Decided xs a =
      (walk_shards-Pointwise Decided (λ b. Unit) (walk f)
        (λ sh b i. ((λ w. (walk-IsMap f sh b w, λ j. find-walk_decided sh b j w)), tt)) xs a tt).0

  -- After the loop over all shards every object is what `F` makes of it.
  pub object-walk_shards :
      {S : Type 0} (env : Env S) (m : Master S) (a : A) (j : String)
      → HasMaps m
      → object env (record m { shards = (walk_shards (walk f) m.shards a).0 }) j
        ≡ and_then (object env m j) (F j)
  unfolding object find
  object-walk_shards env m a j w =
      (Pointwise-get Decided (λ h. (tt, λ k. refl)) m.shards _ (get_shard_index env j)
          (walk_shards-Decided m.shards a) (IsMap-get m.shards (get_shard_index env j) w)).1
        j

  pub walk_shards-HasMaps :
      {S : Type 0} (m : Master S) (a : A)
      → HasMaps m
      → HasMaps (record m { shards = (walk_shards (walk f) m.shards a).0 })
  walk_shards-HasMaps m a w = all_maps m.shards _ w (walk_shards-Decided m.shards a)
    where
      all_maps :
          (xs ys : List Shard)
          → All (λ (sh : Shard). IsMap sh) xs
          → Pointwise Decided xs ys
          → All (λ (sh : Shard). IsMap sh) ys
      all_maps [] [] h k = tt
      all_maps [] (y ∷ ys) h k = absurd k
      all_maps (x ∷ xs) [] h k = absurd k
      all_maps (x ∷ xs) (y ∷ ys) h k = ((k.0 h.0).0, all_maps xs ys h.1 k.1)
