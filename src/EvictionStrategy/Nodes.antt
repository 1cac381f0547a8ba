-- ===== src/EvictionStrategy/Nodes.antt =====
-- Numbered lists in which no number and no key stands twice.
use mooncake.Prelude.{
  ℕ, String, ◌≡◌, ◌≢◌, refl, true, false, Option, none, some, List, [], ◌∷◌, arith, if◌then◌else◌,
  nat_eq, string_eq, ◌==◌, ==_iff, ==_refl, erase_first, contains, ap, ◌∙◌, sym,
}
use mooncake.Prelude.Dict.{Dict, find, erase, erase_absent, find-erase}
use mathlib.Core.Option
use mooncake.EvictionStrategy.{back, pop_back}

-- The iterator of a key.
unfoldable pub node_of : String → Dict ℕ String → Option ℕ
node_of k [] = none
node_of k ((i, j) ∷ l) = if j == k then some i else node_of k l

abbrev pub IsPaired : Dict ℕ String → Type 0
IsPaired [] = Unit
IsPaired ((i, k) ∷ l) = (find i l ≡ none) × (node_of k l ≡ none) × IsPaired l

unfoldable pub listed : Dict ℕ String → List String
listed [] = []
listed ((i, k) ∷ l) = k ∷ listed l

pub node_of-present :
    (k : String) (i : ℕ) (l : Dict ℕ String) → find i l ≡ none → node_of k l ≢ some i
unfolding find node_of
node_of-present k i [] a h = cc
node_of-present k i ((n, j) ∷ l) a h = ground (arith, node_of-present k i l, ==_iff n i, ==_refl i)

pub contains-listed :
    (k : String) (l : Dict ℕ String) → node_of k l ≡ none → contains (listed l) k ≡ false
unfolding node_of listed
contains-listed k [] h = refl
contains-listed k ((n, j) ∷ l) h = ground (arith, contains-listed k l)

pub contains-listed_some :
    (k : String) (i : ℕ) (l : Dict ℕ String) → node_of k l ≡ some i → contains (listed l) k ≡ true
unfolding node_of listed
contains-listed_some k i [] h = cc
contains-listed_some k i ((n, j) ∷ l) h = ground (arith, contains-listed_some k i l)

pub listed-erase :
    (k : String) (i : ℕ) (l : Dict ℕ String)
    → IsPaired l
    → node_of k l ≡ some i
    → listed (erase i l) ≡ erase_first k (listed l)
unfolding find node_of listed erase
listed-erase k i [] w h = cc
listed-erase k i ((n, j) ∷ l) w h =
    ground (
      arith,
      listed-erase k i l w.2,
      node_of-present k i l,
      erase_absent i l,
      ==_iff n i,
      ==_iff j k,
    )

pub node_of-erase :
    (k j : String) (i : ℕ) (l : Dict ℕ String)
    → IsPaired l
    → node_of k l ≡ some i
    → node_of j (erase i l) ≡ (if k == j then none else node_of j l)
unfolding find node_of erase
node_of-erase k j i [] w h = cc
node_of-erase k j i ((n, m) ∷ l) w h = ground (
  arith,
  node_of-erase k j i l w.2,
  node_of-present k i l,
  erase_absent i l,
  ==_iff n i,
  ==_iff m k,
  ==_iff k j,
  ==_iff m j,
  ==_iff k m,
)

pub find-erase_absent : (i n : ℕ) (l : Dict ℕ String) → find n l ≡ none → find n (erase i l) ≡ none
find-erase_absent i n l h = ground (arith, find-erase i n l)

pub erase-IsPaired :
    (k : String) (i : ℕ) (l : Dict ℕ String)
    → IsPaired l
    → node_of k l ≡ some i
    → IsPaired (erase i l)
unfolding find node_of erase
erase-IsPaired k i [] w h = tt
erase-IsPaired k i ((n, m) ∷ l) w h = ground (
  arith,
  erase-IsPaired k i l w.2,
  node_of-present k i l,
  erase_absent i l,
  ==_iff n i,
  ==_iff m k,
  node_of-erase k m i l w.2,
  find-erase_absent i n l w.0,
)

node_of-cons :
    (n i : ℕ) (m k : String) (l : Dict ℕ String)
    → IsPaired ((n, m) ∷ l)
    → node_of k l ≡ some i
    → (node_of k ((n, m) ∷ l) ≡ some i) × (erase i ((n, m) ∷ l) ≡ (n, m) ∷ erase i l)
unfolding find node_of erase
node_of-cons n i m k l w h = ground (arith, node_of-present k i l, ==_iff n i, ==_iff m k)

-- The last node is the one of its key, and to pop it is to erase it.
pub node_of-back :
    (l : Dict ℕ String) (i : ℕ) (k : String)
    → IsPaired l
    → back l ≡ some (i, k)
    → (node_of k l ≡ some i) × (pop_back l ≡ erase i l)
unfolding find node_of erase
node_of-back [] i k w h = cc
node_of-back ((n, m) ∷ []) i k w h = ground (arith, ==_refl m, ==_refl n)
node_of-back ((n, m) ∷ (o, p) ∷ l) i k w h =
    let (at, gone) = node_of-back ((o, p) ∷ l) i k w.2 h in
    let (at', gone') = node_of-cons n i m k ((o, p) ∷ l) w at in
    (at', ap (◌∷◌ (n, m)) gone ∙ sym gone')

pub back-listed :
    (l : Dict ℕ String) → back (listed l) ≡ Option.map (λ (node : ℕ × String). node.1) (back l)
unfolding listed
back-listed [] = refl
back-listed ((n, m) ∷ []) = refl
back-listed ((n, m) ∷ (o, p) ∷ l) = back-listed ((o, p) ∷ l)

pub pop_back-listed : (l : Dict ℕ String) → listed (pop_back l) ≡ pop_back (listed l)
unfolding listed
pop_back-listed [] = refl
pop_back-listed ((n, m) ∷ []) = refl
pop_back-listed ((n, m) ∷ (o, p) ∷ l) = ap (◌∷◌ m) (pop_back-listed ((o, p) ∷ l))
