-- ===== src/Strategy/Allocate.antt =====
-- RandomAllocationStrategy::Allocate, whole.
use mooncake.Prelude.{
  ℕ, ◌≤◌, ◌<◌, ◌≡◌, ◌∙◌, subst, String, Bool, List, [], ◌∷◌, ◌++◌, arith, map, string_eq, length,
  inl, inr, Option-cases, Bool-cases, ltb, take, drop, replicate, length-replicate, length-take_le,
  All-take, List-cases, ltb_ge,
}
use mathlib.Core.List.{append_assoc, append-nil}
use mooncake.Prelude.Dict.{Dict}
use mooncake.Prelude.Distinct.{Distinct}
use mooncake.Types.{ReplicateConfig, ok, Expected-cases}
use mooncake.Allocator.{Engine, Memory, AllocatedBuffer}
use mooncake.Replica.{Replica}
use mooncake.Strategy.{
  Shuffle, Attempt, allocate_slice, destroy_rows, allocate_slices, push_each, allocate_replicas,
  validate_input, in_progress,
}
use mooncake.Strategy.Steps.{Shuffles, Named}
use mooncake.Strategy.Names.{SameNames, destroy_rows-SameNames, allocate_slice-SameNames}
use mooncake.Strategy.Slice.{IsSpread, allocate_slice-IsSpread, segments, segments_same}
use mooncake.Strategy.Rows.{
  AllApart, Sized, push_each-AllApart, push_each-Sized, length-push_each, AllApart-take,
  AllApart-replicate, Sized-replicate,
}

-- The rows of `sizes` slices each, apart from one another; not none if any were asked for.
pub record IsPlan {S : Type 0} (m : Memory S) (sizes : List ℕ) (count : ℕ)
    (rows : List (List AllocatedBuffer)) : Type 0 where
  pub sized : Sized sizes rows
  pub apart : AllApart m rows
  pub few : length rows ≤ count
  pub some_made : 0 < count → 0 < length rows

regroup :
    {S : Type 0} {m : Memory S} (size : ℕ) (sizes done : List ℕ) (k count : ℕ)
    (out : List (List AllocatedBuffer))
    → k ≤ count
    → (0 < count → 0 < k)
    → IsPlan m ((done ++ size ∷ []) ++ sizes) k out
    → IsPlan m (done ++ size ∷ sizes) count out
regroup size sizes done k count out le pos_k p = record {
  sized = subst (λ (xs : List ℕ). Sized xs out) (append_assoc done (size ∷ []) sizes) p.sized;
  apart = p.apart;
  few = omega (arith, p.few);
  some_made = λ c. p.some_made (pos_k c);
}

module _ {S : Type 0} (e : Engine S) (rng : Shuffle) (fair : Shuffles rng) (ids : List ℕ)
    (by_name : Dict String (List ℕ)) (config : ReplicateConfig) (alive : ℕ → Bool) (m : Memory S)
    (named : Named m by_name) where
  abbrev Rows : Type 0
  Rows = List (List AllocatedBuffer)

  -- The rest of the loop, from rows that hold `done`.
  loop :
      (sizes done : List ℕ) (t : Attempt S) (rows : Rows) (count : ℕ) (out : Rows)
      → SameNames m t.memory
      → length rows ≡ count
      → Sized done rows
      → AllApart m rows
      → (allocate_slices e rng ids by_name config alive t rows count sizes).0 ≡ ok out
      → IsPlan m (done ++ sizes) count out
  unfolding allocate_slices
  loop [] done t rows count out same n sized apart h =
      let eq : rows ≡ out = cc in
      subst (λ (r : Rows). IsPlan m (done ++ []) count r) eq
        (record {
          sized = rw append-nil sized;
          apart = apart;
          few = omega arith;
          some_made = λ p. omega arith;
        })
  loop (size ∷ sizes) done t rows count out same n sized apart h =
      elim (List-cases (allocate_slice e rng ids by_name config count t size []).0) [
        | inl nothing ↦ cc (rw (nothing, allocate_slices) at h)
        | inr (b, rest, made) ↦
            let t' = (allocate_slice e rng ids by_name config count t size []).1 in
            let named' : Named t.memory by_name = λ k xs f a c. same a ∙ named k xs f a c in
            let spread : IsSpread t.memory count size [] (b ∷ rest) =
              rw made at
                (allocate_slice-IsSpread e rng fair ids by_name config count t size [] named') in
            let same' : SameNames m t'.memory = λ a.
              allocate_slice-SameNames e rng fair ids by_name config count t size [] named' a
              ∙ same a in
            let distinct : Distinct (segments m (b ∷ rest)) =
              subst Distinct (segments_same m t.memory (b ∷ rest) same) spread.distinct in
            elim (Bool-cases (ltb (length (b ∷ rest)) count)) [
              | inl short ↦
                  let k = length (b ∷ rest) in
                  let kept : length (take k rows) ≡ k =
                    length-take_le k rows (ground (arith, n, short)) in
                  let t'' = destroy_rows e rng ids by_name config alive t' (drop k rows) in
                  regroup size sizes done k count out (ground (arith, short)) (omega arith) (
                    loop sizes (done ++ size ∷ []) t'' (push_each (take k rows) (b ∷ rest)) k out
                      (λ a.
                        destroy_rows-SameNames e rng fair ids by_name config alive t' (drop k rows)
                          a
                        ∙ same' a)
                      (length-push_each (take k rows) (b ∷ rest) ∙ kept)
                      (push_each-Sized done size (take k rows) (b ∷ rest) kept spread.sized
                        (All-take _ k rows sized))
                      (push_each-AllApart m done (take k rows) (b ∷ rest) kept
                        (All-take _ k rows sized) distinct (AllApart-take m k rows apart))
                      (rw (made, allocate_slices, short) at h))
              | inr full ↦
                  let kept : length rows ≡ length (b ∷ rest) =
                    omega (arith, ltb_ge (length (b ∷ rest)) count full, spread.few, n) in
                  regroup size sizes done count count out (omega arith) (omega arith) (
                    loop sizes (done ++ size ∷ []) t' (push_each rows (b ∷ rest)) count out same'
                      (length-push_each rows (b ∷ rest) ∙ n)
                      (push_each-Sized done size rows (b ∷ rest) kept spread.sized sized)
                      (push_each-AllApart m done rows (b ∷ rest) kept sized distinct apart)
                      (rw (made, allocate_slices, full) at h))
            ]
      ]

  -- If the shuffle brings up only what it is given, and the allocators listed under a name have
  -- that name: a successful Allocate returns at least one and at most `replica_num` replicas, all
  -- of them being written; each holds one buffer for each slice, in order and of its size; and for
  -- every slice the replicas lie on different segments.
  pub allocate_replicas-IsPlan :
      (t : Attempt S) (sizes : List ℕ) (rs : List Replica)
      → SameNames m t.memory
      → (allocate_replicas e rng ids by_name config alive t sizes).0 ≡ ok rs
      → (rows : List (List AllocatedBuffer)) × (rs ≡ map in_progress rows)
        × IsPlan m sizes config.replica_num rows
        × (0 < length rows)
  unfolding allocate_replicas validate_input
  allocate_replicas-IsPlan t sizes rs same h =
      elim (Option-cases (validate_input sizes config.replica_num)) [
        | inr (code, bad) ↦ cc (rw (bad, allocate_replicas) at h)
        | inl valid ↦
            let start = replicate config.replica_num [] in
            elim (Expected-cases
              (allocate_slices e rng ids by_name config alive t start config.replica_num sizes).0) [
                | inl (rows, made) ↦
                    let plan =
                      loop sizes [] t start config.replica_num rows same
                        (length-replicate config.replica_num [])
                        (Sized-replicate config.replica_num)
                        (AllApart-replicate m config.replica_num) made in
                    (
                      rows,
                      cc (rw (valid, made, allocate_replicas) at h),
                      plan,
                      plan.some_made (ground (arith, valid)),
                    )
                | inr (code, failed) ↦ cc (rw (valid, failed, allocate_replicas) at h)
              ]
      ]
