-- ===== src/Strategy/Heap.antt =====
-- Allocation neither makes nor renames an allocator.
use mooncake.Prelude.{
  ℕ, zero, suc, ◌+◌, ◌%◌, ◌≡◌, refl, subst, ◌∙◌, String, Bool, Option, none, some, List, [], ◌∷◌,
  nat_eq, arith, ==_iff, inl, inr, Option-cases, Bool-cases, List-cases, keep_if, is_empty, ltb,
  length, drop, take, replicate,
}
use mooncake.Prelude.Dict.{Dict, find, put, find-put}
use mooncake.Types.{ReplicateConfig, u64_mod, Expected-cases}
use mooncake.Allocator.{Engine, Memory, BufferAllocator, AllocatedBuffer, allocate, hand_out}
use mooncake.Replica.{destroy_buffers}
use mooncake.Segment.Heap.{SameHeap, destroy_buffers-SameHeap}
use mooncake.Strategy.{
  Shuffle, Attempt, try_preferred, try_each, is_eligible, try_random_allocate, preferred,
  allocate_single_buffer, allocate_slice, destroy_rows, allocate_slices, allocate_replicas,
  validate_input, push_each,
}

hand_out-SameHeap :
    {S : Type 0} (m : Memory S) (id size : ℕ) (al : BufferAllocator S) (r : Option (ℕ × S))
    (b : AllocatedBuffer) (m' : Memory S)
    → find id m.heap ≡ some al
    → hand_out m id size al r ≡ some (b, m')
    → SameHeap m m'
unfolding hand_out
hand_out-SameHeap m id size al none b m' f h a = cc
hand_out-SameHeap m id size al (some (ptr, s)) b m' f h a =
    let new = record al { cur_size = (al.cur_size + size) % u64_mod; engine = s } in
    let k : m'.heap ≡ put id new m.heap = ground arith in
    rw k (ground (arith, f, ==_iff id a, find-put id a new m.heap))

module _ {S : Type 0} (e : Engine S) (rng : Shuffle) where
  allocate-SameHeap :
      (m : Memory S) (id size : ℕ) (b : AllocatedBuffer) (m' : Memory S)
      → allocate e m id size ≡ some (b, m')
      → SameHeap m m'
  unfolding allocate
  allocate-SameHeap m id size b m' h = elim (Option-cases (find id m.heap)) [
    | inl f ↦ cc (rw (f, allocate) at h)
    | inr (al, f) ↦ hand_out-SameHeap m id size al _ b m' f (rw (f, allocate) at h)
  ]

  try_preferred-SameHeap :
      (t : Attempt S) (ids : List ℕ) (size : ℕ) (b : AllocatedBuffer) (t' : Attempt S)
      → try_preferred e rng t ids size ≡ some (b, t')
      → SameHeap t.memory t'.memory
  unfolding try_preferred
  try_preferred-SameHeap t [] size b t' h = cc
  try_preferred-SameHeap t (x ∷ ids) size b t' h =
      elim (Option-cases (allocate e t.memory x size)) [
        | inr ((c, m), got) ↦
            let h' = rw (got, try_preferred) at h in
            let em : m ≡ t'.memory = ground arith in
            subst (SameHeap t.memory) em (allocate-SameHeap t.memory x size c m got)
        | inl no_room ↦ try_preferred-SameHeap t ids size b t' (rw (no_room, try_preferred) at h)
      ]

  try_each-SameHeap :
      (t : Attempt S) (ids : List ℕ) (size : ℕ)
      → SameHeap t.memory (try_each e rng t ids size).1.memory
  unfolding try_each
  try_each-SameHeap t [] size = λ a. refl
  try_each-SameHeap t (x ∷ ids) size = elim (Option-cases (allocate e t.memory x size)) [
    | inr ((c, m), got) ↦ rw (got, try_each) (allocate-SameHeap t.memory x size c m got)
    | inl no_room ↦
        rw (no_room, try_each)
          (try_each-SameHeap (record t { retry_counter = t.retry_counter + 1 }) ids size)
  ]

  try_random_allocate-SameHeap :
      (t : Attempt S) (ids : List ℕ) (size : ℕ) (excluded : List String)
      → SameHeap t.memory (try_random_allocate e rng t ids size excluded).1.memory
  unfolding try_random_allocate
  try_random_allocate-SameHeap t ids size excluded =
      elim (Bool-cases (is_empty (keep_if (is_eligible e rng t.memory excluded size) ids))) [
        | inl nothing ↦ rw nothing (λ a. refl)
        | inr some_left ↦ rw some_left (try_each-SameHeap (record t { draws = t.draws + 1 }) _ size)
      ]

  module _ (ids : List ℕ) (by_name : Dict String (List ℕ)) (config : ReplicateConfig) where
    single-SameHeap :
        (t : Attempt S) (size : ℕ) (excluded : List String)
        → SameHeap t.memory
            (allocate_single_buffer e rng ids by_name config t size excluded).1.memory
    unfolding allocate_single_buffer
    single-SameHeap t size excluded =
        elim (Option-cases
          (try_preferred e rng t (preferred e rng ids by_name config excluded) size)) [
            | inl nothing ↦
                rw (nothing, allocate_single_buffer)
                  (try_random_allocate-SameHeap t ids size excluded)
            | inr ((b, t'), got) ↦
                rw (got, allocate_single_buffer) (try_preferred-SameHeap t _ size b t' got)
          ]

    slice-SameHeap :
        (n : ℕ) (t : Attempt S) (size : ℕ) (used : List String)
        → SameHeap t.memory (allocate_slice e rng ids by_name config n t size used).1.memory
    unfolding allocate_slice
    slice-SameHeap zero t size used a = refl
    slice-SameHeap (suc n) t size used a =
        elim (Option-cases (allocate_single_buffer e rng ids by_name config t size used).0) [
          | inl nothing ↦ rw (nothing, allocate_slice) (single-SameHeap t size used a)
          | inr (b, got) ↦
              rw (got, allocate_slice) (slice-SameHeap n _ size _ a ∙ single-SameHeap t size used a)
        ]

    module _ (alive : ℕ → Bool) where
      rows-SameHeap :
          (t : Attempt S) (rows : List (List AllocatedBuffer))
          → SameHeap t.memory (destroy_rows e rng ids by_name config alive t rows).memory
      unfolding destroy_rows
      rows-SameHeap t [] a = refl
      rows-SameHeap t (r ∷ rows) a =
          rows-SameHeap (record t { memory = destroy_buffers e alive t.memory r }) rows a
          ∙ destroy_buffers-SameHeap e alive t.memory r a

      slices-SameHeap :
          (t : Attempt S) (rows : List (List AllocatedBuffer)) (count : ℕ) (sizes : List ℕ)
          → SameHeap t.memory
              (allocate_slices e rng ids by_name config alive t rows count sizes).1.memory
      unfolding allocate_slices
      slices-SameHeap t rows count [] a = refl
      slices-SameHeap t rows count (size ∷ sizes) a =
          let slice = slice-SameHeap count t size [] a in
          let t' = (allocate_slice e rng ids by_name config count t size []).1 in
          elim (List-cases (allocate_slice e rng ids by_name config count t size []).0) [
            | inl nothing ↦ rw (nothing, allocate_slices) (rows-SameHeap t' rows a ∙ slice)
            | inr (b, rest, made) ↦
                let n = length (b ∷ rest) in
                let t'' = destroy_rows e rng ids by_name config alive t' (drop n rows) in
                elim (Bool-cases (ltb n count)) [
                  | inl short ↦
                      rw (made, allocate_slices, short)
                        (slices-SameHeap t'' (push_each (take n rows) (b ∷ rest)) n sizes a
                          ∙ rows-SameHeap t' (drop n rows) a
                          ∙ slice)
                  | inr full ↦
                      rw (made, allocate_slices, full)
                        (slices-SameHeap t' (push_each rows (b ∷ rest)) count sizes a ∙ slice)
                ]
          ]

      -- Whatever Allocate returns, the same allocators exist under the same names.
      pub allocate_replicas-SameHeap :
          (t : Attempt S) (sizes : List ℕ)
          → SameHeap t.memory (allocate_replicas e rng ids by_name config alive t sizes).1.memory
      unfolding allocate_replicas
      allocate_replicas-SameHeap t sizes =
          let run =
            allocate_slices e rng ids by_name config alive t (replicate config.replica_num [])
              config.replica_num sizes in
          elim (Option-cases (validate_input sizes config.replica_num)) [
            | inr (code, bad) ↦ rw (bad, allocate_replicas) (λ a. refl)
            | inl valid ↦ elim (Expected-cases run.0) [
              | inl (rows, made) ↦
                  rw (valid, made, allocate_replicas) (slices-SameHeap t _ config.replica_num sizes)
              | inr (code, failed) ↦
                  rw (valid, failed, allocate_replicas)
                    (slices-SameHeap t _ config.replica_num sizes)
            ]
          ]
