-- ===== src/Strategy/Steps.antt =====
-- What one allocation changes: a buffer of the size asked for, from one of the allocators offered,
-- and the names of the allocators stay.
use mooncake.Prelude.{
  ℕ, zero, suc, ◌≡◌, refl, String, Bool, true, false, Option, none, some, List, [], ◌∷◌, nat_eq,
  string_eq, contains, ==_iff, ==_refl, arith, inl, inr, Option-cases, Bool-cases, keep_if, take,
  is_empty, ◌+◌, ◌%◌,
}
use mooncake.Prelude.Dict.{Dict, find, put, find-put}
use mooncake.Prelude.Int.{ℤ, pos, ◌+ℤ◌}
use mooncake.Types.{ReplicateConfig, u64_mod}
use mooncake.Allocator.{Engine, Memory, BufferAllocator, AllocatedBuffer, allocate, hand_out}
use mooncake.Strategy.{
  Shuffle, Attempt, name_of, try_preferred, try_each, is_eligible, try_random_allocate,
  allocate_single_buffer, preferred,
}

-- A buffer from `ids`, and a memory whose allocators have the names of `m`.
pub record Got {S : Type 0} (m : Memory S) (size : ℕ) (ids : List ℕ) (b : AllocatedBuffer)
    (m' : Memory S) : Type 0 where
  pub sized : b.size ≡ size
  pub offered : contains ids b.allocator ≡ true
  pub names : (a : ℕ) → name_of m' a ≡ name_of m a

pub put_names :
    {S : Type 0} (m : Memory S) (id : ℕ) (old new : BufferAllocator S) (a : ℕ) (g : ℤ)
    → find id m.heap ≡ some old
    → new.segment_name ≡ old.segment_name
    → name_of (record { heap = put id new m.heap; allocated_mem_size = g }) a ≡ name_of m a
put_names m id old new a g f same = ground (arith, find-put id a new m.heap, ==_iff id a)

hand_out-Got :
    {S : Type 0} (m : Memory S) (id size : ℕ) (al : BufferAllocator S) (r : Option (ℕ × S))
    (b : AllocatedBuffer) (m' : Memory S)
    → find id m.heap ≡ some al
    → hand_out m id size al r ≡ some (b, m')
    → Got m size (id ∷ []) b m'
unfolding hand_out
hand_out-Got m id size al none b m' f h = cc
hand_out-Got m id size al (some (ptr, s)) b m' f h = record {
  sized = ground arith;
  offered = ground (arith, ==_refl id);
  names = λ a.
      let new = record al { cur_size = (al.cur_size + size) % u64_mod; engine = s } in
      let g = m.allocated_mem_size +ℤ pos size in
      let k : m' ≡ record { heap = put id new m.heap; allocated_mem_size = g } = ground arith in
      rw k (put_names m id al new a g f refl);
}

pub allocate-Got :
    {S : Type 0} (e : Engine S) (m : Memory S) (id size : ℕ) (b : AllocatedBuffer) (m' : Memory S)
    → allocate e m id size ≡ some (b, m')
    → Got m size (id ∷ []) b m'
unfolding allocate
allocate-Got e m id size b m' h = elim (Option-cases (find id m.heap)) [
  | inl f ↦ cc (rw (f, allocate) at h)
  | inr (al, f) ↦ hand_out-Got m id size al _ b m' f (rw (f, allocate) at h)
]

Got-widen :
    {S : Type 0} (m : Memory S) (size : ℕ) (ids more : List ℕ) (b : AllocatedBuffer) (m' : Memory S)
    → ((a : ℕ) → contains ids a ≡ true → contains more a ≡ true)
    → Got m size ids b m'
    → Got m size more b m'
Got-widen m size ids more b m' wide g = record {
  sized = g.sized;
  offered = wide b.allocator g.offered;
  names = g.names;
}

-- A buffer from `ids`, or an unchanged memory.
abbrev Outcome : {S : Type 0} → Memory S → ℕ → List ℕ → Option AllocatedBuffer → Memory S → Type 0
Outcome m size ids none m' = m' ≡ m
Outcome m size ids (some b) m' = Got m size ids b m'

Outcome-widen :
    {S : Type 0} (m : Memory S) (size : ℕ) (ids more : List ℕ) (r : Option AllocatedBuffer)
    (m' : Memory S)
    → ((a : ℕ) → contains ids a ≡ true → contains more a ≡ true)
    → Outcome m size ids r m'
    → Outcome m size more r m'
Outcome-widen m size ids more none m' wide g = g
Outcome-widen m size ids more (some b) m' wide g = Got-widen m size ids more b m' wide g

module _ {S : Type 0} (e : Engine S) (rng : Shuffle) where
  pub try_preferred-Got :
      (t : Attempt S) (ids : List ℕ) (size : ℕ) (b : AllocatedBuffer) (t' : Attempt S)
      → try_preferred e rng t ids size ≡ some (b, t')
      → Got t.memory size ids b t'.memory
  unfolding try_preferred
  try_preferred-Got t [] size b t' h = cc
  try_preferred-Got t (a ∷ ids) size b t' h = elim (Option-cases (allocate e t.memory a size)) [
    | inr ((c, m), got) ↦
        let h' = rw (got, try_preferred) at h in
        let eb : c ≡ b = ground arith in
        let em : m ≡ t'.memory = ground arith in
        Got-widen t.memory size (a ∷ []) (a ∷ ids) b t'.memory (λ x k. ground arith)
          (rw (← eb, ← em) (allocate-Got e t.memory a size c m got))
    | inl no_room ↦
        Got-widen t.memory size ids (a ∷ ids) b t'.memory (λ x k. ground arith)
          (try_preferred-Got t ids size b t' (rw (no_room, try_preferred) at h))
  ]

  pub try_each-Outcome :
      (t : Attempt S) (ids : List ℕ) (size : ℕ)
      → Outcome t.memory size ids (try_each e rng t ids size).0 (try_each e rng t ids size).1.memory
  unfolding try_each
  try_each-Outcome t [] size = refl
  try_each-Outcome t (a ∷ ids) size = elim (Option-cases (allocate e t.memory a size)) [
    | inr ((c, m), got) ↦
        rw (got, try_each)
          (Got-widen t.memory size (a ∷ []) (a ∷ ids) c m (λ x k. ground arith)
            (allocate-Got e t.memory a size c m got))
    | inl no_room ↦
        rw (no_room, try_each)
          (Outcome-widen t.memory size ids (a ∷ ids) _ _ (λ x k. ground arith)
            (try_each-Outcome (record t { retry_counter = t.retry_counter + 1 }) ids size))
  ]

contains-take : (n : ℕ) (xs : List ℕ) (a : ℕ) → contains (take n xs) a ≡ true → contains xs a ≡ true
contains-take zero xs a h = cc
contains-take (suc n) [] a h = cc
contains-take (suc n) (x ∷ xs) a h = ground (arith, contains-take n xs a)

contains-keep_if :
    (p : ℕ → Bool) (xs : List ℕ) (a : ℕ) → contains (keep_if p xs) a ≡ true → p a ≡ true
contains-keep_if p [] a h = cc
contains-keep_if p (x ∷ xs) a h = ground (arith, contains-keep_if p xs a, ==_iff x a)

-- `std::shuffle` brings up only what it is given.
abbrev pub Shuffles : Shuffle → Type 0
Shuffles rng =
    (k : ℕ) (xs : List ℕ) (a : ℕ) → contains (rng.order k xs) a ≡ true → contains xs a ≡ true

-- What allocateSingleBuffer promises: a buffer on a segment that is not excluded, or nothing changed.
abbrev pub Placed :
    {S : Type 0} → Memory S → ℕ → List String → Option AllocatedBuffer → Memory S → Type 0
Placed m size excluded none m' = m' ≡ m
Placed m size excluded (some b) m' =
    (b.size ≡ size)
    × (contains excluded (name_of m b.allocator) ≡ false)
    × ((a : ℕ) → name_of m' a ≡ name_of m a)

Placed-of-Outcome :
    {S : Type 0} (m : Memory S) (size : ℕ) (ids : List ℕ) (excluded : List String)
    (r : Option AllocatedBuffer) (m' : Memory S)
    → ((a : ℕ) → contains ids a ≡ true → contains excluded (name_of m a) ≡ false)
    → Outcome m size ids r m'
    → Placed m size excluded r m'
Placed-of-Outcome m size ids excluded none m' out h = h
Placed-of-Outcome m size ids excluded (some b) m' out h =
    (h.sized, out b.allocator h.offered, h.names)

module _ {S : Type 0} (e : Engine S) (rng : Shuffle) (fair : Shuffles rng) where
  try_random_allocate-Placed :
      (t : Attempt S) (ids : List ℕ) (size : ℕ) (excluded : List String)
      → Placed t.memory size excluded
          (try_random_allocate e rng t ids size excluded).0
          (try_random_allocate e rng t ids size excluded).1.memory
  unfolding try_random_allocate
  try_random_allocate-Placed t ids size excluded =
      elim (Bool-cases (is_empty (keep_if (is_eligible e rng t.memory excluded size) ids))) [
        | inl nothing ↦ rw nothing refl
        | inr some_left ↦ rw some_left (
            Placed-of-Outcome t.memory size _ excluded _ _
              (λ a h. ground (
                arith,
                contains-keep_if (is_eligible e rng t.memory excluded size) ids a
                    (fair _ _ a (contains-take _ _ a h)),
              ))
              (try_each-Outcome e rng (record t { draws = t.draws + 1 }) _ size))
      ]

-- The allocators listed under a name have that name.
abbrev pub Named : {S : Type 0} → Memory S → Dict String (List ℕ) → Type 0
Named m by_name =
    (n : String) (ids : List ℕ)
    → find n by_name ≡ some ids
    → (a : ℕ) → contains ids a ≡ true
    → name_of m a ≡ n

Placed-of-Got :
    {S : Type 0} (m : Memory S) (size : ℕ) (ids : List ℕ) (excluded : List String)
    (b : AllocatedBuffer) (m' : Memory S)
    → ((a : ℕ) → contains ids a ≡ true → contains excluded (name_of m a) ≡ false)
    → Got m size ids b m'
    → Placed m size excluded (some b) m'
Placed-of-Got m size ids excluded b m' out h = (h.sized, out b.allocator h.offered, h.names)

module _ {S : Type 0} (e : Engine S) (rng : Shuffle) (fair : Shuffles rng) (ids : List ℕ)
    (by_name : Dict String (List ℕ)) (config : ReplicateConfig) where
  preferred_out :
      (t : Attempt S) (excluded : List String)
      → Named t.memory by_name
      → (a : ℕ) → contains (preferred e rng ids by_name config excluded) a ≡ true
      → contains excluded (name_of t.memory a) ≡ false
  preferred_out t excluded named a h =
      elim (Bool-cases (contains excluded config.preferred_segment)) [
        | inl used ↦ ground (arith, used)
        | inr free ↦ elim (Option-cases (find config.preferred_segment by_name)) [
          | inl missing ↦ ground (arith, missing)
          | inr (xs, found) ↦
              let at_name : name_of t.memory a ≡ config.preferred_segment =
                named config.preferred_segment xs found a (ground arith) in
              rw at_name free
        ]
      ]

  pub allocate_single_buffer-Placed :
      (t : Attempt S) (size : ℕ) (excluded : List String)
      → Named t.memory by_name
      → Placed t.memory size excluded
          (allocate_single_buffer e rng ids by_name config t size excluded).0
          (allocate_single_buffer e rng ids by_name config t size excluded).1.memory
  unfolding allocate_single_buffer
  allocate_single_buffer-Placed t size excluded named =
      elim (Option-cases
        (try_preferred e rng t (preferred e rng ids by_name config excluded) size)) [
          | inl nothing ↦
              rw (nothing, allocate_single_buffer)
                (try_random_allocate-Placed e rng fair t ids size excluded)
          | inr ((b, t'), got) ↦
              rw (got, allocate_single_buffer)
                (Placed-of-Got t.memory size _ excluded b t'.memory (preferred_out t excluded named)
                  (try_preferred-Got e rng t _ size b t' got))
        ]
