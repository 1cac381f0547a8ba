-- ===== src/Strategy.antt =====
-- mooncake-store/include/allocation_strategy.h: RandomAllocationStrategy. `std::shuffle` is a
-- parameter, one permutation for each call; the retry counter is an observer, and is kept.
pub mod Steps
pub mod Allocate
pub mod Rows
pub mod Names
pub mod Slice
pub mod Heap
use mooncake.Prelude.{
  ℕ, suc, zero, ◌+◌, ◌≡◌, String, Bool, true, false, not, ◌&&◌, ◌||◌, Option, none, some, List, [],
  ◌∷◌, ◌++◌, map, if◌then◌else◌, HasEq, ◌==◌, nat_eq, string_eq, contains, is_empty, any, take,
  length, min, leb, ltb, replicate, keep_if, drop,
}
use mooncake.Prelude.Dict.{Dict, find}
use mooncake.Types.{
  ErrorCode, invalid_params, no_available_handle, Expected, ok, err, ReplicateConfig,
}
use mooncake.Allocator.{
  Engine, BufferAllocator, Memory, AllocatedBuffer, allocate, largest_free_region,
}
use mooncake.Replica.{Replica, memory_data, processing, destroy_buffers}

-- The random generator: how the candidates of one call are put in order.
pub record Shuffle : Type 0 where
  pub order : ℕ → List ℕ → List ℕ

-- What a call of the strategy changes: the allocators, the generator's position, the retry counter.
pub record Attempt (S : Type 0) : Type 0 where
  pub memory : Memory S
  pub draws : ℕ
  pub retry_counter : ℕ

-- kMaxRetryLimit
abbrev pub max_retry_limit : ℕ
max_retry_limit = 10

abbrev has_zero : List ℕ → Bool
has_zero xs = any (λ x. x == 0) xs

-- validateInput
unfoldable pub validate_input : List ℕ → ℕ → Option ErrorCode
validate_input sizes replica_num =
    if replica_num == 0 || is_empty sizes || has_zero sizes then some invalid_params else none

-- allocator->getSegmentName()
abbrev pub name_of : {S : Type 0} → Memory S → ℕ → String
name_of m id = elim (find id m.heap) [ none ↦ "" | some a ↦ a.segment_name ]

-- replica_buffers[i].push_back(slice_replicas[i]), for each i.
abbrev pub push_each :
    List (List AllocatedBuffer) → List AllocatedBuffer → List (List AllocatedBuffer)
push_each [] bs = []
push_each (row ∷ rows) [] = row ∷ rows
push_each (row ∷ rows) (b ∷ bs) = (row ++ b ∷ []) ∷ push_each rows bs

abbrev pub in_progress : List AllocatedBuffer → Replica
in_progress bs = record { replica_data = memory_data bs; status = processing }

module _ {S : Type 0} (e : Engine S) (rng : Shuffle) where
  -- for (auto& allocator : preferred_it->second): the first that has room.
  unfoldable pub try_preferred : Attempt S → List ℕ → ℕ → Option (AllocatedBuffer × Attempt S)
  try_preferred t [] size = none
  try_preferred t (a ∷ as') size =
      let rest = try_preferred t as' size in
      elim (allocate e t.memory a size) [
        | some (b, m) ↦ some (b, record t { memory = m })
        | none ↦ rest
      ]

  -- The candidates of tryRandomAllocate.
  abbrev pub is_eligible : Memory S → List String → ℕ → ℕ → Bool
  is_eligible m excluded size a =
      not (contains excluded (name_of m a))
      && elim (find a m.heap) [ none ↦ false | some al ↦ leb size (largest_free_region e al) ]

  -- The retries of tryRandomAllocate; each one that fails is counted.
  unfoldable pub try_each : Attempt S → List ℕ → ℕ → Option AllocatedBuffer × Attempt S
  try_each t [] size = (none, t)
  try_each t (a ∷ as') size =
      let rest = try_each (record t { retry_counter = t.retry_counter + 1 }) as' size in
      elim (allocate e t.memory a size) [
        | some (b, m) ↦ (some b, record t { memory = m })
        | none ↦ rest
      ]

  -- tryRandomAllocate. The code shuffles indices into `allocators`; here the allocators themselves.
  unfoldable pub try_random_allocate :
      Attempt S → List ℕ → ℕ → List String → Option AllocatedBuffer × Attempt S
  unfolding try_each
  try_random_allocate t allocators size excluded =
      let eligible = keep_if (is_eligible t.memory excluded size) allocators in
      if is_empty eligible
      then (none, t)
      else try_each (record t { draws = t.draws + 1 })
          (take (min max_retry_limit (length eligible)) (rng.order t.draws eligible)) size

  module _ (allocators : List ℕ) (by_name : Dict String (List ℕ)) (config : ReplicateConfig) where
    -- The preferred segment is tried if it is named and not yet used.
    abbrev pub preferred : List String → List ℕ
    preferred excluded =
        if not (config.preferred_segment == "") && not (contains excluded config.preferred_segment)
        then elim (find config.preferred_segment by_name) [ none ↦ [] | some ids ↦ ids ]
        else []

    -- allocateSingleBuffer
    unfoldable pub allocate_single_buffer :
        Attempt S → ℕ → List String → Option AllocatedBuffer × Attempt S
    unfolding try_preferred try_random_allocate
    allocate_single_buffer t size excluded = elim (try_preferred t (preferred excluded) size) [
      | some (b, t') ↦ (some b, t')
      | none ↦ try_random_allocate t allocators size excluded
    ]

    -- allocateSlice: up to `n` buffers of one size, each on a segment of its own.
    unfoldable pub allocate_slice :
        ℕ → Attempt S → ℕ → List String → List AllocatedBuffer × Attempt S
    allocate_slice zero t size used = ([], t)
    allocate_slice (suc n) t size used =
        let (found, t') = allocate_single_buffer t size used in
        elim found [
          | none ↦ ([], t')
          | some b ↦
              let (bs, t'') = allocate_slice n t' size (name_of t'.memory b.allocator ∷ used) in
              (b ∷ bs, t'')
        ]

    -- The rows that `resize` cuts off, or that an error leaves behind, are destroyed.
    unfoldable pub destroy_rows : (ℕ → Bool) → Attempt S → List (List AllocatedBuffer) → Attempt S
    destroy_rows alive t [] = t
    destroy_rows alive t (row ∷ rows) =
        destroy_rows alive (record t { memory = destroy_buffers e alive t.memory row }) rows

    -- The loop of Allocate over the slices; `rows` are the buffers of each replica so far.
    unfoldable pub allocate_slices :
        (ℕ → Bool)
        → Attempt S
        → List (List AllocatedBuffer)
        → ℕ
        → List ℕ
        → Expected (List (List AllocatedBuffer)) × Attempt S
    allocate_slices alive t rows count [] = (ok rows, t)
    allocate_slices alive t rows count (size ∷ sizes) =
        let (bs, t') = allocate_slice count t size [] in
        elim bs [
          | [] ↦ (err no_available_handle, destroy_rows alive t' rows)
          | b ∷ rest ↦
              let n = length (b ∷ rest) in
              elim (ltb n count) [
                | true ↦
                    allocate_slices alive (destroy_rows alive t' (drop n rows))
                      (push_each (take n rows) (b ∷ rest)) n sizes
                | false ↦ allocate_slices alive t' (push_each rows (b ∷ rest)) count sizes
              ]
        ]

    -- RandomAllocationStrategy::Allocate
    unfoldable pub allocate_replicas :
        (ℕ → Bool) → Attempt S → List ℕ → Expected (List Replica) × Attempt S
    allocate_replicas alive t sizes = elim (validate_input sizes config.replica_num) [
      | some code ↦ (err code, t)
      | none ↦
          let (rows, t') =
            allocate_slices alive t (replicate config.replica_num []) config.replica_num sizes in
          elim rows [ err code ↦ (err code, t') | ok bs ↦ (ok (map in_progress bs), t') ]
    ]
