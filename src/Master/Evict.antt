-- ===== src/Master/Evict.antt =====
-- BatchEvict and a round of EvictionThreadFunc (mooncake-store/src/master_service.cpp). The ratios are
-- doubles, which enter through `Double`. Counts that the code keeps in a `long` and uses only where they
-- are positive are numbers that stop at 0.
pub mod Protected
use mooncake.Prelude.{
  ℕ, zero, suc, ◌+◌, ◌-◌, ◌*◌, String, Bool, true, false, not, ◌&&◌, ◌||◌, Option, none, some, List,
  [], ◌∷◌, ◌++◌, if◌then◌else◌, ltb, leb, min, is_empty, length, get_or, string_eq, nat_eq, ◌==◌,
}
use mooncake.Prelude.Dict.{walk}
use mooncake.Replica.{Replica, memory, complete, ReplicaStatus}
use mooncake.Metadata.{
  ObjectMetadata, is_lease_expired, is_soft_pinned, has_diff_rep_status, has_mem_replica,
  erase_replica, erased_replicas, is_valid,
}
use mooncake.Master.{Env, Master, Shard, free_replicas, walk_shards_from}

-- What the code uses of `double`: comparison, the arithmetic of the targets, and ceil(n * ratio).
pub record Double : Type 1 where
  pub Value : Type 0
  pub lt : Value → Value → Bool
  pub max_of : Value → Value → Value
  pub plus : Value → Value → Value
  pub minus : Value → Value → Value
  pub half : Value → Value
  pub is_positive : Value → Bool
  pub ceil_mul : ℕ → Value → ℕ

-- std::nth_element(v.begin(), v.begin() + k, v.end()), then v[k]: the value that sorting puts there.
unfoldable pub insert_sorted : ℕ → List ℕ → List ℕ
insert_sorted x [] = x ∷ []
insert_sorted x (y ∷ ys) = if leb x y then x ∷ y ∷ ys else y ∷ insert_sorted x ys

unfoldable pub sorted : List ℕ → List ℕ
unfolding insert_sorted
sorted [] = []
sorted (x ∷ xs) = insert_sorted x (sorted xs)

unfoldable pub nth_element : List ℕ → ℕ → ℕ
unfolding sorted
nth_element xs k = get_or (sorted xs) k 0

-- The counters and vectors of BatchEvict; `target` is target_evict_num of the second pass.
pub record Pass : Type 0 where
  pub evicted_count : ℕ
  pub object_count : ℕ
  pub no_pin_objects : List ℕ
  pub soft_pin_objects : List ℕ
  pub candidates : List ℕ
  pub target : ℕ
  pub freed : List Replica

abbrev pub is_incomplete : ObjectMetadata → Bool
is_incomplete o = elim (has_diff_rep_status o complete memory) [ none ↦ false | some s ↦ true ]

-- `it->second` loses its memory replicas, and the object goes if it is not valid any more.
abbrev pub evict_one : ObjectMetadata → Option ObjectMetadata
evict_one o = let o' = erase_replica memory o in if is_valid o' then some o' else none

abbrev count_evicted : ObjectMetadata → Pass → Pass
count_evicted o p = record p {
  evicted_count = p.evicted_count + 1;
  freed = p.freed ++ erased_replicas memory o;
}

-- The first loop over a shard: who may be evicted, and in which pass.
unfoldable pub collect :
    ℕ → Bool → ℕ → String → ObjectMetadata → Pass → Option ObjectMetadata × Pass
collect now allow_soft ideal key o p =
    if not (is_lease_expired now o) || is_incomplete o
    then (some o, p)
    else if not (is_soft_pinned now o)
    then if ltb 0 ideal
      then (some o, record p { candidates = p.candidates ++ o.lease_timeout ∷ [] })
      else (some o, record p { no_pin_objects = p.no_pin_objects ++ o.lease_timeout ∷ [] })
    else if allow_soft
    then (some o, record p { soft_pin_objects = p.soft_pin_objects ++ o.lease_timeout ∷ [] })
    else (some o, p)

-- The second loop over a shard in the first pass.
unfoldable pub evict_first : ℕ → ℕ → String → ObjectMetadata → Pass → Option ObjectMetadata × Pass
evict_first now target_timeout key o p =
    if not (is_lease_expired now o)
      || is_soft_pinned now o
      || is_incomplete o
      || not (has_mem_replica o)
    then (some o, p)
    else if leb o.lease_timeout target_timeout
    then (evict_one o, count_evicted o p)
    else (some o, record p { no_pin_objects = p.no_pin_objects ++ o.lease_timeout ∷ [] })

-- The first pass over one shard; `ceil_target n` is ceil(n * evict_ratio_target).
unfoldable pub first_pass_shard : ℕ → Bool → (ℕ → ℕ) → Shard → Pass → Shard × Pass
unfolding collect evict_first nth_element
first_pass_shard now allow_soft ceil_target shard p =
    let p0 = record p { object_count = p.object_count + length shard; candidates = [] } in
    let ideal = ceil_target p0.object_count - p0.evicted_count in
    let (shard', p1) = walk (collect now allow_soft ideal) shard p0 in
    if ltb 0 ideal && not (is_empty p1.candidates)
    then walk (evict_first now (nth_element p1.candidates (min ideal (length p1.candidates) - 1)))
        shard' p1
    else (shard', p1)

-- The loop of second pass A; it stops when the target is reached.
unfoldable pub evict_no_pin : ℕ → ℕ → String → ObjectMetadata → Pass → Option ObjectMetadata × Pass
evict_no_pin now target_timeout key o p =
    if ltb 0 p.target
      && leb o.lease_timeout target_timeout
      && not (is_soft_pinned now o)
      && not (is_incomplete o)
      && has_mem_replica o
    then (evict_one o, record (count_evicted o p) { target = p.target - 1 })
    else (some o, p)

-- The loop of second pass B.
unfoldable pub evict_any : ℕ → ℕ → String → ObjectMetadata → Pass → Option ObjectMetadata × Pass
evict_any now soft_target_timeout key o p =
    if not (ltb 0 p.target)
      || not (is_lease_expired now o)
      || is_incomplete o
      || not (has_mem_replica o)
    then (some o, p)
    else if not (is_soft_pinned now o) || leb o.lease_timeout soft_target_timeout
    then (evict_one o, record (count_evicted o p) { target = p.target - 1 })
    else (some o, p)

-- The second pass, if there is a target: pass A, pass B, or nothing.
unfoldable pub second_pass : ℕ → ℕ → List Shard → Pass → List Shard × Pass
unfolding evict_no_pin evict_any nth_element walk_shards_from
second_pass now start shards p =
    let no_pin = length p.no_pin_objects in
    if not (ltb 0 p.target)
    then (shards, p)
    else if leb p.target no_pin
    then walk_shards_from start
        (walk (evict_no_pin now (nth_element p.no_pin_objects (p.target - 1)))) shards p
    else if not (is_empty p.soft_pin_objects)
    then walk_shards_from start
        (walk (evict_any now (nth_element p.soft_pin_objects (p.target - no_pin - 1)))) shards p
    else (shards, p)

abbrev pub empty_pass : Pass
empty_pass = record {
  evicted_count = 0;
  object_count = 0;
  no_pin_objects = [];
  soft_pin_objects = [];
  candidates = [];
  target = 0;
  freed = [];
}

-- Both passes over the shards, from shard `start` on.
unfoldable pub evict_passes : ℕ → Bool → (ℕ → ℕ) → (ℕ → ℕ) → ℕ → List Shard → List Shard × Pass
unfolding first_pass_shard second_pass walk_shards_from
evict_passes now allow_soft ceil_target ceil_lower start shards =
    let (shards', p) =
      walk_shards_from start (first_pass_shard now allow_soft ceil_target) shards empty_pass in
    second_pass now start shards' (record p {
      target =
          min (ceil_lower p.object_count - p.evicted_count)
            (length p.no_pin_objects + length p.soft_pin_objects);
    })

module _ {S : Type 0} (env : Env S) (d : Double) where
  open d use {Value, lt, max_of, plus, minus, half, is_positive, ceil_mul}

  -- BatchEvict; `start` is rand() % metadata_shards_.size().
  unfoldable pub batch_evict : ℕ → ℕ → Value → Value → Master S → Master S
  unfolding evict_passes
  batch_evict now start ratio_target ratio_lowerbound m =
      let lower = if lt ratio_target ratio_lowerbound then ratio_target else ratio_lowerbound in
      let (shards, p) =
        evict_passes now m.config.allow_evict_soft_pinned_objects (λ n. ceil_mul n ratio_target)
          (λ n. ceil_mul n lower) start m.shards in
      let m' = free_replicas env (record m { shards = shards }) p.freed in
      if ltb 0 p.evicted_count || p.object_count == 0
      then record m' { need_eviction = false }
      else m'

  -- A round of EvictionThreadFunc, for the used ratio that the metrics report.
  unfoldable pub eviction_round : ℕ → ℕ → Value → Value → Value → Master S → Master S
  unfolding batch_evict
  eviction_round now start used_ratio eviction_ratio high_watermark m =
      let target = max_of eviction_ratio (plus (minus used_ratio high_watermark) eviction_ratio) in
      let lower = max_of (half target) (minus used_ratio high_watermark) in
      if lt high_watermark used_ratio || (m.need_eviction && is_positive eviction_ratio)
      then batch_evict now start target lower m
      else m
