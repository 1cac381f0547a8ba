-- ===== src/Master/Evict/Protected.antt =====
-- Which objects BatchEvict leaves alone (mooncake-store/src/master_service.cpp).
use mooncake.Prelude.{
  ℕ, zero, suc, ◌+◌, ◌-◌, ◌≤◌, ◌≡◌, refl, ◌∙◌, String, Bool, true, false, not, ◌&&◌, ◌||◌, Option,
  some, List, [], ◌∷◌, if◌then◌else◌, ltb, leb, min, is_empty, length, get_or, string_eq, nat_eq,
  ◌==◌, arith, inl, inr, Bool-cases, All, All-append,
}
use mooncake.Prelude.Dict.{find, walk, IsMap, find-walk, walk-IsMap, walk-keeps}
use mooncake.Metadata.{ObjectMetadata, is_lease_expired, is_soft_pinned}
use mooncake.Master.{Env, Master, Shard, walk_shards_from, object, get_shard_index, free_replicas}
use mooncake.Master.Loops.{
  Pointwise, HasMaps, Pointwise-get, Pointwise-trans, IsMap-get, walk_shards_from-Pointwise,
}
use mooncake.Master.Evict.{
  Double, sorted, insert_sorted, nth_element, Pass, is_incomplete, collect, evict_first,
  first_pass_shard, evict_no_pin, evict_any, second_pass, empty_pass, evict_passes, batch_evict,
}

-- The lease has not run out, or a memory replica is incomplete, or the object is soft-pinned and the
-- service does not evict such objects.
abbrev pub is_protected : ℕ → Bool → ObjectMetadata → Bool
is_protected now allow_soft o =
    not (is_lease_expired now o) || is_incomplete o || (not allow_soft && is_soft_pinned now o)

module _ (now : ℕ) where
  abbrev AllPast : List ℕ → Type 0
  AllPast = All (λ (t : ℕ). t ≤ now)

  insert_sorted-AllPast :
      (x : ℕ) (xs : List ℕ) → x ≤ now → AllPast xs → AllPast (insert_sorted x xs)
  unfolding insert_sorted
  insert_sorted-AllPast x [] h w = (h, tt)
  insert_sorted-AllPast x (y ∷ ys) h w = elim (Bool-cases (leb x y)) [
    | inl e ↦ rw e (h, w)
    | inr e ↦ rw e (w.0, insert_sorted-AllPast x ys h w.1)
  ]

  sorted-AllPast : (xs : List ℕ) → AllPast xs → AllPast (sorted xs)
  unfolding sorted
  sorted-AllPast [] w = tt
  sorted-AllPast (x ∷ xs) w = insert_sorted-AllPast x (sorted xs) w.0 (sorted-AllPast xs w.1)

  get_or-AllPast : (xs : List ℕ) (i : ℕ) → AllPast xs → get_or xs i 0 ≤ now
  get_or-AllPast [] i w = omega arith
  get_or-AllPast (x ∷ xs) zero w = w.0
  get_or-AllPast (x ∷ xs) (suc i) w = get_or-AllPast xs i w.1

  nth_element-le : (xs : List ℕ) (k : ℕ) → AllPast xs → nth_element xs k ≤ now
  unfolding nth_element
  nth_element-le xs k w = get_or-AllPast (sorted xs) k (sorted-AllPast xs w)

module _ (now : ℕ) (allow : Bool) where
  -- The candidates of the second pass: leases that have run out, and no soft pin unless allowed.
  record Fair (p : Pass) : Type 0 where
    past : AllPast now p.no_pin_objects
    unpinned : allow ≡ false → is_empty p.soft_pin_objects ≡ true

  collect-Fair :
      (ideal : ℕ) (k : String) (o : ObjectMetadata) (p : Pass)
      → Fair p
      → Fair (collect now allow ideal k o p).1
  unfolding collect
  collect-Fair ideal k o p w = record {
    past =
        ground
          (arith, w.past, All-append (λ (t : ℕ). t ≤ now) p.no_pin_objects (o.lease_timeout ∷ []));
    unpinned = λ e. ground (arith, w.unpinned e);
  }

  collect_kept :
      (ideal : ℕ) (k : String) (o : ObjectMetadata) (p : Pass)
      → (collect now allow ideal k o p).0 ≡ some o
  unfolding collect
  collect_kept ideal k o p = ground arith

  evict_first_kept :
      (t : ℕ) (k : String) (o : ObjectMetadata) (p : Pass)
      → not (is_lease_expired now o) || is_incomplete o || is_soft_pinned now o ≡ true
      → (evict_first now t k o p).0 ≡ some o
  unfolding evict_first
  evict_first_kept t k o p h = ground arith

  evict_no_pin_kept :
      (t : ℕ) (k : String) (o : ObjectMetadata) (p : Pass)
      → t ≤ now
      → not (is_lease_expired now o) || is_incomplete o || is_soft_pinned now o ≡ true
      → (evict_no_pin now t k o p).0 ≡ some o
  unfolding evict_no_pin
  evict_no_pin_kept t k o p past h = ground arith

  evict_any_kept :
      (t : ℕ) (k : String) (o : ObjectMetadata) (p : Pass)
      → not (is_lease_expired now o) || is_incomplete o ≡ true
      → (evict_any now t k o p).0 ≡ some o
  unfolding evict_any
  evict_any_kept t k o p h = ground arith

  evict_first-Fair :
      (t : ℕ) (k : String) (o : ObjectMetadata) (p : Pass)
      → Fair p
      → Fair (evict_first now t k o p).1
  unfolding evict_first
  evict_first-Fair t k o p w = record {
    past =
        ground
          (arith, w.past, All-append (λ (t : ℕ). t ≤ now) p.no_pin_objects (o.lease_timeout ∷ []));
    unpinned = λ e. ground (arith, w.unpinned e);
  }

  -- A shard keeps its protected objects.
  abbrev Kept : Shard → Shard → Type 0
  Kept sh sh' =
      IsMap sh
      → IsMap sh'
        × ((j : String) (o : ObjectMetadata)
            → find j sh ≡ some o
            → is_protected now allow o ≡ true
            → find j sh' ≡ some o)

  Kept-trans : (a b c : Shard) → Kept a b → Kept b c → Kept a c
  Kept-trans a b c p q w =
      let first = p w in
      let second = q first.0 in (second.0, λ j o f h. second.1 j o (first.1 j o f h) h)

  walk-Kept :
      (f : String → ObjectMetadata → Pass → Option ObjectMetadata × Pass)
      → ((k : String) (o : ObjectMetadata) (p : Pass)
          → is_protected now allow o ≡ true
          → (f k o p).0 ≡ some o)
      → (sh : Shard) (p : Pass) → Kept sh (walk f sh p).0
  walk-Kept f keep sh p w = (
    walk-IsMap f sh p w,
    λ j o found h. let (q, e) = find-walk f j sh p o w found in e ∙ keep j o q h,
  )

  first_pass_shard-Kept :
      (ceil_target : ℕ → ℕ) (sh : Shard) (p : Pass)
      → Fair p
      → Kept sh (first_pass_shard now allow ceil_target sh p).0
        × Fair (first_pass_shard now allow ceil_target sh p).1
  unfolding first_pass_shard
  first_pass_shard-Kept ceil_target sh p w =
      let p0 = record p { object_count = p.object_count + length sh; candidates = [] } in
      let ideal = ceil_target p0.object_count - p0.evicted_count in
      let w0 : Fair p0 = record { past = w.past; unpinned = w.unpinned } in
      let one = walk (collect now allow ideal) sh p0 in
      let kept = walk-Kept (collect now allow ideal) (λ k o q h. collect_kept ideal k o q) sh p0 in
      let fair = walk-keeps Fair (collect now allow ideal) (collect-Fair ideal) sh p0 w0 in
      let t = nth_element one.1.candidates (min ideal (length one.1.candidates) - 1) in
      elim (Bool-cases (ltb 0 ideal && not (is_empty one.1.candidates))) [
        | inr e ↦ rw e (kept, fair)
        | inl e ↦ rw e (
          Kept-trans sh one.0 (walk (evict_first now t) one.0 one.1).0 kept (
              walk-Kept (evict_first now t) (λ k o q h. evict_first_kept t k o q (ground arith))
                one.0 one.1),
          walk-keeps Fair (evict_first now t) (evict_first-Fair t) one.0 one.1 fair,
        )
      ]

  module _ (start : ℕ) (shards : List Shard) where
    later-Kept :
        (f : String → ObjectMetadata → Pass → Option ObjectMetadata × Pass)
        → ((k : String) (o : ObjectMetadata) (p : Pass)
            → is_protected now allow o ≡ true
            → (f k o p).0 ≡ some o)
        → (p : Pass) → Pointwise Kept shards (walk_shards_from start (walk f) shards p).0
    later-Kept f keep p =
        (walk_shards_from-Pointwise Kept (λ q. Unit) start (walk f)
          (λ sh q i. (walk-Kept f keep sh q, tt)) shards p tt).0

    Pointwise-self : (xs : List Shard) → Pointwise Kept xs xs
    Pointwise-self [] = tt
    Pointwise-self (x ∷ xs) = ((λ w. (w, λ j o f h. f)), Pointwise-self xs)

    second_pass-Kept :
        (p : Pass) → Fair p → Pointwise Kept shards (second_pass now start shards p).0
    unfolding second_pass
    second_pass-Kept p w =
        let no_pin = length p.no_pin_objects in
        elim (Bool-cases (ltb 0 p.target)) [
          | inr e ↦ rw e (Pointwise-self shards)
          | inl e ↦ elim (Bool-cases (leb p.target no_pin)) [
            | inl e' ↦
                rw (e, e')
                  (later-Kept (evict_no_pin now (nth_element p.no_pin_objects (p.target - 1)))
                    (λ k o q h.
                      evict_no_pin_kept _ k o q
                        (nth_element-le now p.no_pin_objects (p.target - 1) w.past) (ground arith))
                    p)
            | inr e' ↦ elim (Bool-cases (is_empty p.soft_pin_objects)) [
              | inl e'' ↦ rw (e, e', e'') (Pointwise-self shards)
              | inr e'' ↦
                  rw (e, e', e'')
                    (later-Kept
                      (evict_any now (nth_element p.soft_pin_objects (p.target - no_pin - 1)))
                      (λ k o q h. evict_any_kept _ k o q (ground (arith, w.unpinned))) p)
            ]
          ]
        ]

  evict_passes-Kept :
      (ceil_target ceil_lower : ℕ → ℕ) (start : ℕ) (shards : List Shard)
      → Pointwise Kept shards (evict_passes now allow ceil_target ceil_lower start shards).0
  unfolding evict_passes
  evict_passes-Kept ceil_target ceil_lower start shards =
      let one = walk_shards_from start (first_pass_shard now allow ceil_target) shards empty_pass in
      let (kept, w) =
        walk_shards_from-Pointwise Kept Fair start (first_pass_shard now allow ceil_target)
          (first_pass_shard-Kept ceil_target) shards empty_pass
          (record { past = tt; unpinned = λ e. refl }) in
      Pointwise-trans Kept Kept-trans shards one.0 _ kept
        (second_pass-Kept start one.0 _ (record { past = w.past; unpinned = w.unpinned }))

module _ {S : Type 0} (env : Env S) (d : Double) where
  -- The shards after BatchEvict are those of the two passes.
  object-batch_evict :
      (now start : ℕ) (target lowerbound : d.Value) (m : Master S) (key : String)
      → (lower : d.Value) × (object env (batch_evict env d now start target lowerbound m) key
          ≡ find key (
              get_or
                (evict_passes now m.config.allow_evict_soft_pinned_objects
                  (λ n. d.ceil_mul n target)
                  (λ n. d.ceil_mul n lower)
                  start
                  m.shards).0
                (get_shard_index env key)
                []))
  unfolding batch_evict object free_replicas
  object-batch_evict now start target lowerbound m key =
      let lower = if d.lt target lowerbound then target else lowerbound in
      let p =
        (evict_passes now m.config.allow_evict_soft_pinned_objects (λ n. d.ceil_mul n target)
          (λ n. d.ceil_mul n lower) start m.shards).1 in
      (
        lower,
        elim (Bool-cases (ltb 0 p.evicted_count || p.object_count == 0)) [
          | inl e ↦ rw e refl
          | inr e ↦ rw e refl
        ],
      )

  -- In a service no shard of which holds a key twice, BatchEvict at the time `now` leaves an object
  -- as it is if its lease has not run out, if a memory replica of it is incomplete, or if it is
  -- soft-pinned and the service does not evict such objects; whatever the ratios and the shard at
  -- which it starts.
  pub batch_evict_protected :
      (now start : ℕ) (target lowerbound : d.Value) (m : Master S) (key : String)
      (o : ObjectMetadata)
      → HasMaps m
      → object env m key ≡ some o
      → is_protected now m.config.allow_evict_soft_pinned_objects o ≡ true
      → object env (batch_evict env d now start target lowerbound m) key ≡ some o
  unfolding object
  batch_evict_protected now start target lowerbound m key o w found h =
      let allow = m.config.allow_evict_soft_pinned_objects in
      let (lower, e) = object-batch_evict now start target lowerbound m key in
      let kept =
        evict_passes-Kept now allow (λ n. d.ceil_mul n target) (λ n. d.ceil_mul n lower) start
          m.shards in
      e
      ∙ (Pointwise-get (Kept now allow) (λ s. (tt, λ j x f p. f)) m.shards _
            (get_shard_index env key) kept (IsMap-get m.shards (get_shard_index env key) w)).1
          key o found h
