-- ===== src/Segment/Detach.antt =====
-- What the manager of segments is after a segment has been detached: well formed, if it was.
use mooncake.Prelude.{
  true, ℕ, String, ◌≡◌, refl, sym, ap, ◌∙◌, subst, false, some, none, List, contains, is_empty,
  nat_eq, string_eq, arith, ==_iff, inl, inr, Option-cases, Bool-cases, ◌==◌, if◌then◌else◌,
  erase_first,
}
use mooncake.Prelude.Dict.{Dict, find, IsMap, find-put, put-IsMap, find-erase, erase-IsMap}
use mooncake.Prelude.Distinct.{
  Distinct, contains-erase_first, erase_first-Distinct, not-contains-empty,
}
use mooncake.Prelude.Int.{pos}
use mooncake.Types.{Uuid, uuid_eq}
use mooncake.Segment.{SegmentManager, MountedSegment, unmounting, or_empty, detach, drop_by_name}
use mooncake.Segment.Invariant.{mounted_bytes, IsAttached, IsOwned, IsWellFormed}
use mooncake.Segment.Bytes.{mounted_bytes-put_same}

-- What a name lists after an allocator has left it.
pub drop_by_name_lem :
    (name n : String) (a b : ℕ) (m : Dict String (List ℕ))
    → Distinct (or_empty (find name m))
    → contains (or_empty (find n (drop_by_name name a m))) b ≡ (
        if name == n
        then (if a == b then false else contains (or_empty (find n m)) b)
        else contains (or_empty (find n m)) b)
unfolding drop_by_name
drop_by_name_lem name n a b m d = elim (Option-cases (find name m)) [
  | inl e ↦ rw (e, drop_by_name) (ground (arith, ==_iff name n))
  | inr (ids, e) ↦
      let d' : Distinct ids = subst (λ o. Distinct (or_empty o)) e d in
      rw (e, drop_by_name)
        (ground (
          arith,
          find-erase name n m,
          find-put name n (erase_first a ids) m,
          contains-erase_first a b ids d',
          not-contains-empty (erase_first a ids) b,
          ==_iff name n,
        ))
]

module _ (name : String) (a : ℕ) (m : Dict String (List ℕ)) (w : IsMap m) where
  drop_by_name-IsMap : IsMap (drop_by_name name a m)
  unfolding drop_by_name
  drop_by_name-IsMap = elim (Option-cases (find name m)) [
    | inl e ↦ rw (e, drop_by_name) w
    | inr (ids, e) ↦
        rw (e, drop_by_name)
          (ground (arith, erase-IsMap name m w, put-IsMap name (erase_first a ids) m w))
  ]

  drop_by_name-nonempty :
      ((n : String) (ids : List ℕ) → find n m ≡ some ids → is_empty ids ≡ false)
      → (n : String) (ids : List ℕ) → find n (drop_by_name name a m) ≡ some ids
      → is_empty ids ≡ false
  unfolding drop_by_name
  drop_by_name-nonempty all n ids h = elim (Option-cases (find name m)) [
    | inl e ↦ all n ids ((rw (e, drop_by_name) at h))
    | inr (xs, e) ↦
        let h' = rw (e, drop_by_name) at h in
        ground (arith, h', all n ids, find-erase name n m, find-put name n (erase_first a xs) m)
  ]

drop_by_name-Distinct :
    (name : String) (a : ℕ) (m : Dict String (List ℕ))
    → ((n : String) → Distinct (or_empty (find n m)))
    → (n : String) → Distinct (or_empty (find n (drop_by_name name a m)))
unfolding drop_by_name
drop_by_name-Distinct name a m all n = elim (Option-cases (find name m)) [
  | inl e ↦ rw (e, drop_by_name) (all n)
  | inr (xs, e) ↦
      let d : Distinct xs = subst (λ o. Distinct (or_empty o)) e (all name) in
      rw (e, drop_by_name)
        (ground (
          arith,
          all n,
          erase_first-Distinct a xs d,
          find-erase name n m,
          find-put name n (erase_first a xs) m,
        ))
]

module _ {S : Type 0} (sm : SegmentManager S) (id : Uuid) (old : MountedSegment) (a : ℕ)
    (w : IsWellFormed sm) (there : find id sm.mounted_segments ≡ some old)
    (has : old.buf_allocator ≡ some a) where
  abbrev after : SegmentManager S
  after = detach sm id old

  attached_there : IsAttached sm old a
  attached_there = w.holding id old a there has

  -- The allocator is listed under the name of its segment alone.
  elsewhere :
      (n : String)
      → (old.segment.name == n) ≡ false
      → contains (or_empty (find n sm.allocators_by_name)) a ≡ false
  elsewhere n h = elim (Bool-cases (contains (or_empty (find n sm.allocators_by_name)) a)) [
    | inr out ↦ out
    | inl listed ↦
        let agree = w.names_agree n a attached_there.allocator listed attached_there.in_heap in
        ground (arith, agree, attached_there.name, ==_iff old.segment.name n)
  ]

  only_there :
      (n : String) (b : ℕ)
      → (if old.segment.name == n
          then (if a == b then false else contains (or_empty (find n sm.allocators_by_name)) b)
          else contains (or_empty (find n sm.allocators_by_name)) b)
        ≡ (if a == b then false else contains (or_empty (find n sm.allocators_by_name)) b)
  only_there n b = ground (arith, elsewhere n)

  names_after :
      (n : String) (b : ℕ)
      → contains (or_empty (find n after.allocators_by_name)) b
        ≡ (if a == b then false else contains (or_empty (find n sm.allocators_by_name)) b)
  unfolding detach
  names_after n b =
      rw (has, detach)
        (drop_by_name_lem old.segment.name n a b sm.allocators_by_name
            (w.names_distinct old.segment.name)
          ∙ only_there n b)

  pub listed_after :
      (b : ℕ)
      → contains (detach sm id old).allocators b
        ≡ (if a == b then false else contains sm.allocators b)
  unfolding detach
  listed_after b = rw (has, detach) (contains-erase_first a b sm.allocators w.distinct)

  abbrev entry : MountedSegment
  entry = record old { status = unmounting; buf_allocator = none }

  mounted_after :
      (j : Uuid)
      → find j after.mounted_segments ≡ (if id == j then some entry else find j sm.mounted_segments)
  unfolding detach
  mounted_after j = rw (has, detach) (find-put id j entry sm.mounted_segments)

  heap_after : after.memory ≡ sm.memory
  unfolding detach
  heap_after = rw (has, detach)

  next_after : after.next_allocator ≡ sm.next_allocator
  unfolding detach
  next_after = rw (has, detach)

  capacity_after : after.total_mem_capacity ≡ sm.total_mem_capacity
  unfolding detach
  capacity_after = rw (has, detach)

  -- An entry that still holds an allocator is an old one of another segment.
  entry_cases :
      (j : Uuid) (ms : MountedSegment) (b : ℕ)
      → find j after.mounted_segments ≡ some ms
      → ms.buf_allocator ≡ some b
      → (find j sm.mounted_segments ≡ some ms) × ((id == j) ≡ false)
  entry_cases j ms b h k = ground (arith, mounted_after j)

  other_allocator :
      (j : Uuid) (ms : MountedSegment) (b : ℕ)
      → find j sm.mounted_segments ≡ some ms
      → ms.buf_allocator ≡ some b
      → (id == j) ≡ false
      → (a == b) ≡ false
  other_allocator j ms b h k ne = elim (Bool-cases (a == b)) [
    | inr out ↦ out
    | inl e ↦
        let e' : a ≡ b = (==_iff a b).0 e in
        let same : id ≡ j = w.unshared id j old ms b there h (has ∙ ap some e') k in
        ground (arith, same, ==_iff id j)
  ]

  holding :
      (j : Uuid) (ms : MountedSegment) (b : ℕ)
      → find j after.mounted_segments ≡ some ms
      → ms.buf_allocator ≡ some b
      → IsAttached after ms b
  holding j ms b h k =
      let (before, ne) = entry_cases j ms b h k in
      let at = w.holding j ms b before k in
      let ab = other_allocator j ms b before k ne in
      record {
        status = at.status;
        listed = ground (arith, listed_after b, at.listed, ab);
        named = ground (arith, names_after ms.segment.name b, at.named, ab);
        allocator = at.allocator;
        in_heap = rw heap_after at.in_heap;
        name = at.name;
      }

  names-IsMap_after : IsMap after.allocators_by_name
  unfolding detach
  names-IsMap_after =
      rw (has, detach) (drop_by_name-IsMap old.segment.name a sm.allocators_by_name w.names_map)

  mounted-IsMap_after : IsMap after.mounted_segments
  unfolding detach
  mounted-IsMap_after = rw (has, detach) (put-IsMap id entry sm.mounted_segments w.mounted_map)

  Distinct-after : Distinct after.allocators
  unfolding detach
  Distinct-after = rw (has, detach) (erase_first-Distinct a sm.allocators w.distinct)

  names-Distinct_after : (n : String) → Distinct (or_empty (find n after.allocators_by_name))
  unfolding detach
  names-Distinct_after n =
      rw (has, detach)
        (drop_by_name-Distinct old.segment.name a sm.allocators_by_name w.names_distinct n)

  names_nonempty_after :
      (n : String) (ids : List ℕ)
      → find n after.allocators_by_name ≡ some ids
      → is_empty ids ≡ false
  unfolding detach
  names_nonempty_after n ids =
      rw (has, detach)
        (drop_by_name-nonempty old.segment.name a sm.allocators_by_name w.names_map w.names_nonempty
          n ids)

  bytes_after : after.total_mem_capacity ≡ pos (mounted_bytes after.mounted_segments)
  unfolding detach
  bytes_after =
      rw (has, detach)
        (w.capacity
          ∙ ap pos (sym (mounted_bytes-put_same id entry old sm.mounted_segments there refl)))

  owned : (b : ℕ) → contains after.allocators b ≡ true → IsOwned after b
  owned b h =
      let (j, ms, before, k) = w.owned b (ground (arith, listed_after b)) in
      let other : (a == b) ≡ false = ground (arith, listed_after b) in
      let ne : (id == j) ≡ false = elim (Bool-cases (id == j)) [
        | inr out ↦ out
        | inl e ↦
            let same : id ≡ j = (==_iff id j).0 e in
            let eq : a ≡ b = cc in ground (arith, ==_iff a b)
      ] in
      (j, ms, ground (arith, mounted_after j), k)

  -- Step one of an unmount keeps the manager well formed.
  pub detach-IsWellFormed : IsWellFormed (detach sm id old)
  detach-IsWellFormed = record {
    names_map = names-IsMap_after;
    mounted_map = mounted-IsMap_after;
    distinct = Distinct-after;
    names_distinct = names-Distinct_after;
    names_nonempty = names_nonempty_after;
    names_listed = λ n b h. ground (arith, names_after n b, listed_after b, w.names_listed n b);
    names_agree = λ n b x h k. ground (arith, names_after n b, heap_after, w.names_agree n b x);
    fresh = λ b h. ground (arith, listed_after b, w.fresh b, next_after);
    in_heap = λ b h. rw heap_after (w.in_heap b (ground (arith, listed_after b)));
    attached = λ j ms h k. w.attached j ms (ground (arith, mounted_after j)) k;
    holding = holding;
    unshared = λ j j' ms ms' b h h' k k'.
        w.unshared j j' ms ms' b (entry_cases j ms b h k).0 (entry_cases j' ms' b h' k').0 k k';
    owned = owned;
    capacity = bytes_after;
  }
