-- ===== src/Segment/Mount.antt =====
-- MountSegment keeps the manager well formed.
use mooncake.Prelude.{
  ℕ, ◌<◌, String, ◌≡◌, refl, subst, ◌⊎◌, true, false, some, none, List, [], ◌∷◌, ◌++◌, contains,
  is_empty, nat_eq, string_eq, arith, ==_iff, ==_refl, inl, inr, Option-cases, Bool-cases, ◌==◌,
  ◌||◌, if◌then◌else◌,
}
use mooncake.Prelude.Dict.{find, find-put, put-IsMap}
use mooncake.Prelude.Distinct.{Distinct, contains-append, append-Distinct, append-nonempty}
use mooncake.Prelude.Int.{◌+ℤ◌}
use mooncake.Types.{Uuid, uuid_eq, Segment, BufferAllocatorType}
use mooncake.Allocator.{BufferAllocator, Engine, make_allocator}
use mooncake.Segment.{
  SegmentManager, MountedSegment, mounted, or_empty, register, mount_segment, is_invalid_segment,
  remount_segment, stops_remount,
}
use mooncake.Segment.Invariant.{IsAttached, IsOwned, IsWellFormed}
use mooncake.Segment.Bytes.{mounted_bytes-put_absent}

module _ {S : Type 0} (sm : SegmentManager S) (s : Segment) (client : Uuid) (al : BufferAllocator S)
    (w : IsWellFormed sm) (new : find s.id sm.mounted_segments ≡ none)
    (same : al.segment_name ≡ s.name) where
  abbrev after : SegmentManager S
  after = register sm s client al

  unlisted : contains sm.allocators sm.next_allocator ≡ false
  unlisted = elim (Bool-cases (contains sm.allocators sm.next_allocator)) [
    | inl h ↦ absurd (omega (arith, w.fresh sm.next_allocator h))
    | inr h ↦ h
  ]

  names_after :
      (n : String) (a : ℕ)
      → contains (or_empty (find n after.allocators_by_name)) a ≡ (
          contains (or_empty (find n sm.allocators_by_name)) a
          || (if s.name == n then sm.next_allocator == a else false))
  unfolding register
  names_after n a = ground (
    arith,
    find-put s.name n (or_empty (find s.name sm.allocators_by_name) ++ sm.next_allocator ∷ [])
        sm.allocators_by_name,
    contains-append sm.next_allocator a (or_empty (find s.name sm.allocators_by_name)),
    ==_iff s.name n,
  )

  register-fresh : (a : ℕ) → contains after.allocators a ≡ true → a < after.next_allocator
  unfolding register
  register-fresh a h = ground (arith, w.fresh a, contains-append sm.next_allocator a sm.allocators)

  listed_after :
      (a : ℕ) → contains after.allocators a ≡ (contains sm.allocators a || sm.next_allocator == a)
  unfolding register
  listed_after a = contains-append sm.next_allocator a sm.allocators

  in_heap_after :
      (a : ℕ)
      → find a after.memory.heap
        ≡ (if sm.next_allocator == a then some al else find a sm.memory.heap)
  unfolding register find
  in_heap_after a = refl

  mounted_after :
      (id : Uuid)
      → find id after.mounted_segments ≡ (
          if s.id == id
          then some
              (record { segment = s; status = mounted; buf_allocator = some sm.next_allocator })
          else find id sm.mounted_segments)
  unfolding register
  mounted_after id = find-put s.id id _ sm.mounted_segments

  unnamed :
      (n : String) → contains (or_empty (find n sm.allocators_by_name)) sm.next_allocator ≡ false
  unnamed n =
      elim (Bool-cases (contains (or_empty (find n sm.allocators_by_name)) sm.next_allocator)) [
        | inl h ↦ absurd (omega (arith, w.fresh _ (w.names_listed n _ h)))
        | inr h ↦ h
      ]

  names-Distinct : (n : String) → Distinct (or_empty (find n after.allocators_by_name))
  unfolding register
  names-Distinct n =
      rw
        (find-put s.name n (or_empty (find s.name sm.allocators_by_name) ++ sm.next_allocator ∷ [])
          sm.allocators_by_name)
        (ground (
          arith,
          append-Distinct sm.next_allocator (or_empty (find s.name sm.allocators_by_name))
              (w.names_distinct s.name) (unnamed s.name),
          w.names_distinct n,
        ))

  abbrev entry : MountedSegment
  entry = record { segment = s; status = mounted; buf_allocator = some sm.next_allocator }

  entry-IsAttached : IsAttached after entry sm.next_allocator
  entry-IsAttached = record {
    status = refl;
    listed = ground (arith, listed_after sm.next_allocator, ==_refl sm.next_allocator);
    named =
        ground
          (arith, names_after s.name sm.next_allocator, ==_refl s.name, ==_refl sm.next_allocator);
    allocator = al;
    in_heap = ground (arith, in_heap_after sm.next_allocator, ==_refl sm.next_allocator);
    name = same;
  }

  IsAttached-after : (ms : MountedSegment) (a : ℕ) → IsAttached sm ms a → IsAttached after ms a
  IsAttached-after ms a h = record {
    status = h.status;
    listed = ground (arith, listed_after a, h.listed);
    named = ground (arith, names_after ms.segment.name a, h.named);
    allocator = h.allocator;
    in_heap = ground (arith, in_heap_after a, h.in_heap, w.fresh a h.listed);
    name = h.name;
  }

  -- An entry of the new table is the new one or an old one.
  entry_cases :
      (id : Uuid) (ms : MountedSegment)
      → find id after.mounted_segments ≡ some ms
      → ((s.id ≡ id) × (entry ≡ ms)) ⊎ (find id sm.mounted_segments ≡ some ms)
  entry_cases id ms h = ground (arith, mounted_after id, ==_iff s.id id)

  holding :
      (id : Uuid) (ms : MountedSegment) (a : ℕ)
      → find id after.mounted_segments ≡ some ms
      → ms.buf_allocator ≡ some a
      → IsAttached after ms a
  holding id ms a h k = elim (entry_cases id ms h) [
    | inl (e, q) ↦
        let n : sm.next_allocator ≡ a = cc in
        subst (λ t. IsAttached after t a) q (subst (IsAttached after entry) n entry-IsAttached)
    | inr old ↦ IsAttached-after ms a (w.holding id ms a old k)
  ]

  unshared :
      (id id' : Uuid) (ms ms' : MountedSegment) (a : ℕ)
      → find id after.mounted_segments ≡ some ms
      → find id' after.mounted_segments ≡ some ms'
      → ms.buf_allocator ≡ some a
      → ms'.buf_allocator ≡ some a
      → id ≡ id'
  unshared id id' ms ms' a h h' k k' = elim (entry_cases id ms h) [
    | inl (e, q) ↦ elim (entry_cases id' ms' h') [
      | inl (e', q') ↦ cc
      | inr o' ↦
          let n : sm.next_allocator ≡ a = cc in
          absurd (omega (arith, w.fresh a (w.holding id' ms' a o' k').listed))
    ]
    | inr o ↦ elim (entry_cases id' ms' h') [
      | inl (e', q') ↦
          let n : sm.next_allocator ≡ a = cc in
          absurd (omega (arith, w.fresh a (w.holding id ms a o k).listed))
      | inr o' ↦ w.unshared id id' ms ms' a o o' k k'
    ]
  ]

  names_nonempty :
      (n : String) (ids : List ℕ)
      → find n after.allocators_by_name ≡ some ids
      → is_empty ids ≡ false
  unfolding register
  names_nonempty n ids h = ground (
    arith,
    find-put s.name n (or_empty (find s.name sm.allocators_by_name) ++ sm.next_allocator ∷ [])
        sm.allocators_by_name,
    append-nonempty sm.next_allocator (or_empty (find s.name sm.allocators_by_name)),
    w.names_nonempty n ids,
  )

  in_heap :
      (a : ℕ)
      → contains after.allocators a ≡ true
      → (x : BufferAllocator S) × (find a after.memory.heap ≡ some x)
  in_heap a h = elim (Bool-cases (sm.next_allocator == a)) [
    | inl e ↦ (al, ground (arith, in_heap_after a))
    | inr e ↦
        let (x, p) = w.in_heap a (ground (arith, listed_after a)) in
        (x, ground (arith, in_heap_after a))
  ]

  owned : (a : ℕ) → contains after.allocators a ≡ true → IsOwned after a
  owned a h = elim (Bool-cases (sm.next_allocator == a)) [
    | inl e ↦ (
      s.id,
      entry,
      ground (arith, mounted_after s.id, ==_refl s.id),
      ground (arith, ==_iff sm.next_allocator a),
    )
    | inr e ↦
        let (id, ms, there, has) = w.owned a (ground (arith, listed_after a)) in
        (id, ms, ground (arith, mounted_after id, ==_iff s.id id, new), has)
  ]

  -- A new segment keeps the manager well formed.
  pub register-IsWellFormed : IsWellFormed (register sm s client al)
  unfolding register ◌+ℤ◌
  register-IsWellFormed = record {
    names_map = put-IsMap s.name _ sm.allocators_by_name w.names_map;
    mounted_map = put-IsMap s.id _ sm.mounted_segments w.mounted_map;
    distinct = append-Distinct sm.next_allocator sm.allocators w.distinct unlisted;
    names_distinct = names-Distinct;
    names_nonempty = names_nonempty;
    names_listed = λ n a h. ground (arith, names_after n a, listed_after a, w.names_listed n a);
    names_agree = λ n a x h k. ground (
      arith,
      names_after n a,
      in_heap_after a,
      w.names_agree n a x,
      ==_iff s.name n,
      w.names_listed n a,
      w.fresh a,
    );
    fresh = register-fresh;
    in_heap = in_heap;
    attached = λ id ms h k. elim (entry_cases id ms h) [
      | inl (e, q) ↦ (sm.next_allocator, ground arith)
      | inr o ↦ w.attached id ms o k
    ];
    holding = holding;
    unshared = unshared;
    owned = owned;
    capacity = ground (arith, w.capacity, mounted_bytes-put_absent s.id entry sm.mounted_segments);
  }

-- A made allocator has the name that it was asked for.
make_allocator-name :
    {S : Type 0} (e : Engine S) (kind : BufferAllocatorType) (name : String) (base size : ℕ)
    (ep : String) (al : BufferAllocator S)
    → make_allocator e kind name base size ep ≡ some al
    → al.segment_name ≡ name
unfolding make_allocator
make_allocator-name e kind name base size ep al h = ground arith

-- Whatever MountSegment returns, a well-formed manager stays well formed: the allocators
-- that are listed are those of the segments in the table, each of one segment, and the capacity gauge
-- counts the mounted bytes.
pub mount_segment-IsWellFormed :
    {S : Type 0} (e : Engine S) (sm : SegmentManager S) (s : Segment) (client : Uuid)
    → IsWellFormed sm
    → IsWellFormed (mount_segment e sm s client).1
unfolding mount_segment
mount_segment-IsWellFormed e sm s client w =
    elim (Bool-cases (is_invalid_segment sm.memory_allocator s)) [
      | inl bad ↦ rw bad w
      | inr good ↦ elim (Option-cases (find s.id sm.mounted_segments)) [
        | inr (old, f) ↦ rw (good, f, mount_segment) w
        | inl new ↦
            elim (Option-cases
              (make_allocator e sm.memory_allocator s.name s.base s.size s.te_endpoint)) [
                | inl none_made ↦ rw (good, new, none_made, mount_segment) w
                | inr (al, made) ↦
                    rw (good, new, made, mount_segment)
                      (register-IsWellFormed sm s client al w new
                        (make_allocator-name e _ _ _ _ _ al made))
              ]
      ]
    ]

-- However far ReMountSegment gets, a well-formed manager stays well formed.
pub remount_segment-IsWellFormed :
    {S : Type 0} (e : Engine S) (sm : SegmentManager S) (ss : List Segment) (client : Uuid)
    → IsWellFormed sm
    → IsWellFormed (remount_segment e sm ss client).1
unfolding remount_segment
remount_segment-IsWellFormed e sm [] client w = w
remount_segment-IsWellFormed e sm (s ∷ ss) client w =
    elim (Bool-cases (stops_remount (mount_segment e sm s client).0)) [
      | inl stop ↦ rw stop (mount_segment-IsWellFormed e sm s client w)
      | inr on ↦ rw on (
          remount_segment-IsWellFormed e (mount_segment e sm s client).1 ss client
            (mount_segment-IsWellFormed e sm s client w))
    ]
