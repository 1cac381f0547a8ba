-- ===== src/Segment/Remount.antt =====
-- What ReMountSegment leaves of the segments that it was asked for.
use mooncake.Prelude.{
  ◌≡◌, ◌≢◌, ◌⊎◌, refl, true, false, some, none, List, [], ◌∷◌, All, inl, inr, Option-cases,
  Bool-cases, arith, ==_iff, ==_refl, string_eq, nat_eq, ◌∙◌, subst, sym,
}
use mooncake.Prelude.Dict.{find, find-put}
use mooncake.Types.{
  Uuid, uuid_eq, Segment, ErrorCode, ok_code, unavailable_in_current_status, BufferAllocatorType,
}
use mooncake.Allocator.{Engine, BufferAllocator, make_allocator}
use mooncake.Segment.{
  SegmentManager, SegmentStatus, undefined, unmounting, MountedSegment, mounted, register,
  mount_segment, is_invalid_segment, remount_segment, stops_remount, already_there,
}
use mooncake.Segment.Invariant.{IsWellFormed}
use mooncake.Segment.Mount.{remount_segment-IsWellFormed}

-- The table has a segment of this identifier, with the status OK.
abbrev pub IsMounted : {S : Type 0} → SegmentManager S → Segment → Type 0
IsMounted sm s =
    (ms : MountedSegment) × (find s.id sm.mounted_segments ≡ some ms) × (ms.status ≡ mounted)

-- It has one with another status.
abbrev pub IsBusy : {S : Type 0} → SegmentManager S → Segment → Type 0
IsBusy sm s =
    (ms : MountedSegment) × (find s.id sm.mounted_segments ≡ some ms) × (ms.status ≢ mounted)

-- No allocator can be made for the segment.
abbrev pub IsRefused : {S : Type 0} → Engine S → BufferAllocatorType → Segment → Type 0
IsRefused e kind s =
    (is_invalid_segment kind s ≡ true)
    ⊎ (make_allocator e kind s.name s.base s.size s.te_endpoint ≡ none)

abbrev pub AnyBusy : {S : Type 0} → SegmentManager S → List Segment → Type 0
AnyBusy sm [] = ⊥
AnyBusy sm (s ∷ ss) = IsBusy sm s ⊎ AnyBusy sm ss

-- A result of ReMountSegment of `ss`, with the manager that it leaves.
abbrev pub IsRemounted :
    {S : Type 0}
    → Engine S
    → BufferAllocatorType
    → List Segment
    → ErrorCode
    → SegmentManager S
    → Type 0
IsRemounted e kind ss code sm =
    ((code ≡ ok_code) × All (λ s. IsMounted sm s ⊎ IsRefused e kind s) ss)
    ⊎ ((code ≡ unavailable_in_current_status) × AnyBusy sm ss)

status_cases :
    (t : SegmentStatus)
    → ((t ≡ mounted) × (stops_remount (already_there t) ≡ false))
      ⊎ ((t ≢ mounted) × (already_there t ≡ unavailable_in_current_status))
status_cases undefined = inr (λ h. cc, refl)
status_cases mounted = inl (refl, refl)
status_cases unmounting = inr (λ h. cc, refl)

module _ {S : Type 0} (e : Engine S) (client : Uuid) where
  mounts :
      (sm : SegmentManager S) (s : Segment) (al : BufferAllocator S)
      → is_invalid_segment sm.memory_allocator s ≡ false
      → find s.id sm.mounted_segments ≡ none
      → make_allocator e sm.memory_allocator s.name s.base s.size s.te_endpoint ≡ some al
      → mount_segment e sm s client ≡ (ok_code, register sm s client al)
  unfolding mount_segment
  mounts sm s al good new made = rw (good, new, made, mount_segment) refl

  register_keeps :
      (sm : SegmentManager S) (s : Segment) (al : BufferAllocator S)
      → find s.id sm.mounted_segments ≡ none
      → (id : Uuid) (ms : MountedSegment) → find id sm.mounted_segments ≡ some ms
      → find id (register sm s client al).mounted_segments ≡ some ms
  unfolding register
  register_keeps sm s al new id ms h =
      let entry : MountedSegment = record {
        segment = s;
        status = mounted;
        buf_allocator = some sm.next_allocator;
      } in
      ground (arith, find-put s.id id entry sm.mounted_segments, ==_iff s.id id)

  abbrev KeepsEntries : SegmentManager S → ErrorCode × SegmentManager S → Type 0
  KeepsEntries sm r =
      ((id : Uuid) (ms : MountedSegment)
        → find id sm.mounted_segments ≡ some ms
        → find id r.1.mounted_segments ≡ some ms)
      × (r.1.memory_allocator ≡ sm.memory_allocator)

  -- The entries of the table stay, and so does the kind of the allocators.
  mount_segment-KeepsEntries :
      (sm : SegmentManager S) (s : Segment) → KeepsEntries sm (mount_segment e sm s client)
  unfolding mount_segment register
  mount_segment-KeepsEntries sm s = elim (Bool-cases (is_invalid_segment sm.memory_allocator s)) [
    | inl bad ↦ rw (bad, mount_segment) (λ id ms h. h, refl)
    | inr good ↦ elim (Option-cases (find s.id sm.mounted_segments)) [
      | inr (old, f) ↦ rw (good, f, mount_segment) (λ id ms h. h, refl)
      | inl new ↦
          elim (Option-cases
            (make_allocator e sm.memory_allocator s.name s.base s.size s.te_endpoint)) [
              | inl none_made ↦ rw (good, new, none_made, mount_segment) (λ id ms h. h, refl)
              | inr (al, made) ↦
                  subst (KeepsEntries sm) (sym (mounts sm s al good new made))
                    (register_keeps sm s al new, refl)
            ]
    ]
  ]

  -- After MountSegment the segment is mounted or cannot be, or it is on its way out.
  mount_segment_outcome :
      (sm : SegmentManager S) (s : Segment)
      → let (code, sm') = mount_segment e sm s client in
        ((stops_remount code ≡ false) × (IsMounted sm' s ⊎ IsRefused e sm.memory_allocator s))
        ⊎ ((code ≡ unavailable_in_current_status) × IsBusy sm' s)
  unfolding mount_segment register
  mount_segment_outcome sm s = elim (Bool-cases (is_invalid_segment sm.memory_allocator s)) [
    | inl bad ↦ rw (bad, mount_segment) (inl (refl, inr (inl refl)))
    | inr good ↦ elim (Option-cases (find s.id sm.mounted_segments)) [
      | inr (old, f) ↦ elim (status_cases old.status) [
        | inl (there, on) ↦ rw (good, f, mount_segment) (inl (on, inl (old, f, there)))
        | inr (busy, stop) ↦ rw (good, f, mount_segment) (inr (stop, (old, f, busy)))
      ]
      | inl new ↦
          elim (Option-cases
            (make_allocator e sm.memory_allocator s.name s.base s.size s.te_endpoint)) [
              | inl none_made ↦
                  rw (good, new, none_made, mount_segment) (inl (refl, inr (inr refl)))
              | inr (al, made) ↦
                  rw (good, new, made, mount_segment)
                    (inl (
                      refl,
                      inl (
                        record {
                          segment = s;
                          status = mounted;
                          buf_allocator = some sm.next_allocator;
                        },
                        find-put s.id s.id _ sm.mounted_segments ∙ rw (==_refl s.id) refl,
                        refl,
                      ),
                    ))
            ]
    ]
  ]

  remount_segment_keeps :
      (sm : SegmentManager S) (ss : List Segment) (id : Uuid) (ms : MountedSegment)
      → find id sm.mounted_segments ≡ some ms
      → find id (remount_segment e sm ss client).1.mounted_segments ≡ some ms
  unfolding remount_segment
  remount_segment_keeps sm [] id ms h = h
  remount_segment_keeps sm (s ∷ ss) id ms h =
      let there = (mount_segment-KeepsEntries sm s).0 id ms h in
      elim (Bool-cases (stops_remount (mount_segment e sm s client).0)) [
        | inl stop ↦ rw stop there
        | inr on ↦ rw on (remount_segment_keeps (mount_segment e sm s client).1 ss id ms there)
      ]

  stops :
      (sm : SegmentManager S) (s : Segment) (ss : List Segment)
      → (mount_segment e sm s client).0 ≡ unavailable_in_current_status
      → remount_segment e sm (s ∷ ss) client ≡ mount_segment e sm s client
  unfolding remount_segment
  stops sm s ss stop =
      let yes : stops_remount (mount_segment e sm s client).0 ≡ true = rw (stop) refl in
      rw (yes) refl

  goes_on :
      (sm : SegmentManager S) (s : Segment) (ss : List Segment)
      → stops_remount (mount_segment e sm s client).0 ≡ false
      → remount_segment e sm (s ∷ ss) client
        ≡ remount_segment e (mount_segment e sm s client).1 ss client
  unfolding remount_segment
  goes_on sm s ss on = rw (on) refl

  remounted :
      (kind : BufferAllocatorType) (sm : SegmentManager S) (ss : List Segment)
      → sm.memory_allocator ≡ kind
      → IsRemounted e kind ss (remount_segment e sm ss client).0 (remount_segment e sm ss client).1
  unfolding remount_segment
  remounted kind sm [] same = inl (refl, tt)
  remounted kind sm (s ∷ ss) same =
      let sm' = (mount_segment e sm s client).1 in
      let keep = remount_segment_keeps sm' ss s.id in
      elim (mount_segment_outcome sm s) [
        | inr (stop, busy) ↦
            subst (λ r. IsRemounted e kind (s ∷ ss) r.0 r.1) (sym (stops sm s ss stop))
              (inr (stop, inl busy))
        | inl (on, well) ↦
            subst (λ r. IsRemounted e kind (s ∷ ss) r.0 r.1) (sym (goes_on sm s ss on))
              (elim (remounted kind sm' ss ((mount_segment-KeepsEntries sm s).1 ∙ same)) [
                | inr (code_eq, busy) ↦ inr (code_eq, inr busy)
                | inl (done, all_well) ↦ inl (
                  done,
                  (
                    elim well [
                      | inl (ms, f, there) ↦ inl (ms, keep ms f, there)
                      | inr refused ↦ inr (subst (λ k. IsRefused e k s) same refused)
                    ],
                    all_well,
                  ),
                )
              ])
      ]

-- ReMountSegment keeps a well-formed manager well formed. If it returns OK, every segment of the list is
-- mounted in the end, unless its parameters are invalid or no allocator can be made for it. If not, it
-- returns UNAVAILABLE_IN_CURRENT_STATUS, and the table has a segment of the list with another status
-- than OK.
pub remount_segment-IsRemounted :
    {S : Type 0} (e : Engine S) (sm : SegmentManager S) (ss : List Segment) (client : Uuid)
    → IsWellFormed sm
    → IsWellFormed (remount_segment e sm ss client).1
      × IsRemounted e sm.memory_allocator ss
          (remount_segment e sm ss client).0
          (remount_segment e sm ss client).1
remount_segment-IsRemounted e sm ss client w = (
  remount_segment-IsWellFormed e sm ss client w,
  remounted e client sm.memory_allocator sm ss refl,
)
