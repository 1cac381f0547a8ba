-- ===== src/Segment/Unmount.antt =====
-- PrepareUnmountSegment: each of its answers.
use mooncake.Prelude.{
  ℕ, ◌≡◌, ◌≢◌, ◌⊎◌, refl, some, none, nat_eq, string_eq, arith, inl, inr, Option-cases,
}
use mooncake.Prelude.Dict.{find}
use mooncake.Types.{Uuid, uuid_eq, ok_code, segment_not_found, unavailable_in_current_status}
use mooncake.Segment.{
  SegmentManager, MountedSegment, SegmentStatus, unmounting, detach, prepare_unmount_segment,
}
use mooncake.Segment.Invariant.{IsWellFormed}
use mooncake.Segment.Detach.{detach-IsWellFormed}

pub status_cases : (s : SegmentStatus) → (s ≡ unmounting) ⊎ (s ≢ unmounting)
status_cases s = ground arith

-- A segment that is not on its way out is detached.
pub prepare_unmount_segment_ok :
    {S : Type 0} (sm : SegmentManager S) (id : Uuid) (dec : ℕ) (ms : MountedSegment)
    → find id sm.mounted_segments ≡ some ms
    → ms.status ≢ unmounting
    → prepare_unmount_segment sm id dec ≡ (ok_code, ms.segment.size, detach sm id ms)
unfolding prepare_unmount_segment
prepare_unmount_segment_ok sm id dec ms f ne = rw (f, prepare_unmount_segment) (ground arith)

-- A segment that is not there is not found, with nothing changed.
pub prepare_unmount_segment_absent :
    {S : Type 0} (sm : SegmentManager S) (id : Uuid) (dec : ℕ)
    → find id sm.mounted_segments ≡ none
    → prepare_unmount_segment sm id dec ≡ (segment_not_found, dec, sm)
unfolding prepare_unmount_segment
prepare_unmount_segment_absent sm id dec f = rw (f, prepare_unmount_segment) refl

-- A segment that is on its way out is refused, with nothing changed.
pub prepare_unmount_segment_busy :
    {S : Type 0} (sm : SegmentManager S) (id : Uuid) (dec : ℕ) (ms : MountedSegment)
    → find id sm.mounted_segments ≡ some ms
    → ms.status ≡ unmounting
    → prepare_unmount_segment sm id dec ≡ (unavailable_in_current_status, dec, sm)
unfolding prepare_unmount_segment
prepare_unmount_segment_busy sm id dec ms f e = rw (f, prepare_unmount_segment) (ground arith)

-- Whatever PrepareUnmountSegment returns, a well-formed manager stays well formed: as the table loses the
-- allocator of the segment, both containers do, and those that stay are listed by both.
pub prepare_unmount_segment-IsWellFormed :
    {S : Type 0} (sm : SegmentManager S) (id : Uuid) (dec : ℕ)
    → IsWellFormed sm
    → IsWellFormed (prepare_unmount_segment sm id dec).2
unfolding prepare_unmount_segment
prepare_unmount_segment-IsWellFormed sm id dec w =
    elim (Option-cases (find id sm.mounted_segments)) [
      | inl e ↦ rw (e, prepare_unmount_segment) w
      | inr (ms, e) ↦ elim (status_cases ms.status) [
        | inl busy ↦ rw (prepare_unmount_segment_busy sm id dec ms e busy) w
        | inr ready ↦
            let (a, has) = w.attached id ms e ready in
            rw (prepare_unmount_segment_ok sm id dec ms e ready)
              (detach-IsWellFormed sm id ms a w e has)
      ]
    ]
