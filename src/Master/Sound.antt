-- ===== src/Master/Sound.antt =====
-- The handlers keep the segment manager well formed (mooncake-store/src/master_service.cpp).
use mooncake.Prelude.{ℕ, ◌≡◌, refl, sym, ap, subst, ◌∙◌, none, some, List, inl, inr, Option-cases}
use mooncake.Prelude.Dict.{find, find-put_self}
use mooncake.Types.{Uuid, uuid_eq, ErrorCode, Segment}
use mooncake.Replica.{Replica}
use mooncake.Segment.{SegmentManager, MountedSegment, unmounting, detach}
use mooncake.Segment.Invariant.{IsWellFormed}
use mooncake.Segment.Heap.{SameHeap-IsWellFormed, destroy_replicas-SameHeap}
use mooncake.Segment.Mount.{mount_segment-IsWellFormed}
use mooncake.Segment.Detach.{detach-IsWellFormed}
use mooncake.Segment.Unmount.{
  prepare_unmount_segment_busy, prepare_unmount_segment_absent, status_cases,
}
use mooncake.Segment.Alive.{detach_mounted}
use mooncake.Segment.Commit.{commit_unmount_segment-IsWellFormed}
use mooncake.Master.{Env, Master, alive, free_replicas}
use mooncake.Master.Mount.{clear_invalid_handles, mount, unmount, finish_unmount}
use mooncake.Master.Sweep.{cleared, unmount_ok}

module _ {S : Type 0} (env : Env S) where
  pub free_replicas-IsWellFormed :
      (m : Master S) (rs : List Replica)
      → IsWellFormed m.segments
      → IsWellFormed (free_replicas env m rs).segments
  unfolding free_replicas
  free_replicas-IsWellFormed m rs w =
      SameHeap-IsWellFormed m.segments _
        (destroy_replicas-SameHeap env.engine (alive m) m.segments.memory rs) w

  pub clear_invalid_handles-IsWellFormed :
      (m : Master S) → IsWellFormed m.segments → IsWellFormed (clear_invalid_handles env m).segments
  unfolding clear_invalid_handles
  clear_invalid_handles-IsWellFormed m w = free_replicas-IsWellFormed (record m { shards = _ }) _ w

  left_mounted :
      (m : Master S) (id : Uuid) (ms : MountedSegment)
      → find id (cleared env m id ms).segments.mounted_segments
        ≡ some (record ms { status = unmounting; buf_allocator = none })
  unfolding clear_invalid_handles free_replicas
  left_mounted m id ms =
      ap (find id) (detach_mounted m.segments id ms)
      ∙ find-put_self id _ m.segments.mounted_segments

  -- UnmountSegment keeps the segment manager well formed, whatever it returns: the containers hold the
  -- allocators of the segments in the table, and the capacity gauge counts the segments that are left.
  pub unmount-IsWellFormed :
      (m : Master S) (id client : Uuid)
      → IsWellFormed m.segments
      → IsWellFormed (unmount env m id client).1.segments
  unfolding unmount finish_unmount
  unmount-IsWellFormed m id client w = elim (Option-cases (find id m.segments.mounted_segments)) [
    | inl e ↦
        subst IsWellFormed
          (sym (
            ap
              (λ (r : ErrorCode × ℕ × SegmentManager S).
                (finish_unmount env m id client r).1.segments)
              (prepare_unmount_segment_absent m.segments id 0 e)))
          w
    | inr (ms, e) ↦ elim (status_cases ms.status) [
      | inl busy ↦
          subst IsWellFormed
            (sym (
              ap
                (λ (r : ErrorCode × ℕ × SegmentManager S).
                  (finish_unmount env m id client r).1.segments)
                (prepare_unmount_segment_busy m.segments id 0 ms e busy)))
            w
      | inr ready ↦ rw (unmount_ok env m id client ms e ready) (
          commit_unmount_segment-IsWellFormed (cleared env m id ms).segments id client
            (record ms { status = unmounting; buf_allocator = none })
            (clear_invalid_handles-IsWellFormed (record m { segments = detach m.segments id ms })
              (let (a, has) = w.attached id ms e ready in
                detach-IsWellFormed m.segments id ms a w e has))
            (left_mounted m id ms) refl)
    ]
  ]

  -- MountSegment too, also if the ping queue is full.
  pub mount-IsWellFormed :
      (m : Master S) (s : Segment) (client : Uuid)
      → IsWellFormed m.segments
      → IsWellFormed (mount env m s client).1.segments
  unfolding mount
  mount-IsWellFormed m s client w =
      elim (Option-cases (env.queue_push m.client_ping_queue client)) [
        | inl e ↦ rw (e, mount) w
        | inr (q, e) ↦ rw (e, mount) (mount_segment-IsWellFormed env.engine m.segments s client w)
      ]
