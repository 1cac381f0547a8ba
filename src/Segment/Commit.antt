-- ===== src/Segment/Commit.antt =====
-- CommitUnmountSegment, and a whole unmount.
use mooncake.Prelude.{
  ℕ, ◌+◌, ◌≡◌, ◌∙◌, ap, some, none, arith, false, ◌==◌, ==_iff, inl, inr, Bool-cases,
}
use mooncake.Prelude.Dict.{find, find-erase, erase-IsMap}
use mooncake.Prelude.Int.{ℤ, pos, ◌-ℤ◌}
use mooncake.Types.{Uuid, uuid_eq}
use mooncake.Segment.{SegmentManager, MountedSegment, commit_unmount_segment}
use mooncake.Segment.Invariant.{IsWellFormed, mounted_bytes}
use mooncake.Segment.Bytes.{mounted_bytes-erase}

sub_bytes : (a b c : ℕ) → b + c ≡ a → pos a -ℤ pos c ≡ pos b
unfolding ◌-ℤ◌
sub_bytes a b c h = ground arith

module _ {S : Type 0} (sm : SegmentManager S) (id client : Uuid) (ms : MountedSegment)
    (w : IsWellFormed sm) (there : find id sm.mounted_segments ≡ some ms)
    (leaving : ms.buf_allocator ≡ none) where
  abbrev after : SegmentManager S
  after = (commit_unmount_segment sm id client ms.segment.size).1

  still_there :
      (j : Uuid) (x : MountedSegment)
      → find j after.mounted_segments ≡ some x
      → find j sm.mounted_segments ≡ some x
  unfolding commit_unmount_segment
  still_there j x h = ground (arith, find-erase id j sm.mounted_segments)

  -- A segment that has an allocator is not the one that leaves.
  kept :
      (j : Uuid) (x : MountedSegment) (a : ℕ)
      → find j sm.mounted_segments ≡ some x
      → x.buf_allocator ≡ some a
      → find j after.mounted_segments ≡ some x
  unfolding commit_unmount_segment
  kept j x a before k =
      let ne : (id == j) ≡ false = elim (Bool-cases (id == j)) [
        | inr out ↦ out
        | inl e ↦ let same : id ≡ j = (==_iff id j).0 e in cc
      ] in
      ground (arith, find-erase id j sm.mounted_segments, ne)

  -- CommitUnmountSegment, given the size of a segment whose allocator is gone, keeps a well-formed
  -- manager well formed; the capacity gauge falls by that segment's bytes.
  pub commit_unmount_segment-IsWellFormed :
      IsWellFormed (commit_unmount_segment sm id client ms.segment.size).1
  unfolding commit_unmount_segment
  commit_unmount_segment-IsWellFormed = record {
    names_map = w.names_map;
    mounted_map = erase-IsMap id sm.mounted_segments w.mounted_map;
    distinct = w.distinct;
    names_distinct = w.names_distinct;
    names_nonempty = w.names_nonempty;
    names_listed = w.names_listed;
    names_agree = w.names_agree;
    fresh = w.fresh;
    in_heap = w.in_heap;
    attached = λ j x h. w.attached j x (still_there j x h);
    holding = λ j x a h k.
        let at = w.holding j x a (still_there j x h) k in
        record {
          status = at.status;
          listed = at.listed;
          named = at.named;
          allocator = at.allocator;
          in_heap = at.in_heap;
          name = at.name;
        };
    unshared =
        λ j j' x x' a h h'. w.unshared j j' x x' a (still_there j x h) (still_there j' x' h');
    owned = λ a h. let (j, x, before, k) = w.owned a h in (j, x, kept j x a before k, k);
    capacity =
        ap (λ (t : ℤ). t -ℤ pos ms.segment.size) w.capacity
        ∙ sub_bytes (mounted_bytes sm.mounted_segments) _ ms.segment.size
            (mounted_bytes-erase id ms sm.mounted_segments w.mounted_map there);
  }
