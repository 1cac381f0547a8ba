-- ===== src/Segment/Alive.antt =====
-- Which allocators are alive: who still holds a `shared_ptr` decides it.
use mooncake.Prelude.{
  ℕ, String, ◌≡◌, ◌≢◌, refl, sym, ap, ◌∙◌, false, some, none, List, [], ◌∷◌, contains, nat_eq,
  string_eq, arith, HasEq, ==_iff, ==_refl, inl, inr, Option-cases, Bool-cases, ◌==◌, Bool,
  if◌then◌else◌,
}
use mooncake.Prelude.Dict.{Dict, find, put, erase, IsMap, put-IsMap, find-put_self}
use mooncake.Types.{Uuid, uuid_eq}
use mooncake.Segment.{
  SegmentManager, MountedSegment, unmounting, is_alive, any_entry, holds, detach,
  prepare_unmount_segment, commit_unmount_segment,
}
use mooncake.Segment.Invariant.{IsWellFormed}
use mooncake.Segment.Detach.{detach-IsWellFormed, listed_after}
use mooncake.Segment.Unmount.{prepare_unmount_segment_ok}

module _ {ℓ κ} {K : Type ℓ} {V : Type κ} ⦃e : HasEq K⦄ (p : V → Bool) where
  any_entry_none :
      (m : Dict K V)
      → IsMap m
      → ((k : K) (v : V) → find k m ≡ some v → p v ≡ false)
      → any_entry p m ≡ false
  unfolding any_entry find
  any_entry_none [] w h = refl
  any_entry_none ((j, v) ∷ m) w h = ground (
    arith,
    h j v,
    ==_refl j,
    any_entry_none m w.1 (λ k x f. h k x (ground (arith, ==_iff j k, w.0))),
  )

  -- An entry that fails the test may go.
  pub any_entry-erase :
      (k : K) (m : Dict K V)
      → IsMap m
      → ((v : V) → find k m ≡ some v → p v ≡ false)
      → any_entry p (erase k m) ≡ any_entry p m
  unfolding any_entry find erase
  any_entry-erase k [] w h = refl
  any_entry-erase k ((j, v) ∷ m) w h = ground (
    arith,
    h v,
    ==_iff k j,
    ==_iff j k,
    any_entry-erase k m w.1 (λ x f. h x (ground (arith, ==_iff j k, w.0))),
  )

module _ {S : Type 0} (sm : SegmentManager S) (w : IsWellFormed sm) (a : ℕ) where
  unnamed :
      contains sm.allocators a ≡ false
      → (n : String) (ids : List ℕ) → find n sm.allocators_by_name ≡ some ids
      → contains ids a ≡ false
  unnamed out n ids f = elim (Bool-cases (contains ids a)) [
    | inr no_ ↦ no_
    | inl yes_ ↦ ground (arith, w.names_listed n a (rw f yes_))
  ]

  unheld :
      contains sm.allocators a ≡ false
      → (id : Uuid) (ms : MountedSegment) → find id sm.mounted_segments ≡ some ms
      → holds a ms.buf_allocator ≡ false
  unheld out id ms f = elim (Option-cases ms.buf_allocator) [
    | inl e ↦ rw e refl
    | inr (b, e) ↦ rw e (ground (arith, ==_iff b a, (w.holding id ms b f e).listed))
  ]

  -- In a well-formed manager an allocator is alive exactly if it is in `allocators_`.
  pub is_alive-eq-contains : is_alive sm a ≡ contains sm.allocators a
  unfolding is_alive
  is_alive-eq-contains = elim (Bool-cases (contains sm.allocators a)) [
    | inl h ↦ rw h refl
    | inr h ↦ rw (
      h,
      any_entry_none (λ ids. contains ids a) sm.allocators_by_name w.names_map (unnamed h),
      any_entry_none (λ (ms : MountedSegment). holds a ms.buf_allocator) sm.mounted_segments
          w.mounted_map (unheld h),
    )
  ]

pub detach_mounted :
    {S : Type 0} (sm : SegmentManager S) (id : Uuid) (ms : MountedSegment)
    → (detach sm id ms).mounted_segments
      ≡ put id (record ms { status = unmounting; buf_allocator = none }) sm.mounted_segments
unfolding detach
detach_mounted sm id ms = elim (Option-cases ms.buf_allocator) [
  | inl e ↦ rw e refl
  | inr (a, e) ↦ rw e refl
]

pub detach-IsMap :
    {S : Type 0} (sm : SegmentManager S) (id : Uuid) (ms : MountedSegment)
    → IsMap sm.mounted_segments
    → IsMap (detach sm id ms).mounted_segments
detach-IsMap sm id ms w = rw (detach_mounted sm id ms) (put-IsMap id _ sm.mounted_segments w)

-- A segment on its way out holds no allocator.
pub detach_unheld :
    {S : Type 0} (sm : SegmentManager S) (id : Uuid) (ms x : MountedSegment)
    → find id (detach sm id ms).mounted_segments ≡ some x
    → x.buf_allocator ≡ none
detach_unheld sm id ms x h =
    let q : some (record ms { status = unmounting; buf_allocator = none }) ≡ some x =
      sym (find-put_self id _ sm.mounted_segments)
      ∙ ap (find id) (sym (detach_mounted sm id ms))
      ∙ h in
    cc

-- A segment that holds no allocator takes none with it when it goes.
pub is_alive-commit_unmount_segment :
    {S : Type 0} (sm : SegmentManager S) (id client : Uuid) (dec b : ℕ)
    → IsMap sm.mounted_segments
    → ((x : MountedSegment) → find id sm.mounted_segments ≡ some x → x.buf_allocator ≡ none)
    → is_alive (commit_unmount_segment sm id client dec).1 b ≡ is_alive sm b
unfolding is_alive commit_unmount_segment
is_alive-commit_unmount_segment sm id client dec b w gone =
    rw
      (any_entry-erase (λ (x : MountedSegment). holds b x.buf_allocator) id sm.mounted_segments w
        (λ x f. rw (gone x f) refl))
      refl

-- In a well-formed manager, PrepareUnmountSegment of a segment in the table that is not on its way
-- out kills the segment's own allocator and no other: every `weak_ptr` to it has expired, and all
-- others are as they were.
pub is_alive-prepare_unmount_segment :
    {S : Type 0} (sm : SegmentManager S) (id : Uuid) (dec : ℕ) (ms : MountedSegment) (a : ℕ)
    → IsWellFormed sm
    → find id sm.mounted_segments ≡ some ms
    → ms.status ≢ unmounting
    → ms.buf_allocator ≡ some a
    → (b : ℕ)
    → is_alive (prepare_unmount_segment sm id dec).2 b ≡ (if a == b then false else is_alive sm b)
is_alive-prepare_unmount_segment sm id dec ms a w f ready has b =
    rw
      (
        prepare_unmount_segment_ok sm id dec ms f ready,
        is_alive-eq-contains (detach sm id ms) (detach-IsWellFormed sm id ms a w f has) b,
        is_alive-eq-contains sm w b,
      )
      (listed_after sm id ms a w f has b)
