-- ===== src/Segment/Usage.antt =====
-- What the manager tells its clients.
use mooncake.Prelude.{
  ℕ, String, ◌≡◌, true, some, none, List, [], ◌∷◌, ◌⊎◌, contains, nat_eq, string_eq, arith, ==_refl,
  inl, inr, Option-cases,
}
use mooncake.Prelude.Dict.{find}
use mooncake.Types.{uuid_eq}
use mooncake.Allocator.{BufferAllocator}
use mooncake.Segment.{SegmentManager, query_segments, usage, unknown, or_empty}
use mooncake.Segment.Invariant.{IsWellFormed}
use mooncake.Strategy.{name_of}
use mooncake.Strategy.Steps.{Named}

-- On a well-formed manager QuerySegments never reads past a vector or through a dangling allocator:
-- it reports an unknown name, or the used and total bytes of a listed allocator of that name.
pub query_segments_safe :
    {S : Type 0} (sm : SegmentManager S) (name : String)
    → IsWellFormed sm
    → ((query_segments sm name ≡ unknown) × (find name sm.allocators_by_name ≡ none))
      ⊎ ((a : ℕ) × (al : BufferAllocator S) × (query_segments sm name
            ≡ usage al.cur_size al.total_size)
          × (contains sm.allocators a ≡ true)
          × (find a sm.memory.heap ≡ some al)
          × (al.segment_name ≡ name))
unfolding query_segments
query_segments_safe {S} sm name w = elim (Option-cases (find name sm.allocators_by_name)) [
  | inl e ↦ inl (rw (e, query_segments), e)
  | inr (ids, e) ↦ inr (first_listed ids e)
]
  where
    first_listed :
        (ids : List ℕ)
        → find name sm.allocators_by_name ≡ some ids
        → (a : ℕ) × (al : BufferAllocator S) × (query_segments sm name
            ≡ usage al.cur_size al.total_size)
          × (contains sm.allocators a ≡ true)
          × (find a sm.memory.heap ≡ some al)
          × (al.segment_name ≡ name)
    first_listed [] e = cc (w.names_nonempty name [] e)
    first_listed (a ∷ rest) e =
        let named : contains (or_empty (find name sm.allocators_by_name)) a ≡ true =
          rw e (ground (arith, ==_refl a)) in
        let (al, h) = w.in_heap a (w.names_listed name a named) in
        (
          a,
          al,
          rw (e, h, query_segments),
          w.names_listed name a named,
          h,
          w.names_agree name a al named h,
        )

-- The names that the strategy relies on hold in a well-formed manager.
pub IsWellFormed-Named :
    {S : Type 0} (sm : SegmentManager S) → IsWellFormed sm → Named sm.memory sm.allocators_by_name
IsWellFormed-Named sm w n ids f a h =
    let named : contains (or_empty (find n sm.allocators_by_name)) a ≡ true = rw f h in
    let (al, there) = w.in_heap a (w.names_listed n a named) in
    rw (there, name_of) (w.names_agree n a al named there)
