-- ===== src/Segment/Invariant.antt =====
-- The well-formedness of a SegmentManager: the allocators in the containers are those of the segments
-- that are mounted, one for each, and the capacity gauge counts the mounted bytes.
use mooncake.Prelude.{
  ℕ, ◌+◌, ◌<◌, String, ◌≡◌, ◌≢◌, refl, true, false, some, List, [], ◌∷◌, contains, is_empty, nat_eq,
  string_eq,
}
use mooncake.Prelude.Dict.{Dict, find, IsMap}
use mooncake.Prelude.Distinct.{Distinct}
use mooncake.Prelude.Int.{pos}
use mooncake.Types.{Uuid, uuid_eq, BufferAllocatorType}
use mooncake.Allocator.{BufferAllocator}
use mooncake.Segment.{SegmentManager, MountedSegment, mounted, unmounting, or_empty, init}

-- The bytes of all segments that are still in the table.
abbrev pub mounted_bytes : Dict Uuid MountedSegment → ℕ
mounted_bytes [] = 0
mounted_bytes ((id, ms) ∷ m) = ms.segment.size + mounted_bytes m

-- A segment with its allocator `a`: the status is OK and both containers hold the allocator.
pub record IsAttached {S : Type 0} (sm : SegmentManager S) (ms : MountedSegment) (a : ℕ)
    : Type 0 where
  pub status : ms.status ≡ mounted
  pub listed : contains sm.allocators a ≡ true
  pub named : contains (or_empty (find ms.segment.name sm.allocators_by_name)) a ≡ true
  pub allocator : BufferAllocator S
  pub in_heap : find a sm.memory.heap ≡ some allocator
  pub name : allocator.segment_name ≡ ms.segment.name

-- Some segment of the table has the allocator `a`.
abbrev pub IsOwned : {S : Type 0} → SegmentManager S → ℕ → Type 0
IsOwned sm a =
    (id : Uuid) × (ms : MountedSegment) × (find id sm.mounted_segments ≡ some ms)
    × (ms.buf_allocator ≡ some a)

pub record IsWellFormed {S : Type 0} (sm : SegmentManager S) : Type 0 where
  pub names_map : IsMap sm.allocators_by_name
  pub mounted_map : IsMap sm.mounted_segments
  pub distinct : Distinct sm.allocators
  pub names_distinct : (n : String) → Distinct (or_empty (find n sm.allocators_by_name))
  pub names_nonempty :
      (n : String) (ids : List ℕ) → find n sm.allocators_by_name ≡ some ids → is_empty ids ≡ false
  pub names_listed :
      (n : String) (a : ℕ)
      → contains (or_empty (find n sm.allocators_by_name)) a ≡ true
      → contains sm.allocators a ≡ true
  pub names_agree :
      (n : String) (a : ℕ) (al : BufferAllocator S)
      → contains (or_empty (find n sm.allocators_by_name)) a ≡ true
      → find a sm.memory.heap ≡ some al
      → al.segment_name ≡ n
  pub fresh : (a : ℕ) → contains sm.allocators a ≡ true → a < sm.next_allocator
  pub in_heap :
      (a : ℕ)
      → contains sm.allocators a ≡ true
      → (al : BufferAllocator S) × (find a sm.memory.heap ≡ some al)
  pub attached :
      (id : Uuid) (ms : MountedSegment)
      → find id sm.mounted_segments ≡ some ms
      → ms.status ≢ unmounting
      → (a : ℕ) × (ms.buf_allocator ≡ some a)
  pub holding :
      (id : Uuid) (ms : MountedSegment) (a : ℕ)
      → find id sm.mounted_segments ≡ some ms
      → ms.buf_allocator ≡ some a
      → IsAttached sm ms a
  pub unshared :
      (id id' : Uuid) (ms ms' : MountedSegment) (a : ℕ)
      → find id sm.mounted_segments ≡ some ms
      → find id' sm.mounted_segments ≡ some ms'
      → ms.buf_allocator ≡ some a
      → ms'.buf_allocator ≡ some a
      → id ≡ id'
  pub owned : (a : ℕ) → contains sm.allocators a ≡ true → IsOwned sm a
  pub capacity : sm.total_mem_capacity ≡ pos (mounted_bytes sm.mounted_segments)

-- A manager with nothing mounted is well formed.
pub init-IsWellFormed : {S : Type 0} (kind : BufferAllocatorType) → IsWellFormed (init {S = S} kind)
unfolding find
init-IsWellFormed kind = record {
  names_map = tt;
  mounted_map = tt;
  distinct = tt;
  names_distinct = λ n. tt;
  names_nonempty = λ n ids h. cc;
  names_listed = λ n a h. cc;
  names_agree = λ n a al h f. cc;
  fresh = λ a h. cc;
  in_heap = λ a h. cc;
  attached = λ id ms f ready. cc;
  holding = λ id ms a f h. cc;
  unshared = λ id id' ms ms' a f f' h h'. cc;
  owned = λ a h. cc;
  capacity = refl;
}
