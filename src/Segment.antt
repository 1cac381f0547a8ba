-- ===== src/Segment.antt =====
-- mooncake-store/include/segment.h and src/segment.cpp: the segments that clients mount and the
-- allocators that manage them. Every function runs under the segment mutex.
pub mod Invariant
pub mod Mount
pub mod Remount
pub mod Usage
pub mod Commit
pub mod Alive
pub mod Detach
pub mod Unmount
pub mod Bytes
pub mod Heap
use mooncake.Prelude.{
  ℕ, ◌+◌, ◌%◌, String, Bool, true, false, not, ◌&&◌, ◌||◌, Option, none, some, List, [], ◌∷◌, ◌++◌,
  if◌then◌else◌, HasEq, ◌==◌, nat_eq, string_eq, contains, erase_first, is_empty,
}
use mooncake.Prelude.Dict.{Dict, find, erase, put}
use mooncake.Prelude.Int.{ℤ, pos, ◌+ℤ◌, ◌-ℤ◌}
use mooncake.Types.{
  ErrorCode, ok_code, invalid_params, segment_already_exists, unavailable_in_current_status,
  internal_error, segment_not_found, Uuid, uuid_eq, Segment, BufferAllocatorType, cachelib, offset,
  slab_size,
}
use mooncake.Allocator.{Engine, BufferAllocator, Memory, make_allocator}

pub data SegmentStatus : Type 0 where
  undefined mounted unmounting : SegmentStatus

pub record MountedSegment : Type 0 where
  pub segment : Segment
  pub status : SegmentStatus
  pub buf_allocator : Option ℕ

-- SegmentManager, with the heap in which its allocators live, the next free number of that heap, and
-- the gauge of the mounted bytes.
pub record SegmentManager {ℓ} (S : Type ℓ) : Type ℓ where
  pub memory_allocator : BufferAllocatorType
  pub memory : Memory S
  pub next_allocator : ℕ
  pub allocators : List ℕ
  pub allocators_by_name : Dict String (List ℕ)
  pub mounted_segments : Dict Uuid MountedSegment
  pub client_segments : Dict Uuid (List Uuid)
  pub total_mem_capacity : ℤ

-- What QuerySegments finds.
pub data Query : Type 0 where
  usage : ℕ → ℕ → Query
  unknown : Query
  fault : Query

abbrev pub or_empty {ℓ} : {A : Type ℓ} → Option (List A) → List A
or_empty none = []
or_empty (some xs) = xs

-- Some entry of a map passes a test.
unfoldable pub any_entry {ℓ κ} : {K : Type ℓ} {V : Type κ} → (V → Bool) → Dict K V → Bool
any_entry p [] = false
any_entry p ((k, v) ∷ m) = p v || any_entry p m

abbrev pub holds : ℕ → Option ℕ → Bool
holds a none = false
holds a (some b) = b == a

abbrev is_unaligned : BufferAllocatorType → ℕ → ℕ → Bool
is_unaligned cachelib base size = not (base % slab_size == 0 && size % slab_size == 0)
is_unaligned offset base size = false

abbrev pub already_there : SegmentStatus → ErrorCode
already_there mounted = segment_already_exists
already_there _ = unavailable_in_current_status

-- The two checks of MountSegment on the segment itself.
abbrev pub is_invalid_segment : BufferAllocatorType → Segment → Bool
is_invalid_segment kind s = s.base == 0 || s.size == 0 || is_unaligned kind s.base s.size

-- The errors after which ReMountSegment gives up; it goes on after the others.
abbrev pub stops_remount : ErrorCode → Bool
stops_remount unavailable_in_current_status = true
stops_remount internal_error = true
stops_remount _ = false

-- Steps 1 and 2 of PrepareUnmountSegment: the allocator leaves both containers.
unfoldable pub drop_by_name : String → ℕ → Dict String (List ℕ) → Dict String (List ℕ)
drop_by_name name a m = elim (find name m) [
  | none ↦ m
  | some ids ↦
      let rest = erase_first a ids in if is_empty rest then erase name m else put name rest m
]

-- Step 2 for a segment without an allocator, which no container holds.
unfoldable pub drop_if_empty : String → Dict String (List ℕ) → Dict String (List ℕ)
drop_if_empty name m = elim (find name m) [
  | none ↦ m
  | some ids ↦ if is_empty ids then erase name m else m
]

-- The entry of `client_segments_` after a segment has left it.
unfoldable pub drop_client_segment : Uuid → Uuid → Dict Uuid (List Uuid) → Dict Uuid (List Uuid)
drop_client_segment client id m = elim (find client m) [
  | none ↦ m
  | some ids ↦
      let rest = erase_first id ids in if is_empty rest then erase client m else put client rest m
]

-- The loop of GetClientSegments.
unfoldable pub collect_segments : Dict Uuid MountedSegment → List Uuid → List Segment
collect_segments m [] = []
collect_segments m (id ∷ ids) =
    let rest = collect_segments m ids in
    elim (find id m) [ none ↦ rest | some ms ↦ ms.segment ∷ rest ]

-- The loop of GetAllSegments.
unfoldable pub mounted_names : Dict Uuid MountedSegment → List String
mounted_names [] = []
mounted_names ((id, ms) ∷ m) = elim ms.status [
  | mounted ↦ ms.segment.name ∷ mounted_names m
  | _ ↦ mounted_names m
]

module _ {ℓ} {S : Type ℓ} where
  abbrev pub init : BufferAllocatorType → SegmentManager S
  init kind = record {
    memory_allocator = kind;
    memory = record { heap = []; allocated_mem_size = pos 0 };
    next_allocator = 0;
    allocators = [];
    allocators_by_name = [];
    mounted_segments = [];
    client_segments = [];
    total_mem_capacity = pos 0;
  }

  -- Somebody holds a `shared_ptr` to the allocator, so a `weak_ptr` to it has not expired.
  unfoldable pub is_alive : SegmentManager S → ℕ → Bool
  is_alive sm a =
      contains sm.allocators a
      || any_entry (λ ids. contains ids a) sm.allocators_by_name
      || any_entry (λ (ms : MountedSegment). holds a ms.buf_allocator) sm.mounted_segments

  -- The end of MountSegment, once the allocator is made.
  unfoldable pub register : SegmentManager S → Segment → Uuid → BufferAllocator S → SegmentManager S
  register sm s client al =
      let a = sm.next_allocator in
      record sm {
        memory = record sm.memory { heap = (a, al) ∷ sm.memory.heap };
        next_allocator = a + 1;
        allocators = sm.allocators ++ a ∷ [];
        allocators_by_name =
            put s.name (or_empty (find s.name sm.allocators_by_name) ++ a ∷ [])
              sm.allocators_by_name;
        client_segments =
            put client (or_empty (find client sm.client_segments) ++ s.id ∷ []) sm.client_segments;
        mounted_segments =
            put s.id (record { segment = s; status = mounted; buf_allocator = some a })
              sm.mounted_segments;
        total_mem_capacity = sm.total_mem_capacity +ℤ pos s.size;
      }

  -- ScopedSegmentAccess::MountSegment
  unfoldable pub mount_segment :
      Engine S → SegmentManager S → Segment → Uuid → ErrorCode × SegmentManager S
  unfolding register make_allocator
  mount_segment e sm s client =
      if is_invalid_segment sm.memory_allocator s
      then (invalid_params, sm)
      else elim (find s.id sm.mounted_segments) [
        | some old ↦ (already_there old.status, sm)
        | none ↦ elim (make_allocator e sm.memory_allocator s.name s.base s.size s.te_endpoint) [
          | none ↦ (invalid_params, sm)
          | some al ↦ (ok_code, register sm s client al)
        ]
      ]

  -- ScopedSegmentAccess::ReMountSegment
  unfoldable pub remount_segment :
      Engine S → SegmentManager S → List Segment → Uuid → ErrorCode × SegmentManager S
  remount_segment e sm [] client = (ok_code, sm)
  remount_segment e sm (s ∷ ss) client =
      let (code, sm') = mount_segment e sm s client in
      let rest = remount_segment e sm' ss client in if stops_remount code then (code, sm') else rest

  -- Steps 1 to 3 and the new status.
  unfoldable pub detach : SegmentManager S → Uuid → MountedSegment → SegmentManager S
  unfolding drop_by_name drop_if_empty
  detach sm id ms = elim ms.buf_allocator [
    | none ↦ record sm {
      allocators_by_name = drop_if_empty ms.segment.name sm.allocators_by_name;
      mounted_segments =
          put id (record ms { status = unmounting; buf_allocator = none }) sm.mounted_segments;
    }
    | some a ↦ record sm {
      allocators = erase_first a sm.allocators;
      allocators_by_name = drop_by_name ms.segment.name a sm.allocators_by_name;
      mounted_segments =
          put id (record ms { status = unmounting; buf_allocator = none }) sm.mounted_segments;
    }
  ]

  -- ScopedSegmentAccess::PrepareUnmountSegment; the middle of the result is the out-parameter
  -- metrics_dec_capacity, which an error leaves as it was.
  unfoldable pub prepare_unmount_segment :
      SegmentManager S → Uuid → ℕ → ErrorCode × ℕ × SegmentManager S
  unfolding detach
  prepare_unmount_segment sm id dec = elim (find id sm.mounted_segments) [
    | none ↦ (segment_not_found, dec, sm)
    | some ms ↦ elim ms.status [
      | unmounting ↦ (unavailable_in_current_status, dec, sm)
      | _ ↦ (ok_code, ms.segment.size, detach sm id ms)
    ]
  ]

  -- ScopedSegmentAccess::CommitUnmountSegment, which always returns OK.
  unfoldable pub commit_unmount_segment :
      SegmentManager S → Uuid → Uuid → ℕ → ErrorCode × SegmentManager S
  unfolding drop_client_segment
  commit_unmount_segment sm id client dec = (
    ok_code,
    record sm {
      client_segments = drop_client_segment client id sm.client_segments;
      mounted_segments = erase id sm.mounted_segments;
      total_mem_capacity = sm.total_mem_capacity -ℤ pos dec;
    },
  )

  -- ScopedSegmentAccess::GetClientSegments; the out-parameter keeps its value on an error.
  unfoldable pub get_client_segments :
      SegmentManager S → Uuid → List Segment → ErrorCode × List Segment
  unfolding collect_segments
  get_client_segments sm client out = elim (find client sm.client_segments) [
    | none ↦ (segment_not_found, out)
    | some ids ↦ (ok_code, collect_segments sm.mounted_segments ids)
  ]

  -- ScopedSegmentAccess::GetAllSegments
  unfoldable pub get_all_segments : SegmentManager S → List String
  unfolding mounted_names
  get_all_segments sm = mounted_names sm.mounted_segments

  -- ScopedSegmentAccess::QuerySegments: `fault` is `second[0]` of an empty vector, or a dangling
  -- allocator.
  unfoldable pub query_segments : SegmentManager S → String → Query
  query_segments sm name = elim (find name sm.allocators_by_name) [
    | none ↦ unknown
    | some [] ↦ fault
    | some (a ∷ rest) ↦ elim (find a sm.memory.heap) [
      | none ↦ fault
      | some al ↦ usage al.cur_size al.total_size
    ]
  ]
