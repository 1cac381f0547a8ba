-- ===== src/Tests/Segments.antt =====
-- The theorems on segments and on allocation, at concrete inputs.
use mooncake.Prelude.{
  ℕ, ◌≡◌, ◌≢◌, refl, true, none, some, List, [], ◌∷◌, map, nat_eq, contains, string_eq, ◌<◌, length,
  ◌⊎◌,
}
use mooncake.Prelude.Dict.{find, put}
use mooncake.Types.{uuid_eq, ok}
use mooncake.Allocator.{
  largest_free_region, allocate, hand_out, engine_request, make_allocator, BufferAllocator,
  AllocatedBuffer,
}
use mooncake.Segment.{
  MountedSegment, mounted, unmounting, mount_segment, remount_segment, prepare_unmount_segment,
  commit_unmount_segment, query_segments, usage, unknown, is_alive, register, detach,
}
use mooncake.Segment.Invariant.{IsWellFormed}
use mooncake.Segment.Mount.{mount_segment-IsWellFormed}
use mooncake.Segment.Remount.{IsRemounted, remount_segment-IsRemounted}
use mooncake.Segment.Unmount.{prepare_unmount_segment-IsWellFormed}
use mooncake.Segment.Alive.{is_alive-prepare_unmount_segment}
use mooncake.Segment.Commit.{commit_unmount_segment-IsWellFormed}
use mooncake.Segment.Usage.{query_segments_safe, IsWellFormed-Named}
use mooncake.Strategy.{
  allocate_slices, allocate_single_buffer, try_preferred, try_random_allocate, try_each,
  validate_input, allocate_slice, allocate_replicas, Attempt, in_progress,
}
use mooncake.Strategy.Slice.{IsSpread, allocate_slice-IsSpread}
use mooncake.Strategy.Allocate.{IsPlan, allocate_replicas-IsPlan}
use mooncake.Tests.Data.{
  bump, in_order, anna, here, there, one_segment, two_segments, one_segment-IsWellFormed,
  two_segments-IsWellFormed, entry_of, put_config,
}

mount_segment_example : IsWellFormed (mount_segment bump one_segment there anna).1
mount_segment_example =
    mount_segment-IsWellFormed bump one_segment there anna one_segment-IsWellFormed

remount_segment_example :
    IsWellFormed (remount_segment bump one_segment (here ∷ there ∷ []) anna).1
    × IsRemounted bump one_segment.memory_allocator
        (here ∷ there ∷ [])
        (remount_segment bump one_segment (here ∷ there ∷ []) anna).0
        (remount_segment bump one_segment (here ∷ there ∷ []) anna).1
remount_segment_example =
    remount_segment-IsRemounted bump one_segment (here ∷ there ∷ []) anna one_segment-IsWellFormed

prepare_unmount_segment_example : IsWellFormed (prepare_unmount_segment two_segments anna 0).2
prepare_unmount_segment_example =
    prepare_unmount_segment-IsWellFormed two_segments anna 0 two_segments-IsWellFormed

here_found : find anna two_segments.mounted_segments ≡ some (entry_of here 0)
unfolding mount_segment register make_allocator find put
here_found = refl

here_listed : mounted ≢ unmounting
here_listed h = cc

is_alive-prepare_unmount_segment_example :
    is_alive (prepare_unmount_segment two_segments anna 0).2 1 ≡ is_alive two_segments 1
is_alive-prepare_unmount_segment_example =
    is_alive-prepare_unmount_segment two_segments anna 0 (entry_of here 0) 0
      two_segments-IsWellFormed here_found here_listed refl 1

abbrev leaving_entry : MountedSegment
leaving_entry = record { segment = here; status = unmounting; buf_allocator = none }

here_leaving :
    find anna (prepare_unmount_segment two_segments anna 0).2.mounted_segments ≡ some leaving_entry
unfolding mount_segment register make_allocator find put prepare_unmount_segment detach
here_leaving = refl

commit_unmount_segment_example :
    IsWellFormed
      (commit_unmount_segment (prepare_unmount_segment two_segments anna 0).2 anna anna 500).1
commit_unmount_segment_example =
    commit_unmount_segment-IsWellFormed (prepare_unmount_segment two_segments anna 0).2 anna anna
      leaving_entry prepare_unmount_segment_example_state here_leaving refl
  where
    prepare_unmount_segment_example_state :
        IsWellFormed (prepare_unmount_segment two_segments anna 0).2
    prepare_unmount_segment_example_state =
        prepare_unmount_segment-IsWellFormed two_segments anna 0 two_segments-IsWellFormed

query_segments_example :
    ((query_segments two_segments "here" ≡ unknown)
      × (find "here" two_segments.allocators_by_name ≡ none))
    ⊎ ((a : ℕ) × (al : BufferAllocator (ℕ × ℕ)) × (query_segments two_segments "here"
          ≡ usage al.cur_size al.total_size)
        × (contains two_segments.allocators a ≡ true)
        × (find a two_segments.memory.heap ≡ some al)
        × (al.segment_name ≡ "here"))
query_segments_example = query_segments_safe two_segments "here" two_segments-IsWellFormed

abbrev attempt : Attempt (ℕ × ℕ)
attempt = record { memory = two_segments.memory; draws = 0; retry_counter = 0 }

abbrev slice_result : List AllocatedBuffer × Attempt (ℕ × ℕ)
slice_result =
    allocate_slice bump in_order two_segments.allocators two_segments.allocators_by_name put_config
      2 attempt 100 []

allocate_slice_example : IsSpread two_segments.memory 2 100 [] slice_result.0
allocate_slice_example =
    allocate_slice-IsSpread bump in_order (λ k xs a h. h) two_segments.allocators
      two_segments.allocators_by_name put_config 2 attempt 100 []
      (IsWellFormed-Named two_segments two_segments-IsWellFormed)

abbrev one_replica : List (List AllocatedBuffer)
one_replica =
    (record { allocator = 0; buffer_ptr = 1000; size = 100 }
      ∷ record { allocator = 0; buffer_ptr = 1100; size = 50 }
      ∷ [])
    ∷ []

replicas_made :
    (allocate_replicas bump in_order two_segments.allocators two_segments.allocators_by_name
      put_config
      (is_alive two_segments)
      attempt
      (100 ∷ 50 ∷ [])).0
    ≡ ok (map in_progress one_replica)
unfolding allocate_replicas allocate_slices allocate_slice allocate_single_buffer try_preferred
    try_random_allocate try_each validate_input allocate mount_segment register make_allocator find
    put hand_out engine_request largest_free_region
replicas_made = refl

allocate_replicas_example :
    (rows : List (List AllocatedBuffer)) × (map in_progress one_replica ≡ map in_progress rows)
    × IsPlan two_segments.memory (100 ∷ 50 ∷ []) 1 rows
    × (0 < length rows)
allocate_replicas_example =
    allocate_replicas-IsPlan bump in_order (λ k xs a h. h) two_segments.allocators
      two_segments.allocators_by_name put_config (is_alive two_segments) two_segments.memory
      (IsWellFormed-Named two_segments two_segments-IsWellFormed) attempt (100 ∷ 50 ∷ [])
      (map in_progress one_replica) (λ a. refl) replicas_made
