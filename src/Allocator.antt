-- ===== src/Allocator.antt =====
-- mooncake-store/include/allocator.h and src/allocator.cpp: the two buffer allocators and the
-- buffers that they hand out. The engines below them (CacheLib's MemoryAllocator and the offset
-- allocator) are a parameter, `Engine S` over a state `S`. A `shared_ptr` or `weak_ptr` to an
-- allocator is its number in the heap; whether a `weak_ptr` has expired is the caller's to say,
-- since it depends on who still holds a `shared_ptr` (Segment.antt).
use mooncake.Prelude.{
  ℕ, ◌+◌, ◌-◌, ◌%◌, max, String, Bool, Option, none, some, if◌then◌else◌, nat_eq,
}
use mooncake.Prelude.Dict.{Dict, find, put}
use mooncake.Prelude.Int.{ℤ, pos, ◌+ℤ◌, ◌-ℤ◌}
use mooncake.Types.{BufferAllocatorType, cachelib, offset, u64_mod, min_slice_size}

-- What the engines do. `none` is a null result or an exception, which the code treats alike.
pub record Engine {ℓ} (S : Type ℓ) : Type ℓ where
  pub create : BufferAllocatorType → ℕ → ℕ → Option S
  pub obtain : S → ℕ → Option (ℕ × S)
  pub release : S → ℕ → Option S
  pub largest_free_region : S → ℕ

-- CachelibBufferAllocator and OffsetBufferAllocator.
pub record BufferAllocator {ℓ} (S : Type ℓ) : Type ℓ where
  pub kind : BufferAllocatorType
  pub segment_name : String
  pub base : ℕ
  pub total_size : ℕ
  pub cur_size : ℕ
  pub transport_endpoint : String
  pub engine : S

pub record AllocatedBuffer : Type 0 where
  pub allocator : ℕ
  pub buffer_ptr : ℕ
  pub size : ℕ

-- AllocatedBuffer::Descriptor
pub record BufferDescriptor : Type 0 where
  pub size : ℕ
  pub buffer_address : ℕ
  pub transport_endpoint : String

-- The allocators that exist, and the gauge of the bytes handed out.
pub record Memory {ℓ} (S : Type ℓ) : Type ℓ where
  pub heap : Dict ℕ (BufferAllocator S)
  pub allocated_mem_size : ℤ

-- kAllocatorUnknownFreeSpace
abbrev pub unknown_free_space : ℕ
unknown_free_space = u64_mod - 1

-- CacheLib is asked for at least `min_slice_size` bytes.
unfoldable pub engine_request : BufferAllocatorType → ℕ → ℕ
engine_request cachelib size = max size min_slice_size
engine_request offset size = size

module _ {ℓ} {S : Type ℓ} where
  -- The constructors; an engine that cannot be made is an exception.
  unfoldable pub make_allocator :
      Engine S → BufferAllocatorType → String → ℕ → ℕ → String → Option (BufferAllocator S)
  make_allocator e kind name base size endpoint = elim (e.create kind base size) [
    | none ↦ none
    | some s ↦ some (record {
      kind = kind;
      segment_name = name;
      base = base;
      total_size = size;
      cur_size = 0;
      transport_endpoint = endpoint;
      engine = s;
    })
  ]

  -- getLargestFreeRegion
  unfoldable pub largest_free_region : Engine S → BufferAllocator S → ℕ
  largest_free_region e a = elim a.kind [
    | cachelib ↦ unknown_free_space
    | offset ↦ e.largest_free_region a.engine
  ]

  -- The end of `allocate`, once the engine has answered.
  unfoldable pub hand_out :
      Memory S → ℕ → ℕ → BufferAllocator S → Option (ℕ × S) → Option (AllocatedBuffer × Memory S)
  hand_out m id size a none = none
  hand_out m id size a (some (ptr, s)) = some (
    record { allocator = id; buffer_ptr = ptr; size = size },
    record {
      heap = put id (record a { cur_size = (a.cur_size + size) % u64_mod; engine = s }) m.heap;
      allocated_mem_size = m.allocated_mem_size +ℤ pos size;
    },
  )

  -- allocator->allocate(size)
  unfoldable pub allocate : Engine S → Memory S → ℕ → ℕ → Option (AllocatedBuffer × Memory S)
  unfolding engine_request hand_out
  allocate e m id size = elim (find id m.heap) [
    | none ↦ none
    | some a ↦ hand_out m id size a (e.obtain a.engine (engine_request a.kind size))
  ]

  -- allocator->deallocate(handle): an exception of the engine leaves the counters as they were.
  unfoldable pub deallocate : Engine S → Memory S → AllocatedBuffer → Memory S
  deallocate e m b = elim (find b.allocator m.heap) [
    | none ↦ m
    | some a ↦ elim (e.release a.engine b.buffer_ptr) [
      | none ↦ m
      | some s ↦ record {
        heap =
            put b.allocator
              (record a { cur_size = (a.cur_size + u64_mod - b.size) % u64_mod; engine = s })
              m.heap;
        allocated_mem_size = m.allocated_mem_size -ℤ pos b.size;
      }
    ]
  ]

  -- ~AllocatedBuffer, where `alive` says which allocators have not expired.
  unfoldable pub destroy_buffer : Engine S → (ℕ → Bool) → Memory S → AllocatedBuffer → Memory S
  unfolding deallocate
  destroy_buffer e alive m b =
      if alive b.allocator
      then deallocate e m b
      else record m { allocated_mem_size = m.allocated_mem_size -ℤ pos b.size }

  -- AllocatedBuffer::getSegmentName
  unfoldable pub buffer_segment_name : (ℕ → Bool) → Memory S → AllocatedBuffer → String
  buffer_segment_name alive m b =
      if alive b.allocator
      then elim (find b.allocator m.heap) [ none ↦ "" | some a ↦ a.segment_name ]
      else ""

  -- AllocatedBuffer::get_descriptor
  unfoldable pub buffer_descriptor : (ℕ → Bool) → Memory S → AllocatedBuffer → BufferDescriptor
  buffer_descriptor alive m b = record {
    size = b.size;
    buffer_address = b.buffer_ptr;
    transport_endpoint =
        if alive b.allocator
        then elim (find b.allocator m.heap) [ none ↦ "" | some a ↦ a.transport_endpoint ]
        else "";
  }
