-- ===== src/ClientBuffer.antt =====
-- mooncake-store/src/client_buffer.cpp and include/client_buffer.hpp: the buffers that a client reads
-- and writes through, and how they are cut into slices. The offset allocator and the memory below it
-- are a parameter.
pub mod Cut
pub mod Fit
use mooncake.Prelude.{
  ℕ, zero, suc, ◌+◌, ◌-◌, ◌%◌, min, String, true, false, Option, none, some, List, [], ◌∷◌, ◌++◌,
  if◌then◌else◌, ltb, Option-cases,
}
use mooncake.Prelude.Dict.{and_then}
use mooncake.Types.{Slice, max_slice_size, u64_mod}
use mooncake.Allocator.{BufferDescriptor}
use mooncake.Replica.{DescriptorVariant, memory_descriptor, disk_descriptor, ReplicaDescriptor}

-- BufferHandle: where its memory begins and how many bytes it has.
pub record BufferHandle : Type 0 where
  pub ptr : ℕ
  pub size : ℕ

-- What ClientBufferAllocator calls: `reserve` is allocate_buffer_allocator_memory, at an alignment of
-- 64 bytes, `create` and `allocate` are the offset allocator's.
pub record BufferMemory {ℓ} (S : Type ℓ) : Type ℓ where
  pub reserve : ℕ → String → ℕ → Option ℕ
  pub create : ℕ → ℕ → S
  pub allocate : S → ℕ → Option (BufferHandle × S)

pub record ClientBufferAllocator {ℓ} (S : Type ℓ) : Type ℓ where
  pub allocator : S
  pub protocol : String
  pub buffer : ℕ
  pub buffer_size : ℕ

module _ {ℓ} {S : Type ℓ} where
  -- ClientBufferAllocator::ClientBufferAllocator; `none` is the exception bad_alloc.
  unfoldable pub make_buffers : BufferMemory S → ℕ → String → Option (ClientBufferAllocator S)
  make_buffers m size protocol = elim (m.reserve size protocol 64) [
    | none ↦ none
    | some buffer ↦ some (record {
      allocator = m.create buffer size;
      protocol = protocol;
      buffer = buffer;
      buffer_size = size;
    })
  ]

  -- ClientBufferAllocator::allocate
  unfoldable pub allocate_handle :
      BufferMemory S → ClientBufferAllocator S → ℕ → Option (BufferHandle × ClientBufferAllocator S)
  allocate_handle m c size = elim (m.allocate c.allocator size) [
    | none ↦ none
    | some (handle, s) ↦ some (handle, record c { allocator = s })
  ]

-- The loop that cuts `total` bytes at `base` from `offset` on, on fuel.
unfoldable pub cut : ℕ → ℕ → ℕ → ℕ → Option (List Slice)
cut zero base total offset = none
cut (suc fuel) base total offset =
    let chunk_size = min (total - offset) max_slice_size in
    let rest = cut fuel base total (offset + chunk_size) in
    if ltb offset total
    then elim rest [
      | none ↦ none
      | some slices ↦ some (record { ptr = base + offset; size = chunk_size } ∷ slices)
    ]
    else some []

-- split_into_slices: one round more than there are bytes is fuel enough.
unfoldable pub split_into_slices : BufferHandle → Option (List Slice)
unfolding cut
split_into_slices handle = cut (suc handle.size) handle.ptr handle.size 0

unfoldable pub sum_sizes : List BufferDescriptor → ℕ → ℕ
sum_sizes [] total_length = total_length
sum_sizes (handle ∷ handles) total_length =
    sum_sizes handles ((total_length + handle.size) % u64_mod)

-- calculate_total_size
unfoldable pub calculate_total_size : ReplicaDescriptor → ℕ
unfolding sum_sizes
calculate_total_size replica = elim replica.variant [
  | disk_descriptor path object_size ↦ object_size
  | memory_descriptor handles ↦ sum_sizes handles 0
]

-- The loop over the buffer descriptors.
unfoldable pub place : List BufferDescriptor → ℕ → ℕ → List Slice
place [] base offset = []
place (handle ∷ handles) base offset =
    record { ptr = base + offset; size = handle.size }
    ∷ place handles base ((offset + handle.size) % u64_mod)

-- allocateSlices, whose code 0 says nothing: the slices that the out-parameter then has.
unfoldable pub allocate_slices : List Slice → ReplicaDescriptor → BufferHandle → Option (List Slice)
unfolding cut place
allocate_slices slices replica handle = elim replica.variant [
  | disk_descriptor path object_size ↦ elim (cut (suc object_size) handle.ptr object_size 0) [
    | none ↦ none
    | some chunks ↦ some (slices ++ chunks)
  ]
  | memory_descriptor handles ↦ some (slices ++ place handles handle.ptr 0)
]
