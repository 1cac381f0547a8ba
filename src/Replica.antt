-- ===== src/Replica.antt =====
-- mooncake-store/include/replica.h: replicas in memory and on disk, and their states.
use mooncake.Prelude.{
  ℕ, String, Bool, true, false, not, Option, none, some, List, [], ◌∷◌, map, any, if◌then◌else◌,
}
use mooncake.Allocator.{
  Engine, Memory, AllocatedBuffer, BufferDescriptor, buffer_descriptor, buffer_segment_name,
  destroy_buffer,
}

pub data ReplicaType : Type 0 where
  memory disk : ReplicaType

pub data ReplicaStatus : Type 0 where
  undefined initialized processing complete removed failed : ReplicaStatus

-- std::variant<MemoryReplicaData, DiskReplicaData>
pub data ReplicaData : Type 0 where
  memory_data : List AllocatedBuffer → ReplicaData
  disk_data : String → ℕ → ReplicaData

pub record Replica : Type 0 where
  pub replica_data : ReplicaData
  pub status : ReplicaStatus

-- std::variant<MemoryDescriptor, DiskDescriptor>
pub data DescriptorVariant : Type 0 where
  memory_descriptor : List BufferDescriptor → DescriptorVariant
  disk_descriptor : String → ℕ → DescriptorVariant

-- Replica::Descriptor
pub record ReplicaDescriptor : Type 0 where
  pub variant : DescriptorVariant
  pub status : ReplicaStatus

abbrev pub same_type : ReplicaType → ReplicaType → Bool
same_type memory memory = true
same_type disk disk = true
same_type _ _ = false

abbrev pub same_status : ReplicaStatus → ReplicaStatus → Bool
same_status undefined undefined = true
same_status initialized initialized = true
same_status processing processing = true
same_status complete complete = true
same_status removed removed = true
same_status failed failed = true
same_status _ _ = false

abbrev type_of : ReplicaData → ReplicaType
type_of (memory_data bs) = memory
type_of (disk_data path size) = disk

-- Replica::type
abbrev pub replica_type : Replica → ReplicaType
replica_type r = type_of r.replica_data

abbrev pub is_memory_replica : Replica → Bool
is_memory_replica r = same_type (replica_type r) memory

abbrev buffers_of : ReplicaData → List AllocatedBuffer
buffers_of (memory_data bs) = bs
buffers_of (disk_data path size) = []

-- The handles of a memory replica; a disk replica has none.
abbrev pub buffers : Replica → List AllocatedBuffer
buffers r = buffers_of r.replica_data

abbrev disk_size_of : ReplicaData → ℕ
disk_size_of (memory_data bs) = 0
disk_size_of (disk_data path size) = size

abbrev pub disk_size : Replica → ℕ
disk_size r = disk_size_of r.replica_data

-- has_invalid_mem_handle
abbrev pub has_invalid_mem_handle : (ℕ → Bool) → Replica → Bool
has_invalid_mem_handle alive r = any (λ b. not (alive b.allocator)) (buffers r)

abbrev completed : ReplicaStatus → ReplicaStatus
completed processing = complete
completed s = s

-- mark_complete: only a replica that is being written changes.
abbrev pub mark_complete : Replica → Replica
mark_complete r = record r { status = completed r.status }

module _ {ℓ} {S : Type ℓ} where
  variant_of : (ℕ → Bool) → Memory S → ReplicaData → DescriptorVariant
  variant_of alive m (memory_data bs) = memory_descriptor (map (buffer_descriptor alive m) bs)
  variant_of alive m (disk_data path size) = disk_descriptor path size

  -- get_descriptor
  unfoldable pub get_descriptor : (ℕ → Bool) → Memory S → Replica → ReplicaDescriptor
  unfolding variant_of
  get_descriptor alive m r = record {
    variant = variant_of alive m r.replica_data;
    status = r.status;
  }

  -- get_segment_names: no name for a handle whose allocator is gone.
  unfoldable pub get_segment_names : (ℕ → Bool) → Memory S → Replica → List (Option String)
  get_segment_names alive m r =
      map (λ b. if alive b.allocator then some (buffer_segment_name alive m b) else none)
        (buffers r)

  -- The destructor of a vector of handles.
  unfoldable pub destroy_buffers :
      Engine S → (ℕ → Bool) → Memory S → List AllocatedBuffer → Memory S
  destroy_buffers e alive m [] = m
  destroy_buffers e alive m (b ∷ bs) = destroy_buffers e alive (destroy_buffer e alive m b) bs

  -- ~Replica, for each of a list.
  unfoldable pub destroy_replicas : Engine S → (ℕ → Bool) → Memory S → List Replica → Memory S
  destroy_replicas e alive m [] = m
  destroy_replicas e alive m (r ∷ rs) =
      destroy_replicas e alive (destroy_buffers e alive m (buffers r)) rs
