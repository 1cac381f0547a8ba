-- ===== src/Lib.antt =====
-- Verification of the Mooncake store (mooncake-store): the master service, and the parts of the
-- client that cut, serialize and store values.
--
-- The master keeps, for every key, the metadata of an object: its replicas, a lease and a soft pin.
-- Clients mount segments of memory; the master puts replicas into buffers of those segments and hands
-- their descriptors out. The parts, from the bottom up:
--
-- Types: the error codes, identifiers and configurations of mooncake-store/include/types.h.
-- Allocator: BufferAllocatorBase's two implementations and AllocatedBuffer
--   (mooncake-store/include/allocator.h, mooncake-store/src/allocator.cpp). The engines below them,
--   CacheLib and the offset allocator, are the parameter `Engine`. Allocators live in a heap and are
--   referred to by number, as the code does by `shared_ptr` and `weak_ptr`; a `weak_ptr` has expired
--   when no container holds the number any more (`Segment.is_alive`).
-- Replica: Replica, its descriptors and statuses (mooncake-store/include/replica.h).
-- Segment: SegmentManager and ScopedSegmentAccess (mooncake-store/include/segment.h,
--   mooncake-store/src/segment.cpp); MountSegment is `mount_segment`, PrepareUnmountSegment
--   `prepare_unmount_segment`, and so on. Its children hold the invariant and the proofs that each
--   operation keeps it.
-- Strategy: RandomAllocationStrategy (mooncake-store/include/allocation_strategy.h). `std::shuffle` is
--   the parameter `Shuffle`; the theorems ask only that it brings up nothing that it was not given.
-- Metadata: MasterService::ObjectMetadata (mooncake-store/include/master_service.h). A time point is a
--   number of milliseconds, and the clock is an argument.
-- Master: MasterService (mooncake-store/src/master_service.cpp), its 1024 shards and the accessor.
--   Its children Read, Put, Remove, Mount, Monitor and Evict hold the handlers, Path the file paths;
--   View, Loops and Fresh see the shards as a map from keys to objects; Lease, Puts, Restart,
--   Starts, Frames, Sweep, Clients, Requests and Evict.Protected hold the theorems, Sound and
--   Handlers the lemmas on each handler that Requests puts together. What the service calls and does
--   not implement is the record `Env`.
-- EvictionStrategy: the LRU and FIFO strategies (mooncake-store/include/eviction_strategy.h). Lru and
--   Fifo hold their operations, Recency and Queue the lists that they behave as.
-- ClientBuffer: the buffers of a client and how they are cut into slices
--   (mooncake-store/src/client_buffer.cpp, mooncake-store/include/client_buffer.hpp).
-- Serializer: the writer and the reader of serialized objects (mooncake-store/include/serializer.h).
--   What a class writes is a list of outputs, what it reads a tree of reads.
-- BucketStorage: BucketStorageBackend (mooncake-store/src/storage_backend.cpp,
--   mooncake-store/include/storage_backend.h), which a client offloads objects to. Build, Offload,
--   Load, Scan and Recover hold its operations; the files, struct_pb and the conversions of numbers
--   are the parameter `Disk`. Layout says where objects lie in a bucket file, Located, Index and
--   Restored that the index agrees with the buckets, RoundTrip, by Files and Requests, that what is
--   offloaded is loaded, on files that keep what is written to them (`IsReliable`), Pages what a
--   scan goes through.
-- Client: BatchPut and the stages that its operations go through (mooncake-store/src/client.cpp).
--   The file holds an operation and what the stages do with it, Pipeline the stages, SameNode
--   BatchPutWhenPreferSameNode, Put BatchPut itself. Settle says what may be ended, Answers, Settled
--   and Report what FinalizeBatchPut leaves, Batch and Grouped what the stages before it keep,
--   Reported the results.
-- ObjectStorage: StorageBackend's StoreObject and LoadObject
--   (mooncake-store/src/storage_backend.cpp), one file for an object, over the same parameter for
--   files. Pieces says which bytes a read puts into which slice, Loaded holds the round trip.
-- Tests: the theorems at concrete inputs.
--
-- Every handler takes the state and returns its result with the new state; `Expected` is
-- `tl::expected`. A handler runs as one step: mutexes, logging and the metrics are left out, but
-- for the gauges of the mounted and the allocated bytes and of the active clients. Loops run over
-- lists and need no fuel, but for the loop that cuts a buffer into slices: its fuel is one more
-- than the bytes of the buffer, and each round takes at least one. `size_t` sums wrap at 2 ^ 64
-- where the code can overflow (`total_length`, `cur_size`); leases and pins are unbounded numbers,
-- and so are the signed offsets of bucket files, the signed time to live of a client and the
-- moments that it gives, whose overflow C++ leaves undefined. The order of an unordered_map is that
-- of its list, and no theorem depends on it. Doubles are the parameter `Double`.
--
-- Not modelled: the engines (copies of other projects), RPC, the rest of the client, transports,
-- system calls on files, high availability, the configuration files, and the functions of
-- StorageBackend that remove files: input, output or forwarding.
pub mod Prelude
pub mod Types
pub mod EvictionStrategy
pub mod ClientBuffer
pub mod Serializer
pub mod BucketStorage
pub mod ObjectStorage
pub mod Client
pub mod Allocator
pub mod Replica
pub mod Segment
pub mod Strategy
pub mod Metadata
pub mod Master
pub mod Tests
