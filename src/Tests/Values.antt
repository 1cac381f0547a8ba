-- ===== src/Tests/Values.antt =====
-- The theorems on eviction strategies, client buffers and serialized objects, at concrete inputs.
use mooncake.Prelude.{ℕ, ◌≡◌, ◌↔◌, refl, some, none, List, [], ◌∷◌, ◌++◌, arith, string_eq, nat_eq}
use mooncake.Prelude.Spans.{concat}
use mooncake.Types.{ok_code, internal_error, Slice}
use mooncake.Replica.{ReplicaDescriptor, memory_descriptor, complete}
use mooncake.Allocator.{BufferDescriptor}
use mooncake.EvictionStrategy.{Call, add, update, remove, evict, init, remove_key}
use mooncake.EvictionStrategy.Lru as Lru
use mooncake.EvictionStrategy.Fifo as Fifo
use mooncake.EvictionStrategy.Nodes.{listed}
use mooncake.EvictionStrategy.Recency.{recency_run, lru-refines_recency}
use mooncake.EvictionStrategy.Queue.{queue_run, fifo-refines_queue}
use mooncake.ClientBuffer.{BufferHandle, split_into_slices, allocate_slices, calculate_total_size}
use mooncake.ClientBuffer.Cut.{IsCut, Tiles, split_into_slices-IsCut}
use mooncake.ClientBuffer.Fit.{allocate_slices-Tiles}
use mooncake.Serializer.{Byte, Reads, read, done, write, serialize_to, deserialize_from}
use mooncake.Serializer.Written.{writes, serialize_to_failed}
use mooncake.Serializer.RoundTrip.{feed, deserialize_from_iff, serialize-deserialize}

abbrev calls : List Call
calls = add "a" ∷ add "b" ∷ update "a" ∷ evict ∷ remove "a" ∷ evict ∷ []

lru-refines_recency_example :
    ((Lru.run calls init).0 ≡ (recency_run calls []).0)
    × (listed (Lru.run calls init).1.all_key_list ≡ (recency_run calls []).1)
lru-refines_recency_example = lru-refines_recency calls

fifo-refines_queue_example :
    ((Fifo.run calls init).0 ≡ (queue_run calls []).0)
    × (listed (Fifo.run calls init).1.all_key_list ≡ (queue_run calls []).1)
    × ((k : _) → remove_key k (Fifo.run calls init).1 ≡ (ok_code, (Fifo.run calls init).1))
fifo-refines_queue_example = fifo-refines_queue calls

-- Three slices' worth of bytes, less one.
abbrev handle : BufferHandle
handle = record { ptr = 4096; size = 50331599 }

split_into_slices-IsCut_example :
    (slices : List Slice) × (split_into_slices handle ≡ some slices) × IsCut 4096 50331599 slices
split_into_slices-IsCut_example = split_into_slices-IsCut handle

abbrev buffer_of : ℕ → BufferDescriptor
buffer_of n = record { size = n; buffer_address = 0; transport_endpoint = "host:1" }

abbrev two_buffers : ReplicaDescriptor
two_buffers = record {
  variant = memory_descriptor (buffer_of 100 ∷ buffer_of 28 ∷ []);
  status = complete;
}

allocate_slices-Tiles_example :
    (added : List Slice) × (allocate_slices [] two_buffers handle ≡ some ([] ++ added))
    × Tiles 4096 (calculate_total_size two_buffers) added
    × (calculate_total_size two_buffers ≡ 128)
allocate_slices-Tiles_example = allocate_slices-Tiles [] two_buffers handle (omega arith)

-- An object of one byte and two bytes.
abbrev pair : Reads (List Byte × List Byte)
pair = read 1 (λ a. read 2 (λ b. done (a, b)))

abbrev pieces : List (List Byte)
pieces = (7 ∷ []) ∷ (8 ∷ 9 ∷ []) ∷ []

serialize-deserialize_example :
    ((serialize_to (some (writes pieces)) []).0 ≡ ok_code)
    × (deserialize_from pair (serialize_to (some (writes pieces)) []).1 ≡ some (7 ∷ [], 8 ∷ 9 ∷ []))
unfolding feed
serialize-deserialize_example =
    serialize-deserialize pair pieces [] (7 ∷ [], 8 ∷ 9 ∷ []) (omega arith) refl

deserialize_from_iff_example :
    (deserialize_from pair (7 ∷ 8 ∷ 9 ∷ []) ≡ some (7 ∷ [], 8 ∷ 9 ∷ [])) ↔ (
      (ps : List (List Byte)) × (concat ps ≡ 7 ∷ 8 ∷ 9 ∷ [])
      × (feed pair ps ≡ some (7 ∷ [], 8 ∷ 9 ∷ [])))
deserialize_from_iff_example =
    deserialize_from_iff pair (7 ∷ 8 ∷ 9 ∷ []) (7 ∷ [], 8 ∷ 9 ∷ []) (omega arith)
      (omega arith, λ a. (omega arith, λ b. tt))

serialize_to_failed_example :
    serialize_to (some (write (some (7 ∷ [])) ∷ write none ∷ [])) (1 ∷ 2 ∷ [])
    ≡ (internal_error, 1 ∷ 2 ∷ [])
serialize_to_failed_example =
    serialize_to_failed (write (some (7 ∷ [])) ∷ write none ∷ []) (1 ∷ 2 ∷ []) refl
