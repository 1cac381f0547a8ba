-- ===== src/Tests/Objects.antt =====
-- The theorems on objects, at concrete inputs.
use mooncake.Prelude.{
  String, contains, ℕ, if◌then◌else◌, ◌≡◌, ◌≢◌, refl, true, false, some, List, [], ◌∷◌, any, nat_eq,
  string_eq, ◌==◌, arith,
}
use mooncake.Prelude.Int.{pos}
use mooncake.Prelude.Dict.{IsMap, walk, find, put, and_then}
use mooncake.Types.{uuid_eq, ok, err, object_has_lease, object_not_found, invalid_write}
use mooncake.Allocator.{
  make_allocator, allocate, hand_out, engine_request, largest_free_region, buffer_descriptor,
  destroy_buffer,
}
use mooncake.Replica.{
  Replica, ReplicaDescriptor, memory, processing, complete, disk_data, memory_descriptor,
  destroy_replicas, destroy_buffers, get_descriptor, same_type, replica_type,
}
use mooncake.Segment.{
  mounted, unmounting, detach, drop_by_name, prepare_unmount_segment, commit_unmount_segment,
  mount_segment, register, is_alive, any_entry,
}
use mooncake.Strategy.{
  allocate_replicas, allocate_slices, allocate_slice, allocate_single_buffer, try_preferred,
  try_random_allocate, try_each, validate_input,
}
use mooncake.Metadata.{ObjectMetadata, is_stale, is_lease_expired}
use mooncake.Master.{Master, alive, object, access, store, free_replicas, walk_shards}
use mooncake.Master.View.{cleaned}
use mooncake.Master.Fresh.{IsFresh}
use mooncake.Master.Lease.{get-then-remove}
use mooncake.Master.Read.{ReplicaListResponse, get_replica_list, exist_key}
use mooncake.Master.Put.{
  put_allocated, finish_put, insert_object, with_disk_replica, total_length, put_end, put_revoke,
  put_start,
}
use mooncake.Master.Remove.{remove, remove_all, remove_by_regex}
use mooncake.Master.Mount.{clear_entry, finish_unmount, clear_invalid_handles, unmount}
use mooncake.Master.Frames.{object-remove, is_idle}
use mooncake.Master.Sweep.{
  unless, is_removable, object-remove_all, object-remove_by_regex, object-clear_invalid_handles,
  unmount-IsFresh,
}
use mooncake.Master.Puts.{put_end-exist_key, put_end-put_revoke, put_revoke_gone}
use mooncake.Master.Restart.{put_start-put_end_stale}
use mooncake.Master.Starts.{Outcome, object-put_start}
use mooncake.Master.Monitor.{ClientTtl, monitor_round}
use mooncake.Master.Clients.{monitor_round_pinged}
use mooncake.Master.Evict.{batch_evict}
use mooncake.Master.Evict.Protected.{batch_evict_protected}
use mooncake.Tests.Data.{
  anna, bert, here, two_segments, two_segments-IsWellFormed, entry_of, env, holding, readable,
  writing, orphaned, service_with, service-HasShards, service-HasMaps, put_config, thousandths,
}

abbrev response : ReplicaListResponse
response = record {
  replicas =
      record {
        variant =
            memory_descriptor
              (record { size = 100; buffer_address = 1000; transport_endpoint = "host:1" } ∷ []);
        status = complete;
      }
      ∷ [];
  lease_ttl_ms = 5000;
}

listed : (get_replica_list env 100 readable "key").0 ≡ ok response
unfolding get_replica_list access object store find is_alive mount_segment register make_allocator
    put get_descriptor free_replicas buffer_descriptor destroy_replicas
listed = refl

get-then-remove_example :
    (remove env 5099 (get_replica_list env 100 readable "key").1 "key").0 ≡ err object_has_lease
get-then-remove_example =
    get-then-remove env 100 5099 readable "key" response (service-HasShards (holding complete 0))
      listed (omega arith)

abbrev other : String
other = "other"

object-remove_example : object env (remove env 50 readable "key").1 other ≡ (
    if "key" == other
    then and_then (access env readable "key").0 (unless (is_idle 50))
    else object env readable other)
object-remove_example =
    object-remove env 50 readable "key" other (service-HasShards (holding complete 0))

object-remove_all_example :
    object env (remove_all env 50 writing).1 "key"
    ≡ and_then (object env writing "key") (unless (is_lease_expired 50))
object-remove_all_example =
    object-remove_all env 50 writing "key" (service-HasMaps (holding processing 0))

object-remove_by_regex_example :
    object env (remove_by_regex env (λ k. 50) readable (some (λ k. k == "key"))).1 "key"
    ≡ and_then
        (object env readable "key")
        (unless (is_removable env (λ k. k == "key") (λ k. 50) "key"))
object-remove_by_regex_example =
    object-remove_by_regex env (λ k. 50) readable (λ k. k == "key") "key"
      (service-HasMaps (holding complete 0))

object-clear_invalid_handles_example :
    object env (clear_invalid_handles env orphaned) "key"
    ≡ and_then (object env orphaned "key") (cleaned env orphaned)
object-clear_invalid_handles_example =
    object-clear_invalid_handles env orphaned "key" (service-HasMaps (holding complete 7))

abbrev wide : Master (ℕ × ℕ)
wide = record (service_with (holding complete 1)) { segments = two_segments }

here_mounted : find anna wide.segments.mounted_segments ≡ some (entry_of here 0)
unfolding mount_segment register make_allocator find put
here_mounted = refl

here_ready : mounted ≢ unmounting
here_ready h = cc

still_held : object env (unmount env wide anna anna).1 "key" ≡ some (holding complete 1)
unfolding unmount finish_unmount prepare_unmount_segment commit_unmount_segment
    clear_invalid_handles clear_entry detach drop_by_name walk_shards walk object find is_alive
    any_entry mount_segment register make_allocator put free_replicas
still_held = refl

unmount-IsFresh_example : IsFresh (alive (unmount env wide anna anna).1) (holding complete 1)
unmount-IsFresh_example =
    unmount-IsFresh env wide anna anna (entry_of here 0) "key" (holding complete 1)
      (service-HasMaps (holding complete 1)) two_segments-IsWellFormed here_mounted here_ready
      still_held

there_is : (o : ObjectMetadata) → object env (service_with o) "key" ≡ some o
unfolding object find
there_is o = refl

-- The lease of the object runs until 40.
batch_evict_protected_example :
    object env (batch_evict env thousandths 30 0 1000 1000 readable) "key"
    ≡ some (holding complete 0)
batch_evict_protected_example =
    batch_evict_protected env thousandths 30 0 1000 1000 readable "key" (holding complete 0)
      (service-HasMaps (holding complete 0)) (there_is (holding complete 0)) refl

found_writing : (access env writing "key").0 ≡ some (holding processing 0)
unfolding access object find is_alive mount_segment register make_allocator
found_writing = refl

put_end-exist_key_example :
    ((put_end env 50 writing "key" memory).0 ≡ ok tt)
    × ((exist_key env 60 (put_end env 50 writing "key" memory).1 "key").0 ≡ ok true)
put_end-exist_key_example =
    put_end-exist_key env 50 60 writing "key" memory (holding processing 0)
      (service-HasShards (holding processing 0)) found_writing refl

put_end-put_revoke_example :
    (put_revoke env (put_end env 50 writing "key" memory).1 "key" memory).0 ≡ err invalid_write
put_end-put_revoke_example =
    put_end-put_revoke env 50 writing "key" memory (holding processing 0)
      (service-HasShards (holding processing 0)) found_writing refl

abbrev on_disk : ObjectMetadata
on_disk = record (holding processing 0) {
  replicas =
      record { replica_data = disk_data "path" 100; status = complete }
      ∷ (holding processing 0).replicas;
}

abbrev disk_left : ObjectMetadata
disk_left = record on_disk {
  replicas = record { replica_data = disk_data "path" 100; status = complete } ∷ [];
}

revoked : (put_revoke env (service_with on_disk) "key" memory).0 ≡ ok tt
unfolding put_revoke access object find is_alive mount_segment register make_allocator
revoked = refl

left_on_disk :
    object env (put_revoke env (service_with on_disk) "key" memory).1 "key" ≡ some disk_left
unfolding put_revoke access object find is_alive mount_segment register make_allocator store put
    free_replicas
left_on_disk = refl

put_revoke_gone_example :
    any (λ (r : Replica). same_type (replica_type r) memory) disk_left.replicas ≡ false
put_revoke_gone_example =
    put_revoke_gone env (service_with on_disk) "key" memory disk_left (service-HasShards on_disk)
      revoked left_on_disk

abbrev new_descriptors : List ReplicaDescriptor
new_descriptors =
    record {
      variant =
          memory_descriptor
            (record { size = 100; buffer_address = 1000; transport_endpoint = "host:1" } ∷ []);
      status = processing;
    }
    ∷ []

put_over : (put_start env orphaned "key" (100 ∷ []) put_config).0 ≡ ok new_descriptors
unfolding put_start put_allocated finish_put insert_object with_disk_replica object find is_alive
    any_entry mount_segment register make_allocator store put free_replicas destroy_replicas
    destroy_buffers destroy_buffer get_descriptor buffer_descriptor allocate_replicas
    allocate_slices allocate_slice allocate_single_buffer try_preferred try_random_allocate try_each
    validate_input allocate hand_out engine_request largest_free_region total_length
put_over = refl

orphan_stale : is_stale (alive orphaned) (holding complete 7) ≡ true
unfolding is_alive any_entry mount_segment register make_allocator put find
orphan_stale = refl

put_start-put_end_stale_example :
    (put_end env 60 (put_start env orphaned "key" (100 ∷ []) put_config).1 "key" memory).0
    ≡ err object_not_found
put_start-put_end_stale_example =
    put_start-put_end_stale env 60 orphaned "key" (100 ∷ []) put_config memory (holding complete 7)
      new_descriptors (service-HasShards (holding complete 7)) (there_is (holding complete 7))
      orphan_stale put_over

object-put_start_example :
    Outcome env readable "key" (put_start env readable "key" (100 ∷ []) put_config)
object-put_start_example =
    object-put_start env readable "key" (100 ∷ []) put_config
      (service-HasShards (holding complete 0))

abbrev pinged : Master (ℕ × ℕ)
pinged = record readable { client_ping_queue = anna ∷ []; ok_client = bert ∷ anna ∷ [] }

-- Both clients have run out at 10; only the first has a new ping.
abbrev ttl : ClientTtl
ttl = (bert, pos 10) ∷ (anna, pos 10) ∷ []

ttl-IsMap : IsMap ttl
unfolding find
ttl-IsMap = (refl, (refl, tt))

monitor_round_pinged_example :
    contains (monitor_round env 100 pinged ttl).0.ok_client anna ≡ contains pinged.ok_client anna
monitor_round_pinged_example = monitor_round_pinged env 100 10 pinged ttl anna refl ttl-IsMap refl
