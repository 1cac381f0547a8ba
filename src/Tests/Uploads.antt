-- ===== src/Tests/Uploads.antt =====
-- The theorems on batches of puts, at concrete inputs: a master that grants every put a replica in
-- memory, and transfers of which the first succeeds.
use mooncake.Prelude.{
  ℕ, String, ◌≡◌, refl, Bool, true, false, some, List, [], ◌∷◌, map, nat_eq, ◌+◌, ◌==◌,
  if◌then◌else◌, replicate, ◌⊎◌,
}
use mooncake.Types.{ok_code, transfer_fail, ok, err, invalid_params, Slice, ReplicateConfig}
use mooncake.Replica.{ReplicaDescriptor, memory_descriptor, processing}
use mooncake.Client.{
  Services, PutOperation, new_operation, create_put_operations, apply_start, apply_end,
}
use mooncake.Client.Pipeline.{
  wait_for_transfers, finalize_batch_put, start_batch_put, submit_transfers, each_operation,
  submit_operation, submit_replicas, wait_operation, await, end_operations, revoke_operations,
}
use mooncake.Client.SameNode.{
  batch_put_when_prefer_same_node, transfer_same_node, check_segment, group_operations, enter_group,
  first_segment, segment_of, submit_group, note_states, take_state,
}
use mooncake.Prelude.Dict.{find, put}
use mooncake.Client.Put.{batch_put}
use mooncake.Client.Settle.{AllSettled, wait_for_transfers-AllSettled}
use mooncake.Client.Answers.{AllUnfinished}
use mooncake.Client.Reported.{is_refused, transferred, IsBatchPut, batch_put-IsBatchPut}

abbrev granted : ReplicaDescriptor
granted = record {
  variant =
      memory_descriptor
        (record { size = 8; buffer_address = 0; transport_endpoint = "host:1" } ∷ []);
  status = processing;
}

abbrev services : Services ℕ Bool
services = record {
  batch_put_start = λ w keys lengths config. (map (λ key. ok (granted ∷ [])) keys, w);
  batch_put_end = λ w keys. (map (λ key. ok tt) keys, w);
  batch_put_revoke = λ w keys. (map (λ key. ok tt) keys, w);
  has_submitter = true;
  submit = λ w r slices. (some (w == 0), w + 1);
  submit_batch = λ w rs slices. (some (w == 0), w + 1);
  empty_future = true;
  get = λ w future. (if future then ok_code else transfer_fail, w);
  has_storage_backend = false;
  put_to_local_file = λ w key slices path size. w;
}

abbrev value : List Slice
value = record { ptr = 64; size = 8 } ∷ []

abbrev transferring : String → Bool → PutOperation Bool
transferring key good = record (new_operation key value) {
  replicas = granted ∷ [];
  pending_transfers = good ∷ [];
}

abbrev operations : List (PutOperation Bool)
operations = transferring "a" true ∷ transferring "b" false ∷ []

abbrev one_replica : ReplicateConfig
one_replica = record {
  replica_num = 1;
  with_soft_pin = false;
  preferred_segment = "";
  prefer_alloc_in_same_node = false;
}

abbrev same_node : ReplicateConfig
same_node = record one_replica { prefer_alloc_in_same_node = true }

wait_for_transfers-AllSettled_example :
    AllSettled services 0 operations (wait_for_transfers services 0 operations).0
wait_for_transfers-AllSettled_example = wait_for_transfers-AllSettled services 0 operations

abbrev keys : List String
keys = "a" ∷ "b" ∷ []

abbrev batch : List (List Slice)
batch = value ∷ value ∷ []

batch_put-IsBatchPut_example :
    ((is_refused same_node ≡ true)
      × (batch_put services 0 keys batch same_node ≡ (replicate 2 (err invalid_params), 0)))
    ⊎ ((is_refused same_node ≡ false)
        × AllUnfinished (transferred services 0 keys batch same_node).0
        × IsBatchPut services keys
            (transferred services 0 keys batch same_node)
            (batch_put services 0 keys batch same_node))
batch_put-IsBatchPut_example = batch_put-IsBatchPut services 0 keys batch same_node

-- The transfer of the second key fails, and that of both where they are submitted as one has worked.
apart : (batch_put services 0 keys batch one_replica).0 ≡ ok tt ∷ err transfer_fail ∷ []
unfolding batch_put create_put_operations start_batch_put apply_start submit_transfers
    each_operation submit_operation submit_replicas wait_for_transfers wait_operation await
    finalize_batch_put end_operations apply_end revoke_operations
apart = refl

together : (batch_put services 0 keys batch same_node).0 ≡ ok tt ∷ ok tt ∷ []
unfolding batch_put create_put_operations start_batch_put apply_start each_operation
    wait_for_transfers wait_operation await finalize_batch_put end_operations apply_end
    revoke_operations batch_put_when_prefer_same_node transfer_same_node check_segment
    group_operations enter_group first_segment segment_of submit_group note_states take_state find
    put
together = refl
