-- ===== src/Client.antt =====
-- mooncake-store/src/client.cpp: BatchPut, the pipeline that puts a batch of values. An operation goes
-- through StartBatchPut, SubmitTransfers, WaitForTransfers and FinalizeBatchPut. The master that
-- answers over RPC, the transfers and the thread pool that writes files are a parameter, `Services W F`,
-- over a state `W` and futures `F`. The context of a failure, which is only logged, is left out.
pub mod Pipeline
pub mod SameNode
pub mod Put
pub mod Settle
pub mod Answers
pub mod Settled
pub mod Report
pub mod Batch
pub mod Grouped
pub mod Reported
use mooncake.Prelude.{
  ℕ, String, Bool, true, false, not, ◌&&◌, Option, none, some, List, [], ◌∷◌, ◌++◌, if◌then◌else◌,
  map, length, is_empty, nat_beq, replicate,
}
use mooncake.Types.{
  Void, is_ok, ErrorCode, ok_code, Expected, ok, err, internal_error, invalid_params, rpc_fail,
  transfer_fail, object_already_exists, ReplicateConfig, Slice,
}
use mooncake.Replica.{ReplicaDescriptor, memory_descriptor, disk_descriptor}

pub data PutOperationState : Type 0 where
  pending master_failed transfer_failed finalize_failed success : PutOperationState

pub record PutOperation (F : Type 0) : Type 0 where
  pub key : String
  pub slices : List Slice
  pub state : PutOperationState
  pub result : Expected Void
  pub replicas : List ReplicaDescriptor
  pub pending_transfers : List F
  pub batched_slices : List (List Slice)

-- `submit` and `submit_batch` are those of the TransferSubmitter, which there is none of if
-- `has_submitter` is false, `get` is that of a TransferFuture, and `empty_future` one of an
-- EmptyOperationState.
pub record Services (W F : Type 0) : Type 0 where
  pub batch_put_start :
      W
      → List String
      → List (List ℕ)
      → ReplicateConfig
      → List (Expected (List ReplicaDescriptor)) × W
  pub batch_put_end : W → List String → List (Expected Void) × W
  pub batch_put_revoke : W → List String → List (Expected Void) × W
  pub has_submitter : Bool
  pub submit_batch : W → List ReplicaDescriptor → List (List Slice) → Option F × W
  pub submit : W → ReplicaDescriptor → List Slice → Option F × W
  pub get : W → F → ErrorCode × W
  pub empty_future : F
  pub has_storage_backend : Bool
  pub put_to_local_file : W → String → List Slice → String → ℕ → W

abbrev is_pending : PutOperationState → Bool
is_pending pending = true
is_pending _ = false

-- What FinalizeBatchPut does with an operation.
pub data Verdict : Type 0 where
  to_end to_revoke to_leave : Verdict

module _ {F : Type 0} where
  -- PutOperation::PutOperation
  abbrev pub new_operation : String → List Slice → PutOperation F
  new_operation key slices = record {
    key = key;
    slices = slices;
    state = pending;
    result = err internal_error;
    replicas = [];
    pending_transfers = [];
    batched_slices = [];
  }

  abbrev pub is_resolved : PutOperation F → Bool
  is_resolved op = not (is_pending op.state)

  abbrev pub set_success : PutOperation F → PutOperation F
  set_success op = record op { state = success; result = ok tt }

  -- PutOperation::SetError
  abbrev pub set_error : ErrorCode → PutOperation F → PutOperation F
  set_error error op = record op {
    result = err error;
    state =
        if is_empty op.replicas
        then master_failed
        else if is_empty op.pending_transfers
        then transfer_failed
        else finalize_failed;
  }

  -- CreatePutOperations; a batch has as many values as keys.
  unfoldable pub create_put_operations : List String → List (List Slice) → List (PutOperation F)
  create_put_operations [] batch = []
  create_put_operations (key ∷ keys) [] = new_operation key [] ∷ create_put_operations keys []
  create_put_operations (key ∷ keys) (slices ∷ batch) =
      new_operation key slices ∷ create_put_operations keys batch

  abbrev pub slice_lengths : PutOperation F → List ℕ
  slice_lengths op = map (λ (s : Slice). s.size) op.slices

  -- The loop over the responses of BatchPutStart.
  unfoldable pub apply_start :
      List (Expected (List ReplicaDescriptor)) → List (PutOperation F) → List (PutOperation F)
  apply_start [] ops = ops
  apply_start (response ∷ responses) [] = []
  apply_start (err code ∷ responses) (op ∷ ops) = set_error code op ∷ apply_start responses ops
  apply_start (ok replicas ∷ responses) (op ∷ ops) =
      record op { replicas = replicas } ∷ apply_start responses ops

  -- The first loop of FinalizeBatchPut.
  abbrev pub verdict : PutOperation F → Verdict
  verdict op =
      if not (is_resolved op) && not (is_empty op.replicas) && not (is_empty op.pending_transfers)
      then to_end
      else if is_resolved op && not (is_empty op.replicas)
      then to_revoke
      else to_leave

  abbrev pub keys_to_end : List (PutOperation F) → List String
  keys_to_end [] = []
  keys_to_end (op ∷ ops) = elim (verdict op) [
    | to_end ↦ op.key ∷ keys_to_end ops
    | _ ↦ keys_to_end ops
  ]

  abbrev pub keys_to_revoke : List (PutOperation F) → List String
  keys_to_revoke [] = []
  keys_to_revoke (op ∷ ops) = elim (verdict op) [
    | to_revoke ↦ op.key ∷ keys_to_revoke ops
    | _ ↦ keys_to_revoke ops
  ]

  -- The responses of BatchPutEnd, to the operations that were asked to end, in their order.
  unfoldable pub apply_end : List (Expected Void) → List (PutOperation F) → List (PutOperation F)
  apply_end responses [] = []
  apply_end [] (op ∷ ops) = op ∷ ops
  apply_end (response ∷ responses) (op ∷ ops) =
      let ended = apply_end responses ops in
      let passed = apply_end (response ∷ responses) ops in
      elim (verdict op) [
        | to_end ↦ elim response [
          | err code ↦ set_error code op ∷ ended
          | ok done ↦ set_success op ∷ ended
        ]
        | _ ↦ op ∷ passed
      ]

  unfoldable pub fail_ended : List (PutOperation F) → List (PutOperation F)
  fail_ended [] = []
  fail_ended (op ∷ ops) =
      elim (verdict op) [ to_end ↦ set_error rpc_fail op | _ ↦ op ] ∷ fail_ended ops

  -- The operations that were asked to be revoked, by what they were before; `now` is what they are.
  unfoldable pub fail_revoked :
      List (PutOperation F) → List (PutOperation F) → List (PutOperation F)
  fail_revoked [] now = now
  fail_revoked (op ∷ ops) [] = []
  fail_revoked (op ∷ ops) (op' ∷ now) =
      elim (verdict op) [ to_revoke ↦ set_error rpc_fail op' | _ ↦ op' ] ∷ fail_revoked ops now

  -- The last loop of FinalizeBatchPut.
  abbrev pub resolve : PutOperation F → PutOperation F
  resolve op = if is_resolved op then op else set_error internal_error op

  -- CollectResults: an object that exists already is no error.
  abbrev pub collect_result : PutOperation F → Expected Void
  collect_result op = elim op.result [
    | ok done ↦ ok done
    | err object_already_exists ↦ ok tt
    | err code ↦ err code
  ]
