-- ===== src/Client/Pipeline.antt =====
-- mooncake-store/src/client.cpp: the stages of BatchPut, one after the other.
use mooncake.Prelude.{
  Bool, true, false, Option, none, some, List, [], ◌∷◌, ◌++◌, if◌then◌else◌, map, length, is_empty,
  nat_beq,
}
use mooncake.Types.{
  is_ok, ErrorCode, internal_error, invalid_params, rpc_fail, transfer_fail, ReplicateConfig, Slice,
}
use mooncake.Replica.{ReplicaDescriptor, memory_descriptor, disk_descriptor}
use mooncake.Client.{
  PutOperation, Services, is_resolved, set_error, slice_lengths, apply_start, keys_to_end,
  keys_to_revoke, apply_end, fail_ended, fail_revoked, resolve,
}

module _ {W F : Type 0} (env : Services W F) where
  -- StartBatchPut
  unfoldable pub start_batch_put :
      W → List (PutOperation F) → ReplicateConfig → List (PutOperation F) × W
  unfolding apply_start
  start_batch_put w ops config =
      let (responses, w') =
        env.batch_put_start w (map (λ (op : PutOperation F). op.key) ops) (map slice_lengths ops)
          config in
      if nat_beq (length responses) (length ops)
      then (apply_start responses ops, w')
      else (map (set_error rpc_fail) ops, w')

  -- The search for a disk replica, from the last one, as long as none has been met.
  unfoldable pub put_disk_replica : W → PutOperation F → List ReplicaDescriptor → Bool × W
  put_disk_replica w op [] = (false, w)
  put_disk_replica w op (r ∷ replicas) =
      let (met, w') = put_disk_replica w op replicas in
      if met then (true, w') else elim r.variant [
        | memory_descriptor handles ↦ (false, w')
        | disk_descriptor path size ↦ (true, env.put_to_local_file w' op.key op.slices path size)
      ]

  -- The loop that submits a transfer for each memory replica; false once one is refused.
  unfoldable pub submit_replicas :
      W → List Slice → List ReplicaDescriptor → List F → Bool × List F × W
  submit_replicas w slices [] futures = (true, futures, w)
  submit_replicas w slices (r ∷ replicas) futures = elim r.variant [
    | disk_descriptor path size ↦ submit_replicas w slices replicas futures
    | memory_descriptor handles ↦
        let (submitted, w') = env.submit w r slices in
        elim submitted [
          | none ↦ (false, futures, w')
          | some future ↦ submit_replicas w' slices replicas (futures ++ future ∷ [])
        ]
  ]

  -- The body of SubmitTransfers' loop.
  unfoldable pub submit_operation : W → PutOperation F → PutOperation F × W
  unfolding put_disk_replica submit_replicas
  submit_operation w op =
      let w1 = if env.has_storage_backend then (put_disk_replica w op op.replicas).1 else w in
      let (all_submitted, futures, w2) =
        submit_replicas w1 op.slices op.replicas op.pending_transfers in
      let op' = record op { pending_transfers = futures } in
      if is_resolved op
      then (op, w)
      else if is_empty op.replicas
      then (set_error internal_error op, w)
      else if all_submitted
      then (op', w2)
      else (record (set_error transfer_fail op') { pending_transfers = [] }, w2)

  -- A loop over the operations.
  unfoldable pub each_operation :
      (W → PutOperation F → PutOperation F × W)
      → W
      → List (PutOperation F)
      → List (PutOperation F) × W
  each_operation body w [] = ([], w)
  each_operation body w (op ∷ ops) =
      let (op', w') = body w op in let (ops', w'') = each_operation body w' ops in (op' ∷ ops', w'')

  -- SubmitTransfers
  unfoldable pub submit_transfers : W → List (PutOperation F) → List (PutOperation F) × W
  unfolding submit_operation each_operation
  submit_transfers w ops =
      if env.has_submitter
      then each_operation submit_operation w ops
      else (map (set_error invalid_params) ops, w)

  -- Every transfer is waited for; the first error counts.
  unfoldable pub await : W → List F → Option ErrorCode × W
  await w [] = (none, w)
  await w (future ∷ futures) =
      let (code, w') = env.get w future in
      let (later, w'') = await w' futures in (if is_ok code then later else some code, w'')

  -- The body of WaitForTransfers' loop.
  unfoldable pub wait_operation : W → PutOperation F → PutOperation F × W
  unfolding await
  wait_operation w op =
      let (first_error, w') = await w op.pending_transfers in
      if is_resolved op
      then (op, w)
      else if is_empty op.pending_transfers
      then (set_error internal_error op, w)
      else elim first_error [ none ↦ (op, w') | some code ↦ (set_error code op, w') ]

  -- WaitForTransfers
  unfoldable pub wait_for_transfers : W → List (PutOperation F) → List (PutOperation F) × W
  unfolding wait_operation each_operation
  wait_for_transfers w ops = each_operation wait_operation w ops

  -- BatchPutEnd for the operations whose transfers have succeeded.
  unfoldable pub end_operations : W → List (PutOperation F) → List (PutOperation F) × W
  unfolding apply_end fail_ended
  end_operations w ops =
      let (responses, w') = env.batch_put_end w (keys_to_end ops) in
      if is_empty (keys_to_end ops)
      then (ops, w)
      else if nat_beq (length responses) (length (keys_to_end ops))
      then (apply_end responses ops, w')
      else (fail_ended ops, w')

  -- BatchPutRevoke for the operations that failed with replicas; `now` is what they are by then.
  unfoldable pub revoke_operations :
      W → List (PutOperation F) → List (PutOperation F) → List (PutOperation F) × W
  unfolding fail_revoked
  revoke_operations w ops now =
      let (responses, w') = env.batch_put_revoke w (keys_to_revoke ops) in
      if is_empty (keys_to_revoke ops)
      then (now, w)
      else if nat_beq (length responses) (length (keys_to_revoke ops))
      then (now, w')
      else (fail_revoked ops now, w')

  -- FinalizeBatchPut
  unfoldable pub finalize_batch_put : W → List (PutOperation F) → List (PutOperation F) × W
  unfolding end_operations revoke_operations
  finalize_batch_put w ops =
      let (ended, w') = end_operations w ops in
      let (revoked, w'') = revoke_operations w' ops ended in (map resolve revoked, w'')
