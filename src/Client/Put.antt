-- ===== src/Client/Put.antt =====
-- mooncake-store/src/client.cpp: BatchPut.
use mooncake.Prelude.{String, List, if◌then◌else◌, map, length, nat_beq, replicate}
use mooncake.Types.{Expected, Void, err, invalid_params, ReplicateConfig, Slice}
use mooncake.Client.{Services, create_put_operations, collect_result}
use mooncake.Client.Pipeline.{
  start_batch_put, submit_transfers, wait_for_transfers, finalize_batch_put,
}
use mooncake.Client.SameNode.{batch_put_when_prefer_same_node}

module _ {W F : Type 0} (env : Services W F) where
  -- BatchPut
  unfoldable pub batch_put :
      W → List String → List (List Slice) → ReplicateConfig → List (Expected Void) × W
  unfolding create_put_operations start_batch_put submit_transfers wait_for_transfers
      finalize_batch_put batch_put_when_prefer_same_node
  batch_put w keys batch config =
      let (started, w1) = start_batch_put env w (create_put_operations keys batch) config in
      let (submitted, w2) = submit_transfers env w1 started in
      let (waited, w3) = wait_for_transfers env w2 submitted in
      let (finalized, w4) = finalize_batch_put env w3 waited in
      if config.prefer_alloc_in_same_node
      then (if nat_beq config.replica_num 1
          then batch_put_when_prefer_same_node env w1 started
          else (replicate (length keys) (err invalid_params), w))
      else (map collect_result finalized, w4)
