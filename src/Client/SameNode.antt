-- ===== src/Client/SameNode.antt =====
-- mooncake-store/src/client.cpp: BatchPutWhenPreferSameNode, which submits one transfer for all the
-- operations that have their replica in the same segment. An access by `at` of a missing segment, which
-- throws, does not come about.
use mooncake.Prelude.{String, none, some, List, [], ◌∷◌, ◌++◌, if◌then◌else◌, map, string_eq}
use mooncake.Prelude.Dict.{Dict, find, put}
use mooncake.Types.{Expected, Void, ok, err, internal_error, invalid_params, transfer_fail}
use mooncake.Replica.{ReplicaDescriptor, memory_descriptor, disk_descriptor}
use mooncake.Client.{PutOperation, Services, new_operation, is_resolved, set_error, collect_result}
use mooncake.Client.Pipeline.{each_operation, wait_for_transfers, finalize_batch_put}

-- The segment of a replica in memory: that of its first buffer.
unfoldable pub segment_of : ReplicaDescriptor → Expected String
segment_of r = elim r.variant [
  | disk_descriptor path size ↦ err invalid_params
  | memory_descriptor [] ↦ err invalid_params
  | memory_descriptor (handle ∷ handles) ↦ ok handle.transport_endpoint
]

abbrev pub values : {V : Type 0} → Dict String V → List V
values [] = []
values ((k, v) ∷ m) = v ∷ values m

module _ {F : Type 0} where
  -- The segment of the first replica, with that replica.
  unfoldable pub first_segment : PutOperation F → Expected (String × ReplicaDescriptor)
  unfolding segment_of
  first_segment op = elim op.replicas [
    | [] ↦ err internal_error
    | r ∷ replicas ↦ elim (segment_of r) [ err code ↦ err code | ok segment ↦ ok (segment, r) ]
  ]

  -- The first loop: what it does to an operation, and to `seg_to_ops`.
  unfoldable pub check_segment : PutOperation F → PutOperation F
  unfolding first_segment
  check_segment op =
      if is_resolved op
      then op
      else elim (first_segment op) [ err code ↦ set_error code op | ok target ↦ op ]

  abbrev pub join_group : PutOperation F → ReplicaDescriptor → PutOperation F → PutOperation F
  join_group op r group = record group {
    batched_slices = group.batched_slices ++ op.slices ∷ [];
    replicas = group.replicas ++ r ∷ [];
  }

  unfoldable pub enter_group :
      PutOperation F → Dict String (PutOperation F) → Dict String (PutOperation F)
  unfolding first_segment
  enter_group op groups = if is_resolved op then groups else elim (first_segment op) [
    | err code ↦ groups
    | ok (segment, r) ↦ elim (find segment groups) [
      | none ↦ put segment (join_group op r (new_operation op.key op.slices)) groups
      | some group ↦ put segment (join_group op r group) groups
    ]
  ]

  unfoldable pub group_operations :
      List (PutOperation F) → Dict String (PutOperation F) → Dict String (PutOperation F)
  unfolding enter_group
  group_operations [] groups = groups
  group_operations (op ∷ ops) groups = group_operations ops (enter_group op groups)

  -- The loop after WaitForTransfers: each group takes the state of its transfer.
  unfoldable pub note_states :
      List (PutOperation F) → Dict String (PutOperation F) → Dict String (PutOperation F)
  unfolding first_segment
  note_states [] groups = groups
  note_states (op ∷ ops) groups = note_states ops (elim (first_segment op) [
    | err code ↦ groups
    | ok (segment, r) ↦ elim (find segment groups) [
      | none ↦ groups
      | some group ↦ put segment (record group { state = op.state }) groups
    ]
  ])

  -- The last loop: each operation takes the state of its group.
  unfoldable pub take_state : F → Dict String (PutOperation F) → PutOperation F → PutOperation F
  unfolding first_segment
  take_state empty_future groups op = if is_resolved op then op else elim (first_segment op) [
    | err code ↦ op
    | ok (segment, r) ↦ elim (find segment groups) [
      | none ↦ op
      | some group ↦ record op {
        state = group.state;
        pending_transfers = op.pending_transfers ++ empty_future ∷ [];
      }
    ]
  ]

module _ {W F : Type 0} (env : Services W F) where
  -- The loop over `seg_to_ops`.
  unfoldable pub submit_group : W → PutOperation F → PutOperation F × W
  submit_group w group =
      let merged = record (new_operation group.key group.slices) { replicas = group.replicas } in
      let (submitted, w') = env.submit_batch w group.replicas group.batched_slices in
      elim submitted [
        | none ↦ (record (set_error transfer_fail merged) { pending_transfers = [] }, w')
        | some future ↦ (record merged { pending_transfers = future ∷ [] }, w')
      ]

  -- BatchPutWhenPreferSameNode, up to FinalizeBatchPut
  unfoldable pub transfer_same_node : W → List (PutOperation F) → List (PutOperation F) × W
  unfolding check_segment group_operations submit_group note_states take_state
  transfer_same_node w ops =
      let groups = group_operations ops [] in
      let (merged, w1) = each_operation env (submit_group) w (values groups) in
      let (waited, w2) = wait_for_transfers env w1 merged in
      (map (take_state env.empty_future (note_states waited groups)) (map check_segment ops), w2)

  -- BatchPutWhenPreferSameNode
  unfoldable pub batch_put_when_prefer_same_node :
      W → List (PutOperation F) → List (Expected Void) × W
  unfolding transfer_same_node
  batch_put_when_prefer_same_node w ops =
      let (transferred, w1) = transfer_same_node w ops in
      let (finalized, w2) = finalize_batch_put env w1 transferred in
      (map collect_result finalized, w2)
