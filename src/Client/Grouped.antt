-- ===== src/Client/Grouped.antt =====
-- BatchPutWhenPreferSameNode keeps the operations with their keys up to FinalizeBatchPut, and reports
-- none of them as done.
use mooncake.Prelude.{
  String, ◌≡◌, refl, ap₂, ◌∙◌, some, List, [], ◌∷◌, map, Bool-cases, Option-cases, inl, inr,
  string_eq, ◌==◌, subst,
}
use mooncake.Prelude.Dict.{Dict, find, put}
use mooncake.Types.{Expected-cases, internal_error, transfer_fail}
use mooncake.Client.{PutOperation, Services, new_operation, is_resolved}
use mooncake.Client.Answers.{IsUnfinished, AllUnfinished, set_error-fails}
use mooncake.Client.Batch.{
  IsOngoing, KeepsGoing, set_error-IsUnfinished, each_operation-IsOngoing,
  wait_for_transfers-IsOngoing,
}
use mooncake.Client.Pipeline.{each_operation, wait_for_transfers}
use mooncake.Client.SameNode.{
  values, first_segment, check_segment, enter_group, join_group, group_operations, note_states,
  take_state, submit_group, transfer_same_node,
}

module _ {F : Type 0} where
  put-AllUnfinished :
      (k : String) (g : PutOperation F) (groups : Dict String (PutOperation F))
      → IsUnfinished g
      → AllUnfinished (values groups)
      → AllUnfinished (values (put k g groups))
  unfolding put
  put-AllUnfinished k g [] one all = (one, tt)
  put-AllUnfinished k g ((j, h) ∷ groups) one all = elim (Bool-cases (j == k)) [
    | inl e ↦ rw (e) (one, all.1)
    | inr e ↦ rw (e) (all.0, put-AllUnfinished k g groups one all.1)
  ]

  find-IsUnfinished :
      (k : String) (g : PutOperation F) (groups : Dict String (PutOperation F))
      → AllUnfinished (values groups)
      → find k groups ≡ some g
      → IsUnfinished g
  unfolding find
  find-IsUnfinished k g [] all h = cc
  find-IsUnfinished k g ((j, x) ∷ groups) all h = elim (Bool-cases (j == k)) [
    | inl e ↦
        let same : some x ≡ some g = rw (e) at h in
        let eq : x ≡ g = cc in subst IsUnfinished eq all.0
    | inr e ↦ find-IsUnfinished k g groups all.1 (rw (e) at h)
  ]

  enter_group-AllUnfinished :
      (op : PutOperation F) (groups : Dict String (PutOperation F))
      → AllUnfinished (values groups)
      → AllUnfinished (values (enter_group op groups))
  unfolding enter_group
  enter_group-AllUnfinished op groups all = elim (Bool-cases (is_resolved op)) [
    | inl done ↦ rw (done, enter_group) all
    | inr pending ↦ elim (Expected-cases (first_segment op)) [
      | inr (code, e) ↦ rw (pending, e, enter_group) all
      | inl ((segment, r), e) ↦ elim (Option-cases (find segment groups)) [
        | inl f ↦
            rw (pending, e, f, enter_group)
              (put-AllUnfinished segment (join_group op r (new_operation op.key op.slices)) groups
                (record { not_success = refl; code = internal_error; reported = refl }) all)
        | inr (group, f) ↦
            let u = find-IsUnfinished segment group groups all f in
            rw (pending, e, f, enter_group)
              (put-AllUnfinished segment (join_group op r group) groups
                (record { not_success = u.not_success; code = u.code; reported = u.reported }) all)
      ]
    ]
  ]

  group_operations-AllUnfinished :
      (ops : List (PutOperation F)) (groups : Dict String (PutOperation F))
      → AllUnfinished (values groups)
      → AllUnfinished (values (group_operations ops groups))
  unfolding group_operations
  group_operations-AllUnfinished [] groups all = all
  group_operations-AllUnfinished (op ∷ ops) groups all =
      group_operations-AllUnfinished ops (enter_group op groups)
        (enter_group-AllUnfinished op groups all)

  note_states-AllUnfinished :
      (ops : List (PutOperation F)) (groups : Dict String (PutOperation F))
      → AllUnfinished ops
      → AllUnfinished (values groups)
      → AllUnfinished (values (note_states ops groups))
  unfolding note_states
  note_states-AllUnfinished [] groups u all = all
  note_states-AllUnfinished (op ∷ ops) groups u all = elim (Expected-cases (first_segment op)) [
    | inr (code, e) ↦ rw (e) (note_states-AllUnfinished ops groups u.1 all)
    | inl ((segment, r), e) ↦ elim (Option-cases (find segment groups)) [
      | inl f ↦ rw (e, f) (note_states-AllUnfinished ops groups u.1 all)
      | inr (group, f) ↦
          let g = find-IsUnfinished segment group groups all f in
          let noted = record group { state = op.state } in
          rw (e, f)
            (note_states-AllUnfinished ops (put segment noted groups) u.1 (
              put-AllUnfinished segment noted groups
                (record { not_success = u.0.not_success; code = g.code; reported = g.reported })
                all))
    ]
  ]

  check_segment-IsUnfinished :
      (op : PutOperation F)
      → IsUnfinished op
      → IsUnfinished (check_segment op) × ((check_segment op).key ≡ op.key)
  unfolding check_segment
  check_segment-IsUnfinished op u = elim (Bool-cases (is_resolved op)) [
    | inl done ↦ rw (done, check_segment) (u, refl)
    | inr pending ↦ elim (Expected-cases (first_segment op)) [
      | inr (code, e) ↦ rw (pending, e, check_segment) (set_error-IsUnfinished code op, refl)
      | inl (target, e) ↦ rw (pending, e, check_segment) (u, refl)
    ]
  ]

  take_state-IsUnfinished :
      (empty : F) (groups : Dict String (PutOperation F))
      → AllUnfinished (values groups)
      → (op : PutOperation F) → IsUnfinished op
      → IsUnfinished (take_state empty groups op) × ((take_state empty groups op).key ≡ op.key)
  unfolding take_state
  take_state-IsUnfinished empty groups all op u = elim (Bool-cases (is_resolved op)) [
    | inl done ↦ rw (done, take_state) (u, refl)
    | inr pending ↦ elim (Expected-cases (first_segment op)) [
      | inr (code, e) ↦ rw (pending, e, take_state) (u, refl)
      | inl ((segment, r), e) ↦ elim (Option-cases (find segment groups)) [
        | inl f ↦ rw (pending, e, f, take_state) (u, refl)
        | inr (group, f) ↦
            let g = find-IsUnfinished segment group groups all f in
            rw (pending, e, f, take_state)
              (record { not_success = g.not_success; code = u.code; reported = u.reported }, refl)
      ]
    ]
  ]

  map-IsOngoing :
      (f : PutOperation F → PutOperation F)
      → ((op : PutOperation F) → IsUnfinished op → IsUnfinished (f op) × ((f op).key ≡ op.key))
      → (ops : List (PutOperation F)) → AllUnfinished ops
      → IsOngoing ops (map f ops)
  map-IsOngoing f keep [] u = (tt, refl)
  map-IsOngoing f keep (op ∷ ops) u =
      let (one, same) = keep op u.0 in
      let (rest, n) = map-IsOngoing f keep ops u.1 in ((one, rest), ap₂ ◌∷◌ same n)

module _ {W F : Type 0} (env : Services W F) where
  submit_group-IsUnfinished : KeepsGoing env (submit_group env)
  unfolding submit_group
  submit_group-IsUnfinished w group u =
      elim (Option-cases (env.submit_batch w group.replicas group.batched_slices).0) [
        | inl e ↦
            rw (e, submit_group)
              (
                record {
                  not_success =
                      set_error-fails {F = F} transfer_fail
                        (record (new_operation group.key group.slices) {
                          replicas = group.replicas;
                        });
                  code = transfer_fail;
                  reported = refl;
                },
                refl,
              )
        | inr (future, e) ↦
            rw (e, submit_group)
              (record { not_success = refl; code = internal_error; reported = refl }, refl)
      ]

  pub transfer_same_node-IsOngoing :
      (w : W) (ops : List (PutOperation F))
      → AllUnfinished ops
      → IsOngoing ops (transfer_same_node env w ops).0
  unfolding transfer_same_node
  transfer_same_node-IsOngoing w ops u =
      let groups = group_operations ops [] in
      let grouped = group_operations-AllUnfinished ops [] tt in
      let (merged, w1) = each_operation env (submit_group env) w (values groups) in
      let submitted =
        each_operation-IsOngoing env (submit_group env) submit_group-IsUnfinished w (values groups)
          grouped in
      let (waited, w2) = wait_for_transfers env w1 merged in
      let settled = wait_for_transfers-IsOngoing env w1 merged submitted.0 in
      let noted = note_states-AllUnfinished waited groups settled.0 grouped in
      let checked = map-IsOngoing check_segment check_segment-IsUnfinished ops u in
      let taken =
        map-IsOngoing (take_state env.empty_future (note_states waited groups))
          (take_state-IsUnfinished env.empty_future (note_states waited groups) noted)
          (map check_segment ops) checked.0 in
      (taken.0, taken.1 ∙ checked.1)
