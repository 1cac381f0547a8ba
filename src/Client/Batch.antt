-- ===== src/Client/Batch.antt =====
-- The stages of BatchPut up to FinalizeBatchPut keep the operations with their keys, and report none of
-- them as done.
use mooncake.Prelude.{
  String, ◌≡◌, refl, ap, ap₂, true, false, Bool, Option, none, some, List, [], ◌∷◌, is_empty,
  nat_beq, length, map, if◌then◌else◌,
}
use mooncake.Types.{
  ErrorCode, Expected, ok, err, rpc_fail, internal_error, invalid_params, transfer_fail,
  ReplicateConfig, Slice,
}
use mooncake.Replica.{ReplicaDescriptor}
use mooncake.Client.{
  PutOperation, Services, is_resolved, set_error, create_put_operations, apply_start, slice_lengths,
}
use mooncake.Client.Pipeline.{
  start_batch_put, submit_replicas, put_disk_replica, submit_operation, each_operation,
  submit_transfers, await, wait_operation, wait_for_transfers,
}
use mooncake.Client.Answers.{IsUnfinished, AllUnfinished, set_error-fails}

module _ {F : Type 0} where
  pub set_error-IsUnfinished :
      (code : ErrorCode) (op : PutOperation F) → IsUnfinished (set_error code op)
  set_error-IsUnfinished code op = record {
    not_success = set_error-fails code op;
    code = code;
    reported = refl;
  }

  apply_start-AllUnfinished :
      (responses : List (Expected (List ReplicaDescriptor))) (ops : List (PutOperation F))
      → AllUnfinished ops
      → AllUnfinished (apply_start responses ops)
  unfolding apply_start
  apply_start-AllUnfinished [] ops u = u
  apply_start-AllUnfinished (r ∷ responses) [] u = tt
  apply_start-AllUnfinished (err code ∷ responses) (op ∷ ops) u =
      (set_error-IsUnfinished code op, apply_start-AllUnfinished responses ops u.1)
  apply_start-AllUnfinished (ok replicas ∷ responses) (op ∷ ops) u = (
    record { not_success = u.0.not_success; code = u.0.code; reported = u.0.reported },
    apply_start-AllUnfinished responses ops u.1,
  )

  map-set_error-AllUnfinished :
      (code : ErrorCode) (ops : List (PutOperation F)) → AllUnfinished (map (set_error code) ops)
  map-set_error-AllUnfinished code [] = tt
  map-set_error-AllUnfinished code (op ∷ ops) =
      (set_error-IsUnfinished code op, map-set_error-AllUnfinished code ops)

  abbrev pub keys_of : List (PutOperation F) → List String
  keys_of ops = map (λ (op : PutOperation F). op.key) ops

  keys_of-apply_start :
      (responses : List (Expected (List ReplicaDescriptor))) (ops : List (PutOperation F))
      → keys_of (apply_start responses ops) ≡ keys_of ops
  unfolding apply_start
  keys_of-apply_start [] ops = refl
  keys_of-apply_start (r ∷ responses) [] = refl
  keys_of-apply_start (err code ∷ responses) (op ∷ ops) =
      ap (◌∷◌ op.key) (keys_of-apply_start responses ops)
  keys_of-apply_start (ok replicas ∷ responses) (op ∷ ops) =
      ap (◌∷◌ op.key) (keys_of-apply_start responses ops)

  keys_of-set_error :
      (code : ErrorCode) (ops : List (PutOperation F))
      → keys_of (map (set_error code) ops) ≡ keys_of ops
  keys_of-set_error code [] = refl
  keys_of-set_error code (op ∷ ops) = ap (◌∷◌ op.key) (keys_of-set_error code ops)

  -- Nothing is reported as done, and the operations have the keys that they had.
  abbrev pub IsOngoing : List (PutOperation F) → List (PutOperation F) → Type 0
  IsOngoing ops ops' = AllUnfinished ops' × (keys_of ops' ≡ keys_of ops)

-- What holds of both branches holds of the conditional.
pub if_keeps :
    {A : Type 0} (P : A → Type 0) (b : Bool) (x y : A) → P x → P y → P (if b then x else y)
if_keeps P true x y p q = p
if_keeps P false x y p q = q

pub create_put_operations-AllUnfinished :
    (F : Type 0) (keys : List String) (batch : List (List Slice))
    → AllUnfinished {F = F} (create_put_operations keys batch)
unfolding create_put_operations
create_put_operations-AllUnfinished F [] batch = tt
create_put_operations-AllUnfinished F (key ∷ keys) [] = (
  record { not_success = refl; code = internal_error; reported = refl },
  create_put_operations-AllUnfinished F keys [],
)
create_put_operations-AllUnfinished F (key ∷ keys) (slices ∷ batch) = (
  record { not_success = refl; code = internal_error; reported = refl },
  create_put_operations-AllUnfinished F keys batch,
)

pub keys_of-create_put_operations :
    (F : Type 0) (keys : List String) (batch : List (List Slice))
    → keys_of (create_put_operations {F = F} keys batch) ≡ keys
unfolding create_put_operations
keys_of-create_put_operations F [] batch = refl
keys_of-create_put_operations F (key ∷ keys) [] =
    ap (◌∷◌ key) (keys_of-create_put_operations F keys [])
keys_of-create_put_operations F (key ∷ keys) (slices ∷ batch) =
    ap (◌∷◌ key) (keys_of-create_put_operations F keys batch)

module _ {W F : Type 0} (env : Services W F) where
  -- A body of a loop that reports nothing as done and keeps the key.
  abbrev pub KeepsGoing : (W → PutOperation F → PutOperation F × W) → Type 0
  KeepsGoing body =
      (w : W) (op : PutOperation F)
      → IsUnfinished op
      → IsUnfinished (body w op).0 × ((body w op).0.key ≡ op.key)

  pub each_operation-IsOngoing :
      (body : W → PutOperation F → PutOperation F × W)
      → KeepsGoing body
      → (w : W) (ops : List (PutOperation F)) → AllUnfinished ops
      → IsOngoing ops (each_operation env body w ops).0
  unfolding each_operation
  each_operation-IsOngoing body keep w [] u = (tt, refl)
  each_operation-IsOngoing body keep w (op ∷ ops) u =
      let (one, same) = keep w op u.0 in
      let (rest, n) = each_operation-IsOngoing body keep (body w op).1 ops u.1 in
      ((one, rest), ap₂ ◌∷◌ same n)

  submit_operation-IsUnfinished : KeepsGoing (submit_operation env)
  unfolding submit_operation
  submit_operation-IsUnfinished w op u =
      let P = λ (x : PutOperation F × W). IsUnfinished x.0 × (x.0.key ≡ op.key) in
      let w1 = if env.has_storage_backend then (put_disk_replica env w op op.replicas).1 else w in
      let (sent_all, futures, w2) =
        submit_replicas env w1 op.slices op.replicas op.pending_transfers in
      let op' = record op { pending_transfers = futures } in
      let empty : PutOperation F × W = (set_error internal_error op, w) in
      let sent : PutOperation F × W = (op', w2) in
      let refused : PutOperation F × W =
        (record (set_error transfer_fail op') { pending_transfers = [] }, w2) in
      let rest = if sent_all then sent else refused in
      let kept : P sent =
        (record { not_success = u.not_success; code = u.code; reported = u.reported }, refl) in
      let failed : P refused = (
        record {
          not_success = set_error-fails transfer_fail op';
          code = transfer_fail;
          reported = refl;
        },
        refl,
      ) in
      if_keeps P (is_resolved op) (op, w) (if is_empty op.replicas then empty else rest) (u, refl)
        (if_keeps P (is_empty op.replicas) empty rest
          (set_error-IsUnfinished internal_error op, refl)
          (if_keeps P sent_all sent refused kept failed))

  wait_operation-IsUnfinished : KeepsGoing (wait_operation env)
  unfolding wait_operation
  wait_operation-IsUnfinished w op u =
      let P = λ (x : PutOperation F × W). IsUnfinished x.0 × (x.0.key ≡ op.key) in
      let (first_error, w') = await env w op.pending_transfers in
      let empty : PutOperation F × W = (set_error internal_error op, w) in
      let judged : Option ErrorCode → PutOperation F × W =
        λ e. elim e [ none ↦ (op, w') | some code ↦ (set_error code op, w') ] in
      let waited : (e : Option ErrorCode) → P (judged e) = λ e. elim e as (λ x. P (judged x)) [
        | none ↦ (u, refl)
        | some code ↦ (set_error-IsUnfinished code op, refl)
      ] in
      if_keeps P (is_resolved op) (op, w)
        (if is_empty op.pending_transfers then empty else judged first_error) (u, refl)
        (if_keeps P (is_empty op.pending_transfers) empty (judged first_error)
          (set_error-IsUnfinished internal_error op, refl) (waited first_error))

  pub start_batch_put-IsOngoing :
      (w : W) (ops : List (PutOperation F)) (config : ReplicateConfig)
      → AllUnfinished ops
      → IsOngoing ops (start_batch_put env w ops config).0
  unfolding start_batch_put
  start_batch_put-IsOngoing w ops config u =
      let (responses, w') =
        env.batch_put_start w (map (λ (op : PutOperation F). op.key) ops) (map slice_lengths ops)
          config in
      if_keeps (λ (x : List (PutOperation F) × W). IsOngoing ops x.0)
        (nat_beq (length responses) (length ops)) (apply_start responses ops, w')
        (map (set_error rpc_fail) ops, w')
        (apply_start-AllUnfinished responses ops u, keys_of-apply_start responses ops)
        (map-set_error-AllUnfinished rpc_fail ops, keys_of-set_error rpc_fail ops)

  pub submit_transfers-IsOngoing :
      (w : W) (ops : List (PutOperation F))
      → AllUnfinished ops
      → IsOngoing ops (submit_transfers env w ops).0
  unfolding submit_transfers
  submit_transfers-IsOngoing w ops u =
      if_keeps (λ (x : List (PutOperation F) × W). IsOngoing ops x.0) env.has_submitter
        (each_operation env (submit_operation env) w ops) (map (set_error invalid_params) ops, w)
        (each_operation-IsOngoing (submit_operation env) submit_operation-IsUnfinished w ops u)
        (map-set_error-AllUnfinished invalid_params ops, keys_of-set_error invalid_params ops)

  pub wait_for_transfers-IsOngoing :
      (w : W) (ops : List (PutOperation F))
      → AllUnfinished ops
      → IsOngoing ops (wait_for_transfers env w ops).0
  unfolding wait_for_transfers
  wait_for_transfers-IsOngoing w ops u =
      each_operation-IsOngoing (wait_operation env) wait_operation-IsUnfinished w ops u
