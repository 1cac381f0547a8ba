-- ===== src/Client/Settle.antt =====
-- After WaitForTransfers an operation with replicas will be ended or revoked, and ended only if all
-- its transfers have succeeded.
use mooncake.Prelude.{
  ◌≡◌, ◌≢◌, refl, ap, ◌∙◌, sym, subst, true, false, none, List, [], ◌∷◌, arith, is_empty,
  Bool-cases, Option-cases, inl, inr,
}
use mooncake.Types.{is_ok, ErrorCode, ok_code, internal_error}
use mooncake.Client.{PutOperation, Services, to_end, to_leave, verdict, is_resolved, set_error}
use mooncake.Client.Pipeline.{await, wait_operation, wait_for_transfers, each_operation}

module _ {F : Type 0} where
  judge_resolved :
      (op : PutOperation F)
      → is_resolved op ≡ true
      → is_empty op.replicas ≡ false
      → verdict op ≢ to_leave
  judge_resolved op h k left = ground arith

  no_end_resolved : (op : PutOperation F) → is_resolved op ≡ true → verdict op ≢ to_end
  no_end_resolved op h end = ground arith

  judge_waiting :
      (op : PutOperation F)
      → is_resolved op ≡ false
      → is_empty op.replicas ≡ false
      → is_empty op.pending_transfers ≡ false
      → verdict op ≢ to_leave
  judge_waiting op h k l left = ground arith

  pub set_error-resolved :
      (code : ErrorCode) (op : PutOperation F) → is_resolved (set_error code op) ≡ true
  set_error-resolved code op = elim (Bool-cases (is_empty op.replicas)) [
    | inl e ↦ rw (e) refl
    | inr e ↦ elim (Bool-cases (is_empty op.pending_transfers)) [
      | inl f ↦ rw (e, f) refl
      | inr f ↦ rw (e, f) refl
    ]
  ]

module _ {W F : Type 0} (env : Services W F) where
  -- Every one of these transfers returns OK.
  abbrev pub AllSucceed : W → List F → Type 0
  AllSucceed w [] = Unit
  AllSucceed w (future ∷ futures) =
      ((env.get w future).0 ≡ ok_code) × AllSucceed (env.get w future).1 futures

  pub record IsSettled (w : W) (op op' : PutOperation F) : Type 0 where
    pub same_key : op'.key ≡ op.key
    pub same_replicas : op'.replicas ≡ op.replicas
    pub judged : is_empty op.replicas ≡ false → verdict op' ≢ to_leave
    pub ended :
        verdict op' ≡ to_end
        → AllSucceed w op.pending_transfers × (is_empty op.pending_transfers ≡ false)

  -- Each operation with what has become of it, in the world that it has waited in.
  abbrev pub AllSettled : W → List (PutOperation F) → List (PutOperation F) → Type 0
  AllSettled w [] ops' = ops' ≡ []
  AllSettled w (op ∷ ops) [] = ⊥
  AllSettled w (op ∷ ops) (op' ∷ ops') =
      IsSettled w op op' × AllSettled (wait_operation env w op).1 ops ops'

  is_ok_inv : (code : ErrorCode) → is_ok code ≡ true → code ≡ ok_code
  is_ok_inv ok_code h = refl
  is_ok_inv _ h = cc

  await-AllSucceed :
      (w : W) (futures : List F) → (await env w futures).0 ≡ none → AllSucceed w futures
  unfolding await
  await-AllSucceed w [] h = tt
  await-AllSucceed w (future ∷ futures) h = elim (Bool-cases (is_ok (env.get w future).0)) [
    | inl good ↦ (
      is_ok_inv (env.get w future).0 good,
      await-AllSucceed (env.get w future).1 futures (rw (good) at h),
    )
    | inr bad ↦ let h' = rw (bad) at h in cc
  ]

  resolved-IsSettled :
      (w : W) (op op' : PutOperation F)
      → op'.key ≡ op.key
      → op'.replicas ≡ op.replicas
      → is_resolved op' ≡ true
      → IsSettled w op op'
  resolved-IsSettled w op op' key replicas resolved = record {
    same_key = key;
    same_replicas = replicas;
    judged = λ some_replicas left.
        judge_resolved op' resolved (ap is_empty replicas ∙ some_replicas) left;
    ended = λ end. absurd (no_end_resolved op' resolved end);
  }

  wait_operation-IsSettled :
      (w : W) (op : PutOperation F) → IsSettled w op (wait_operation env w op).0
  unfolding wait_operation
  wait_operation-IsSettled w op = elim (Bool-cases (is_resolved op)) [
    | inl resolved ↦ rw (resolved, wait_operation) (resolved-IsSettled w op op refl refl resolved)
    | inr unresolved ↦ elim (Bool-cases (is_empty op.pending_transfers)) [
      | inl nothing ↦
          let gives : wait_operation env w op ≡ (set_error internal_error op, w) =
            simp (unresolved, nothing, wait_operation) refl in
          subst (λ (x : PutOperation F × W). IsSettled w op x.0) (sym gives)
            (resolved-IsSettled w op (set_error internal_error op) refl refl
              (set_error-resolved internal_error op))
      | inr waiting ↦ elim (Option-cases (await env w op.pending_transfers).0) [
        | inl good ↦
            simp (unresolved, waiting, good, wait_operation)
              (record {
                same_key = refl;
                same_replicas = refl;
                judged =
                    λ some_replicas left. judge_waiting op unresolved some_replicas waiting left;
                ended = λ end. (await-AllSucceed w op.pending_transfers good, waiting);
              })
        | inr (code, bad) ↦
            let gives : (wait_operation env w op).0 ≡ set_error code op =
              simp (unresolved, waiting, bad, wait_operation) refl in
            subst (IsSettled w op) (sym gives)
              (resolved-IsSettled w op (set_error code op) refl refl (set_error-resolved code op))
      ]
    ]
  ]

  each_operation-AllSettled :
      (w : W) (ops : List (PutOperation F))
      → AllSettled w ops (each_operation env (wait_operation env) w ops).0
  unfolding each_operation
  each_operation-AllSettled w [] = refl
  each_operation-AllSettled w (op ∷ ops) =
      (wait_operation-IsSettled w op, each_operation-AllSettled (wait_operation env w op).1 ops)

  -- After WaitForTransfers, for each operation: if it has replicas, FinalizeBatchPut will end or revoke
  -- it, and it will end it only if at least one transfer was pending and all of them, waited for in
  -- their order, have returned OK.
  pub wait_for_transfers-AllSettled :
      (w : W) (ops : List (PutOperation F)) → AllSettled w ops (wait_for_transfers env w ops).0
  unfolding wait_for_transfers
  wait_for_transfers-AllSettled w ops = each_operation-AllSettled w ops
