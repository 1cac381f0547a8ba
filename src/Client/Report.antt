-- ===== src/Client/Report.antt =====
-- What FinalizeBatchPut asks the master for, and what it leaves.
use mooncake.Prelude.{
  ◌≡◌, refl, sym, ap, Bool, List, [], ◌∷◌, is_empty, nat_beq, length, Bool-cases, inl, inr,
  if◌then◌else◌, arith, List-cases, String,
}
use mooncake.Types.{Void, Expected}
use mooncake.Client.{
  PutOperation, Services, apply_end, fail_ended, fail_revoked, keys_to_end, keys_to_revoke,
}
use mooncake.Client.Pipeline.{end_operations, revoke_operations, finalize_batch_put}
use mooncake.Client.Answers.{AllUnfinished, answers, AllFinal}
use mooncake.Client.Settled.{apply_end-nothing, settled-AllFinal}

module _ {W F : Type 0} (env : Services W F) where
  -- The request for the operations to end, which is made unless there are none.
  abbrev pub asked_end : W → List (PutOperation F) → List (Expected Void) × W
  asked_end w ops =
      if is_empty (keys_to_end ops) then ([], w) else env.batch_put_end w (keys_to_end ops)

  abbrev pub asked_revoke : W → List (PutOperation F) → List (Expected Void) × W
  asked_revoke w ops =
      if is_empty (keys_to_revoke ops) then ([], w) else env.batch_put_revoke w (keys_to_revoke ops)

  -- There are as many answers as keys.
  abbrev pub fits : List (Expected Void) → List String → Bool
  fits responses keys = nat_beq (length responses) (length keys)

  -- FinalizeBatchPut leaves `ops'` and the state `w'`.
  abbrev pub IsFinalized : W → List (PutOperation F) → List (PutOperation F) → W → Type 0
  IsFinalized w ops ops' w' =
      let (ends, w1) = asked_end w ops in
      let (revokes, w2) = asked_revoke w1 ops in
      AllFinal ops
        (answers (fits ends (keys_to_end ops)) (fits revokes (keys_to_revoke ops)) ends ops) ops'
      × (w' ≡ w2)

  end_operations_lem :
      (w : W) (ops : List (PutOperation F))
      → end_operations env w ops ≡ (
          let (responses, w1) = asked_end w ops in
          (
            if fits responses (keys_to_end ops) then apply_end responses ops else fail_ended ops,
            w1,
          ))
  unfolding end_operations
  end_operations_lem w ops = elim (List-cases (keys_to_end ops)) [
    | inl e ↦ rw (e) (ap (λ l. (l, w)) (sym (apply_end-nothing ops)))
    | inr (key, keys, e) ↦
        elim (Bool-cases (fits (env.batch_put_end w (key ∷ keys)).0 (key ∷ keys))) [
          | inl b ↦ rw (e, b) refl
          | inr b ↦ rw (e, b) refl
        ]
  ]

  revoke_operations_lem :
      (w : W) (ops now : List (PutOperation F))
      → revoke_operations env w ops now ≡ (
          let (responses, w1) = asked_revoke w ops in
          (if fits responses (keys_to_revoke ops) then now else fail_revoked ops now, w1))
  unfolding revoke_operations
  revoke_operations_lem w ops now = elim (List-cases (keys_to_revoke ops)) [
    | inl e ↦ rw (e) refl
    | inr (key, keys, e) ↦
        elim (Bool-cases (fits (env.batch_put_revoke w (key ∷ keys)).0 (key ∷ keys))) [
          | inl b ↦ rw (e, b) refl
          | inr b ↦ rw (e, b) refl
        ]
  ]

  pub finalize_batch_put-IsFinalized :
      (w : W) (ops : List (PutOperation F))
      → AllUnfinished ops
      → IsFinalized w ops (finalize_batch_put env w ops).0 (finalize_batch_put env w ops).1
  unfolding finalize_batch_put
  finalize_batch_put-IsFinalized w ops u =
      let (ends, w1) = asked_end w ops in
      let (revokes, w2) = asked_revoke w1 ops in
      let ended = fits ends (keys_to_end ops) in
      let revoked = fits revokes (keys_to_revoke ops) in
      let final = settled-AllFinal ended revoked ends ops (λ e. ground (arith, e)) u in
      rw (end_operations_lem w ops, revoke_operations_lem w1 ops _) (final, refl)
