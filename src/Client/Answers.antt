-- ===== src/Client/Answers.antt =====
-- The result that FinalizeBatchPut is to give to each operation, and what becomes of one operation.
use mooncake.Prelude.{
  ◌≡◌, refl, sym, ap, ◌∙◌, subst, true, false, Bool, List, [], ◌∷◌, is_empty, Bool-cases, inl, inr,
  ◌⊎◌, if◌then◌else◌, arith,
}
use mooncake.Types.{Void, ErrorCode, Expected, ok, err, rpc_fail, internal_error}
use mooncake.Client.{
  PutOperation, PutOperationState, success, Verdict, to_end, to_revoke, to_leave, verdict,
  is_resolved, set_error, set_success, resolve,
}
use mooncake.Client.Settle.{set_error-resolved}

abbrev pub is_success : PutOperationState → Bool
is_success success = true
is_success _ = false

abbrev pub is_done : Expected Void → Bool
is_done (ok done) = true
is_done (err code) = false

pub Verdict-cases : (v : Verdict) → (v ≡ to_end) ⊎ ((v ≡ to_revoke) ⊎ (v ≡ to_leave))
Verdict-cases to_end = inl refl
Verdict-cases to_revoke = inr (inl refl)
Verdict-cases to_leave = inr (inr refl)

module _ {F : Type 0} where
  -- Nothing is reported as done yet.
  pub record IsUnfinished (op : PutOperation F) : Type 0 where
    pub not_success : is_success op.state ≡ false
    pub code : ErrorCode
    pub reported : op.result ≡ err code

  abbrev pub AllUnfinished : List (PutOperation F) → Type 0
  AllUnfinished [] = Unit
  AllUnfinished (op ∷ ops) = IsUnfinished op × AllUnfinished ops

  -- The result of each operation, where the master has answered `responses` to BatchPutEnd. The flags
  -- say whether it gave as many answers to BatchPutEnd and to BatchPutRevoke as it was asked for.
  abbrev pub answers :
      Bool → Bool → List (Expected Void) → List (PutOperation F) → List (Expected Void)
  answers ended revoked responses [] = []
  answers ended revoked [] (op ∷ ops) = elim (verdict op) [
    | to_end ↦ err rpc_fail ∷ answers ended revoked [] ops
    | to_revoke ↦ (if revoked then op.result else err rpc_fail) ∷ answers ended revoked [] ops
    | to_leave ↦
        (if is_resolved op then op.result else err internal_error) ∷ answers ended revoked [] ops
  ]
  answers ended revoked (response ∷ responses) (op ∷ ops) = elim (verdict op) [
    | to_end ↦ (if ended then response else err rpc_fail) ∷ answers ended revoked responses ops
    | to_revoke ↦
        (if revoked then op.result else err rpc_fail)
        ∷ answers ended revoked (response ∷ responses) ops
    | to_leave ↦
        (if is_resolved op then op.result else err internal_error)
        ∷ answers ended revoked (response ∷ responses) ops
  ]

  -- The operation `op` has become `op'`, with the result `x`.
  pub record IsFinal (op : PutOperation F) (x : Expected Void) (op' : PutOperation F) : Type 0 where
    pub same_key : op'.key ≡ op.key
    pub resolved : is_resolved op' ≡ true
    pub reported : op'.result ≡ x
    pub state : is_success op'.state ≡ is_done x

  abbrev pub AllFinal :
      List (PutOperation F) → List (Expected Void) → List (PutOperation F) → Type 0
  AllFinal [] xs ops' = (xs ≡ []) × (ops' ≡ [])
  AllFinal (op ∷ ops) [] ops' = ⊥
  AllFinal (op ∷ ops) (x ∷ xs) [] = ⊥
  AllFinal (op ∷ ops) (x ∷ xs) (op' ∷ ops') = IsFinal op x op' × AllFinal ops xs ops'

  pub set_error-fails :
      (code : ErrorCode) (op : PutOperation F) → is_success (set_error code op).state ≡ false
  set_error-fails code op = elim (Bool-cases (is_empty op.replicas)) [
    | inl e ↦ rw (e) refl
    | inr e ↦ elim (Bool-cases (is_empty op.pending_transfers)) [
      | inl f ↦ rw (e, f) refl
      | inr f ↦ rw (e, f) refl
    ]
  ]

  -- An operation that is resolved stays as it is.
  resolved-IsFinal :
      (op op' : PutOperation F) (x : Expected Void)
      → op'.key ≡ op.key
      → is_resolved op' ≡ true
      → op'.result ≡ x
      → is_success op'.state ≡ is_done x
      → IsFinal op x (resolve op')
  resolved-IsFinal op op' x same done reported state =
      let kept : resolve op' ≡ op' = simp (done) refl in
      subst (IsFinal op x) (sym kept)
        (record { same_key = same; resolved = done; reported = reported; state = state })

  pub failed-IsFinal :
      (code : ErrorCode) (op op' : PutOperation F)
      → op'.key ≡ op.key
      → IsFinal op (err code) (resolve (set_error code op'))
  failed-IsFinal code op op' same =
      resolved-IsFinal op (set_error code op') (err code) same (set_error-resolved code op') refl
        (set_error-fails code op')

  pub succeeded-IsFinal :
      (op : PutOperation F) (done : Void) → IsFinal op (ok done) (resolve (set_success op))
  succeeded-IsFinal op done = resolved-IsFinal op (set_success op) (ok done) refl refl refl refl

  pub unfinished-IsFinal :
      (op : PutOperation F)
      → IsUnfinished op
      → is_resolved op ≡ true
      → IsFinal op op.result (resolve op)
  unfinished-IsFinal op u done =
      resolved-IsFinal op op op.result refl done refl (u.not_success ∙ sym (ap is_done u.reported))

  pub left-IsFinal :
      (op : PutOperation F)
      → IsUnfinished op
      → IsFinal op (if is_resolved op then op.result else err internal_error) (resolve op)
  left-IsFinal op u = elim (Bool-cases (is_resolved op)) [
    | inl done ↦
        subst (λ b. IsFinal op (if b then op.result else err internal_error) (resolve op))
          (sym done) (unfinished-IsFinal op u done)
    | inr pending ↦
        let kept : resolve op ≡ set_error internal_error op = simp (pending) refl in
        subst (λ b. IsFinal op (if b then op.result else err internal_error) (resolve op))
          (sym pending)
          (subst (IsFinal op (err internal_error)) (sym kept) (record {
            same_key = refl;
            resolved = set_error-resolved internal_error op;
            reported = refl;
            state = set_error-fails internal_error op;
          }))
  ]

  pub to_revoke-resolved : (op : PutOperation F) → verdict op ≡ to_revoke → is_resolved op ≡ true
  to_revoke-resolved op h = ground arith
