-- ===== src/Client/Settled.antt =====
-- The three loops of FinalizeBatchPut, one operation after the other, give each its result.
use mooncake.Prelude.{
  ◌≡◌, refl, sym, ap, ◌∙◌, subst, true, false, Bool, List, [], ◌∷◌, length, map, Bool-cases, inl,
  inr, if◌then◌else◌, arith, subst₂, List-cases, String,
}
use mooncake.Types.{Void, Expected, ok, err, rpc_fail, internal_error}
use mooncake.Client.{
  PutOperation, Verdict, to_end, to_revoke, to_leave, verdict, is_resolved, set_error, set_success,
  apply_end, fail_ended, fail_revoked, resolve, keys_to_end,
}
use mooncake.Client.Answers.{
  Verdict-cases, IsUnfinished, AllUnfinished, answers, IsFinal, AllFinal, failed-IsFinal,
  succeeded-IsFinal, unfinished-IsFinal, left-IsFinal, to_revoke-resolved,
}

module _ {F : Type 0} where
  -- The three loops of FinalizeBatchPut.
  abbrev pub settled :
      Bool → Bool → List (Expected Void) → List (PutOperation F) → List (PutOperation F)
  settled ended revoked responses ops =
      let now = if ended then apply_end responses ops else fail_ended ops in
      map resolve (if revoked then now else fail_revoked ops now)

  -- What becomes of an operation that BatchPutEnd was asked for.
  abbrev ended_by : Bool → Expected Void → PutOperation F → PutOperation F
  ended_by true (ok done) op = set_success op
  ended_by true (err code) op = set_error code op
  ended_by false response op = set_error rpc_fail op

  ended_by-IsFinal :
      (ended : Bool) (response : Expected Void) (op : PutOperation F)
      → IsFinal op (if ended then response else err rpc_fail) (resolve (ended_by ended response op))
  ended_by-IsFinal true (ok done) op = succeeded-IsFinal op done
  ended_by-IsFinal true (err code) op = failed-IsFinal code op op refl
  ended_by-IsFinal false response op = failed-IsFinal rpc_fail op op refl

  revoked-IsFinal :
      (revoked : Bool) (op : PutOperation F)
      → IsUnfinished op
      → is_resolved op ≡ true
      → IsFinal op
          (if revoked then op.result else err rpc_fail)
          (resolve (if revoked then op else set_error rpc_fail op))
  revoked-IsFinal true op u done = unfinished-IsFinal op u done
  revoked-IsFinal false op u done = failed-IsFinal rpc_fail op op refl

  pub apply_end-nothing : (ops : List (PutOperation F)) → apply_end [] ops ≡ ops
  unfolding apply_end
  apply_end-nothing [] = refl
  apply_end-nothing (op ∷ ops) = refl

  -- What the loops do where both requests have got the wrong number of answers, by the verdict.
  abbrev failing_end : Verdict → PutOperation F → PutOperation F
  failing_end v op = elim v [ to_end ↦ set_error rpc_fail op | _ ↦ op ]

  abbrev failing : Verdict → PutOperation F → PutOperation F
  failing v op = elim v [ to_revoke ↦ set_error rpc_fail op | _ ↦ op ]

  -- The loops take the operations one by one.
  settled_end :
      (ended revoked : Bool) (x : Expected Void) (xs : List (Expected Void)) (op : PutOperation F)
      (ops : List (PutOperation F))
      → verdict op ≡ to_end
      → settled ended revoked (x ∷ xs) (op ∷ ops)
        ≡ resolve (ended_by ended x op) ∷ settled ended revoked xs ops
  unfolding apply_end fail_ended fail_revoked
  settled_end true true (ok done) xs op ops v = rw (v, apply_end) refl
  settled_end true true (err code) xs op ops v = rw (v, apply_end) refl
  settled_end true false (ok done) xs op ops v = rw (v, apply_end, v) refl
  settled_end true false (err code) xs op ops v = rw (v, apply_end, v) refl
  settled_end false true x xs op ops v = rw (v) refl
  settled_end false false x xs op ops v =
      ap (λ t. resolve (failing t (failing_end t op)) ∷ settled false false xs ops) v

  settled_unanswered :
      (revoked : Bool) (op : PutOperation F) (ops : List (PutOperation F))
      → verdict op ≡ to_end
      → settled false revoked [] (op ∷ ops)
        ≡ resolve (set_error rpc_fail op) ∷ settled false revoked [] ops
  unfolding fail_ended fail_revoked
  settled_unanswered true op ops v = rw (v) refl
  settled_unanswered false op ops v =
      ap (λ t. resolve (failing t (failing_end t op)) ∷ settled false false [] ops) v

  settled_revoke :
      (ended revoked : Bool) (xs : List (Expected Void)) (op : PutOperation F)
      (ops : List (PutOperation F))
      → verdict op ≡ to_revoke
      → settled ended revoked xs (op ∷ ops)
        ≡ resolve (if revoked then op else set_error rpc_fail op) ∷ settled ended revoked xs ops
  unfolding apply_end fail_ended fail_revoked
  settled_revoke true true [] op ops v = rw (apply_end-nothing ops) refl
  settled_revoke true false [] op ops v = rw (v, apply_end-nothing ops) refl
  settled_revoke true true (x ∷ xs) op ops v = rw (v, apply_end) refl
  settled_revoke true false (x ∷ xs) op ops v = rw (v, apply_end, v) refl
  settled_revoke false true xs op ops v = rw (v) refl
  settled_revoke false false xs op ops v =
      ap (λ t. resolve (failing t (failing_end t op)) ∷ settled false false xs ops) v

  settled_leave :
      (ended revoked : Bool) (xs : List (Expected Void)) (op : PutOperation F)
      (ops : List (PutOperation F))
      → verdict op ≡ to_leave
      → settled ended revoked xs (op ∷ ops) ≡ resolve op ∷ settled ended revoked xs ops
  unfolding apply_end fail_ended fail_revoked
  settled_leave true true [] op ops v = rw (apply_end-nothing ops) refl
  settled_leave true false [] op ops v = rw (v, apply_end-nothing ops) refl
  settled_leave true true (x ∷ xs) op ops v = rw (v, apply_end) refl
  settled_leave true false (x ∷ xs) op ops v = rw (v, apply_end, v) refl
  settled_leave false true xs op ops v = rw (v) refl
  settled_leave false false xs op ops v =
      ap (λ t. resolve (failing t (failing_end t op)) ∷ settled false false xs ops) v

  answers_revoke :
      (ended revoked : Bool) (xs : List (Expected Void)) (op : PutOperation F)
      (ops : List (PutOperation F))
      → verdict op ≡ to_revoke
      → answers ended revoked xs (op ∷ ops)
        ≡ (if revoked then op.result else err rpc_fail) ∷ answers ended revoked xs ops
  answers_revoke ended revoked [] op ops v = rw (v, answers) refl
  answers_revoke ended revoked (x ∷ xs) op ops v = rw (v, answers) refl

  answers_leave :
      (ended revoked : Bool) (xs : List (Expected Void)) (op : PutOperation F)
      (ops : List (PutOperation F))
      → verdict op ≡ to_leave
      → answers ended revoked xs (op ∷ ops)
        ≡ (if is_resolved op then op.result else err internal_error) ∷ answers ended revoked xs ops
  answers_leave ended revoked [] op ops v = rw (v, answers) refl
  answers_leave ended revoked (x ∷ xs) op ops v = rw (v, answers) refl

  -- The keys that BatchPutEnd is asked for, by the first verdict.
  abbrev keys_by : Verdict → PutOperation F → List (PutOperation F) → List String
  keys_by v op ops = elim v [ to_end ↦ op.key ∷ keys_to_end ops | _ ↦ keys_to_end ops ]

  fitting :
      (xs : List (Expected Void)) (op : PutOperation F) (ops : List (PutOperation F)) (v : Verdict)
      → verdict op ≡ v
      → length xs ≡ length (keys_to_end (op ∷ ops))
      → length xs ≡ length (keys_by v op ops)
  fitting xs op ops v e h = h ∙ ap (λ t. length (keys_by t op ops)) e

  answers_end :
      (ended revoked : Bool) (x : Expected Void) (xs : List (Expected Void)) (op : PutOperation F)
      (ops : List (PutOperation F))
      → verdict op ≡ to_end
      → answers ended revoked (x ∷ xs) (op ∷ ops)
        ≡ (if ended then x else err rpc_fail) ∷ answers ended revoked xs ops
  answers_end ended revoked x xs op ops v = rw (v, answers) refl

  answers_unanswered :
      (revoked : Bool) (op : PutOperation F) (ops : List (PutOperation F))
      → verdict op ≡ to_end
      → answers false revoked [] (op ∷ ops) ≡ err rpc_fail ∷ answers false revoked [] ops
  answers_unanswered revoked op ops v = rw (v, answers) refl

  settled_none :
      (ended revoked : Bool) (xs : List (Expected Void))
      → AllFinal {F = F} [] (answers {F = F} ended revoked xs []) (settled ended revoked xs [])
  unfolding apply_end fail_ended fail_revoked
  settled_none true true xs = (refl, refl)
  settled_none true false xs = (refl, refl)
  settled_none false true xs = (refl, refl)
  settled_none false false xs = (refl, refl)

  -- What holds of an operation and of the others holds of all.
  joined :
      (op : PutOperation F) (ops : List (PutOperation F)) (x : Expected Void)
      (xs all : List (Expected Void)) (op' : PutOperation F) (ops' all' : List (PutOperation F))
      → all ≡ x ∷ xs
      → all' ≡ op' ∷ ops'
      → IsFinal op x op'
      → AllFinal ops xs ops'
      → AllFinal (op ∷ ops) all all'
  joined op ops x xs all op' ops' all' e e' one rest =
      subst₂ (AllFinal (op ∷ ops)) (sym e) (sym e') (one, rest)

  -- What the loops leave is final, if BatchPutEnd has given an answer for each key where it counts.
  pub settled-AllFinal :
      (ended revoked : Bool) (xs : List (Expected Void)) (ops : List (PutOperation F))
      → (ended ≡ true → length xs ≡ length (keys_to_end ops))
      → AllUnfinished ops
      → AllFinal ops (answers ended revoked xs ops) (settled ended revoked xs ops)
  settled-AllFinal ended revoked xs [] fits u = settled_none ended revoked xs
  settled-AllFinal ended revoked xs (op ∷ ops) fits u = elim (Verdict-cases (verdict op)) [
    | inr (inl v) ↦
        joined op ops _ _ _ _ _ _ (answers_revoke ended revoked xs op ops v)
          (settled_revoke ended revoked xs op ops v)
          (revoked-IsFinal revoked op u.0 (to_revoke-resolved op v))
          (settled-AllFinal ended revoked xs ops (λ e. fitting xs op ops to_revoke v (fits e)) u.1)
    | inr (inr v) ↦
        joined op ops _ _ _ _ _ _ (answers_leave ended revoked xs op ops v)
          (settled_leave ended revoked xs op ops v) (left-IsFinal op u.0)
          (settled-AllFinal ended revoked xs ops (λ e. fitting xs op ops to_leave v (fits e)) u.1)
    | inl v ↦ elim (List-cases xs) [
      | inr (y, ys, e) ↦
          subst
            (λ l.
              AllFinal (op ∷ ops) (answers ended revoked l (op ∷ ops))
                (settled ended revoked l (op ∷ ops)))
            (sym e)
            (joined op ops _ _ _ _ _ _ (answers_end ended revoked y ys op ops v)
              (settled_end ended revoked y ys op ops v) (ended_by-IsFinal ended y op)
              (settled-AllFinal ended revoked ys ops
                (λ t. let n = fitting xs op ops to_end v (fits t) in omega (arith, n, ap length e))
                u.1))
      | inl e ↦ elim (Bool-cases ended) [
        | inl t ↦
            let n = fitting xs op ops to_end v (fits t) in absurd (omega (arith, n, ap length e))
        | inr f ↦
            subst₂
              (λ b l.
                AllFinal (op ∷ ops) (answers b revoked l (op ∷ ops))
                  (settled b revoked l (op ∷ ops)))
              (sym f) (sym e)
              (joined op ops _ _ _ _ _ _ (answers_unanswered revoked op ops v)
                (settled_unanswered revoked op ops v) (failed-IsFinal rpc_fail op op refl)
                (settled-AllFinal false revoked [] ops (λ t. cc) u.1))
      ]
    ]
  ]
