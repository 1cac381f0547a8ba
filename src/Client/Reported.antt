-- ===== src/Client/Reported.antt =====
-- BatchPut from the keys to the results.
use mooncake.Prelude.{
  suc, String, ◌≡◌, refl, sym, ap, ap₂, ◌∙◌, ◌⊎◌, ◌&&◌, not, true, false, Bool, List, [], ◌∷◌, map,
  length, nat_beq, if◌then◌else◌, replicate, inl, inr, subst,
}
use mooncake.Types.{
  Void, Expected, ok, err, invalid_params, object_already_exists, ReplicateConfig, Slice,
}
use mooncake.Client.{
  PutOperation, Services, create_put_operations, collect_result, keys_to_end, keys_to_revoke,
}
use mooncake.Client.Pipeline.{
  start_batch_put, submit_transfers, wait_for_transfers, finalize_batch_put,
}
use mooncake.Client.SameNode.{transfer_same_node, batch_put_when_prefer_same_node}
use mooncake.Client.Put.{batch_put}
use mooncake.Client.Answers.{AllUnfinished, AllFinal, answers}
use mooncake.Client.Report.{asked_end, asked_revoke, fits, finalize_batch_put-IsFinalized}
use mooncake.Client.Batch.{
  keys_of, create_put_operations-AllUnfinished, keys_of-create_put_operations,
  start_batch_put-IsOngoing, submit_transfers-IsOngoing, wait_for_transfers-IsOngoing,
}
use mooncake.Client.Grouped.{transfer_same_node-IsOngoing}

-- An object that exists already is no error.
abbrev pub tolerated : Expected Void → Expected Void
tolerated x = elim x [ ok done ↦ ok done | err object_already_exists ↦ ok tt | err code ↦ err code ]

-- All replicas on one node, and more than one of them or none.
abbrev pub is_refused : ReplicateConfig → Bool
is_refused config = config.prefer_alloc_in_same_node && not (nat_beq config.replica_num 1)

length-map : {A B : Type 0} (f : A → B) (xs : List A) → length (map f xs) ≡ length xs
length-map f [] = refl
length-map f (x ∷ xs) = ap suc (length-map f xs)

module _ {F : Type 0} where
  collected :
      (ops : List (PutOperation F)) (xs : List (Expected Void)) (ops' : List (PutOperation F))
      → AllFinal ops xs ops'
      → (map collect_result ops' ≡ map tolerated xs) × (length xs ≡ length ops)
  collected [] xs ops' (e, e') = rw (e, e') (refl, refl)
  collected (op ∷ ops) [] ops' h = absurd h
  collected (op ∷ ops) (x ∷ xs) [] h = absurd h
  collected (op ∷ ops) (x ∷ xs) (op' ∷ ops') h =
      let (rest, n) = collected ops xs ops' h.1 in
      (ap₂ ◌∷◌ (ap tolerated h.0.reported) rest, ap suc n)

module _ {W F : Type 0} (env : Services W F) where
  -- The operations as they are when FinalizeBatchPut begins, for replicas on the same node or not.
  abbrev pub transferred_by :
      Bool → W → List String → List (List Slice) → ReplicateConfig → List (PutOperation F) × W
  transferred_by same_node w keys batch config =
      let (started, w1) = start_batch_put env w (create_put_operations keys batch) config in
      let (submitted, w2) = submit_transfers env w1 started in
      if same_node then transfer_same_node env w1 started else wait_for_transfers env w2 submitted

  abbrev pub transferred :
      W → List String → List (List Slice) → ReplicateConfig → List (PutOperation F) × W
  transferred w keys batch config =
      transferred_by config.prefer_alloc_in_same_node w keys batch config

  transferred-IsOngoing :
      (same_node : Bool) (w : W) (keys : List String) (batch : List (List Slice))
      (config : ReplicateConfig)
      → AllUnfinished (transferred_by same_node w keys batch config).0
        × (keys_of (transferred_by same_node w keys batch config).0 ≡ keys)
  transferred-IsOngoing true w keys batch config =
      let ops = create_put_operations keys batch in
      let u = create_put_operations-AllUnfinished F keys batch in
      let (started, w1) = start_batch_put env w ops config in
      let (u1, k1) = start_batch_put-IsOngoing env w ops config u in
      let (u2, k2) = transfer_same_node-IsOngoing env w1 started u1 in
      (u2, k2 ∙ k1 ∙ keys_of-create_put_operations F keys batch)
  transferred-IsOngoing false w keys batch config =
      let ops = create_put_operations keys batch in
      let u = create_put_operations-AllUnfinished F keys batch in
      let (started, w1) = start_batch_put env w ops config in
      let (u1, k1) = start_batch_put-IsOngoing env w ops config u in
      let (submitted, w2) = submit_transfers env w1 started in
      let (u2, k2) = submit_transfers-IsOngoing env w1 started u1 in
      let (u3, k3) = wait_for_transfers-IsOngoing env w2 submitted u2 in
      (u3, k3 ∙ k2 ∙ k1 ∙ keys_of-create_put_operations F keys batch)

  -- BatchPut of `keys` has returned `r`, after it had the operations `t` when FinalizeBatchPut began.
  abbrev pub IsBatchPut :
      List String → List (PutOperation F) × W → List (Expected Void) × W → Type 0
  IsBatchPut keys t r =
      let (ops, w0) = t in
      let (ends, w1) = asked_end env w0 ops in
      let (revokes, w2) = asked_revoke env w1 ops in
      (keys_of ops ≡ keys)
      × (length r.0 ≡ length keys)
      × (r.0
          ≡ map tolerated (
              answers (fits env ends (keys_to_end ops)) (fits env revokes (keys_to_revoke ops)) ends
                ops))
      × (r.1 ≡ w2)

  abbrev finished : List (PutOperation F) × W → List (Expected Void) × W
  finished t =
      let (finalized, w1) = finalize_batch_put env t.1 t.0 in (map collect_result finalized, w1)

  finished-IsBatchPut :
      (keys : List String) (t : List (PutOperation F) × W)
      → AllUnfinished t.0
      → keys_of t.0 ≡ keys
      → IsBatchPut keys t (finished t)
  finished-IsBatchPut keys t u same =
      let (ops, w0) = t in
      let (final, world) = finalize_batch_put-IsFinalized env w0 ops u in
      let (ends, w1) = asked_end env w0 ops in
      let (revokes, w2) = asked_revoke env w1 ops in
      let xs =
        answers (fits env ends (keys_to_end ops)) (fits env revokes (keys_to_revoke ops)) ends
          ops in
      let (results, n) = collected ops xs (finalize_batch_put env w0 ops).0 final in
      let count = ap length results ∙ length-map tolerated xs ∙ n in
      (
        same,
        count ∙ sym (length-map (λ (op : PutOperation F). op.key) ops) ∙ ap length same,
        results,
        world,
      )

  -- What BatchPut returns is one of these three.
  chosen :
      {A B : Type 0} (b one : Bool) (x y z r : B) (t u : A) (f : A → B)
      → r ≡ (if b then (if one then x else y) else z)
      → x ≡ f t
      → z ≡ f u
      → (((b && not one) ≡ true) × (r ≡ y))
        ⊎ (((b && not one) ≡ false) × (r ≡ f (if b then t else u)))
  chosen true true x y z r t u f e e_t e_u = inr (refl, e ∙ e_t)
  chosen true false x y z r t u f e e_t e_u = inl (refl, e)
  chosen false one x y z r t u f e e_t e_u = inr (refl, e ∙ e_u)

  batch_put_lem :
      (w : W) (keys : List String) (batch : List (List Slice)) (config : ReplicateConfig)
      → ((is_refused config ≡ true)
          × (batch_put env w keys batch config ≡ (replicate (length keys) (err invalid_params), w)))
        ⊎ ((is_refused config ≡ false)
            × (batch_put env w keys batch config ≡ finished (transferred w keys batch config)))
  unfolding batch_put batch_put_when_prefer_same_node
  batch_put_lem w keys batch config =
      chosen config.prefer_alloc_in_same_node (nat_beq config.replica_num 1) _ _ _ _
        (transferred_by true w keys batch config) (transferred_by false w keys batch config)
        finished refl refl refl

  -- BatchPut refuses replicas on one node unless there is to be one of each object: it then returns
  -- INVALID_PARAMS for each key and asks the master for nothing. Else, whether or not they lie on one
  -- node and whatever the master and the transfers answer, it goes on to FinalizeBatchPut with an
  -- operation for each key, in their order, of which none is reported as done, and returns one result
  -- for each: the answer of BatchPutEnd for one that was to be ended, the error that it had for one that
  -- was to be revoked, RPC_FAIL for these where that request has the wrong number of answers, and for
  -- another the error that it had, or INTERNAL_ERROR; OBJECT_ALREADY_EXISTS counts as OK.
  pub batch_put-IsBatchPut :
      (w : W) (keys : List String) (batch : List (List Slice)) (config : ReplicateConfig)
      → ((is_refused config ≡ true)
          × (batch_put env w keys batch config ≡ (replicate (length keys) (err invalid_params), w)))
        ⊎ ((is_refused config ≡ false)
            × AllUnfinished (transferred w keys batch config).0
            × IsBatchPut keys (transferred w keys batch config) (batch_put env w keys batch config))
  batch_put-IsBatchPut w keys batch config =
      let (u, same) = transferred-IsOngoing config.prefer_alloc_in_same_node w keys batch config in
      let t = transferred w keys batch config in
      elim (batch_put_lem w keys batch config) [
        | inl refused ↦ inl refused
        | inr (taken, e) ↦
            inr (taken, u, subst (IsBatchPut keys t) (sym e) (finished-IsBatchPut keys t u same))
      ]
