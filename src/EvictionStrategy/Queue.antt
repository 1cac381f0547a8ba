-- ===== src/EvictionStrategy/Queue.antt =====
-- What the first-in-first-out strategy does: a queue of keys, which RemoveKey does not reach, since
-- AddKey never records an iterator.
use mooncake.Prelude.{
  String, ◌≡◌, refl, ◌∙◌, ap, ap₂, none, some, List, [], ◌∷◌, string_eq, inl, inr, Option-cases,
}
use mooncake.Prelude.Dict.{find}
use mooncake.Types.{ok_code}
use mooncake.EvictionStrategy.{
  EvictionStrategy, Call, add, update, remove, evict, clean, Answer, code, key, nothing, back,
  pop_back, push_front, remove_key, clean_up, init,
}
use mooncake.EvictionStrategy.Fifo.{add_key, update_key, evict_key, step, run}
use mooncake.EvictionStrategy.Nodes.{listed, back-listed, pop_back-listed}

unfoldable pub queue_step : Call → List String → Answer × List String
queue_step (add k) ks = (code ok_code, k ∷ ks)
queue_step (update k) ks = (code ok_code, ks)
queue_step (remove k) ks = (code ok_code, ks)
queue_step evict ks = elim (back ks) [ none ↦ (key "", ks) | some k ↦ (key k, pop_back ks) ]
queue_step clean ks = (nothing, [])

unfoldable pub queue_run : List Call → List String → List Answer × List String
unfolding queue_step
queue_run [] ks = ([], ks)
queue_run (c ∷ cs) ks =
    let (a, ks') = queue_step c ks in let (as', ks'') = queue_run cs ks' in (a ∷ as', ks'')

keys_of : EvictionStrategy → List String
keys_of s = listed s.all_key_list

abbrev Agrees : Answer × EvictionStrategy → Answer × List String → Type 0
Agrees (a, s) (b, ks) = (s.all_key_idx_map ≡ []) × (a ≡ b) × (listed s.all_key_list ≡ ks)

evict-Agrees :
    (s : EvictionStrategy)
    → s.all_key_idx_map ≡ []
    → Agrees (step evict s) (queue_step evict (keys_of s))
unfolding step evict_key queue_step keys_of
evict-Agrees s w = elim (Option-cases (back s.all_key_list)) [
  | inl empty ↦
      let empty' = rw (empty) at (back-listed s.all_key_list) in
      rw (empty', empty, evict_key, queue_step) (w, refl, refl)
  | inr ((i, k), last) ↦
      let last' = rw (last) at (back-listed s.all_key_list) in
      rw (last', last, evict_key, queue_step) (w, refl, pop_back-listed s.all_key_list)
]

remove_unindexed :
    (k : String) (s : EvictionStrategy) → s.all_key_idx_map ≡ [] → remove_key k s ≡ (ok_code, s)
unfolding remove_key find
remove_unindexed k s w =
    let absent : find k s.all_key_idx_map ≡ none = rw (w) refl in rw (absent, remove_key) refl

step-Agrees :
    (c : Call) (s : EvictionStrategy)
    → s.all_key_idx_map ≡ []
    → Agrees (step c s) (queue_step c (keys_of s))
unfolding step add_key push_front update_key clean_up queue_step listed keys_of
step-Agrees (add k) s w = (w, refl, refl)
step-Agrees (update k) s w = (w, refl, refl)
step-Agrees (remove k) s w = rw (remove_unindexed k s w) (w, refl, refl)
step-Agrees evict s w = evict-Agrees s w
step-Agrees clean s w = (refl, refl, refl)

run-Agrees :
    (cs : List Call) (s : EvictionStrategy)
    → s.all_key_idx_map ≡ []
    → ((run cs s).1.all_key_idx_map ≡ [])
      × ((run cs s).0 ≡ (queue_run cs (keys_of s)).0)
      × (keys_of (run cs s).1 ≡ (queue_run cs (keys_of s)).1)
unfolding run queue_run keys_of
run-Agrees [] s w = (w, refl, refl)
run-Agrees (c ∷ cs) s w =
    let (w', answer, left) = step-Agrees c s w in
    let (w'', answers, left') = run-Agrees cs (step c s).1 w' in
    (
      w'',
      ap₂ ◌∷◌ answer (answers ∙ ap (λ ks. (queue_run cs ks).0) left),
      left' ∙ ap (λ ks. (queue_run cs ks).1) left,
    )

-- After any calls on a new strategy, the FIFO strategy has given the answers of a queue from which
-- keys leave in the order they were added in, and its keys are those of the queue. A call of
-- RemoveKey then answers OK and leaves the strategy as it was, whatever the key.
pub fifo-refines_queue :
    (cs : List Call)
    → ((run cs init).0 ≡ (queue_run cs []).0)
      × (listed (run cs init).1.all_key_list ≡ (queue_run cs []).1)
      × ((k : String) → remove_key k (run cs init).1 ≡ (ok_code, (run cs init).1))
unfolding keys_of listed
fifo-refines_queue cs =
    let (unindexed, answers, left) = run-Agrees cs init refl in
    (answers, left, λ k. remove_unindexed k (run cs init).1 unindexed)
