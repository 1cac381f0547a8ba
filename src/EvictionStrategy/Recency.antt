-- ===== src/EvictionStrategy/Recency.antt =====
-- What the least-recently-used strategy promises: a list of keys, the last used in front. The list
-- with its iterators behaves as that list, and no iterator that the code follows is dangling.
use mooncake.Prelude.{
  ℕ, ◌≤◌, String, ◌≡◌, refl, false, none, some, List, [], ◌∷◌, arith, if◌then◌else◌, nat_eq,
  string_eq, ◌==◌, ==_refl, erase_first, contains, inl, inr, Option-cases, ap, ap₂, ◌∙◌, sym, subst,
}
use mooncake.Prelude.Dict.{find, erase, find-put, find-erase}
use mooncake.Types.{ok_code}
use mooncake.EvictionStrategy.{
  EvictionStrategy, Call, add, update, remove, evict, clean, Answer, code, key, nothing, back,
  pop_back, push_front, remove_key, clean_up, init,
}
use mooncake.EvictionStrategy.Lru.{push_indexed, add_key, update_key, evict_key, step, run}
use mooncake.EvictionStrategy.Nodes.{
  node_of, IsPaired, listed, listed-erase, node_of-erase, erase-IsPaired, node_of-back, back-listed,
  pop_back-listed, contains-listed, contains-listed_some, find-erase_absent,
}

abbrev pub to_front : String → List String → List String
to_front k ks = k ∷ erase_first k ks

unfoldable pub recency_step : Call → List String → Answer × List String
recency_step (add k) ks = (code ok_code, to_front k ks)
recency_step (update k) ks = (code ok_code, if contains ks k then to_front k ks else ks)
recency_step (remove k) ks = (code ok_code, erase_first k ks)
recency_step evict ks = elim (back ks) [ none ↦ (key "", ks) | some k ↦ (key k, pop_back ks) ]
recency_step clean ks = (nothing, [])

unfoldable pub recency_run : List Call → List String → List Answer × List String
unfolding recency_step
recency_run [] ks = ([], ks)
recency_run (c ∷ cs) ks =
    let (a, ks') = recency_step c ks in let (as', ks'') = recency_run cs ks' in (a ∷ as', ks'')

-- The map holds exactly the iterators of the listed keys.
pub record IsIndexed (s : EvictionStrategy) : Type 0 where
  pub index : (k : String) → find k s.all_key_idx_map ≡ node_of k s.all_key_list
  pub paired : IsPaired s.all_key_list
  pub fresh : (i : ℕ) → s.next_node ≤ i → find i s.all_key_list ≡ none

keys_of : EvictionStrategy → List String
keys_of s = listed s.all_key_list

erase_first_absent : (k : String) (ks : List String) → contains ks k ≡ false → erase_first k ks ≡ ks
erase_first_absent k [] h = refl
erase_first_absent k (j ∷ ks) h = ground (arith, erase_first_absent k ks)

-- The state after `all_key_list_.erase(it); all_key_idx_map_.erase(key)`.
abbrev forget : String → ℕ → EvictionStrategy → EvictionStrategy
forget k it s = record s {
  all_key_list = erase it s.all_key_list;
  all_key_idx_map = erase k s.all_key_idx_map;
}

forget-IsIndexed :
    (k : String) (i : ℕ) (s : EvictionStrategy)
    → IsIndexed s
    → node_of k s.all_key_list ≡ some i
    → IsIndexed (forget k i s)
forget-IsIndexed k i s w at = record {
  index = λ j. ground (
    arith,
    find-erase k j s.all_key_idx_map,
    node_of-erase k j i s.all_key_list w.paired at,
    w.index j,
  );
  paired = erase-IsPaired k i s.all_key_list w.paired at;
  fresh = λ n le. find-erase_absent i n s.all_key_list (w.fresh n le);
}

-- A key that is not listed is pushed, whatever the map held under it.
push_indexed-IsIndexed :
    (k : String) (s : EvictionStrategy)
    → ((j : String) → (k == j) ≡ false → find j s.all_key_idx_map ≡ node_of j s.all_key_list)
    → node_of k s.all_key_list ≡ none
    → IsPaired s.all_key_list
    → ((i : ℕ) → s.next_node ≤ i → find i s.all_key_list ≡ none)
    → IsIndexed (push_indexed k s)
unfolding push_indexed push_front node_of find
push_indexed-IsIndexed k s index absent paired fresh = record {
  index = λ j. ground (arith, find-put k j s.next_node s.all_key_idx_map, index j);
  paired = (fresh s.next_node (omega arith), absent, paired);
  fresh = λ n le. ground (arith, fresh n);
}

-- A call answers as the recency list does, and leaves the list that it leaves.
abbrev Agrees : Answer × EvictionStrategy → Answer × List String → Type 0
Agrees (a, s) (b, ks) = IsIndexed s × (a ≡ b) × (listed s.all_key_list ≡ ks)

add-Agrees :
    (k : String) (s : EvictionStrategy)
    → IsIndexed s
    → Agrees (step (add k) s) (recency_step (add k) (keys_of s))
unfolding step add_key recency_step push_indexed push_front listed keys_of
add-Agrees k s w = elim (Option-cases (node_of k s.all_key_list)) [
  | inl absent ↦
      rw (w.index k, absent, add_key)
        (
          push_indexed-IsIndexed k s (λ j h. w.index j) absent w.paired w.fresh,
          refl,
          ap (◌∷◌ k) (
              sym (
                erase_first_absent k (listed s.all_key_list)
                  (contains-listed k s.all_key_list absent))),
        )
  | inr (i, at) ↦
      rw (w.index k, at, add_key)
        (let w' = forget-IsIndexed k i s w at in
          (
            push_indexed-IsIndexed k (forget k i s) (λ j h. w'.index j)
                (ground (arith, node_of-erase k k i s.all_key_list w.paired at, ==_refl k))
                w'.paired w'.fresh,
            refl,
            ap (◌∷◌ k) (listed-erase k i s.all_key_list w.paired at),
          ))
]

update-Agrees :
    (k : String) (s : EvictionStrategy)
    → IsIndexed s
    → Agrees (step (update k) s) (recency_step (update k) (keys_of s))
unfolding step update_key recency_step push_indexed push_front listed keys_of
update-Agrees k s w = elim (Option-cases (node_of k s.all_key_list)) [
  | inl absent ↦
      rw (w.index k, absent, update_key, contains-listed k s.all_key_list absent) (w, refl, refl)
  | inr (i, at) ↦
      rw (w.index k, at, update_key, contains-listed_some k i s.all_key_list at)
        (let s' = record s { all_key_list = erase i s.all_key_list } in
          let elsewhere = λ (j : String) (h : (k == j) ≡ false).
            (w.index j ∙ sym (rw (h) at (node_of-erase k j i s.all_key_list w.paired at))) in
          (
            push_indexed-IsIndexed k s' elsewhere
                (ground (arith, node_of-erase k k i s.all_key_list w.paired at, ==_refl k))
                (erase-IsPaired k i s.all_key_list w.paired at)
                (λ n le. find-erase_absent i n s.all_key_list (w.fresh n le)),
            refl,
            ap (◌∷◌ k) (listed-erase k i s.all_key_list w.paired at),
          ))
]

remove-Agrees :
    (k : String) (s : EvictionStrategy)
    → IsIndexed s
    → Agrees (step (remove k) s) (recency_step (remove k) (keys_of s))
unfolding step remove_key recency_step keys_of
remove-Agrees k s w = elim (Option-cases (node_of k s.all_key_list)) [
  | inl absent ↦
      rw (w.index k, absent, remove_key)
        (
          w,
          refl,
          sym (
              erase_first_absent k (listed s.all_key_list)
                (contains-listed k s.all_key_list absent)),
        )
  | inr (i, at) ↦
      rw (w.index k, at, remove_key)
        (forget-IsIndexed k i s w at, refl, listed-erase k i s.all_key_list w.paired at)
]

evict-Agrees :
    (s : EvictionStrategy) → IsIndexed s → Agrees (step evict s) (recency_step evict (keys_of s))
unfolding step evict_key recency_step keys_of
evict-Agrees s w = elim (Option-cases (back s.all_key_list)) [
  | inl empty ↦
      let empty' = rw (empty) at (back-listed s.all_key_list) in
      rw (empty', empty, evict_key, recency_step) (w, refl, refl)
  | inr ((i, k), last) ↦
      let (at, gone) = node_of-back s.all_key_list i k w.paired last in
      let last' = rw (last) at (back-listed s.all_key_list) in
      rw (last', last, evict_key, recency_step)
        (
          subst (λ l. IsIndexed (record (forget k i s) { all_key_list = l })) (sym gone)
              (forget-IsIndexed k i s w at),
          refl,
          pop_back-listed s.all_key_list,
        )
]

step-Agrees :
    (c : Call) (s : EvictionStrategy) → IsIndexed s → Agrees (step c s) (recency_step c (keys_of s))
unfolding step clean_up recency_step listed node_of find
step-Agrees (add k) s w = add-Agrees k s w
step-Agrees (update k) s w = update-Agrees k s w
step-Agrees (remove k) s w = remove-Agrees k s w
step-Agrees evict s w = evict-Agrees s w
step-Agrees clean s w = (record { index = λ k. refl; paired = tt; fresh = λ i h. refl }, refl, refl)

init-IsIndexed : IsIndexed init
unfolding node_of find
init-IsIndexed = record { index = λ k. refl; paired = tt; fresh = λ i h. refl }

run-Agrees :
    (cs : List Call) (s : EvictionStrategy)
    → IsIndexed s
    → IsIndexed (run cs s).1
      × ((run cs s).0 ≡ (recency_run cs (keys_of s)).0)
      × (keys_of (run cs s).1 ≡ (recency_run cs (keys_of s)).1)
unfolding run recency_run keys_of
run-Agrees [] s w = (w, refl, refl)
run-Agrees (c ∷ cs) s w =
    let (w', answer, left) = step-Agrees c s w in
    let (w'', answers, left') = run-Agrees cs (step c s).1 w' in
    (
      w'',
      ap₂ ◌∷◌ answer (answers ∙ ap (λ ks. (recency_run cs ks).0) left),
      left' ∙ ap (λ ks. (recency_run cs ks).1) left,
    )

-- After any calls on a new strategy, the LRU strategy has given the answers of the recency list, and
-- its keys stand in that list's order.
pub lru-refines_recency :
    (cs : List Call)
    → ((run cs init).0 ≡ (recency_run cs []).0)
      × (listed (run cs init).1.all_key_list ≡ (recency_run cs []).1)
unfolding keys_of listed
lru-refines_recency cs =
    let (w, answers, left) = run-Agrees cs init init-IsIndexed in (answers, left)
