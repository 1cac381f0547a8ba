-- ===== src/EvictionStrategy/Lru.antt =====
-- LRUEvictionStrategy: the least recently used key goes first.
use mooncake.Prelude.{String, none, some, List, [], ◌∷◌, string_eq, nat_eq}
use mooncake.Prelude.Dict.{find, erase, put}
use mooncake.Types.{ErrorCode, ok_code}
use mooncake.EvictionStrategy.{
  EvictionStrategy, Call, add, update, remove, evict, clean, Answer, code, key, nothing, back,
  pop_back, push_front, remove_key, clean_up,
}

-- `push_front(key)` and `all_key_idx_map_[key] = all_key_list_.begin()`.
unfoldable pub push_indexed : String → EvictionStrategy → EvictionStrategy
unfolding push_front
push_indexed k s = record (push_front k s) { all_key_idx_map = put k s.next_node s.all_key_idx_map }

-- LRUEvictionStrategy::AddKey
unfoldable pub add_key : String → EvictionStrategy → ErrorCode × EvictionStrategy
unfolding push_indexed
add_key k s = elim (find k s.all_key_idx_map) [
  | none ↦ (ok_code, push_indexed k s)
  | some it ↦ (
    ok_code,
    push_indexed k (record s {
      all_key_list = erase it s.all_key_list;
      all_key_idx_map = erase k s.all_key_idx_map;
    }),
  )
]

-- LRUEvictionStrategy::UpdateKey
unfoldable pub update_key : String → EvictionStrategy → ErrorCode × EvictionStrategy
unfolding push_indexed
update_key k s = elim (find k s.all_key_idx_map) [
  | none ↦ (ok_code, s)
  | some it ↦ (ok_code, push_indexed k (record s { all_key_list = erase it s.all_key_list }))
]

-- LRUEvictionStrategy::EvictKey
unfoldable pub evict_key : EvictionStrategy → String × EvictionStrategy
evict_key s = elim (back s.all_key_list) [
  | none ↦ ("", s)
  | some node ↦ (
    node.1,
    record s {
      all_key_list = pop_back s.all_key_list;
      all_key_idx_map = erase node.1 s.all_key_idx_map;
    },
  )
]

unfoldable pub step : Call → EvictionStrategy → Answer × EvictionStrategy
unfolding add_key update_key remove_key evict_key clean_up
step (add k) s = let (c, s') = add_key k s in (code c, s')
step (update k) s = let (c, s') = update_key k s in (code c, s')
step (remove k) s = let (c, s') = remove_key k s in (code c, s')
step evict s = let (k, s') = evict_key s in (key k, s')
step clean s = (nothing, clean_up s)

unfoldable pub run : List Call → EvictionStrategy → List Answer × EvictionStrategy
unfolding step
run [] s = ([], s)
run (c ∷ cs) s = let (a, s') = step c s in let (as', s'') = run cs s' in (a ∷ as', s'')
