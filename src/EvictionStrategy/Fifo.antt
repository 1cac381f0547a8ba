-- ===== src/EvictionStrategy/Fifo.antt =====
-- FIFOEvictionStrategy: the key added first goes first.
use mooncake.Prelude.{String, none, some, List, [], ◌∷◌}
use mooncake.Types.{ErrorCode, ok_code}
use mooncake.EvictionStrategy.{
  EvictionStrategy, Call, add, update, remove, evict, clean, Answer, code, key, nothing, back,
  pop_back, push_front, remove_key, clean_up,
}

-- FIFOEvictionStrategy::AddKey
unfoldable pub add_key : String → EvictionStrategy → ErrorCode × EvictionStrategy
unfolding push_front
add_key k s = (ok_code, push_front k s)

-- FIFOEvictionStrategy::UpdateKey
unfoldable pub update_key : String → EvictionStrategy → ErrorCode × EvictionStrategy
update_key k s = (ok_code, s)

-- FIFOEvictionStrategy::EvictKey
unfoldable pub evict_key : EvictionStrategy → String × EvictionStrategy
evict_key s = elim (back s.all_key_list) [
  | none ↦ ("", s)
  | some node ↦ (node.1, record s { all_key_list = pop_back s.all_key_list })
]

unfoldable pub step : Call → EvictionStrategy → Answer × EvictionStrategy
unfolding add_key update_key remove_key evict_key clean_up
step (add k) s = let (c, s') = add_key k s in (code c, s')
step (update k) s = let (c, s') = update_key k s in (code c, s')
step (remove k) s = let (c, s') = remove_key k s in (code c, s')
step evict s = let (k, s') = evict_key s in (key k, s')
step clean s = (nothing, clean_up s)

unfoldable pub run : List Call → EvictionStrategy → List Answer × EvictionStrategy
unfolding step
run [] s = ([], s)
run (c ∷ cs) s = let (a, s') = step c s in let (as', s'') = run cs s' in (a ∷ as', s'')
