-- ===== src/EvictionStrategy.antt =====
-- mooncake-store/include/eviction_strategy.h: the state and the operations that the eviction
-- strategies share. A `std::list` is a list of numbered nodes, and an iterator is the number of its
-- node: `erase` through an iterator whose node is gone would be undefined, and Lru/Recency shows that
-- the code never does it.
pub mod Lru
pub mod Fifo
pub mod Nodes
pub mod Recency
pub mod Queue
use mooncake.Prelude.{ℕ, ◌+◌, String, Option, none, some, List, [], ◌∷◌, nat_eq, string_eq, length}
use mooncake.Prelude.Dict.{Dict, find, erase, put}
use mooncake.Types.{ErrorCode, ok_code}

pub record EvictionStrategy : Type 0 where
  pub all_key_list : Dict ℕ String
  pub all_key_idx_map : Dict String ℕ
  pub next_node : ℕ

-- The calls a client makes; `key` is EvictKey's answer and `code` that of the others.
pub data Call : Type 0 where
  add update remove : String → Call
  evict clean : Call

pub data Answer : Type 0 where
  code : ErrorCode → Answer
  key : String → Answer
  nothing : Answer

abbrev pub back {ℓ} : {A : Type ℓ} → List A → Option A
back [] = none
back (x ∷ []) = some x
back (x ∷ y ∷ xs) = back (y ∷ xs)

abbrev pub pop_back {ℓ} : {A : Type ℓ} → List A → List A
pop_back [] = []
pop_back (x ∷ []) = []
pop_back (x ∷ y ∷ xs) = x ∷ pop_back (y ∷ xs)

abbrev pub init : EvictionStrategy
init = record { all_key_list = []; all_key_idx_map = []; next_node = 0 }

-- all_key_list_.push_front(key)
unfoldable pub push_front : String → EvictionStrategy → EvictionStrategy
push_front k s = record s {
  all_key_list = (s.next_node, k) ∷ s.all_key_list;
  next_node = s.next_node + 1;
}

-- EvictionStrategy::RemoveKey, which neither strategy overrides.
unfoldable pub remove_key : String → EvictionStrategy → ErrorCode × EvictionStrategy
remove_key k s = elim (find k s.all_key_idx_map) [
  | none ↦ (ok_code, s)
  | some it ↦ (
    ok_code,
    record s {
      all_key_list = erase it s.all_key_list;
      all_key_idx_map = erase k s.all_key_idx_map;
    },
  )
]

-- EvictionStrategy::GetSize
unfoldable pub get_size : EvictionStrategy → ℕ
get_size s = length s.all_key_list

-- EvictionStrategy::CleanUp
unfoldable pub clean_up : EvictionStrategy → EvictionStrategy
clean_up s = record s { all_key_list = []; all_key_idx_map = [] }
