-- ===== src/Master/View.antt =====
-- The metadata seen as a map from keys to objects: how the steps that all operations share change it.
use mooncake.Prelude.{
  ℕ, ◌%◌, ◌<◌, ◌≡◌, refl, ap, ◌∙◌, String, Option, none, some, List, [], if◌then◌else◌, string_eq,
  nat_eq, ◌==◌, ==_iff, get_or, set, length, arith, inl, inr, Bool-cases, Option-cases,
  get_or-set_self, get_or-set_ne, length-set,
}
use mooncake.Prelude.Dict.{
  find, put, erase, emplace, find-emplace_absent, find-put, find-erase, and_then,
}
use mooncake.Replica.{Replica}
use mooncake.Segment.{is_alive}
use mooncake.Metadata.{ObjectMetadata, clean, is_stale, stale_replicas}
use mooncake.Master.{
  Env, Master, Shard, num_shards, alive, free_replicas, get_shard, set_shard, object, store,
  discard, access,
}

-- There are kNumShards shards.
abbrev pub HasShards : {S : Type 0} → Master S → Type 0
HasShards m = length m.shards ≡ num_shards

-- The same clients, settings and liveness: all that an operation on objects leaves alone.
pub record SameService {S : Type 0} (m m' : Master S) : Type 0 where
  pub config : m'.config ≡ m.config
  pub live : (a : ℕ) → alive m' a ≡ alive m a
  pub shard_count : length m'.shards ≡ length m.shards

pub SameService-trans :
    {S : Type 0} {m m' m'' : Master S} → SameService m m' → SameService m' m'' → SameService m m''
SameService-trans p q = record {
  config = q.config ∙ p.config;
  live = λ a. q.live a ∙ p.live a;
  shard_count = q.shard_count ∙ p.shard_count;
}

pub HasShards-after : {S : Type 0} {m m' : Master S} → SameService m m' → HasShards m → HasShards m'
HasShards-after p n = p.shard_count ∙ n

get_or-set :
    (shards : List Shard) (i j : ℕ) (sh : Shard)
    → i < length shards
    → get_or (set shards i sh) j [] ≡ (if i == j then sh else get_or shards j [])
get_or-set shards i j sh h = elim (Bool-cases (i == j)) [
  | inl e ↦ rw (e, ← (==_iff i j).0 e) (get_or-set_self shards i sh [] h)
  | inr e ↦ rw e (get_or-set_ne shards i j sh [] (λ p. ground (arith, e, ==_iff i j)))
]

module _ {S : Type 0} (env : Env S) where
  abbrev idx : String → ℕ
  idx key = env.hash key % num_shards

  idx-lt : (m : Master S) (key : String) → HasShards m → idx key < length m.shards
  idx-lt m key n = omega arith

  pub object-store :
      (m : Master S) (key j : String) (o : ObjectMetadata)
      → HasShards m
      → object env (store env m key o) j ≡ (if key == j then some o else object env m j)
  unfolding object store
  object-store m key j o n =
      rw (get_or-set m.shards (idx key) (idx j) (put key o (get_shard env m key)) (idx-lt m key n))
        (ground (
          arith,
          find-put key j o (get_shard env m key),
          ==_iff key j,
          ap (λ (i : ℕ). find j (get_or m.shards i [])) {x = idx key} {y = idx j},
        ))

  -- A key that has no object gets one.
  pub object-set_shard :
      (m : Master S) (key j : String) (o : ObjectMetadata)
      → HasShards m
      → object env m key ≡ none
      → object env (set_shard env m key (emplace key o (get_shard env m key))) j
        ≡ (if key == j then some o else object env m j)
  unfolding object
  object-set_shard m key j o n absent =
      rw
        (get_or-set m.shards (idx key) (idx j) (emplace key o (get_shard env m key))
          (idx-lt m key n))
        (ground (
          arith,
          find-emplace_absent key j o (get_shard env m key) absent,
          ==_iff key j,
          ap (λ (i : ℕ). find j (get_or m.shards i [])) {x = idx key} {y = idx j},
        ))

  pub object-free_replicas :
      (m : Master S) (rs : List Replica) (j : String)
      → object env (free_replicas env m rs) j ≡ object env m j
  unfolding object free_replicas
  object-free_replicas m rs j = refl

  pub alive-free_replicas :
      (m : Master S) (rs : List Replica) (a : ℕ) → alive (free_replicas env m rs) a ≡ alive m a
  unfolding free_replicas is_alive
  alive-free_replicas m rs a = refl

  pub object-discard :
      (m : Master S) (key j : String) (o : ObjectMetadata)
      → HasShards m
      → object env (discard env m key o) j ≡ (if key == j then none else object env m j)
  unfolding object discard
  object-discard m key j o n =
      rw (get_or-set m.shards (idx key) (idx j) (erase key (get_shard env m key)) (idx-lt m key n))
        (ground (
          arith,
          find-erase key j (get_shard env m key),
          ==_iff key j,
          ap (λ (i : ℕ). find j (get_or m.shards i [])) {x = idx key} {y = idx j},
        ))

  pub store-SameService :
      (m : Master S) (key : String) (o : ObjectMetadata) → SameService m (store env m key o)
  unfolding store is_alive
  store-SameService m key o = record {
    config = refl;
    live = λ a. refl;
    shard_count = length-set m.shards _ _;
  }

  pub discard-SameService :
      (m : Master S) (key : String) (o : ObjectMetadata) → SameService m (discard env m key o)
  unfolding discard is_alive
  discard-SameService m key o = record {
    config = refl;
    live = λ a. refl;
    shard_count = length-set m.shards _ _;
  }

  pub free_replicas-SameService :
      (m : Master S) (rs : List Replica) → SameService m (free_replicas env m rs)
  unfolding free_replicas is_alive
  free_replicas-SameService m rs = record { config = refl; live = λ a. refl; shard_count = refl }

  -- What is left of an object once its stale replicas are dropped.
  abbrev pub cleaned : Master S → ObjectMetadata → Option ObjectMetadata
  cleaned m o = if is_stale (alive m) o then none else some (clean (alive m) o)

  abbrev freed : Master S → ObjectMetadata → Master S
  freed m o = free_replicas env m (stale_replicas (alive m) o)

  -- The accessor finds the object without its stale replicas.
  pub access_found :
      (m : Master S) (key : String) → (access env m key).0 ≡ and_then (object env m key) (cleaned m)
  unfolding access
  access_found m key = elim (Option-cases (object env m key)) [
    | inl e ↦ rw (e, access) refl
    | inr (o, e) ↦ rw (e, access) (ground arith)
  ]

  pub access-SameService : (m : Master S) (key : String) → SameService m (access env m key).1
  unfolding access
  access-SameService m key = elim (Option-cases (object env m key)) [
    | inl e ↦ rw (e, access) (record { config = refl; live = λ a. refl; shard_count = refl })
    | inr (o, e) ↦ elim (Bool-cases (is_stale (alive m) o)) [
      | inl s ↦
          rw (e, access, s)
            (SameService-trans (free_replicas-SameService m (stale_replicas (alive m) o))
              (discard-SameService (freed m o) key (clean (alive m) o)))
      | inr s ↦
          rw (e, access, s)
            (SameService-trans (free_replicas-SameService m (stale_replicas (alive m) o))
              (store-SameService (freed m o) key (clean (alive m) o)))
    ]
  ]

  -- The accessor writes back what it finds and leaves the other keys alone.
  pub object-access :
      (m : Master S) (key j : String)
      → HasShards m
      → object env (access env m key).1 j
        ≡ (if key == j then (access env m key).0 else object env m j)
  unfolding access
  object-access m key j n = elim (Option-cases (object env m key)) [
    | inl e ↦ rw (e, access) (ground (arith, e, ==_iff key j, ap (object env m) {x = key} {y = j}))
    | inr (o, e) ↦ elim (Bool-cases (is_stale (alive m) o)) [
      | inl s ↦
          rw (e, access, s)
            (object-discard (freed m o) key j (clean (alive m) o) n
              ∙ ap (λ (x : Option ObjectMetadata). if key == j then none else x)
                  (object-free_replicas m (stale_replicas (alive m) o) j))
      | inr s ↦
          rw (e, access, s)
            (object-store (freed m o) key j (clean (alive m) o) n
              ∙ ap (λ (x : Option ObjectMetadata). if key == j then some (clean (alive m) o) else x)
                  (object-free_replicas m (stale_replicas (alive m) o) j))
    ]
  ]
