-- ===== src/Master/Starts.antt =====
-- What PutStart does to the objects of all keys (mooncake-store/src/master_service.cpp).
use mooncake.Prelude.{
  ℕ, ◌≡◌, refl, ◌∙◌, ◌⊎◌, String, true, false, none, some, List, map, inl, inr, Bool-cases,
  Option-cases, string_eq, ==_refl, ==_iff, ◌==◌, if◌then◌else◌, ap, nat_eq, sym, subst,
}
use mooncake.Prelude.Dict.{emplace}
use mooncake.Types.{
  ErrorCode, Expected, ok, err, invalid_params, object_already_exists, no_available_handle,
  ReplicateConfig,
}
use mooncake.Replica.{Replica, ReplicaDescriptor, get_descriptor}
use mooncake.Metadata.{ObjectMetadata, make_metadata, is_stale, stale_replicas, clean}
use mooncake.Master.{Env, Master, alive, object, free_replicas, store, get_shard, set_shard}
use mooncake.Master.View.{
  HasShards, HasShards-after, free_replicas-SameService, object-store, object-set_shard,
  object-free_replicas,
}
use mooncake.Master.Put.{
  put_start, put_allocated, finish_put, insert_object, with_disk_replica, is_bad_put,
}

module _ {S : Type 0} (env : Env S) where
  -- Of the key `key`, which has no object in `m`, PutStart has returned `r` and left `m'`.
  abbrev pub IsNew : Master S → String → Expected (List ReplicaDescriptor) → Type 0
  IsNew m' key r =
      ((code : ErrorCode) × (r ≡ err code) × (object env m' key ≡ none))
      ⊎ ((o : ObjectMetadata) × (object env m' key ≡ some o)
          × (r ≡ ok (map (get_descriptor (alive m') m'.segments.memory) o.replicas)))

  -- The objects of all keys but `key` are the same in both.
  abbrev pub SameElsewhere : Master S → Master S → String → Type 0
  SameElsewhere m m' key =
      (j : String) → object env m' j ≡ (if key == j then object env m' key else object env m j)

  same-SameElsewhere :
      (m m' : Master S) (key : String)
      → ((j : String) → object env m' j ≡ object env m j)
      → SameElsewhere m m' key
  same-SameElsewhere m m' key same j = elim (Bool-cases (key == j)) [
    | inr ne ↦ rw (ne) (same j)
    | inl e ↦ rw (e) (sym (ap (object env m') ((==_iff key j).0 e)))
  ]

  changed-SameElsewhere :
      (m m' : Master S) (key : String) (o : ObjectMetadata)
      → ((j : String) → object env m' j ≡ (if key == j then some o else object env m j))
      → SameElsewhere m m' key × (object env m' key ≡ some o)
  changed-SameElsewhere m m' key o changed =
      let here : object env m' key ≡ some o = changed key ∙ rw (==_refl key) refl in
      (λ j. changed j ∙ ap (λ x. if key == j then x else object env m j) (sym here), here)

  finish_put-IsNew :
      (m : Master S) (key : String) (total : ℕ) (rc : ReplicateConfig)
      → HasShards m
      → object env m key ≡ none
      → (r : Expected (List Replica))
      → SameElsewhere m (finish_put env m key total rc r).1 key
        × IsNew (finish_put env m key total rc r).1 key (finish_put env m key total rc r).0
  unfolding finish_put insert_object make_metadata object
  finish_put-IsNew m key total rc n absent (ok rs) =
      let all = with_disk_replica env m key total rs in
      let o = make_metadata total all rc.with_soft_pin in
      let m' = set_shard env m key (emplace key o (get_shard env m key)) in
      let (frame, here) =
        changed-SameElsewhere m m' key o (λ j. object-set_shard env m key j o n absent) in
      rw (absent, insert_object) (frame, inr (o, here, refl))
  finish_put-IsNew m key total rc n absent (err invalid_params) =
      (same-SameElsewhere m m key (λ j. refl), inl (invalid_params, refl, absent))
  finish_put-IsNew m key total rc n absent (err code) = (
    same-SameElsewhere m (record m { need_eviction = true }) key (λ j. refl),
    inl (no_available_handle, refl, absent),
  )

  put_allocated-IsNew :
      (m : Master S) (key : String) (slices : List ℕ) (rc : ReplicateConfig)
      → HasShards m
      → object env m key ≡ none
      → SameElsewhere m (put_allocated env m key slices rc).1 key
        × IsNew (put_allocated env m key slices rc).1 key (put_allocated env m key slices rc).0
  unfolding put_allocated object
  put_allocated-IsNew m key slices rc n absent = finish_put-IsNew _ key _ rc n absent _

  finish_put_kept :
      (m : Master S) (key j : String) (total : ℕ) (rc : ReplicateConfig) (o : ObjectMetadata)
      → object env m key ≡ some o
      → (r : Expected (List Replica))
      → object env (finish_put env m key total rc r).1 j ≡ object env m j
  unfolding finish_put insert_object object free_replicas
  finish_put_kept m key j total rc o there (ok rs) = rw (there, insert_object, object) refl
  finish_put_kept m key j total rc o there (err invalid_params) = refl
  finish_put_kept m key j total rc o there (err code) = refl

  put_allocated_kept :
      (m : Master S) (key j : String) (slices : List ℕ) (rc : ReplicateConfig) (o : ObjectMetadata)
      → object env m key ≡ some o
      → object env (put_allocated env m key slices rc).1 j ≡ object env m j
  unfolding put_allocated object
  put_allocated_kept m key j slices rc o there = finish_put_kept _ key j _ rc o there _

  -- The key had the object `o` before, and PutStart has returned `r` and left `m'`.
  abbrev pub IsOld :
      Master S → Master S → String → ObjectMetadata → Expected (List ReplicaDescriptor) → Type 0
  IsOld m m' key o r =
      ((object env m' key ≡ some o) ⊎ (object env m' key ≡ some (clean (alive m) o)))
      × ((is_stale (alive m) o ≡ true) ⊎ ((code : ErrorCode) × (r ≡ err code)))

  abbrev swept : Master S → String → ObjectMetadata → Master S
  swept m key o =
      store env (free_replicas env m (stale_replicas (alive m) o)) key (clean (alive m) o)

  swept_lem :
      (m : Master S) (key : String) (o : ObjectMetadata)
      → HasShards m
      → (j : String)
      → object env (swept m key o) j
        ≡ (if key == j then some (clean (alive m) o) else object env m j)
  swept_lem m key o n j =
      let freed = free_replicas env m (stale_replicas (alive m) o) in
      object-store env freed key j (clean (alive m) o)
        (HasShards-after (free_replicas-SameService env m (stale_replicas (alive m) o)) n)
      ∙ ap (λ x. if key == j then some (clean (alive m) o) else x)
          (object-free_replicas env m (stale_replicas (alive m) o) j)

  -- How PutStart ends.
  abbrev pub Outcome : Master S → String → Expected (List ReplicaDescriptor) × Master S → Type 0
  Outcome m key r =
      SameElsewhere m r.1 key
      × (((object env m key ≡ none) × IsNew r.1 key r.0)
          ⊎ ((o : ObjectMetadata) × (object env m key ≡ some o) × IsOld m r.1 key o r.0))

  -- The four ways that PutStart takes.
  refuses :
      (m : Master S) (key : String) (slices : List ℕ) (rc : ReplicateConfig)
      → is_bad_put m.config key slices rc ≡ true
      → put_start env m key slices rc ≡ (err invalid_params, m)
  unfolding put_start
  refuses m key slices rc bad = rw (put_start, bad) refl

  starts_new :
      (m : Master S) (key : String) (slices : List ℕ) (rc : ReplicateConfig)
      → is_bad_put m.config key slices rc ≡ false
      → object env m key ≡ none
      → put_start env m key slices rc ≡ put_allocated env m key slices rc
  unfolding put_start
  starts_new m key slices rc good absent = rw (put_start, good, absent) refl

  finds_live :
      (m : Master S) (key : String) (slices : List ℕ) (rc : ReplicateConfig) (o : ObjectMetadata)
      → is_bad_put m.config key slices rc ≡ false
      → object env m key ≡ some o
      → is_stale (alive m) o ≡ false
      → put_start env m key slices rc ≡ (err object_already_exists, swept m key o)
  unfolding put_start
  finds_live m key slices rc o good there live = rw (put_start, good, there, live) refl

  finds_stale :
      (m : Master S) (key : String) (slices : List ℕ) (rc : ReplicateConfig) (o : ObjectMetadata)
      → is_bad_put m.config key slices rc ≡ false
      → object env m key ≡ some o
      → is_stale (alive m) o ≡ true
      → put_start env m key slices rc ≡ put_allocated env (swept m key o) key slices rc
  unfolding put_start
  finds_stale m key slices rc o good there stale = rw (put_start, good, there, stale) refl

  -- In a service with its kNumShards shards: PutStart leaves the objects of all other keys as they
  -- were. If its key has no object, then it has one afterwards exactly if PutStart returns OK, with the
  -- descriptors of that object's replicas. If it has one, then the object stays, without its stale
  -- replicas at most, and PutStart returns an error unless all of its replicas are stale.
  pub object-put_start :
      (m : Master S) (key : String) (slices : List ℕ) (rc : ReplicateConfig)
      → HasShards m
      → Outcome m key (put_start env m key slices rc)
  object-put_start m key slices rc n = elim (Bool-cases (is_bad_put m.config key slices rc)) [
    | inl bad ↦ subst (Outcome m key) (sym (refuses m key slices rc bad)) (
      same-SameElsewhere m m key (λ j. refl),
      elim (Option-cases (object env m key)) [
        | inl absent ↦ inl (absent, inl (invalid_params, refl, absent))
        | inr (o, there) ↦ inr (o, there, (inl there, inr (invalid_params, refl)))
      ],
    )
    | inr good ↦ elim (Option-cases (object env m key)) [
      | inl absent ↦
          let (frame, new) = put_allocated-IsNew m key slices rc n absent in
          subst (Outcome m key) (sym (starts_new m key slices rc good absent))
            (frame, inl (absent, new))
      | inr (o, there) ↦
          let m' = swept m key o in
          let (frame, here) =
            changed-SameElsewhere m m' key (clean (alive m) o) (swept_lem m key o n) in
          elim (Bool-cases (is_stale (alive m) o)) [
            | inr live ↦
                subst (Outcome m key) (sym (finds_live m key slices rc o good there live))
                  (frame, inr (o, there, (inr here, inr (object_already_exists, refl))))
            | inl stale ↦
                let m'' = (put_allocated env m' key slices rc).1 in
                let (frame', here') = changed-SameElsewhere m m'' key (clean (alive m) o) (λ j.
                  put_allocated_kept m' key j slices rc (clean (alive m) o) here
                  ∙ swept_lem m key o n j) in
                subst (Outcome m key) (sym (finds_stale m key slices rc o good there stale))
                  (frame', inr (o, there, (inr here', inl stale)))
          ]
    ]
  ]
