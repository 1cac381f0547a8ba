-- ===== src/Master/Handlers.antt =====
-- The handlers on keys keep the segment manager well formed (mooncake-store/src/master_service.cpp).
use mooncake.Prelude.{
  ℕ, String, Bool, Option, none, some, List, inl, inr, Option-cases, Bool-cases, contains, any,
  is_empty, nat_eq,
}
use mooncake.Types.{
  Uuid, uuid_eq, Segment, ReplicateConfig, ErrorCode, ok_code, Expected, ok, err, invalid_params,
}
use mooncake.Replica.{Replica, ReplicaType, processing}
use mooncake.Metadata.{
  ObjectMetadata, is_stale, stale_replicas, clean, has_diff_rep_status, is_valid, erase_replica,
  erased_replicas,
}
use mooncake.Segment.{remount_segment}
use mooncake.Segment.Invariant.{IsWellFormed}
use mooncake.Segment.Heap.{SameHeap-IsWellFormed}
use mooncake.Segment.Mount.{remount_segment-IsWellFormed}
use mooncake.Strategy.Heap.{allocate_replicas-SameHeap}
use mooncake.Strategy.{allocate_replicas, Attempt}
use mooncake.Master.{Env, Master, alive, object, store, discard, free_replicas, access}
use mooncake.Master.Read.{exist_key, get_replica_list, is_complete, complete_descriptors}
use mooncake.Master.Put.{
  total_length, put_start, put_end, put_revoke, put_allocated, finish_put, insert_object,
  is_bad_put,
}
use mooncake.Master.Remove.{remove, remove_by_regex, remove_all}
use mooncake.Master.Mount.{remount, finish_remount, ping}
use mooncake.Master.Frames.{is_idle, remove_idle, remove_busy}
use mooncake.Master.Sound.{free_replicas-IsWellFormed}

module _ {S : Type 0} (env : Env S) where
  abbrev pub Sound : Master S → Type 0
  Sound m = IsWellFormed m.segments

  discard-Sound :
      (m : Master S) (key : String) (o : ObjectMetadata) → Sound m → Sound (discard env m key o)
  unfolding discard
  discard-Sound m key o w = free_replicas-IsWellFormed env m o.replicas w

  access-Sound : (m : Master S) (key : String) → Sound m → Sound (access env m key).1
  unfolding access store
  access-Sound m key w = elim (Option-cases (object env m key)) [
    | inl e ↦ rw (e, access) w
    | inr (o, e) ↦
        let w' = free_replicas-IsWellFormed env m (stale_replicas (alive m) o) w in
        elim (Bool-cases (is_stale (alive m) o)) [
          | inl s ↦
              rw (e, access, s)
                (discard-Sound (free_replicas env m (stale_replicas (alive m) o)) key
                  (clean (alive m) o) w')
          | inr s ↦ rw (e, access, s) w'
        ]
  ]

  pub exist_key-Sound :
      (now : ℕ) (m : Master S) (key : String) → Sound m → Sound (exist_key env now m key).1
  unfolding exist_key store
  exist_key-Sound now m key w = elim (Option-cases (access env m key).0) [
    | inl e ↦ rw (e, exist_key) (access-Sound m key w)
    | inr (o, e) ↦ elim (Bool-cases (any is_complete o.replicas)) [
      | inl s ↦ rw (e, exist_key, s) (access-Sound m key w)
      | inr s ↦ rw (e, exist_key, s) (access-Sound m key w)
    ]
  ]

  pub get_replica_list-Sound :
      (now : ℕ) (m : Master S) (key : String) → Sound m → Sound (get_replica_list env now m key).1
  unfolding get_replica_list store
  get_replica_list-Sound now m key w = elim (Option-cases (access env m key).0) [
    | inl e ↦ rw (e, get_replica_list) (access-Sound m key w)
    | inr (o, e) ↦ elim (Bool-cases (is_empty (complete_descriptors (access env m key).1 o))) [
      | inl s ↦ rw (e, get_replica_list, s) (access-Sound m key w)
      | inr s ↦ rw (e, get_replica_list, s) (access-Sound m key w)
    ]
  ]

  pub put_end-Sound :
      (now : ℕ) (m : Master S) (key : String) (type : ReplicaType)
      → Sound m
      → Sound (put_end env now m key type).1
  unfolding put_end store
  put_end-Sound now m key type w = elim (Option-cases (access env m key).0) [
    | inl e ↦ rw (e, put_end) (access-Sound m key w)
    | inr (o, e) ↦ rw (e, put_end) (access-Sound m key w)
  ]

  pub put_revoke-Sound :
      (m : Master S) (key : String) (type : ReplicaType)
      → Sound m
      → Sound (put_revoke env m key type).1
  unfolding put_revoke store
  put_revoke-Sound m key type w = elim (Option-cases (access env m key).0) [
    | inl e ↦ rw (e, put_revoke) (access-Sound m key w)
    | inr (o, e) ↦ elim (Option-cases (has_diff_rep_status o processing type)) [
      | inr (s, e') ↦ rw (e, put_revoke, e') (access-Sound m key w)
      | inl e' ↦
          let w' =
            free_replicas-IsWellFormed env (access env m key).1 (erased_replicas type o)
              (access-Sound m key w) in
          elim (Bool-cases (is_valid (erase_replica type o))) [
            | inl v ↦ rw (put_revoke, e, e', v) w'
            | inr v ↦
                rw (put_revoke, e, e', v)
                  (discard-Sound (free_replicas env (access env m key).1 (erased_replicas type o))
                    key (erase_replica type o) w')
          ]
    ]
  ]

  pub remove-Sound :
      (now : ℕ) (m : Master S) (key : String) → Sound m → Sound (remove env now m key).1
  unfolding remove
  remove-Sound now m key w = elim (Option-cases (access env m key).0) [
    | inl e ↦ rw (e, remove) (access-Sound m key w)
    | inr (o, e) ↦ elim (Bool-cases (is_idle now o)) [
      | inl s ↦
          rw (remove_idle env now m key o e s)
            (discard-Sound (access env m key).1 key o (access-Sound m key w))
      | inr s ↦ rw (remove_busy env now m key o e s) (access-Sound m key w)
    ]
  ]

  pub remove_by_regex-Sound :
      (clock : String → ℕ) (m : Master S) (pattern : Option (String → Bool))
      → Sound m
      → Sound (remove_by_regex env clock m pattern).1
  unfolding remove_by_regex
  remove_by_regex-Sound clock m none w = w
  remove_by_regex-Sound clock m (some p) w =
      free_replicas-IsWellFormed env (record m { shards = _ }) _ w

  pub remove_all-Sound : (now : ℕ) (m : Master S) → Sound m → Sound (remove_all env now m).1
  unfolding remove_all
  remove_all-Sound now m w = free_replicas-IsWellFormed env (record m { shards = _ }) _ w

  finish_remount-Sound :
      (m : Master S) (client : Uuid)
      → Sound m
      → (code : ErrorCode) → Sound (finish_remount env m client code).1
  unfolding finish_remount
  finish_remount-Sound m client w ok_code = w
  finish_remount-Sound m client w code = w

  pub remount-Sound :
      (m : Master S) (segments : List Segment) (client : Uuid)
      → Sound m
      → Sound (remount env m segments client).1
  unfolding remount
  remount-Sound m segments client w = elim (Bool-cases (contains m.ok_client client)) [
    | inl known ↦ rw known w
    | inr new ↦ elim (Option-cases (env.queue_push m.client_ping_queue client)) [
      | inl e ↦ rw (new, e) w
      | inr (q, e) ↦
          rw (new, e)
            (finish_remount-Sound _ client
              (remount_segment-IsWellFormed env.engine m.segments segments client w)
              (remount_segment env.engine m.segments segments client).0)
    ]
  ]

  pub ping-Sound : (m : Master S) (client : Uuid) → Sound m → Sound (ping env m client).1
  unfolding ping
  ping-Sound m client w = elim (Option-cases (env.queue_push m.client_ping_queue client)) [
    | inl e ↦ rw (e, ping) w
    | inr (q, e) ↦ rw (e, ping) w
  ]

  insert_object-Sound :
      (m : Master S) (key : String) (total : ℕ) (pin : Bool) (rs : List Replica)
      → Sound m
      → Sound (insert_object env m key total pin rs).1
  unfolding insert_object
  insert_object-Sound m key total pin rs w = elim (Option-cases (object env m key)) [
    | inl e ↦ rw (insert_object, e) w
    | inr (o, e) ↦ rw (insert_object, e) (free_replicas-IsWellFormed env m rs w)
  ]

  finish_put-Sound :
      (m : Master S) (key : String) (total : ℕ) (rc : ReplicateConfig)
      → Sound m
      → (r : Expected (List Replica)) → Sound (finish_put env m key total rc r).1
  unfolding finish_put
  finish_put-Sound m key total rc w (ok rs) = insert_object-Sound m key total rc.with_soft_pin _ w
  finish_put-Sound m key total rc w (err invalid_params) = w
  finish_put-Sound m key total rc w (err code) = w

  put_allocated-Sound :
      (m : Master S) (key : String) (slices : List ℕ) (rc : ReplicateConfig)
      → Sound m
      → Sound (put_allocated env m key slices rc).1
  unfolding put_allocated
  put_allocated-Sound m key slices rc w =
      let t : Attempt S = record {
        memory = m.segments.memory;
        draws = m.draws;
        retry_counter = m.retry_counter;
      } in
      let run =
        allocate_replicas env.engine env.rng m.segments.allocators m.segments.allocators_by_name rc
          (alive m) t slices in
      finish_put-Sound
        (record m {
          segments = record m.segments { memory = run.1.memory };
          draws = run.1.draws;
          retry_counter = run.1.retry_counter;
        })
        key (total_length slices 0) rc
        (SameHeap-IsWellFormed m.segments run.1.memory
          (allocate_replicas-SameHeap env.engine env.rng m.segments.allocators
            m.segments.allocators_by_name rc (alive m) t slices)
          w)
        run.0

  pub put_start-Sound :
      (m : Master S) (key : String) (slices : List ℕ) (rc : ReplicateConfig)
      → Sound m
      → Sound (put_start env m key slices rc).1
  unfolding put_start store
  put_start-Sound m key slices rc w = elim (Bool-cases (is_bad_put m.config key slices rc)) [
    | inl bad ↦ rw (put_start, bad) w
    | inr good ↦ elim (Option-cases (object env m key)) [
      | inl e ↦ rw (put_start, good, e) (put_allocated-Sound m key slices rc w)
      | inr (o, e) ↦
          let w' = free_replicas-IsWellFormed env m (stale_replicas (alive m) o) w in
          elim (Bool-cases (is_stale (alive m) o)) [
            | inl stale ↦
                rw (put_start, good, e, stale)
                  (put_allocated-Sound
                    (store env (free_replicas env m (stale_replicas (alive m) o)) key
                      (clean (alive m) o))
                    key slices rc w')
            | inr live ↦ rw (put_start, good, e, live) w'
          ]
    ]
  ]
