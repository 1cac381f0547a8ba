-- ===== src/Master/Mount.antt =====
-- MountSegment, ReMountSegment, UnmountSegment, ClearInvalidHandles, Ping, GetAllSegments and
-- QuerySegments
-- (mooncake-store/src/master_service.cpp).
use mooncake.Prelude.{
  ℕ, String, Bool, Option, none, some, List, [], ◌∷◌, ◌++◌, if◌then◌else◌, contains, string_eq,
}
use mooncake.Prelude.Dict.{walk}
use mooncake.Prelude.Int.{pos, ◌+ℤ◌}
use mooncake.Types.{
  Expected, ok, err, ErrorCode, ok_code, segment_already_exists, segment_not_found, internal_error,
  Uuid, uuid_eq, Segment, ClientStatus, ok_client, need_remount,
}
use mooncake.Replica.{Replica}
use mooncake.Segment.{
  SegmentManager, mount_segment, remount_segment, prepare_unmount_segment, commit_unmount_segment,
  get_all_segments as all_segments, query_segments, usage, unknown, fault,
}
use mooncake.Metadata.{ObjectMetadata, clean, is_stale, stale_replicas}
use mooncake.Master.{Env, Master, alive, free_replicas, walk_shards}

-- PingResponse
pub record PingResponse : Type 0 where
  pub view_version_id : ℕ
  pub client_status : ClientStatus

-- The loop body of ClearInvalidHandles: CleanupStaleHandles, and the object goes if nothing is left.
unfoldable pub clear_entry :
    (ℕ → Bool) → String → ObjectMetadata → List Replica → Option ObjectMetadata × List Replica
clear_entry live key o freed =
    let freed' = freed ++ stale_replicas live o in
    if is_stale live o then (none, freed') else (some (clean live o), freed')

-- How a bare ErrorCode becomes a result; an operation may count a second code as done already.
abbrev pub settle : ErrorCode → ErrorCode → Expected (Unit {0})
settle done ok_code = ok tt
settle segment_already_exists segment_already_exists = ok tt
settle done code = err code

module _ {S : Type 0} (env : Env S) where
  -- ClearInvalidHandles
  unfoldable pub clear_invalid_handles : Master S → Master S
  unfolding clear_entry
  clear_invalid_handles m =
      let (shards, freed) = walk_shards (walk (clear_entry (alive m))) m.shards [] in
      free_replicas env (record m { shards = shards }) freed

  -- MountSegment
  unfoldable pub mount : Master S → Segment → Uuid → Expected (Unit {0}) × Master S
  mount m segment client = elim (env.queue_push m.client_ping_queue client) [
    | none ↦ (err internal_error, m)
    | some q ↦
        let (code, sm) = mount_segment env.engine m.segments segment client in
        (settle segment_already_exists code, record m { segments = sm; client_ping_queue = q })
  ]

  -- ReMountSegment from the code that the segment manager returned on.
  unfoldable pub finish_remount : Master S → Uuid → ErrorCode → Expected (Unit {0}) × Master S
  finish_remount m client ok_code = (
    ok tt,
    record m { ok_client = client ∷ m.ok_client; active_clients = m.active_clients +ℤ pos 1 },
  )
  finish_remount m client code = (err code, m)

  -- ReMountSegment
  unfoldable pub remount : Master S → List Segment → Uuid → Expected (Unit {0}) × Master S
  unfolding finish_remount
  remount m segments client =
      if contains m.ok_client client
      then (ok tt, m)
      else elim (env.queue_push m.client_ping_queue client) [
        | none ↦ (err internal_error, m)
        | some q ↦
            let (code, sm) = remount_segment env.engine m.segments segments client in
            finish_remount (record m { segments = sm; client_ping_queue = q }) client code
      ]

  -- UnmountSegment after its first critical section: what PrepareUnmountSegment returned and left.
  unfoldable pub finish_unmount :
      Master S → Uuid → Uuid → ErrorCode × ℕ × SegmentManager S → Expected (Unit {0}) × Master S
  unfolding clear_invalid_handles
  finish_unmount m segment_id client_id (segment_not_found, dec, sm) =
      (ok tt, record m { segments = sm })
  finish_unmount m segment_id client_id (ok_code, dec, sm) =
      let m' = clear_invalid_handles (record m { segments = sm }) in
      let (code', sm') = commit_unmount_segment m'.segments segment_id client_id dec in
      (settle ok_code code', record m' { segments = sm' })
  finish_unmount m segment_id client_id (code, dec, sm) = (err code, record m { segments = sm })

  -- UnmountSegment
  unfoldable pub unmount : Master S → Uuid → Uuid → Expected (Unit {0}) × Master S
  unfolding finish_unmount
  unmount m segment_id client_id =
      finish_unmount m segment_id client_id (prepare_unmount_segment m.segments segment_id 0)

  -- Ping
  unfoldable pub ping : Master S → Uuid → Expected PingResponse × Master S
  ping m client = elim (env.queue_push m.client_ping_queue client) [
    | none ↦ (err internal_error, m)
    | some q ↦ (
      ok (record {
        view_version_id = m.view_version;
        client_status = if contains m.ok_client client then ok_client else need_remount;
      }),
      record m { client_ping_queue = q },
    )
  ]

module _ {S : Type 0} where
  -- GetAllSegments
  unfoldable pub get_all_segments : Master S → Expected (List String)
  get_all_segments m = ok (all_segments m.segments)

  -- QuerySegments: the used and the total bytes; `none` where the code would read past a vector.
  unfoldable pub query : Master S → String → Option (Expected (ℕ × ℕ))
  query m name = elim (query_segments m.segments name) [
    | usage used capacity ↦ some (ok (used, capacity))
    | unknown ↦ some (err segment_not_found)
    | fault ↦ none
  ]
