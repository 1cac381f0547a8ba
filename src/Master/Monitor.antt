-- ===== src/Master/Monitor.antt =====
-- One round of ClientMonitorFunc (mooncake-store/src/master_service.cpp): clients that have not sent a
-- ping for their time to live lose their status and their segments.
use mooncake.Prelude.{
  ℕ, Option, none, some, List, [], ◌∷◌, ◌++◌, if◌then◌else◌, contains, erase_first, is_empty,
}
use mooncake.Prelude.Dict.{Dict, put, walk}
use mooncake.Prelude.Int.{ℤ, pos, ◌+ℤ◌, ◌-ℤ◌, less, milliseconds}
use mooncake.Types.{ok_code, Uuid, uuid_eq, Segment}
use mooncake.Segment.{
  SegmentManager, prepare_unmount_segment, commit_unmount_segment, get_client_segments,
}
use mooncake.Master.{Env, Master}
use mooncake.Master.Mount.{clear_invalid_handles}

-- When each client that has ever sent a ping runs out, in milliseconds; a time to live may be negative.
abbrev pub ClientTtl : Type 0
ClientTtl = Dict Uuid ℤ

-- A segment on its way out: unmount_segments[i], dec_capacities[i] and client_ids[i].
pub record Leaving : Type 0 where
  pub segment_id : Uuid
  pub dec_capacity : ℕ
  pub client_id : Uuid

-- client_ttl[client_id] = now + seconds(client_live_ttl_sec_), for each ping in the queue.
unfoldable pub note_pings : ℤ → List Uuid → ClientTtl → ClientTtl
note_pings until [] ttl = ttl
note_pings until (c ∷ cs) ttl = note_pings until cs (put c until ttl)

-- The loop that finds and erases the clients that have run out.
unfoldable pub expire_entry : ℕ → Uuid → ℤ → List Uuid → Option ℤ × List Uuid
expire_entry now client until expired =
    if less until (pos now) then (none, expired ++ client ∷ []) else (some until, expired)

module _ {S : Type 0} where
  -- ok_client_.erase for each expired client that is in the set.
  unfoldable pub drop_clients : Master S → List Uuid → Master S
  drop_clients m [] = m
  drop_clients m (c ∷ cs) =
      drop_clients
        (if contains m.ok_client c
          then record m {
            ok_client = erase_first c m.ok_client;
            active_clients = m.active_clients -ℤ pos 1;
          }
          else m)
        cs

  -- PrepareUnmountSegment for each segment of a client; those that fail are left out.
  unfoldable pub prepare_all :
      SegmentManager S → Uuid → List Segment → List Leaving → List Leaving × SegmentManager S
  prepare_all sm client [] out = (out, sm)
  prepare_all sm client (s ∷ ss) out =
      let (code, dec, sm') = prepare_unmount_segment sm s.id 0 in
      prepare_all sm' client ss (elim code [
        | ok_code ↦
            out ++ (record { segment_id = s.id; dec_capacity = dec; client_id = client }) ∷ []
        | _ ↦ out
      ])

  unfoldable pub prepare_clients :
      SegmentManager S → List Uuid → List Leaving → List Leaving × SegmentManager S
  unfolding prepare_all
  prepare_clients sm [] out = (out, sm)
  prepare_clients sm (c ∷ cs) out =
      let (code, segments) = get_client_segments sm c [] in
      let (out', sm') = prepare_all sm c segments out in prepare_clients sm' cs out'

  -- CommitUnmountSegment for each segment that was prepared.
  unfoldable pub commit_all : SegmentManager S → List Leaving → SegmentManager S
  commit_all sm [] = sm
  commit_all sm (l ∷ ls) =
      commit_all (commit_unmount_segment sm l.segment_id l.client_id l.dec_capacity).1 ls

  -- What the round does once it knows who has expired.
  unfoldable pub unmount_expired : Env S → Master S → List Uuid → Master S
  unfolding drop_clients prepare_clients commit_all
  unmount_expired env m expired =
      let m1 = drop_clients m expired in
      let (leaving, sm) = prepare_clients m1.segments expired [] in
      let m2 = record m1 { segments = sm } in
      if is_empty leaving
      then m2
      else let m3 = clear_invalid_handles env m2 in
        record m3 { segments = commit_all m3.segments leaving }

  -- One round, at the time `now` in milliseconds.
  unfoldable pub monitor_round : Env S → ℕ → Master S → ClientTtl → Master S × ClientTtl
  unfolding note_pings expire_entry unmount_expired
  monitor_round env now m ttl =
      let pinged =
        note_pings (pos now +ℤ milliseconds m.config.client_live_ttl_sec) m.client_ping_queue ttl in
      let m' = record m { client_ping_queue = [] } in
      let (ttl', expired) = walk (expire_entry now) pinged [] in
      ((if is_empty expired then m' else unmount_expired env m' expired), ttl')
