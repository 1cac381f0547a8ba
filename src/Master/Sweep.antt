-- ===== src/Master/Sweep.antt =====
-- The operations that go over all objects (mooncake-store/src/master_service.cpp): RemoveAll,
-- RemoveByRegex, ClearInvalidHandles, and UnmountSegment.
use mathlib.Core.Path.{fun_ext}
use mooncake.Prelude.{
  ℕ, ◌≡◌, ◌≢◌, ap, sym, subst, ◌∙◌, String, Bool, ◌&&◌, Option, none, some, List, [], is_empty,
  if◌then◌else◌, arith, inl, inr, Option-cases, Bool-cases,
}
use mooncake.Prelude.Dict.{and_then, find}
use mooncake.Types.{Uuid, uuid_eq, ok}
use mooncake.Replica.{Replica}
use mooncake.Segment.{MountedSegment, unmounting, is_alive, detach, commit_unmount_segment}
use mooncake.Segment.Invariant.{IsWellFormed}
use mooncake.Segment.Alive.{is_alive-commit_unmount_segment, detach-IsMap, detach_unheld}
use mooncake.Segment.Unmount.{prepare_unmount_segment_ok}
use mooncake.Metadata.{ObjectMetadata, clean, is_lease_expired, is_all_replicas_complete}
use mooncake.Master.{Env, Master, alive, object, free_replicas}
use mooncake.Master.View.{object-free_replicas, cleaned}
use mooncake.Master.Loops.{HasMaps, object-walk_shards, walk_shards-HasMaps}
use mooncake.Master.Fresh.{IsFresh, clean-IsFresh}
use mooncake.Master.Remove.{
  remove_all, remove_by_regex, remove_expired, remove_matching, nothing_removed,
}
use mooncake.Master.Mount.{clear_entry, clear_invalid_handles, unmount, finish_unmount}

abbrev pub unless : (ObjectMetadata → Bool) → ObjectMetadata → Option ObjectMetadata
unless p o = if p o then none else some o

module _ {S : Type 0} (env : Env S) where
  remove_expired_decided :
      (now : ℕ) (k : String) (o : ObjectMetadata) (a : _)
      → (remove_expired now k o a).0 ≡ unless (is_lease_expired now) o
  unfolding remove_expired
  remove_expired_decided now k o a = ground arith

  -- In a service no shard of which holds a key twice, RemoveAll removes exactly the objects whose
  -- lease has run out, complete or not.
  pub object-remove_all :
      (now : ℕ) (m : Master S) (key : String)
      → HasMaps m
      → object env (remove_all env now m).1 key
        ≡ and_then (object env m key) (unless (is_lease_expired now))
  unfolding remove_all
  object-remove_all now m key w =
      object-free_replicas env _ _ key
      ∙ object-walk_shards (remove_expired now) (λ k. unless (is_lease_expired now))
          (remove_expired_decided now) env m nothing_removed key w

  abbrev pub is_removable : (String → Bool) → (String → ℕ) → String → ObjectMetadata → Bool
  is_removable matches clock key o =
      matches key && is_lease_expired (clock key) o && is_all_replicas_complete o

  remove_matching_decided :
      (matches : String → Bool) (clock : String → ℕ) (k : String) (o : ObjectMetadata) (a : _)
      → (remove_matching matches clock k o a).0 ≡ unless (is_removable matches clock k) o
  unfolding remove_matching
  remove_matching_decided matches clock k o a = ground arith

  -- In a service no shard of which holds a key twice, RemoveByRegex removes exactly the objects
  -- whose key matches, whose lease has run out when the loop reaches them, and whose replicas are
  -- all complete.
  pub object-remove_by_regex :
      (clock : String → ℕ) (m : Master S) (matches : String → Bool) (key : String)
      → HasMaps m
      → object env (remove_by_regex env clock m (some matches)).1 key
        ≡ and_then (object env m key) (unless (is_removable matches clock key))
  unfolding remove_by_regex
  object-remove_by_regex clock m matches key w =
      object-free_replicas env _ _ key
      ∙ object-walk_shards (remove_matching matches clock)
          (λ k. unless (is_removable matches clock k)) (remove_matching_decided matches clock) env m
          nothing_removed key w

  clear_entry_decided :
      (m : Master S) (k : String) (o : ObjectMetadata) (a : List Replica)
      → (clear_entry (alive m) k o a).0 ≡ cleaned env m o
  unfolding clear_entry
  clear_entry_decided m k o a = ground arith

  -- In a service no shard of which holds a key twice, ClearInvalidHandles takes the stale replicas
  -- from every object, and the objects that are left with none.
  pub object-clear_invalid_handles :
      (m : Master S) (key : String)
      → HasMaps m
      → object env (clear_invalid_handles env m) key ≡ and_then (object env m key) (cleaned env m)
  unfolding clear_invalid_handles
  object-clear_invalid_handles m key w =
      object-free_replicas env _ _ key
      ∙ object-walk_shards (clear_entry (alive m)) (λ k. cleaned env m) (clear_entry_decided m) env
          m [] key w

  pub clear_invalid_handles-HasMaps :
      (m : Master S) → HasMaps m → HasMaps (clear_invalid_handles env m)
  unfolding clear_invalid_handles free_replicas
  clear_invalid_handles-HasMaps m w =
      walk_shards-HasMaps (clear_entry (alive m)) (λ k. cleaned env m) (clear_entry_decided m) m []
        w

  -- An object that is left after ClearInvalidHandles is fresh.
  clear_invalid_handles-IsFresh :
      (m : Master S) (key : String) (o : ObjectMetadata)
      → HasMaps m
      → object env (clear_invalid_handles env m) key ≡ some o
      → IsFresh (alive m) o
  clear_invalid_handles-IsFresh m key o w h = elim (Option-cases (object env m key)) [
    | inl e ↦ cc (rw (object-clear_invalid_handles m key w, e) at h)
    | inr (x, e) ↦ elim (Bool-cases (is_empty (clean (alive m) x).replicas)) [
      | inl s ↦ cc (rw (object-clear_invalid_handles m key w, e, s) at h)
      | inr s ↦
          let q : some (clean (alive m) x) ≡ some o =
            (rw (object-clear_invalid_handles m key w, e, s) at h) in
          let eq : clean (alive m) x ≡ o = cc in
          subst (IsFresh (alive m)) eq (clean-IsFresh (alive m) x s)
    ]
  ]

  abbrev pub cleared : Master S → Uuid → MountedSegment → Master S
  cleared m id ms = clear_invalid_handles env (record m { segments = detach m.segments id ms })

  pub unmount_ok :
      (m : Master S) (id client : Uuid) (ms : MountedSegment)
      → find id m.segments.mounted_segments ≡ some ms
      → ms.status ≢ unmounting
      → unmount env m id client ≡ (
        ok tt,
        record (cleared m id ms) {
          segments =
              (commit_unmount_segment (cleared m id ms).segments id client ms.segment.size).1;
        },
      )
  unfolding unmount finish_unmount commit_unmount_segment
  unmount_ok m id client ms there ready =
      ap (finish_unmount env m id client)
        (prepare_unmount_segment_ok m.segments id 0 ms there ready)

  -- Committing an unmount kills no allocator: the segment that goes holds none any more.
  is_alive-committed :
      (m : Master S) (id client : Uuid) (ms : MountedSegment) (b : ℕ)
      → IsWellFormed m.segments
      → is_alive (commit_unmount_segment (cleared m id ms).segments id client ms.segment.size).1 b
        ≡ is_alive (detach m.segments id ms) b
  unfolding is_alive clear_invalid_handles free_replicas
  is_alive-committed m id client ms b w =
      is_alive-commit_unmount_segment (cleared m id ms).segments id client ms.segment.size b
        (detach-IsMap m.segments id ms w.mounted_map) (detach_unheld m.segments id ms)

  -- In a service with a well-formed segment manager, no shard of which holds a key twice: after an
  -- UnmountSegment of a segment in the table that is not unmounting yet, every object that is left
  -- has a replica, and only live ones, so that none of them points into the unmounted segment.
  pub unmount-IsFresh :
      (m : Master S) (id client : Uuid) (ms : MountedSegment) (key : String) (o : ObjectMetadata)
      → HasMaps m
      → IsWellFormed m.segments
      → find id m.segments.mounted_segments ≡ some ms
      → ms.status ≢ unmounting
      → object env (unmount env m id client).1 key ≡ some o
      → IsFresh (alive (unmount env m id client).1) o
  unfolding object
  unmount-IsFresh m id client ms key o w sound there ready h =
      rw (unmount_ok m id client ms there ready) (
        subst (λ (live : ℕ → Bool). IsFresh live o)
          (sym (fun_ext (λ b. is_alive-committed m id client ms b sound)))
          (clear_invalid_handles-IsFresh (record m { segments = detach m.segments id ms }) key o w
            (rw (unmount_ok m id client ms there ready) at h)))
