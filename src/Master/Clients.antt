-- ===== src/Master/Clients.antt =====
-- Which clients a round of ClientMonitorFunc drops (mooncake-store/src/master_service.cpp).
use mooncake.Prelude.{
  ℕ, ◌≡◌, refl, ap, ◌∙◌, true, false, some, List, [], ◌∷◌, ◌++◌, if◌then◌else◌, contains,
  erase_first, is_empty, ◌==◌, ==_iff, ==_refl, arith, inl, inr, Bool-cases,
}
use mooncake.Prelude.Dict.{find, put, walk, IsMap, find-put, put-IsMap}
use mooncake.Prelude.Int.{ℤ, pos, ◌+ℤ◌, ◌-ℤ◌, less, milliseconds}
use mooncake.Prelude.Distinct.{contains-append}
use mooncake.Types.{Uuid, uuid_eq}
use mooncake.Master.{Env, Master, free_replicas}
use mooncake.Master.Mount.{clear_invalid_handles}
use mooncake.Master.Monitor.{
  ClientTtl, note_pings, expire_entry, drop_clients, unmount_expired, monitor_round,
  prepare_clients,
}

find-note_pings :
    (until : ℤ) (cs : List Uuid) (ttl : ClientTtl) (c : Uuid)
    → find c (note_pings until cs ttl) ≡ (if contains cs c then some until else find c ttl)
unfolding note_pings
find-note_pings until [] ttl c = refl
find-note_pings until (x ∷ cs) ttl c =
    find-note_pings until cs (put x until ttl) c ∙ ground (arith, find-put x c until ttl)

note_pings-IsMap :
    (until : ℤ) (cs : List Uuid) (ttl : ClientTtl) → IsMap ttl → IsMap (note_pings until cs ttl)
unfolding note_pings
note_pings-IsMap until [] ttl w = w
note_pings-IsMap until (x ∷ cs) ttl w =
    note_pings-IsMap until cs (put x until ttl) (put-IsMap x until ttl w)

-- A client that has not run out is not added to those that have.
contains-expired :
    (now : ℕ) (c : Uuid) (ttl : ClientTtl) (expired : List Uuid)
    → IsMap ttl
    → ((t : ℤ) → find c ttl ≡ some t → less t (pos now) ≡ false)
    → contains (walk (expire_entry now) ttl expired).1 c ≡ contains expired c
unfolding walk expire_entry find
contains-expired now c [] expired w late = refl
contains-expired now c ((k, t) ∷ ttl) expired w late = ground (
  arith,
  late t,
  ==_iff k c,
  ==_refl c,
  contains-append k c expired,
  contains-expired now c ttl (expired ++ k ∷ []) w.1
      (λ s f. late s (ground (arith, ==_iff k c, w.0))),
  contains-expired now c ttl expired w.1 (λ s f. late s (ground (arith, ==_iff k c, w.0))),
)

contains-erase_first_ne :
    (x c : Uuid) (xs : List Uuid) → (x == c) ≡ false → contains (erase_first x xs) c ≡ contains xs c
contains-erase_first_ne x c [] h = refl
contains-erase_first_ne x c (y ∷ ys) h =
    ground (arith, contains-erase_first_ne x c ys h, ==_iff x c, ==_iff y x, ==_iff y c)

later : (now n : ℕ) (ttl : ℤ) → ttl ≡ pos n → less (pos now +ℤ milliseconds ttl) (pos now) ≡ false
unfolding ◌+ℤ◌
later now n ttl e = rw (e) (ground arith)

module _ {S : Type 0} where
  contains-drop_clients :
      (m : Master S) (cs : List Uuid) (c : Uuid)
      → contains cs c ≡ false
      → contains (drop_clients m cs).ok_client c ≡ contains m.ok_client c
  unfolding drop_clients
  contains-drop_clients m [] c h = refl
  contains-drop_clients m (x ∷ cs) c h =
      contains-drop_clients
        (if contains m.ok_client x
          then record m {
            ok_client = erase_first x m.ok_client;
            active_clients = m.active_clients -ℤ pos 1;
          }
          else m)
        cs c (ground arith)
      ∙ ground (arith, contains-erase_first_ne x c m.ok_client)

  ok_client-unmount_expired :
      (env : Env S) (m : Master S) (expired : List Uuid)
      → (unmount_expired env m expired).ok_client ≡ (drop_clients m expired).ok_client
  unfolding unmount_expired clear_invalid_handles free_replicas
  ok_client-unmount_expired env m expired =
      elim (Bool-cases
        (is_empty (prepare_clients (drop_clients m expired).segments expired []).0)) [
          | inl e ↦ rw e refl
          | inr e ↦ rw e refl
        ]

  -- With a time to live that is not negative, a client that has a ping in the queue keeps its status
  -- through a round of the monitor, however long ago its earlier pings were; the table of times holds
  -- no client twice.
  pub monitor_round_pinged :
      (env : Env S) (now n : ℕ) (m : Master S) (ttl : ClientTtl) (c : Uuid)
      → m.config.client_live_ttl_sec ≡ pos n
      → IsMap ttl
      → contains m.client_ping_queue c ≡ true
      → contains (monitor_round env now m ttl).0.ok_client c ≡ contains m.ok_client c
  unfolding monitor_round
  monitor_round_pinged env now n m ttl c positive w pinged =
      let until = pos now +ℤ milliseconds m.config.client_live_ttl_sec in
      let in_time = later now n m.config.client_live_ttl_sec positive in
      let noted = note_pings until m.client_ping_queue ttl in
      let expired = (walk (expire_entry now) noted []).1 in
      let there : find c noted ≡ some until =
        find-note_pings until m.client_ping_queue ttl c ∙ rw pinged refl in
      let kept : contains expired c ≡ false =
        contains-expired now c noted [] (note_pings-IsMap until m.client_ping_queue ttl w)
          (λ t f. ground (arith, there)) in
      elim (Bool-cases (is_empty expired)) [
        | inl e ↦ rw e refl
        | inr e ↦ rw e (
            ap (λ (l : List Uuid). contains l c)
              (ok_client-unmount_expired env (record m { client_ping_queue = [] }) expired)
            ∙ contains-drop_clients (record m { client_ping_queue = [] }) expired c kept)
      ]
