-- ===== src/WaitingList/Login.antt =====
-- `clientLogin` of engine/src/waitlist.cpp on the whole queue.
use mathlib.Core.Path.{subst}
use mathlib.Core.List.{append_assoc}
use otx_teste.Common.{
  ℕ, ◌+◌, ◌≡◌, ◌≤◌, Option, none, some, refl, sym, ap, ◌∙◌, Bool, true, false, ◌||◌, List, [], ◌∷◌,
  ◌++◌, arith, ◌==◌, leb, if_either, leb→le, ◌<◌, ◌^◌, Bool-cases, inl, inr,
}
use otx_teste.Common.Sets.{
  mem, Distinct, mem-append, mem-erase, erase-Distinct, append-Distinct, append_middle-Distinct,
}
use otx_teste.WaitingList.{
  Wait, WaitListInfo, Client, Server, find_from, find_client, cleanup_list, erase_client,
  set_timeout, at_client, skips_queue, wait_in_line, client_login, get_client_slot, has_timed_out,
}
use otx_teste.WaitingList.Queue.{
  guids, guids-append, waiting, cleanup_list-Distinct, find_from-found, find_client-found,
  waiting-erase, waiting-set_timeout,
}

-- Every timeout lies before the present.
abbrev pub AreOverdue : ℕ → List Wait → Type 0
AreOverdue time [] = Unit {0}
AreOverdue time (w ∷ ws) = (w.timeout < time) × AreOverdue time ws

-- What an answer of the queue to a client says of the queue afterwards.
pub record Answered (s : Server) (c : Client) (old : WaitListInfo) (a : WaitListInfo × Bool)
    : Type 0 where
  pub distinct : Distinct (waiting a.0)
  pub admitted : a.1 ≡ true → mem c.guid (waiting a.0) ≡ false
  pub in_turn : a.1 ≡ true → s.players_online + get_client_slot c.guid old ≤ s.max_players
  pub refused : a.1 ≡ false → mem c.guid (waiting a.0) ≡ true
  pub others : (g : ℕ) → (g == c.guid) ≡ false → mem g (waiting a.0) ≡ mem g (waiting old)

-- What the queue makes of a client: an answer, or, when the client is in the priority list and there
-- is room, the undefined `erase`.
abbrev pub Answers : Server → Client → WaitListInfo → Option (WaitListInfo × Bool) → Type 0
Answers s c old (some a) = Answered s c old a
Answers s c old none =
    (mem c.guid (guids old.priority_wait_list) ≡ true)
    × (s.players_online + get_client_slot c.guid old ≤ s.max_players)

module _ (s : Server) (c : Client) (info : WaitListInfo) (d : Distinct (waiting info)) where
  let_in :
      (find_client c.guid info).0 ≡ true
      → leb (s.players_online + (find_client c.guid info).1) s.max_players ≡ true
      → (find_from c.guid 1 info.priority_wait_list).0 ≡ false
      → Answered s c info (record info { wait_list = erase_client c.guid info.wait_list }, true)
  unfolding get_client_slot
  let_in found room second =
      let e = waiting-erase c.guid info second in
      record {
        distinct = subst Distinct (sym e) (erase-Distinct c.guid (waiting info) d);
        admitted =
            λ _. ap (mem c.guid) e ∙ (ground (arith, mem-erase c.guid c.guid (waiting info) d));
        in_turn = λ _. rw found (leb→le _ _ room);
        refused = λ h. cc;
        others = λ g ne. ap (mem g) e ∙ (ground (arith, mem-erase c.guid g (waiting info) d));
      }

  let_in_undefined :
      (find_client c.guid info).0 ≡ true
      → leb (s.players_online + (find_client c.guid info).1) s.max_players ≡ true
      → (find_from c.guid 1 info.priority_wait_list).0 ≡ true
      → Answers s c info none
  unfolding get_client_slot
  let_in_undefined found room first =
      (sym (find_from-found c.guid 1 info.priority_wait_list) ∙ first, rw found (leb→le _ _ room))

  keep_waiting :
      (t : ℕ)
      → (find_client c.guid info).0 ≡ true
      → Answered s c info (at_client c.guid (set_timeout c.guid t) info, false)
  keep_waiting t found =
      let e = waiting-set_timeout c.guid t info in
      record {
        distinct = subst Distinct (sym e) d;
        admitted = λ h. cc;
        in_turn = λ h. cc;
        refused = λ _. ap (mem c.guid) e ∙ sym (find_client-found c.guid info) ∙ found;
        others = λ g _. ap (mem g) e;
      }

  -- A queue with the client put in anywhere.
  joined :
      (new : WaitListInfo)
      → mem c.guid (waiting info) ≡ false
      → Distinct (waiting new)
      → ((g : ℕ) → mem g (waiting new) ≡ ((g == c.guid) || mem g (waiting info)))
      → Answered s c info (new, false)
  joined new absent distinct found = record {
    distinct = distinct;
    admitted = λ h. cc;
    in_turn = λ h. cc;
    refused = λ _. ground (arith, found c.guid);
    others = λ g ne. ground (arith, found g);
  }

  join_priority :
      (t : ℕ)
      → (find_client c.guid info).0 ≡ false
      → Answered s c info (
        record info {
          priority_wait_list =
              info.priority_wait_list ++ record { timeout = t; player_guid = c.guid } ∷ [];
        },
        false,
      )
  unfolding mem
  join_priority t new =
      let entry : Wait = record { timeout = t; player_guid = c.guid } in
      let first = guids info.priority_wait_list in
      let last = guids info.wait_list in
      let absent = sym (find_client-found c.guid info) ∙ new in
      let e = ap (λ l. l ++ last) (guids-append info.priority_wait_list (entry ∷ [])) in
      joined _ absent (subst Distinct (sym e) (append_middle-Distinct c.guid first last absent d))
        λ g.
          ap (mem g) e
          ∙ (ground (
            arith,
            mem-append g (first ++ c.guid ∷ []) last,
            mem-append g first (c.guid ∷ []),
            mem-append g first last,
          ))

  join_regular :
      (t : ℕ)
      → (find_client c.guid info).0 ≡ false
      → Answered s c info (
        record info {
          wait_list = info.wait_list ++ record { timeout = t; player_guid = c.guid } ∷ [];
        },
        false,
      )
  unfolding mem
  join_regular t new =
      let entry : Wait = record { timeout = t; player_guid = c.guid } in
      let first = guids info.priority_wait_list in
      let last = guids info.wait_list in
      let absent = sym (find_client-found c.guid info) ∙ new in
      let e =
        ap (◌++◌ first) (guids-append info.wait_list (entry ∷ []))
        ∙ sym (append_assoc first last (c.guid ∷ [])) in
      joined _ absent (subst Distinct (sym e) (append-Distinct c.guid (first ++ last) absent d))
        λ g. ap (mem g) e ∙ (ground (arith, mem-append g (first ++ last) (c.guid ∷ [])))

  wait_in_line-Answers : Answers s c info (wait_in_line s c info)
  unfolding wait_in_line
  wait_in_line-Answers = elim (Bool-cases (find_client c.guid info).0) [
    | inl found ↦
        elim (Bool-cases (leb (s.players_online + (find_client c.guid info).1) s.max_players)) [
          | inl room ↦
              simp (found, room)
                (if_either (Answers s c info) (find_from c.guid 1 info.priority_wait_list).0
                  (let_in_undefined found room) (let_in found room))
          | inr full ↦ simp (found, full) (keep_waiting _ found)
        ]
    | inr new ↦ elim (Bool-cases c.is_premium) [
      | inl premium ↦ simp (new, premium) (join_priority _ new)
      | inr free ↦ simp (new, free) (join_regular _ new)
    ]
  ]

-- The lists after the entries that have timed out are gone.
abbrev pub cleaned : ℕ → WaitListInfo → WaitListInfo
cleaned time info = record {
  priority_wait_list = cleanup_list time info.priority_wait_list;
  wait_list = cleanup_list time info.wait_list;
}

-- In a queue where nobody waits twice, a client who has to queue gets an answer, except when the
-- client stands in the cleaned priority list and the players online and the client's slot are within
-- the limit: then the `erase` through `waitList` is undefined. With an answer, the client is let in
-- only when the players online and the slot are within the limit, and then waits no longer; a client
-- who is refused waits; every other player of the cleaned queue waits as before, and nobody twice.
pub client_login-Answers :
    (s : Server) (c : Client) (info : WaitListInfo)
    → Distinct (waiting info)
    → skips_queue s c info ≡ false
    → Answers s c (cleaned s.time info) (client_login s c info)
unfolding client_login
client_login-Answers s c info d queue = simp queue (
    wait_in_line-Answers s c (cleaned s.time info)
      (cleanup_list-Distinct s.time info.priority_wait_list info.wait_list d))

-- Cleaning a list whose timeouts all lie before the present takes nobody out of it.
pub cleanup_list_overdue :
    (time : ℕ) (ws : List Wait) → time < 2 ^ 64 → AreOverdue time ws → cleanup_list time ws ≡ ws
unfolding cleanup_list has_timed_out
cleanup_list_overdue time [] h o = refl
cleanup_list_overdue time (w ∷ ws) h o = ground (arith, cleanup_list_overdue time ws h o.1)
