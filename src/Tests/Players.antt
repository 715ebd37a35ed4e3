-- ===== src/Tests/Players.antt =====
-- Runs of parties, of the waiting list and of the limit on connections.
use otx_teste.Common.{
  Option, none, some, Bool, ℕ, ◌≡◌, refl, arith, true, false, ◌+◌, ◌&&◌, List, [], ◌∷◌, none, some,
}
use otx_teste.Common.Sets.{mem, erase}
use otx_teste.Party.{
  Env, Party, empty, leave_party, invite_player, join_party, update_shared_experience,
  clear_player_points, find_ticks,
}
use otx_teste.Party.Operations.{IsConsistent}
use otx_teste.Party.Calls.{Call, invite, join, leave, pass, new_party, run, run-new_party}
use otx_teste.Party.Leaving.{leave_party_left}
use otx_teste.WaitingList.{
  Wait, WaitListInfo, Client, Server, client_login, cleanup_list, skips_queue,
}
use otx_teste.WaitingList.Login.{Answers, cleaned, client_login-Answers, cleanup_list_overdue}
use otx_teste.Ban.{ConnectBlock, find, accept_connection}
use otx_teste.Ban.Throttle.{
  AreBlocks, AreAll, answers, after, answers-spaced, answers-blocked, answers-sixth,
}

abbrev calm : Env
calm = record {
  level = λ x. 100 + x;
  position = λ x. record { x = 1000; y = 1000; z = 7 };
  not_gain_in_fight = λ x. false;
  now = 5000;
  pz_locked = 60000;
  on_join = true;
  on_leave = true;
  on_disband = true;
}

-- Player 1 invites 2 and 3, both join, 1 leaves, and 2 hands the party to 3.
abbrev evening : List (Env × Call)
evening =
    (calm, invite 1 2)
    ∷ (calm, invite 1 3)
    ∷ (calm, join 2 1)
    ∷ (calm, join 3 1)
    ∷ (calm, leave 1 false)
    ∷ (calm, pass 2 3)
    ∷ []

evening_leader : (run evening (new_party 9 1 (λ x. none))).leader ≡ 3
unfolding run new_party invite_player mem join_party update_shared_experience erase leave_party
    clear_player_points find_ticks
evening_leader = refl

run-new_party_example : IsConsistent (run evening (new_party 9 1 (λ x. none)))
run-new_party_example =
    run-new_party 9 1 (λ x. none) evening (λ x. refl)
      (refl, (refl, (refl, (refl, (refl, (refl, tt))))))

abbrev pair : Party
pair = record {
  this = 9;
  leader = 1;
  member_list = 2 ∷ [];
  invite_list = [];
  ticks_map = [];
  shared_exp_active = false;
  shared_exp_enabled = false;
  alive = true;
  party_of = λ x. some 9;
  invited = λ x. false;
}

leave_party_left_example :
    ((leave_party calm 1 pair).0.party_of 1 ≡ none)
    × ((leave_party calm 1 pair).0.alive && empty (leave_party calm 1 pair).0 ≡ false)
unfolding leave_party
leave_party_left_example = leave_party_left calm 1 pair refl refl

-- A full server, and two players who wait.
abbrev full : Server
full = record { max_players = 100; players_online = 99; time = 20000 }

abbrev two_waiting : WaitListInfo
two_waiting = record {
  priority_wait_list = record { timeout = 40000; player_guid = 7 } ∷ [];
  wait_list = record { timeout = 40000; player_guid = 8 } ∷ [];
}

abbrev client : ℕ → Client
client g = record { guid = g; can_always_login = false; account_type = 1; is_premium = false }

abbrev answer : Option (WaitListInfo × Bool) → Option Bool
answer none = none
answer (some a) = some a.1

-- There is room for the first, who is in the priority list.
first_undefined : client_login full (client 7) two_waiting ≡ none
unfolding client_login
first_undefined = refl

second_refused : answer (client_login full (client 8) two_waiting) ≡ some false
unfolding client_login
second_refused = refl

-- Without the first, the second comes in and leaves the queue empty.
second_admitted :
    client_login full (client 8) (record two_waiting { priority_wait_list = [] })
    ≡ some (record { priority_wait_list = []; wait_list = [] }, true)
unfolding client_login
second_admitted = refl

client_login-Answers_example :
    Answers full (client 8) (cleaned 20000 two_waiting) (client_login full (client 8) two_waiting)
unfolding skips_queue mem
client_login-Answers_example =
    client_login-Answers full (client 8) two_waiting (refl, (refl, tt)) refl

abbrev overdue : List Wait
overdue = record { timeout = 100; player_guid = 7 } ∷ record { timeout = 200; player_guid = 8 } ∷ []

cleanup_list_overdue_example : cleanup_list 1000 overdue ≡ overdue
cleanup_list_overdue_example =
    cleanup_list_overdue 1000 overdue (omega arith) (omega arith, (omega arith, tt))

-- An address that has connected five times, the last time at second 10.
abbrev busy : List (ℕ × ConnectBlock)
busy = (77, record { last_attempt = 10000; block_time = 0; count = 5 }) ∷ []

abbrev blocked : List (ℕ × ConnectBlock)
blocked = (77, record { last_attempt = 10000; block_time = 13000; count = 0 }) ∷ []

flood :
    answers 77 (1000 ∷ 1100 ∷ 1200 ∷ 1300 ∷ 1400 ∷ 1500 ∷ 4000 ∷ []) []
    ≡ true ∷ true ∷ true ∷ true ∷ true ∷ false ∷ false ∷ []
unfolding accept_connection
flood = refl

answers-sixth_example : AreAll false (answers 77 (10200 ∷ 11000 ∷ 13100 ∷ []) busy)
unfolding find
answers-sixth_example =
    answers-sixth 77 10200 busy (record { last_attempt = 10000; block_time = 0; count = 5 })
      (11000 ∷ 13100 ∷ []) refl refl (omega arith) (omega arith) (omega arith)
      (omega arith, (omega arith, tt)) (omega arith)

-- The third attempt comes after the end of the block as it was at first.
answers-blocked_example :
    AreAll false (answers 77 (10200 ∷ 12900 ∷ 13400 ∷ []) blocked)
    × ((c : ConnectBlock) × (find 77 (after 77 (10200 ∷ 12900 ∷ 13400 ∷ []) blocked) ≡ some c)
        × (c.block_time ≡ 13750))
unfolding find
answers-blocked_example =
    answers-blocked 77 blocked (record { last_attempt = 10000; block_time = 13000; count = 0 })
      (10200 ∷ 12900 ∷ 13400 ∷ []) refl (omega arith, (omega arith, (omega arith, tt)))
      (omega arith)

answers-spaced_example : AreAll true (answers 78 (1000 ∷ 7000 ∷ 13000 ∷ []) blocked)
unfolding find
answers-spaced_example =
    answers-spaced 78 1000 blocked (7000 ∷ 13000 ∷ []) refl (omega arith)
      (omega arith, omega arith, (omega arith, omega arith, tt))

no_blocks : AreBlocks []
unfolding find
no_blocks = record { block = λ ip b e. cc }
