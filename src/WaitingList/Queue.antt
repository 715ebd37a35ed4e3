-- ===== src/WaitingList/Queue.antt =====
-- The lists of engine/src/waitlist.cpp as lists of characters.
use otx_teste.Common.{
  ℕ, ◌+◌, ◌≡◌, ◌<◌, ◌^◌, ◌↔◌, refl, sym, ◌∙◌, true, false, List, [], ◌∷◌, ◌++◌, arith, length,
  Bool-cases, inl, inr,
}
use otx_teste.Common.Sets.{mem, erase, Distinct, mem-append, erase-append}
use otx_teste.WaitingList.{
  Wait, WaitListInfo, has_timed_out, cleanup_list, find_from, find_client, erase_client,
  set_timeout, at_client,
}

abbrev pub guids : List Wait → List ℕ
guids [] = []
guids (w ∷ ws) = w.player_guid ∷ guids ws

-- Everybody who waits, the priority list first.
abbrev pub waiting : WaitListInfo → List ℕ
waiting info = guids info.priority_wait_list ++ guids info.wait_list

pub guids-append : (ws vs : List Wait) → guids (ws ++ vs) ≡ guids ws ++ guids vs
guids-append [] vs = refl
guids-append (w ∷ ws) vs = rw (guids-append ws vs)

-- An entry counts as timed out at the very millisecond of its timeout only, not later.
pub has_timed_out_iff :
    (time : ℕ) (w : Wait)
    → time < 2 ^ 64
    → w.timeout < 2 ^ 64
    → (has_timed_out time w ≡ true) ↔ (w.timeout ≡ time)
unfolding has_timed_out
has_timed_out_iff time w ht hw = (λ h. ground arith, λ h. ground arith)

pub mem-cleanup_list :
    (g time : ℕ) (ws : List Wait)
    → mem g (guids ws) ≡ false
    → mem g (guids (cleanup_list time ws)) ≡ false
unfolding mem cleanup_list
mem-cleanup_list g time [] h = refl
mem-cleanup_list g time (w ∷ ws) h = ground (arith, mem-cleanup_list g time ws)

pub cleanup_list-Distinct :
    (time : ℕ) (ws vs : List Wait)
    → Distinct (guids ws ++ guids vs)
    → Distinct (guids (cleanup_list time ws) ++ guids (cleanup_list time vs))
unfolding mem cleanup_list
cleanup_list-Distinct time [] [] d = tt
cleanup_list-Distinct time [] (v ∷ vs) d =
    ground (arith, cleanup_list-Distinct time [] vs d.1, mem-cleanup_list v.player_guid time vs)
cleanup_list-Distinct time (w ∷ ws) vs d = ground (
  arith,
  cleanup_list-Distinct time ws vs d.1,
  mem-append w.player_guid (guids ws) (guids vs),
  mem-append w.player_guid (guids (cleanup_list time ws)) (guids (cleanup_list time vs)),
  mem-cleanup_list w.player_guid time ws,
  mem-cleanup_list w.player_guid time vs,
)

pub find_from-found : (g slot : ℕ) (ws : List Wait) → (find_from g slot ws).0 ≡ mem g (guids ws)
unfolding find_from mem
find_from-found g slot [] = refl
find_from-found g slot (w ∷ ws) = ground (arith, find_from-found g (slot + 1) ws)

pub find_from-slot :
    (g slot : ℕ) (ws : List Wait)
    → mem g (guids ws) ≡ false
    → (find_from g slot ws).1 ≡ slot + length ws
unfolding find_from mem
find_from-slot g slot [] h = omega arith
find_from-slot g slot (w ∷ ws) h = ground (arith, find_from-slot g (slot + 1) ws)

pub find_client-found :
    (g : ℕ) (info : WaitListInfo) → (find_client g info).0 ≡ mem g (waiting info)
unfolding find_client
find_client-found g info = ground (
  arith,
  find_from-found g 1 info.priority_wait_list,
  find_from-found g (find_from g 1 info.priority_wait_list).1 info.wait_list,
  mem-append g (guids info.priority_wait_list) (guids info.wait_list),
)

guids-erase_client : (g : ℕ) (ws : List Wait) → guids (erase_client g ws) ≡ erase g (guids ws)
unfolding erase_client erase
guids-erase_client g [] = refl
guids-erase_client g (w ∷ ws) = ground (arith, guids-erase_client g ws)

guids-set_timeout : (g t : ℕ) (ws : List Wait) → guids (set_timeout g t ws) ≡ guids ws
unfolding set_timeout
guids-set_timeout g t [] = refl
guids-set_timeout g t (w ∷ ws) = ground (arith, guids-set_timeout g t ws)

-- Letting in a client of the regular list takes exactly that client out.
pub waiting-erase :
    (g : ℕ) (info : WaitListInfo)
    → (find_from g 1 info.priority_wait_list).0 ≡ false
    → waiting (record info { wait_list = erase_client g info.wait_list }) ≡ erase g (waiting info)
waiting-erase g info second = rw (
  guids-erase_client g info.wait_list,
  erase-append g (guids info.priority_wait_list) (guids info.wait_list),
  sym (find_from-found g 1 info.priority_wait_list) ∙ second,
)

pub waiting-set_timeout :
    (g t : ℕ) (info : WaitListInfo) → waiting (at_client g (set_timeout g t) info) ≡ waiting info
waiting-set_timeout g t info = elim (Bool-cases (find_from g 1 info.priority_wait_list).0) [
  | inl first ↦ rw (first, guids-set_timeout g t info.priority_wait_list)
  | inr second ↦ rw (second, guids-set_timeout g t info.wait_list)
]
