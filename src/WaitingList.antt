-- ===== src/WaitingList.antt =====
-- engine/src/waitlist.cpp: the queue of players who wait for a place on a full server. A player is
-- the number of the character; the clock, `OTSYS_TIME`, is in milliseconds.
pub mod Queue
pub mod Login
use otx_teste.Common.{
  ℕ, ◌+◌, ◌*◌, ◌-◌, ◌%◌, ◌^◌, Bool, true, false, not, ◌&&◌, ◌||◌, List, [], ◌∷◌, ◌++◌, Option, none,
  some, ltb, leb, ◌==◌, if◌then◌else◌, length, is_empty,
}

-- `Wait`.
pub record Wait : Type 0 where
  pub timeout : ℕ
  pub player_guid : ℕ

-- `WaitListInfo`.
pub record WaitListInfo : Type 0 where
  pub priority_wait_list : List Wait
  pub wait_list : List Wait

-- What `clientLogin` asks of the player, the settings and the game.
pub record Client : Type 0 where
  pub guid : ℕ
  pub can_always_login : Bool
  pub account_type : ℕ
  pub is_premium : Bool

pub record Server : Type 0 where
  pub max_players : ℕ
  pub players_online : ℕ
  pub time : ℕ

-- ACCOUNT_TYPE_GAMEMASTER.
abbrev pub account_type_gamemaster : ℕ
account_type_gamemaster = 4

-- `getTime`, in seconds.
unfoldable pub get_time : ℕ → ℕ
get_time slot =
    if ltb slot 5
    then 5
    else if ltb slot 10
    then 10
    else if ltb slot 20
    then 20
    else if ltb slot 50
    then 60
    else 120

-- `getTimeout`.
unfoldable pub get_timeout : ℕ → ℕ
unfolding get_time
get_timeout slot = get_time slot + 15

-- `(it->timeout - time) <= 0`: `timeout` is a `std::size_t` and `time` an `int64_t`, so that the
-- difference is unsigned.
unfoldable pub has_timed_out : ℕ → Wait → Bool
has_timed_out time w = leb ((w.timeout + (2 ^ 64 - time % 2 ^ 64)) % 2 ^ 64) 0

-- `cleanupList`.
unfoldable pub cleanup_list : ℕ → List Wait → List Wait
unfolding has_timed_out
cleanup_list time [] = []
cleanup_list time (w ∷ ws) =
    let rest = cleanup_list time ws in if has_timed_out time w then rest else w ∷ rest

-- A loop of `findClient`, from a slot on: where the client is, or the slot after the list.
unfoldable pub find_from : ℕ → ℕ → List Wait → Bool × ℕ
find_from guid slot [] = (false, slot)
find_from guid slot (w ∷ ws) =
    let later = find_from guid (slot + 1) ws in
    if w.player_guid == guid then (true, slot) else later

-- `findClient`: whether the client waits, and the slot.
unfoldable pub find_client : ℕ → WaitListInfo → Bool × ℕ
unfolding find_from
find_client guid info =
    let first = find_from guid 1 info.priority_wait_list in
    if first.0 then first else find_from guid first.1 info.wait_list

-- The node that `findClient` points at, taken out of its own list.
unfoldable pub erase_client : ℕ → List Wait → List Wait
erase_client guid [] = []
erase_client guid (w ∷ ws) =
    let rest = erase_client guid ws in if w.player_guid == guid then ws else w ∷ rest

unfoldable pub set_timeout : ℕ → ℕ → List Wait → List Wait
set_timeout guid t [] = []
set_timeout guid t (w ∷ ws) =
    let rest = set_timeout guid t ws in
    if w.player_guid == guid then record w { timeout = t } ∷ ws else w ∷ rest

-- A change of the first entry of the client, in the list that `findClient` finds it in.
abbrev pub at_client : ℕ → (List Wait → List Wait) → WaitListInfo → WaitListInfo
at_client guid f info =
    if (find_from guid 1 info.priority_wait_list).0
    then record info { priority_wait_list = f info.priority_wait_list }
    else record info { wait_list = f info.wait_list }

-- `OTSYS_TIME() + (getTimeout(slot) * 1000)`.
abbrev pub deadline : ℕ → ℕ → ℕ
deadline time slot = time + get_timeout slot * 1000

-- The guards at the head of `clientLogin` that let the player in at once.
unfoldable pub skips_queue : Server → Client → WaitListInfo → Bool
skips_queue s c info =
    (c.can_always_login || leb account_type_gamemaster c.account_type)
    || ((s.max_players == 0)
        || (is_empty info.priority_wait_list
            && is_empty info.wait_list
            && ltb s.players_online s.max_players))

-- The part of `clientLogin` after the lists are cleaned. A client who may come in is always taken
-- out by `info->waitList.erase(it)`: `std::list` defines that for an iterator of `waitList` only,
-- and `none` stands for the call with an iterator of `priorityWaitList`, after which neither list
-- and neither `size()` can be relied on. That `it` of `priorityWaitList` is not `waitList.end()` is
-- taken for granted.
unfoldable pub wait_in_line : Server → Client → WaitListInfo → Option (WaitListInfo × Bool)
unfolding find_from find_client erase_client set_timeout get_timeout
wait_in_line s c info =
    let found = find_client c.guid info in
    if found.0
    then (if leb (s.players_online + found.1) s.max_players
        then (if (find_from c.guid 1 info.priority_wait_list).0
            then none
            else some (record info { wait_list = erase_client c.guid info.wait_list }, true))
        else some (at_client c.guid (set_timeout c.guid (deadline s.time found.1)) info, false))
    else if c.is_premium
    then some (
      record info {
        priority_wait_list =
            info.priority_wait_list
            ++ record {
              timeout = deadline s.time (length info.priority_wait_list + 1);
              player_guid = c.guid;
            }
              ∷ [];
      },
      false,
    )
    else some (
      record info {
        wait_list =
            info.wait_list
            ++ record {
              timeout =
                  deadline s.time (length info.priority_wait_list + length info.wait_list + 1);
              player_guid = c.guid;
            }
              ∷ [];
      },
      false,
    )

-- `clientLogin`.
unfoldable pub client_login : Server → Client → WaitListInfo → Option (WaitListInfo × Bool)
unfolding skips_queue cleanup_list wait_in_line
client_login s c info =
    if skips_queue s c info
    then some (info, true)
    else wait_in_line s c (record {
      priority_wait_list = cleanup_list s.time info.priority_wait_list;
      wait_list = cleanup_list s.time info.wait_list;
    })

-- `getClientSlot`.
unfoldable pub get_client_slot : ℕ → WaitListInfo → ℕ
unfolding find_client
get_client_slot guid info = let found = find_client guid info in if found.0 then found.1 else 0
