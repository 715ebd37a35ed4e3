-- ===== src/Party.antt =====
-- engine/src/party.h and party.cpp: one party, and what each player's object says of it. Players
-- are numbers. The messages to clients are left out. What the server asks of others is `Env`.
pub mod Roster
pub mod Operations
pub mod Calls
pub mod Leaving
use otx_teste.Common.{
  ℕ, ◌+◌, ◌-◌, ◌*◌, ◌/◌, ◌%◌, ◌^◌, Bool, true, false, not, ◌&&◌, ◌||◌, List, [], ◌∷◌, ◌++◌, Option,
  none, some, ltb, ◌==◌, if◌then◌else◌, is_empty,
}
use otx_teste.Common.Sets.{mem, erase, update, update_all}
use otx_teste.Position.{Position, are_in_range}

-- The players' levels and places, the clock, a setting, and the answers of the event scripts.
pub record Env : Type 0 where
  pub level : ℕ → ℕ
  pub position : ℕ → Position
  pub not_gain_in_fight : ℕ → Bool
  pub now : ℕ
  pub pz_locked : ℕ
  pub on_join : Bool
  pub on_leave : Bool
  pub on_disband : Bool

-- A `Party`, with `alive` until `delete this`; `party_of` is each player's party and `invited`
-- whether this party is in the player's list of invitations.
pub record Party : Type 0 where
  pub this : ℕ
  pub leader : ℕ
  pub member_list : List ℕ
  pub invite_list : List ℕ
  pub ticks_map : List (ℕ × ℕ)
  pub shared_exp_active : Bool
  pub shared_exp_enabled : Bool
  pub alive : Bool
  pub party_of : ℕ → Option ℕ
  pub invited : ℕ → Bool

abbrev pub same_party : Option ℕ → ℕ → Bool
same_party none p = false
same_party (some q) p = q == p

-- `player->getParty() == this`.
abbrev pub is_in : ℕ → Party → Bool
is_in x w = same_party (w.party_of x) w.this

-- `empty`.
unfoldable pub empty : Party → Bool
empty w = is_empty w.member_list && is_empty w.invite_list

-- `disband`; the deleted object keeps nothing.
unfoldable pub disband : Env → Party → Party
disband env w = if not env.on_disband then w else record w {
  party_of = update_all w.member_list none (update w.leader none w.party_of);
  invited = update_all w.invite_list false w.invited;
  invite_list = [];
  member_list = [];
  alive = false;
}

-- The largest level in the party.
unfoldable pub highest_level : (ℕ → ℕ) → ℕ → List ℕ → ℕ
highest_level level best [] = best
highest_level level best (m ∷ ms) =
    highest_level level (if ltb best (level m) then level m else best) ms

-- `ticksMap.find`.
unfoldable pub find_ticks : ℕ → List (ℕ × ℕ) → Option ℕ
find_ticks x [] = none
find_ticks x ((y, t) ∷ rest) = if y == x then some t else find_ticks x rest

-- `canUseSharedExperience`. The source's `ceil(highest * 2 / 3)` in `float` is this number up to
-- levels of 2 ^ 22.
unfoldable pub can_use_shared_experience : Env → ℕ → Party → Bool
unfolding highest_level find_ticks
can_use_shared_experience env player w =
    if is_empty w.member_list
    then false
    else let min_level = (highest_level env.level (env.level w.leader) w.member_list * 2 + 2) / 3 in
      if ltb (env.level player) min_level
      then false
      else if not (are_in_range 30 30 1 (env.position w.leader) (env.position player))
      then false
      else if env.not_gain_in_fight player
      then true
      else elim (find_ticks player w.ticks_map) [
        | none ↦ false
        | some t ↦ not (ltb env.pz_locked ((env.now + 2 ^ 64 - t) % 2 ^ 64))
      ]

abbrev pub all_can_use : Env → List ℕ → Party → Bool
all_can_use env [] w = true
all_can_use env (m ∷ ms) w = can_use_shared_experience env m w && all_can_use env ms w

-- `canEnableSharedExperience`.
unfoldable pub can_enable_shared_experience : Env → Party → Bool
can_enable_shared_experience env w =
    can_use_shared_experience env w.leader w && all_can_use env w.member_list w

-- `updateSharedExperience`.
unfoldable pub update_shared_experience : Env → Party → Party
update_shared_experience env w =
    if w.shared_exp_active
    then record w { shared_exp_enabled = can_enable_shared_experience env w }
    else w

-- `ticksMap.erase`.
unfoldable pub erase_ticks : ℕ → List (ℕ × ℕ) → List (ℕ × ℕ)
erase_ticks x [] = []
erase_ticks x ((y, t) ∷ rest) =
    let kept = erase_ticks x rest in if y == x then rest else (y, t) ∷ kept

-- `clearPlayerPoints`.
unfoldable pub clear_player_points : Env → ℕ → Party → Party
clear_player_points env player w = elim (find_ticks player w.ticks_map) [
  | none ↦ w
  | some t ↦ update_shared_experience env (record w { ticks_map = erase_ticks player w.ticks_map })
]

-- `updatePlayerTicks`.
unfoldable pub update_player_ticks : Env → ℕ → ℕ → Party → Party
update_player_ticks env player points w =
    if not (points == 0) && not (env.not_gain_in_fight player)
    then update_shared_experience env
        (record w { ticks_map = (player, env.now) ∷ erase_ticks player w.ticks_map })
    else w

-- `passPartyLeadership`, for a player that is there: what it answers, and the party after it.
unfoldable pub pass_party_leadership : Env → ℕ → Party → Party × Bool
pass_party_leadership env player w =
    if (w.leader == player) || not (is_in player w) then (w, false) else (
      update_shared_experience env
          (record w { member_list = w.leader ∷ erase player w.member_list; leader = player }),
      true,
    )

-- The part of `leaveParty` that gives the leadership on: the party, and `missingLeader`.
unfoldable pub leave_leadership : Env → ℕ → List ℕ → Party → Party × Bool
unfolding pass_party_leadership
leave_leadership env player [] w = (w, w.leader == player)
leave_leadership env player (front ∷ others) w =
    if not (w.leader == player)
    then (w, false)
    else if is_empty others && is_empty w.invite_list
    then (w, true)
    else ((pass_party_leadership env front w).0, false)

-- The part of `leaveParty` that takes the player out.
unfoldable pub take_out : Env → ℕ → Party → Party
take_out env player w = clear_player_points env player (
    update_shared_experience env (record w {
      member_list = erase player w.member_list;
      party_of = update player none w.party_of;
    }))

unfoldable pub finish_leaving : Env → ℕ → Party → Bool → Party
unfolding take_out empty disband
finish_leaving env player passed missing_leader =
    let left = take_out env player passed in
    if missing_leader || empty left then disband env left else left

-- `leaveParty`.
unfoldable pub leave_party : Env → ℕ → Party → Party × Bool
unfolding leave_leadership finish_leaving
leave_party env player w =
    if not (is_in player w) && not (w.leader == player)
    then (w, false)
    else if not env.on_leave
    then (w, false)
    else let (passed, missing_leader) = leave_leadership env player w.member_list w in
      (finish_leaving env player passed missing_leader, true)

-- `joinParty`.
unfoldable pub join_party : Env → ℕ → Party → Party × Bool
join_party env player w =
    if not env.on_join then (w, false) else if not (mem player w.invite_list) then (w, false) else (
      update_shared_experience env (record w {
        invite_list = erase player w.invite_list;
        party_of = update player (some w.this) w.party_of;
        member_list = w.member_list ++ player ∷ [];
        invited = update player false w.invited;
      }),
      true,
    )

-- `removeInvite`.
unfoldable pub remove_invite : Env → ℕ → Bool → Party → Party × Bool
unfolding empty disband
remove_invite env player remove_from_player w =
    if not (mem player w.invite_list)
    then (w, false)
    else let removed = record w {
      invite_list = erase player w.invite_list;
      invited = if remove_from_player then update player false w.invited else w.invited;
    } in
      (if empty removed then disband env removed else removed, true)

-- `revokeInvitation` says so to both players and removes the invitation.
unfoldable pub revoke_invitation : Env → ℕ → Party → Party
unfolding remove_invite
revoke_invitation env player w = (remove_invite env player true w).0

-- `invitePlayer`.
unfoldable pub invite_player : ℕ → Party → Party × Bool
invite_player player w = if mem player w.invite_list then (w, false) else (
  record w { invite_list = w.invite_list ++ player ∷ []; invited = update player true w.invited },
  true,
)

-- `setSharedExperience`, for a player that is there.
unfoldable pub set_shared_experience : Env → ℕ → Bool → Party → Party × Bool
set_shared_experience env player active w =
    if not (w.leader == player)
    then (w, false)
    else if (active && w.shared_exp_active) || (not active && not w.shared_exp_active)
    then (w, true)
    else if active
    then (let on = record w { shared_exp_active = true } in
        (record on { shared_exp_enabled = can_enable_shared_experience env on }, true))
    else (record w { shared_exp_active = false }, true)
