-- ===== src/Party/Calls.antt =====
-- The requests of engine/src/game.cpp that reach one party, in any order.
use otx_teste.Common.{
  ℕ, ◌≡◌, refl, inl, inr, Bool, true, false, not, ◌&&◌, ◌||◌, List, [], ◌∷◌, Option, none, some,
  arith, ◌==◌, if◌then◌else◌, Bool-cases,
}
use otx_teste.Common.Sets.{mem, update}
use otx_teste.Party.{
  Env, Party, same_party, is_in, leave_party, join_party, revoke_invitation, invite_player,
  pass_party_leadership, set_shared_experience, update_player_ticks, erase_ticks,
}
use otx_teste.Party.Operations.{
  Lives, lives, IsConsistent, stays, gone, invite_player-Lives, join_party-Lives,
  pass_party_leadership-Lives, remove_invite-IsConsistent, leave_party-IsConsistent,
  update_shared_experience-Settled,
}

abbrev pub is_none : Option ℕ → Bool
is_none none = true
is_none (some p) = false

-- `Party::Party`.
unfoldable pub new_party : ℕ → ℕ → (ℕ → Option ℕ) → Party
unfolding update
new_party this leader party_of = record {
  this = this;
  leader = leader;
  member_list = [];
  invite_list = [];
  ticks_map = [];
  shared_exp_active = false;
  shared_exp_enabled = false;
  alive = true;
  party_of = update leader (some this) party_of;
  invited = λ x. false;
}

-- A request, its players looked up; of `leave`, whether the player is in a fight.
pub data Call : Type 0 where
  invite : ℕ → ℕ → Call
  join : ℕ → ℕ → Call
  revoke : ℕ → ℕ → Call
  pass : ℕ → ℕ → Call
  leave : ℕ → Bool → Call
  share : ℕ → Bool → Call
  points : ℕ → ℕ → Call

-- `playerInviteToParty`, `playerJoinParty`, `playerRevokePartyInvitation`,
-- `playerPassPartyLeadership`, `playerLeaveParty`, `playerEnableSharedPartyExperience` (outside
-- fights) and `updatePlayerTicks`, as far as they reach this party.
unfoldable pub call : Env → Call → Party → Party
call env (invite player invited) w =
    if player == invited
    then w
    else if not (is_none (w.party_of invited))
    then w
    else if not (is_in player w) || not (w.leader == player)
    then w
    else (invite_player invited w).0
call env (join player leader) w =
    if not (is_in leader w && (w.leader == leader) && mem player w.invite_list)
    then w
    else if not (is_none (w.party_of player))
    then w
    else (join_party env player w).0
call env (revoke player invited) w =
    if not (is_in player w) || not (w.leader == player)
    then w
    else if not (mem invited w.invite_list)
    then w
    else revoke_invitation env invited w
call env (pass player new_leader) w =
    if not (is_in player w) || not (w.leader == player)
    then w
    else if (new_leader == player) || not (is_in new_leader w)
    then w
    else (pass_party_leadership env new_leader w).0
call env (leave player fighting) w =
    if not (is_in player w) || fighting then w else (leave_party env player w).0
call env (share player active) w =
    if not (is_in player w) then w else (set_shared_experience env player active w).0
call env (points player n) w = update_player_ticks env player n w

-- A deleted party gets no more requests.
unfoldable pub step : Env → Call → Party → Party
unfolding call
step env c w = if w.alive then call env c w else w

unfoldable pub run : List (Env × Call) → Party → Party
unfolding step
run [] w = w
run ((env, c) ∷ cs) w = run cs (step env c w)

new_party-Lives :
    (this leader : ℕ) (party_of : ℕ → Option ℕ)
    → ((x : ℕ) → same_party (party_of x) this ≡ false)
    → Lives (new_party this leader party_of)
unfolding new_party update mem
new_party-Lives this leader party_of free = lives refl (record {
  in_party = λ x. ground (arith, free x);
  leader_out = refl;
  members_distinct = tt;
  holds_invite = λ x. refl;
  invitees_distinct = tt;
  invitees_out = λ x h. cc;
})

set_shared_experience-Lives :
    (env : Env) (x : ℕ) (active : Bool) (w : Party)
    → Lives w
    → Lives (set_shared_experience env x active w).0
unfolding set_shared_experience
set_shared_experience-Lives env x true w (lives a r) = elim (Bool-cases (w.leader == x)) [
  | inr other ↦ simp other (lives a r)
  | inl lead ↦ elim (Bool-cases w.shared_exp_active) [
    | inl on ↦ simp (lead, on) (lives a r)
    | inr off ↦ simp (lead, off) (lives a r)
  ]
]
set_shared_experience-Lives env x false w (lives a r) = elim (Bool-cases (w.leader == x)) [
  | inr other ↦ simp other (lives a r)
  | inl lead ↦ elim (Bool-cases w.shared_exp_active) [
    | inl on ↦ simp (lead, on) (lives a r)
    | inr off ↦ simp (lead, off) (lives a r)
  ]
]

update_player_ticks-Lives :
    (env : Env) (x n : ℕ) (w : Party) → Lives w → Lives (update_player_ticks env x n w)
unfolding update_player_ticks
update_player_ticks-Lives env x n w (lives a r) =
    elim (Bool-cases (not (n == 0) && not (env.not_gain_in_fight x))) [
      | inl counts ↦
          let (t, e, p) =
            update_shared_experience-Settled env
              (record w { ticks_map = (x, env.now) ∷ erase_ticks x w.ticks_map }) in
          simp (counts, p) (lives a r)
      | inr no_count ↦ simp no_count (lives a r)
    ]

not_in : (x : ℕ) (w : Party) → not (is_none (w.party_of x)) ≡ false → is_in x w ≡ false
not_in x w h = ground arith

revoke_invitation-IsConsistent :
    (env : Env) (x : ℕ) (w : Party)
    → env.on_disband ≡ true
    → Lives w
    → IsConsistent (revoke_invitation env x w)
unfolding revoke_invitation
revoke_invitation-IsConsistent env x w h l = remove_invite-IsConsistent env x w h l

-- An early return leaves the party as it is.
guarded :
    {w v : Party} (b : Bool)
    → Lives w
    → (b ≡ false → IsConsistent v)
    → IsConsistent (if b then w else v)
guarded true l f = stays l
guarded false l f = f refl

call-IsConsistent :
    (env : Env) (c : Call) (w : Party)
    → env.on_disband ≡ true
    → Lives w
    → IsConsistent (call env c w)
unfolding call
call-IsConsistent env (invite player invited) w h l = guarded (player == invited) l λ _.
    guarded (not (is_none (w.party_of invited))) l λ free.
      guarded (not (is_in player w) || not (w.leader == player)) l
        λ _. stays (invite_player-Lives invited w (not_in invited w free) l)
call-IsConsistent env (join player leader) w h l =
    guarded (not (is_in leader w && (w.leader == leader) && mem player w.invite_list)) l λ _.
      guarded (not (is_none (w.party_of player))) l λ _. stays (join_party-Lives env player w l)
call-IsConsistent env (revoke player invited) w h l =
    guarded (not (is_in player w) || not (w.leader == player)) l λ _.
      guarded (not (mem invited w.invite_list)) l
        λ _. revoke_invitation-IsConsistent env invited w h l
call-IsConsistent env (pass player new_leader) w h l =
    guarded (not (is_in player w) || not (w.leader == player)) l λ _.
      guarded ((new_leader == player) || not (is_in new_leader w)) l
        λ _. stays (pass_party_leadership-Lives env new_leader w l)
call-IsConsistent env (leave player fighting) w h l =
    guarded (not (is_in player w) || fighting) l λ _. leave_party-IsConsistent env player w h l
call-IsConsistent env (share player active) w h l =
    guarded (not (is_in player w)) l λ _. stays (set_shared_experience-Lives env player active w l)
call-IsConsistent env (points player n) w h l = stays (update_player_ticks-Lives env player n w l)

-- No event script keeps the party from being disbanded.
abbrev pub CanDisband : List (Env × Call) → Type 0
CanDisband [] = Unit {0}
CanDisband ((env, c) ∷ cs) = (env.on_disband ≡ true) × CanDisband cs

step-IsConsistent :
    (env : Env) (c : Call) (w : Party)
    → env.on_disband ≡ true
    → IsConsistent w
    → IsConsistent (step env c w)
unfolding step
step-IsConsistent env c w h (stays (lives a r)) = simp a (call-IsConsistent env c w h (lives a r))
step-IsConsistent env c w h (gone g) = simp g.dead (gone g)

run-IsConsistent :
    (cs : List (Env × Call)) (w : Party) → CanDisband cs → IsConsistent w → IsConsistent (run cs w)
unfolding run
run-IsConsistent [] w h k = k
run-IsConsistent ((env, c) ∷ cs) w (h, hs) k =
    run-IsConsistent cs (step env c w) hs (step-IsConsistent env c w h k)

-- After any requests to a party made by a leader, where no script refuses to disband it: the
-- leader and the members, each once, are exactly the players whose party it is, the invitees, each
-- once, are exactly those who hold its invitation, and none of them is in it; or it is deleted, and
-- no player has it as party or holds its invitation.
pub run-new_party :
    (this leader : ℕ) (party_of : ℕ → Option ℕ) (cs : List (Env × Call))
    → ((x : ℕ) → same_party (party_of x) this ≡ false)
    → CanDisband cs
    → IsConsistent (run cs (new_party this leader party_of))
run-new_party this leader party_of cs free h =
    run-IsConsistent cs _ h (stays (new_party-Lives this leader party_of free))
