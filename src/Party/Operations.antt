-- ===== src/Party/Operations.antt =====
-- Every operation of engine/src/party.cpp keeps the party's lists and the players' pointers in step.
use otx_teste.Common.{
  ℕ, ◌≡◌, refl, sym, ap, ◌∙◌, ◌⊎◌, inl, inr, Bool, true, false, ◌&&◌, ◌||◌, List, [], ◌∷◌, ◌++◌,
  none, some, arith, ◌==◌, if◌then◌else◌, is_empty, Bool-cases, Option-cases,
}
use otx_teste.Common.Sets.{mem, erase, update, update_all_lem, mem-erase}
use otx_teste.Party.{
  Env, Party, is_in, disband, update_shared_experience, clear_player_points, find_ticks,
  erase_ticks, pass_party_leadership, leave_leadership, leave_party, finish_leaving, take_out,
  join_party, remove_invite, invite_player, can_enable_shared_experience,
}
use otx_teste.Party.Roster.{
  Roster, Roster-invite, Roster-uninvite, Roster-join, Roster-pass, Roster-drop,
}

abbrev pub HasRoster : Party → Type 0
HasRoster w = Roster w.this w.leader w.member_list w.invite_list w.party_of w.invited

-- A deleted party: nobody points to it or holds its invitation.
pub record IsGone (w : Party) : Type 0 where
  pub dead : w.alive ≡ false
  pub left : (x : ℕ) → is_in x w ≡ false
  pub uninvited : (x : ℕ) → w.invited x ≡ false

-- A party that stays alive keeps its roster.
pub data Lives (w : Party) : Type 0 where
  lives : w.alive ≡ true → HasRoster w → Lives w

pub data IsConsistent (w : Party) : Type 0 where
  stays : Lives w → IsConsistent w
  gone : IsGone w → IsConsistent w

-- The bookkeeping of shared experience changes two fields only.
abbrev pub Settled : Party → Party → Type 0
Settled w v =
    (t : List (ℕ × ℕ)) × (e : Bool) × (v ≡ record w { ticks_map = t; shared_exp_enabled = e })

pub update_shared_experience-Settled :
    (env : Env) (w : Party) → Settled w (update_shared_experience env w)
unfolding update_shared_experience
update_shared_experience-Settled env w = elim (Bool-cases w.shared_exp_active) [
  | inl on ↦ (w.ticks_map, can_enable_shared_experience env w, rw on)
  | inr off ↦ (w.ticks_map, w.shared_exp_enabled, rw off)
]

clear_player_points-Settled :
    (env : Env) (x : ℕ) (w : Party) → Settled w (clear_player_points env x w)
unfolding clear_player_points
clear_player_points-Settled env x w = elim (Option-cases (find_ticks x w.ticks_map)) [
  | inl e ↦ (w.ticks_map, w.shared_exp_enabled, rw (e, clear_player_points))
  | inr (t, e) ↦
      let less = record w { ticks_map = erase_ticks x w.ticks_map } in
      let (t', e', p) = update_shared_experience-Settled env less in
      (t', e', rw (e, clear_player_points) p)
]

pub both-Settled :
    (env : Env) (x : ℕ) (w : Party)
    → Settled w (clear_player_points env x (update_shared_experience env w))
both-Settled env x w =
    let (t, e, p) = update_shared_experience-Settled env w in
    let (t', e', q) =
      clear_player_points-Settled env x (record w { ticks_map = t; shared_exp_enabled = e }) in
    (t', e', rw p q)

disband-IsGone :
    (env : Env) (w : Party)
    → env.on_disband ≡ true
    → ((x : ℕ) → is_in x w ≡ true → ((w.leader == x) || mem x w.member_list) ≡ true)
    → ((x : ℕ) → w.invited x ≡ mem x w.invite_list)
    → IsGone (disband env w)
unfolding disband update
disband-IsGone env w h inside holds = rw h (record {
  dead = refl;
  left = λ x.
      ground
        (arith, update_all_lem w.member_list none (update w.leader none w.party_of) x, inside x);
  uninvited = λ x. ground (arith, update_all_lem w.invite_list false w.invited x, holds x);
})

pub invite_player-Lives :
    (x : ℕ) (w : Party) → is_in x w ≡ false → Lives w → Lives (invite_player x w).0
unfolding invite_player
invite_player-Lives x w out (lives a r) = elim (Bool-cases (mem x w.invite_list)) [
  | inl old ↦ rw old (lives a r)
  | inr new ↦ rw new (lives a (Roster-invite x r out new))
]

pub join_party-Lives : (env : Env) (x : ℕ) (w : Party) → Lives w → Lives (join_party env x w).0
unfolding join_party
join_party-Lives env x w (lives a r) = elim (Bool-cases env.on_join) [
  | inr veto ↦ rw veto (lives a r)
  | inl go ↦ elim (Bool-cases (mem x w.invite_list)) [
    | inr uninvited ↦ rw (go, uninvited) (lives a r)
    | inl asked ↦
        let (t, e, p) = update_shared_experience-Settled env (record w {
          invite_list = erase x w.invite_list;
          party_of = update x (some w.this) w.party_of;
          member_list = w.member_list ++ x ∷ [];
          invited = update x false w.invited;
        }) in
        simp (go, asked, p) (lives a (Roster-join x r asked))
  ]
]

pub pass_party_leadership-Lives :
    (env : Env) (x : ℕ) (w : Party) → Lives w → Lives (pass_party_leadership env x w).0
unfolding pass_party_leadership
pass_party_leadership-Lives env x w (lives a r) = elim (Bool-cases (w.leader == x)) [
  | inl same ↦ rw same (lives a r)
  | inr other ↦ elim (Bool-cases (is_in x w)) [
    | inr out ↦ rw (other, out) (lives a r)
    | inl here ↦
        let (t, e, p) =
          update_shared_experience-Settled env
            (record w { member_list = w.leader ∷ erase x w.member_list; leader = x }) in
        simp (other, here, p) (lives a (Roster-pass x r other here))
  ]
]

-- `disband` of what is left ends the party or keeps it.
ends :
    (env : Env) (w : Party) (b : Bool)
    → env.on_disband ≡ true
    → Lives w
    → IsConsistent (if b then disband env w else w)
ends env w true h (lives a r) =
    gone (disband-IsGone env w h (λ x i. sym (r.in_party x) ∙ i) r.holds_invite)
ends env w false h l = stays l

pub remove_invite-IsConsistent :
    (env : Env) (x : ℕ) (w : Party)
    → env.on_disband ≡ true
    → Lives w
    → IsConsistent (remove_invite env x true w).0
unfolding remove_invite
remove_invite-IsConsistent env x w h (lives a r) = elim (Bool-cases (mem x w.invite_list)) [
  | inr uninvited ↦ rw uninvited (stays (lives a r))
  | inl asked ↦ rw asked (ends env _ _ h (lives a (Roster-uninvite x r)))
]

module _ (env : Env) (x : ℕ) (w : Party) (h : env.on_disband ≡ true) where
  -- What is left when a player who is not the leader leaves.
  drops : (b : Bool) → (w.leader == x) ≡ false → Lives w → IsConsistent (finish_leaving env x w b)
  unfolding finish_leaving take_out
  drops b other (lives a r) =
      let (t, e, p) =
        both-Settled env x
          (record w { member_list = erase x w.member_list; party_of = update x none w.party_of }) in
      rw p (ends env _ _ h (lives a (Roster-drop x r other)))

  -- What is left when the leader leaves and nobody can follow.
  closes : (w.leader == x) ≡ true → HasRoster w → IsConsistent (finish_leaving env x w true)
  unfolding finish_leaving take_out update
  closes lead r =
      let (t, e, p) =
        both-Settled env x
          (record w { member_list = erase x w.member_list; party_of = update x none w.party_of }) in
      rw p (
        gone (
          disband-IsGone env _ h
            (λ y i. ground (arith, mem-erase x y w.member_list r.members_distinct, r.in_party y))
            r.holds_invite))

pass_party_leadership-leader :
    (env : Env) (y : ℕ) (w : Party)
    → (w.leader == y) ≡ false
    → is_in y w ≡ true
    → (pass_party_leadership env y w).0.leader ≡ y
unfolding pass_party_leadership
pass_party_leadership-leader env y w other here =
    let (t, e, p) =
      update_shared_experience-Settled env
        (record w { member_list = w.leader ∷ erase y w.member_list; leader = y }) in
    simp (other, here, p)

-- Who leads when the leadership has been given on.
abbrev LeadsOn : ℕ → Party → Party × Bool → Type 0
LeadsOn x w q =
    ((q.1 ≡ false) × Lives q.0 × ((q.0.leader == x) ≡ false))
    ⊎ ((q.1 ≡ true) × (q.0 ≡ w) × ((w.leader == x) ≡ true))

leave_leadership-LeadsOn :
    (env : Env) (x : ℕ) (ms : List ℕ) (w : Party)
    → w.member_list ≡ ms
    → Lives w
    → LeadsOn x w (leave_leadership env x ms w)
unfolding leave_leadership mem
leave_leadership-LeadsOn env x [] w m l = elim (Bool-cases (w.leader == x)) [
  | inl lead ↦ inr (lead, refl, lead)
  | inr other ↦ inl (other, l, other)
]
leave_leadership-LeadsOn env x (front ∷ others) w m (lives a r) =
    elim (Bool-cases (w.leader == x)) [
      | inr other ↦ simp other (inl (refl, (lives a r), refl))
      | inl lead ↦ elim (Bool-cases (is_empty others && is_empty w.invite_list)) [
        | inl alone ↦ simp (lead, alone) (inr (refl, refl, refl))
        | inr more ↦
            let apart : (w.leader == front) ≡ false =
              ground (arith, r.leader_out, ap (mem w.leader) m) in
            let here : is_in front w ≡ true = ground (arith, r.in_party front, ap (mem front) m) in
            simp (lead, more)
              (inl (
                refl,
                pass_party_leadership-Lives env front w (lives a r),
                rw (pass_party_leadership-leader env front w apart here) (ground arith),
              ))
      ]
    ]

-- A player who leaves, the leader too: the party goes on without the player, under a member if
-- need be, or is gone.
pub leave_party-IsConsistent :
    (env : Env) (x : ℕ) (w : Party)
    → env.on_disband ≡ true
    → Lives w
    → IsConsistent (leave_party env x w).0
unfolding leave_party
leave_party-IsConsistent env x w h (lives a r) = elim (Bool-cases (is_in x w)) [
  | inr out ↦
      let other : (w.leader == x) ≡ false = ground (arith, r.in_party x) in
      simp (out, other) (stays (lives a r))
  | inl here ↦ elim (Bool-cases env.on_leave) [
    | inr veto ↦ simp (here, veto) (stays (lives a r))
    | inl go ↦
        simp (here, go)
          (elim (leave_leadership-LeadsOn env x w.member_list w refl (lives a r)) [
            | inl (on, l, other) ↦ drops env x _ h _ other l
            | inr (missing, same, lead) ↦ simp (missing, same) (closes env x w h lead r)
          ])
  ]
]
