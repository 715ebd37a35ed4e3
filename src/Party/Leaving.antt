-- ===== src/Party/Leaving.antt =====
-- What `Party::leaveParty` of engine/src/party.cpp leaves behind.
use otx_teste.Common.{
  ℕ, ◌≡◌, inl, inr, Bool, true, false, not, ◌&&◌, ◌||◌, none, arith, ◌==◌, Bool-cases,
}
use otx_teste.Common.Sets.{erase, update, update_all_lem}
use otx_teste.Party.{Env, Party, is_in, empty, disband, leave_party, finish_leaving, take_out}
use otx_teste.Party.Operations.{both-Settled}

-- Everybody whom `disband` takes out is out.
still_out :
    (env : Env) (x : ℕ) (w : Party) → w.party_of x ≡ none → (disband env w).party_of x ≡ none
unfolding disband update
still_out env x w out = elim (Bool-cases env.on_disband) [
  | inr veto ↦ simp veto out
  | inl go ↦
      simp go
        (ground (arith, update_all_lem w.member_list none (update w.leader none w.party_of) x))
]

disband-dead : (env : Env) (w : Party) → env.on_disband ≡ true → (disband env w).alive ≡ false
unfolding disband
disband-dead env w h = simp h

take_out-none : (env : Env) (x : ℕ) (w : Party) → (take_out env x w).party_of x ≡ none
unfolding take_out update
take_out-none env x w =
    let (t, e, p) =
      both-Settled env x
        (record w { member_list = erase x w.member_list; party_of = update x none w.party_of }) in
    rw p (ground arith)

-- A player who is taken out is in no party, and what goes on has someone left.
abbrev HasLeft : ℕ → Party → Type 0
HasLeft x v = (v.party_of x ≡ none) × (v.alive && empty v ≡ false)

finish_leaving-HasLeft :
    (env : Env) (x : ℕ) (w : Party) (b : Bool)
    → env.on_disband ≡ true
    → HasLeft x (finish_leaving env x w b)
unfolding finish_leaving
finish_leaving-HasLeft env x w b h = elim (Bool-cases (b || empty (take_out env x w))) [
  | inl over ↦ simp over (
    still_out env x _ (take_out-none env x w),
    ground (arith, disband-dead env (take_out env x w) h),
  )
  | inr on ↦ simp on (take_out-none env x w, ground arith)
]

-- Where no script refuses to disband, a player whose wish to leave is granted has no party
-- afterwards, and a party that goes on has a member or an invitee.
pub leave_party_left :
    (env : Env) (x : ℕ) (w : Party)
    → env.on_disband ≡ true
    → (leave_party env x w).1 ≡ true
    → ((leave_party env x w).0.party_of x ≡ none)
      × ((leave_party env x w).0.alive && empty (leave_party env x w).0 ≡ false)
unfolding leave_party
leave_party_left env x w h done = elim (Bool-cases (not (is_in x w) && not (w.leader == x))) [
  | inl out ↦ absurd (let e = simp out at done in cc)
  | inr able ↦ elim (Bool-cases env.on_leave) [
    | inr veto ↦ absurd (let e = simp (able, veto) at done in cc)
    | inl go ↦ simp (able, go) (finish_leaving-HasLeft env x _ _ h)
  ]
]
