-- ===== src/Party/Roster.antt =====
-- Who is in a party: the party's lists and the players' own pointers agree after every operation.
use otx_teste.Common.{
  ℕ, ◌≡◌, sym, ◌∙◌, inl, inr, Bool, true, false, ◌||◌, List, [], ◌∷◌, ◌++◌, Option, none, some,
  arith, ◌==◌, Bool-cases, ==_iff,
}
use otx_teste.Common.Sets.{
  mem, erase, update, Distinct, mem-append, mem-erase, erase-Distinct, append-Distinct,
}
use otx_teste.Party.{same_party}

-- The leader and the members, each once, are those whose pointer is this party; the invitees, each
-- once, are those who hold its invitation, and are not in it.
pub record Roster (this leader : ℕ) (members invitees : List ℕ) (party_of : ℕ → Option ℕ)
    (invited : ℕ → Bool) : Type 0 where
  pub in_party : (x : ℕ) → same_party (party_of x) this ≡ ((leader == x) || mem x members)
  pub leader_out : mem leader members ≡ false
  pub members_distinct : Distinct members
  pub holds_invite : (x : ℕ) → invited x ≡ mem x invitees
  pub invitees_distinct : Distinct invitees
  pub invitees_out : (x : ℕ) → mem x invitees ≡ true → same_party (party_of x) this ≡ false

-- One operation on the lists and pointers each.
module _ {this leader : ℕ} {members invitees : List ℕ} {party_of : ℕ → Option ℕ}
    {invited : ℕ → Bool} (x : ℕ) (r : Roster this leader members invitees party_of invited) where
  pub Roster-invite :
      same_party (party_of x) this ≡ false
      → mem x invitees ≡ false
      → Roster this leader members (invitees ++ x ∷ []) party_of (update x true invited)
  unfolding update mem
  Roster-invite out new = record {
    in_party = r.in_party;
    leader_out = r.leader_out;
    members_distinct = r.members_distinct;
    holds_invite = λ y. ground (arith, mem-append y invitees (x ∷ []), r.holds_invite y);
    invitees_distinct = append-Distinct x invitees new r.invitees_distinct;
    invitees_out = λ y h. elim (Bool-cases (x == y)) [
      | inl e ↦ rw (← (==_iff x y).0 e) out
      | inr e ↦ ground (arith, mem-append y invitees (x ∷ []), r.invitees_out y)
    ];
  }

  pub Roster-uninvite :
      Roster this leader members (erase x invitees) party_of (update x false invited)
  unfolding update
  Roster-uninvite = record {
    in_party = r.in_party;
    leader_out = r.leader_out;
    members_distinct = r.members_distinct;
    holds_invite =
        λ y. ground (arith, mem-erase x y invitees r.invitees_distinct, r.holds_invite y);
    invitees_distinct = erase-Distinct x invitees r.invitees_distinct;
    invitees_out =
        λ y h. ground (arith, mem-erase x y invitees r.invitees_distinct, r.invitees_out y);
  }

  pub Roster-join :
      mem x invitees ≡ true
      → Roster this leader
          (members ++ x ∷ [])
          (erase x invitees)
          (update x (some this) party_of)
          (update x false invited)
  unfolding update mem
  Roster-join asked =
      let out = r.invitees_out x asked in
      let apart : ((leader == x) || mem x members) ≡ false = sym (r.in_party x) ∙ out in
      record {
        in_party = λ y. ground (arith, mem-append y members (x ∷ []), r.in_party y);
        leader_out = ground (arith, mem-append leader members (x ∷ []), r.leader_out);
        members_distinct = append-Distinct x members (ground arith) r.members_distinct;
        holds_invite = Roster-uninvite.holds_invite;
        invitees_distinct = Roster-uninvite.invitees_distinct;
        invitees_out =
            λ y h. ground (arith, mem-erase x y invitees r.invitees_distinct, r.invitees_out y);
      }

  pub Roster-pass :
      (leader == x) ≡ false
      → same_party (party_of x) this ≡ true
      → Roster this x (leader ∷ erase x members) invitees party_of invited
  unfolding mem
  Roster-pass other here = record {
    in_party = λ y. elim (Bool-cases (x == y)) [
      | inl e ↦ let p : x ≡ y = (==_iff x y).0 e in rw e (rw (← p) here)
      | inr e ↦ ground (arith, mem-erase x y members r.members_distinct, r.in_party y)
    ];
    leader_out = ground (arith, mem-erase x x members r.members_distinct);
    members_distinct = (
      ground (arith, mem-erase x leader members r.members_distinct, r.leader_out),
      erase-Distinct x members r.members_distinct,
    );
    holds_invite = r.holds_invite;
    invitees_distinct = r.invitees_distinct;
    invitees_out = r.invitees_out;
  }

  pub Roster-drop :
      (leader == x) ≡ false
      → Roster this leader (erase x members) invitees (update x none party_of) invited
  unfolding update
  Roster-drop other = record {
    in_party = λ y. ground (arith, mem-erase x y members r.members_distinct, r.in_party y);
    leader_out = ground (arith, mem-erase x leader members r.members_distinct, r.leader_out);
    members_distinct = erase-Distinct x members r.members_distinct;
    holds_invite = r.holds_invite;
    invitees_distinct = r.invitees_distinct;
    invitees_out = λ y h. ground (arith, r.invitees_out y);
  }
