-- ===== src/Chat/Privacy.antt =====
-- Who is in the private channels of engine/src/chat.cpp.
use otx_teste.Common.{
  ℕ, ◌^◌, ◌<◌, ◌≤◌, ◌≡◌, refl, inl, inr, ◌==◌, true, List, arith, ==_iff, Bool-cases,
}
use otx_teste.Common.Sets.{mem, erase, mem-erase, erase-Distinct, Distinct}
use otx_teste.Common.Maps.{insert_key, mem-insert_key, insert_key-Distinct, erase_absent}
use otx_teste.Chat.{
  Player, Channel, Scripts, new_channel, is_invited, get_id, add_user, remove_user, or_same,
  remove_invite, invite_player, exclude_player, has_user,
}

-- No two characters have one id.
get_id_unique : (g h : ℕ) → g < 2 ^ 32 → h < 2 ^ 32 → get_id g ≡ get_id h → g ≡ h
unfolding get_id
get_id_unique g h a b e = omega arith

-- Who is in a channel is its owner or invited; nobody is in it twice.
pub record IsPrivate (k : ℕ) (c : Channel) : Type 0 where
  pub invited : (g : ℕ) → g < 2 ^ 32 → has_user g c ≡ true → is_invited g c ≡ true
  pub once : Distinct c.users
  pub invited_once : Distinct c.invites
  pub keeps_id : c.id ≡ k
  pub low : 100 ≤ k
  pub high : k < 10000

pub new_channel-IsPrivate : (k owner : ℕ) → 100 ≤ k → k < 10000 → IsPrivate k (new_channel k owner)
unfolding new_channel has_user mem
new_channel-IsPrivate k owner low high = record {
  invited = λ g small h. absurd (cc);
  once = tt;
  invited_once = tt;
  keeps_id = refl;
  low = low;
  high = high;
}

users-IsPrivate :
    (k : ℕ) (c : Channel) (us : List ℕ)
    → Distinct us
    → ((g : ℕ) → g < 2 ^ 32 → mem (get_id g) us ≡ true → is_invited g c ≡ true)
    → IsPrivate k c
    → IsPrivate k (record c { users = us })
unfolding has_user is_invited
users-IsPrivate k c us d all i = record {
  invited = λ g small h. all g small h;
  once = d;
  invited_once = i.invited_once;
  keeps_id = i.keeps_id;
  low = i.low;
  high = i.high;
}

pub add_user-IsPrivate :
    (scripts : Scripts) (p : Player) (k : ℕ) (c : Channel)
    → p.guid < 2 ^ 32
    → is_invited p.guid c ≡ true
    → IsPrivate k c
    → IsPrivate k (or_same (add_user scripts p) c)
unfolding or_same add_user has_user
add_user-IsPrivate scripts p k c small asked i =
    let more =
      users-IsPrivate k c (insert_key (get_id p.guid) c.users)
        (insert_key-Distinct (get_id p.guid) c.users i.once)
        (λ g below h. elim (Bool-cases (get_id g == get_id p.guid)) [
          | inl e ↦
              let same =
                get_id_unique g p.guid below small ((==_iff (get_id g) (get_id p.guid)).0 e) in
              rw same asked
          | inr e ↦
              i.invited g below (ground (arith, mem-insert_key (get_id g) (get_id p.guid) c.users))
        ])
        i in
    ground (arith, more)

-- Taking a player out, whether or not it is there.
pub remove_user_lem :
    (g : ℕ) (c : Channel)
    → or_same (remove_user g) c ≡ record c { users = erase (get_id g) c.users }
unfolding or_same remove_user has_user
remove_user_lem g c = ground (arith, erase_absent (get_id g) c.users)

pub remove_user-IsPrivate :
    (g k : ℕ) (c : Channel) → IsPrivate k c → IsPrivate k (or_same (remove_user g) c)
unfolding has_user
remove_user-IsPrivate g k c i = rw (remove_user_lem g c) (
    users-IsPrivate k c (erase (get_id g) c.users) (erase-Distinct (get_id g) c.users i.once)
      (λ h below there.
        i.invited h below (ground (arith, mem-erase (get_id g) (get_id h) c.users i.once)))
      i)

get_id_same : (g h : ℕ) → (g == h) ≡ true → (get_id g == get_id h) ≡ true
get_id_same g h e = rw ((==_iff g h).0 e) ((==_iff (get_id h) (get_id h)).1 refl)

-- Withdrawing an invitation and taking the player out.
pub take_out-IsPrivate :
    (g k : ℕ) (c : Channel)
    → IsPrivate k c
    → IsPrivate k (or_same (remove_user g) (remove_invite g c))
unfolding remove_invite is_invited has_user
take_out-IsPrivate g k c i = rw (remove_user_lem g (remove_invite g c)) (record {
  invited = λ h below there.
      let left = mem-erase (get_id g) (get_id h) c.users i.once in
      ground (
        arith,
        i.invited h below (ground (arith, left)),
        mem-erase g h c.invites i.invited_once,
        left,
        get_id_same g h,
      );
  once = erase-Distinct (get_id g) c.users i.once;
  invited_once = erase-Distinct g c.invites i.invited_once;
  keeps_id = i.keeps_id;
  low = i.low;
  high = i.high;
})

pub invite_player-IsPrivate :
    (g k : ℕ) (c : Channel) → IsPrivate k c → IsPrivate k (invite_player g c)
unfolding invite_player is_invited has_user
invite_player-IsPrivate g k c i = record {
  invited = λ h small there. ground (arith, i.invited h small there, mem-insert_key h g c.invites);
  once = i.once;
  invited_once = insert_key-Distinct g c.invites i.invited_once;
  keeps_id = i.keeps_id;
  low = i.low;
  high = i.high;
}

pub exclude_player-IsPrivate :
    (g k : ℕ) (c : Channel) → IsPrivate k c → IsPrivate k (exclude_player g c)
unfolding exclude_player
exclude_player-IsPrivate g k c i = ground (arith, take_out-IsPrivate g k c i)
