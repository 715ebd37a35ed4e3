-- ===== src/Chat/Owners.antt =====
-- The private channels of engine/src/chat.cpp together, and who owns them.
use otx_teste.Common.{ℕ, ◌≡◌, refl, if_either, ◌==◌, false, List, [], ◌∷◌, arith}
use otx_teste.Common.Sets.{mem, Distinct}
use otx_teste.Common.Maps.{emplace, erase_entry, change, Every}
use otx_teste.Chat.{
  Player, Channel, Scripts, add_user, remove_user, or_same, remove_invite, exclude_player,
}
use otx_teste.Chat.Calls.{remove_private}
use otx_teste.Chat.Privacy.{IsPrivate, remove_user_lem, take_out-IsPrivate}

abbrev pub owners : List (ℕ × Channel) → List ℕ
owners [] = []
owners ((k, c) ∷ m) = c.owner ∷ owners m

-- The private channels are as they should be, and nobody owns two.
pub record ArePrivate (m : List (ℕ × Channel)) : Type 0 where
  pub each : Every IsPrivate m
  pub one_each : Distinct (owners m)

pub owners-change :
    (k : ℕ) (f : Channel → Channel) (m : List (ℕ × Channel))
    → ((c : Channel) → (f c).owner ≡ c.owner)
    → owners (change k f m) ≡ owners m
unfolding change
owners-change k f [] keep = refl
owners-change k f ((j, c) ∷ m) keep = ground (arith, keep c, owners-change k f m keep)

mem-owners-erase_entry :
    (g k : ℕ) (m : List (ℕ × Channel))
    → mem g (owners m) ≡ false
    → mem g (owners (erase_entry k m)) ≡ false
unfolding mem erase_entry
mem-owners-erase_entry g k [] h = refl
mem-owners-erase_entry g k ((j, c) ∷ m) h = ground (arith, mem-owners-erase_entry g k m)

pub owners-erase_entry-Distinct :
    (k : ℕ) (m : List (ℕ × Channel)) → Distinct (owners m) → Distinct (owners (erase_entry k m))
unfolding erase_entry
owners-erase_entry-Distinct k [] d = tt
owners-erase_entry-Distinct k ((j, c) ∷ m) d =
    ground (arith, owners-erase_entry-Distinct k m, mem-owners-erase_entry c.owner k m)

mem-owners-emplace :
    (g k : ℕ) (v : Channel) (m : List (ℕ × Channel))
    → mem g (owners m) ≡ false
    → (g == v.owner) ≡ false
    → mem g (owners (emplace k v m)) ≡ false
unfolding mem emplace
mem-owners-emplace g k v [] h o = ground arith
mem-owners-emplace g k v ((j, c) ∷ m) h o = ground (arith, mem-owners-emplace g k v m)

pub owners-emplace-Distinct :
    (k : ℕ) (v : Channel) (m : List (ℕ × Channel))
    → mem v.owner (owners m) ≡ false
    → Distinct (owners m)
    → Distinct (owners (emplace k v m))
unfolding emplace mem
owners-emplace-Distinct k v [] h d = (refl, tt)
owners-emplace-Distinct k v ((j, c) ∷ m) h d =
    ground (arith, owners-emplace-Distinct k v m, mem-owners-emplace c.owner k v m)

pub owner-add_user :
    (scripts : Scripts) (p : Player) (c : Channel)
    → (or_same (add_user scripts p) c).owner ≡ c.owner
unfolding or_same add_user
owner-add_user scripts p c = ground arith

pub owner-remove_user : (g : ℕ) (c : Channel) → (or_same (remove_user g) c).owner ≡ c.owner
owner-remove_user g c = rw (remove_user_lem g c) refl

pub owner-exclude_player : (g : ℕ) (c : Channel) → (exclude_player g c).owner ≡ c.owner
unfolding exclude_player remove_invite
owner-exclude_player g c = ground (arith, owner-remove_user g (remove_invite g c))

owner-take_out :
    (g : ℕ) (c : Channel) → (or_same (remove_user g) (remove_invite g c)).owner ≡ c.owner
unfolding remove_invite
owner-take_out g c = owner-remove_user g (remove_invite g c)

mem-owners-remove_private :
    (g h : ℕ) (m : List (ℕ × Channel))
    → mem g (owners m) ≡ false
    → mem g (owners (remove_private h m)) ≡ false
unfolding mem remove_private
mem-owners-remove_private g h [] e = refl
mem-owners-remove_private g h ((j, c) ∷ m) e =
    ground (arith, mem-owners-remove_private g h m, owner-take_out h c)

pub remove_private-ArePrivate :
    (g : ℕ) (m : List (ℕ × Channel)) → ArePrivate m → ArePrivate (remove_private g m)
unfolding remove_private
remove_private-ArePrivate g [] a = a
remove_private-ArePrivate g ((j, c) ∷ m) a =
    let rest =
      remove_private-ArePrivate g m (record { each = a.each.1; one_each = a.one_each.1 }) in
    let left = or_same (remove_user g) (remove_invite g c) in
    let owner : left.owner ≡ c.owner = owner-take_out g c in
    if_either ArePrivate (left.owner == g) {x = remove_private g m}
      {y = (j, left) ∷ remove_private g m} (λ e. rest)
      (λ e. record {
        each = (take_out-IsPrivate g j c a.each.0, rest.each);
        one_each = (rw owner (mem-owners-remove_private c.owner g m a.one_each.0), rest.one_each);
      })
