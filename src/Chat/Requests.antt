-- ===== src/Chat/Requests.antt =====
-- Entering and leaving the channels of engine/src/chat.cpp.
use otx_teste.Common.{
  ℕ, ◌^◌, ◌<◌, ◌≡◌, refl, if_either, inl, inr, ◌==◌, true, not, List, Option, none, some,
  Option-cases,
}
use otx_teste.Common.Maps.{
  find, change, Every-find, Every-erase_entry, Every-change_found, Every-change,
}
use otx_teste.Chat.{
  channel_guild, channel_party, normal, other_place, guild_place, party_place, execute_event,
  Player, Channel, Scripts, Chat, is_invited, add_user, remove_user, or_same, Place, private_of,
  party_of, guild_of, channel_at, change_at, get_channel, has_user,
}
use otx_teste.Chat.Calls.{
  delete_channel, delete_guild, delete_party, add_user_to_channel, add_user_at, remove_user_at,
  remove_user_from,
}
use otx_teste.Chat.Privacy.{IsPrivate, add_user-IsPrivate, remove_user-IsPrivate}
use otx_teste.Chat.Owners.{
  ArePrivate, owners-change, owners-erase_entry-Distinct, owner-add_user, owner-remove_user,
}

-- A private channel that the player may enter, where `place` is one.

pub change-ArePrivate :
    (k : ℕ) (f : Channel → Channel) (m : List (ℕ × Channel))
    → ((c : Channel) → IsPrivate k c → IsPrivate k (f c))
    → ((c : Channel) → (f c).owner ≡ c.owner)
    → ArePrivate m
    → ArePrivate (change k f m)
change-ArePrivate k f m keep owner a = record {
  each = Every-change IsPrivate k f m keep a.each;
  one_each = rw (owners-change k f m owner) a.one_each;
}

abbrev pub Open : Player → Place → Chat → Type 0
Open p (private_of i) w =
    (c : Channel) × (find i w.private_channels ≡ some c) × (is_invited p.guid c ≡ true)
Open p (normal k) w = Unit {0}
Open p (party_of k) w = Unit {0}
Open p (guild_of k) w = Unit {0}

abbrev OpenAt : Player → Chat → Option Place → Type 0
OpenAt p w none = Unit {0}
OpenAt p w (some place) = Open p place w

other_place-OpenAt :
    (scripts : Scripts) (p : Player) (k : ℕ) (w : Chat) (n c : Option Channel)
    → find k w.private_channels ≡ c
    → OpenAt p w (other_place scripts p k n c)
unfolding other_place
other_place-OpenAt scripts p k w (some n) c at =
    if_either (OpenAt p w) (not (execute_event (λ e. scripts.can_join e p) n.can_join_event))
      {x = none} {y = some (normal k)} (λ e. tt) (λ e. tt)
other_place-OpenAt scripts p k w none none at = tt
other_place-OpenAt scripts p k w none (some c) at =
    if_either (OpenAt p w) (is_invited p.guid c) {x = some (private_of k)} {y = none}
      (λ e. (c, at, e)) (λ e. tt)

guild_place-OpenAt : (p : Player) (w : Chat) (g : Option ℕ) → OpenAt p w (guild_place g w)
unfolding guild_place
guild_place-OpenAt p w none = tt
guild_place-OpenAt p w (some g) = elim (Option-cases (find g w.guild_channels)) [
  | inl e ↦ rw e tt
  | inr (c, e) ↦ rw e tt
]

party_place-OpenAt : (p : Player) (w : Chat) (g : Option ℕ) → OpenAt p w (party_place g w)
unfolding party_place
party_place-OpenAt p w none = tt
party_place-OpenAt p w (some g) = elim (Option-cases (find g w.party_channels)) [
  | inl e ↦ rw e tt
  | inr (c, e) ↦ rw e tt
]

get_channel-OpenAt :
    (scripts : Scripts) (p : Player) (k : ℕ) (w : Chat) → OpenAt p w (get_channel scripts p k w)
unfolding get_channel
get_channel-OpenAt scripts p k w =
    if_either (OpenAt p w) (k == channel_guild) {x = guild_place p.guild w}
      (λ e. guild_place-OpenAt p w p.guild)
      (λ e.
        if_either (OpenAt p w) (k == channel_party) {x = party_place p.party w}
          (λ e'. party_place-OpenAt p w p.party)
          (λ e'.
            other_place-OpenAt scripts p k w (find k w.normal_channels) (find k w.private_channels)
              refl))

pub add_user_at-ArePrivate :
    (scripts : Scripts) (p : Player) (place : Place) (w : Chat)
    → p.guid < 2 ^ 32
    → Open p place w
    → ArePrivate w.private_channels
    → ArePrivate (change_at place (or_same (add_user scripts p)) w).private_channels
unfolding change_at
add_user_at-ArePrivate scripts p (normal k) w small o a = a
add_user_at-ArePrivate scripts p (party_of k) w small o a = a
add_user_at-ArePrivate scripts p (guild_of k) w small o a = a
add_user_at-ArePrivate scripts p (private_of i) w small (c, at, asked) a =
    let f = or_same (add_user scripts p) in
    record {
      each =
          Every-change_found IsPrivate i f w.private_channels c at
            (add_user-IsPrivate scripts p i c small asked
              (Every-find IsPrivate i w.private_channels c a.each at))
            a.each;
      one_each = rw (owners-change i f w.private_channels (owner-add_user scripts p)) a.one_each;
    }

remove_user_at-ArePrivate :
    (g : ℕ) (place : Place) (w : Chat)
    → ArePrivate w.private_channels
    → ArePrivate (change_at place (or_same (remove_user g)) w).private_channels
unfolding change_at
remove_user_at-ArePrivate g (normal k) w a = a
remove_user_at-ArePrivate g (party_of k) w a = a
remove_user_at-ArePrivate g (guild_of k) w a = a
remove_user_at-ArePrivate g (private_of i) w a =
    change-ArePrivate i (or_same (remove_user g)) w.private_channels (remove_user-IsPrivate g i)
      (owner-remove_user g) a

private-delete_guild :
    (g : Option ℕ) (w : Chat) → (delete_guild g w).private_channels ≡ w.private_channels
unfolding delete_guild
private-delete_guild none w = refl
private-delete_guild (some g) w = refl

private-delete_party :
    (g : Option ℕ) (w : Chat) → (delete_party g w).private_channels ≡ w.private_channels
unfolding delete_party
private-delete_party none w = refl
private-delete_party (some g) w = refl

delete_channel-ArePrivate :
    (p : Player) (k : ℕ) (w : Chat)
    → ArePrivate w.private_channels
    → ArePrivate (delete_channel p k w).private_channels
unfolding delete_channel
delete_channel-ArePrivate p k w a =
    let P = λ (w' : Chat). ArePrivate w'.private_channels in
    if_either P (k == channel_guild) {x = delete_guild p.guild w}
      (λ e. rw (private-delete_guild p.guild w) a)
      (λ e.
        if_either P (k == channel_party) {x = delete_party p.party w}
          (λ e'. rw (private-delete_party p.party w) a)
          (λ e'. record {
            each = Every-erase_entry IsPrivate k w.private_channels a.each;
            one_each = owners-erase_entry-Distinct k w.private_channels a.one_each;
          }))

pub add_user_to_channel-ArePrivate :
    (scripts : Scripts) (p : Player) (k : ℕ) (w : Chat)
    → p.guid < 2 ^ 32
    → ArePrivate w.private_channels
    → ArePrivate (add_user_to_channel scripts p k w).private_channels
unfolding add_user_to_channel add_user_at
add_user_to_channel-ArePrivate scripts p k w small a =
    elim (Option-cases (get_channel scripts p k w)) [
      | inl e ↦ rw e a
      | inr (place, e) ↦ rw e (
          add_user_at-ArePrivate scripts p place w small
            (rw e at (get_channel-OpenAt scripts p k w)) a)
    ]

remove_from-ArePrivate :
    (p : Player) (k : ℕ) (place : Place) (c : Option Channel) (w : Chat)
    → ArePrivate w.private_channels
    → ArePrivate (remove_user_at p k place c w).private_channels
unfolding remove_user_at
remove_from-ArePrivate p k place none w a = a
remove_from-ArePrivate p k place (some c) w a =
    let P = λ (w' : Chat). ArePrivate w'.private_channels in
    let left = change_at place (or_same (remove_user p.guid)) w in
    let kept = remove_user_at-ArePrivate p.guid place w a in
    if_either P (not (has_user p.guid c)) {x = w} (λ e. a)
      (λ e.
        if_either P (c.owner == p.guid) {x = delete_channel p k left} {y = left}
          (λ e'. delete_channel-ArePrivate p k left kept) (λ e'. kept))

pub remove_user_from-ArePrivate :
    (p : Player) (k : ℕ) (place : Option Place) (w : Chat)
    → ArePrivate w.private_channels
    → ArePrivate (remove_user_from p k place w).private_channels
unfolding remove_user_from
remove_user_from-ArePrivate p k none w a = a
remove_user_from-ArePrivate p k (some place) w a =
    remove_from-ArePrivate p k place (channel_at place w) w a
