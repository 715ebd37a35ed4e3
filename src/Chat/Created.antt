-- ===== src/Chat/Created.antt =====
-- The channels that `createChannel` of engine/src/chat.cpp makes.
use otx_teste.Common.{
  ℕ, zero, suc, ◌+◌, ◌^◌, ◌<◌, ◌≤◌, ◌≡◌, refl, if_either, inl, inr, ◌==◌, true, false, not, List,
  [], ◌∷◌, Option, none, some, arith, Option-cases,
}
use otx_teste.Common.Sets.{mem}
use otx_teste.Common.Maps.{find, find-emplace, Every-emplace}
use otx_teste.Chat.{
  channel_guild, channel_party, channel_private, Player, Channel, Scripts, Chat, new_channel,
  is_invited, Place, get_channel,
}
use otx_teste.Chat.Calls.{
  free_slot, slot_or, private_channel, create_channel, put_private, create_private, create_guild,
  create_party, create_missing, made, open_or_create, join_created,
}
use otx_teste.Chat.Privacy.{IsPrivate, new_channel-IsPrivate}
use otx_teste.Chat.Owners.{ArePrivate, owners, owners-emplace-Distinct}
-- A private channel that the player may enter, where `place` is one.
use mathlib.Core.Option.{none-ne-some}
use otx_teste.Chat.Requests.{Open, add_user_at-ArePrivate}

free_slot_lem :
    (n i j : ℕ) (m : List (ℕ × Channel))
    → free_slot n i m ≡ some j
    → (find j m ≡ none) × (i ≤ j) × (j < i + n)
unfolding free_slot slot_or
free_slot_lem zero i j m e = absurd (none-ne-some j e)
free_slot_lem (suc n) i j m e = elim (Option-cases (find i m)) [
  | inl free ↦ ground (arith, e, free)
  | inr (c, taken) ↦ let later = free_slot_lem n (i + 1) j m in ground (arith, e, taken, later)
]

private_channel-none :
    (g : ℕ) (m : List (ℕ × Channel)) → private_channel g m ≡ none → mem g (owners m) ≡ false
unfolding private_channel mem
private_channel-none g [] e = refl
private_channel-none g ((k, c) ∷ m) e = ground (arith, private_channel-none g m)

-- A new private channel: the player has none yet, and its number is free.
abbrev pub CreatedAt : Player → Option (Place × Chat) → Type 0
CreatedAt p none = Unit {0}
CreatedAt p (some (place, w)) = Open p place w × ArePrivate w.private_channels

new_channel-Open : (p : Player) (i : ℕ) → is_invited p.guid (new_channel i p.guid) ≡ true
unfolding is_invited new_channel
new_channel-Open p i = ground arith

put_private-CreatedAt :
    (p : Player) (slot : Option ℕ) (w : Chat)
    → free_slot 9900 100 w.private_channels ≡ slot
    → mem p.guid (owners w.private_channels) ≡ false
    → ArePrivate w.private_channels
    → CreatedAt p (put_private slot p.guid w)
unfolding put_private new_channel
put_private-CreatedAt p none w e o a = tt
put_private-CreatedAt p (some i) w e o a =
    let free = free_slot_lem 9900 100 i w.private_channels e in
    let new = new_channel i p.guid in
    (
      (new, find-emplace i new w.private_channels free.0, new_channel-Open p i),
      record {
        each =
            Every-emplace IsPrivate i new w.private_channels
              (new_channel-IsPrivate i p.guid free.1 (omega (arith, free.2))) a.each;
        one_each = owners-emplace-Distinct i new w.private_channels o a.one_each;
      },
    )

create_private-CreatedAt :
    (p : Player) (own : Option ℕ) (w : Chat)
    → private_channel p.guid w.private_channels ≡ own
    → ArePrivate w.private_channels
    → CreatedAt p (create_private p own w)
unfolding create_private
create_private-CreatedAt p (some k) w e a = tt
create_private-CreatedAt p none w e a =
    if_either (CreatedAt p) (not p.is_premium) {x = none} (λ h. tt)
      (λ h.
        put_private-CreatedAt p (free_slot 9900 100 w.private_channels) w refl
          (private_channel-none p.guid w.private_channels e) a)

create_guild-CreatedAt :
    (p : Player) (g : Option ℕ) (w : Chat)
    → ArePrivate w.private_channels
    → CreatedAt p (create_guild g w)
unfolding create_guild
create_guild-CreatedAt p none w a = tt
create_guild-CreatedAt p (some g) w a = (tt, a)

create_party-CreatedAt :
    (p : Player) (g : Option ℕ) (w : Chat)
    → ArePrivate w.private_channels
    → CreatedAt p (create_party g w)
unfolding create_party
create_party-CreatedAt p none w a = tt
create_party-CreatedAt p (some g) w a = (tt, a)

create_missing-CreatedAt :
    (p : Player) (k : ℕ) (at : Option Place) (w : Chat)
    → ArePrivate w.private_channels
    → CreatedAt p (create_missing p k at w)
unfolding create_missing
create_missing-CreatedAt p k (some place) w a = tt
create_missing-CreatedAt p k none w a =
    if_either (CreatedAt p) (k == channel_guild) {x = create_guild p.guild w}
      (λ e. create_guild-CreatedAt p p.guild w a)
      (λ e.
        if_either (CreatedAt p) (k == channel_party) {x = create_party p.party w}
          (λ e'. create_party-CreatedAt p p.party w a)
          (λ e'.
            if_either (CreatedAt p) (k == channel_private)
              {x = create_private p (private_channel p.guid w.private_channels) w} {y = none}
              (λ e. create_private-CreatedAt p (private_channel p.guid w.private_channels) w refl a)
              (λ e. tt)))

pub create_channel-CreatedAt :
    (scripts : Scripts) (p : Player) (k : ℕ) (w : Chat)
    → ArePrivate w.private_channels
    → CreatedAt p (create_channel scripts p k w)
unfolding create_channel
create_channel-CreatedAt scripts p k w a =
    create_missing-CreatedAt p k (get_channel scripts p k w) w a

made-ArePrivate :
    (p : Player) (at : Option Place) (new : Option (Place × Chat)) (w : Chat)
    → CreatedAt p new
    → ArePrivate w.private_channels
    → ArePrivate (made at new w).private_channels
unfolding made
made-ArePrivate p (some place) new w m a = a
made-ArePrivate p none none w m a = a
made-ArePrivate p none (some (place, w')) w m a = m.1

pub open_or_create-ArePrivate :
    (scripts : Scripts) (p : Player) (k : ℕ) (g : Option ℕ) (w : Chat)
    → ArePrivate w.private_channels
    → ArePrivate (open_or_create scripts p k g w).private_channels
unfolding open_or_create
open_or_create-ArePrivate scripts p k none w a = a
open_or_create-ArePrivate scripts p k (some g) w a =
    made-ArePrivate p (get_channel scripts p k w) (create_channel scripts p k w) w
      (create_channel-CreatedAt scripts p k w a) a

pub join_created-ArePrivate :
    (scripts : Scripts) (p : Player) (made : Option (Place × Chat)) (w : Chat)
    → p.guid < 2 ^ 32
    → CreatedAt p made
    → ArePrivate w.private_channels
    → ArePrivate (join_created scripts p made w).private_channels
unfolding join_created
join_created-ArePrivate scripts p none w small m a = a
join_created-ArePrivate scripts p (some (place, w')) w small m a =
    add_user_at-ArePrivate scripts p place w' small m.0 m.1
