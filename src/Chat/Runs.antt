-- ===== src/Chat/Runs.antt =====
-- The requests of engine/src/game.cpp that reach the channels of engine/src/chat.cpp, in any order.
use otx_teste.Common.{
  ℕ, ◌^◌, ◌<◌, ◌≡◌, refl, if_either, inl, inr, ◌==◌, true, false, not, List, [], ◌∷◌, Option, none,
  some, arith, Bool-cases,
}
use otx_teste.Common.Sets.{mem}
use otx_teste.Common.Maps.{find, Every-find}
use otx_teste.Chat.{
  channel_guild, channel_party, channel_private, other_place, Player, Channel, Scripts, Chat,
  is_invited, get_id, invite_player, exclude_player, channel_at, change_at, get_channel, has_user,
}
use otx_teste.Chat.Calls.{
  private_channel, create_channel, remove_user_from_channel, open_or_create, get_channel_list,
  change_own, remove_user_from_all_channels, talk_from, talk_at, talk, speak_event, talk_type,
  talk_to_channel, Call, create, list, open_channel, close, invite, exclude, log_out, call, run,
}
use otx_teste.Chat.Privacy.{IsPrivate, invite_player-IsPrivate, exclude_player-IsPrivate}
use otx_teste.Chat.Owners.{ArePrivate, remove_private-ArePrivate, owner-exclude_player}
-- A private channel that the player may enter, where `place` is one.
use mathlib.Core.Option.{none-ne-some}
use otx_teste.Chat.Requests.{
  change-ArePrivate, add_user_to_channel-ArePrivate, remove_user_from-ArePrivate,
}
use otx_teste.Chat.Created.{
  create_channel-CreatedAt, open_or_create-ArePrivate, join_created-ArePrivate,
}

change_own-ArePrivate :
    (own : Option ℕ) (f : Channel → Channel) (w : Chat)
    → ((k : ℕ) (c : Channel) → IsPrivate k c → IsPrivate k (f c))
    → ((c : Channel) → (f c).owner ≡ c.owner)
    → ArePrivate w.private_channels
    → ArePrivate (change_own own f w).private_channels
unfolding change_own change_at
change_own-ArePrivate none f w keep owner a = a
change_own-ArePrivate (some k) f w keep owner a =
    change-ArePrivate k f w.private_channels (keep k) owner a

owner-invite_player : (g : ℕ) (c : Channel) → (invite_player g c).owner ≡ c.owner
unfolding invite_player
owner-invite_player g c = refl

-- The players of a request are characters of the database.
abbrev pub IsCall : Call → Type 0
IsCall (create p) = p.guid < 2 ^ 32
IsCall (open_channel p k) = p.guid < 2 ^ 32
IsCall (list p) = Unit {0}
IsCall (close p k) = Unit {0}
IsCall (invite g h) = Unit {0}
IsCall (exclude g h) = Unit {0}
IsCall (log_out g) = Unit {0}

pub call-ArePrivate :
    (scripts : Scripts) (r : Call) (w : Chat)
    → IsCall r
    → ArePrivate w.private_channels
    → ArePrivate (call scripts r w).private_channels
unfolding call
call-ArePrivate scripts (create p) w small a =
    if_either (λ (w' : Chat). ArePrivate w'.private_channels) (not p.is_premium) {x = w} (λ e. a)
      (λ e.
        join_created-ArePrivate scripts p (create_channel scripts p channel_private w) w small
          (create_channel-CreatedAt scripts p channel_private w a) a)
call-ArePrivate scripts (list p) w small a =
    unfold get_channel_list in
    open_or_create-ArePrivate scripts p channel_party p.party
      (open_or_create scripts p channel_guild p.guild w)
      (open_or_create-ArePrivate scripts p channel_guild p.guild w a)
call-ArePrivate scripts (open_channel p k) w small a =
    add_user_to_channel-ArePrivate scripts p k w small a
call-ArePrivate scripts (close p k) w small a =
    unfold remove_user_from_channel in
    remove_user_from-ArePrivate p k (get_channel scripts p k w) w a
call-ArePrivate scripts (invite g h) w small a =
    if_either (λ (w' : Chat). ArePrivate w'.private_channels) (g == h) {x = w} (λ e. a)
      (λ e.
        change_own-ArePrivate (private_channel g w.private_channels) (invite_player h) w
          (invite_player-IsPrivate h) (owner-invite_player h) a)
call-ArePrivate scripts (exclude g h) w small a =
    if_either (λ (w' : Chat). ArePrivate w'.private_channels) (g == h) {x = w} (λ e. a)
      (λ e.
        change_own-ArePrivate (private_channel g w.private_channels) (exclude_player h) w
          (exclude_player-IsPrivate h) (owner-exclude_player h) a)
call-ArePrivate scripts (log_out g) w small a =
    unfold remove_user_from_all_channels in remove_private-ArePrivate g w.private_channels a

abbrev pub AreCalls : List (Scripts × Call) → Type 0
AreCalls [] = Unit {0}
AreCalls ((scripts, r) ∷ rs) = IsCall r × AreCalls rs

run_from-ArePrivate :
    (rs : List (Scripts × Call)) (w : Chat)
    → AreCalls rs
    → ArePrivate w.private_channels
    → ArePrivate (run rs w).private_channels
unfolding run
run_from-ArePrivate [] w are a = a
run_from-ArePrivate ((scripts, r) ∷ rs) w are a =
    run_from-ArePrivate rs (call scripts r w) are.1 (call-ArePrivate scripts r w are.0 a)

-- After any requests, of players whose numbers are below 2 ^ 32, to a chat that started without
-- private channels, whatever the scripts answer:
-- everybody in a private channel is its owner or invited and is there once, its number is the key
-- under which it is found, from 100 to 9999, and nobody owns two private channels.
pub run-ArePrivate :
    (rs : List (Scripts × Call)) (w : Chat)
    → AreCalls rs
    → w.private_channels ≡ []
    → ArePrivate (run rs w).private_channels
run-ArePrivate rs w are none_yet =
    run_from-ArePrivate rs w are (rw none_yet (record { each = tt; one_each = tt }))

talk-users :
    (g : ℕ) (c : Channel) (type : Option ℕ) (to : List ℕ) (t : ℕ)
    → talk g c type ≡ some (to, t)
    → to ≡ c.users
unfolding talk
talk-users g c none to t e = absurd (none-ne-some (to, t) e)
talk-users g c (some type) to t e = ground (arith, e)

talk_from-IsPrivate :
    (scripts : Scripts) (p : Player) (type k : ℕ) (w : Chat) (to : List ℕ) (t : ℕ)
    (found_there : Option Channel)
    → find k w.private_channels ≡ found_there
    → ArePrivate w.private_channels
    → talk_from scripts p type (other_place scripts p k none found_there) w ≡ some (to, t)
    → (g : ℕ) → g < 2 ^ 32
    → mem (get_id g) to ≡ true
    → (c : Channel) × (find k w.private_channels ≡ some c)
      × (is_invited p.guid c ≡ true)
      × (is_invited g c ≡ true)
unfolding talk_from other_place talk_at channel_at
talk_from-IsPrivate scripts p type k w to t none at a e g small m = absurd (none-ne-some (to, t) e)
talk_from-IsPrivate scripts p type k w to t (some c) at a e g small m =
    elim (Bool-cases (is_invited p.guid c)) [
      | inr refused ↦ absurd (none-ne-some (to, t) (rw refused at e))
      | inl asked ↦
          let spoken = rw (asked, at) at e in
          let all = talk-users p.guid c (speak_event scripts p type c.on_speak_event) to t spoken in
          let there : has_user g c ≡ true = unfold has_user in rw (← all) m in
          (
            c,
            at,
            asked,
            (Every-find IsPrivate k w.private_channels c a.each at).invited g small there,
          )
    ]

get_channel_other :
    (scripts : Scripts) (p : Player) (k : ℕ) (w : Chat)
    → 1 < k
    → find k w.normal_channels ≡ none
    → get_channel scripts p k w ≡ other_place scripts p k none (find k w.private_channels)
unfolding get_channel
get_channel_other scripts p k w other free =
    let not_guild : (k == channel_guild) ≡ false = ground arith in
    let not_party : (k == channel_party) ≡ false = ground arith in
    rw (not_guild, not_party, free) refl

-- After any such requests: a text that is spoken under a number above 1 that no normal channel has
-- is spoken in a private channel; of the players with numbers below 2 ^ 32 it reaches only the
-- channel's owner and those who are invited, and only one of these can speak it.
pub talk_to_channel-IsPrivate :
    (rs : List (Scripts × Call)) (start : Chat) (scripts : Scripts) (p : Player) (type k : ℕ)
    (to : List ℕ) (t g : ℕ)
    → AreCalls rs
    → start.private_channels ≡ []
    → 1 < k
    → find k (run rs start).normal_channels ≡ none
    → talk_to_channel scripts p type k (run rs start) ≡ some (to, t)
    → g < 2 ^ 32
    → mem (get_id g) to ≡ true
    → (c : Channel) × (find k (run rs start).private_channels ≡ some c)
      × (is_invited p.guid c ≡ true)
      × (is_invited g c ≡ true)
unfolding talk_to_channel
talk_to_channel-IsPrivate rs start scripts p type k to t g are empty other free e small m =
    let w = run rs start in
    talk_from-IsPrivate scripts p (talk_type p k type) k w to t (find k w.private_channels) refl
      (run-ArePrivate rs start are empty) (rw (get_channel_other scripts p k w other free) at e) g
      small m
