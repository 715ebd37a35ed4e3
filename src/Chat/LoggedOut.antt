-- ===== src/Chat/LoggedOut.antt =====
-- `removeUserFromAllChannels` of engine/src/chat.cpp, for a player who leaves the game.
use otx_teste.Common.{ℕ, ◌≡◌, ◌==◌, false, List, [], ◌∷◌, some, arith, if_either}
use otx_teste.Common.Sets.{mem-erase, Distinct}
use otx_teste.Common.Maps.{find, Every, Every-find}
use otx_teste.Chat.{
  Channel, Chat, is_invited, get_id, remove_user, or_same, remove_invite, Place, normal, private_of,
  party_of, guild_of, channel_at, has_user,
}
use otx_teste.Chat.Calls.{remove_everywhere, remove_private, remove_user_from_all_channels}
use otx_teste.Chat.Privacy.{remove_user_lem}

-- The users and the invitations of a channel are maps: no key stands there twice.
abbrev pub Once : ℕ → Channel → Type 0
Once k c = Distinct c.users × Distinct c.invites

pub record AreMaps (w : Chat) : Type 0 where
  pub normal_once : Every Once w.normal_channels
  pub private_once : Every Once w.private_channels
  pub party_once : Every Once w.party_channels
  pub guild_once : Every Once w.guild_channels

has_user-remove_user :
    (g : ℕ) (c : Channel) → Distinct c.users → has_user g (or_same (remove_user g) c) ≡ false
unfolding has_user
has_user-remove_user g c d =
    rw (remove_user_lem g c) (ground (arith, mem-erase (get_id g) (get_id g) c.users d))

Every-remove_everywhere :
    (g : ℕ) (m : List (ℕ × Channel))
    → Every Once m
    → Every (λ k c. has_user g c ≡ false) (remove_everywhere g m)
unfolding remove_everywhere
Every-remove_everywhere g [] all = tt
Every-remove_everywhere g ((k, c) ∷ m) all =
    (has_user-remove_user g c all.0.0, Every-remove_everywhere g m all.1)

is_invited-take_out :
    (g : ℕ) (c : Channel)
    → Distinct c.invites
    → (((or_same (remove_user g) (remove_invite g c)).owner) == g) ≡ false
    → is_invited g (or_same (remove_user g) (remove_invite g c)) ≡ false
unfolding is_invited remove_invite
is_invited-take_out g c d other =
    let e = rw (remove_user_lem g (remove_invite g c)) at other in
    rw (remove_user_lem g (remove_invite g c)) (ground (arith, e, mem-erase g g c.invites d))

Every-remove_private :
    (g : ℕ) (m : List (ℕ × Channel))
    → Every Once m
    → Every (λ k c. (has_user g c ≡ false) × (is_invited g c ≡ false)) (remove_private g m)
unfolding remove_private
Every-remove_private g [] all = tt
Every-remove_private g ((k, c) ∷ m) all =
    let left = or_same (remove_user g) (remove_invite g c) in
    let rest = Every-remove_private g m all.1 in
    if_either (Every (λ j d. (has_user g d ≡ false) × (is_invited g d ≡ false))) (left.owner == g)
      {x = remove_private g m} {y = (k, left) ∷ remove_private g m} (λ e. rest)
      (λ e. (
        (
          unfold remove_invite in has_user-remove_user g (remove_invite g c) all.0.0,
          is_invited-take_out g c all.0.1 e,
        ),
        rest,
      ))

has_user-left :
    (g : ℕ) (w : Chat)
    → AreMaps w
    → (place : Place) (c : Channel) → channel_at place (remove_user_from_all_channels g w) ≡ some c
    → has_user g c ≡ false
unfolding channel_at remove_user_from_all_channels
has_user-left g w once (normal k) c e =
    Every-find (λ j d. has_user g d ≡ false) k (remove_everywhere g w.normal_channels) c
      (Every-remove_everywhere g w.normal_channels once.normal_once) e
has_user-left g w once (party_of k) c e =
    Every-find (λ j d. has_user g d ≡ false) k (remove_everywhere g w.party_channels) c
      (Every-remove_everywhere g w.party_channels once.party_once) e
has_user-left g w once (guild_of k) c e =
    Every-find (λ j d. has_user g d ≡ false) k (remove_everywhere g w.guild_channels) c
      (Every-remove_everywhere g w.guild_channels once.guild_once) e
has_user-left g w once (private_of k) c e =
    (Every-find (λ j d. (has_user g d ≡ false) × (is_invited g d ≡ false)) k
      (remove_private g w.private_channels) c
      (Every-remove_private g w.private_channels once.private_once) e).0

-- In a chat whose channels hold no user and no invitation twice, after a player left all channels:
-- in no channel that is left is the player a user, and in no
-- private one is it the owner or invited.
pub remove_user_from_all_channels_left :
    (g : ℕ) (w : Chat)
    → AreMaps w
    → ((place : Place) (c : Channel)
        → channel_at place (remove_user_from_all_channels g w) ≡ some c
        → has_user g c ≡ false)
      × ((k : ℕ) (c : Channel)
          → find k (remove_user_from_all_channels g w).private_channels ≡ some c
          → is_invited g c ≡ false)
remove_user_from_all_channels_left g w once = (
  has_user-left g w once,
  λ k c e.
      (Every-find (λ j d. (has_user g d ≡ false) × (is_invited g d ≡ false)) k
        (remove_private g w.private_channels) c
        (Every-remove_private g w.private_channels once.private_once)
        (unfold remove_user_from_all_channels in e)).1,
)
