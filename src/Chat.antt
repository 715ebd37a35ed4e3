-- ===== src/Chat.antt =====
-- The channels of engine/src/chat.cpp and chat.h. A player is known by its number in the database,
-- of which the engine makes its id; the texts of messages and the names are left out, and the
-- answers of the channels' scripts are a parameter.
pub mod Calls
pub mod Privacy
pub mod Owners
pub mod Requests
pub mod Created
pub mod Runs
pub mod LoggedOut
use otx_teste.Common.{
  ℕ, zero, suc, ◌+◌, ◌%◌, ◌^◌, ◌==◌, ltb, if◌then◌else◌, Bool, true, false, not, ◌&&◌, ◌||◌, List,
  [], ◌∷◌, ◌++◌, Option, none, some,
}
use otx_teste.Common.Sets.{mem, erase}
use otx_teste.Common.Maps.{insert_key, find, emplace, erase_entry, change}

abbrev pub channel_guild : ℕ
channel_guild = 0

abbrev pub channel_party : ℕ
channel_party = 1

abbrev pub channel_private : ℕ
channel_private = 0xFFFF

abbrev pub talktype_channel_y : ℕ
talktype_channel_y = 7

abbrev pub talktype_channel_o : ℕ
talktype_channel_o = 8

-- What the channels ask of a `Player`: its database number, its guild with its rank's level there,
-- its party, and whether it is premium.
pub record Player : Type 0 where
  pub guid : ℕ
  pub guild : Option ℕ
  pub guild_rank : Option ℕ
  pub party : Option ℕ
  pub is_premium : Bool

-- `Player::setID`, on `uint32_t`.
unfoldable pub get_id : ℕ → ℕ
get_id guid = (0x10010000 + guid) % 2 ^ 32

-- `ChatChannel` and `PrivateChatChannel`: in a channel that is not private the owner is 0 and
-- nobody is invited. `users` are ids, `invites` database numbers; an event that is -1 is `none`.
pub record Channel : Type 0 where
  pub id : ℕ
  pub users : List ℕ
  pub can_join_event : Option ℕ
  pub on_join_event : Option ℕ
  pub on_speak_event : Option ℕ
  pub owner : ℕ
  pub invites : List ℕ

-- The answers of the scripts. `onSpeak` gives the type to speak with, or refuses.
pub record Scripts : Type 0 where
  pub can_join : ℕ → Player → Bool
  pub on_join : ℕ → Player → Bool
  pub on_speak : ℕ → Player → ℕ → Option ℕ

pub record Chat : Type 0 where
  pub normal_channels : List (ℕ × Channel)
  pub private_channels : List (ℕ × Channel)
  pub party_channels : List (ℕ × Channel)
  pub guild_channels : List (ℕ × Channel)

-- `ChatChannel(id, name)` and `PrivateChatChannel(id, name)` with `setOwner`.
unfoldable pub new_channel : ℕ → ℕ → Channel
new_channel id owner = record {
  id = id;
  users = [];
  can_join_event = none;
  on_join_event = none;
  on_speak_event = none;
  owner = owner;
  invites = [];
}

-- `PrivateChatChannel::isInvited`.
unfoldable pub is_invited : ℕ → Channel → Bool
is_invited guid c = (guid == c.owner) || mem guid c.invites

unfoldable pub remove_invite : ℕ → Channel → Channel
remove_invite guid c = record c { invites = erase guid c.invites }

unfoldable pub has_user : ℕ → Channel → Bool
has_user guid c = mem (get_id guid) c.users

unfoldable pub execute_event : (ℕ → Bool) → Option ℕ → Bool
execute_event script none = true
execute_event script (some event) = script event

-- `ChatChannel::addUser`: the channel with the player, or false.
unfoldable pub add_user : Scripts → Player → Channel → Option Channel
unfolding has_user execute_event
add_user scripts player c =
    if has_user player.guid c
    then none
    else if not (execute_event (λ e. scripts.on_join e player) c.on_join_event)
    then none
    else some (record c { users = insert_key (get_id player.guid) c.users })

-- `ChatChannel::removeUser`.
unfoldable pub remove_user : ℕ → Channel → Option Channel
unfolding has_user
remove_user guid c =
    if not (has_user guid c) then none else some (record c { users = erase (get_id guid) c.users })

-- A channel after an operation that may answer false and then has left it as it was.
unfoldable pub or_same : (Channel → Option Channel) → Channel → Channel
or_same f c = elim (f c) [ none ↦ c | some c' ↦ c' ]

-- `PrivateChatChannel::invitePlayer`.
unfoldable pub invite_player : ℕ → Channel → Channel
invite_player guid c = record c { invites = insert_key guid c.invites }

-- `PrivateChatChannel::excludePlayer`.
unfoldable pub exclude_player : ℕ → Channel → Channel
unfolding or_same
exclude_player guid c =
    if not (mem guid c.invites) then c else or_same (remove_user guid) (remove_invite guid c)

-- A pointer to a channel: the map that holds it, and its key there.
pub data Place : Type 0 where
  normal : ℕ → Place
  private_of : ℕ → Place
  party_of : ℕ → Place
  guild_of : ℕ → Place

unfoldable pub channel_at : Place → Chat → Option Channel
channel_at (normal k) w = find k w.normal_channels
channel_at (private_of k) w = find k w.private_channels
channel_at (party_of k) w = find k w.party_channels
channel_at (guild_of k) w = find k w.guild_channels

unfoldable pub change_at : Place → (Channel → Channel) → Chat → Chat
change_at (normal k) f w = record w { normal_channels = change k f w.normal_channels }
change_at (private_of k) f w = record w { private_channels = change k f w.private_channels }
change_at (party_of k) f w = record w { party_channels = change k f w.party_channels }
change_at (guild_of k) f w = record w { guild_channels = change k f w.guild_channels }

-- A place where there is a channel.
unfoldable pub found : Place → Option Channel → Option Place
found place none = none
found place (some c) = some place

-- The cases of `getChannel`: of the guild or the party that the player may have.
unfoldable pub guild_place : Option ℕ → Chat → Option Place
unfolding found
guild_place none w = none
guild_place (some g) w = found (guild_of g) (find g w.guild_channels)

unfoldable pub party_place : Option ℕ → Chat → Option Place
unfolding found
party_place none w = none
party_place (some p) w = found (party_of p) (find p w.party_channels)

-- The default case, from what the search of `normalChannels` and of `privateChannels` finds.
unfoldable pub other_place : Scripts → Player → ℕ → Option Channel → Option Channel → Option Place
unfolding execute_event
other_place scripts player k (some c) p =
    if not (execute_event (λ e. scripts.can_join e player) c.can_join_event)
    then none
    else some (normal k)
other_place scripts player k none none = none
other_place scripts player k none (some c) =
    if is_invited player.guid c then some (private_of k) else none

-- `Chat::getChannel`.
unfoldable pub get_channel : Scripts → Player → ℕ → Chat → Option Place
unfolding guild_place party_place
get_channel scripts player k w =
    if k == channel_guild
    then guild_place player.guild w
    else if k == channel_party
    then party_place player.party w
    else other_place scripts player k (find k w.normal_channels) (find k w.private_channels)
