-- ===== src/Chat/Calls.antt =====
-- The operations of `Chat` in engine/src/chat.cpp, and the requests of engine/src/game.cpp that call
-- them.
use otx_teste.Common.{
  ℕ, zero, suc, ◌+◌, ◌==◌, ltb, if◌then◌else◌, not, ◌||◌, List, [], ◌∷◌, Option, none, some,
}
use otx_teste.Common.Maps.{find, emplace, erase_entry}
use otx_teste.Chat.{
  channel_guild, channel_party, channel_private, talktype_channel_y, talktype_channel_o, Player,
  Channel, Scripts, Chat, new_channel, add_user, remove_user, or_same, remove_invite, invite_player,
  exclude_player, Place, private_of, party_of, guild_of, channel_at, change_at, get_channel,
  has_user,
}

-- The loop of `Chat::createChannel` over the numbers of private channels, the first that is free.
unfoldable pub slot_or : ℕ → Option Channel → Option ℕ → Option ℕ
slot_or i none later = some i
slot_or i (some c) later = later

unfoldable pub free_slot : ℕ → ℕ → List (ℕ × Channel) → Option ℕ
unfolding slot_or
free_slot zero i m = none
free_slot (suc n) i m = let later = free_slot n (i + 1) m in slot_or i (find i m) later

-- `Chat::getPrivateChannel`: its key.
unfoldable pub private_channel : ℕ → List (ℕ × Channel) → Option ℕ
private_channel guid [] = none
private_channel guid ((k, c) ∷ m) = if c.owner == guid then some k else private_channel guid m

-- `Chat::createChannel`, the cases.
unfoldable pub create_guild : Option ℕ → Chat → Option (Place × Chat)
create_guild none w = none
create_guild (some g) w = some (
  guild_of g,
  record w { guild_channels = emplace g (new_channel channel_guild 0) w.guild_channels },
)

unfoldable pub create_party : Option ℕ → Chat → Option (Place × Chat)
create_party none w = none
create_party (some p) w = some (
  party_of p,
  record w { party_channels = emplace p (new_channel channel_party 0) w.party_channels },
)

unfoldable pub put_private : Option ℕ → ℕ → Chat → Option (Place × Chat)
put_private none guid w = none
put_private (some i) guid w = some (
  private_of i,
  record w { private_channels = emplace i (new_channel i guid) w.private_channels },
)

-- Only one private channel for each premium player.
unfoldable pub create_private : Player → Option ℕ → Chat → Option (Place × Chat)
unfolding put_private
create_private player (some k) w = none
create_private player none w =
    if not player.is_premium
    then none
    else put_private (free_slot 9900 100 w.private_channels) player.guid w

unfoldable pub create_missing : Player → ℕ → Option Place → Chat → Option (Place × Chat)
create_missing player k (some place) w = none
create_missing player k none w =
    if k == channel_guild
    then create_guild player.guild w
    else if k == channel_party
    then create_party player.party w
    else if k == channel_private
    then create_private player (private_channel player.guid w.private_channels) w
    else none

-- `Chat::createChannel`.
unfoldable pub create_channel : Scripts → Player → ℕ → Chat → Option (Place × Chat)
unfolding create_missing
create_channel scripts player k w = create_missing player k (get_channel scripts player k w) w

-- `Chat::deleteChannel`, of the guild or the party that the player may have.
unfoldable pub delete_guild : Option ℕ → Chat → Chat
delete_guild none w = w
delete_guild (some g) w = record w { guild_channels = erase_entry g w.guild_channels }

unfoldable pub delete_party : Option ℕ → Chat → Chat
delete_party none w = w
delete_party (some p) w = record w { party_channels = erase_entry p w.party_channels }

-- `Chat::deleteChannel`.
unfoldable pub delete_channel : Player → ℕ → Chat → Chat
unfolding delete_guild delete_party
delete_channel player k w =
    if k == channel_guild
    then delete_guild player.guild w
    else if k == channel_party
    then delete_party player.party w
    else record w { private_channels = erase_entry k w.private_channels }

-- `Chat::addUserToChannel`, from the channel that `getChannel` found.
unfoldable pub add_user_at : Scripts → Player → Option Place → Chat → Chat
add_user_at scripts player none w = w
add_user_at scripts player (some place) w = change_at place (or_same (add_user scripts player)) w

unfoldable pub add_user_to_channel : Scripts → Player → ℕ → Chat → Chat
unfolding add_user_at
add_user_to_channel scripts player k w =
    add_user_at scripts player (get_channel scripts player k w) w

-- `Chat::removeUserFromChannel`, from the channel that `getChannel` found.
unfoldable pub remove_user_at : Player → ℕ → Place → Option Channel → Chat → Chat
remove_user_at player k place none w = w
remove_user_at player k place (some c) w =
    if not (has_user player.guid c)
    then w
    else let left = change_at place (or_same (remove_user player.guid)) w in
      if c.owner == player.guid then delete_channel player k left else left

unfoldable pub remove_user_from : Player → ℕ → Option Place → Chat → Chat
unfolding remove_user_at
remove_user_from player k none w = w
remove_user_from player k (some place) w = remove_user_at player k place (channel_at place w) w

unfoldable pub remove_user_from_channel : Scripts → Player → ℕ → Chat → Chat
unfolding remove_user_from
remove_user_from_channel scripts player k w =
    remove_user_from player k (get_channel scripts player k w) w

-- The loops of `Chat::removeUserFromAllChannels`.
unfoldable pub remove_everywhere : ℕ → List (ℕ × Channel) → List (ℕ × Channel)
remove_everywhere guid [] = []
remove_everywhere guid ((k, c) ∷ m) = (k, or_same (remove_user guid) c) ∷ remove_everywhere guid m

unfoldable pub remove_private : ℕ → List (ℕ × Channel) → List (ℕ × Channel)
remove_private guid [] = []
remove_private guid ((k, c) ∷ m) =
    let rest = remove_private guid m in
    let left = or_same (remove_user guid) (remove_invite guid c) in
    if left.owner == guid then rest else (k, left) ∷ rest

unfoldable pub remove_user_from_all_channels : ℕ → Chat → Chat
unfolding remove_everywhere remove_private
remove_user_from_all_channels guid w = record {
  normal_channels = remove_everywhere guid w.normal_channels;
  private_channels = remove_private guid w.private_channels;
  party_channels = remove_everywhere guid w.party_channels;
  guild_channels = remove_everywhere guid w.guild_channels;
}

-- The type in which `Chat::talkToChannel` lets a player speak.
unfoldable pub talk_type : Player → ℕ → ℕ → ℕ
talk_type player k type =
    if k == channel_guild
    then elim player.guild_rank [
      | none ↦ talktype_channel_y
      | some level ↦ if ltb 1 level then talktype_channel_o else talktype_channel_y
    ]
    else if (k == channel_private) || (k == channel_party)
    then talktype_channel_y
    else type

-- `ChatChannel::talk`, after `executeOnSpeakEvent` gave the type or refused: who receives the text.
unfoldable pub talk : ℕ → Channel → Option ℕ → Option (List ℕ × ℕ)
talk guid c none = none
talk guid c (some type) = if has_user guid c then some (c.users, type) else none

-- `ChatChannel::executeOnSpeakEvent`.
unfoldable pub speak_event : Scripts → Player → ℕ → Option ℕ → Option ℕ
speak_event scripts player type none = some type
speak_event scripts player type (some e) = scripts.on_speak e player type

unfoldable pub talk_at : Scripts → Player → ℕ → Option Channel → Option (List ℕ × ℕ)
unfolding talk speak_event
talk_at scripts player type none = none
talk_at scripts player type (some c) =
    talk player.guid c (speak_event scripts player type c.on_speak_event)

unfoldable pub talk_from : Scripts → Player → ℕ → Option Place → Chat → Option (List ℕ × ℕ)
unfolding talk_at
talk_from scripts player type none w = none
talk_from scripts player type (some place) w = talk_at scripts player type (channel_at place w)

-- `Chat::talkToChannel`: the ids that receive the text, and its type.
unfoldable pub talk_to_channel : Scripts → Player → ℕ → ℕ → Chat → Option (List ℕ × ℕ)
unfolding talk_from talk_type
talk_to_channel scripts player type k w =
    talk_from scripts player (talk_type player k type) (get_channel scripts player k w) w

-- What `Chat::getChannelList` does for the guild or the party that the player may have: from the
-- channel that there is, or else from what `createChannel` makes.
unfoldable pub made : Option Place → Option (Place × Chat) → Chat → Chat
made (some place) new w = w
made none none w = w
made none (some (place, w')) w = w'

unfoldable pub open_or_create : Scripts → Player → ℕ → Option ℕ → Chat → Chat
unfolding made
open_or_create scripts player k none w = w
open_or_create scripts player k (some g) w =
    made (get_channel scripts player k w) (create_channel scripts player k w) w

-- `Chat::getChannelList`, the channels that it makes.
unfoldable pub get_channel_list : Scripts → Player → Chat → Chat
unfolding open_or_create
get_channel_list scripts player w =
    open_or_create scripts player channel_party player.party
      (open_or_create scripts player channel_guild player.guild w)

-- A request of a player; of the invitations also whom the name stands for.
pub data Call : Type 0 where
  create : Player → Call
  list : Player → Call
  open_channel : Player → ℕ → Call
  close : Player → ℕ → Call
  invite : ℕ → ℕ → Call
  exclude : ℕ → ℕ → Call
  log_out : ℕ → Call

-- The player's own channel, changed, from what `getPrivateChannel` finds.
unfoldable pub change_own : Option ℕ → (Channel → Channel) → Chat → Chat
change_own none f w = w
change_own (some k) f w = change_at (private_of k) f w

-- `Game::playerCreatePrivateChannel`, from what `createChannel` answers.
unfoldable pub join_created : Scripts → Player → Option (Place × Chat) → Chat → Chat
join_created scripts player none w = w
join_created scripts player (some (place, w')) w =
    change_at place (or_same (add_user scripts player)) w'

-- `Game::playerCreatePrivateChannel`, `playerOpenChannel`, `playerCloseChannel`,
-- `playerChannelInvite` and `playerChannelExclude`, with `getChannelList` and the calls of
-- `removeUserFromAllChannels` when a player leaves the game or comes back.
unfoldable pub call : Scripts → Call → Chat → Chat
unfolding change_own join_created add_user_to_channel remove_user_from_channel get_channel_list
    remove_user_from_all_channels
call scripts (create p) w =
    if not p.is_premium
    then w
    else join_created scripts p (create_channel scripts p channel_private w) w
call scripts (list p) w = get_channel_list scripts p w
call scripts (open_channel p k) w = add_user_to_channel scripts p k w
call scripts (close p k) w = remove_user_from_channel scripts p k w
call scripts (invite guid other) w =
    if guid == other
    then w
    else change_own (private_channel guid w.private_channels) (invite_player other) w
call scripts (exclude guid other) w =
    if guid == other
    then w
    else change_own (private_channel guid w.private_channels) (exclude_player other) w
call scripts (log_out guid) w = remove_user_from_all_channels guid w

-- Requests one after the other, each with the answers that the scripts give then.
unfoldable pub run : List (Scripts × Call) → Chat → Chat
unfolding call
run [] w = w
run ((scripts, c) ∷ cs) w = run cs (call scripts c w)
