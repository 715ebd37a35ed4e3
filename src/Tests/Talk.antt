-- ===== src/Tests/Talk.antt =====
-- Runs of the chat's channels, and the theorems at concrete inputs.
use otx_teste.Common.{ℕ, ◌≡◌, refl, true, false, List, [], ◌∷◌, none, some, arith}
use otx_teste.Common.Sets.{mem, erase}
use otx_teste.Common.Maps.{find, emplace, change, insert_key, place_key}
use otx_teste.Chat.{
  Player, Channel, Scripts, Chat, Place, new_channel, get_id, has_user, is_invited, add_user,
  or_same, invite_player, execute_event, channel_at, change_at, get_channel, other_place, found,
}
use otx_teste.Chat.Calls.{
  Call, create, open_channel, invite, call, run, free_slot, slot_or, private_channel, put_private,
  create_private, create_missing, create_channel, join_created, change_own, add_user_at,
  add_user_to_channel, talk, speak_event, talk_at, talk_from, talk_type, talk_to_channel,
  remove_user_from_all_channels,
}
use otx_teste.Chat.Owners.{ArePrivate}
use otx_teste.Chat.Runs.{run-ArePrivate, talk_to_channel-IsPrivate}
use otx_teste.Chat.LoggedOut.{remove_user_from_all_channels_left}

abbrev who : ℕ → Player
who guid = record { guid = guid; guild = none; guild_rank = none; party = none; is_premium = true }

-- Every script agrees.
abbrev scripts : Scripts
scripts = record { can_join = λ e p. true; on_join = λ e p. true; on_speak = λ e p t. some t }

abbrev quiet : Chat
quiet = record {
  normal_channels = [];
  private_channels = [];
  party_channels = [];
  guild_channels = [];
}

-- Player 1 opens a channel and invites player 2; players 2 and 3 try to come.
abbrev evening : List (Scripts × Call)
evening =
    (scripts, create (who 1))
    ∷ (scripts, invite 1 2)
    ∷ (scripts, open_channel (who 2) 100)
    ∷ (scripts, open_channel (who 3) 100)
    ∷ []

-- Player 2 speaks.
talk_test :
    talk_to_channel scripts (who 2) 7 100 (run evening quiet)
    ≡ some (0x10010001 ∷ 0x10010002 ∷ [], 7)
unfolding talk_to_channel talk_from talk_at talk talk_type speak_event run call insert_key
    add_user_at add_user_to_channel change_own create_missing join_created put_private slot_or
    channel_at execute_event found get_id has_user place_key erase get_channel other_place find
    private_channel create_channel create_private free_slot change_at change emplace or_same
    add_user mem new_channel is_invited invite_player
talk_test = refl

run-ArePrivate_example : ArePrivate (run evening quiet).private_channels
run-ArePrivate_example = run-ArePrivate evening quiet (omega arith) refl

talk_to_channel-IsPrivate_example :
    (c : Channel) × (find 100 (run evening quiet).private_channels ≡ some c)
    × (is_invited 2 c ≡ true)
    × (is_invited 1 c ≡ true)
unfolding run call insert_key add_user_at add_user_to_channel change_own create_missing join_created
    put_private slot_or channel_at execute_event found get_id has_user place_key erase get_channel
    other_place find private_channel create_channel create_private free_slot change_at change
    emplace or_same add_user mem new_channel is_invited invite_player
talk_to_channel-IsPrivate_example =
    talk_to_channel-IsPrivate evening quiet scripts (who 2) 7 100 (0x10010001 ∷ 0x10010002 ∷ []) 7 1
      (omega arith) refl (omega arith) refl talk_test (omega arith) refl

remove_user_from_all_channels_left_example :
    ((place : Place) (c : Channel)
      → channel_at place (remove_user_from_all_channels 2 (run evening quiet)) ≡ some c
      → has_user 2 c ≡ false)
    × ((k : ℕ) (c : Channel)
        → find k (remove_user_from_all_channels 2 (run evening quiet)).private_channels ≡ some c
        → is_invited 2 c ≡ false)
unfolding run call insert_key add_user_at add_user_to_channel change_own create_missing join_created
    put_private slot_or channel_at execute_event found get_id has_user place_key erase get_channel
    other_place find private_channel create_channel create_private free_slot change_at change
    emplace or_same add_user mem new_channel is_invited invite_player
remove_user_from_all_channels_left_example =
    remove_user_from_all_channels_left 2 (run evening quiet) (record {
      normal_once = tt;
      private_once = ((((refl, (refl, tt)), (refl, tt)), tt));
      party_once = tt;
      guild_once = tt;
    })
