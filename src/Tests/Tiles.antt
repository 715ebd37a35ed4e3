-- ===== src/Tests/Tiles.antt =====
-- Runs of the rules for coming onto a tile.
use otx_teste.Common.{◌≡◌, ◌⊎◌, refl, true, false, [], ◌∷◌, none, some}
use otx_teste.ReturnValue.{notenoughroom, playerispzlocked}
use otx_teste.Tile.{
  Flags, TileFlags, Occupant, TileItem, Tile, Monster, Player, Item, monster, player, is_null,
  query_add_creature,
}
use otx_teste.Tile.Entry.{MayEnter, query_add_creature-MayEnter}
use otx_teste.Tile.Zones.{HasSolidFlag, query_add_creature-locked}

abbrev plain : Flags
plain = record {
  nolimit = false;
  ignoreblockitem = false;
  ignoreblockcreature = false;
  pathfinding = false;
  ignorefielddamage = false;
}

abbrev grass : TileItem
grass = record {
  block_solid = false;
  moveable = false;
  has_unique_id = false;
  is_hangable = false;
  allow_pickupable = false;
  has_height = false;
  pickupable = false;
  is_bed = false;
}

abbrev open_field : TileFlags
open_field = record {
  floorchange = false;
  teleport = false;
  protectionzone = false;
  nopvpzone = false;
  pvpzone = false;
  nologout = false;
  blocksolid = false;
  nofieldblockpath = false;
  immovableblocksolid = false;
  immovablenofieldblockpath = false;
  supports_hangable = false;
}

abbrev meadow : Tile
meadow = record {
  ground = some grass;
  flags = open_field;
  creatures = [];
  items = grass ∷ [];
  field_item = none;
}

abbrev temple : Tile
temple = record meadow { flags = record open_field { protectionzone = true } }

abbrev rat : Monster
rat = record {
  is_pet = false;
  is_summon = false;
  can_push_creatures = false;
  can_push_items = false;
  is_immune = λ c. false;
  can_walk_on_field_type = λ c. false;
  ignore_field_damage = false;
}

abbrev knight : Player
knight = record {
  is_access_player = false;
  can_walkthrough = λ c. false;
  has_parent = true;
  tile_flags = some open_field;
  is_pz_locked = true;
}

abbrev knight_there : Occupant
knight_there = record {
  is_player = true;
  is_monster = false;
  is_in_ghost_mode = false;
  is_pushable = true;
  is_summon = false;
  master_is_player = false;
}

rat_meets_knight :
    query_add_creature plain (monster rat) false (record meadow { creatures = knight_there ∷ [] })
    ≡ notenoughroom
unfolding query_add_creature
rat_meets_knight = refl

knight_locked : query_add_creature plain (player knight) false temple ≡ playerispzlocked
unfolding query_add_creature
knight_locked = refl

query_add_creature-MayEnter_example :
    ((false ≡ false) × (is_null meadow.ground ≡ false)) × MayEnter plain rat meadow
unfolding query_add_creature
query_add_creature-MayEnter_example = query_add_creature-MayEnter plain rat false meadow refl refl

query_add_creature-locked_example :
    (open_field.pvpzone ≡ meadow.flags.pvpzone)
    × ((open_field.nopvpzone ≡ true) ⊎ (meadow.flags.nopvpzone ≡ false))
    × ((open_field.protectionzone ≡ true) ⊎ (meadow.flags.protectionzone ≡ false))
unfolding query_add_creature
query_add_creature-locked_example =
    query_add_creature-locked plain knight open_field false meadow refl refl refl refl

meadow-HasSolidFlag : HasSolidFlag meadow
meadow-HasSolidFlag = record { ground_solid = refl; items_solid = refl }

abbrev sword : Item
sword = record {
  is_hangable = false;
  is_blocking = false;
  is_pickupable = true;
  is_magic_field = false;
}
