-- ===== src/Tile.antt =====
-- `Tile::queryAdd` of engine/src/tile.cpp: whether a creature may come onto a tile. A set
-- of flags is a record of Booleans, and each object a record of what the function asks of it.
pub mod Contents
pub mod Stack
pub mod Index
pub mod Kept
pub mod Changes
pub mod Additions
pub mod Reached
pub mod Replace
pub mod Entry
pub mod Items
pub mod Zones
use otx_teste.Common.{
  ℕ, Bool, true, false, not, ◌&&◌, ◌||◌, List, [], ◌∷◌, Option, none, some, leb, is_empty, length,
  if◌then◌else◌,
}
use otx_teste.ReturnValue.{
  or_else, ReturnValue, noerror, notpossible, notenoughroom, playerispzlocked,
  playerispzlockedenterpvpzone, playerispzlockedleavepvpzone, needexchange,
}

-- The bits of `flags` that the function tests, of `cylinderflags_t`.
pub record Flags : Type 0 where
  pub nolimit : Bool
  pub ignoreblockitem : Bool
  pub ignoreblockcreature : Bool
  pub pathfinding : Bool
  pub ignorefielddamage : Bool

-- The bits of `tileflags_t` that the function tests.
pub record TileFlags : Type 0 where
  pub floorchange : Bool
  pub teleport : Bool
  pub protectionzone : Bool
  pub nopvpzone : Bool
  pub pvpzone : Bool
  pub nologout : Bool
  pub blocksolid : Bool
  pub nofieldblockpath : Bool
  pub immovableblocksolid : Bool
  pub immovablenofieldblockpath : Bool
  pub supports_hangable : Bool

-- A creature on the tile.
pub record Occupant : Type 0 where
  pub is_player : Bool
  pub is_monster : Bool
  pub is_in_ghost_mode : Bool
  pub is_pushable : Bool
  pub is_summon : Bool
  pub master_is_player : Bool

-- An item on the tile, with its `ItemType`.
pub record TileItem : Type 0 where
  pub block_solid : Bool
  pub moveable : Bool
  pub has_unique_id : Bool
  pub is_hangable : Bool
  pub allow_pickupable : Bool
  pub has_height : Bool
  pub pickupable : Bool
  pub is_bed : Bool

-- The tile's magic field; a combat type is a number.
pub record MagicField : Type 0 where
  pub is_blocking : Bool
  pub has_damage : Bool
  pub combat_type : ℕ

pub record Tile : Type 0 where
  pub ground : Option TileItem
  pub flags : TileFlags
  pub creatures : List Occupant
  pub items : List TileItem
  pub field_item : Option MagicField

pub record Monster : Type 0 where
  pub is_pet : Bool
  pub is_summon : Bool
  pub can_push_creatures : Bool
  pub can_push_items : Bool
  pub is_immune : ℕ → Bool
  pub can_walk_on_field_type : ℕ → Bool
  pub ignore_field_damage : Bool

-- `tile_flags` are those of the tile that the player stands on, if any.
pub record Player : Type 0 where
  pub is_access_player : Bool
  pub can_walkthrough : Occupant → Bool
  pub has_parent : Bool
  pub tile_flags : Option TileFlags
  pub is_pz_locked : Bool

pub record Item : Type 0 where
  pub is_hangable : Bool
  pub is_blocking : Bool
  pub is_pickupable : Bool
  pub is_magic_field : Bool

pub data Mover : Type 0 where
  monster : Monster → Mover
  player : Player → Mover
  other : Mover

abbrev pub any {ℓ} : {A : Type ℓ} → (A → Bool) → List A → Bool
any p [] = false
any p (x ∷ xs) = p x || any p xs

-- The loop over creatures that are not in ghost mode.
abbrev pub is_visible : Occupant → Bool
is_visible c = not c.is_in_ghost_mode

-- The creature stands in the way of a monster that pushes creatures.
unfoldable pub resists_push : Occupant → Bool
resists_push c =
    not (c.is_player && c.is_in_ghost_mode)
    && (not c.is_monster || not c.is_pushable || (c.is_summon && c.master_is_player))

-- The first `if` on the tile's creatures, for a monster.
unfoldable pub crowd_stops : Monster → List Occupant → ReturnValue
unfolding resists_push
crowd_stops m creatures =
    if not (is_empty creatures) && m.is_pet
    then notenoughroom
    else if m.can_push_creatures && not m.is_summon
    then (if any resists_push creatures then notpossible else noerror)
    else if any is_visible creatures
    then notenoughroom
    else noerror

-- The part on magic fields.
unfoldable pub field_stops : Flags → Monster → Option MagicField → Bool
field_stops f m none = false
field_stops f m (some field) =
    not field.is_blocking
    && field.has_damage
    && not (m.is_immune field.combat_type)
    && (if f.ignorefielddamage
        then not (m.can_walk_on_field_type field.combat_type || m.ignore_field_damage)
        else true)

-- The part of the monster after the creatures.
unfoldable pub terrain_stops : Flags → Monster → Tile → ReturnValue
unfolding field_stops
terrain_stops f m t =
    if t.flags.immovableblocksolid
    then notpossible
    else if f.pathfinding && t.flags.immovablenofieldblockpath
    then notpossible
    else if (t.flags.blocksolid || (f.pathfinding && t.flags.nofieldblockpath))
        && not (m.can_push_items || f.ignoreblockitem)
    then notpossible
    else if field_stops f m t.field_item
    then notpossible
    else noerror

unfoldable pub query_add_monster : Flags → Monster → Tile → ReturnValue
unfolding crowd_stops terrain_stops
query_add_monster f m t =
    if (t.flags.protectionzone || t.flags.floorchange || t.flags.teleport) && not m.is_pet
    then notpossible
    else or_else (crowd_stops m t.creatures) (terrain_stops f m t)

-- The zones that a player who is pz-locked may not cross between.
unfoldable pub zones_stop : TileFlags → TileFlags → ReturnValue
zones_stop from to =
    if not from.pvpzone && to.pvpzone
    then playerispzlockedenterpvpzone
    else if from.pvpzone && not to.pvpzone
    then playerispzlockedleavepvpzone
    else if (not from.nopvpzone && to.nopvpzone) || (not from.protectionzone && to.protectionzone)
    then playerispzlocked
    else noerror

abbrev pub locked_stops : Bool → Option TileFlags → TileFlags → ReturnValue
locked_stops is_pz_locked none to = noerror
locked_stops is_pz_locked (some from) to = if is_pz_locked then zones_stop from to else noerror

unfoldable pub query_add_player : Flags → Player → Tile → ReturnValue
unfolding zones_stop
query_add_player f p t =
    if not f.ignoreblockcreature
      && not p.is_access_player
      && any (λ c. not (p.can_walkthrough c)) t.creatures
    then notpossible
    else if not p.has_parent && t.flags.nologout
    then notpossible
    else locked_stops p.is_pz_locked p.tile_flags t.flags

abbrev pub is_fixed : TileItem → Bool
is_fixed i = i.block_solid && (not i.moveable || i.has_unique_id)

abbrev pub ground_holds : (TileItem → Bool) → Option TileItem → Bool
ground_holds p none = false
ground_holds p (some g) = p g

-- The last part for players and other creatures.
unfoldable pub blocks_stop : Flags → Tile → ReturnValue
blocks_stop f t =
    if not f.ignoreblockitem
    then (if t.flags.blocksolid then notenoughroom else noerror)
    else if ground_holds is_fixed t.ground || any is_fixed t.items
    then notpossible
    else noerror

abbrev pub is_null : Option TileItem → Bool
is_null none = true
is_null (some g) = false

-- The mover's own rules.
unfoldable pub query_add_mover : Flags → Mover → Tile → ReturnValue
unfolding query_add_monster query_add_player blocks_stop
query_add_mover f (monster m) t = query_add_monster f m t
query_add_mover f (player p) t = or_else (query_add_player f p t) (blocks_stop f t)
query_add_mover f other t =
    if not f.ignoreblockcreature && any is_visible t.creatures
    then notenoughroom
    else blocks_stop f t

-- `queryAdd` for a creature.
unfoldable pub query_add_creature : Flags → Mover → Bool → Tile → ReturnValue
unfolding query_add_mover
query_add_creature f mover is_move_locked t =
    if f.nolimit
    then noerror
    else if f.pathfinding && (t.flags.floorchange || t.flags.teleport)
    then notpossible
    else if is_move_locked || is_null t.ground
    then notpossible
    else query_add_mover f mover t
