-- ===== src/Inventory.antt =====
-- What a player wears: `Player::queryAdd`, `addThing` and `removeThing` of engine/src/player.cpp over
-- the slots of engine/src/creature.h, and the move of `Game::internalMoveItem` in
-- engine/src/game.cpp that uses them. An item is an object's number with what the functions ask of
-- its type; messages to the client are left out.
pub mod Answers
pub mod Hands
use Prim.Native.Nat.{min}
use otx_teste.Common.{
  ℕ, ◌-◌, ◌+◌, ◌%◌, ◌^◌, Bool, true, false, not, ◌&&◌, ◌||◌, Option, none, some, ◌==◌, ltb,
  if◌then◌else◌,
}
use otx_teste.ReturnValue.{
  ReturnValue, noerror, notpossible, notenoughroom, droptwohandeditem, bothhandsneedtobefree,
  canonlyuseoneweapon, canonlyuseoneshield, needexchange, cannotbedressed, putthisobjectinyourhand,
  putthisobjectinbothhands, notenoughcapacity, cannotpickup, or_else,
}

-- `slots_t`.
abbrev pub slot_whereever : ℕ
slot_whereever = 0

abbrev pub slot_head : ℕ
slot_head = 1

abbrev pub slot_necklace : ℕ
slot_necklace = 2

abbrev pub slot_backpack : ℕ
slot_backpack = 3

abbrev pub slot_armor : ℕ
slot_armor = 4

abbrev pub slot_right : ℕ
slot_right = 5

abbrev pub slot_left : ℕ
slot_left = 6

abbrev pub slot_legs : ℕ
slot_legs = 7

abbrev pub slot_feet : ℕ
slot_feet = 8

abbrev pub slot_ring : ℕ
slot_ring = 9

abbrev pub slot_ammo : ℕ
slot_ammo = 10

-- `WeaponType_t`.
pub data WeaponType : Type 0 where
  no_weapon sword club axe shield distance wand ammo quiver : WeaponType

abbrev pub is_none : WeaponType → Bool
is_none no_weapon = true
is_none w = false

abbrev pub is_shield : WeaponType → Bool
is_shield shield = true
is_shield w = false

abbrev pub is_distance : WeaponType → Bool
is_distance distance = true
is_distance w = false

abbrev pub is_ammo : WeaponType → Bool
is_ammo ammo = true
is_ammo w = false

abbrev pub is_quiver : WeaponType → Bool
is_quiver quiver = true
is_quiver w = false

-- The bits of `SlotPositionBits`.
pub record SlotPosition : Type 0 where
  pub slotp_head : Bool
  pub slotp_necklace : Bool
  pub slotp_backpack : Bool
  pub slotp_armor : Bool
  pub slotp_right : Bool
  pub slotp_left : Bool
  pub slotp_legs : Bool
  pub slotp_feet : Bool
  pub slotp_ring : Bool
  pub slotp_ammo : Bool
  pub slotp_two_hand : Bool

-- An item; `attributes` is all but the id that `Item::equals` compares.
pub record Item : Type 0 where
  pub thing : ℕ
  pub id : ℕ
  pub attributes : ℕ
  pub item_count : ℕ
  pub stackable : Bool
  pub pickupable : Bool
  pub weapon_type : WeaponType
  pub slot_position : SlotPosition

-- The setting `CLASSIC_EQUIPMENT_SLOTS`, the flags, `hasCapacity`, the answer of the equip events,
-- and whether the item lies in a depot chest or with a player.
pub record Env : Type 0 where
  pub classic : Bool
  pub child_is_owner : Bool
  pub no_limit : Bool
  pub has_capacity : Bool
  pub on_player_equip : ReturnValue
  pub exchanges : Bool

-- The array `inventory`.
abbrev pub Inventory : Type 0
Inventory = ℕ → Option Item

-- `ret` before the slot is looked at.
unfoldable pub first_answer : Bool → SlotPosition → ReturnValue
first_answer classic p =
    if p.slotp_head || p.slotp_necklace || p.slotp_backpack || p.slotp_armor || p.slotp_legs
      || p.slotp_feet || p.slotp_ring
    then cannotbedressed
    else if p.slotp_two_hand
    then putthisobjectinbothhands
    else if p.slotp_right || p.slotp_left
    then (if not classic then cannotbedressed else putthisobjectinyourhand)
    else noerror

-- A shield or a quiver, with what the left hand holds.
unfoldable pub beside_left : Item → Option Item → ReturnValue
beside_left i none = noerror
beside_left i (some l) =
    if l.slot_position.slotp_two_hand || i.slot_position.slotp_two_hand
    then (if is_quiver i.weapon_type && is_distance l.weapon_type
        then noerror
        else bothhandsneedtobefree)
    else noerror

-- The right hand without classic slots.
unfoldable pub right_answer : Item → Option Item → ReturnValue
unfolding beside_left
right_answer i left =
    if not (is_shield i.weapon_type) && not (is_quiver i.weapon_type)
    then cannotbedressed
    else beside_left i left

-- A weapon, with what the right hand holds.
unfoldable pub beside_right : Item → Option Item → ReturnValue
beside_right i none = noerror
beside_right i (some r) =
    if i.slot_position.slotp_two_hand
    then (if is_distance i.weapon_type && is_quiver r.weapon_type
        then noerror
        else bothhandsneedtobefree)
    else noerror

-- The left hand without classic slots.
unfoldable pub left_answer : Item → Option Item → ReturnValue
unfolding beside_right
left_answer i right =
    if is_none i.weapon_type || is_shield i.weapon_type || is_ammo i.weapon_type
    then cannotbedressed
    else beside_right i right

-- Either hand with classic slots: what the other hand holds, and the count that is moved.
unfoldable pub beside : Item → ℕ → Option Item → ReturnValue
beside i count none = noerror
beside i count (some o) =
    if i.slot_position.slotp_two_hand
    then (if not (o.thing == i.thing) then bothhandsneedtobefree else noerror)
    else if o.slot_position.slotp_two_hand
    then droptwohandeditem
    else if (i.thing == o.thing) && (count == i.item_count)
    then noerror
    else if is_shield o.weapon_type && is_shield i.weapon_type
    then canonlyuseoneshield
    else if is_none o.weapon_type
        || is_none i.weapon_type
        || is_shield o.weapon_type
        || is_ammo o.weapon_type
        || is_shield i.weapon_type
        || is_ammo i.weapon_type
    then noerror
    else canonlyuseoneweapon

-- The cases of `index` from the slot of the head to that of ammunition.
unfoldable pub slot_answer : Bool → Item → ℕ → ℕ → ReturnValue → Inventory → ReturnValue
unfolding right_answer left_answer beside
slot_answer classic i count index ret inventory =
    let p = i.slot_position in
    if index == slot_head
    then (if p.slotp_head then noerror else ret)
    else if index == slot_necklace
    then (if p.slotp_necklace then noerror else ret)
    else if index == slot_backpack
    then (if p.slotp_backpack then noerror else ret)
    else if index == slot_armor
    then (if p.slotp_armor then noerror else ret)
    else if index == slot_right
    then (if p.slotp_right
        then (if not classic
            then right_answer i (inventory slot_left)
            else beside i count (inventory slot_left))
        else ret)
    else if index == slot_left
    then (if p.slotp_left
        then (if not classic
            then left_answer i (inventory slot_right)
            else beside i count (inventory slot_right))
        else ret)
    else if index == slot_legs
    then (if p.slotp_legs then noerror else ret)
    else if index == slot_feet
    then (if p.slotp_feet then noerror else ret)
    else if index == slot_ring
    then (if p.slotp_ring then noerror else ret)
    else if index == slot_ammo
    then (if p.slotp_ammo || classic then noerror else ret)
    else if index == slot_whereever
    then notenoughroom
    else notpossible

-- Whether an item that lies in the slot must be exchanged.
unfoldable pub exchange : Bool → Item → Option Item → ReturnValue → ReturnValue
exchange exchanges i none ret = ret
exchange exchanges i (some old) ret =
    if not old.stackable || not (old.id == i.id)
    then (if exchanges then needexchange else notenoughroom)
    else ret

-- `Player::getInventoryItem`.
unfoldable pub get_inventory_item : ℕ → Inventory → Option Item
get_inventory_item slot inventory = if (slot == 0) || ltb 11 slot then none else inventory slot

abbrev pub goes_on : ReturnValue → Bool
goes_on noerror = true
goes_on notenoughroom = true
goes_on ret = false

-- `Player::queryAdd`, from the answer for the slot on.
unfoldable pub after_slot : Env → Inventory → ℕ → Item → ReturnValue → ReturnValue
unfolding exchange get_inventory_item
after_slot env inventory index i ret =
    if not (goes_on ret)
    then ret
    else if not env.has_capacity
    then notenoughcapacity
    else or_else env.on_player_equip
        (exchange env.exchanges i (get_inventory_item index inventory) noerror)

-- `Player::queryAdd` of an item, at an index of the inventory; the index -1 is 0.
unfoldable pub query_add : Env → Inventory → ℕ → Item → ℕ → ReturnValue
query_add env inventory index i count =
    if env.child_is_owner
    then (if env.no_limit || env.has_capacity then noerror else notenoughcapacity)
    else if not i.pickupable
    then cannotpickup
    else after_slot env inventory index i
        (slot_answer env.classic i count index (first_answer env.classic i.slot_position) inventory)

-- `Player::addThing`.
unfoldable pub add_thing : ℕ → Item → Inventory → Inventory
add_thing index i inventory slot =
    if (index == 0) || ltb 11 index
    then inventory slot
    else if slot == index
    then some i
    else inventory slot

-- What `Player::removeThing` of a count of the item leaves in a slot: nothing of an item that cannot
-- be stacked or that is taken whole.
unfoldable pub without : Item → ℕ → Option Item → Option Item
without i count none = none
without i count (some j) =
    if not (j.thing == i.thing)
    then some j
    else if i.stackable && not (count == i.item_count)
    then some (record j { item_count = i.item_count - count })
    else none

-- `Player::removeThing`. An object lies in one slot.
unfoldable pub remove_thing : Item → ℕ → Inventory → Inventory
unfolding without
remove_thing i count inventory slot = without i count (inventory slot)

-- Whether an item merges into another: `isStackable`, `Item::equals` and room below 100, in
-- `Player::queryMaxCount`.
unfoldable pub is_mergeable : Item → Item → Bool
is_mergeable i j =
    j.stackable && (i.id == j.id) && (i.attributes == j.attributes) && ltb j.item_count 100

-- What `Game::internalMoveItem` puts into an empty slot: a clone of a stackable item with the count,
-- or the item.
unfoldable pub piece : Bool → Item → ℕ → ℕ → Item
piece true i count fresh = record i { thing = fresh; item_count = count }
piece false i count fresh = i

-- The part of `Game::internalMoveItem` after `queryAdd` has let the item pass, by what lies in the
-- slot: the item itself stays, an item that it cannot merge with leaves no room, and into an equal
-- stack goes as much as there is room for. The item is one of the player's, or of none of the slots;
-- the count is at most 100, as that of every stack; `fresh` is the clone.
unfoldable pub move_onto : ℕ → Item → ℕ → ℕ → Inventory → Option Item → Inventory
unfolding is_mergeable piece
move_onto index i count fresh inventory none =
    add_thing index (piece i.stackable i count fresh) (remove_thing i count inventory)
move_onto index i count fresh inventory (some j) =
    let n = min count (100 - j.item_count) in
    if not (j.thing == i.thing) && is_mergeable i j
    then add_thing index (record j { item_count = j.item_count + n }) (remove_thing i n inventory)
    else inventory

-- A move that `queryAdd` let pass.
unfoldable pub moved : ℕ → Item → ℕ → ℕ → Inventory → Inventory
unfolding move_onto get_inventory_item
moved index i count fresh inventory =
    move_onto index i count fresh inventory (get_inventory_item index inventory)
