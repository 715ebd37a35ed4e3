-- ===== src/Tests/Gear.antt =====
-- A player arms itself with a bow and a quiver.
use otx_teste.Common.{ℕ, ◌≡◌, refl, true, false, none, some, arith}
use mathlib.Core.Option.{none-ne-some}
use otx_teste.ReturnValue.{noerror, bothhandsneedtobefree}
use otx_teste.Inventory.{
  WeaponType, distance, quiver, shield, SlotPosition, Item, Env, Inventory, query_add, moved,
  slot_answer, first_answer, after_slot, exchange, get_inventory_item, right_answer, left_answer,
  beside_left, beside_right, add_thing, remove_thing, without, piece, move_onto, is_mergeable,
}
use otx_teste.Inventory.Hands.{IsDressed, query_add-IsDressed}

abbrev hand : SlotPosition
hand = record {
  slotp_head = false;
  slotp_necklace = false;
  slotp_backpack = false;
  slotp_armor = false;
  slotp_right = true;
  slotp_left = true;
  slotp_legs = false;
  slotp_feet = false;
  slotp_ring = false;
  slotp_ammo = false;
  slotp_two_hand = false;
}

abbrev weapon : ℕ → WeaponType → Item
weapon thing type = record {
  thing = thing;
  id = thing;
  attributes = 0;
  item_count = 1;
  stackable = false;
  pickupable = true;
  weapon_type = type;
  slot_position = hand;
}

abbrev bow : Item
bow = record (weapon 1 distance) { slot_position = record hand { slotp_two_hand = true } }

abbrev env : Env
env = record {
  classic = false;
  child_is_owner = false;
  no_limit = false;
  has_capacity = true;
  on_player_equip = noerror;
  exchanges = false;
}

abbrev bare : Inventory
bare = λ slot. none

bare-IsDressed : IsDressed false bare
bare-IsDressed = record {
  each = λ s i low high e. absurd (none-ne-some i e);
  hands = λ l r e e'. absurd (none-ne-some l e);
}

armed-IsDressed : IsDressed false (moved 6 bow 1 9 bare)
unfolding query_add slot_answer first_answer after_slot exchange get_inventory_item left_answer
    beside_right
armed-IsDressed =
    query_add-IsDressed env bare 6 bow 1 9 bare-IsDressed (omega arith) (omega arith) refl refl refl
      refl

-- With the bow in the left hand there is no place for a shield.
shield_test : query_add env (moved 6 bow 1 9 bare) 5 (weapon 3 shield) 1 ≡ bothhandsneedtobefree
unfolding query_add slot_answer first_answer after_slot right_answer beside_left moved move_onto
    piece get_inventory_item add_thing remove_thing without
shield_test = refl

query_add-IsDressed_example : IsDressed false (moved 5 (weapon 2 quiver) 1 9 (moved 6 bow 1 9 bare))
unfolding query_add slot_answer first_answer after_slot exchange get_inventory_item right_answer
    beside_left moved move_onto piece add_thing remove_thing without
query_add-IsDressed_example =
    query_add-IsDressed env (moved 6 bow 1 9 bare) 5 (weapon 2 quiver) 1 9 armed-IsDressed
      (omega arith) (omega arith) refl refl refl refl

-- Throwing knives: ten in the right hand, and three of them put into the left, by a clone.
abbrev knives : ℕ → ℕ → Item
knives thing count = record (weapon thing distance) {
  id = 20;
  item_count = count;
  stackable = true;
}

abbrev holding : Inventory
holding = add_thing 5 (knives 4 10) bare

part_taken : (moved 6 (knives 4 10) 3 9 holding) 5 ≡ some (knives 4 7)
unfolding moved move_onto piece get_inventory_item add_thing remove_thing without
part_taken = refl

part_given : (moved 6 (knives 4 10) 3 9 holding) 6 ≡ some (knives 9 3)
unfolding moved move_onto piece get_inventory_item add_thing remove_thing without
part_given = refl

-- A stack of 95 has room for five of ten.
merge_given :
    (moved 6 (knives 4 10) 10 9 (add_thing 6 (knives 8 95) holding)) 6 ≡ some (knives 8 100)
unfolding moved move_onto is_mergeable get_inventory_item add_thing remove_thing without
merge_given = refl

merge_taken : (moved 6 (knives 4 10) 10 9 (add_thing 6 (knives 8 95) holding)) 5 ≡ some (knives 4 5)
unfolding moved move_onto is_mergeable get_inventory_item add_thing remove_thing without
merge_taken = refl
