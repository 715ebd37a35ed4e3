-- ===== src/Inventory/Answers.antt =====
-- What `Player::queryAdd` of engine/src/player.cpp answers for a slot and for the hands.
use otx_teste.Common.{
  ℕ, ◌≡◌, refl, ◌<◌, ◌≤◌, Bool, true, false, not, ◌&&◌, ◌||◌, Option, some, ◌==◌, if◌then◌else◌,
  arith,
}
use otx_teste.ReturnValue.{ReturnValue, noerror}
use otx_teste.Inventory.{
  slot_head, slot_necklace, slot_backpack, slot_armor, slot_right, slot_left, slot_legs, slot_feet,
  slot_ring, WeaponType, is_none, is_shield, is_distance, is_ammo, is_quiver, Item, Inventory,
  first_answer, right_answer, left_answer, beside, beside_left, beside_right, slot_answer, goes_on,
}

-- What the slot at an index is for.
abbrev pub suits : Bool → ℕ → Item → Bool
suits classic index i =
    let p = i.slot_position in
    let w = i.weapon_type in
    if index == slot_head
    then p.slotp_head
    else if index == slot_necklace
    then p.slotp_necklace
    else if index == slot_backpack
    then p.slotp_backpack
    else if index == slot_armor
    then p.slotp_armor
    else if index == slot_right
    then p.slotp_right && (classic || is_shield w || is_quiver w)
    else if index == slot_left
    then p.slotp_left && (classic || not (is_none w || is_shield w || is_ammo w))
    else if index == slot_legs
    then p.slotp_legs
    else if index == slot_feet
    then p.slotp_feet
    else if index == slot_ring
    then p.slotp_ring
    else p.slotp_ammo || classic

-- A weapon proper.
abbrev pub is_weapon : WeaponType → Bool
is_weapon w = not (is_none w || is_shield w || is_ammo w)

-- What may be in the left and in the right hand at once. With classic slots: nothing two-handed,
-- one shield at most and one weapon at most; else nothing two-handed but a distance weapon with its
-- quiver.
abbrev pub together : Bool → Item → Item → Bool
together classic l r =
    let two = l.slot_position.slotp_two_hand || r.slot_position.slotp_two_hand in
    if classic
    then not two
      && not (is_shield l.weapon_type && is_shield r.weapon_type)
      && not (is_weapon l.weapon_type && is_weapon r.weapon_type)
    else not two || (is_distance l.weapon_type && is_quiver r.weapon_type)

-- What the table of items keeps: every item fits a hand by its bits, and no shield and no quiver is
-- two-handed.
abbrev pub typed : Item → Bool
typed i =
    (i.slot_position.slotp_right || i.slot_position.slotp_left)
    && (not i.slot_position.slotp_two_hand
        || not (is_shield i.weapon_type || is_quiver i.weapon_type))

-- A typed item goes nowhere by itself.
pub goes_on-first_answer :
    (classic : Bool) (i : Item)
    → typed i ≡ true
    → goes_on (first_answer classic i.slot_position) ≡ false
unfolding first_answer
goes_on-first_answer classic i t = ground arith

goes_on-right_answer :
    (i : Item) (o : Option Item)
    → goes_on (right_answer i o) ≡ true
    → (is_shield i.weapon_type || is_quiver i.weapon_type) ≡ true
unfolding right_answer
goes_on-right_answer i o e = ground arith

goes_on-left_answer :
    (i : Item) (o : Option Item)
    → goes_on (left_answer i o) ≡ true
    → not (is_none i.weapon_type || is_shield i.weapon_type || is_ammo i.weapon_type) ≡ true
unfolding left_answer
goes_on-left_answer i o e = ground arith

-- A bit that lets the item pass.
pub passed :
    (b : Bool) (a r : ReturnValue)
    → goes_on r ≡ false
    → goes_on (if b then a else r) ≡ true
    → (b ≡ true) × (goes_on a ≡ true)
passed true a r h e = (refl, e)
passed false a r h e = absurd (cc)

-- The answer of `queryAdd` for a slot that holds nothing but what the hands say.
unfoldable pub hand_answer : Bool → Item → ℕ → ℕ → Inventory → ReturnValue
hand_answer classic i count s inventory =
    if s == slot_right
    then (if not classic
        then right_answer i (inventory slot_left)
        else beside i count (inventory slot_left))
    else if s == slot_left
    then (if not classic
        then left_answer i (inventory slot_right)
        else beside i count (inventory slot_right))
    else noerror

-- The bit of the slot.
unfoldable pub bit : Bool → Item → ℕ → Bool
bit classic i s =
    let p = i.slot_position in
    if s == slot_head
    then p.slotp_head
    else if s == slot_necklace
    then p.slotp_necklace
    else if s == slot_backpack
    then p.slotp_backpack
    else if s == slot_armor
    then p.slotp_armor
    else if s == slot_right
    then p.slotp_right
    else if s == slot_left
    then p.slotp_left
    else if s == slot_legs
    then p.slotp_legs
    else if s == slot_feet
    then p.slotp_feet
    else if s == slot_ring
    then p.slotp_ring
    else p.slotp_ammo || classic

pub slot_answer_lem :
    (classic : Bool) (i : Item) (count s : ℕ) (r : ReturnValue) (inventory : Inventory)
    → 0 < s
    → s ≤ 10
    → slot_answer classic i count s r inventory
      ≡ (if bit classic i s then hand_answer classic i count s inventory else r)
unfolding slot_answer bit hand_answer
slot_answer_lem classic i count s r inventory low high = ground arith

pub slot_answer-suits :
    (classic : Bool) (i : Item) (count s : ℕ) (inventory : Inventory)
    → bit classic i s ≡ true
    → goes_on (hand_answer classic i count s inventory) ≡ true
    → suits classic s i ≡ true
unfolding bit hand_answer
slot_answer-suits classic i count s inventory b e = ground (
  arith,
  goes_on-right_answer i (inventory slot_left),
  goes_on-left_answer i (inventory slot_right),
)

pub right_answer-together :
    (i l : Item) → goes_on (right_answer i (some l)) ≡ true → together false l i ≡ true
unfolding right_answer beside_left
right_answer-together i l e = ground arith

pub left_answer-together :
    (i r : Item)
    → suits false slot_right r ≡ true
    → typed r ≡ true
    → goes_on (left_answer i (some r)) ≡ true
    → together false i r ≡ true
unfolding left_answer beside_right
left_answer-together i r s t e = ground arith

pub beside-together :
    (i o : Item) (count : ℕ)
    → (not i.slot_position.slotp_two_hand || (count == i.item_count)) ≡ true
    → ((o.thing == i.thing) && (count == i.item_count)) ≡ false
    → goes_on (beside i count (some o)) ≡ true
    → (together true i o ≡ true) × (together true o i ≡ true)
unfolding beside
beside-together i o count whole stays e = ground (arith)
