-- ===== src/Inventory/Hands.antt =====
-- `Player::queryAdd` of engine/src/player.cpp: what a player wears and holds in both hands.
use Prim.Native.Nat.{min}
use otx_teste.Common.{
  ◌-◌, ◌+◌, ℕ, ◌≡◌, refl, sym, if_either, ◌<◌, ◌⊎◌, ◌≤◌, Bool, true, false, not, ◌&&◌, ◌||◌, Option,
  none, some, ◌==◌, ltb, if◌then◌else◌, arith, inl, inr, ==_iff,
}
use mathlib.Core.Option.{some-injective, none-ne-some}
use otx_teste.ReturnValue.{ReturnValue, noerror, cannotpickup}
use otx_teste.Inventory.{
  slot_right, slot_left, Item, Env, Inventory, first_answer, slot_answer, goes_on, after_slot,
  query_add, add_thing, without, remove_thing, moved, is_mergeable, piece, move_onto,
  get_inventory_item,
}
use otx_teste.Inventory.Answers.{
  suits, typed, together, bit, hand_answer, goes_on-first_answer, passed, slot_answer_lem,
  slot_answer-suits, right_answer-together, left_answer-together, beside-together,
}

-- A player wears what the slots ask for.
pub record IsDressed (classic : Bool) (inventory : Inventory) : Type 0 where
  pub each :
      (s : ℕ) (i : Item)
      → 0 < s
      → s ≤ 10
      → inventory s ≡ some i
      → (suits classic s i ≡ true) × (typed i ≡ true)
  pub hands :
      (l r : Item)
      → inventory slot_left ≡ some l
      → inventory slot_right ≡ some r
      → together classic l r ≡ true

-- An item comes into a slot.
module _ (classic : Bool) (kept : Inventory) (index : ℕ) (i : Item) where
  add_thing-cases :
      (s : ℕ) (j : Item)
      → add_thing index i kept s ≡ some j
      → ((s ≡ index) × (i ≡ j)) ⊎ (kept s ≡ some j)
  unfolding add_thing
  add_thing-cases s j e =
      if_either (λ (o : Option Item). o ≡ some j → ((s ≡ index) × (i ≡ j)) ⊎ (kept s ≡ some j))
        ((index == 0) || ltb 11 index) {x = kept s} {y = if s == index then some i else kept s}
        (λ h e'. inr e')
        (λ h.
          if_either (λ (o : Option Item). o ≡ some j → ((s ≡ index) × (i ≡ j)) ⊎ (kept s ≡ some j))
            (s == index) {x = some i} {y = kept s}
            (λ h' e'. inl ((==_iff s index).0 h', some-injective _ _ e')) (λ h' e'. inr e'))
        e

  add_thing-IsDressed :
      IsDressed classic kept
      → suits classic index i ≡ true
      → typed i ≡ true
      → (index ≡ slot_right → (l : Item) → kept slot_left ≡ some l → together classic l i ≡ true)
      → (index ≡ slot_left → (r : Item) → kept slot_right ≡ some r → together classic i r ≡ true)
      → IsDressed classic (add_thing index i kept)
  add_thing-IsDressed d s t right left = record {
    each = λ k j low high e. elim (add_thing-cases k j e) [
      | inl (p, q) ↦ rw (← q, p) (s, t)
      | inr old ↦ d.each k j low high old
    ];
    hands = λ l r e e'. elim (add_thing-cases slot_left l e) [
      | inl (p, q) ↦ elim (add_thing-cases slot_right r e') [
        | inl (p', q') ↦ absurd (omega (arith, p, p'))
        | inr k ↦ rw (← q) (left (sym p) r k)
      ]
      | inr k ↦ elim (add_thing-cases slot_right r e') [
        | inl (p', q') ↦ rw (← q') (right (sym p') l k)
        | inr k' ↦ d.hands l r k k'
      ]
    ];
  }

-- What is left in a slot is what was there, but for the count, and not the whole item.
Left : Item → ℕ → Option Item → Item → Type 0
Left i count o l =
    (j : Item) × ((n : ℕ) × (o ≡ some j)
      × (l ≡ record j { item_count = n })
      × (((j.thing == i.thing) && (count == i.item_count)) ≡ false))

without-Left :
    (i : Item) (count : ℕ) (o : Option Item) (l : Item)
    → without i count o ≡ some l
    → Left i count o l
unfolding without Left
without-Left i count none l e = absurd (none-ne-some l e)
without-Left i count (some j) l e =
    if_either (λ (o : Option Item). o ≡ some l → Left i count (some j) l) (not (j.thing == i.thing))
      {x = some j}
      {y = if i.stackable && not (count == i.item_count)
        then some (record j { item_count = i.item_count - count })
        else none}
      (λ h e'. (j, (j.item_count, refl, sym (some-injective _ _ e'), ground (arith, h))))
      (λ h.
        if_either (λ (o : Option Item). o ≡ some l → Left i count (some j) l)
          (i.stackable && not (count == i.item_count))
          {x = some (record j { item_count = i.item_count - count })} {y = none}
          (λ h' e'.
            (j, (i.item_count - count, refl, sym (some-injective _ _ e'), ground (arith, h'))))
          (λ h' e'. absurd (none-ne-some l e')))
      e

-- A player who is dressed stays so without an item or a part of it.
remove_thing-IsDressed :
    (classic : Bool) (i : Item) (count : ℕ) (inventory : Inventory)
    → IsDressed classic inventory
    → IsDressed classic (remove_thing i count inventory)
unfolding remove_thing Left
remove_thing-IsDressed classic i count inventory d = record {
  each = λ s l low high e.
      let (j, (n, was, same, part)) = without-Left i count (inventory s) l e in
      rw same (d.each s j low high was);
  hands = λ l r e e'.
      let (j, (n, was, same, part)) = without-Left i count (inventory slot_left) l e in
      let (j', (n', was', same', part')) = without-Left i count (inventory slot_right) r e' in
      rw (same, same') (d.hands j j' was was');
}

after_slot-goes_on :
    (env : Env) (inventory : Inventory) (index : ℕ) (i : Item) (ret : ReturnValue)
    → after_slot env inventory index i ret ≡ noerror
    → goes_on ret ≡ true
unfolding after_slot
after_slot-goes_on env inventory index i ret e =
    if_either (λ (r : ReturnValue). r ≡ noerror → goes_on ret ≡ true) (not (goes_on ret)) {x = ret}
      (λ h e'. rw e' refl) (λ h e'. ground (arith, h)) e

-- What `queryAdd` has looked at when it lets an item pass.
query_add-goes_on :
    (env : Env) (inventory : Inventory) (index : ℕ) (i : Item) (count : ℕ)
    → env.child_is_owner ≡ false
    → query_add env inventory index i count ≡ noerror
    → goes_on
        (slot_answer env.classic i count index (first_answer env.classic i.slot_position) inventory)
      ≡ true
unfolding query_add
query_add-goes_on env inventory index i count own e =
    let ret =
      slot_answer env.classic i count index (first_answer env.classic i.slot_position) inventory in
    if_either (λ (r : ReturnValue). r ≡ noerror → goes_on ret ≡ true) (not i.pickupable)
      {x = cannotpickup} {y = after_slot env inventory index i ret} (λ h e'. absurd (cc))
      (λ h e'. after_slot-goes_on env inventory index i ret e') (simp own at e)

query_add-asked :
    (env : Env) (inventory : Inventory) (index : ℕ) (i : Item) (count : ℕ)
    → 0 < index
    → index ≤ 10
    → typed i ≡ true
    → env.child_is_owner ≡ false
    → query_add env inventory index i count ≡ noerror
    → (bit env.classic i index ≡ true)
      × (goes_on (hand_answer env.classic i count index inventory) ≡ true)
query_add-asked env inventory index i count low high t own e =
    let ret = first_answer env.classic i.slot_position in
    passed (bit env.classic i index) (hand_answer env.classic i count index inventory) ret
      (goes_on-first_answer env.classic i t)
      (rw (slot_answer_lem env.classic i count index ret inventory low high) at
        (query_add-goes_on env inventory index i count own e))

-- The hand that the item does not come into, if it still holds something.
right-together :
    (classic : Bool) (i l : Item) (count : ℕ) (inventory : Inventory)
    → inventory slot_left ≡ some l
    → (not i.slot_position.slotp_two_hand || (count == i.item_count)) ≡ true
    → ((l.thing == i.thing) && (count == i.item_count)) ≡ false
    → goes_on (hand_answer classic i count slot_right inventory) ≡ true
    → together classic l i ≡ true
unfolding hand_answer
right-together true i l count inventory there whole stays e =
    (beside-together i l count whole stays (rw there at e)).1
right-together false i l count inventory there whole stays e =
    right_answer-together i l (rw there at e)

left-together :
    (classic : Bool) (i r : Item) (count : ℕ) (inventory : Inventory)
    → inventory slot_right ≡ some r
    → IsDressed classic inventory
    → (not i.slot_position.slotp_two_hand || (count == i.item_count)) ≡ true
    → ((r.thing == i.thing) && (count == i.item_count)) ≡ false
    → goes_on (hand_answer classic i count slot_left inventory) ≡ true
    → together classic i r ≡ true
unfolding hand_answer
left-together true i r count inventory there d whole stays e =
    (beside-together i r count whole stays (rw there at e)).0
left-together false i r count inventory there d whole stays e =
    let worn = d.each slot_right r (omega arith) (omega arith) there in
    left_answer-together i r worn.0 worn.1 (rw there at e)

-- The hand that the item does not come into, with what is left there of the item or of another.
module _ (classic : Bool) (inventory : Inventory) (i : Item) (count : ℕ)
    (whole : (not i.slot_position.slotp_two_hand || (count == i.item_count)) ≡ true) where
  kept_right :
      (l : Item)
      → remove_thing i count inventory slot_left ≡ some l
      → goes_on (hand_answer classic i count slot_right inventory) ≡ true
      → together classic l i ≡ true
  unfolding remove_thing Left
  kept_right l k asked =
      let (j, (n, was, same, part)) = without-Left i count (inventory slot_left) l k in
      rw same (right-together classic i j count inventory was whole part asked)

  kept_left :
      (r : Item)
      → IsDressed classic inventory
      → remove_thing i count inventory slot_right ≡ some r
      → goes_on (hand_answer classic i count slot_left inventory) ≡ true
      → together classic i r ≡ true
  unfolding remove_thing Left
  kept_left r d k asked =
      let (j, (n, was, same, part)) = without-Left i count (inventory slot_right) r k in
      rw same (left-together classic i j count inventory was d whole part asked)

  -- Into an empty slot.
  piece-IsDressed :
      (b : Bool) (index fresh : ℕ)
      → IsDressed classic inventory
      → typed i ≡ true
      → suits classic index i ≡ true
      → goes_on (hand_answer classic i count index inventory) ≡ true
      → IsDressed classic (add_thing index (piece b i count fresh) (remove_thing i count inventory))
  unfolding piece
  piece-IsDressed true index fresh d t s asked =
      add_thing-IsDressed classic (remove_thing i count inventory) index
        (record i { thing = fresh; item_count = count })
        (remove_thing-IsDressed classic i count inventory d) s t
        (λ here l k. kept_right l k (rw here at asked))
        (λ here r k. kept_left r d k (rw here at asked))
  piece-IsDressed false index fresh d t s asked =
      add_thing-IsDressed classic (remove_thing i count inventory) index i
        (remove_thing-IsDressed classic i count inventory d) s t
        (λ here l k. kept_right l k (rw here at asked))
        (λ here r k. kept_left r d k (rw here at asked))

-- Into a stack.
merged-IsDressed :
    (classic : Bool) (inventory : Inventory) (index : ℕ) (i j : Item) (n more : ℕ)
    → IsDressed classic inventory
    → 0 < index
    → index ≤ 10
    → inventory index ≡ some j
    → IsDressed classic
        (add_thing index (record j { item_count = more }) (remove_thing i n inventory))
unfolding remove_thing Left
merged-IsDressed classic inventory index i j n more d low high there =
    let worn = d.each index j low high there in
    add_thing-IsDressed classic (remove_thing i n inventory) index (record j { item_count = more })
      (remove_thing-IsDressed classic i n inventory d) worn.0 worn.1
      (λ here l k.
        let (l', (m, was, same, part)) = without-Left i n (inventory slot_left) l k in
        rw same (d.hands l' j was (rw here at there)))
      (λ here r k.
        let (r', (m, was, same, part)) = without-Left i n (inventory slot_right) r k in
        rw same (d.hands j r' (rw here at there) was))

get_inventory_item-there :
    (index : ℕ) (inventory : Inventory) (j : Item)
    → index ≤ 10
    → 0 < index
    → get_inventory_item index inventory ≡ some j
    → inventory index ≡ some j
unfolding get_inventory_item
get_inventory_item-there index inventory j high low e = ground (arith, e)

-- A typed item, not a part of a stack of two-handed ones, that is to go into a slot from the head's
-- to that of ammunition, of a player who is dressed as the slots ask, and not on behalf of a
-- container of the player: where `queryAdd` lets it pass, the player is so dressed after the move.
-- Every slot has an item for it, and the hands hold together what they may: nothing two-handed but a
-- distance weapon with its quiver, and with classic slots nothing two-handed, one shield and one
-- weapon at most.
pub query_add-IsDressed :
    (env : Env) (inventory : Inventory) (index : ℕ) (i : Item) (count fresh : ℕ)
    → IsDressed env.classic inventory
    → 0 < index
    → index ≤ 10
    → typed i ≡ true
    → (not i.slot_position.slotp_two_hand || (count == i.item_count)) ≡ true
    → env.child_is_owner ≡ false
    → query_add env inventory index i count ≡ noerror
    → IsDressed env.classic (moved index i count fresh inventory)
unfolding moved move_onto
query_add-IsDressed env inventory index i count fresh d low high t whole own e =
    go (get_inventory_item index inventory) refl
  where
    go :
        (o : Option Item)
        → get_inventory_item index inventory ≡ o
        → IsDressed env.classic (move_onto index i count fresh inventory o)
    go none empty =
        let asked = query_add-asked env inventory index i count low high t own e in
        piece-IsDressed env.classic inventory i count whole i.stackable index fresh d t
          (slot_answer-suits env.classic i count index inventory asked.0 asked.1) asked.1
    go (some j) old =
        let n = min count (100 - j.item_count) in
        if_either (IsDressed env.classic) (not (j.thing == i.thing) && is_mergeable i j)
          {x = add_thing index (record j { item_count = j.item_count + n })
            (remove_thing i n inventory)}
          {y = inventory}
          (λ h.
            merged-IsDressed env.classic inventory index i j n (j.item_count + n) d low high
              (get_inventory_item-there index inventory j high low old))
          (λ h. d)
