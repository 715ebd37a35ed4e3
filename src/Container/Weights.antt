-- ===== src/Container/Weights.antt =====
-- engine/src/container.cpp: what a container weighs. A container is reached from an outer one by the
-- indices on the way; `updateItemWeight` adds a difference to each container on it. Differences
-- and weights are numbers of 32 bits.
pub mod Kept
pub mod Calls
use otx_teste.Common.{
  ℕ, zero, suc, ◌+◌, ◌*◌, ◌-◌, ◌%◌, ◌^◌, Bool, true, false, not, ◌&&◌, List, [], ◌∷◌, ltb, leb,
  ◌==◌, if◌then◌else◌,
}

pub record Item : Type 0 where
  pub thing : ℕ
  pub base_weight : ℕ
  pub stackable : Bool
  pub count : ℕ

-- An item, or a container: its object, its own weight, `totalWeight` and `itemlist`.
mutual
  pub data Held : Type 0 where
    loose : Item → Held
    bag : ℕ → ℕ → ℕ → Helds → Held

  pub data Helds : Type 0 where
    nothing : Helds
    also : Held → Helds → Helds

-- `Item::getWeight` and `Container::getWeight`.
unfoldable pub get_weight : Held → ℕ
get_weight (loose i) =
    (if i.stackable then i.base_weight * (if i.count == 0 then 1 else i.count) else i.base_weight)
    % 2 ^ 32
get_weight (bag thing own total items) = (own + total) % 2 ^ 32

abbrev pub object : Held → ℕ
object (loose i) = i.thing
object (bag thing own total items) = thing

-- The list of a container after a call, and the argument of `updateItemWeight`.
pub record Change : Type 0 where
  pub items : Helds
  pub diff : ℕ

abbrev pub unchanged : Helds → Change
unchanged items = record { items = items; diff = 0 }

abbrev pub behind : Held → Change → Change
behind h c = record c { items = also h c.items }

-- `addThing` at an index, of a container with a capacity.
unfoldable pub add_thing : ℕ → ℕ → Held → Helds → Change
unfolding get_weight
add_thing capacity index h items =
    if leb capacity index
    then unchanged items
    else record { items = also h items; diff = get_weight h }

-- `addItemBack`.
unfoldable pub add_item_back : Held → Helds → Change
unfolding get_weight
add_item_back h nothing = record { items = also h nothing; diff = get_weight h }
add_item_back h (also k ks) = behind k (add_item_back h ks)

-- - old + new, in 32 bits.
abbrev pub difference : ℕ → ℕ → ℕ
difference old new = (2 ^ 32 - old + new) % 2 ^ 32

-- `replaceThing`.
unfoldable pub replace_thing : ℕ → Held → Helds → Change
unfolding get_weight
replace_thing k h nothing = unchanged nothing
replace_thing zero h (also old others) = record {
  items = also h others;
  diff = difference (get_weight old) (get_weight h);
}
replace_thing (suc k) h (also first others) = behind first (replace_thing k h others)

-- `max(0, getItemCount() - count)` in 32 bits, of which 8 are kept.
abbrev pub new_count : ℕ → ℕ → ℕ
new_count item_count count =
    let left = (item_count + 2 ^ 32 - count) % 2 ^ 32 in
    (if ltb left (2 ^ 31) then left else 0) % 2 ^ 8

-- `removeThing`, at the item that it finds.
unfoldable pub take_out : ℕ → Held → Helds → Change
unfolding get_weight
take_out count (loose i) others =
    let kept = loose (record i { count = new_count i.count count }) in
    if i.stackable && not (count == i.count)
    then record {
      items = also kept others;
      diff = difference (get_weight (loose i)) (get_weight kept);
    }
    else record { items = others; diff = difference (get_weight (loose i)) 0 }
take_out count (bag thing own total items) others = record {
  items = others;
  diff = difference (get_weight (bag thing own total items)) 0;
}

-- `removeThing`: the first place of the object in the list.
unfoldable pub remove_thing : ℕ → ℕ → Helds → Change
unfolding take_out
remove_thing thing count nothing = unchanged nothing
remove_thing thing count (also h hs) =
    let rest = remove_thing thing count hs in
    if object h == thing then take_out count h hs else behind h rest

-- A call, on the container at the end of a way; each container on it gets the difference.
pub record Inside : Type 0 where
  pub total_weight : ℕ
  pub items : Helds

-- `updateItemWeight` on one container.
abbrev pub update_item_weight : ℕ → Change → Inside × ℕ
update_item_weight total c =
    (record { total_weight = (total + c.diff) % 2 ^ 32; items = c.items }, c.diff)

-- The container at an index of a list, with what happens in it.
unfoldable pub inside : ℕ → (ℕ → Helds → Inside × ℕ) → Helds → Change
inside k f nothing = unchanged nothing
inside (suc k) f (also h hs) = behind h (inside k f hs)
inside zero f (also (loose i) hs) = unchanged (also (loose i) hs)
inside zero f (also (bag thing own total items) hs) =
    let (x, d) = f total items in
    record { items = also (bag thing own x.total_weight x.items) hs; diff = d }

unfoldable pub change_at : List ℕ → (Helds → Change) → ℕ → Helds → Inside × ℕ
unfolding inside
change_at [] f total items = update_item_weight total (f items)
change_at (k ∷ way) f total items = update_item_weight total (inside k (change_at way f) items)
