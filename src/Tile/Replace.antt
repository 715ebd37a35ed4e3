-- ===== src/Tile/Replace.antt =====
-- `Tile::replaceThing` of engine/src/tile.cpp: an item takes the place of another.
use mathlib.Core.Option
use otx_teste.Common.{
  ℕ, zero, suc, ◌+◌, ◌-◌, ◌≡◌, Bool, true, false, ◌&&◌, Option, none, some, List, [], ◌∷◌, ltb,
  ◌==◌, if◌then◌else◌, length,
}
use otx_teste.Tile.Contents.{Item, Thing, Contents, creature, item, top_items, at}

-- `erase` at an iterator and `insert` at what it returns.
unfoldable pub put : ℕ → Item → List Item → List Item
put k i [] = []
put zero i (j ∷ items) = i ∷ items
put (suc k) i (j ∷ items) = j ∷ put k i items

-- `replaceThing` behind the ground.
unfoldable pub replace_behind : ℕ → Item → Contents → Contents
unfolding put
replace_behind pos i t =
    let tops = length (top_items t) in
    let others = length t.creatures in
    if ltb pos tops
    then record t { items = put (t.down_item_count + pos) i t.items }
    else if ltb (pos - tops) others
    then t
    else if ltb (pos - tops - others) t.down_item_count
    then record t { items = put (pos - tops - others) i t.items }
    else t

unfoldable pub replace_from : Option Item → ℕ → Item → Contents → Contents
unfolding replace_behind
replace_from none pos i t = replace_behind pos i t
replace_from (some g) zero i t = record t { ground = some i }
replace_from (some g) (suc pos) i t = replace_behind pos i t

-- `replaceThing` with an item.
unfoldable pub replace_thing : ℕ → Item → Contents → Contents
unfolding replace_from
replace_thing index i t = replace_from t.ground index i t

abbrev pub is_item : Option Thing → Bool
is_item none = false
is_item (some (creature c)) = false
is_item (some (item i)) = true

-- What `getThing` reads in a vector of items.
abbrev item_at : ℕ → List Item → Option Thing
item_at k items = Option.map item (at k items)

-- `thing_behind` by the number of top items, of creatures and of down items.
read : ℕ → ℕ → ℕ → List ℕ → List Item → ℕ → Option Thing
read tops others d creatures items m =
    if ltb m tops
    then item_at (d + m) items
    else if ltb (m - tops) others
    then Option.map creature (at (m - tops) creatures)
    else if ltb (m - tops - others) d
    then item_at (m - tops - others) items
    else none

module _ (tops others d : ℕ) (creatures : List ℕ) (items : List Item) (i : Item) (m n : ℕ) where
  abbrev Replaced : List Item → Type 0
  Replaced items' = read tops others d creatures items' m ≡ (
      if (m == n) && is_item (read tops others d creatures items n)
      then some (item i)
      else read tops others d creatures items m)
