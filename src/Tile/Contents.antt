-- ===== src/Tile/Contents.antt =====
-- engine/src/tile.cpp and `TileItemVector` of engine/src/tile.h: what lies on a tile. Objects are
-- numbers, an item stands with what the functions ask of its type; a vector that is not there is an
-- empty one. Left out: flags, parents, and what is sent to those who look on.
use otx_teste.Common.{
  ℕ, zero, suc, ◌+◌, ◌-◌, ◌%◌, ◌^◌, Bool, true, false, not, ◌&&◌, ◌||◌, Option, none, some, List,
  [], ◌∷◌, ◌++◌, ltb, leb, ◌==◌, if◌then◌else◌, length, take, drop,
}
use mathlib.Core.Option
use otx_teste.ReturnValue.{ReturnValue, noerror, notpossible, notmoveable}

-- An item, with `isGroundTile`, `alwaysOnTop`, `alwaysOnTopOrder`, `isSplash`, `isMagicField` and
-- `stackable` of its type; `field` is `getMagicField()`, and there whether it `isReplaceable`.
pub record Item : Type 0 where
  pub thing : ℕ
  pub count : ℕ
  pub ground_tile : Bool
  pub always_on_top : Bool
  pub always_on_top_order : ℕ
  pub splash : Bool
  pub magic_field : Bool
  pub field : Option Bool
  pub stackable : Bool
  pub moveable : Bool

pub data Thing : Type 0 where
  creature : ℕ → Thing
  item : Item → Thing

-- `items` holds the down items, as many as `down_item_count`, and then the top items.
pub record Contents : Type 0 where
  pub ground : Option Item
  pub items : List Item
  pub down_item_count : ℕ
  pub creatures : List ℕ

abbrev pub address : Thing → ℕ
address (creature c) = c
address (item i) = i.thing

-- The ranges from `getBeginDownItem` and from `getBeginTopItem`.
abbrev pub down_items : Contents → List Item
down_items t = take t.down_item_count t.items

abbrev pub top_items : Contents → List Item
top_items t = drop t.down_item_count t.items

-- The items from `getBeginTopItem` on are replaced.
abbrev pub with_top_items : List Item → Contents → Contents
with_top_items tops t = record t { items = down_items t ++ tops }

-- `std::find` of an object: its place among the items, or among the creatures.
unfoldable pub find : ℕ → List Item → Option ℕ
find x [] = none
find x (i ∷ items) =
    let rest = Option.map suc (find x items) in if i.thing == x then some 0 else rest

unfoldable pub find_creature : ℕ → List ℕ → Option ℕ
find_creature x [] = none
find_creature x (c ∷ cs) =
    let rest = Option.map suc (find_creature x cs) in if c == x then some 0 else rest

abbrev pub is_some {ℓ} : {A : Type ℓ} → Option A → Bool
is_some none = false
is_some (some a) = true

-- `erase` of what `std::find` finds.
unfoldable pub erase_item : ℕ → List Item → List Item
erase_item x [] = []
erase_item x (i ∷ items) = let rest = erase_item x items in if i.thing == x then items else i ∷ rest

-- The loops that look for the first item of a kind.
unfoldable pub first : (Item → Bool) → List Item → Option Item
first p [] = none
first p (i ∷ items) = let rest = first p items in if p i then some i else rest

-- `getThingIndex` behind the ground, with `n` the places before.
unfoldable pub index_behind : ℕ → Thing → Contents → Option ℕ
unfolding find find_creature
index_behind n (creature c) t =
    Option.map (λ k. n + length (top_items t) + k) (find_creature c t.creatures)
index_behind n (item i) t =
    if i.always_on_top
    then Option.map (λ k. n + k) (find i.thing (top_items t))
    else Option.map (λ k. n + length (top_items t) + length t.creatures + k)
        (find i.thing (down_items t))

-- `getThingIndex` with the ground; -1 is `none`.
unfoldable pub index_from : Option Item → Thing → Contents → Option ℕ
unfolding index_behind
index_from none thing t = index_behind 0 thing t
index_from (some g) thing t = if g.thing == address thing then some 0 else index_behind 1 thing t

unfoldable pub get_thing_index : Thing → Contents → Option ℕ
unfolding index_from
get_thing_index thing t = index_from t.ground thing t

-- An element of a vector by its place.
unfoldable pub at {ℓ} : {A : Type ℓ} → ℕ → List A → Option A
at k [] = none
at zero (x ∷ xs) = some x
at (suc k) (x ∷ xs) = at k xs

-- `getThing` behind the ground.
unfoldable pub thing_behind : ℕ → Contents → Option Thing
unfolding at
thing_behind n t =
    let tops = length (top_items t) in
    let others = length t.creatures in
    if ltb n tops
    then Option.map item (at (t.down_item_count + n) t.items)
    else if ltb (n - tops) others
    then Option.map creature (at (n - tops) t.creatures)
    else if ltb (n - tops - others) t.down_item_count
    then Option.map item (at (n - tops - others) t.items)
    else none

unfoldable pub thing_from : Option Item → ℕ → Contents → Option Thing
unfolding thing_behind
thing_from none n t = thing_behind n t
thing_from (some g) zero t = some (item g)
thing_from (some g) (suc n) t = thing_behind n t

-- `getThing`.
unfoldable pub get_thing : ℕ → Contents → Option Thing
unfolding thing_from
get_thing n t = thing_from t.ground n t

-- `max(0, getItemCount() - count)` in 32 bits, of which 8 are kept.
abbrev pub new_count : ℕ → ℕ → ℕ
new_count item_count count =
    let left = (item_count + 2 ^ 32 - count) % 2 ^ 32 in
    (if ltb left (2 ^ 31) then left else 0) % 2 ^ 8

-- `setItemCount` on an object of a vector.
unfoldable pub set_count : ℕ → ℕ → List Item → List Item
set_count x n [] = []
set_count x n (i ∷ items) =
    (if i.thing == x then record i { count = n } else i) ∷ set_count x n items

-- The part of `removeThing` for an item that lies on top, and for one that does not.
unfoldable pub remove_top : Item → Contents → Contents
unfolding find erase_item
remove_top i t =
    if is_some (find i.thing (top_items t))
    then with_top_items (erase_item i.thing (top_items t)) t
    else t

unfoldable pub remove_down : Item → ℕ → Contents → Contents
unfolding find erase_item set_count
remove_down i count t =
    if is_some (find i.thing (down_items t))
    then (if i.stackable && not (count == i.count)
        then record t {
          items = set_count i.thing (new_count i.count count) (down_items t) ++ top_items t;
        }
        else record t {
          items = erase_item i.thing (down_items t) ++ top_items t;
          down_item_count = t.down_item_count - 1;
        })
    else t

abbrev pub is_ground : Item → Option Item → Bool
is_ground i none = false
is_ground i (some g) = i.thing == g.thing

unfoldable pub remove_item : Item → ℕ → Contents → Contents
unfolding get_thing_index remove_top remove_down
remove_item i count t =
    if not (is_some (get_thing_index (item i) t))
    then t
    else if is_ground i t.ground
    then record t { ground = none }
    else if i.always_on_top
    then remove_top i t
    else remove_down i count t

unfoldable pub erase_creature : ℕ → List ℕ → List ℕ
erase_creature x [] = []
erase_creature x (c ∷ cs) = let rest = erase_creature x cs in if c == x then cs else c ∷ rest

-- `removeThing`.
unfoldable pub remove_thing : Thing → ℕ → Contents → Contents
unfolding remove_item erase_creature
remove_thing (creature c) count t = record t { creatures = erase_creature c t.creatures }
remove_thing (item i) count t = remove_item i count t

-- The loop that inserts before the first top item of the same or a higher order.
unfoldable pub insert_top : Item → List Item → List Item
insert_top i [] = i ∷ []
insert_top i (j ∷ js) =
    let rest = insert_top i js in
    if leb i.always_on_top_order j.always_on_top_order then i ∷ j ∷ js else j ∷ rest

unfoldable pub drop_splash : Option Item → Contents → Contents
unfolding remove_item
drop_splash none t = t
drop_splash (some old_splash) t = remove_item old_splash 1 t

-- `addThing` of an item that lies on top.
unfoldable pub add_top : Item → Contents → Contents
unfolding drop_splash insert_top first
add_top i t =
    let t' = if i.splash then drop_splash (first (λ j. j.splash) (top_items t)) t else t in
    with_top_items (insert_top i (top_items t')) t'

abbrev pub push_down : Item → Contents → Contents
push_down i t = record t { items = i ∷ t.items; down_item_count = (t.down_item_count + 1) % 2 ^ 32 }

abbrev pub is_replaceable : Option Bool → Bool
is_replaceable none = false
is_replaceable (some r) = r

unfoldable pub replace_field : Item → Option Item → Contents → Contents
unfolding remove_item
replace_field i none t = push_down i t
replace_field i (some old_field) t =
    if is_replaceable old_field.field then push_down i (remove_item old_field 1 t) else t

-- `addThing` of an item that does not.
unfoldable pub add_down : Item → Contents → Contents
unfolding replace_field first
add_down i t =
    if i.magic_field
    then replace_field i (first (λ j. is_some j.field) (down_items t)) t
    else push_down i t

-- `addThing`.
unfoldable pub add_thing : Thing → Contents → Contents
unfolding add_top add_down
add_thing (creature c) t = record t { creatures = c ∷ t.creatures }
add_thing (item i) t =
    if leb 0xFFFF (length t.items)
    then t
    else if i.ground_tile
    then record t { ground = some i }
    else if i.always_on_top
    then add_top i t
    else add_down i t

-- `queryRemove`; the last argument is FLAG_IGNORENOTMOVEABLE.
unfoldable pub query_remove : Thing → ℕ → Bool → Contents → ReturnValue
unfolding get_thing_index
query_remove (creature c) count ignore t = notpossible
query_remove (item i) count ignore t =
    if not (is_some (get_thing_index (item i) t))
    then notpossible
    else if count == 0 || (i.stackable && ltb i.count count)
    then notpossible
    else if not i.moveable && not ignore
    then notmoveable
    else noerror
