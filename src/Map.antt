-- ===== src/Map.antt =====
-- engine/src/map.h and map.cpp: the tiles of the map, in a table of 1024 by 1024 nodes, each with
-- the leaves whose coordinates fall there. An array is a function of its index. Left out: the
-- creatures that the leaves know of.
pub mod Places
use otx_teste.Common.{
  ℕ, ◌/◌, ◌%◌, Bool, true, false, ◌&&◌, Option, none, some, List, [], ◌∷◌, leb, ◌==◌, if◌then◌else◌,
}
use otx_teste.Tile.Contents.{Contents, Item, item, add_thing}

abbrev pub floor_size : ℕ
floor_size = 8

abbrev pub map_max_layers : ℕ
map_max_layers = 16

-- The tiles of a floor, by the low bits of the coordinates.
abbrev pub Floor : Type 0
Floor = ℕ → ℕ → Option Contents

-- `QTreeLeafNode`: its coordinates and its floors.
pub record Leaf : Type 0 where
  pub x : ℕ
  pub y : ℕ
  pub floors : ℕ → Option Floor

-- `QTreeNodeHashMap`: the leaves of each node.
abbrev pub Nodes : Type 0
Nodes = ℕ → ℕ → List Leaf

abbrev pub is_at : ℕ → ℕ → Leaf → Bool
is_at x y l = (l.x == x) && (l.y == y)

-- The loop of `getLeaf`.
unfoldable pub find_leaf : ℕ → ℕ → List Leaf → Option Leaf
find_leaf x y [] = none
find_leaf x y (l ∷ leaves) = let rest = find_leaf x y leaves in if is_at x y l then some l else rest

-- `getLeaf`.
unfoldable pub get_leaf : ℕ → ℕ → Nodes → Option Leaf
unfolding find_leaf
get_leaf x y nodes =
    let x' = x / floor_size in
    let y' = y / floor_size in find_leaf x' y' (nodes (x' % 1024) (y' % 1024))

abbrev pub new_leaf : ℕ → ℕ → Leaf
new_leaf x y = record { x = x; y = y; floors = λ z. none }

-- `createLeaf` on the leaves of a node, and what the caller does with the leaf that it returns.
unfoldable pub change_leaf : ℕ → ℕ → (Leaf → Leaf) → List Leaf → List Leaf
change_leaf x y f [] = f (new_leaf x y) ∷ []
change_leaf x y f (l ∷ leaves) =
    let rest = change_leaf x y f leaves in if is_at x y l then f l ∷ leaves else l ∷ rest

unfoldable pub create_leaf : ℕ → ℕ → (Leaf → Leaf) → Nodes → Nodes
unfolding change_leaf
create_leaf x y f nodes i j =
    let x' = x / floor_size in
    let y' = y / floor_size in
    if (i == (x' % 1024)) && (j == (y' % 1024)) then change_leaf x' y' f (nodes i j) else nodes i j

-- A floor that is there, or a new one.
abbrev pub floor_or_new : Option Floor → Floor
floor_or_new none = λ x y. none
floor_or_new (some floor) = floor

-- `createFloor`, and what the caller does with the floor.
unfoldable pub create_floor : ℕ → (Floor → Floor) → Leaf → Leaf
create_floor z f l = record l {
  floors = λ k. if k == z then some (f (floor_or_new (l.floors z))) else l.floors k;
}

abbrev pub tile_of : ℕ → ℕ → Option Floor → Option Contents
tile_of x y none = none
tile_of x y (some floor) = floor (x % floor_size) (y % floor_size)

abbrev pub floor_of : ℕ → Option Leaf → Option Floor
floor_of z none = none
floor_of z (some l) = l.floors z

-- `getTile`.
unfoldable pub get_tile : ℕ → ℕ → ℕ → Nodes → Option Contents
unfolding get_leaf
get_tile x y z nodes =
    if leb map_max_layers z then none else tile_of x y (floor_of z (get_leaf x y nodes))

-- The items from `rbegin` on are added to a tile.
unfoldable pub add_reversed : List Item → Contents → Contents
unfolding add_thing
add_reversed [] t = t
add_reversed (i ∷ items) t = add_thing (item i) (add_reversed items t)

abbrev pub add_ground : Option Item → Contents → Contents
add_ground none t = t
add_ground (some g) t = add_thing (item g) t

-- A new tile at a place: where there is a tile it gets the new one's items and ground.
unfoldable pub place : Option Contents → Contents → Contents
unfolding add_reversed
place none new_tile = new_tile
place (some t) new_tile = add_ground new_tile.ground (add_reversed new_tile.items t)

-- `tile = ...` in the array of the floor.
unfoldable pub put_tile : ℕ → ℕ → Contents → Floor → Floor
unfolding place
put_tile x y new_tile floor i j =
    if (i == (x % floor_size)) && (j == (y % floor_size))
    then some (place (floor i j) new_tile)
    else floor i j

-- `setTile`.
unfoldable pub set_tile : ℕ → ℕ → ℕ → Contents → Nodes → Nodes
unfolding create_leaf create_floor put_tile
set_tile x y z new_tile nodes =
    if leb map_max_layers z
    then nodes
    else create_leaf x y (create_floor z (put_tile x y new_tile)) nodes
