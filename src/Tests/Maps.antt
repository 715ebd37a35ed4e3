-- ===== src/Tests/Maps.antt =====
-- Runs of the map.
use otx_teste.Common.{
  ℕ, ◌≡◌, refl, true, false, not, ◌&&◌, none, some, List, [], ◌∷◌, leb, ◌==◌, if◌then◌else◌,
}
use otx_teste.Tile.Contents.{
  Contents, Item, add_thing, add_top, add_down, find, find_creature, erase_item, first,
  index_behind, index_from, get_thing_index, set_count, remove_top, remove_down, remove_item,
  insert_top, drop_splash, replace_field,
}
use otx_teste.Map.{
  Nodes, map_max_layers, find_leaf, get_leaf, change_leaf, create_leaf, create_floor, add_reversed,
  place, put_tile, get_tile, set_tile,
}
use otx_teste.Map.Places.{get_tile-set_tile}

abbrev chest : ℕ → Item
chest thing = record {
  thing = thing;
  count = 1;
  ground_tile = false;
  always_on_top = false;
  always_on_top_order = 0;
  splash = false;
  magic_field = false;
  field = none;
  stackable = false;
  moveable = true;
}

abbrev with_items : List Item → ℕ → Contents
with_items items n = record { ground = none; items = items; down_item_count = n; creatures = [] }

abbrev wild : Nodes
wild i j = []

-- Two tiles whose leaves share a node of the table.
abbrev town : Nodes
town =
    set_tile 8292 200 7 (with_items (chest 2 ∷ chest 3 ∷ []) 2)
      (set_tile 100 200 7 (with_items (chest 1 ∷ []) 1) wild)

get_tile_test : get_tile 100 200 7 town ≡ some (with_items (chest 1 ∷ []) 1)
unfolding get_tile set_tile get_leaf create_leaf find_leaf change_leaf create_floor put_tile place
get_tile_test = refl

-- A second tile at the same place: its items come before those that were there.
set_tile_test :
    get_tile 8292 200 7 (set_tile 8292 200 7 (with_items (chest 4 ∷ chest 5 ∷ []) 2) town)
    ≡ some (with_items (chest 4 ∷ chest 5 ∷ chest 2 ∷ chest 3 ∷ []) 4)
unfolding get_tile set_tile get_leaf create_leaf find_leaf change_leaf create_floor put_tile place
    add_reversed add_thing add_top add_down find find_creature erase_item first index_behind
    index_from get_thing_index set_count remove_top remove_down remove_item insert_top drop_splash
    replace_field
set_tile_test = refl

get_tile-set_tile_example : get_tile 100 200 7 (set_tile 8292 200 7 (with_items [] 0) town) ≡ (
    if ((100 == 8292) && (200 == 200)) && ((7 == 7) && not (leb map_max_layers 7))
    then some (place (get_tile 8292 200 7 town) (with_items [] 0))
    else get_tile 100 200 7 town)
get_tile-set_tile_example = get_tile-set_tile 8292 200 7 100 200 7 (with_items [] 0) town
