-- ===== src/Tests/Stacks.antt =====
-- Runs of what puts things on a tile and takes them away.
use mathlib.Core.Option
use otx_teste.Common.{ℕ, ◌≡◌, refl, true, false, none, some, [], ◌∷◌}
use otx_teste.Common.Sets.{mem}
use otx_teste.ReturnValue.{notmoveable}
use otx_teste.Tile.Contents.{
  Item, Contents, creature, item, address, find, find_creature, erase_item, first, index_behind,
  index_from, get_thing_index, get_thing, set_count, remove_top, remove_down, remove_item,
  remove_thing, insert_top, drop_splash, add_top, replace_field, add_down, add_thing, query_remove,
}
use otx_teste.Tile.Kept.{IsStacked}
use otx_teste.Tile.Reached.{IsReached, bare, item_added, removed, IsReached-IsStacked}
use otx_teste.Tile.Index.{get_thing-get_thing_index}

abbrev plain : ℕ → Item
plain thing = record {
  thing = thing;
  count = 1;
  ground_tile = false;
  always_on_top = false;
  always_on_top_order = 0;
  splash = false;
  magic_field = false;
  field = none;
  stackable = false;
  moveable = true;
}

abbrev grass : Item
grass = record (plain 1) { ground_tile = true; moveable = false }

-- A pool of blood, another one, and a border.
abbrev blood : Item
blood = record (plain 2) { always_on_top = true; always_on_top_order = 2; splash = true }

abbrev slime : Item
slime = record (plain 3) { always_on_top = true; always_on_top_order = 2; splash = true }

abbrev border : Item
border = record (plain 4) { always_on_top = true; always_on_top_order = 1 }

abbrev fire : Item
fire = record (plain 5) { magic_field = true; field = some true }

abbrev poison : Item
poison = record (plain 6) { magic_field = true; field = some false }

abbrev empty : Contents
empty = record { ground = none; items = []; down_item_count = 0; creatures = [] }

-- Ground, a splash, a border, a field, a rat, a second splash and a second field.
abbrev busy : Contents
busy = add_thing (item poison) (
    add_thing (item slime) (
      add_thing (creature 77) (
        add_thing (item fire)
          (add_thing (item border) (add_thing (item blood) (add_thing (item grass) empty))))))

busy_is : busy ≡ record {
  ground = some grass;
  items = poison ∷ border ∷ slime ∷ [];
  down_item_count = 1;
  creatures = 77 ∷ [];
}
unfolding add_thing add_top add_down drop_splash replace_field first insert_top remove_item
    remove_top remove_down get_thing_index index_from index_behind find find_creature erase_item
    set_count
busy_is = refl

remove_thing_test : remove_thing (item poison) 1 busy ≡ record {
  ground = some grass;
  items = border ∷ slime ∷ [];
  down_item_count = 0;
  creatures = 77 ∷ [];
}
unfolding remove_thing add_thing add_top add_down drop_splash replace_field first insert_top
    remove_item remove_top remove_down get_thing_index index_from index_behind find find_creature
    erase_item set_count
remove_thing_test = refl

query_remove_test : query_remove (item grass) 1 false busy ≡ notmoveable
unfolding query_remove add_thing add_top add_down drop_splash replace_field first insert_top
    remove_item remove_top remove_down get_thing_index index_from index_behind find find_creature
    erase_item set_count
query_remove_test = refl

poison_index :
    get_thing_index (item poison) (record {
      ground = some grass;
      items = poison ∷ border ∷ slime ∷ [];
      down_item_count = 1;
      creatures = 77 ∷ [];
    })
    ≡ some 4
unfolding get_thing_index index_from index_behind find
poison_index = refl

get_thing-get_thing_index_example :
    Option.map address (
      get_thing 4 (record {
        ground = some grass;
        items = poison ∷ border ∷ slime ∷ [];
        down_item_count = 1;
        creatures = 77 ∷ [];
      }))
    ≡ some 6
get_thing-get_thing_index_example =
    get_thing-get_thing_index
      (record {
        ground = some grass;
        items = poison ∷ border ∷ slime ∷ [];
        down_item_count = 1;
        creatures = 77 ∷ [];
      })
      (item poison) 4 poison_index

abbrev stained : Contents
stained =
    remove_thing (item blood) 1
      (add_thing (item slime) (add_thing (item blood) (add_thing (item grass) empty)))

stained_reached : IsReached stained
unfolding add_thing add_top drop_splash first insert_top remove_item remove_top get_thing_index
    index_from index_behind find erase_item mem
stained_reached = removed (item blood) 1 (
    item_added slime (record { no_ground = refl; no_top = refl; no_down = refl }) (refl, refl)
      (item_added blood (record { no_ground = refl; no_top = refl; no_down = refl }) (refl, refl)
        (item_added grass (record { no_ground = refl; no_top = refl; no_down = refl }) (refl, refl)
          bare)))

IsReached-IsStacked_example : IsStacked stained
IsReached-IsStacked_example = IsReached-IsStacked stained stained_reached
