-- ===== src/Tests/Containers.antt =====
-- Runs of the rules for putting an item into a container.
use otx_teste.Common.{◌≡◌, refl, true, false, not, ◌&&◌, [], ◌∷◌, none, some, leb}
use otx_teste.Common.Sets.{mem}
use otx_teste.ReturnValue.{noerror, thisisimpossible}
use otx_teste.Container.{Limits, Flags, Item, Container, query_add}
use otx_teste.Container.Nesting.{things, query_add-apart}

abbrev limits : Limits
limits = record { max_item = 5000; max_container = 500 }

abbrev flags : Flags
flags = record { childisowner = false; nolimit = false; whereever = true }

-- A bag in a backpack, and the backpack as an item.
abbrev bag : Container
bag = record {
  this = 1;
  unlocked = true;
  has_pagination = false;
  is_quiver = false;
  size = 3;
  capacity = 8;
  parents = record { thing = 2; is_inbox = false } ∷ [];
  top_container = some (record { containers = 1; items = 10 });
  top_answer = some noerror;
}

abbrev coin : Item
coin = record { thing = 7; is_pickupable = true; is_ammo = false; container = none }

abbrev backpack : Item
backpack = record {
  thing = 2;
  is_pickupable = true;
  is_ammo = false;
  container = some (record { containers = 1; items = 10 });
}

into_itself : query_add limits flags (some backpack) bag ≡ thisisimpossible
unfolding query_add
into_itself = refl

query_add-apart_example :
    ((coin.is_pickupable ≡ true) × (mem coin.thing (bag.this ∷ things bag.parents) ≡ false))
    × (not flags.nolimit && (flags.whereever && leb bag.capacity bag.size && not bag.has_pagination)
        ≡ false)
unfolding query_add
query_add-apart_example = query_add-apart limits flags coin bag refl refl
