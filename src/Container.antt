-- ===== src/Container.antt =====
-- `Container::queryAdd` of engine/src/container.cpp: whether an item may be put into a container. The
-- objects are numbers, and what the function asks of them is given with them.
pub mod Nesting
pub mod Weights
use otx_teste.Common.{
  ℕ, ◌+◌, ◌%◌, ◌^◌, Bool, true, false, not, ◌&&◌, List, [], ◌∷◌, Option, none, some, ltb, leb, ◌==◌,
  if◌then◌else◌,
}
use otx_teste.ReturnValue.{
  or_else, ReturnValue, noerror, notpossible, cannotpickup, thisisimpossible,
  containernotenoughroom, onlyammoinquiver,
}

-- The containers and the items that a container holds, at any depth.
pub record Holding : Type 0 where
  pub containers : ℕ
  pub items : ℕ

-- A cylinder that holds the container.
pub record Cylinder : Type 0 where
  pub thing : ℕ
  pub is_inbox : Bool

-- `parents` are the cylinders around the container, from the inside out; `top_container` is the
-- holding of `getTopParentContainer`, and `top_answer` what `getTopParent()->queryAdd` answers, where
-- that is not the container itself.
pub record Container : Type 0 where
  pub this : ℕ
  pub unlocked : Bool
  pub has_pagination : Bool
  pub is_quiver : Bool
  pub size : ℕ
  pub capacity : ℕ
  pub parents : List Cylinder
  pub top_container : Option Holding
  pub top_answer : Option ReturnValue

-- The item, and its holding if it is a container.
pub record Item : Type 0 where
  pub thing : ℕ
  pub is_pickupable : Bool
  pub is_ammo : Bool
  pub container : Option Holding

-- FLAG_CHILDISOWNER, FLAG_NOLIMIT, and whether the index is INDEX_WHEREEVER.
pub record Flags : Type 0 where
  pub childisowner : Bool
  pub nolimit : Bool
  pub whereever : Bool

-- The settings MAX_ITEM and MAX_CONTAINER.
pub record Limits : Type 0 where
  pub max_item : ℕ
  pub max_container : ℕ

-- The loop over the parents without FLAG_NOLIMIT.
unfoldable pub walk_limited : ℕ → List Cylinder → ReturnValue
walk_limited thing [] = noerror
walk_limited thing (c ∷ cs) =
    let rest = walk_limited thing cs in
    if c.thing == thing
    then thisisimpossible
    else if c.is_inbox
    then containernotenoughroom
    else rest

-- The loop with FLAG_NOLIMIT.
unfoldable pub walk_unlimited : ℕ → List Cylinder → ReturnValue
walk_unlimited thing [] = noerror
walk_unlimited thing (c ∷ cs) =
    let rest = walk_unlimited thing cs in if c.thing == thing then thisisimpossible else rest

-- The walk, and the room.
unfoldable pub nesting_stops : Flags → Item → Container → ReturnValue
unfolding walk_limited walk_unlimited
nesting_stops f i c =
    if not f.nolimit
    then or_else (walk_limited i.thing c.parents) (
        if f.whereever && leb c.capacity c.size && not c.has_pagination
        then containernotenoughroom
        else noerror)
    else walk_unlimited i.thing c.parents

-- An item that is a container has too much in it for the top container.
unfoldable pub load_stops : Limits → Holding → Option Holding → Bool
load_stops l top none = false
load_stops l top (some inner) =
    if ltb l.max_container (((inner.containers + 1) % 2 ^ 32 + top.containers) % 2 ^ 32)
    then true
    else ltb l.max_item (((inner.items + 1) % 2 ^ 32 + top.items) % 2 ^ 32)

-- The part on the top container.
unfoldable pub limits_stop : Limits → Item → Option Holding → ReturnValue
unfolding load_stops
limits_stop l i none = noerror
limits_stop l i (some top) =
    if load_stops l top i.container
    then notpossible
    else if ltb l.max_item ((top.items + 1) % 2 ^ 32)
    then notpossible
    else noerror

-- The end: the quiver, and the answer of the top parent.
unfoldable pub ask_top : Item → Container → ReturnValue
ask_top i c =
    if c.is_quiver && not i.is_ammo
    then onlyammoinquiver
    else elim c.top_answer [ none ↦ noerror | some r ↦ r ]

-- `queryAdd` after the thing is known to be an item.
unfoldable pub query_add_item : Limits → Flags → Item → Container → ReturnValue
unfolding nesting_stops limits_stop ask_top
query_add_item l f i c =
    if not i.is_pickupable
    then cannotpickup
    else if i.thing == c.this
    then thisisimpossible
    else or_else (nesting_stops f i c) (or_else (limits_stop l i c.top_container) (ask_top i c))

-- `queryAdd`; a thing that is no item is `none`.
unfoldable pub query_add : Limits → Flags → Option Item → Container → ReturnValue
unfolding query_add_item
query_add l f thing c =
    if f.childisowner
    then noerror
    else if not c.unlocked
    then notpossible
    else elim thing [ none ↦ notpossible | some i ↦ query_add_item l f i c ]
