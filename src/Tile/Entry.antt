-- ===== src/Tile/Entry.antt =====
-- Who may come onto a tile, as `Tile::queryAdd` of engine/src/tile.cpp answers.
use mathlib.Core.Option.{some-injective}
use otx_teste.Common.{
  ◌≡◌, ◌⊎◌, Bool, true, false, not, ◌&&◌, ◌||◌, List, Option, none, some, is_empty, arith,
  Bool-cases, inl, inr,
}
use otx_teste.ReturnValue.{or_else-noerror, noerror}
use otx_teste.Tile.{
  Flags, Occupant, MagicField, Tile, Monster, monster, any, is_visible, resists_push, crowd_stops,
  field_stops, terrain_stops, query_add_monster, is_null, query_add_mover, query_add_creature,
}

-- What a tile must be like for a monster to come onto it.
pub record MayEnter (f : Flags) (m : Monster) (t : Tile) : Type 0 where
  pub zone :
      (m.is_pet ≡ true)
      ⊎ ((t.flags.protectionzone ≡ false)
          × (t.flags.floorchange ≡ false)
          × (t.flags.teleport ≡ false))
  pub solid : t.flags.immovableblocksolid ≡ false
  pub free :
      (is_empty t.creatures ≡ true)
      ⊎ ((m.is_pet ≡ false)
          × ((any is_visible t.creatures ≡ false)
              ⊎ ((m.can_push_creatures ≡ true) × (any resists_push t.creatures ≡ false))))
  pub safe :
      (field : MagicField)
      → t.field_item ≡ some field
      → f.ignorefielddamage ≡ false
      → (field.is_blocking ≡ true)
        ⊎ ((field.has_damage ≡ false) ⊎ (m.is_immune field.combat_type ≡ true))

crowd_stops-noerror :
    (m : Monster) (creatures : List Occupant)
    → crowd_stops m creatures ≡ noerror
    → (is_empty creatures ≡ true)
      ⊎ ((m.is_pet ≡ false)
          × ((any is_visible creatures ≡ false)
              ⊎ ((m.can_push_creatures ≡ true) × (any resists_push creatures ≡ false))))
unfolding crowd_stops
crowd_stops-noerror m creatures h = ground arith

terrain_stops-noerror :
    (f : Flags) (m : Monster) (t : Tile)
    → terrain_stops f m t ≡ noerror
    → (t.flags.immovableblocksolid ≡ false) × (field_stops f m t.field_item ≡ false)
unfolding terrain_stops
terrain_stops-noerror f m t h = ground arith

field_stops-false :
    (f : Flags) (m : Monster) (o : Option MagicField) (field : MagicField)
    → field_stops f m o ≡ false
    → o ≡ some field
    → f.ignorefielddamage ≡ false
    → (field.is_blocking ≡ true)
      ⊎ ((field.has_damage ≡ false) ⊎ (m.is_immune field.combat_type ≡ true))
unfolding field_stops
field_stops-false f m none field h e strict = cc
field_stops-false f m (some g) field h e strict =
    let same : g ≡ field = some-injective _ _ e in let h' = rw same at h in ground arith

query_add_monster-MayEnter :
    (f : Flags) (m : Monster) (t : Tile) → query_add_monster f m t ≡ noerror → MayEnter f m t
unfolding query_add_monster
query_add_monster-MayEnter f m t h =
    elim (Bool-cases
      ((t.flags.protectionzone || t.flags.floorchange || t.flags.teleport) && not m.is_pet)) [
        | inl out ↦ absurd (let e = rw out at h in cc)
        | inr inside ↦
            let (c, r) =
              or_else-noerror (crowd_stops m t.creatures) (terrain_stops f m t) (rw inside at h) in
            let (solid, field) = terrain_stops-noerror f m t r in
            record {
              zone = ground arith;
              solid = solid;
              free = crowd_stops-noerror m t.creatures c;
              safe = λ g e strict. field_stops-false f m t.field_item g field e strict;
            }
      ]

-- A monster that `queryAdd` lets onto a tile, without FLAG_NOLIMIT, may move, and finds ground; a
-- monster that is no pet does not come onto a protection zone, a change of floor or a teleport;
-- nothing immovable blocks the tile; no creature is there, or the monster is no pet, and either
-- everyone there is in ghost mode, or it pushes creatures and nobody there but players in ghost mode
-- resists that; and without FLAG_IGNOREFIELDDAMAGE, a field on it that does damage is blocking or of
-- a kind the monster is immune to.
pub query_add_creature-MayEnter :
    (f : Flags) (m : Monster) (is_move_locked : Bool) (t : Tile)
    → f.nolimit ≡ false
    → query_add_creature f (monster m) is_move_locked t ≡ noerror
    → ((is_move_locked ≡ false) × (is_null t.ground ≡ false)) × MayEnter f m t
unfolding query_add_creature query_add_mover
query_add_creature-MayEnter f m l t limit h =
    elim (Bool-cases (f.pathfinding && (t.flags.floorchange || t.flags.teleport))) [
      | inl away ↦ absurd (let e = rw (limit, away) at h in cc)
      | inr near ↦ elim (Bool-cases (l || is_null t.ground)) [
        | inl stuck ↦ absurd (let e = rw (limit, near, stuck) at h in cc)
        | inr able ↦ (ground arith, query_add_monster-MayEnter f m t (rw (limit, near, able) at h))
      ]
    ]
