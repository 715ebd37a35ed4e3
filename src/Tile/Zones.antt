-- ===== src/Tile/Zones.antt =====
-- Players and items on tiles, as `Tile::queryAdd` of engine/src/tile.cpp answers.
use otx_teste.Common.{
  ◌<◌, ◌≡◌, ◌⊎◌, refl, Bool, true, false, not, ◌&&◌, ◌||◌, List, [], ◌∷◌, Option, none, some,
  length, arith, Bool-cases, inl, inr,
}
use otx_teste.ReturnValue.{or_else, or_else-noerror, ReturnValue, noerror}
use otx_teste.Tile.{
  Flags, TileFlags, TileItem, Tile, Player, Item, player, any, zones_stop, query_add_player,
  is_fixed, ground_holds, blocks_stop, is_null, query_add_mover, query_add_creature,
}
use otx_teste.Tile.Items.{refuses, place_item, query_add_item}

zones_stop-noerror :
    (from to : TileFlags)
    → zones_stop from to ≡ noerror
    → (from.pvpzone ≡ to.pvpzone)
      × ((from.nopvpzone ≡ true) ⊎ (to.nopvpzone ≡ false))
      × ((from.protectionzone ≡ true) ⊎ (to.protectionzone ≡ false))
unfolding zones_stop
zones_stop-noerror from to h = ground arith

player_zones :
    (f : Flags) (p : Player) (from : TileFlags) (t : Tile)
    → p.is_pz_locked ≡ true
    → p.tile_flags ≡ some from
    → query_add_player f p t ≡ noerror
    → zones_stop from t.flags ≡ noerror
unfolding query_add_player
player_zones f p from t locked on h =
    elim (Bool-cases (
      not f.ignoreblockcreature
      && not p.is_access_player
      && any (λ c. not (p.can_walkthrough c)) t.creatures)) [
        | inl crowd ↦ absurd (let e = rw crowd at h in cc)
        | inr clear ↦ elim (Bool-cases (not p.has_parent && t.flags.nologout)) [
          | inl login ↦ absurd (let e = rw (clear, login) at h in cc)
          | inr in_game ↦ rw (clear, in_game, locked, on) at h
        ]
      ]

-- A player who is pz-locked and whom `queryAdd` lets onto a tile, without FLAG_NOLIMIT, crosses no
-- border of a pvp zone, and comes from outside neither into a protection zone nor into a zone
-- without pvp.
pub query_add_creature-locked :
    (f : Flags) (p : Player) (from : TileFlags) (is_move_locked : Bool) (t : Tile)
    → f.nolimit ≡ false
    → p.is_pz_locked ≡ true
    → p.tile_flags ≡ some from
    → query_add_creature f (player p) is_move_locked t ≡ noerror
    → (from.pvpzone ≡ t.flags.pvpzone)
      × ((from.nopvpzone ≡ true) ⊎ (t.flags.nopvpzone ≡ false))
      × ((from.protectionzone ≡ true) ⊎ (t.flags.protectionzone ≡ false))
unfolding query_add_creature query_add_mover
query_add_creature-locked f p from l t limit locked on h =
    elim (Bool-cases (f.pathfinding && (t.flags.floorchange || t.flags.teleport))) [
      | inl away ↦ absurd (let e = rw (limit, away) at h in cc)
      | inr near ↦ elim (Bool-cases (l || is_null t.ground)) [
        | inl stuck ↦ absurd (let e = rw (limit, near, stuck) at h in cc)
        | inr able ↦ zones_stop-noerror from t.flags (
            player_zones f p from t locked on
              (or_else-noerror (query_add_player f p t) (blocks_stop f t)
                (rw (limit, near, able) at h)).0)
      ]
    ]

-- The flags of a tile say whether anything on it is solid.
pub record HasSolidFlag (t : Tile) : Type 0 where
  pub ground_solid : ground_holds (λ i. i.block_solid) t.ground && not t.flags.blocksolid ≡ false
  pub items_solid : any (λ i. i.block_solid) t.items && not t.flags.blocksolid ≡ false

any_fixed :
    (items : List TileItem) → any is_fixed items && not (any (λ i. i.block_solid) items) ≡ false
any_fixed [] = refl
any_fixed (i ∷ items) = ground (arith, any_fixed items)

ground_fixed :
    (g : Option TileItem)
    → ground_holds is_fixed g && not (ground_holds (λ i. i.block_solid) g) ≡ false
ground_fixed none = refl
ground_fixed (some g) = ground arith

both_noerror : {r rest : ReturnValue} → r ≡ noerror → rest ≡ noerror → or_else r rest ≡ noerror
both_noerror h k = rw (h, k) refl

blocks_stop-relaxed :
    (f : Flags) (t : Tile)
    → HasSolidFlag t
    → blocks_stop f t ≡ noerror
    → blocks_stop (record f { ignoreblockitem = true }) t ≡ noerror
unfolding blocks_stop
blocks_stop-relaxed f t s h =
    ground (arith, any_fixed t.items, ground_fixed t.ground, s.ground_solid, s.items_solid)

-- On a tile whose solid items and ground show in its flags, FLAG_IGNOREBLOCKITEM only relaxes the
-- rules for a player: who may come onto the tile without it may do so with it.
pub query_add_creature-relaxed :
    (f : Flags) (p : Player) (is_move_locked : Bool) (t : Tile)
    → HasSolidFlag t
    → query_add_creature f (player p) is_move_locked t ≡ noerror
    → query_add_creature (record f { ignoreblockitem = true }) (player p) is_move_locked t ≡ noerror
unfolding query_add_creature query_add_mover query_add_player
query_add_creature-relaxed f p l t s h = elim (Bool-cases f.nolimit) [
  | inl limit ↦ simp limit refl
  | inr bound ↦ elim (Bool-cases (f.pathfinding && (t.flags.floorchange || t.flags.teleport))) [
    | inl away ↦ absurd (let e = rw (bound, away) at h in cc)
    | inr near ↦ elim (Bool-cases (l || is_null t.ground)) [
      | inl stuck ↦ absurd (let e = rw (bound, near, stuck) at h in cc)
      | inr able ↦
          let (own, blocks) =
            or_else-noerror (query_add_player f p t) (blocks_stop f t)
              (rw (bound, near, able) at h) in
          simp (bound, near, able) (both_noerror own (blocks_stop-relaxed f t s blocks))
    ]
  ]
]

-- An item that `queryAdd` lets onto a tile finds fewer than a thousand items there, FLAG_NOLIMIT or
-- not; without that flag it finds ground or is hangable, and lies neither next to another hangable
-- item on a hook, nor on ground or items that refuse it.
pub query_add_item-place :
    (f : Flags) (i : Item) (t : Tile)
    → query_add_item f i t ≡ noerror
    → (length t.items < 1000)
      × ((f.nolimit ≡ true)
          ⊎ ((is_null t.ground && not i.is_hangable ≡ false)
              × (((i.is_hangable && t.flags.supports_hangable ≡ true)
                    × (any (λ o. o.is_hangable) t.items ≡ false))
                  ⊎ ((i.is_hangable && t.flags.supports_hangable ≡ false)
                      × (ground_holds (refuses i) t.ground || any (refuses i) t.items ≡ false)))))
unfolding query_add_item place_item
query_add_item-place f i t h = ground arith
