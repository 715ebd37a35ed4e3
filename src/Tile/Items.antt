-- ===== src/Tile/Items.antt =====
-- `Tile::queryAdd` of engine/src/tile.cpp: whether an item may come onto a tile.
use otx_teste.Common.{Bool, not, ◌&&◌, ◌||◌, leb, length, if◌then◌else◌}
use otx_teste.ReturnValue.{ReturnValue, noerror, notpossible, notenoughroom, needexchange}
use otx_teste.Tile.{Flags, TileItem, Tile, Item, any, is_visible, ground_holds, is_null}

-- The item may not lie on the given one.
unfoldable pub refuses : Item → TileItem → Bool
refuses i on =
    on.block_solid
    && (not on.allow_pickupable || i.is_magic_field || i.is_blocking)
    && (not i.is_pickupable || (not on.has_height || on.pickupable || on.is_bed))

-- `queryAdd` for an item, after its first tests.
unfoldable pub place_item : Flags → Item → Tile → ReturnValue
unfolding refuses
place_item f i t =
    if i.is_blocking && not f.ignoreblockcreature && any is_visible t.creatures
    then notenoughroom
    else if i.is_hangable && t.flags.supports_hangable
    then (if any (λ o. o.is_hangable) t.items then needexchange else noerror)
    else if ground_holds (refuses i) t.ground || any (refuses i) t.items
    then notenoughroom
    else noerror

-- `queryAdd` for an item.
unfoldable pub query_add_item : Flags → Item → Tile → ReturnValue
unfolding place_item
query_add_item f i t =
    if leb 1000 (length t.items)
    then notpossible
    else if f.nolimit
    then noerror
    else if is_null t.ground && not i.is_hangable
    then notpossible
    else place_item f i t
