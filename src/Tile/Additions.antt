-- ===== src/Tile/Additions.antt =====
-- engine/src/tile.cpp: a tile with one thing more, in the cases of `addThing`.
use otx_teste.Common.{
  ◌+◌, ◌%◌, ◌^◌, ◌≤◌, ◌<◌, ◌≡◌, ap, true, false, ◌&&◌, Option, none, some, List, ◌∷◌, arith, length,
  take-append-drop,
}
use otx_teste.Common.Sets.{mem}
use otx_teste.Tile.Contents.{
  Item, Contents, top_items, down_items, with_top_items, is_some, insert_top, is_ground, push_down,
}
use otx_teste.Tile.Stack.{
  one_if, count, mem-insert_top, insert_top-Distinct, insert_top-Tops, count-insert_top,
  length-insert_top,
}
use otx_teste.Tile.Kept.{
  GroundApart, splashes, fields, IsStacked, tile, tile-IsStacked, length-down_items,
  length-top_items,
}
use otx_teste.Tile.Changes.{has}

-- The object is neither the ground nor among the items.
pub record IsFresh (i : Item) (t : Contents) : Type 0 where
  pub no_ground : is_ground i t.ground ≡ false
  pub no_top : has i.thing (top_items t) ≡ false
  pub no_down : has i.thing (down_items t) ≡ false

-- A magic field by its type is one by its class, and cannot be stacked.
abbrev pub IsOfType : Item → Type 0
IsOfType i = (i.magic_field ≡ is_some i.field) × ((is_some i.field && i.stackable) ≡ false)

apart_added :
    (i : Item) (g : Option Item) (tops downs : List Item)
    → is_ground i g ≡ false
    → GroundApart g tops downs
    → GroundApart g (insert_top i tops) downs × GroundApart g tops (i ∷ downs)
unfolding mem
apart_added i none tops downs h a = (tt, tt)
apart_added i (some g) tops downs h a =
    (ground (arith, a.0, a.1, mem-insert_top g.thing i tops), ground (arith, a.0, a.1))

module _ (t : Contents) (s : IsStacked t) (i : Item) (fresh : IsFresh i t)
    (room : length t.items < 0xFFFF) where
  pub replace_ground-IsStacked : IsStacked (record t { ground = some i })
  replace_ground-IsStacked =
      let o = s.ordered in
      record {
        bound = s.bound;
        small = s.small;
        ordered = record {
          tops_top = o.tops_top;
          downs_down = o.downs_down;
          distinct_tops = o.distinct_tops;
          distinct_downs = o.distinct_downs;
          ground_apart = (fresh.no_top, fresh.no_down);
          one_splash = o.one_splash;
          one_field = o.one_field;
        };
      }

  pub insert_top-IsStacked :
      i.always_on_top ≡ true
      → one_if i.splash + splashes (top_items t) ≤ 1
      → IsStacked (with_top_items (insert_top i (top_items t)) t)
  insert_top-IsStacked top one =
      let tops = top_items t in
      let o = s.ordered in
      tile-IsStacked t.ground (insert_top i tops) (down_items t) t.down_item_count t.creatures
        (length-down_items t s)
        (omega (arith, room, length-top_items t s, length-insert_top i tops))
        (record {
          tops_top = insert_top-Tops i tops top o.tops_top;
          downs_down = o.downs_down;
          distinct_tops = insert_top-Distinct i tops fresh.no_top o.distinct_tops;
          distinct_downs = o.distinct_downs;
          ground_apart =
              (apart_added i t.ground tops (down_items t) fresh.no_ground o.ground_apart).0;
          one_splash = omega (arith, one, count-insert_top (λ j. j.splash) i tops);
          one_field = o.one_field;
        })

  pub push_down-IsStacked :
      i.always_on_top ≡ false
      → IsOfType i
      → one_if (is_some i.field) + fields (down_items t) ≤ 1
      → IsStacked (push_down i t)
  push_down-IsStacked down type one =
      let o = s.ordered in
      let whole = take-append-drop t.down_item_count t.items in
      let same : tile t.ground (top_items t) (i ∷ down_items t) ((t.down_item_count + 1) % 2 ^ 32)
            t.creatures
          ≡ push_down i t =
        ap
          (λ items. record t {
            items = i ∷ items;
            down_item_count = (t.down_item_count + 1) % 2 ^ 32;
          })
          whole in
      rw (← same) (
        tile-IsStacked t.ground (top_items t) (i ∷ down_items t) ((t.down_item_count + 1) % 2 ^ 32)
          t.creatures (omega (arith, length-down_items t s, s.bound, room))
          (omega (arith, room, length-top_items t s))
          (record {
            tops_top = o.tops_top;
            downs_down = ((down, type.1), o.downs_down);
            distinct_tops = o.distinct_tops;
            distinct_downs = (fresh.no_down, o.distinct_downs);
            ground_apart =
                (apart_added i t.ground (top_items t) (down_items t) fresh.no_ground
                  o.ground_apart).1;
            one_splash = o.one_splash;
            one_field = unfold count in one;
          }))
