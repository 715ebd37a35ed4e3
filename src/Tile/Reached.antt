-- ===== src/Tile/Reached.antt =====
-- engine/src/tile.cpp: all that `addThing` and `removeThing` can come to.
use otx_teste.Common.{
  ℕ, ◌-◌, ◌≤◌, ◌<◌, ◌≡◌, refl, sym, ◌∙◌, Bool, true, false, Option, none, some, List, [], arith,
  leb, if_either, length, Bool-cases, inl, inr, length-append, take-append, drop-append,
}
use otx_teste.Tile.Contents.{
  Item, Thing, Contents, creature, item, top_items, down_items, is_some, erase_item, first,
  remove_item, remove_thing, drop_splash, add_top, push_down, is_replaceable, replace_field,
  add_down, add_thing,
}
use otx_teste.Tile.Stack.{
  one_if, count, mem-erase_item, mem-first, count-erase_first, count-no_first, first-Tops,
  first-Downs, length-erase_item,
}
use otx_teste.Tile.Kept.{
  splashes, fields, IsStacked, tile, tile-IsStacked, length-down_items, length-top_items,
}
use otx_teste.Tile.Changes.{
  erase_top-IsStacked, erase_down-IsStacked, remove_item-IsStacked, remove_item-top,
  remove_item-down,
}
use otx_teste.Tile.Additions.{
  IsFresh, IsOfType, replace_ground-IsStacked, insert_top-IsStacked, push_down-IsStacked,
}

module _ (g : Option Item) (tops downs : List Item) (n : ℕ) (cs : List ℕ)
    (e : length downs ≡ n) where
  top_items-tile : top_items (tile g tops downs n cs) ≡ tops
  top_items-tile = rw (← e) (drop-append downs tops)

  down_items-tile : down_items (tile g tops downs n cs) ≡ downs
  down_items-tile = rw (← e) (take-append downs tops)

one_if_bound : (b : Bool) → one_if b ≤ 1
one_if_bound true = omega arith
one_if_bound false = omega arith

one_if-none : (b : Bool) → b ≡ false → one_if b ≡ 0
one_if-none b e = rw e refl

-- The old item of a kind is gone, and there is still room for the new one.
record IsCleared (i : Item) (kind : Contents → ℕ) (t : Contents) : Type 0 where
  stacked : IsStacked t
  fresh : IsFresh i t
  room : length t.items < 0xFFFF
  gone : kind t ≡ 0

abbrev splashes_of : Contents → ℕ
splashes_of t = splashes (top_items t)

abbrev fields_of : Contents → ℕ
fields_of t = fields (down_items t)

module _ (t : Contents) (s : IsStacked t) (i : Item) (fresh : IsFresh i t)
    (room : length t.items < 0xFFFF) where
  drop_splash-IsCleared :
      (o : Option Item)
      → first (λ j. j.splash) (top_items t) ≡ o
      → IsCleared i splashes_of (drop_splash o t)
  unfolding drop_splash
  drop_splash-IsCleared none e = record {
    stacked = s;
    fresh = fresh;
    room = room;
    gone = count-no_first (λ j. j.splash) (top_items t) e;
  }
  drop_splash-IsCleared (some old) e =
      let tops = top_items t in
      let there = mem-first (λ j. j.splash) old tops e in
      let top = first-Tops (λ j. j.splash) old tops s.ordered.tops_top e in
      let view =
        top_items-tile t.ground (erase_item old.thing tops) (down_items t) t.down_item_count
          t.creatures (length-down_items t s) in
      let view' =
        down_items-tile t.ground (erase_item old.thing tops) (down_items t) t.down_item_count
          t.creatures (length-down_items t s) in
      let less = count-erase_first (λ j. j.splash) old tops s.ordered.distinct_tops e in
      rw (remove_item-top t s old top there) (record {
        stacked = erase_top-IsStacked t s old.thing;
        fresh = record {
          no_ground = fresh.no_ground;
          no_top = rw view (mem-erase_item old.thing i.thing tops fresh.no_top);
          no_down = rw view' fresh.no_down;
        };
        room = omega (
          arith,
          length-append (down_items t) (erase_item old.thing tops),
          length-erase_item old.thing tops,
          length-top_items t s,
          room,
        );
        gone = rw view (omega (arith, less, s.ordered.one_splash));
      })

  add_top-IsStacked : i.always_on_top ≡ true → IsStacked (add_top i t)
  unfolding add_top
  add_top-IsStacked top =
      let o = first (λ j. j.splash) (top_items t) in
      elim (Bool-cases i.splash) [
        | inl e ↦
            let c = drop_splash-IsCleared o refl in
            simp e (
              insert_top-IsStacked (drop_splash o t) c.stacked i c.fresh c.room top
                (omega (arith, c.gone, one_if_bound i.splash)))
        | inr e ↦ simp e (
            insert_top-IsStacked t s i fresh room top
              (omega (arith, one_if-none i.splash e, s.ordered.one_splash)))
      ]

  old_field-IsCleared :
      (old : Item)
      → first (λ j. is_some j.field) (down_items t) ≡ some old
      → IsCleared i fields_of (remove_item old 1 t)
  old_field-IsCleared old e =
      let downs = down_items t in
      let there = mem-first (λ j. is_some j.field) old downs e in
      let kept = first-Downs (λ j. is_some j.field) old downs s.ordered.downs_down e in
      let single : old.stackable ≡ false = ground (arith, kept) in
      let shorter : length (erase_item old.thing downs) ≡ t.down_item_count - 1 =
        (rw there at (length-erase_item old.thing downs)) ∙ (rw (length-down_items t s) refl) in
      let view =
        top_items-tile t.ground (top_items t) (erase_item old.thing downs) (t.down_item_count - 1)
          t.creatures shorter in
      let view' =
        down_items-tile t.ground (top_items t) (erase_item old.thing downs) (t.down_item_count - 1)
          t.creatures shorter in
      let less = count-erase_first (λ j. is_some j.field) old downs s.ordered.distinct_downs e in
      rw (remove_item-down t s old kept.0.0 single there) (record {
        stacked = erase_down-IsStacked t s old.thing there;
        fresh = record {
          no_ground = fresh.no_ground;
          no_top = rw view fresh.no_top;
          no_down = rw view' (mem-erase_item old.thing i.thing downs fresh.no_down);
        };
        room = omega (
          arith,
          length-append (erase_item old.thing downs) (top_items t),
          shorter,
          length-down_items t s,
          length-top_items t s,
          room,
        );
        gone = rw view' (omega (arith, less, s.ordered.one_field));
      })

  replace_field-IsStacked :
      i.always_on_top ≡ false
      → IsOfType i
      → (o : Option Item) → first (λ j. is_some j.field) (down_items t) ≡ o
      → IsStacked (replace_field i o t)
  unfolding replace_field
  replace_field-IsStacked down type none e = push_down-IsStacked t s i fresh room down type (
      omega (
        arith,
        count-no_first (λ j. is_some j.field) (down_items t) e,
        one_if_bound (is_some i.field),
      ))
  replace_field-IsStacked down type (some old) e =
      if_either IsStacked (is_replaceable old.field) {x = push_down i (remove_item old 1 t)} {y = t}
        (λ r.
          let c = old_field-IsCleared old e in
          push_down-IsStacked (remove_item old 1 t) c.stacked i c.fresh c.room down type
            (omega (arith, c.gone, one_if_bound (is_some i.field))))
        (λ r. s)

  add_down-IsStacked : i.always_on_top ≡ false → IsOfType i → IsStacked (add_down i t)
  unfolding add_down
  add_down-IsStacked down type =
      if_either IsStacked i.magic_field
        (λ e. replace_field-IsStacked down type (first (λ j. is_some j.field) (down_items t)) refl)
        (λ e.
          push_down-IsStacked t s i fresh room down type
            (omega (arith, one_if-none (is_some i.field) (sym type.0 ∙ e), s.ordered.one_field)))

add_item-IsStacked :
    (t : Contents) (i : Item)
    → IsStacked t
    → IsFresh i t
    → IsOfType i
    → IsStacked (add_thing (item i) t)
unfolding add_thing
add_item-IsStacked t i s fresh type =
    if_either IsStacked (leb 0xFFFF (length t.items)) {x = t} (λ e. s)
      (λ e.
        let room : length t.items < 0xFFFF = ground (arith, e) in
        if_either IsStacked i.ground_tile {x = record t { ground = some i }}
          (λ f. replace_ground-IsStacked t s i fresh room)
          (λ f.
            if_either IsStacked i.always_on_top {x = add_top i t} {y = add_down i t}
              (λ h. add_top-IsStacked t s i fresh room h)
              (λ h. add_down-IsStacked t s i fresh room h type)))

-- A tile after any calls of `addThing`, each with an object that is not there yet, and of
-- `removeThing`, with any object and any count.
pub data IsReached : Contents → Type 0 where
  bare : IsReached (record { ground = none; items = []; down_item_count = 0; creatures = [] })
  creature_added : {t : Contents} (c : ℕ) → IsReached t → IsReached (add_thing (creature c) t)
  item_added :
      {t : Contents} (i : Item)
      → IsFresh i t
      → IsOfType i
      → IsReached t
      → IsReached (add_thing (item i) t)
  removed :
      {t : Contents} (thing : Thing) (n : ℕ) → IsReached t → IsReached (remove_thing thing n t)

-- Whatever `addThing` and `removeThing` have done to a tile that began empty, each item added being
-- new to it, a magic field by its type exactly when it is one by its class, and then not stackable:
-- the items are its down items followed by its top items, as the count says, no more than 65535; the
-- top items are in ascending order; no object lies there twice, neither as the ground nor among the
-- items; among the top items there is at most one splash, and among the down items at most one magic
-- field.
pub IsReached-IsStacked : (t : Contents) → IsReached t → IsStacked t
unfolding add_thing remove_thing
IsReached-IsStacked _ bare = tile-IsStacked none [] [] 0 [] refl (omega arith) (record {
  tops_top = tt;
  downs_down = tt;
  distinct_tops = tt;
  distinct_downs = tt;
  ground_apart = tt;
  one_splash = unfold count in omega arith;
  one_field = unfold count in omega arith;
})
IsReached-IsStacked _ (creature_added {t} c r) =
    let s = IsReached-IsStacked t r in
    record { bound = s.bound; small = s.small; ordered = s.ordered }
IsReached-IsStacked _ (item_added {t} i fresh type r) =
    add_item-IsStacked t i (IsReached-IsStacked t r) fresh type
IsReached-IsStacked _ (removed {t} (creature c) n r) =
    let s = IsReached-IsStacked t r in
    record { bound = s.bound; small = s.small; ordered = s.ordered }
IsReached-IsStacked _ (removed {t} (item i) n r) =
    remove_item-IsStacked t (IsReached-IsStacked t r) i n
