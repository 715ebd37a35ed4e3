-- ===== src/Tile/Kept.antt =====
-- engine/src/tile.cpp: `addThing` and `removeThing` keep the order of what lies on a tile.
use otx_teste.Common.{
  ℕ, ◌+◌, ◌≤◌, ◌≡◌, false, Option, none, some, List, ◌++◌, arith, length, length-take, length-drop,
  length-append, take-append, drop-append,
}
use otx_teste.Common.Sets.{mem, Distinct}
use otx_teste.Tile.Contents.{Item, Contents, top_items, down_items, is_some, erase_item, set_count}
use otx_teste.Tile.Stack.{
  things, count, Tops, Downs, mem-erase_item, erase_item-Distinct, erase_item-Tops,
  erase_item-Downs, count-erase_item, things-set_count, set_count-Downs, count-set_count,
}

-- The ground does not lie among the items.
abbrev pub GroundApart : Option Item → List Item → List Item → Type 0
GroundApart none tops downs = Unit {0}
GroundApart (some g) tops downs =
    (mem g.thing (things tops) ≡ false) × (mem g.thing (things downs) ≡ false)

abbrev pub splashes : List Item → ℕ
splashes = count (λ j. j.splash)

abbrev pub fields : List Item → ℕ
fields = count (λ j. is_some j.field)

pub record IsOrdered (ground : Option Item) (tops downs : List Item) : Type 0 where
  pub tops_top : Tops tops
  pub downs_down : Downs downs
  pub distinct_tops : Distinct (things tops)
  pub distinct_downs : Distinct (things downs)
  pub ground_apart : GroundApart ground tops downs
  pub one_splash : splashes tops ≤ 1
  pub one_field : fields downs ≤ 1

-- The count splits the items into down items and top items, in order, of which at most 65535.
pub record IsStacked (t : Contents) : Type 0 where
  pub bound : t.down_item_count ≤ length t.items
  pub small : length t.items ≤ 0xFFFF
  pub ordered : IsOrdered t.ground (top_items t) (down_items t)

abbrev pub tile : Option Item → List Item → List Item → ℕ → List ℕ → Contents
tile g tops downs n cs = record {
  ground = g;
  items = downs ++ tops;
  down_item_count = n;
  creatures = cs;
}

pub tile-IsStacked :
    (g : Option Item) (tops downs : List Item) (n : ℕ) (cs : List ℕ)
    → length downs ≡ n
    → length downs + length tops ≤ 0xFFFF
    → IsOrdered g tops downs
    → IsStacked (tile g tops downs n cs)
tile-IsStacked g tops downs n cs e small o = rw (← e) (record {
  bound = omega (arith, length-append downs tops);
  small = omega (arith, length-append downs tops);
  ordered = rw (take-append downs tops, drop-append downs tops) o;
})

module _ (t : Contents) (s : IsStacked t) where
  pub length-down_items : length (down_items t) ≡ t.down_item_count
  length-down_items = omega (arith, s.bound, length-take t.down_item_count t.items)

  pub length-top_items : length (down_items t) + length (top_items t) ≡ length t.items
  length-top_items =
      omega (arith, length-down_items, s.bound, length-drop t.down_item_count t.items)

pub apart_erased :
    (x : ℕ) (g : Option Item) (tops downs : List Item)
    → GroundApart g tops downs
    → GroundApart g (erase_item x tops) downs × GroundApart g tops (erase_item x downs)
apart_erased x none tops downs a = (tt, tt)
apart_erased x (some g) tops downs a =
    ((mem-erase_item x g.thing tops a.0, a.1), (a.0, mem-erase_item x g.thing downs a.1))

module _ (x : ℕ) (g : Option Item) (tops downs : List Item) (o : IsOrdered g tops downs) where
  pub erase_top-IsOrdered : IsOrdered g (erase_item x tops) downs
  erase_top-IsOrdered = record {
    tops_top = erase_item-Tops x tops o.tops_top;
    downs_down = o.downs_down;
    distinct_tops = erase_item-Distinct x tops o.distinct_tops;
    distinct_downs = o.distinct_downs;
    ground_apart = (apart_erased x g tops downs o.ground_apart).0;
    one_splash = omega (arith, o.one_splash, count-erase_item x (λ j. j.splash) tops);
    one_field = o.one_field;
  }

  pub erase_down-IsOrdered : IsOrdered g tops (erase_item x downs)
  erase_down-IsOrdered = record {
    tops_top = o.tops_top;
    downs_down = erase_item-Downs x downs o.downs_down;
    distinct_tops = o.distinct_tops;
    distinct_downs = erase_item-Distinct x downs o.distinct_downs;
    ground_apart = (apart_erased x g tops downs o.ground_apart).1;
    one_splash = o.one_splash;
    one_field = omega (arith, o.one_field, count-erase_item x (λ j. is_some j.field) downs);
  }

  pub recount-IsOrdered : (n : ℕ) → IsOrdered g tops (set_count x n downs)
  recount-IsOrdered n = record {
    tops_top = o.tops_top;
    downs_down = set_count-Downs x n downs o.downs_down;
    distinct_tops = o.distinct_tops;
    distinct_downs = rw (things-set_count x n downs) o.distinct_downs;
    ground_apart = recounted g o.ground_apart;
    one_splash = o.one_splash;
    one_field = omega (arith, o.one_field, count-set_count x n downs);
  }
    where
      recounted :
          (g : Option Item) → GroundApart g tops downs → GroundApart g tops (set_count x n downs)
      recounted none a = tt
      recounted (some g) a = (a.0, rw (things-set_count x n downs) a.1)

  pub no_ground-IsOrdered : IsOrdered none tops downs
  no_ground-IsOrdered = record {
    tops_top = o.tops_top;
    downs_down = o.downs_down;
    distinct_tops = o.distinct_tops;
    distinct_downs = o.distinct_downs;
    ground_apart = tt;
    one_splash = o.one_splash;
    one_field = o.one_field;
  }
