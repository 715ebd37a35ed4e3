-- ===== src/Tile/Changes.antt =====
-- engine/src/tile.cpp: a tile after `removeThing` and `addThing`.
use otx_teste.Common.{
  ℕ, ◌+◌, ◌-◌, ◌≡◌, refl, sym, ◌∙◌, Bool, true, false, not, ◌&&◌, ◌||◌, Option, none, some, List,
  arith, ◌==◌, ==_iff, if◌then◌else◌, if_either, length, Bool-cases, inl, inr,
}
use otx_teste.Common.Sets.{mem}
use otx_teste.Tile.Contents.{
  Item, Contents, item, top_items, down_items, with_top_items, find, is_some, erase_item, set_count,
  new_count, get_thing_index, index_from, index_behind, is_ground, remove_top, remove_down,
  remove_item,
}
use otx_teste.Tile.Stack.{things, is_some-map, is_some-find, length-set_count, length-erase_item}
use otx_teste.Tile.Kept.{
  GroundApart, IsStacked, tile, tile-IsStacked, length-down_items, length-top_items,
  erase_top-IsOrdered, erase_down-IsOrdered, recount-IsOrdered, no_ground-IsOrdered,
}

abbrev pub has : ℕ → List Item → Bool
has x items = mem x (things items)

module _ (t : Contents) (s : IsStacked t) where
  unground-IsStacked : IsStacked (record t { ground = none })
  unground-IsStacked = record {
    bound = s.bound;
    small = s.small;
    ordered = no_ground-IsOrdered 0 t.ground (top_items t) (down_items t) s.ordered;
  }

  pub erase_top-IsStacked : (x : ℕ) → IsStacked (with_top_items (erase_item x (top_items t)) t)
  erase_top-IsStacked x =
      tile-IsStacked t.ground (erase_item x (top_items t)) (down_items t) t.down_item_count
        t.creatures (length-down_items t s)
        (omega (arith, s.small, length-top_items t s, length-erase_item x (top_items t)))
        (erase_top-IsOrdered x t.ground (top_items t) (down_items t) s.ordered)

  remove_top-IsStacked : (i : Item) → IsStacked (remove_top i t)
  unfolding remove_top
  remove_top-IsStacked i =
      if_either IsStacked (is_some (find i.thing (top_items t)))
        {x = with_top_items (erase_item i.thing (top_items t)) t} {y = t}
        (λ e. erase_top-IsStacked i.thing) (λ e. s)

  recount-IsStacked :
      (x n : ℕ)
      → IsStacked
          (tile t.ground (top_items t) (set_count x n (down_items t)) t.down_item_count t.creatures)
  recount-IsStacked x n =
      tile-IsStacked t.ground (top_items t) (set_count x n (down_items t)) t.down_item_count
        t.creatures (length-set_count x n (down_items t) ∙ length-down_items t s)
        (omega (arith, s.small, length-top_items t s, length-set_count x n (down_items t)))
        (recount-IsOrdered x t.ground (top_items t) (down_items t) s.ordered n)

  pub erase_down-IsStacked :
      (x : ℕ)
      → has x (down_items t) ≡ true
      → IsStacked (
          tile t.ground
            (top_items t)
            (erase_item x (down_items t))
            (t.down_item_count - 1)
            t.creatures)
  erase_down-IsStacked x there =
      let shorter : length (erase_item x (down_items t)) ≡ length (down_items t) - 1 =
        rw there at (length-erase_item x (down_items t)) in
      tile-IsStacked t.ground (top_items t) (erase_item x (down_items t)) (t.down_item_count - 1)
        t.creatures (omega (arith, shorter, length-down_items t s))
        (omega (arith, s.small, length-top_items t s, shorter))
        (erase_down-IsOrdered x t.ground (top_items t) (down_items t) s.ordered)

  remove_down-IsStacked : (i : Item) (n : ℕ) → IsStacked (remove_down i n t)
  unfolding remove_down
  remove_down-IsStacked i n =
      if_either IsStacked (is_some (find i.thing (down_items t))) {y = t}
        (λ e.
          if_either IsStacked (i.stackable && not (n == i.count))
            {x = tile t.ground (top_items t)
              (set_count i.thing (new_count i.count n) (down_items t)) t.down_item_count
              t.creatures}
            {y = tile t.ground (top_items t) (erase_item i.thing (down_items t))
              (t.down_item_count - 1) t.creatures}
            (λ f. recount-IsStacked i.thing (new_count i.count n))
            (λ f. erase_down-IsStacked i.thing (sym (is_some-find i.thing (down_items t)) ∙ e)))
        (λ e. s)

  pub remove_item-IsStacked : (i : Item) (n : ℕ) → IsStacked (remove_item i n t)
  unfolding remove_item
  remove_item-IsStacked i n =
      if_either IsStacked (not (is_some (get_thing_index (item i) t))) {x = t} (λ e. s)
        (λ e.
          if_either IsStacked (is_ground i t.ground) {x = record t { ground = none }}
            (λ f. unground-IsStacked)
            (λ f.
              if_either IsStacked i.always_on_top {x = remove_top i t} {y = remove_down i n t}
                (λ h. remove_top-IsStacked i) (λ h. remove_down-IsStacked i n)))

-- Where the index of an item is looked for.
is_some-index_behind :
    (n : ℕ) (i : Item) (t : Contents)
    → is_some (index_behind n (item i) t)
      ≡ (if i.always_on_top then has i.thing (top_items t) else has i.thing (down_items t))
unfolding index_behind
is_some-index_behind n i t = ground (
  arith,
  is_some-map (λ k. n + k) (find i.thing (top_items t)),
  is_some-map (λ k. n + length (top_items t) + length t.creatures + k)
      (find i.thing (down_items t)),
  is_some-find i.thing (top_items t),
  is_some-find i.thing (down_items t),
)

pub is_some-index_from :
    (i : Item) (g : Option Item) (t : Contents)
    → is_some (index_from g (item i) t) ≡ (
        is_ground i g
        || (if i.always_on_top then has i.thing (top_items t) else has i.thing (down_items t)))
unfolding index_from
is_some-index_from i none t = is_some-index_behind 0 i t
is_some-index_from i (some g) t = ground (arith, is_some-index_behind 1 i t)

ground_differs :
    (i : Item) (g : Option Item) (tops downs : List Item)
    → GroundApart g tops downs
    → (has i.thing tops || has i.thing downs) ≡ true
    → is_ground i g ≡ false
ground_differs i none tops downs a h = refl
ground_differs i (some g) tops downs a h = elim (Bool-cases (i.thing == g.thing)) [
  | inr e ↦ e
  | inl e ↦
      let same : i.thing ≡ g.thing = (==_iff i.thing g.thing).0 e in
      absurd (ground (arith, a.0, a.1, rw same at h))
]

module _ (t : Contents) (s : IsStacked t) (i : Item) where
  -- An item that lies among the top items is taken out there.
  pub remove_item-top :
      i.always_on_top ≡ true
      → has i.thing (top_items t) ≡ true
      → remove_item i 1 t ≡ with_top_items (erase_item i.thing (top_items t)) t
  unfolding remove_item remove_top get_thing_index
  remove_item-top top there =
      let apart =
        ground_differs i t.ground (top_items t) (down_items t) s.ordered.ground_apart
          (ground (arith, there)) in
      let found : is_some (index_from t.ground (item i) t) ≡ true =
        is_some-index_from i t.ground t ∙ (ground (arith, apart, top, there)) in
      let at_top : is_some (find i.thing (top_items t)) ≡ true =
        is_some-find i.thing (top_items t) ∙ there in
      simp (found, apart, top, at_top)

  pub remove_item-down :
      i.always_on_top ≡ false
      → i.stackable ≡ false
      → has i.thing (down_items t) ≡ true
      → remove_item i 1 t
        ≡ tile t.ground
            (top_items t)
            (erase_item i.thing (down_items t))
            (t.down_item_count - 1)
            t.creatures
  unfolding remove_item remove_down get_thing_index
  remove_item-down down single there =
      let apart =
        ground_differs i t.ground (top_items t) (down_items t) s.ordered.ground_apart
          (ground (arith, there)) in
      let found : is_some (index_from t.ground (item i) t) ≡ true =
        is_some-index_from i t.ground t ∙ (ground (arith, apart, down, there)) in
      let at_down : is_some (find i.thing (down_items t)) ≡ true =
        is_some-find i.thing (down_items t) ∙ there in
      simp (found, apart, down, single, at_down)
