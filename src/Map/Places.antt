-- ===== src/Map/Places.antt =====
-- engine/src/map.cpp: the table of leaves is a map from positions to tiles.
use otx_teste.Common.{
  ℕ, ◌/◌, ◌%◌, ◌≡◌, refl, ap, ◌∙◌, false, not, ◌&&◌, Option, none, some, List, [], ◌∷◌, leb, ◌==◌,
  ==_iff, if◌then◌else◌, arith, Bool-cases, inl, inr,
}
use otx_teste.Tile.Contents.{Contents}
use otx_teste.Map.{
  Floor, Leaf, Nodes, floor_size, map_max_layers, is_at, find_leaf, get_leaf, new_leaf, change_leaf,
  create_leaf, floor_or_new, create_floor, tile_of, floor_of, get_tile, place, put_tile, set_tile,
}

abbrev leaf_or_new : ℕ → ℕ → Option Leaf → Leaf
leaf_or_new x y none = new_leaf x y
leaf_or_new x y (some l) = l

module _ (x y : ℕ) (f : Leaf → Leaf) (stays : (l : Leaf) → ((f l).x ≡ l.x) × ((f l).y ≡ l.y)) where
  is_at-kept : (a b : ℕ) (l : Leaf) → is_at a b (f l) ≡ is_at a b l
  is_at-kept a b l =
      ap (λ c. (c == a) && ((f l).y == b)) (stays l).0
      ∙ ap (λ c. (l.x == a) && (c == b)) (stays l).1

  find_leaf-change_leaf :
      (a b : ℕ) (leaves : List Leaf)
      → find_leaf a b (change_leaf x y f leaves) ≡ (
          if (a == x) && (b == y)
          then some (f (leaf_or_new x y (find_leaf x y leaves)))
          else find_leaf a b leaves)
  unfolding find_leaf change_leaf
  find_leaf-change_leaf a b [] = ground (arith, is_at-kept a b (new_leaf x y))
  find_leaf-change_leaf a b (l ∷ leaves) =
      ground (arith, find_leaf-change_leaf a b leaves, is_at-kept a b l)

abbrev low : ℕ → ℕ
low x = x / floor_size

abbrev node_of : ℕ → ℕ
node_of x = x / floor_size % 1024

-- The leaf at a place after `createLeaf`.
get_leaf-create_leaf :
    (x y a b : ℕ) (f : Leaf → Leaf) (nodes : Nodes)
    → ((l : Leaf) → ((f l).x ≡ l.x) × ((f l).y ≡ l.y))
    → get_leaf a b (create_leaf x y f nodes) ≡ (
        if (low a == low x) && (low b == low y)
        then some (f (leaf_or_new (low x) (low y) (get_leaf x y nodes)))
        else get_leaf a b nodes)
unfolding get_leaf create_leaf
get_leaf-create_leaf x y a b f nodes stays =
    elim (Bool-cases ((node_of a == node_of x) && (node_of b == node_of y))) [
      | inl e ↦
          let same_x : node_of a ≡ node_of x = ground (arith, e) in
          let same_y : node_of b ≡ node_of y = ground (arith, e) in
          let same : nodes (node_of a) (node_of b) ≡ nodes (node_of x) (node_of y) =
            ap (λ i. nodes i (node_of b)) same_x ∙ ap (nodes (node_of x)) same_y in
          rw e (
            rw same (
              find_leaf-change_leaf (low x) (low y) f stays (low a) (low b)
                (nodes (node_of x) (node_of y))))
      | inr e ↦
          let apart : ((low a == low x) && (low b == low y)) ≡ false = ground (arith, e) in
          rw (e, apart) refl
    ]

floor_of-leaf_or_new :
    (x y z : ℕ) (o : Option Leaf) → floor_of z (some (leaf_or_new x y o)) ≡ floor_of z o
floor_of-leaf_or_new x y z none = refl
floor_of-leaf_or_new x y z (some l) = refl

tile_of-floor_or_new :
    (x y : ℕ) (o : Option Floor) → floor_or_new o (x % floor_size) (y % floor_size) ≡ tile_of x y o
tile_of-floor_or_new x y none = refl
tile_of-floor_or_new x y (some floor) = refl

-- The tile at a place of a leaf after `createFloor` and the write.
put_tile_lem :
    (x y i j : ℕ) (new_tile : Contents) (floor : Floor)
    → let here = (i == (x % floor_size)) && (j == (y % floor_size)) in
      put_tile x y new_tile floor i j ≡ (
        if here then some (place (floor (x % floor_size) (y % floor_size)) new_tile) else floor i j)
unfolding put_tile
put_tile_lem x y i j new_tile floor =
    elim (Bool-cases ((i == (x % floor_size)) && (j == (y % floor_size)))) [
      | inl e ↦
          let same_x : i ≡ x % floor_size = ground (arith, e) in
          let same_y : j ≡ y % floor_size = ground (arith, e) in
          rw e (
            ap (λ t. some (place t new_tile))
              (ap (λ k. floor k j) same_x ∙ ap (floor (x % floor_size)) same_y))
      | inr e ↦ rw e refl
    ]

tile_of-create_floor :
    (x y z a b c : ℕ) (new_tile : Contents) (l : Leaf)
    → tile_of a b ((create_floor z (put_tile x y new_tile) l).floors c) ≡ (
        if (c == z)
          && ((a % floor_size == (x % floor_size)) && (b % floor_size == (y % floor_size)))
        then some (place (tile_of x y (l.floors z)) new_tile)
        else tile_of a b (l.floors c))
unfolding create_floor
tile_of-create_floor x y z a b c new_tile l = elim (Bool-cases (c == z)) [
  | inr e ↦ rw e refl
  | inl e ↦
      let same : c ≡ z = (==_iff c z).0 e in
      rw
        (
          e,
          ap l.floors same,
          ← tile_of-floor_or_new x y (l.floors z),
          ← tile_of-floor_or_new a b (l.floors z),
        )
        (put_tile_lem x y (a % floor_size) (b % floor_size) new_tile (floor_or_new (l.floors z)))
]

create_floor-stays :
    (z : ℕ) (f : Floor → Floor) (l : Leaf)
    → ((create_floor z f l).x ≡ l.x) × ((create_floor z f l).y ≡ l.y)
unfolding create_floor
create_floor-stays z f l = (refl, refl)

get_leaf-low :
    (x y a b : ℕ) (nodes : Nodes)
    → low a ≡ low x
    → low b ≡ low y
    → get_leaf a b nodes ≡ get_leaf x y nodes
unfolding get_leaf
get_leaf-low x y a b nodes e f =
    ap (λ i. find_leaf i (low b) (nodes (i % 1024) (low b % 1024))) e
    ∙ ap (λ j. find_leaf (low x) j (nodes (low x % 1024) (j % 1024))) f

-- On the 16 floors, without the tests.
module _ (x y z a b c : ℕ) (new_tile : Contents) (nodes : Nodes) where
  abbrev after : Option Contents
  after =
      tile_of a b
        (floor_of c (get_leaf a b (create_leaf x y (create_floor z (put_tile x y new_tile)) nodes)))

  abbrev before : ℕ → ℕ → ℕ → Option Contents
  before i j k = tile_of i j (floor_of k (get_leaf i j nodes))

  after_lem : after ≡ (
      if ((a == x) && (b == y)) && (c == z)
      then some (place (before x y z) new_tile)
      else before a b c)
  after_lem =
      let f = create_floor z (put_tile x y new_tile) in
      let here =
        get_leaf-create_leaf x y a b f nodes (create_floor-stays z (put_tile x y new_tile)) in
      elim (Bool-cases ((low a == low x) && (low b == low y))) [
        | inl e ↦
            let l = leaf_or_new (low x) (low y) (get_leaf x y nodes) in
            let same = get_leaf-low x y a b nodes (ground (arith, e)) (ground (arith, e)) in
            let test : ((c == z)
                  && ((a % floor_size == (x % floor_size)) && (b % floor_size == (y % floor_size))))
                ≡ (((a == x) && (b == y)) && (c == z)) =
              ground (arith, e) in
            rw (here, e, same)
              (rw
                (
                  test,
                  floor_of-leaf_or_new (low x) (low y) z (get_leaf x y nodes),
                  floor_of-leaf_or_new (low x) (low y) c (get_leaf x y nodes),
                )
                at (tile_of-create_floor x y z a b c new_tile l))
        | inr e ↦
            let apart : (((a == x) && (b == y)) && (c == z)) ≡ false = ground (arith, e) in
            rw (here, e, apart) refl
      ]

-- The tile at any place after `setTile`: at the place that it is called with, on one of the 16
-- floors, the new tile, put together with the tile that was there; at any other place the tile that
-- was there.
pub get_tile-set_tile :
    (x y z a b c : ℕ) (new_tile : Contents) (nodes : Nodes)
    → get_tile a b c (set_tile x y z new_tile nodes) ≡ (
        if ((a == x) && (b == y)) && ((c == z) && not (leb map_max_layers z))
        then some (place (get_tile x y z nodes) new_tile)
        else get_tile a b c nodes)
unfolding get_tile set_tile
get_tile-set_tile x y z a b c new_tile nodes = elim (Bool-cases (leb map_max_layers z)) [
  | inl e ↦
      let apart : (((a == x) && (b == y)) && ((c == z) && not (leb map_max_layers z))) ≡ false =
        ground (arith, e) in
      rw (apart, e) refl
  | inr e ↦
      let whole = ((a == x) && (b == y)) && ((c == z) && not (leb map_max_layers z)) in
      elim (Bool-cases (leb map_max_layers c)) [
        | inl h ↦ let apart : whole ≡ false = ground (arith, e, h) in rw (apart, e, h) refl
        | inr h ↦
            let test : whole ≡ (((a == x) && (b == y)) && (c == z)) = ground (arith, e) in
            rw (test, e, h) (after_lem x y z a b c new_tile nodes)
      ]
]
