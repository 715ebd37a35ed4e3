-- ===== src/Tile/Index.antt =====
-- engine/src/tile.cpp: `getThing` at the index of a thing.
use native.Mathlib.Nat.{zero-add, suc-add}
use mathlib.Core.Option
use mathlib.Core.Option.{some-injective, none-ne-some}
use otx_teste.Common.{
  ℕ, zero, suc, ◌+◌, ◌-◌, ◌<◌, ◌≡◌, refl, ap, ◌∙◌, false, Option, none, some, List, [], ◌∷◌, arith,
  ltb, ◌==◌, length, take, drop, Bool-cases, inl, inr, lt→ltb, ==_iff, length-take,
}
use otx_teste.Tile.Contents.{
  Item, Thing, Contents, creature, item, address, top_items, down_items, find, find_creature,
  index_behind, index_from, get_thing_index, at, thing_behind, thing_from, get_thing,
}

-- Where `std::find` stops.
record At (x : ℕ) (items : List Item) (k : ℕ) : Type 0 where
  there : Option.map (λ i. i.thing) (at k items) ≡ some x
  within : k < length items

find-At : (x k : ℕ) (items : List Item) → find x items ≡ some k → At x items k
unfolding find at
find-At x k [] e = absurd (none-ne-some k e)
find-At x k (i ∷ items) e = elim (Bool-cases (i.thing == x)) [
  | inl h ↦
      let first : 0 ≡ k = some-injective _ _ (rw h at e) in
      let same : i.thing ≡ x = (==_iff i.thing x).0 h in
      rw (← first) (record { there = ap some same; within = omega arith })
  | inr h ↦
      let (j, found, next) = (Option.map-eq-some_iff suc (find x items)).0 (rw h at e) in
      let later = find-At x j items found in
      rw (← next) (record { there = later.there; within = omega (arith, later.within) })
]

at-drop : {A : Type 0} (d k : ℕ) (xs : List A) → at (d + k) xs ≡ at k (drop d xs)
unfolding at
at-drop zero k xs = rw (zero-add k) refl
at-drop (suc d) k [] = refl
at-drop (suc d) k (x ∷ xs) = rw (suc-add d k) (at-drop d k xs)

at-take : {A : Type 0} (d k : ℕ) (xs : List A) → k < d → at k (take d xs) ≡ at k xs
unfolding at
at-take zero k xs h = absurd (omega arith)
at-take (suc d) k [] h = refl
at-take (suc d) zero (x ∷ xs) h = refl
at-take (suc d) (suc k) (x ∷ xs) h = at-take d k xs (omega arith)

find_creature-at :
    (x k : ℕ) (cs : List ℕ) → find_creature x cs ≡ some k → (at k cs ≡ some x) × (k < length cs)
unfolding find_creature at
find_creature-at x k [] e = absurd (none-ne-some k e)
find_creature-at x k (c ∷ cs) e = elim (Bool-cases (c == x)) [
  | inl h ↦
      let first : 0 ≡ k = some-injective _ _ (rw h at e) in
      let same : c ≡ x = (==_iff c x).0 h in rw (← first) (ap some same, omega arith)
  | inr h ↦
      let (j, found, next) = (Option.map-eq-some_iff suc (find_creature x cs)).0 (rw h at e) in
      let (there, within) = find_creature-at x j cs found in
      rw (← next) (there, omega (arith, within))
]

address-item :
    (o : Option Item) → Option.map address (Option.map item o) ≡ Option.map (λ i. i.thing) o
address-item none = refl
address-item (some i) = refl

address-creature : (o : Option ℕ) → Option.map address (Option.map creature o) ≡ o
address-creature none = refl
address-creature (some c) = refl

module _ (t : Contents) where
  abbrev Finds : ℕ → Thing → Type 0
  Finds m thing = Option.map address (thing_behind m t) ≡ some (address thing)

  top-Finds : (i : Item) (k : ℕ) → find i.thing (top_items t) ≡ some k → Finds k (item i)
  unfolding thing_behind
  top-Finds i k e =
      let a = find-At i.thing k (top_items t) e in
      rw (lt→ltb k (length (top_items t)) a.within, at-drop t.down_item_count k t.items)
        (address-item (at k (top_items t)) ∙ a.there)

  creature-Finds :
      (c k : ℕ)
      → find_creature c t.creatures ≡ some k
      → Finds (length (top_items t) + k) (creature c)
  unfolding thing_behind
  creature-Finds c k e =
      let (there, within) = find_creature-at c k t.creatures e in
      let tops = length (top_items t) in
      let past : ltb (tops + k) tops ≡ false = ground arith in
      let place : tops + k - tops ≡ k = omega arith in
      rw (past, place, lt→ltb k (length t.creatures) within)
        (address-creature (at k t.creatures) ∙ there)

  down-Finds :
      (i : Item) (k : ℕ)
      → find i.thing (down_items t) ≡ some k
      → Finds (length (top_items t) + length t.creatures + k) (item i)
  unfolding thing_behind
  down-Finds i k e =
      let a = find-At i.thing k (down_items t) e in
      let tops = length (top_items t) in
      let others = length t.creatures in
      let within : k < t.down_item_count =
        omega (arith, a.within, length-take t.down_item_count t.items) in
      let past : ltb (tops + others + k) tops ≡ false = ground arith in
      let past' : ltb (tops + others + k - tops) others ≡ false = ground arith in
      let place : tops + others + k - tops - others ≡ k = omega arith in
      rw (past, past', place, lt→ltb k t.down_item_count within)
        (address-item (at k t.items) ∙ (rw (at-take t.down_item_count k t.items within) at a.there))

  index_behind-Finds :
      (n k : ℕ) (thing : Thing)
      → index_behind n thing t ≡ some k
      → (m : ℕ) × (n + m ≡ k) × Finds m thing
  unfolding index_behind
  index_behind-Finds n k (creature c) e =
      let tops = length (top_items t) in
      let (j, found, place) =
        (Option.map-eq-some_iff (λ l. n + tops + l) (find_creature c t.creatures)).0 e in
      (tops + j, omega (arith, place), creature-Finds c j found)
  index_behind-Finds n k (item i) e =
      let tops = length (top_items t) in
      let others = length t.creatures in
      elim (Bool-cases i.always_on_top) [
        | inl h ↦
            let (j, found, place) =
              (Option.map-eq-some_iff (λ l. n + l) (find i.thing (top_items t))).0 (simp h at e) in
            (j, place, top-Finds i j found)
        | inr h ↦
            let (j, found, place) =
              (Option.map-eq-some_iff (λ l. n + tops + others + l) (find i.thing (down_items t))).0
                (simp h at e) in
            (tops + others + j, omega (arith, place), down-Finds i j found)
      ]

  index_from-thing_from :
      (g : Option Item) (thing : Thing) (n : ℕ)
      → index_from g thing t ≡ some n
      → Option.map address (thing_from g n t) ≡ some (address thing)
  unfolding index_from thing_from
  index_from-thing_from none thing n e =
      let (m, place, found) = index_behind-Finds 0 n thing e in
      let same : m ≡ n = omega (arith, place) in rw same at found
  index_from-thing_from (some g) thing n e = elim (Bool-cases (g.thing == address thing)) [
    | inl h ↦
        let first : 0 ≡ n = some-injective _ _ (rw h at e) in
        let same : g.thing ≡ address thing = (==_iff g.thing (address thing)).0 h in
        rw (← first) (ap some same)
    | inr h ↦
        let (m, place, found) = index_behind-Finds 1 n thing (rw h at e) in
        let same : suc m ≡ n = omega (arith, place) in rw (← same) found
  ]

-- Where `getThingIndex` finds a creature or an item on a tile, `getThing` returns that object.
pub get_thing-get_thing_index :
    (t : Contents) (thing : Thing) (n : ℕ)
    → get_thing_index thing t ≡ some n
    → Option.map address (get_thing n t) ≡ some (address thing)
unfolding get_thing get_thing_index
get_thing-get_thing_index t thing n e = index_from-thing_from t t.ground thing n e
