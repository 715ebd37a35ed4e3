-- ===== src/Tile/Stack.antt =====
-- engine/src/tile.cpp: how the items of a tile lie, whatever is put there and taken away.
use mathlib.Core.Option
use mathlib.Core.Option.{some-injective, none-ne-some}
use otx_teste.Common.{
  ℕ, suc, ◌+◌, ◌-◌, ◌≤◌, ◌≡◌, refl, ap, sym, ◌∙◌, Bool, true, false, ◌&&◌, ◌||◌, Option, none, some,
  List, [], ◌∷◌, arith, leb, ◌==◌, ==_iff, if_either, length, Bool-cases, inl, inr,
}
use otx_teste.Common.Sets.{mem, Distinct}
use otx_teste.Tile.Contents.{Item, find, is_some, erase_item, first, insert_top, set_count}

abbrev pub things : List Item → List ℕ
things [] = []
things (i ∷ items) = i.thing ∷ things items

abbrev pub one_if : Bool → ℕ
one_if true = 1
one_if false = 0

-- How many items are of a kind.
unfoldable pub count : (Item → Bool) → List Item → ℕ
count p [] = 0
count p (i ∷ items) = one_if (p i) + count p items

abbrev pub OrderFrom : ℕ → List Item → Type 0
OrderFrom o [] = Unit {0}
OrderFrom o (i ∷ items) = (o ≤ i.always_on_top_order) × OrderFrom o items

-- Top items, in ascending order.
abbrev pub Tops : List Item → Type 0
Tops [] = Unit {0}
Tops (i ∷ items) = ((i.always_on_top ≡ true) × OrderFrom i.always_on_top_order items) × Tops items

-- Down items; a field cannot be stacked.
abbrev pub Downs : List Item → Type 0
Downs [] = Unit {0}
Downs (i ∷ items) =
    ((i.always_on_top ≡ false) × ((is_some i.field && i.stackable) ≡ false)) × Downs items

pub is_some-map : (f : ℕ → ℕ) (o : Option ℕ) → is_some (Option.map f o) ≡ is_some o
is_some-map f none = refl
is_some-map f (some k) = refl

pub is_some-find : (x : ℕ) (items : List Item) → is_some (find x items) ≡ mem x (things items)
unfolding find mem
is_some-find x [] = refl
is_some-find x (i ∷ items) = ground (arith, is_some-find x items, is_some-map suc (find x items))

pub mem-insert_top :
    (x : ℕ) (i : Item) (js : List Item)
    → mem x (things (insert_top i js)) ≡ ((x == i.thing) || mem x (things js))
unfolding mem insert_top
mem-insert_top x i [] = refl
mem-insert_top x i (j ∷ js) = ground (arith, mem-insert_top x i js)

pub insert_top-Distinct :
    (i : Item) (js : List Item)
    → mem i.thing (things js) ≡ false
    → Distinct (things js)
    → Distinct (things (insert_top i js))
unfolding mem insert_top
insert_top-Distinct i [] h d = (refl, tt)
insert_top-Distinct i (j ∷ js) h d =
    ground (arith, insert_top-Distinct i js, mem-insert_top j.thing i js)

insert_top-OrderFrom :
    (o : ℕ) (i : Item) (js : List Item)
    → o ≤ i.always_on_top_order
    → OrderFrom o js
    → OrderFrom o (insert_top i js)
unfolding insert_top
insert_top-OrderFrom o i [] h s = (h, tt)
insert_top-OrderFrom o i (j ∷ js) h s = ground (arith, insert_top-OrderFrom o i js)

lower-OrderFrom : (o p : ℕ) (js : List Item) → o ≤ p → OrderFrom p js → OrderFrom o js
lower-OrderFrom o p [] h s = tt
lower-OrderFrom o p (j ∷ js) h s = (omega (arith, s.0), lower-OrderFrom o p js h s.1)

pub insert_top-Tops :
    (i : Item) (js : List Item) → i.always_on_top ≡ true → Tops js → Tops (insert_top i js)
unfolding insert_top
insert_top-Tops i [] top s = ((top, tt), tt)
insert_top-Tops i (j ∷ js) top s =
    let o = i.always_on_top_order in
    let p = j.always_on_top_order in
    if_either Tops (leb o p)
      (λ e. let h : o ≤ p = ground (arith, e) in ((top, (h, lower-OrderFrom o p js h s.0.1)), s))
      (λ e. (
        (s.0.0, insert_top-OrderFrom p i js (ground (arith, e)) s.0.1),
        insert_top-Tops i js top s.1,
      ))

pub count-insert_top :
    (p : Item → Bool) (i : Item) (js : List Item)
    → count p (insert_top i js) ≡ one_if (p i) + count p js
unfolding count insert_top
count-insert_top p i [] = refl
count-insert_top p i (j ∷ js) = ground (arith, count-insert_top p i js)

module _ (x : ℕ) where
  pub mem-erase_item :
      (y : ℕ) (items : List Item)
      → mem y (things items) ≡ false
      → mem y (things (erase_item x items)) ≡ false
  unfolding mem erase_item
  mem-erase_item y [] h = refl
  mem-erase_item y (i ∷ items) h = ground (arith, mem-erase_item y items)

  pub erase_item-Distinct :
      (items : List Item) → Distinct (things items) → Distinct (things (erase_item x items))
  unfolding erase_item
  erase_item-Distinct [] d = tt
  erase_item-Distinct (i ∷ items) d =
      ground (arith, erase_item-Distinct items, mem-erase_item i.thing items)

  erase_item-OrderFrom :
      (o : ℕ) (items : List Item) → OrderFrom o items → OrderFrom o (erase_item x items)
  unfolding erase_item
  erase_item-OrderFrom o [] s = tt
  erase_item-OrderFrom o (i ∷ items) s = ground (arith, erase_item-OrderFrom o items)

  pub erase_item-Tops : (items : List Item) → Tops items → Tops (erase_item x items)
  unfolding erase_item
  erase_item-Tops [] s = tt
  erase_item-Tops (i ∷ items) s =
      ground (arith, erase_item-Tops items, erase_item-OrderFrom i.always_on_top_order items)

  pub erase_item-Downs : (items : List Item) → Downs items → Downs (erase_item x items)
  unfolding erase_item
  erase_item-Downs [] s = tt
  erase_item-Downs (i ∷ items) s = ground (arith, erase_item-Downs items)

  pub count-erase_item :
      (p : Item → Bool) (items : List Item) → count p (erase_item x items) ≤ count p items
  unfolding erase_item count
  count-erase_item p [] = omega arith
  count-erase_item p (i ∷ items) = ground (arith, count-erase_item p items)

-- What the loops find is there.
pub mem-first :
    (p : Item → Bool) (s : Item) (items : List Item)
    → first p items ≡ some s
    → mem s.thing (things items) ≡ true
unfolding first mem
mem-first p s [] e = absurd (none-ne-some s e)
mem-first p s (i ∷ items) e = elim (Bool-cases (p i)) [
  | inl h ↦
      let same : i ≡ s = some-injective _ _ (rw h at e) in
      let thing : i.thing ≡ s.thing = ap (λ j. j.thing) same in ground (arith, thing)
  | inr h ↦ ground (arith, mem-first p s items (rw h at e))
]

differ :
    (i s : Item) (items : List Item)
    → mem i.thing (things items) ≡ false
    → mem s.thing (things items) ≡ true
    → (i.thing == s.thing) ≡ false
differ i s items out there = elim (Bool-cases (i.thing == s.thing)) [
  | inl e ↦
      let same : i.thing ≡ s.thing = (==_iff i.thing s.thing).0 e in
      ground (arith, rw same at out, there)
  | inr e ↦ e
]

-- Taking away the first item of a kind leaves one less of it.
pub count-erase_first :
    (p : Item → Bool) (s : Item) (items : List Item)
    → Distinct (things items)
    → first p items ≡ some s
    → suc (count p (erase_item s.thing items)) ≡ count p items
unfolding first erase_item count
count-erase_first p s [] d e = absurd (none-ne-some s e)
count-erase_first p s (i ∷ items) d e = elim (Bool-cases (p i)) [
  | inl h ↦
      let same : i ≡ s = some-injective _ _ (rw h at e) in
      let thing : i.thing ≡ s.thing = ap (λ j. j.thing) same in rw h (ground (arith, thing))
  | inr h ↦
      let later = count-erase_first p s items d.1 (rw h at e) in
      let apart = differ i s items d.0 (mem-first p s items (rw h at e)) in
      rw (h, apart) (unfold count in rw h (omega (arith, later)))
]

pub count-no_first :
    (p : Item → Bool) (items : List Item) → first p items ≡ none → count p items ≡ 0
unfolding first count
count-no_first p [] e = refl
count-no_first p (i ∷ items) e = elim (Bool-cases (p i)) [
  | inl h ↦ absurd (none-ne-some i (sym (rw h at e)))
  | inr h ↦ rw h (omega (arith, count-no_first p items (rw h at e)))
]

pub first-Tops :
    (p : Item → Bool) (s : Item) (items : List Item)
    → Tops items
    → first p items ≡ some s
    → s.always_on_top ≡ true
unfolding first
first-Tops p s [] t e = absurd (none-ne-some s e)
first-Tops p s (i ∷ items) t e = elim (Bool-cases (p i)) [
  | inl h ↦
      let same : i ≡ s = some-injective _ _ (rw h at e) in
      sym (ap (λ j. j.always_on_top) same) ∙ t.0.0
  | inr h ↦ first-Tops p s items t.1 (rw h at e)
]

pub first-Downs :
    (p : Item → Bool) (s : Item) (items : List Item)
    → Downs items
    → first p items ≡ some s
    → ((s.always_on_top ≡ false) × ((is_some s.field && s.stackable) ≡ false)) × (p s ≡ true)
unfolding first
first-Downs p s [] t e = absurd (none-ne-some s e)
first-Downs p s (i ∷ items) t e = elim (Bool-cases (p i)) [
  | inl h ↦
      let same : i ≡ s = some-injective _ _ (rw h at e) in
      (
        (
          sym (ap (λ j. j.always_on_top) same) ∙ t.0.0,
          sym (ap (λ j. is_some j.field && j.stackable) same) ∙ t.0.1,
        ),
        sym (ap p same) ∙ h,
      )
  | inr h ↦ first-Downs p s items t.1 (rw h at e)
]

module _ (x n : ℕ) where
  pub things-set_count : (items : List Item) → things (set_count x n items) ≡ things items
  unfolding set_count
  things-set_count [] = refl
  things-set_count (i ∷ items) = ground (arith, things-set_count items)

  pub set_count-Downs : (items : List Item) → Downs items → Downs (set_count x n items)
  unfolding set_count
  set_count-Downs [] d = tt
  set_count-Downs (i ∷ items) d = ground (arith, set_count-Downs items)

  pub length-set_count : (items : List Item) → length (set_count x n items) ≡ length items
  unfolding set_count
  length-set_count [] = refl
  length-set_count (i ∷ items) = omega (arith, length-set_count items)

  pub count-set_count :
      (items : List Item)
      → count (λ j. is_some j.field) (set_count x n items) ≡ count (λ j. is_some j.field) items
  unfolding set_count count
  count-set_count [] = refl
  count-set_count (i ∷ items) = ground (arith, count-set_count items)

mem_counts : (x : ℕ) (items : List Item) → one_if (mem x (things items)) ≤ length items
unfolding mem
mem_counts x [] = omega arith
mem_counts x (i ∷ items) = one_at_most ((x == i.thing) || mem x (things items)) (length items)
  where
    one_at_most : (b : Bool) (n : ℕ) → one_if b ≤ suc n
    one_at_most true n = omega arith
    one_at_most false n = omega arith

pub length-erase_item :
    (x : ℕ) (items : List Item)
    → length (erase_item x items) ≡ length items - one_if (mem x (things items))
unfolding erase_item mem
length-erase_item x [] = omega arith
length-erase_item x (i ∷ items) = ground (arith, length-erase_item x items, mem_counts x items)

pub length-insert_top : (i : Item) (js : List Item) → length (insert_top i js) ≡ suc (length js)
unfolding insert_top
length-insert_top i [] = refl
length-insert_top i (j ∷ js) = ground (arith, length-insert_top i js)
