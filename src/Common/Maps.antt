-- ===== src/Common/Maps.antt =====
-- `std::map` and `std::set` with keys that are numbers, as lists in ascending order.
use otx_teste.Common.{
  ℕ, ◌≡◌, refl, false, ◌||◌, List, [], ◌∷◌, Option, none, some, arith, ◌==◌, ltb, if◌then◌else◌,
  Bool-cases, inl, inr,
}
use otx_teste.Common.Sets.{mem, erase, Distinct}

unfoldable pub place_key : ℕ → List ℕ → List ℕ
place_key x [] = x ∷ []
place_key x (y ∷ ys) = let rest = place_key x ys in if ltb x y then x ∷ y ∷ ys else y ∷ rest

-- `emplace` of a key, which may be there.
unfoldable pub insert_key : ℕ → List ℕ → List ℕ
insert_key x ys = if mem x ys then ys else place_key x ys

mem-place_key : (x y : ℕ) (ys : List ℕ) → mem x (place_key y ys) ≡ ((x == y) || mem x ys)
unfolding mem place_key
mem-place_key x y [] = ground arith
mem-place_key x y (z ∷ zs) = ground (arith, mem-place_key x y zs)

pub mem-insert_key : (x y : ℕ) (ys : List ℕ) → mem x (insert_key y ys) ≡ ((x == y) || mem x ys)
unfolding insert_key
mem-insert_key x y ys = ground (arith, mem-place_key x y ys)

place_key-Distinct :
    (x : ℕ) (ys : List ℕ) → mem x ys ≡ false → Distinct ys → Distinct (place_key x ys)
unfolding mem place_key
place_key-Distinct x [] h d = (refl, tt)
place_key-Distinct x (y ∷ ys) h d = ground (arith, place_key-Distinct x ys, mem-place_key y x ys)

pub insert_key-Distinct : (x : ℕ) (ys : List ℕ) → Distinct ys → Distinct (insert_key x ys)
unfolding insert_key
insert_key-Distinct x ys d = ground (arith, place_key-Distinct x ys)

-- Nothing is erased that is not there.
pub erase_absent : (x : ℕ) (ys : List ℕ) → mem x ys ≡ false → erase x ys ≡ ys
unfolding mem erase
erase_absent x [] h = refl
erase_absent x (y ∷ ys) h = ground (arith, erase_absent x ys)

module _ {ℓ} {V : Type ℓ} where
  unfoldable pub find : ℕ → List (ℕ × V) → Option V
  find k [] = none
  find k ((j, v) ∷ m) = if k == j then some v else find k m

  -- `emplace`: an entry that is there stays.
  unfoldable pub emplace : ℕ → V → List (ℕ × V) → List (ℕ × V)
  emplace k v [] = (k, v) ∷ []
  emplace k v ((j, w) ∷ m) =
      let rest = emplace k v m in
      if k == j then (j, w) ∷ m else if ltb k j then (k, v) ∷ (j, w) ∷ m else (j, w) ∷ rest

  unfoldable pub erase_entry : ℕ → List (ℕ × V) → List (ℕ × V)
  erase_entry k [] = []
  erase_entry k ((j, w) ∷ m) = let rest = erase_entry k m in if k == j then m else (j, w) ∷ rest

  -- A change of the object that the map holds under a key.
  unfoldable pub change : ℕ → (V → V) → List (ℕ × V) → List (ℕ × V)
  change k f [] = []
  change k f ((j, w) ∷ m) =
      let rest = change k f m in if k == j then (j, f w) ∷ m else (j, w) ∷ rest

  -- What holds of every entry.
  abbrev pub Every : (ℕ → V → Type 0) → List (ℕ × V) → Type 0
  Every P [] = Unit {0}
  Every P ((j, w) ∷ m) = P j w × Every P m

  pub Every-find :
      (P : ℕ → V → Type 0) (k : ℕ) (m : List (ℕ × V)) (v : V)
      → Every P m
      → find k m ≡ some v
      → P k v
  unfolding find
  Every-find P k [] v all e = absurd (ground arith)
  Every-find P k ((j, w) ∷ m) v all e = ground (arith, Every-find P k m v)

  pub find-emplace :
      (k : ℕ) (v : V) (m : List (ℕ × V)) → find k m ≡ none → find k (emplace k v m) ≡ some v
  unfolding find emplace
  find-emplace k v [] e = ground arith
  find-emplace k v ((j, w) ∷ m) e = ground (arith, find-emplace k v m)

  pub Every-emplace :
      (P : ℕ → V → Type 0) (k : ℕ) (v : V) (m : List (ℕ × V))
      → P k v
      → Every P m
      → Every P (emplace k v m)
  unfolding emplace
  Every-emplace P k v [] p all = (p, tt)
  Every-emplace P k v ((j, w) ∷ m) p all = ground (arith, Every-emplace P k v m)

  pub Every-erase_entry :
      (P : ℕ → V → Type 0) (k : ℕ) (m : List (ℕ × V)) → Every P m → Every P (erase_entry k m)
  unfolding erase_entry
  Every-erase_entry P k [] all = tt
  Every-erase_entry P k ((j, w) ∷ m) all = ground (arith, Every-erase_entry P k m)

  pub Every-change :
      (P : ℕ → V → Type 0) (k : ℕ) (f : V → V) (m : List (ℕ × V))
      → ((v : V) → P k v → P k (f v))
      → Every P m
      → Every P (change k f m)
  unfolding change
  Every-change P k f [] keep all = tt
  Every-change P k f ((j, w) ∷ m) keep all = ground (arith, keep w, Every-change P k f m keep)

  -- The same, when the change is good for the entry that is there.
  pub Every-change_found :
      (P : ℕ → V → Type 0) (k : ℕ) (f : V → V) (m : List (ℕ × V)) (v : V)
      → find k m ≡ some v
      → P k (f v)
      → Every P m
      → Every P (change k f m)
  unfolding change find
  Every-change_found P k f [] v e p all = tt
  Every-change_found P k f ((j, w) ∷ m) v e p all = elim (Bool-cases (k == j)) [
    | inl same ↦ ground arith
    | inr other ↦ ground (arith, Every-change_found P k f m v)
  ]
