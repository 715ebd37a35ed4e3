-- ===== src/Common/Sets.antt =====
-- Lists of numbers as sets, and functions changed at one point or at those of a list.
use otx_teste.Common.{
  ℕ, ◌≡◌, refl, Bool, false, not, ◌&&◌, ◌||◌, List, [], ◌∷◌, ◌++◌, arith, ◌==◌, if◌then◌else◌,
  ==_iff, Bool-cases, inl, inr,
}

-- Whether `std::find` finds `x`.
unfoldable pub mem : ℕ → List ℕ → Bool
mem x [] = false
mem x (y ∷ ys) = (x == y) || mem x ys

-- `std::find` and `erase` of what it finds.
unfoldable pub erase : ℕ → List ℕ → List ℕ
erase x [] = []
erase x (y ∷ ys) = let rest = erase x ys in if x == y then ys else y ∷ rest

abbrev pub Distinct : List ℕ → Type 0
Distinct [] = Unit {0}
Distinct (x ∷ xs) = (mem x xs ≡ false) × Distinct xs

pub mem-append : (x : ℕ) (ys zs : List ℕ) → mem x (ys ++ zs) ≡ (mem x ys || mem x zs)
unfolding mem
mem-append x [] zs = refl
mem-append x (y ∷ ys) zs = ground (arith, mem-append x ys zs)

pub mem-erase :
    (x y : ℕ) (xs : List ℕ) → Distinct xs → mem y (erase x xs) ≡ (not (x == y) && mem y xs)
unfolding mem erase
mem-erase x y [] d = ground arith
mem-erase x y (z ∷ zs) d = elim (Bool-cases (z == y)) [
  | inl e ↦ let p : z ≡ y = (==_iff z y).0 e in ground (arith, mem-erase x y zs d.1, rw p at d.0)
  | inr e ↦ ground (arith, mem-erase x y zs d.1)
]

pub erase-Distinct : (x : ℕ) (xs : List ℕ) → Distinct xs → Distinct (erase x xs)
unfolding mem erase
erase-Distinct x [] d = tt
erase-Distinct x (z ∷ zs) d = ground (arith, erase-Distinct x zs d.1, mem-erase x z zs d.1)

pub append-Distinct :
    (x : ℕ) (xs : List ℕ) → mem x xs ≡ false → Distinct xs → Distinct (xs ++ x ∷ [])
unfolding mem
append-Distinct x [] h d = (refl, tt)
append-Distinct x (z ∷ zs) h d = ground (arith, append-Distinct x zs, mem-append z zs (x ∷ []))

module _ {ℓ} {A : Type ℓ} where
  unfoldable pub update : ℕ → A → (ℕ → A) → ℕ → A
  update x v f y = if x == y then v else f y

  -- `for (x : xs)`, with the same write for each.
  unfoldable pub update_all : List ℕ → A → (ℕ → A) → ℕ → A
  unfolding update
  update_all [] v f = f
  update_all (x ∷ xs) v f = update_all xs v (update x v f)

  pub update_all_lem :
      (xs : List ℕ) (v : A) (f : ℕ → A) (y : ℕ)
      → update_all xs v f y ≡ (if mem y xs then v else f y)
  unfolding update_all mem
  update_all_lem [] v f y = refl
  update_all_lem (x ∷ xs) v f y = ground (arith, update_all_lem xs v (update x v f) y)

pub append_middle-Distinct :
    (x : ℕ) (xs ys : List ℕ)
    → mem x (xs ++ ys) ≡ false
    → Distinct (xs ++ ys)
    → Distinct ((xs ++ x ∷ []) ++ ys)
unfolding mem
append_middle-Distinct x [] ys h d = (h, d)
append_middle-Distinct x (z ∷ zs) ys h d = ground (
  arith,
  append_middle-Distinct x zs ys,
  mem-append z (zs ++ x ∷ []) ys,
  mem-append z zs (x ∷ []),
  mem-append z zs ys,
)

pub erase-append :
    (x : ℕ) (xs ys : List ℕ)
    → erase x (xs ++ ys) ≡ (if mem x xs then erase x xs ++ ys else xs ++ erase x ys)
unfolding mem erase
erase-append x [] ys = refl
erase-append x (z ∷ zs) ys = ground (arith, erase-append x zs ys)
