-- ===== src/WildcardTree/Removal.antt =====
-- `remove` of engine/src/wildcardtree.cpp takes one string out of the set and keeps the shape.
use otx_teste.Common.{
  ℕ, ◌≡◌, refl, Bool, true, false, not, ◌&&◌, List, [], ◌∷◌, Option, none, some, ◌==◌, arith,
  Option-cases, Bool-cases, inl, inr, ==_iff,
}
use otx_teste.WildcardTree.{
  Node, Children, node, nil, child, find_child, update_child, erase, is_prunable, remove_walk,
  remove,
}
use otx_teste.WildcardTree.Lookup.{find_child-update_child, find_child-erase}
use otx_teste.WildcardTree.Shape.{
  IsTree, AreTrees, AreTrees-Unique, IsTree-find_child, update_child-AreTrees, erase-AreTrees,
}
use otx_teste.WildcardTree.Members.{contains, contains-cons, str_eq}

-- What the walk of `remove` may answer at a node.
abbrev Removed : List ℕ → Node → Option Node → Type 0
Removed s n none = contains s n ≡ false
Removed s n (some n') =
    IsTree n' × ((q : List ℕ) → contains q n' ≡ (not (str_eq s q) && contains q n))

-- A tree that the climb erases holds no string.
prunable-contains : (n : Node) (q : List ℕ) → is_prunable n ≡ true → contains q n ≡ false
unfolding contains find_child
prunable-contains (node nil b) [] h = ground arith
prunable-contains (node nil b) (c ∷ q) h = refl
prunable-contains (node (child k m rest) b) q h = cc

module _ (c : ℕ) (s : List ℕ) (cs : Children) (b : Bool) (m m' : Node) where
  -- The child replaced.
  replaced :
      find_child c cs ≡ some m
      → ((q : List ℕ) → contains q m' ≡ (not (str_eq s q) && contains q m))
      → (q : List ℕ)
      → contains q (node (update_child c (λ _. m') cs) b)
        ≡ (not (str_eq (c ∷ s) q) && contains q (node cs b))
  unfolding contains
  replaced e h [] = ground arith
  replaced e h (d ∷ q) = elim (Bool-cases (c == d)) [
    | inl same ↦
        let p : c ≡ d = (==_iff c d).0 same in
        ground (
          arith,
          contains-cons d q (node (update_child c (λ _. m') cs) b),
          contains-cons d q (node cs b),
          find_child-update_child d c (λ _. m') cs,
          h q,
          ap_find p,
        )
    | inr diff ↦ ground (
      arith,
      contains-cons d q (node (update_child c (λ _. m') cs) b),
      contains-cons d q (node cs b),
      find_child-update_child d c (λ _. m') cs,
    )
  ]
    where
      ap_find : {d : ℕ} → c ≡ d → find_child c cs ≡ find_child d cs
      ap_find p = rw p

  -- The child erased, since nothing is left in it.
  erased :
      AreTrees cs
      → find_child c cs ≡ some m
      → ((q : List ℕ) → contains q m' ≡ (not (str_eq s q) && contains q m))
      → is_prunable m' ≡ true
      → (q : List ℕ)
      → contains q (node (erase c cs) b) ≡ (not (str_eq (c ∷ s) q) && contains q (node cs b))
  unfolding contains
  erased t e h gone [] = ground arith
  erased t e h gone (d ∷ q) = elim (Bool-cases (c == d)) [
    | inl same ↦ ground (
      arith,
      contains-cons d q (node (erase c cs) b),
      contains-cons d q (node cs b),
      find_child-erase d c cs (AreTrees-Unique cs t),
      h q,
      prunable-contains m' q gone,
      ap_find ((==_iff c d).0 same),
    )
    | inr diff ↦ ground (
      arith,
      contains-cons d q (node (erase c cs) b),
      contains-cons d q (node cs b),
      find_child-erase d c cs (AreTrees-Unique cs t),
    )
  ]
    where
      ap_find : {d : ℕ} → c ≡ d → find_child c cs ≡ find_child d cs
      ap_find p = rw p

remove_walk-Removed : (s : List ℕ) (n : Node) → IsTree n → Removed s n (remove_walk s n)
unfolding remove_walk contains
remove_walk-Removed [] (node cs b) t = (t, λ q. at_end q)
  where
    at_end :
        (q : List ℕ) → contains q (node cs false) ≡ (not (str_eq [] q) && contains q (node cs b))
    at_end [] = refl
    at_end (c ∷ q) = refl
remove_walk-Removed (c ∷ s) (node cs b) t = elim (Option-cases (find_child c cs)) [
  | inl e ↦ rw (e, remove_walk) (ground (arith, contains-cons c s (node cs b)))
  | inr (m, e) ↦
      let (tree, kept) = IsTree-find_child c cs m t e in
      let below = remove_walk-Removed s m tree in
      elim (Option-cases (remove_walk s m)) [
        | inl r ↦
            let missing = rw r at below in
            rw (e, remove_walk, r) (ground (arith, contains-cons c s (node cs b)))
        | inr (m', r) ↦
            let (tree', set') = rw r at below in
            elim (Bool-cases (is_prunable m')) [
              | inl gone ↦
                  rw (e, remove_walk, r, gone)
                    (erase-AreTrees c cs t, erased c s cs b m m' t e set' gone)
              | inr stays ↦
                  rw (e, remove_walk, r, stays)
                    (
                      update_child-AreTrees c (λ _. m') cs (λ _ _. (tree', stays)) t,
                      replaced c s cs b m m' e set',
                    )
            ]
      ]
]

str_eq-eq : (s q : List ℕ) → str_eq s q ≡ true → s ≡ q
str_eq-eq [] [] h = refl
str_eq-eq [] (d ∷ q) h = cc
str_eq-eq (c ∷ s) [] h = cc
str_eq-eq (c ∷ s) (d ∷ q) h = ground (arith, str_eq-eq s q)

-- `remove` keeps the shape of the tree, and takes the string out of the set and no other, whether
-- or not it was there.
pub contains-remove :
    (s : List ℕ) (n : Node)
    → IsTree n
    → IsTree (remove s n)
      × ((q : List ℕ) → contains q (remove s n) ≡ (not (str_eq s q) && contains q n))
unfolding remove
contains-remove s n t =
    let answer = remove_walk-Removed s n t in
    elim (Option-cases (remove_walk s n)) [
      | inl r ↦ let missing = rw r at answer in rw (r, remove) (t, λ q. unchanged missing q)
      | inr (n', r) ↦ rw (r, remove) (rw r at answer)
    ]
  where
    unchanged :
        contains s n ≡ false → (q : List ℕ) → contains q n ≡ (not (str_eq s q) && contains q n)
    unchanged missing q = elim (Bool-cases (str_eq s q)) [
      | inl same ↦ let e : s ≡ q = str_eq-eq s q same in rw same (rw e at missing)
      | inr diff ↦ rw diff
    ]
