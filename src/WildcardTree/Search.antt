-- ===== src/WildcardTree/Search.antt =====
-- `findOne` of engine/src/wildcardtree.cpp against the set of strings in the tree.
use mathlib.Core.List.{append-nil, append_assoc}
use otx_teste.Common.{
  ℕ, ◌≡◌, ◌≢◌, refl, sym, ◌∙◌, Bool, true, false, List, [], ◌∷◌, ◌++◌, some, ◌⊎◌, ◌==◌, arith,
  Option-cases, Bool-cases, inl, inr,
}
use otx_teste.ReturnValue.{ReturnValue, noerror, playerwiththisnameisnotonline, nameistooambiguous}
use otx_teste.WildcardTree.{
  Node, Children, node, nil, child, children, find_child, get_child, is_prunable, walk, extend,
  find_one,
}
use otx_teste.WildcardTree.Shape.{IsTree, IsTree-find_child}
use otx_teste.WildcardTree.Members.{contains, contains?, contains-cons}

some_string : Node → List ℕ
some_string (node nil b) = []
some_string (node (child k m rest) b) = k ∷ some_string m

contains-first :
    (k : ℕ) (q : List ℕ) (m : Node) (rest : Children) (b : Bool)
    → contains (k ∷ q) (node (child k m rest) b) ≡ contains q m
unfolding contains find_child
contains-first k q m rest b = ground arith

contains-some_string :
    (n : Node) → IsTree n → is_prunable n ≡ false → contains (some_string n) n ≡ true
unfolding some_string contains
contains-some_string (node nil b) t live = ground arith
contains-some_string (node (child k m rest) b) t live =
    contains-first k (some_string m) m rest b ∙ contains-some_string m t.2 t.1

-- One string `s` of the set is below the node, or there are two.
abbrev pub IsOnly : Node → List ℕ → Type 0
IsOnly n s = (contains s n ≡ true) × ((q : List ℕ) → contains q n ≡ true → q ≡ s)

abbrev pub HasTwo : Node → Type 0
HasTwo n = (s : List ℕ) × (t : List ℕ) × (s ≢ t) × (contains s n ≡ true) × (contains t n ≡ true)

abbrev Extends : Node → List ℕ → ReturnValue × List ℕ → Type 0
Extends n acc a =
    ((a.0 ≡ noerror) × (s : List ℕ) × (a.1 ≡ acc ++ s) × IsOnly n s)
    ⊎ ((a.0 ≡ nameistooambiguous) × HasTwo n)

IsOnly-cons :
    (k : ℕ) (m : Node) (s : List ℕ) → IsOnly m s → IsOnly (node (child k m nil) false) (k ∷ s)
unfolding contains find_child
IsOnly-cons k m s only = (contains-first k s m nil false ∙ only.0, λ q h. unique q h)
  where
    unique : (q : List ℕ) → contains q (node (child k m nil) false) ≡ true → q ≡ k ∷ s
    unique [] h = cc
    unique (d ∷ q) h = elim (Bool-cases (k == d)) [
      | inl same ↦ ground (arith, only.1 q)
      | inr diff ↦ ground arith
    ]

two_children :
    (k k' : ℕ) (m m' : Node) (rest : Children) (b : Bool)
    → IsTree (node (child k m (child k' m' rest)) b)
    → HasTwo (node (child k m (child k' m' rest)) b)
unfolding contains find_child
two_children k k' m m' rest b t = (
  k ∷ some_string m,
  k' ∷ some_string m',
  λ e. ground arith,
  ground (arith, contains-some_string m t.2 t.1),
  ground (arith, contains-some_string m' t.3.2 t.3.1),
)

leaf-IsOnly : (b : Bool) → is_prunable (node nil b) ≡ false → IsOnly (node nil b) []
unfolding contains find_child
leaf-IsOnly b live = (ground arith, λ q h. empty q h)
  where
    empty : (q : List ℕ) → contains q (node nil b) ≡ true → q ≡ []
    empty [] h = refl
    empty (d ∷ q) h = cc

named_child :
    (k : ℕ) (m : Node) → IsTree (node (child k m nil) true) → HasTwo (node (child k m nil) true)
unfolding contains
named_child k m t = (
  [],
  k ∷ some_string m,
  λ e. cc,
  refl,
  contains-first k (some_string m) m nil true ∙ contains-some_string m t.2 t.1,
)

HasTwo-cons : (k : ℕ) (m : Node) → HasTwo m → HasTwo (node (child k m nil) false)
HasTwo-cons k m (s, t, ne, hs, ht) = (
  k ∷ s,
  k ∷ t,
  λ e. ne (cc),
  contains-first k s m nil false ∙ hs,
  contains-first k t m nil false ∙ ht,
)

extend-Extends :
    (n : Node) (acc : List ℕ) → IsTree n → is_prunable n ≡ false → Extends n acc (extend n acc)
unfolding extend
extend-Extends (node nil b) acc t live = inl (refl, [], sym (append-nil acc), leaf-IsOnly b live)
extend-Extends (node (child k m nil) true) acc t live = inr (refl, named_child k m t)
extend-Extends (node (child k m nil) false) acc t live =
    elim (extend-Extends m (acc ++ k ∷ []) t.2 t.1) [
      | inl (e, s, f, only) ↦
          inl (e, k ∷ s, f ∙ append_assoc acc (k ∷ []) s, IsOnly-cons k m s only)
      | inr (e, two) ↦ inr (e, HasTwo-cons k m two)
    ]
extend-Extends (node (child k m (child k' m' rest)) b) acc t live =
    inr (refl, two_children k k' m m' rest b t)

contains-walk : (query s : List ℕ) (n : Node) → contains (query ++ s) n ≡ contains? s (walk query n)
unfolding walk get_child contains
contains-walk [] s n = refl
contains-walk (c ∷ query) s n = elim (Option-cases (find_child c (children n))) [
  | inl e ↦ contains-cons c (query ++ s) n ∙ rw (e, walk)
  | inr (m, e) ↦ contains-cons c (query ++ s) n ∙ rw (e, walk) (contains-walk query s m)
]

walk-IsTree :
    (query : List ℕ) (n m : Node)
    → IsTree n
    → (is_prunable n ≡ false) ⊎ (query ≢ [])
    → walk query n ≡ some m
    → IsTree m × (is_prunable m ≡ false)
unfolding walk get_child
walk-IsTree [] n m t (inl live) e = let same : n ≡ m = ground arith in rw (← same) (t, live)
walk-IsTree [] n m t (inr ne) e = absurd (ne refl)
walk-IsTree (c ∷ query) (node cs b) m t h e = elim (Option-cases (find_child c cs)) [
  | inl f ↦ let missing = rw (f, walk) at e in cc
  | inr (k, f) ↦
      let (tree, live) = IsTree-find_child c cs k t f in
      walk-IsTree query k m tree (inl live) (rw (f, walk) at e)
]

-- The three answers, in terms of the set: no string of it begins with the query; exactly one
-- does, and it is the result; or two do.
abbrev pub Answers : List ℕ → List ℕ → Node → ReturnValue × List ℕ → Type 0
Answers query old n a =
    ((a ≡ (playerwiththisnameisnotonline, old)) × ((s : List ℕ) → contains (query ++ s) n ≡ false))
    ⊎ (((a.0 ≡ noerror)
          × (s : List ℕ) × (a.1 ≡ query ++ s)
          × (contains (query ++ s) n ≡ true)
          × ((q : List ℕ) → contains (query ++ q) n ≡ true → q ≡ s))
        ⊎ ((a.0 ≡ nameistooambiguous)
            × (s : List ℕ) × (t : List ℕ) × (s ≢ t)
            × (contains (query ++ s) n ≡ true)
            × (contains (query ++ t) n ≡ true)))

-- In a tree that holds a string, or with a query that is not empty, `findOne` answers that no
-- string begins with the query when none does and leaves the result alone, the only such string
-- when there is one, and that the name is ambiguous when there are two.
pub find_one-Answers :
    (query old : List ℕ) (n : Node)
    → IsTree n
    → (is_prunable n ≡ false) ⊎ (query ≢ [])
    → Answers query old n (find_one query old n)
unfolding find_one
find_one-Answers query old n t h = elim (Option-cases (walk query n)) [
  | inl e ↦ rw (e, find_one) (inl (refl, λ s. contains-walk query s n ∙ rw e))
  | inr (m, e) ↦
      let (tree, live) = walk-IsTree query n m t h e in
      let below : (s : List ℕ) → contains (query ++ s) n ≡ contains s m =
        λ s. contains-walk query s n ∙ (rw e) in
      rw (e, find_one)
        (elim (extend-Extends m query tree live) [
          | inl (ok, s, r, only) ↦
              inr (inl (ok, s, r, below s ∙ only.0, λ q hq. only.1 q (sym (below q) ∙ hq)))
          | inr (amb, two) ↦
              let (s, u, ne, hs, hu) = two in inr (inr (amb, s, u, ne, below s ∙ hs, below u ∙ hu))
        ])
]
