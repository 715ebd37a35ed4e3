-- ===== src/WildcardTree/Members.antt =====
-- The tree as a set of strings: `insert` adds one and `remove` takes one away.
use mathlib.Core.Option
use otx_teste.Common.{
  ℕ, ◌≡◌, ◌≢◌, refl, ◌∙◌, Bool, true, false, ◌||◌, ◌&&◌, List, [], ◌∷◌, Option, none, some, ◌==◌,
  if◌then◌else◌, arith, Option-cases, Bool-cases, inl, inr, ==_iff,
}
use otx_teste.WildcardTree.{
  Node, node, nil, children, breakpoint, find_child, update_child, add_child, at_child, raise,
  insert,
}
use otx_teste.WildcardTree.Lookup.{find_child-update_child, find_child-emplace}

-- Whether a string is in the tree: its walk ends at a breakpoint.
unfoldable pub contains : List ℕ → Node → Bool
contains [] (node cs b) = b
contains (c ∷ str) (node cs b) = elim (find_child c cs) [ none ↦ false | some m ↦ contains str m ]

abbrev pub str_eq : List ℕ → List ℕ → Bool
str_eq [] [] = true
str_eq [] (d ∷ t) = false
str_eq (c ∷ s) [] = false
str_eq (c ∷ s) (d ∷ t) = (c == d) && str_eq s t

-- The set below a child, empty where there is none.
abbrev pub contains? : List ℕ → Option Node → Bool
contains? str none = false
contains? str (some m) = contains str m

pub contains-cons :
    (c : ℕ) (str : List ℕ) (n : Node)
    → contains (c ∷ str) n ≡ contains? str (find_child c (children n))
unfolding contains
contains-cons c str (node cs b) = ground arith

contains-raise :
    (q : List ℕ) (bp : Bool) (n : Node)
    → contains q (raise bp n) ≡ (str_eq [] q && bp || contains q n)
unfolding contains
contains-raise [] bp (node cs b) = ground arith
contains-raise (c ∷ q) bp (node cs b) = ground arith

contains-leaf : (q : List ℕ) (bp : Bool) → contains q (node nil bp) ≡ (str_eq [] q && bp)
unfolding contains find_child
contains-leaf [] bp = ground arith
contains-leaf (c ∷ q) bp = refl

-- The child that `addChild` returns.
added_child :
    (c : ℕ) (bp : Bool) (n : Node)
    → (m : Node) × (find_child c (children (add_child c bp n)) ≡ some m)
      × ((q : List ℕ)
          → contains q m ≡ (str_eq [] q && bp || contains? q (find_child c (children n))))
unfolding add_child
added_child c bp (node cs b) = elim (Option-cases (find_child c cs)) [
  | inl e ↦ (
    node nil bp,
    rw (e, add_child) (ground (arith, find_child-emplace c c (node nil bp) cs e)),
    λ q. rw e (ground (arith, contains-leaf q bp)),
  )
  | inr (m, e) ↦ (
    raise bp m,
    rw (e, add_child) (ground (arith, find_child-update_child c c (raise bp) cs)),
    λ q. rw e (contains-raise q bp m),
  )
]

other_child :
    (c d : ℕ) (bp : Bool) (n : Node)
    → (c == d) ≡ false
    → find_child d (children (add_child c bp n)) ≡ find_child d (children n)
unfolding add_child
other_child c d bp (node cs b) h = elim (Option-cases (find_child c cs)) [
  | inl e ↦ rw (e, add_child) (ground (arith, find_child-emplace d c (node nil bp) cs e))
  | inr (m, e) ↦ rw (e, add_child) (ground (arith, find_child-update_child d c (raise bp) cs))
]

breakpoint-add_child : (c : ℕ) (bp : Bool) (n : Node) → breakpoint (add_child c bp n) ≡ breakpoint n
unfolding add_child
breakpoint-add_child c bp (node cs b) = ground arith

contains-nil : (n : Node) → contains [] n ≡ breakpoint n
unfolding contains
contains-nil (node cs b) = refl

-- `addChild` adds the string of one character, if it is a breakpoint.
contains-add_child :
    (q : List ℕ) (c : ℕ) (bp : Bool) (n : Node)
    → contains q (add_child c bp n) ≡ (str_eq (c ∷ []) q && bp || contains q n)
contains-add_child [] c bp n = rw (contains-nil, contains-nil) (breakpoint-add_child c bp n)
contains-add_child (d ∷ q) c bp n = elim (Bool-cases (c == d)) [
  | inl e ↦ rw ((==_iff c d).0 e) (
      let (m, at, all) = added_child d bp n in
      ground (arith, contains-cons d q (add_child d bp n), contains-cons d q n, at, all q))
  | inr e ↦
      ground
        (arith, contains-cons d q (add_child c bp n), contains-cons d q n, other_child c d bp n e)
]

contains-at_child :
    (c d : ℕ) (q : List ℕ) (f : Node → Node) (n : Node)
    → contains (d ∷ q) (at_child c f n) ≡ (
        if c == d
        then contains? q (Option.map f (find_child d (children n)))
        else contains (d ∷ q) n)
contains-at_child c d q f (node cs b) = ground (
  arith,
  contains-cons d q (node (update_child c f cs) b),
  contains-cons d q (node cs b),
  find_child-update_child d c f cs,
)

breakpoint-at_child :
    (c : ℕ) (f : Node → Node) (n : Node) → breakpoint (at_child c f n) ≡ breakpoint n
breakpoint-at_child c f (node cs b) = refl

-- Inserting a string that is not empty adds it to the set, and no other.
pub contains-insert :
    (s q : List ℕ) (n : Node) → s ≢ [] → contains q (insert s n) ≡ (str_eq s q || contains q n)
unfolding insert
contains-insert [] q n h = absurd (h refl)
contains-insert (c ∷ []) q n h = ground (arith, contains-add_child q c true n)
contains-insert (c ∷ d ∷ s) [] n h =
    rw (contains-nil (at_child c (insert (d ∷ s)) (add_child c false n)), contains-nil n)
      (breakpoint-at_child c (insert (d ∷ s)) (add_child c false n)
        ∙ breakpoint-add_child c false n)
contains-insert (c ∷ d ∷ s) (e ∷ q) n h = elim (Bool-cases (c == e)) [
  | inl same ↦ rw ((==_iff c e).0 same) (
      let (m, at, all) = added_child e false n in
      ground (
        arith,
        contains-at_child e e q (insert (d ∷ s)) (add_child e false n),
        at,
        all q,
        contains-insert (d ∷ s) q m (λ z. cc),
        contains-cons e q n,
      ))
  | inr diff ↦ ground (
    arith,
    contains-at_child c e q (insert (d ∷ s)) (add_child c false n),
    contains-add_child (e ∷ q) c false n,
  )
]
