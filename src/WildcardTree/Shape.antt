-- ===== src/WildcardTree/Shape.antt =====
-- What every tree that the operations build looks like: the keys of a node are distinct, and no
-- child is a leaf without being a breakpoint.
use otx_teste.Common.{
  ℕ, ◌≡◌, ◌≢◌, refl, Bool, true, false, List, [], ◌∷◌, none, some, ◌==◌, arith, Option-cases,
  Bool-cases, inl, inr,
}
use otx_teste.WildcardTree.{
  Node, Children, node, nil, child, children, find_child, update_child, emplace, erase, add_child,
  at_child, raise, insert, is_prunable,
}
use otx_teste.WildcardTree.Lookup.{
  find_child-update_child, find_child-emplace, find_child-erase, Unique,
}

abbrev mutual
  pub IsTree : Node → Type 0
  IsTree (node cs b) = AreTrees cs

  pub AreTrees : Children → Type 0
  AreTrees nil = Unit {0}
  AreTrees (child k n rest) =
      (find_child k rest ≡ none) × (is_prunable n ≡ false) × IsTree n × AreTrees rest

pub AreTrees-Unique : (cs : Children) → AreTrees cs → Unique cs
AreTrees-Unique nil t = tt
AreTrees-Unique (child k n rest) t = (t.0, AreTrees-Unique rest t.3)

pub IsTree-find_child :
    (c : ℕ) (cs : Children) (m : Node)
    → AreTrees cs
    → find_child c cs ≡ some m
    → IsTree m × (is_prunable m ≡ false)
unfolding find_child
IsTree-find_child c nil m t e = cc
IsTree-find_child c (child k n rest) m t e = elim (Bool-cases (k == c)) [
  | inl same ↦ let same_node : n ≡ m = ground arith in rw (← same_node) (t.2, t.1)
  | inr diff ↦ IsTree-find_child c rest m t.3 (ground arith)
]

pub update_child-AreTrees :
    (c : ℕ) (f : Node → Node) (cs : Children)
    → ((m : Node) → find_child c cs ≡ some m → IsTree (f m) × (is_prunable (f m) ≡ false))
    → AreTrees cs
    → AreTrees (update_child c f cs)
unfolding find_child update_child
update_child-AreTrees c f nil keep t = tt
update_child-AreTrees c f (child k n rest) keep t = elim (Bool-cases (k == c)) [
  | inl same ↦ let (tree, kept) = keep n (rw same) in rw same (t.0, kept, tree, t.3)
  | inr diff ↦ rw diff (
    ground (arith, find_child-update_child k c f rest, t.0),
    t.1,
    t.2,
    update_child-AreTrees c f rest (λ m h. keep m (rw diff h)) t.3,
  )
]

pub emplace-AreTrees :
    (c : ℕ) (m : Node) (cs : Children)
    → find_child c cs ≡ none
    → IsTree m
    → is_prunable m ≡ false
    → AreTrees cs
    → AreTrees (emplace c m cs)
unfolding find_child emplace
emplace-AreTrees c m nil e tm p t = (e, p, tm, tt)
emplace-AreTrees c m (child k n rest) e tm p t = (
  ground (arith, find_child-emplace k c m rest),
  t.1,
  t.2,
  emplace-AreTrees c m rest (ground arith) tm p t.3,
)

pub erase-AreTrees : (c : ℕ) (cs : Children) → AreTrees cs → AreTrees (erase c cs)
unfolding find_child erase
erase-AreTrees c nil t = tt
erase-AreTrees c (child k n rest) t = elim (Bool-cases (k == c)) [
  | inl same ↦ rw same t.3
  | inr diff ↦ rw diff (
    ground (arith, find_child-erase k c rest (AreTrees-Unique rest t.3), t.0),
    t.1,
    t.2,
    erase-AreTrees c rest t.3,
  )
]

abbrev is_nil : Children → Bool
is_nil nil = true
is_nil (child k n rest) = false

is_prunable-children : (n : Node) → is_nil (children n) ≡ false → is_prunable n ≡ false
is_prunable-children (node nil b) h = cc
is_prunable-children (node (child k m rest) b) h = refl

is_nil-update_child :
    (c : ℕ) (f : Node → Node) (cs : Children) → is_nil (update_child c f cs) ≡ is_nil cs
unfolding update_child
is_nil-update_child c f nil = refl
is_nil-update_child c f (child k n rest) = ground arith

is_nil-emplace : (c : ℕ) (m : Node) (cs : Children) → is_nil (emplace c m cs) ≡ false
unfolding emplace
is_nil-emplace c m nil = refl
is_nil-emplace c m (child k n rest) = refl

is_nil-find_child :
    (c : ℕ) (cs : Children) (m : Node) → find_child c cs ≡ some m → is_nil cs ≡ false
unfolding find_child
is_nil-find_child c nil m e = cc
is_nil-find_child c (child k n rest) m e = refl

is_nil-add_child : (c : ℕ) (bp : Bool) (n : Node) → is_nil (children (add_child c bp n)) ≡ false
unfolding add_child
is_nil-add_child c bp (node cs b) = elim (Option-cases (find_child c cs)) [
  | inl e ↦ rw (e, add_child) (is_nil-emplace c (node nil bp) cs)
  | inr (m, e) ↦
      rw (e, add_child)
        (ground (arith, is_nil-update_child c (raise bp) cs, is_nil-find_child c cs m e))
]

is_nil-at_child :
    (c : ℕ) (f : Node → Node) (n : Node) → is_nil (children (at_child c f n)) ≡ is_nil (children n)
is_nil-at_child c f (node cs b) = is_nil-update_child c f cs

insert-not_prunable : (s : List ℕ) (n : Node) → s ≢ [] → is_prunable (insert s n) ≡ false
unfolding insert
insert-not_prunable [] n h = absurd (h refl)
insert-not_prunable (c ∷ []) n h = is_prunable-children _ (is_nil-add_child c true n)
insert-not_prunable (c ∷ d ∷ s) n h = is_prunable-children _ (
    ground
      (arith, is_nil-at_child c (insert (d ∷ s)) (add_child c false n), is_nil-add_child c false n))

update_child-emplace :
    (c : ℕ) (f : Node → Node) (m : Node) (cs : Children)
    → find_child c cs ≡ none
    → update_child c f (emplace c m cs) ≡ emplace c (f m) cs
unfolding update_child emplace find_child
update_child-emplace c f m nil e = ground arith
update_child-emplace c f m (child k n rest) e = ground (arith, update_child-emplace c f m rest)

raise-IsTree :
    (bp : Bool) (m : Node)
    → IsTree m × (is_prunable m ≡ false)
    → IsTree (raise bp m) × (is_prunable (raise bp m) ≡ false)
raise-IsTree bp (node nil b) t = ground arith
raise-IsTree bp (node (child k n rest) b) t = ground arith

-- Every insertion of a string that is not empty keeps the shape.
pub insert-IsTree : (s : List ℕ) (n : Node) → s ≢ [] → IsTree n → IsTree (insert s n)
unfolding insert add_child
insert-IsTree [] n h t = absurd (h refl)
insert-IsTree (c ∷ []) (node cs b) h t = elim (Option-cases (find_child c cs)) [
  | inl e ↦ rw (e, add_child) (emplace-AreTrees c (node nil true) cs e tt refl t)
  | inr (m, e) ↦
      rw (e, add_child)
        (update_child-AreTrees c (raise true) cs
          (λ m' e'. raise-IsTree true m' (IsTree-find_child c cs m' t e')) t)
]
insert-IsTree (c ∷ d ∷ s) (node cs b) h t = elim (Option-cases (find_child c cs)) [
  | inl e ↦
      rw (e, add_child)
        (rw (update_child-emplace c (insert (d ∷ s)) (node nil false) cs e) (
          emplace-AreTrees c (insert (d ∷ s) (node nil false)) cs e
            (insert-IsTree (d ∷ s) (node nil false) (λ z. cc) tt)
            (insert-not_prunable (d ∷ s) (node nil false) (λ z. cc)) t))
  | inr (m, e) ↦
      let raised =
        update_child-AreTrees c (raise false) cs
          (λ m' e'. raise-IsTree false m' (IsTree-find_child c cs m' t e')) t in
      rw (e, add_child)
        (update_child-AreTrees c (insert (d ∷ s)) (update_child c (raise false) cs)
          (λ m' e'. (
            insert-IsTree (d ∷ s) m' (λ z. cc)
                (IsTree-find_child c (update_child c (raise false) cs) m' raised e').0,
            insert-not_prunable (d ∷ s) m' (λ z. cc),
          ))
          raised)
]
