-- ===== src/WildcardTree/Lookup.antt =====
-- The children of a node as a map: lookups after each change.
use mathlib.Core.Option
use otx_teste.Common.{ℕ, ◌≡◌, refl, none, some, ◌==◌, if◌then◌else◌, arith}
use otx_teste.WildcardTree.{Node, Children, nil, child, find_child, update_child, emplace, erase}

pub find_child-update_child :
    (d c : ℕ) (f : Node → Node) (cs : Children)
    → find_child d (update_child c f cs)
      ≡ (if c == d then Option.map f (find_child d cs) else find_child d cs)
unfolding find_child update_child
find_child-update_child d c f nil = ground arith
find_child-update_child d c f (child k n rest) = ground (arith, find_child-update_child d c f rest)

pub find_child-emplace :
    (d c : ℕ) (m : Node) (cs : Children)
    → find_child c cs ≡ none
    → find_child d (emplace c m cs) ≡ (if c == d then some m else find_child d cs)
unfolding find_child emplace
find_child-emplace d c m nil h = refl
find_child-emplace d c m (child k n rest) h = ground (arith, find_child-emplace d c m rest)

-- Keys are unique, as in a `std::map`.
abbrev pub Unique : Children → Type 0
Unique nil = Unit {0}
Unique (child k n rest) = (find_child k rest ≡ none) × Unique rest

pub find_child-erase :
    (d c : ℕ) (cs : Children)
    → Unique cs
    → find_child d (erase c cs) ≡ (if c == d then none else find_child d cs)
unfolding find_child erase
find_child-erase d c nil u = ground arith
find_child-erase d c (child k n rest) u = ground (arith, find_child-erase d c rest u.1)
