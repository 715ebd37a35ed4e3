-- ===== src/WildcardTree.antt =====
-- engine/src/wildcardtree.h and wildcardtree.cpp: the prefix tree of the names that are online.
-- A `char` is a number and a string a list of them. The `std::map` of a node's children is an
-- association list; the source reads its order only where it has one entry.
pub mod Lookup
pub mod Shape
pub mod Members
pub mod Removal
pub mod Search
use otx_teste.Common.{
  ℕ, Bool, true, false, ◌||◌, ◌&&◌, not, List, [], ◌∷◌, ◌++◌, Option, none, some, ◌==◌,
  if◌then◌else◌,
}
use otx_teste.ReturnValue.{ReturnValue, noerror, playerwiththisnameisnotonline, nameistooambiguous}

mutual
  pub data Node : Type 0 where
    node : Children → Bool → Node

  pub data Children : Type 0 where
    nil : Children
    child : ℕ → Node → Children → Children

abbrev pub children : Node → Children
children (node cs b) = cs

abbrev pub breakpoint : Node → Bool
breakpoint (node cs b) = b

-- `children.find(ch)`.
unfoldable pub find_child : ℕ → Children → Option Node
find_child ch nil = none
find_child ch (child k n rest) = if k == ch then some n else find_child ch rest

-- `getChild`.
unfoldable pub get_child : ℕ → Node → Option Node
get_child ch n = find_child ch (children n)

-- What `addChild` does to a child that is there.
abbrev pub raise : Bool → Node → Node
raise bp (node cs b) = if bp && not b then node cs true else node cs b

-- The entry of `ch` replaced by `f` of it: the write through the pointer that `addChild` and
-- `getChild` return.
unfoldable pub update_child : ℕ → (Node → Node) → Children → Children
update_child ch f nil = nil
update_child ch f (child k n rest) =
    if k == ch then child k (f n) rest else child k n (update_child ch f rest)

-- `children.emplace`, of a key that is not there.
unfoldable pub emplace : ℕ → Node → Children → Children
emplace ch new nil = child ch new nil
emplace ch new (child k n rest) = child k n (emplace ch new rest)

-- `children.erase(children.find(ch))`.
unfoldable pub erase : ℕ → Children → Children
erase ch nil = nil
erase ch (child k n rest) = let kept = erase ch rest in if k == ch then rest else child k n kept

-- `addChild`: the tree after it; the child that it returns is the entry of `ch`.
unfoldable pub add_child : ℕ → Bool → Node → Node
unfolding find_child update_child emplace
add_child ch bp (node cs b) = elim (find_child ch cs) [
  | none ↦ node (emplace ch (node nil bp) cs) b
  | some m ↦ node (update_child ch (raise bp) cs) b
]

abbrev pub at_child : ℕ → (Node → Node) → Node → Node
at_child ch f (node cs b) = node (update_child ch f cs) b

-- The loop of `insert`. On the empty string the source reads before its first character; such a
-- call is not modelled, and leaves the tree.
unfoldable pub insert : List ℕ → Node → Node
unfolding add_child update_child
insert [] n = n
insert (c ∷ []) n = add_child c true n
insert (c ∷ d ∷ rest) n = at_child c (insert (d ∷ rest)) (add_child c false n)

abbrev pub is_prunable : Node → Bool
is_prunable (node nil b) = not b
is_prunable (node (child k n rest) b) = false

-- `remove`: `none` where the walk down meets a missing child, and then nothing changes. On the way
-- back a node that has no children and is no breakpoint is erased from its parent; the first that
-- is kept leaves all above it with a child, so that they are kept too.
unfoldable pub remove_walk : List ℕ → Node → Option Node
unfolding find_child update_child erase
remove_walk [] (node cs b) = some (node cs false)
remove_walk (c ∷ str) (node cs b) = elim (find_child c cs) [
  | none ↦ none
  | some m ↦ elim (remove_walk str m) [
    | none ↦ none
    | some m' ↦
        some (if is_prunable m' then node (erase c cs) b else node (update_child c (λ _. m') cs) b)
  ]
]

unfoldable pub remove : List ℕ → Node → Node
unfolding remove_walk
remove str n = elim (remove_walk str n) [ none ↦ n | some n' ↦ n' ]

-- The first loop of `findOne`.
unfoldable pub walk : List ℕ → Node → Option Node
unfolding get_child
walk [] n = some n
walk (c ∷ str) n = elim (get_child c n) [ none ↦ none | some m ↦ walk str m ]

-- The second loop of `findOne`, with the string that it has put together so far.
unfoldable pub extend : Node → List ℕ → ReturnValue × List ℕ
extend (node nil b) result = (noerror, result)
extend (node (child k m nil) true) result = (nameistooambiguous, result)
extend (node (child k m nil) false) result = extend m (result ++ k ∷ [])
extend (node (child k m (child k' m' rest)) b) result = (nameistooambiguous, result)

-- `findOne`: what it returns, and what it leaves in `result`.
unfoldable pub find_one : List ℕ → List ℕ → Node → ReturnValue × List ℕ
unfolding walk extend
find_one query result n = elim (walk query n) [
  | none ↦ (playerwiththisnameisnotonline, result)
  | some cur ↦ extend cur query
]
