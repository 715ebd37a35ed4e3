-- ===== src/Tests/Names.antt =====
-- Runs of the tree of names.
use otx_teste.Common.{ℕ, ◌≡◌, refl, false, not, ◌&&◌, ◌||◌, List, [], ◌∷◌, inr}
use otx_teste.ReturnValue.{noerror, nameistooambiguous}
use otx_teste.WildcardTree.{Node, node, nil, insert, remove, find_one}
use otx_teste.WildcardTree.Shape.{IsTree, insert-IsTree}
use otx_teste.WildcardTree.Members.{contains, str_eq, contains-insert}
use otx_teste.WildcardTree.Removal.{contains-remove}
use otx_teste.WildcardTree.Search.{Answers, find_one-Answers}

-- The root, with the names 1 2 3 and 1 2 4.
abbrev root : Node
root = node nil false

abbrev online : Node
online = insert (1 ∷ 2 ∷ 4 ∷ []) (insert (1 ∷ 2 ∷ 3 ∷ []) root)

ambiguous : find_one (1 ∷ []) [] online ≡ (nameistooambiguous, 1 ∷ 2 ∷ [])
unfolding find_one insert
ambiguous = refl

completed : find_one (1 ∷ 2 ∷ 4 ∷ []) [] online ≡ (noerror, 1 ∷ 2 ∷ 4 ∷ [])
unfolding find_one insert
completed = refl

removed : find_one (1 ∷ []) [] (remove (1 ∷ 2 ∷ 4 ∷ []) online) ≡ (noerror, 1 ∷ 2 ∷ 3 ∷ [])
unfolding find_one insert remove
removed = refl

online-IsTree : IsTree online
online-IsTree =
    insert-IsTree (1 ∷ 2 ∷ 4 ∷ []) (insert (1 ∷ 2 ∷ 3 ∷ []) root) (λ e. cc)
      (insert-IsTree (1 ∷ 2 ∷ 3 ∷ []) root (λ e. cc) tt)

contains-insert_example :
    contains (1 ∷ 2 ∷ []) (insert (1 ∷ 2 ∷ []) root)
    ≡ (str_eq (1 ∷ 2 ∷ []) (1 ∷ 2 ∷ []) || contains (1 ∷ 2 ∷ []) root)
contains-insert_example = contains-insert (1 ∷ 2 ∷ []) (1 ∷ 2 ∷ []) root (λ e. cc)

contains-remove_example :
    IsTree (remove (1 ∷ 2 ∷ 4 ∷ []) online)
    × ((q : List ℕ)
        → contains q (remove (1 ∷ 2 ∷ 4 ∷ []) online)
          ≡ (not (str_eq (1 ∷ 2 ∷ 4 ∷ []) q) && contains q online))
contains-remove_example = contains-remove (1 ∷ 2 ∷ 4 ∷ []) online online-IsTree

find_one-Answers_example : Answers (1 ∷ []) [] online (find_one (1 ∷ []) [] online)
find_one-Answers_example = find_one-Answers (1 ∷ []) [] online online-IsTree (inr (λ e. cc))
