-- ===== src/FileLoader/Sizes.antt =====
-- engine/src/fileloader.cpp: what a loaded tree takes of the file, and files that are cut off.
use mathlib.Core.List.{append-nil}
use mathlib.Core.Option.{some-injective, none-ne-some}
use otx_teste.Common.{
  ℕ, ◌+◌, ◌<◌, ◌≤◌, ◌≡◌, refl, ap, none, some, List, [], ◌∷◌, ◌++◌, ◌==◌, ◌||◌, length, take, drop,
  arith, length-append, length-take, take-append-drop, Option-cases, inl, inr, if_either,
}
use otx_teste.FileLoader.{
  Node, Nodes, Frame, ParseState, node, no_nodes, one_more, reading, starting, escaping, emptied,
  emptied_escaping, thrown, start_byte, end_byte, escape_byte, emplace_back, no_children, pass,
  new_frame, close, pop, turn, turn_emptied, step, parse_loop, parsed, parse_tree,
}
use otx_teste.FileLoader.Printed.{
  parse_loop-append, print, print_all, raw, raw_all, escape, parse_tree-print, all_plain,
}

-- The bytes of a node: START, its type and END, its properties, its children.
unfoldable mutual
  pub size : Node → ℕ
  size (node t props children) = 3 + length props + size_all children

  pub size_all : Nodes → ℕ
  size_all no_nodes = 0
  size_all (one_more n ns) = size n + size_all ns

abbrev frame_size : Frame → ℕ
frame_size f = 2 + length f.props + size_all f.children

abbrev stack_size : List Frame → ℕ
stack_size [] = 0
stack_size (f ∷ below) = frame_size f + stack_size below

abbrev state_size : ParseState → ℕ
state_size (reading f below) = frame_size f + stack_size below
state_size (starting f below) = 1 + frame_size f + stack_size below
state_size (escaping f below) = frame_size f + stack_size below
state_size (emptied root) = size root
state_size (emptied_escaping root) = size root
state_size thrown = 0

size_all-emplace_back :
    (ns : Nodes) (n : Node) → size_all (emplace_back ns n) ≡ size_all ns + size n
unfolding size_all emplace_back
size_all-emplace_back ns n = elim ns as (λ k. size_all (emplace_back k n) ≡ size_all k + size n) [
  | no_nodes ↦ omega arith
  | one_more m (ms → ih) ↦ omega (arith, ih)
]

pass_size : (b : ℕ) (f : Frame) → frame_size (pass b f) ≤ 1 + frame_size f
unfolding pass
pass_size b f =
    if_either (λ g. frame_size g ≤ 1 + frame_size f) (no_children f.children)
      {x = record f { props = f.props ++ (b ∷ []) }} {y = f}
      (λ e. omega (arith, length-append f.props (b ∷ []))) (λ e. omega arith)

pop_size :
    (f : Frame) (below : List Frame)
    → state_size (pop f below) ≤ 1 + frame_size f + stack_size below
unfolding pop size
pop_size f [] = omega arith
pop_size f (g ∷ below) = omega (arith, size_all-emplace_back g.children (close f))

turn_size :
    (b : ℕ) (f : Frame) (below : List Frame)
    → state_size (turn b f below) ≤ 1 + frame_size f + stack_size below
unfolding turn
turn_size b f below = ground (arith, pop_size f below, pass_size b f)

-- One byte makes the state larger by at most one.
step_size : (b : ℕ) (s : ParseState) → state_size (step b s) ≤ 1 + state_size s
unfolding step
step_size b (reading f below) = omega (arith, turn_size b f below)
step_size b (starting f below) = unfold size_all in omega arith
step_size b (escaping f below) = omega (arith, pass_size b f)
step_size b (emptied root) = unfold turn_emptied in ground arith
step_size b (emptied_escaping root) = omega arith
step_size b thrown = omega arith

parse_loop_size :
    (bs : List ℕ) (s : ParseState) → state_size (parse_loop bs s) ≤ length bs + state_size s
unfolding parse_loop
parse_loop_size [] s = omega arith
parse_loop_size (b ∷ bs) s = omega (arith, parse_loop_size bs (step b s), step_size b s)

-- The stack is empty and the root is `n`, or the file was found invalid.
data Keeps (n : Node) : ParseState → Type 0 where
  keeps_emptied : Keeps n (emptied n)
  keeps_escaping : Keeps n (emptied_escaping n)
  keeps_thrown : Keeps n thrown

turn_emptied-Keeps : (b : ℕ) (n : Node) → Keeps n (turn_emptied b n)
unfolding turn_emptied
turn_emptied-Keeps b n =
    if_either (Keeps n) (b == start_byte || b == end_byte) (λ e. keeps_thrown)
      (λ e. if_either (Keeps n) (b == escape_byte) (λ f. keeps_escaping) (λ f. keeps_emptied))

step-Keeps : (n : Node) (b : ℕ) (s : ParseState) → Keeps n s → Keeps n (step b s)
unfolding step
step-Keeps n b _ keeps_emptied = turn_emptied-Keeps b n
step-Keeps n b _ keeps_escaping = keeps_emptied
step-Keeps n b _ keeps_thrown = keeps_thrown

parse_loop-Keeps : (n : Node) (bs : List ℕ) (s : ParseState) → Keeps n s → Keeps n (parse_loop bs s)
unfolding parse_loop
parse_loop-Keeps n [] s k = k
parse_loop-Keeps n (b ∷ bs) s k = parse_loop-Keeps n bs (step b s) (step-Keeps n b s k)

Keeps-parsed : (n m : Node) (s : ParseState) → Keeps n s → parsed s ≡ some m → n ≡ m
unfolding parsed
Keeps-parsed n m _ keeps_emptied e = some-injective _ _ e
Keeps-parsed n m _ keeps_escaping e = absurd (none-ne-some m e)
Keeps-parsed n m _ keeps_thrown e = absurd (none-ne-some m e)

parsed-Keeps : (n : Node) (s : ParseState) → parsed s ≡ some n → Keeps n s
unfolding parsed
parsed-Keeps n (emptied root) e = let same = some-injective _ _ e in rw same keeps_emptied
parsed-Keeps n _ e = absurd (none-ne-some n e)

-- The tree of the loop's end is not changed by further bytes.
parsed-append :
    (xs ys : List ℕ) (s : ParseState) (m n : Node)
    → parsed (parse_loop xs s) ≡ some m
    → parsed (parse_loop (xs ++ ys) s) ≡ some n
    → m ≡ n
parsed-append xs ys s m n early late =
    let state = parse_loop xs s in
    Keeps-parsed m n (parse_loop ys state)
      (parse_loop-Keeps m ys state (parsed-Keeps m state early)) (rw parse_loop-append at late)

parsed_size : (n : Node) (s : ParseState) → parsed s ≡ some n → size n ≤ state_size s
unfolding parsed
parsed_size n (emptied root) e = let same = some-injective _ _ e in rw same (omega arith)
parsed_size n _ e = absurd (none-ne-some n e)

parse_tree-cons :
    (s t : ℕ) (bs : List ℕ) (n : Node)
    → parse_tree (s ∷ t ∷ bs) ≡ some n
    → parsed (parse_loop bs (reading (new_frame t) [])) ≡ some n
unfolding parse_tree
parse_tree-cons s t bs n e = ground (arith, e)

-- A tree takes no more than the bytes that it is read from.
pub parse_tree_size : (n : Node) (bs : List ℕ) → parse_tree bs ≡ some n → size n ≤ length bs
unfolding parse_tree
parse_tree_size n [] e = absurd (none-ne-some n e)
parse_tree_size n (s ∷ []) e = absurd (none-ne-some n e)
parse_tree_size n (s ∷ t ∷ bs) e =
    let start = reading (new_frame t) [] in
    let whole = parsed_size n (parse_loop bs start) (parse_tree-cons s t bs n e) in
    unfold size_all in omega (arith, whole, parse_loop_size bs start)

parse_tree-append :
    (xs ys : List ℕ) (m n : Node) → parse_tree xs ≡ some m → parse_tree (xs ++ ys) ≡ some n → m ≡ n
unfolding parse_tree
parse_tree-append [] ys m n early late = absurd (none-ne-some m early)
parse_tree-append (s ∷ []) ys m n early late = absurd (none-ne-some m early)
parse_tree-append (s ∷ t ∷ xs) ys m n early late =
    parsed-append xs ys (reading (new_frame t) []) m n (parse_tree-cons s t xs m early)
      (parse_tree-cons s t (xs ++ ys) n late)

size-raw : (n : Node) → size (raw n) ≡ length (print n)
unfolding size raw print size_all raw_all print_all
size-raw n =
    elim n
      as (λ m. size (raw m) ≡ length (print m)) (λ ms.
        size_all (raw_all ms) ≡ length (print_all ms)) [
          | node t props (ns → ih) ↦ omega (
            arith,
            ih,
            length-append (escape props) (print_all ns ++ (end_byte ∷ [])),
            length-append (print_all ns) (end_byte ∷ []),
          )
          | no_nodes ↦ omega arith
          | one_more (m → ihm) (ns → ihs) ↦
              omega (arith, ihm, ihs, length-append (print m) (print_all ns))
        ]

-- A printed tree that is cut off anywhere is rejected: `parseTree` throws.
pub parse_tree-take_error :
    (n : Node) (k : ℕ) → k < length (print n) → parse_tree (take k (print n)) ≡ none
parse_tree-take_error n k short = elim (Option-cases (parse_tree (take k (print n)))) [
  | inl e ↦ e
  | inr (m, e) ↦
      let whole : parse_tree (take k (print n) ++ drop k (print n)) ≡ some (raw n) =
        rw (take-append-drop k (print n))
          (rw append-nil at (parse_tree-print n [] (unfold all_plain in refl))) in
      let same = parse_tree-append (take k (print n)) (drop k (print n)) m (raw n) e whole in
      let fits = parse_tree_size m (take k (print n)) e in
      absurd (omega (arith, length-take k (print n), size-raw n, ap size same, fits))
]
