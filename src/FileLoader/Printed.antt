-- ===== src/FileLoader/Printed.antt =====
-- engine/src/fileloader.cpp: the files that a tree of nodes is read from. The engine only reads
-- such files, so `print` says independently of the reader how a tree lies in a file.
use mathlib.Core.List.{append_assoc, append-nil}
use mathlib.Core.Option
use otx_teste.Common.{
  ℕ, ◌≡◌, refl, ap, ◌∙◌, Bool, true, false, not, ◌||◌, ◌&&◌, Option, none, some, List, [], ◌∷◌,
  ◌++◌, leb, ◌==◌, if◌then◌else◌, length, is_empty, arith, Bool-cases, inl, inr, ltb, take-append,
  drop-append, length-append, ◌+◌,
}
use otx_teste.FileLoader.{
  Node, Nodes, Frame, ParseState, node, no_nodes, one_more, reading, emptied, escape_byte,
  start_byte, end_byte, emplace_back, pass, new_frame, pop, turn, ◌is◌, wildcard, turn_emptied,
  step, parse_loop, parsed, parse_tree, accepts, load, unescape, get_props,
}

-- The three bytes with a meaning are written behind an ESCAPE.
abbrev pub is_special : ℕ → Bool
is_special b = b == escape_byte || b == start_byte || b == end_byte

unfoldable pub escape : List ℕ → List ℕ
escape [] = []
escape (b ∷ bs) = if is_special b then escape_byte ∷ b ∷ escape bs else b ∷ escape bs

unfoldable mutual
  pub print : Node → List ℕ
  print (node t props children) =
      start_byte ∷ t ∷ (escape props ++ (print_all children ++ (end_byte ∷ [])))

  pub print_all : Nodes → List ℕ
  print_all no_nodes = []
  print_all (one_more n ns) = print n ++ print_all ns

-- The tree with the properties as they lie in the file.
unfoldable mutual
  pub raw : Node → Node
  raw (node t props children) = node t (escape props) (raw_all children)

  pub raw_all : Nodes → Nodes
  raw_all no_nodes = no_nodes
  raw_all (one_more n ns) = one_more (raw n) (raw_all ns)

pub parse_loop-append :
    (xs ys : List ℕ) (s : ParseState) → parse_loop (xs ++ ys) s ≡ parse_loop ys (parse_loop xs s)
unfolding parse_loop
parse_loop-append [] ys s = refl
parse_loop-append (x ∷ xs) ys s = parse_loop-append xs ys (step x s)

-- Removing the escapes gives the properties back.
pub unescape-escape : (bs : List ℕ) → unescape false (escape bs) ≡ bs
unfolding unescape escape
unescape-escape [] = refl
unescape-escape (b ∷ bs) = ground (arith, unescape-escape bs)

abbrev frame : ℕ → List ℕ → Nodes → Frame
frame t props children = record { type_ = t; props = props; children = children }

turn_ordinary :
    (b : ℕ) (f : Frame) (below : List Frame)
    → is_special b ≡ false
    → turn b f below ≡ reading (pass b f) below
unfolding turn
turn_ordinary b f below h = ground arith

-- Escaped properties ahead of the first child become the properties of the top of the stack.
parse_loop-escape :
    (bs : List ℕ) (t : ℕ) (props : List ℕ) (below : List Frame)
    → parse_loop (escape bs) (reading (frame t props no_nodes) below)
      ≡ reading (frame t (props ++ escape bs) no_nodes) below
unfolding parse_loop escape step pass
parse_loop-escape [] t props below = rw append-nil refl
parse_loop-escape (b ∷ bs) t props below = elim (Bool-cases (is_special b)) [
  | inl h ↦ rw h (
      unfold turn in
      rw
        (
          append_assoc (props ++ (escape_byte ∷ [])) (b ∷ []) (escape bs),
          append_assoc props (escape_byte ∷ []) ((b ∷ []) ++ escape bs),
        )
        at (parse_loop-escape bs t ((props ++ (escape_byte ∷ [])) ++ (b ∷ [])) below))
  | inr h ↦ rw h (
      ap (parse_loop (escape bs)) (turn_ordinary b (frame t props no_nodes) below h)
      ∙ (rw append_assoc at (parse_loop-escape bs t (props ++ (b ∷ [])) below)))
]

abbrev pub concat : Nodes → Nodes → Nodes
concat no_nodes ns = ns
concat (one_more m ms) ns = one_more m (concat ms ns)

pub concat-no_nodes : (ns : Nodes) → concat ns no_nodes ≡ ns
concat-no_nodes ns = elim ns as (λ k. concat k no_nodes ≡ k) [
  | no_nodes ↦ refl
  | one_more m (ms → ih) ↦ rw ih
]

-- A child behind the children that a node has.
pub concat-emplace_back :
    (ms : Nodes) (n : Node) (ns : Nodes) → concat (emplace_back ms n) ns ≡ concat ms (one_more n ns)
unfolding emplace_back
concat-emplace_back ms n ns =
    elim ms as (λ k. concat (emplace_back k n) ns ≡ concat k (one_more n ns)) [
      | no_nodes ↦ refl
      | one_more m (ms → ih) ↦ rw ih
    ]

-- A printed node, read with a node on the stack, becomes that node's last child.
abbrev ReadsNode : Node → Type 0
ReadsNode n =
    (t : ℕ) (props : List ℕ) (ms : Nodes) (below : List Frame) (rest : List ℕ)
    → parse_loop (print n ++ rest) (reading (frame t props ms) below)
      ≡ parse_loop rest (reading (frame t props (emplace_back ms (raw n))) below)

abbrev ReadsNodes : Nodes → Type 0
ReadsNodes ns =
    (t : ℕ) (props : List ℕ) (ms : Nodes) (below : List Frame) (rest : List ℕ)
    → parse_loop (print_all ns ++ rest) (reading (frame t props ms) below)
      ≡ parse_loop rest (reading (frame t props (concat ms (raw_all ns))) below)

-- What lies between a node's type and what follows the node.
abbrev body : List ℕ → Nodes → List ℕ → List ℕ
body props ns rest = escape props ++ (print_all ns ++ (end_byte ∷ rest))

parse_loop-body :
    (t : ℕ) (props : List ℕ) (ns : Nodes) (below : List Frame) (rest : List ℕ)
    → ReadsNodes ns
    → parse_loop (body props ns rest) (reading (new_frame t) below)
      ≡ parse_loop rest (pop (frame t (escape props) (raw_all ns)) below)
parse_loop-body t props ns below rest children =
    rw
      (
        parse_loop-append (escape props) (print_all ns ++ (end_byte ∷ rest))
            (reading (new_frame t) below),
        parse_loop-escape props t [] below,
        children t (escape props) no_nodes below (end_byte ∷ rest),
      )
      (unfold parse_loop step turn in refl)

print-body :
    (t : ℕ) (props : List ℕ) (ns : Nodes) (rest : List ℕ)
    → print (node t props ns) ++ rest ≡ start_byte ∷ t ∷ body props ns rest
unfolding print
print-body t props ns rest =
    rw (append_assoc (escape props) _ rest, append_assoc (print_all ns) (end_byte ∷ []) rest)

-- The children, if the first of them and those behind it are read.
no_nodes-ReadsNodes : ReadsNodes no_nodes
unfolding print_all raw_all
no_nodes-ReadsNodes t props ms below rest = rw (concat-no_nodes ms) refl

one_more-ReadsNodes :
    (n : Node) (ns : Nodes) → ReadsNode n → ReadsNodes ns → ReadsNodes (one_more n ns)
unfolding print_all raw_all
one_more-ReadsNodes n ns first others t props ms below rest =
    (rw (append_assoc (print n) (print_all ns) rest) refl)
    ∙ first t props ms below (print_all ns ++ rest)
    ∙ others t props (emplace_back ms (raw n)) below rest
    ∙ (rw (concat-emplace_back ms (raw n) (raw_all ns)) refl)

print-ReadsNode : (n : Node) → ReadsNode n
unfolding raw
print-ReadsNode n = elim n as ReadsNode ReadsNodes [
  | node t props (ns → ih) ↦ λ u ps ms below rest. rw (print-body t props ns rest) (
      unfold parse_loop step turn in
      (parse_loop-body t props ns (frame u ps ms ∷ below) rest ih ∙ (unfold pop in refl)))
  | no_nodes ↦ no_nodes-ReadsNodes
  | one_more (m → ihm) (ns → ihs) ↦ one_more-ReadsNodes m ns ihm ihs
]

print_all-ReadsNodes : (ns : Nodes) → ReadsNodes ns
print_all-ReadsNodes no_nodes = no_nodes-ReadsNodes
print_all-ReadsNodes (one_more n ns) =
    one_more-ReadsNodes n ns (print-ReadsNode n) (print_all-ReadsNodes ns)

-- The root, with anything behind it.
parse_loop-root :
    (t : ℕ) (props : List ℕ) (ns : Nodes) (rest : List ℕ)
    → parse_loop (body props ns rest) (reading (new_frame t) [])
      ≡ parse_loop rest (emptied (raw (node t props ns)))
unfolding raw
parse_loop-root t props ns rest =
    parse_loop-body t props ns [] rest (print_all-ReadsNodes ns) ∙ (unfold pop in refl)

-- Bytes without a meaning.
unfoldable pub all_plain : List ℕ → Bool
all_plain [] = true
all_plain (b ∷ bs) = not (is_special b) && all_plain bs

plain_turn :
    (b : ℕ) (rest : Bool) (root : Node)
    → (not (is_special b) && rest) ≡ true
    → (turn_emptied b root ≡ emptied root) × (rest ≡ true)
unfolding turn_emptied
plain_turn b rest root h = ground arith

parse_loop-all_plain :
    (bs : List ℕ) (root : Node) → all_plain bs ≡ true → parse_loop bs (emptied root) ≡ emptied root
unfolding all_plain parse_loop step
parse_loop-all_plain [] root h = refl
parse_loop-all_plain (b ∷ bs) root h =
    let (same, others) = plain_turn b (all_plain bs) root h in
    ap (parse_loop bs) same ∙ parse_loop-all_plain bs root others

-- The tree with the properties as `getProps` gives them, where it finds none the empty list.
abbrev pub found : Option (List ℕ) → List ℕ
found none = []
found (some props) = props

unfoldable mutual
  pub decoded : Node → Node
  decoded (node t props children) =
      node t (found (get_props (node t props children))) (decoded_all children)

  pub decoded_all : Nodes → Nodes
  decoded_all no_nodes = no_nodes
  decoded_all (one_more n ns) = one_more (decoded n) (decoded_all ns)

escape-is_empty : (bs : List ℕ) → is_empty (escape bs) ≡ is_empty bs
unfolding escape
escape-is_empty [] = refl
escape-is_empty (b ∷ bs) = ground arith

found-get_props :
    (t : ℕ) (props : List ℕ) (ns : Nodes) → found (get_props (node t (escape props) ns)) ≡ props
unfolding get_props
found-get_props t [] ns = unfold escape in refl
found-get_props t (b ∷ bs) ns = rw (escape-is_empty (b ∷ bs), unescape-escape (b ∷ bs)) refl

decoded-raw : (n : Node) → decoded (raw n) ≡ n
unfolding decoded raw decoded_all raw_all
decoded-raw n = elim n as (λ m. decoded (raw m) ≡ m) (λ ms. decoded_all (raw_all ms) ≡ ms) [
  | node t props (ns → ih) ↦ rw (found-get_props t props (raw_all ns), ih) refl
  | no_nodes ↦ refl
  | one_more (m → ihm) (ns → ihs) ↦ rw (ihm, ihs) refl
]

pub parse_tree-print :
    (n : Node) (trailing : List ℕ)
    → all_plain trailing ≡ true
    → parse_tree (print n ++ trailing) ≡ some (raw n)
unfolding parse_tree
parse_tree-print (node t props ns) trailing plain = rw (print-body t props ns trailing) (
    ap parsed (
      parse_loop-root t props ns trailing
      ∙ parse_loop-all_plain trailing (raw (node t props ns)) plain)
    ∙ (unfold parsed in refl))

-- A file of an identifier that the loader accepts, a printed tree, and bytes without a meaning
-- loads if more than three bytes follow the identifier, and is rejected otherwise. The properties
-- of every node of the loaded tree, read by `getProps`, make it the tree that was printed.
pub load-print :
    (accepted id trailing : List ℕ) (n : Node)
    → length id ≡ 4
    → ((id is accepted) || (id is wildcard)) ≡ true
    → all_plain trailing ≡ true
    → Option.map decoded (load accepted (id ++ (print n ++ trailing)))
      ≡ (if ltb 3 (length (print n ++ trailing)) then some n else none)
unfolding load accepts
load-print accepted id trailing n h ok plain =
    let k = print n ++ trailing in
    rw
      (
        rw h at (take-append id k),
        rw h at (drop-append id k),
        ok,
        parse_tree-print n trailing plain,
      )
      (sized (length (id ++ k)) (length k) (omega (arith, length-append id k)) n)
  where
    sized :
        (total behind : ℕ)
        → total ≡ 4 + behind
        → (n : Node)
        → Option.map decoded (if not (leb total 7) && true then some (raw n) else none)
          ≡ (if ltb 3 behind then some n else none)
    sized total behind e n = ground (arith, decoded-raw n)
