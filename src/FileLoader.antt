-- ===== src/FileLoader.antt =====
-- engine/src/fileloader.h and fileloader.cpp: trees of nodes in OTB files, and streams of
-- properties. A file is the list of its bytes, an exception `InvalidOTBFormat` is `none`. The loop
-- of `parseTree` takes one byte at a time here: where the source moves its iterator a second time
-- inside one turn, the state says what the next byte is.
pub mod Printed
pub mod Sizes
pub mod Streams
use otx_teste.Common.{
  ℕ, Bool, true, false, not, ◌&&◌, ◌||◌, Option, none, some, List, [], ◌∷◌, ◌++◌, leb, ◌==◌,
  if◌then◌else◌, length, take, drop, is_empty,
}

abbrev pub escape_byte : ℕ
escape_byte = 0xFD

abbrev pub start_byte : ℕ
start_byte = 0xFE

abbrev pub end_byte : ℕ
end_byte = 0xFF

-- A node: its type, the bytes between `propsBegin` and `propsEnd`, and its children.
mutual
  pub data Node : Type 0 where
    node : ℕ → List ℕ → Nodes → Node

  pub data Nodes : Type 0 where
    no_nodes : Nodes
    one_more : Node → Nodes → Nodes

-- A node on the stack. Its own properties grow until its first child.
pub record Frame : Type 0 where
  pub type_ : ℕ
  pub props : List ℕ
  pub children : Nodes

-- `reading`: the loop is at the start of a turn, `starting`: past a START, `escaping`: past an
-- ESCAPE, each with the top of the stack and what is below. `emptied`: the stack is empty, the
-- root is complete.
pub data ParseState : Type 0 where
  reading starting escaping : Frame → List Frame → ParseState
  emptied emptied_escaping : Node → ParseState
  thrown : ParseState

-- `children.emplace_back`.
unfoldable pub emplace_back : Nodes → Node → Nodes
emplace_back no_nodes n = one_more n no_nodes
emplace_back (one_more m ms) n = one_more m (emplace_back ms n)

abbrev pub no_children : Nodes → Bool
no_children no_nodes = true
no_children (one_more n ns) = false

-- A byte that the loop passes over belongs to the properties as long as there are no children.
unfoldable pub pass : ℕ → Frame → Frame
pass b f = if no_children f.children then record f { props = f.props ++ (b ∷ []) } else f

abbrev pub new_frame : ℕ → Frame
new_frame t = record { type_ = t; props = []; children = no_nodes }

abbrev pub close : Frame → Node
close f = node f.type_ f.props f.children

-- `parseStack.pop()`.
unfoldable pub pop : Frame → List Frame → ParseState
pop f [] = emptied (close f)
pop f (g ∷ below) = reading (record g { children = emplace_back g.children (close f) }) below

-- One turn of the loop with a node on the stack.
unfoldable pub turn : ℕ → Frame → List Frame → ParseState
unfolding pop pass
turn b f below =
    if b == start_byte
    then starting f below
    else if b == end_byte
    then pop f below
    else if b == escape_byte
    then escaping (pass b f) below
    else reading (pass b f) below

-- One turn of the loop with the stack empty: `getCurrentNode` throws.
unfoldable pub turn_emptied : ℕ → Node → ParseState
turn_emptied b root =
    if b == start_byte || b == end_byte
    then thrown
    else if b == escape_byte
    then emptied_escaping root
    else emptied root

unfoldable pub step : ℕ → ParseState → ParseState
unfolding turn turn_emptied pass
step b (reading f below) = turn b f below
step b (starting f below) = reading (new_frame b) (f ∷ below)
step b (escaping f below) = reading (pass b f) below
step b (emptied root) = turn_emptied b root
step b (emptied_escaping root) = emptied root
step b thrown = thrown

unfoldable pub parse_loop : List ℕ → ParseState → ParseState
unfolding step
parse_loop [] s = s
parse_loop (b ∷ bs) s = parse_loop bs (step b s)

-- At the end of the file: it throws past a START or an ESCAPE, and where the stack is not empty.
unfoldable pub parsed : ParseState → Option Node
parsed (emptied root) = some root
parsed s = none

-- `parseTree` on the bytes behind the identifier.
unfoldable pub parse_tree : List ℕ → Option Node
unfolding parse_loop parsed
parse_tree (s ∷ t ∷ bs) =
    let result = parsed (parse_loop bs (reading (new_frame t) [])) in
    if s == start_byte then result else none
parse_tree bs = none

infix 50 ◌is◌
abbrev pub ◌is◌ : List ℕ → List ℕ → Bool
[] is [] = true
(a ∷ as') is (b ∷ bs) = (a == b) && (as' is bs)
_ is _ = false

abbrev pub wildcard : List ℕ
wildcard = 0 ∷ 0 ∷ 0 ∷ 0 ∷ []

-- The constructor's checks: the size of the file and its identifier.
unfoldable pub accepts : List ℕ → List ℕ → Bool
accepts accepted contents =
    not (leb (length contents) 7)
    && ((take 4 contents is accepted) || (take 4 contents is wildcard))

-- A `Loader` for a file, and its `parseTree`.
unfoldable pub load : List ℕ → List ℕ → Option Node
unfolding accepts parse_tree
load accepted contents =
    let tree = parse_tree (drop 4 contents) in if accepts accepted contents then tree else none

-- The predicate of `copy_if`, with `lastEscaped`.
unfoldable pub unescape : Bool → List ℕ → List ℕ
unescape last_escaped [] = []
unescape last_escaped (b ∷ bs) =
    let escaped = (b == escape_byte) && not last_escaped in
    let kept = unescape escaped bs in if escaped then kept else b ∷ kept

-- `getProps`.
unfoldable pub get_props : Node → Option (List ℕ)
unfolding unescape
get_props (node t props children) = if is_empty props then none else some (unescape false props)
