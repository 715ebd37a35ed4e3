-- ===== src/Tests/Files.antt =====
-- Runs of the file loader's models.
use otx_teste.Common.{
  ℕ, ◌≡◌, refl, none, some, List, [], ◌∷◌, ◌++◌, ltb, if◌then◌else◌, length, take, drop, arith,
}
use mathlib.Core.Option
use otx_teste.FileLoader.{
  Node, node, no_nodes, one_more, load, accepts, parse_tree, parse_loop, step, turn, turn_emptied,
  pass, pop, parsed, emplace_back, get_props, unescape,
}
use otx_teste.FileLoader.Printed.{print, escape, decoded, load-print, all_plain}
use otx_teste.FileLoader.Sizes.{parse_tree-take_error}
use otx_teste.FileLoader.Streams.{read_string-write_string, read_string, write_string, stored, skip}

abbrev otbi : List ℕ
otbi = 79 ∷ 84 ∷ 66 ∷ 73 ∷ []

-- A root with a property that looks like a START, and two children, the second with a child.
abbrev tree : Node
tree = node 0 (0xFE ∷ 7 ∷ []) (
    one_more (node 1 [] no_nodes)
      (one_more (node 2 (0xFD ∷ []) (one_more (node 3 (5 ∷ []) no_nodes) no_nodes)) no_nodes))

load_test :
    load otbi (otbi ++ (0xFE ∷ 0 ∷ 9 ∷ 0xFE ∷ 1 ∷ 0xFD ∷ 0xFF ∷ 0xFF ∷ 8 ∷ 0xFF ∷ 4 ∷ []))
    ≡ some (node 0 (9 ∷ []) (one_more (node 1 (0xFD ∷ 0xFF ∷ []) no_nodes) no_nodes))
unfolding load accepts parse_tree parse_loop step turn turn_emptied pass pop parsed emplace_back
load_test = refl

-- A file of another kind, a node too many, and the smallest file.
load_kind_test : load otbi (1 ∷ 2 ∷ 3 ∷ 4 ∷ 0xFE ∷ 0 ∷ 9 ∷ 0xFF ∷ []) ≡ none
unfolding load accepts parse_tree parse_loop step turn turn_emptied pass pop parsed
load_kind_test = refl

load_end_test : load otbi (otbi ++ (0xFE ∷ 0 ∷ 9 ∷ 0xFF ∷ 0xFF ∷ [])) ≡ none
unfolding load accepts parse_tree parse_loop step turn turn_emptied pass pop parsed
load_end_test = refl

load_small_test : load otbi (otbi ++ (0xFE ∷ 0 ∷ 0xFF ∷ [])) ≡ none
unfolding load accepts parse_tree parse_loop step turn turn_emptied pass pop parsed
load_small_test = refl

get_props_test : get_props (node 2 (0xFD ∷ 0xFD ∷ 3 ∷ []) no_nodes) ≡ some (0xFD ∷ 3 ∷ [])
unfolding get_props unescape
get_props_test = refl

skip_test : (skip 2 (1 ∷ 2 ∷ 3 ∷ [])).1 ≡ 3 ∷ []
unfolding skip
skip_test = refl

load-print_example :
    Option.map decoded (load otbi (otbi ++ (print tree ++ (1 ∷ []))))
    ≡ (if ltb 3 (length (print tree ++ (1 ∷ []))) then some tree else none)
load-print_example = load-print otbi otbi (1 ∷ []) tree refl refl (unfold all_plain in refl)

parse_tree-take_error_example : parse_tree (take 9 (print tree)) ≡ none
parse_tree-take_error_example = parse_tree-take_error tree 9 (unfold print escape in omega arith)

read_string-write_string_example :
    read_string
      (drop (length {A = ℕ} (1 ∷ 2 ∷ [])) (write_string (65 ∷ 66 ∷ []) (1 ∷ 2 ∷ []) ++ (3 ∷ [])))
    ≡ (some (stored (65 ∷ 66 ∷ [])), 3 ∷ [])
read_string-write_string_example = read_string-write_string (65 ∷ 66 ∷ []) (1 ∷ 2 ∷ []) (3 ∷ [])
