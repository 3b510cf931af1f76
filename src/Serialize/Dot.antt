-- ===== src/Serialize/Dot.antt =====
-- src/serialize.cpp: to_dot(), the blueprint as a Graphviz graph, and the strings that it quotes.
-- to_string is std::to_string of a size_t, and "%g" is "%.*g" with 6 digits.
use Prim.Native.String.{String}
use xrune.Base.{
  ℕ, suc, ◌≡◌, refl, Bool, true, false, not, ◌&&◌, ◌||◌, Option, none, some, List, [], ◌∷◌, ◌++◌,
  ◌==◌, get_elem?, if◌then◌else◌, arith, Bool-cases, inl, inr,
}
use xrune.Blueprint.{
  PortDescriptor, Node, Connection, ParamConnection, Terminal, Blueprint, params_at,
}
use xrune.Json.{Text, codes}
use xrune.Json.Numbers.{CNumbers}

unfoldable pub dot_escape : Text → Text
dot_escape [] = []
dot_escape (c ∷ cs) =
    if c == b'"' || c == b'\\' then b'\\' ∷ c ∷ dot_escape cs else c ∷ dot_escape cs

abbrev is_empty : List Terminal → Bool
is_empty [] = true
is_empty _ = false

module _ (to_string : ℕ → Text) where
  unfoldable pub node_label : ℕ → Option String → Text
  node_label i none = codes "#" ++ to_string i
  node_label i (some s) = elim (codes s) [ [] ↦ codes "#" ++ to_string i | b ∷ bs ↦ b ∷ bs ]

  unfoldable pub dot_connections : List Connection → Text
  dot_connections [] = []
  dot_connections (l ∷ ls) =
      let ports =
        codes " [label=\""
        ++ to_string l.src_output
        ++ codes ":"
        ++ to_string l.dst_input
        ++ codes "\"]" in
      codes "  n"
      ++ to_string l.src_node
      ++ codes " -> n"
      ++ to_string l.dst_node
      ++ (if not (l.src_output == 0) || not (l.dst_input == 0) then ports else [])
      ++ codes ";\n"
      ++ dot_connections ls

  unfoldable pub dot_inputs : ℕ → List Terminal → Text
  unfolding dot_escape
  dot_inputs t [] = []
  dot_inputs t (term ∷ terms) =
      codes "  in"
      ++ to_string t
      ++ codes " [label=\""
      ++ dot_escape (codes term.name)
      ++ codes "\", shape=invhouse, fillcolor=\"#e8f5e9\", color=\"#3b7d4f\"];\n"
      ++ codes "  in"
      ++ to_string t
      ++ codes " -> n"
      ++ to_string term.node
      ++ codes " [style=bold];\n"
      ++ dot_inputs (suc t) terms

  unfoldable pub dot_outputs : ℕ → List Terminal → Text
  unfolding dot_escape
  dot_outputs t [] = []
  dot_outputs t (term ∷ terms) =
      codes "  out"
      ++ to_string t
      ++ codes " [label=\""
      ++ dot_escape (codes term.name)
      ++ codes "\", shape=house, fillcolor=\"#e8f5e9\", color=\"#3b7d4f\"];\n"
      ++ codes "  n"
      ++ to_string term.node
      ++ codes " -> out"
      ++ to_string t
      ++ codes " [style=bold];\n"
      ++ dot_outputs (suc t) terms

module _ {D : Type 0} (to_string : ℕ → Text) where
  -- The name of a control port, or its number where the node has no such port.
  unfoldable pub port_name : List (Node D) → ParamConnection → Text
  unfolding params_at
  port_name nodes m = elim (get_elem? (params_at nodes m.dst_node) m.dst_param) [
    | some d ↦ codes d.name
    | none ↦ to_string m.dst_param
  ]

  unfoldable pub dot_modulations : List (Node D) → List ParamConnection → Text
  unfolding dot_escape port_name
  dot_modulations nodes [] = []
  dot_modulations nodes (m ∷ ms) =
      codes "  n"
      ++ to_string m.src_node
      ++ codes " -> n"
      ++ to_string m.dst_node
      ++ codes " [style=dashed, color=\"#3b7d4f\", fontcolor=\"#3b7d4f\", label=\""
      ++ dot_escape (port_name nodes m)
      ++ codes "\"];\n"
      ++ dot_modulations nodes ms

module _ {D : Type 0} (c : CNumbers D) (to_string : ℕ → Text) where
  unfoldable pub trim_zeros : D → Text
  trim_zeros v = c.print_g 6 v

  unfoldable pub port_lines : Node D → ℕ → List (PortDescriptor D) → Text
  unfolding trim_zeros
  port_lines n p [] = []
  port_lines n p (d ∷ ds) =
      codes "\\n"
      ++ codes d.name
      ++ codes " = "
      ++ trim_zeros (n.param_default p)
      ++ port_lines n (suc p) ds

  unfoldable pub dot_node : ℕ → Node D → Option String → Text
  unfolding dot_escape node_label port_lines
  dot_node i n name =
      let label =
        dot_escape (node_label to_string i name)
        ++ codes "\\n<"
        ++ codes n.type_name
        ++ codes ">"
        ++ port_lines n 0 n.params in
      let rates =
        codes "\\nrate "
        ++ to_string n.rate_num
        ++ codes "/"
        ++ to_string n.rate_den
        ++ codes ", block "
        ++ to_string n.block_num
        ++ codes "/"
        ++ to_string n.block_den in
      if not (n.rate_num == n.rate_den) || not (n.block_num == n.block_den)
      then codes "  n"
        ++ to_string i
        ++ codes " [label=\""
        ++ label
        ++ rates
        ++ codes "\", fillcolor=\"#fdf0e3\", color=\"#c07b30\"];\n"
      else codes "  n" ++ to_string i ++ codes " [label=\"" ++ label ++ codes "\"];\n"

  unfoldable pub dot_nodes : ℕ → List (Node D) → List String → Text
  unfolding dot_node
  dot_nodes i [] names = []
  dot_nodes i (n ∷ ns) names = dot_node i n (get_elem? names i) ++ dot_nodes (suc i) ns names

  unfoldable pub to_dot : Blueprint D → String → Text
  unfolding dot_nodes dot_connections dot_modulations dot_inputs dot_outputs dot_escape
  to_dot bp name =
      let title = dot_escape (codes name) in
      codes "digraph \""
      ++ title
      ++ codes "\" {\n"
      ++ codes "  rankdir=LR;\n"
      ++ codes "  graph [fontname=\"Helvetica\", labelloc=\"t\", label=\""
      ++ title
      ++ codes "\"];\n"
      ++ codes
          "  node  [fontname=\"Helvetica\", shape=box, style=\"rounded,filled\", fillcolor=\"#eef3fa\", color=\"#4a6fa5\"];\n"
      ++ codes "  edge  [fontname=\"Helvetica\", fontsize=9, color=\"#4a6fa5\"];\n\n"
      ++ dot_nodes 0 bp.nodes bp.names
      ++ codes "\n"
      ++ dot_connections to_string bp.connections
      ++ dot_modulations to_string bp.nodes bp.param_connections
      ++ (if is_empty bp.input_terminals && is_empty bp.output_terminals then [] else codes "\n")
      ++ dot_inputs to_string 0 bp.input_terminals
      ++ dot_outputs to_string 0 bp.output_terminals
      ++ codes "}\n"

-- How a quoted string is read, up to the quote that ends it: a backslash takes the next byte with it.
unfoldable pub quoted : Text → Option (Text × Text)
quoted [] = none
quoted (c ∷ []) = if c == b'"' then some ([], []) else none
quoted (c ∷ d ∷ cs) =
    let plain = quoted (d ∷ cs) in
    let taken = quoted cs in
    if c == b'"'
    then some ([], d ∷ cs)
    else if c == b'\\'
    then (elim taken [ none ↦ none | some (s, rest) ↦ some (d ∷ s, rest) ])
    else (elim plain [ none ↦ none | some (s, rest) ↦ some (c ∷ s, rest) ])

quoted_plain :
    (c : ℕ) (ts : Text) {s rest : Text}
    → (c == b'"') ≡ false
    → (c == b'\\') ≡ false
    → quoted ts ≡ some (s, rest)
    → quoted (c ∷ ts) ≡ some (c ∷ s, rest)
unfolding quoted
quoted_plain c [] q b e = cc e
quoted_plain c (d ∷ ts) q b e = rw (q, b, e) refl

-- A string that dot_escape() prepared, with a quote behind it, is read back whole: none of its own
-- quotes ends it.
pub quoted-dot_escape : (s rest : Text) → quoted (dot_escape s ++ b'"' ∷ rest) ≡ some (s, rest)
unfolding quoted dot_escape
quoted-dot_escape [] [] = refl
quoted-dot_escape [] (x ∷ xs) = refl
quoted-dot_escape (c ∷ cs) rest = elim (Bool-cases (c == b'"' || c == b'\\')) [
  | inl special ↦ rw (special, quoted-dot_escape cs rest) refl
  | inr plain ↦ rw plain (
      quoted_plain c (dot_escape cs ++ b'"' ∷ rest) (ground arith) (ground arith)
        (quoted-dot_escape cs rest))
]
