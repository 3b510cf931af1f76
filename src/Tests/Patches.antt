-- ===== src/Tests/Patches.antt =====
-- A small blueprint with its registry, written as JSON and read back, and the theorems at it. A
-- number is the successor of a natural number, or 0 for -1.
use xrune.Base.{
  ap, sym, ◌==◌, if◌then◌else◌, pos, negsuc, ℤ, ℕ, zero, suc, ◌≡◌, refl, false, some, List, [], ◌∷◌,
  ◌++◌, replicate, arith,
}
use xrune.Blueprint.{Node, Blueprint, empty, add_output_terminal, outputs_count_at, channels_of}
use xrune.Blueprint.Editing.{
  Edit, adds, adds_named, connects, outputs, sets_output, edits, built-IsWellFormed,
}
use xrune.Json.{codes, equal}
use xrune.Json.Numbers.{CNumbers, NumberLaws, is_whole}
use xrune.Registry.{NodeRegistry, num, no_entries, add_type, find_type, make_node}
use xrune.Serialize.{Numbering, to_json}
use xrune.Serialize.Load.{loaded, from_json}
use xrune.Serialize.Saved.{SizeLaws, SmallIndex, SavedNode, IsSaved}
use xrune.Serialize.RoundTrip.{from_json-to_json}
use xrune.Serialize.Checked.{IsChecked, from_json-IsChecked}
use xrune.Serialize.Dot.{
  dot_escape, dot_nodes, dot_connections, dot_modulations, dot_inputs, dot_outputs, to_dot, quoted,
  quoted-dot_escape,
}
use xrune.Tests.Samples.{oscillator, gain, port, link, programs}
use xrune.Tests.Texts.{counts, counts-NumberLaws}

abbrev as_long : ℕ → ℤ
as_long zero = negsuc 0
as_long (suc n) = pos n

unfoldable longs : CNumbers ℕ
unfolding counts
longs = record counts { llround = as_long }

longs-NumberLaws : NumberLaws longs (λ n. false)
unfolding longs counts is_whole
longs-NumberLaws = record {
  lld_starts = counts-NumberLaws.lld_starts;
  g_starts = counts-NumberLaws.g_starts;
  lld_reads = counts-NumberLaws.lld_reads;
  g_reads = counts-NumberLaws.g_reads;
  g_exact = counts-NumberLaws.g_exact;
  equals_same = counts-NumberLaws.equals_same;
  hex_length = counts-NumberLaws.hex_length;
  hex_reads = counts-NumberLaws.hex_reads;
  strtod_rest = counts-NumberLaws.strtod_rest;
}

abbrev of_integer : ℤ → ℕ
of_integer (pos n) = suc n
of_integer (negsuc n) = 0

abbrev numbering : Numbering ℕ
numbering = record { of_size = suc; of_long = of_integer }

as_long-of_integer : (i : ℤ) → SmallIndex i → as_long (of_integer i) ≡ i
as_long-of_integer (pos n) h = refl
as_long-of_integer (negsuc n) h = ap negsuc (sym h)

numbering-SizeLaws : SizeLaws longs (λ n. false) numbering
unfolding longs counts
numbering-SizeLaws = record {
  size_exact = λ n h. refl;
  size_finite = λ n. refl;
  size_no_zero = λ n. refl;
  long_exact = as_long-of_integer;
  long_finite = λ i. refl;
  long_no_zero = λ i. refl;
}

-- Its default is not the one of its port.
abbrev sine : ℕ → Node ℕ
sine freq = record oscillator {
  type_name = "sine";
  param_default = λ p. if p == 0 then freq else 0;
}

abbrev amp : ℕ → Node ℕ
amp channels = record gain {
  type_name = "gain";
  params = [];
  config_args = ("channels", channels) ∷ [];
}

abbrev registry : NodeRegistry ℕ
unfolding num add_type
registry =
    add_type
      (add_type no_entries (codes "gain") (λ a. some (amp (num 0 a (codes "channels") 0 1))) [])
      (codes "sine") (λ a. some (sine (num 0 a (codes "freq") 0 440))) []

abbrev recipe : List (Edit ℕ)
recipe =
    adds_named "osc" (sine 5)
    ∷ adds (amp 3)
    ∷ connects (link 0 1)
    ∷ outputs "out" 1
    ∷ sets_output 1
    ∷ []

unfoldable tone : Blueprint ℕ
unfolding programs add_output_terminal outputs_count_at channels_of
tone = edits empty recipe

sine-SavedNode : SavedNode longs (λ n. false) registry (sine 5)
unfolding make_node find_type num equal add_type longs counts registry
sine-SavedNode = record {
  typed = λ e. cc e;
  type_bytes = ground arith;
  few = omega arith;
  apart = (tt, tt);
  names_bytes = ground arith;
  configs_written = tt;
  defaults_written = λ p l. (refl, refl);
  rebuilt = λ args d. rw (d.ports 0 port refl, num) refl;
}

amp-SavedNode : SavedNode longs (λ n. false) registry (amp 3)
unfolding make_node find_type num equal add_type longs counts registry
amp-SavedNode = record {
  typed = λ e. cc e;
  type_bytes = ground arith;
  few = omega arith;
  apart = (tt, tt);
  names_bytes = ground arith;
  configs_written = ((refl, refl), tt);
  defaults_written = λ p l. (refl, refl);
  rebuilt = λ args d. rw (d.configs 0 "channels" 3 refl, num) refl;
}

tone-IsSaved : IsSaved longs (λ n. false) registry tone "tone"
unfolding tone
tone-IsSaved = record {
  well_formed = built-IsWellFormed recipe;
  no_params = refl;
  nodes_saved = (sine-SavedNode, (amp-SavedNode, tt));
  names_bytes = ground arith;
  name_bytes = ground arith;
  connections_small = ground arith;
  modulations_small = tt;
  inputs_saved = tt;
  outputs_saved = ground arith;
  input_small = refl;
  output_small = ground arith;
}

from_json-to_json_example :
    from_json longs registry (to_json numbering longs tone "tone" 2) ≡ loaded (tone, codes "tone")
from_json-to_json_example =
    from_json-to_json longs (λ n. false) numbering longs-NumberLaws numbering-SizeLaws registry tone
      "tone" 2 tone-IsSaved

tone_loads :
    from_json longs registry (to_json numbering longs tone "tone" 0) ≡ loaded (tone, codes "tone")
tone_loads =
    from_json-to_json longs (λ n. false) numbering longs-NumberLaws numbering-SizeLaws registry tone
      "tone" 0 tone-IsSaved

from_json-IsChecked_example : IsChecked tone
from_json-IsChecked_example =
    from_json-IsChecked longs registry (to_json numbering longs tone "tone" 0) (codes "tone") tone
      tone_loads

-- std::to_string is unary here.
dot_of_nothing :
    to_dot longs (λ n. replicate n b'1') empty "a\"b"
    ≡ codes "digraph \"a\\\"b\" {\n"
      ++ codes "  rankdir=LR;\n"
      ++ codes "  graph [fontname=\"Helvetica\", labelloc=\"t\", label=\"a\\\"b\"];\n"
      ++ codes
          "  node  [fontname=\"Helvetica\", shape=box, style=\"rounded,filled\", fillcolor=\"#eef3fa\", color=\"#4a6fa5\"];\n"
      ++ codes "  edge  [fontname=\"Helvetica\", fontsize=9, color=\"#4a6fa5\"];\n\n"
      ++ codes "\n}\n"
unfolding to_dot dot_escape dot_nodes dot_connections dot_modulations dot_inputs dot_outputs empty
dot_of_nothing = refl

dot_of_link : dot_connections (λ n. replicate n b'1') (link 0 1 ∷ []) ≡ codes "  n -> n1;\n"
unfolding dot_connections
dot_of_link = refl

quoted-dot_escape_example :
    quoted (dot_escape (codes "a\"b\\") ++ b'"' ∷ codes "];") ≡ some (codes "a\"b\\", codes "];")
quoted-dot_escape_example = quoted-dot_escape (codes "a\"b\\") (codes "];")
