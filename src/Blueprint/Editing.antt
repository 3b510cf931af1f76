-- ===== src/Blueprint/Editing.antt =====
-- include/xrune/blueprint.hpp: every sequence of building operations leaves a blueprint well formed.
use Prim.Native.String.{String}
use xrune.Base.{
  ℕ, zero, suc, ◌<◌, ◌≡◌, refl, inl, inr, List, [], ◌∷◌, ◌++◌, ◌∙◌, arith, length, get_elem?, All,
  All-append, length-append, length-modify,
}
use xrune.Blueprint.{
  Node, Connection, ParamConnection, TerminalSource, Blueprint, empty, inputs_count_at,
  outputs_count_at, params_at, add, add_named, add_output_terminal, add_indexed_output_terminal,
  add_input_terminal, set_output, set_input,
}
use xrune.Blueprint.Wiring.{
  InRange, ParamInRange, IsWellFormed, SingleSource-snoc, SingleParamSource-snoc, connect_at,
  connect_param_at, connect_lem, connect_param_lem,
}

-- The building operations, with their arguments.
pub data Edit (S : Type 0) : Type 0 where
  adds : Node S → Edit S
  adds_named : String → Node S → Edit S
  connects : Connection → Edit S
  connects_param : ParamConnection → Edit S
  outputs : String → ℕ → Edit S
  outputs_indexed : String → List TerminalSource → Edit S
  inputs : String → ℕ → Edit S
  sets_output sets_input : ℕ → Edit S

module _ {S : Type 0} where
  get_elem?_append :
      (xs : List (Node S)) (n : Node S) (i : ℕ)
      → i < length xs
      → get_elem? (xs ++ n ∷ []) i ≡ get_elem? xs i
  get_elem?_append [] n i h = elim h [ ]
  get_elem?_append (x ∷ xs) n zero h = refl
  get_elem?_append (x ∷ xs) n (suc i) h = get_elem?_append xs n i (omega arith)

  InRange-add :
      (xs : List (Node S)) (n : Node S) (cs : List Connection)
      → All (InRange xs) cs
      → All (InRange (xs ++ n ∷ [])) cs
  unfolding inputs_count_at outputs_count_at
  InRange-add xs n [] h = tt
  InRange-add xs n (c ∷ cs) h = (
    ground (
      arith,
      length-append xs (n ∷ []),
      get_elem?_append xs n c.src_node,
      get_elem?_append xs n c.dst_node,
    ),
    InRange-add xs n cs h.1,
  )

  ParamInRange-add :
      (xs : List (Node S)) (n : Node S) (cs : List ParamConnection)
      → All (ParamInRange xs) cs
      → All (ParamInRange (xs ++ n ∷ [])) cs
  unfolding params_at outputs_count_at
  ParamInRange-add xs n [] h = tt
  ParamInRange-add xs n (c ∷ cs) h = (
    ground (
      arith,
      length-append xs (n ∷ []),
      get_elem?_append xs n c.src_node,
      get_elem?_append xs n c.dst_node,
    ),
    ParamInRange-add xs n cs h.1,
  )

  add-IsWellFormed : (bp : Blueprint S) (n : Node S) → IsWellFormed bp → IsWellFormed (add bp n).0
  unfolding add
  add-IsWellFormed bp n v = record {
    named =
        omega (arith, v.named, length-append bp.names ("" ∷ []), length-append bp.nodes (n ∷ []));
    in_range = InRange-add bp.nodes n bp.connections v.in_range;
    params_in_range = ParamInRange-add bp.nodes n bp.param_connections v.params_in_range;
    single = v.single;
    single_param = v.single_param;
  }

  abbrev pub edit : Blueprint S → Edit S → Blueprint S
  edit bp (adds n) = (add bp n).0
  edit bp (adds_named s n) = (add_named bp s n).0
  edit bp (connects c) = (connect_at bp c).0
  edit bp (connects_param c) = (connect_param_at bp c).0
  edit bp (outputs s n) = (add_output_terminal bp s n).0
  edit bp (outputs_indexed s chans) = (add_indexed_output_terminal bp s chans).0
  edit bp (inputs s n) = (add_input_terminal bp s n).0
  edit bp (sets_output n) = set_output bp n
  edit bp (sets_input n) = set_input bp n

  abbrev pub edits : Blueprint S → List (Edit S) → Blueprint S
  edits bp [] = bp
  edits bp (e ∷ es) = edits (edit bp e) es

  pub connect-IsWellFormed :
      (bp : Blueprint S) (c : Connection) → IsWellFormed bp → IsWellFormed (connect_at bp c).0
  connect-IsWellFormed bp c v = elim (connect_lem bp c) [
    | inl (able, e) ↦ rw e (record {
      named = v.named;
      in_range = All-append (InRange bp.nodes) bp.connections (c ∷ []) v.in_range (able.ports, tt);
      params_in_range = v.params_in_range;
      single = SingleSource-snoc bp.connections c v.single able.free;
      single_param = v.single_param;
    })
    | inr (_, e) ↦ rw e v
  ]

  pub connect_param-IsWellFormed :
      (bp : Blueprint S) (c : ParamConnection)
      → IsWellFormed bp
      → IsWellFormed (connect_param_at bp c).0
  connect_param-IsWellFormed bp c v = elim (connect_param_lem bp c) [
    | inl (able, e) ↦ rw e (record {
      named = v.named;
      in_range = v.in_range;
      params_in_range =
          All-append (ParamInRange bp.nodes) bp.param_connections (c ∷ []) v.params_in_range
            (able.ports, tt);
      single = v.single;
      single_param = SingleParamSource-snoc bp.param_connections c v.single_param able.free;
    })
    | inr (_, e) ↦ rw e v
  ]

  -- Only the nodes, their names and the connections count.
  keep-IsWellFormed :
      {bp : Blueprint S} (bp' : Blueprint S)
      → IsWellFormed bp
      → length bp'.names ≡ length bp.names
      → bp'.nodes ≡ bp.nodes
      → bp'.connections ≡ bp.connections
      → bp'.param_connections ≡ bp.param_connections
      → IsWellFormed bp'
  keep-IsWellFormed bp' v names nodes cs ps = record {
    named = rw nodes (names ∙ v.named);
    in_range = rw (nodes, cs) v.in_range;
    params_in_range = rw (nodes, ps) v.params_in_range;
    single = rw cs v.single;
    single_param = rw ps v.single_param;
  }

  edit-IsWellFormed : (bp : Blueprint S) (e : Edit S) → IsWellFormed bp → IsWellFormed (edit bp e)
  unfolding add add_named add_output_terminal add_indexed_output_terminal add_input_terminal
      set_output set_input
  edit-IsWellFormed bp (adds n) v = add-IsWellFormed bp n v
  edit-IsWellFormed bp (adds_named s n) v =
      keep-IsWellFormed _ (add-IsWellFormed bp n v) (length-modify _ _ _) refl refl refl
  edit-IsWellFormed bp (connects c) v = connect-IsWellFormed bp c v
  edit-IsWellFormed bp (connects_param c) v = connect_param-IsWellFormed bp c v
  edit-IsWellFormed bp (sets_output n) v =
      keep-IsWellFormed _ v (ground arith) (ground arith) (ground arith) (ground arith)
  edit-IsWellFormed bp (outputs s n) v = keep-IsWellFormed _ v refl refl refl refl
  edit-IsWellFormed bp (outputs_indexed s chans) v = keep-IsWellFormed _ v refl refl refl refl
  edit-IsWellFormed bp (inputs s n) v = keep-IsWellFormed _ v refl refl refl refl
  edit-IsWellFormed bp (sets_input n) v = keep-IsWellFormed _ v refl refl refl refl

  pub edits-IsWellFormed :
      (es : List (Edit S)) (bp : Blueprint S) → IsWellFormed bp → IsWellFormed (edits bp es)
  edits-IsWellFormed [] bp v = v
  edits-IsWellFormed (e ∷ es) bp v = edits-IsWellFormed es (edit bp e) (edit-IsWellFormed bp e v)

  -- A blueprint that any sequence of building operations makes from the empty one is well formed:
  -- every connection names ports that exist, and no input or control port has two sources.
  pub built-IsWellFormed : (es : List (Edit S)) → IsWellFormed (edits empty es)
  unfolding empty
  built-IsWellFormed es = edits-IsWellFormed es empty (record {
    named = refl;
    in_range = tt;
    params_in_range = tt;
    single = λ i j c d e. cc;
    single_param = λ i j c d e. cc;
  })
