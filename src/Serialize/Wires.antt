-- ===== src/Serialize/Wires.antt =====
-- src/serialize.cpp: from_json() connects again what to_json_value() wrote.
use xrune.Base.{
  ◌≡◌, ◌∙◌, sym, ap, Bool, List, [], ◌∷◌, ◌++◌, map, length, All, arith, append_assoc, append-nil,
  get_elem?-lt, get_elem?-append_left, get_elem?_middle, subst,
}
use xrune.Blueprint.{Connection, ParamConnection, Blueprint}
use xrune.Blueprint.Wiring.{
  InRange, ParamInRange, Connectable, ParamConnectable, SingleSource, SingleParamSource,
}
use xrune.Json.Numbers.{CNumbers}
use xrune.Serialize.{Numbering, connection_value, modulation_value}
use xrune.Serialize.Load.{loaded, ◌>>=◌, load_connections, load_modulations}
use xrune.Serialize.Saved.{SizeLaws, SmallConnection, SmallModulation}
use xrune.Serialize.Back.{load_connection-value, load_modulation-value}

module _ {D : Type 0} (c : CNumbers D) (nz : D → Bool) (w : Numbering D)
    (laws : SizeLaws c nz w) where
  next_Connectable :
      (out : Blueprint D) (l : Connection) (ls : List Connection)
      → InRange out.nodes l
      → SingleSource (out.connections ++ l ∷ ls)
      → Connectable out l
  next_Connectable out l ls r single = record {
    ports = r;
    free = λ i d e node input.
        let met =
          single i (length out.connections) d l (get_elem?-append_left out.connections (l ∷ ls) i e)
            (get_elem?_middle out.connections ls l) node input in
        absurd (omega (arith, met, get_elem?-lt out.connections i e));
  }

  pub load_connections-values :
      (ls : List Connection) (out : Blueprint D)
      → All SmallConnection ls
      → All (InRange out.nodes) ls
      → SingleSource (out.connections ++ ls)
      → load_connections c (map (connection_value w) ls) out
        ≡ loaded (record out { connections = out.connections ++ ls })
  unfolding load_connections
  load_connections-values [] out s r single =
      ap (λ cs. loaded (record out { connections = cs })) (sym (append-nil out.connections))
  load_connections-values (l ∷ ls) out s r single =
      let assoc = append_assoc out.connections (l ∷ []) ls in
      let one =
        load_connection-value c nz w laws l out s.0 (next_Connectable out l ls r.0 single) in
      let rest =
        load_connections-values ls (record out { connections = out.connections ++ l ∷ [] }) s.1 r.1
          (subst SingleSource (sym assoc) single) in
      ap (λ o. o >>= λ next. load_connections c (map (connection_value w) ls) next) one
      ∙ rest
      ∙ ap (λ cs. loaded (record out { connections = cs })) assoc

  next_ParamConnectable :
      (out : Blueprint D) (l : ParamConnection) (ls : List ParamConnection)
      → ParamInRange out.nodes l
      → SingleParamSource (out.param_connections ++ l ∷ ls)
      → ParamConnectable out l
  next_ParamConnectable out l ls r single = record {
    ports = r;
    free = λ i d e node input.
        let met =
          single i (length out.param_connections) d l
            (get_elem?-append_left out.param_connections (l ∷ ls) i e)
            (get_elem?_middle out.param_connections ls l) node input in
        absurd (omega (arith, met, get_elem?-lt out.param_connections i e));
  }

  pub load_modulations-values :
      (ls : List ParamConnection) (out : Blueprint D)
      → All SmallModulation ls
      → All (ParamInRange out.nodes) ls
      → SingleParamSource (out.param_connections ++ ls)
      → load_modulations c (map (modulation_value w) ls) out
        ≡ loaded (record out { param_connections = out.param_connections ++ ls })
  unfolding load_modulations
  load_modulations-values [] out s r single =
      ap (λ cs. loaded (record out { param_connections = cs }))
        (sym (append-nil out.param_connections))
  load_modulations-values (l ∷ ls) out s r single =
      let assoc = append_assoc out.param_connections (l ∷ []) ls in
      let one =
        load_modulation-value c nz w laws l out s.0 (next_ParamConnectable out l ls r.0 single) in
      let rest =
        load_modulations-values ls
          (record out { param_connections = out.param_connections ++ l ∷ [] }) s.1 r.1
          (subst SingleParamSource (sym assoc) single) in
      ap (λ o. o >>= λ next. load_modulations c (map (modulation_value w) ls) next) one
      ∙ rest
      ∙ ap (λ cs. loaded (record out { param_connections = cs })) assoc
