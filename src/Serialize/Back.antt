-- ===== src/Serialize/Back.antt =====
-- src/serialize.cpp: what from_json() makes of the parts that to_json_value() writes.
use Prim.Native.String.{String}
use xrune.Base.{
  ℕ, ◌^◌, ◌<◌, ◌%◌, lt→ltb, ◌≡◌, ◌∙◌, refl, ap, inl, inr, Bool, true, false, some, List, [], ◌∷◌,
  ◌++◌, map, length, All, arith,
}
use xrune.Blueprint.{Connection, ParamConnection, TerminalSource, Terminal, Blueprint, size}
use xrune.Blueprint.Wiring.{
  Connectable, connect_at, connect_lem, ParamConnectable, connect_param_at, connect_param_lem,
}
use xrune.Json.{Text, codes, Value, find, equal, set_key, text, make_array}
use xrune.Json.Numbers.{CNumbers, integer}
use xrune.Serialize.{
  Numbering, push_all, size_value, connection_value, modulation_value, channel_value,
  terminal_value,
}
use xrune.Serialize.Codes.{decode-codes}
use xrune.Serialize.Load.{
  loaded, to_size, valid_index, array_items, array_at, load_connection, load_modulation,
  load_channel, load_channels, load_terminal, load_terminals,
}
use xrune.Serialize.Saved.{
  SizeLaws, Small, SmallConnection, SmallModulation, SavedChannel, SavedTerminal,
}
use xrune.Serialize.Members.{push_all-to_items, items_of-to_items}

module _ {D : Type 0} (c : CNumbers D) (nz : D → Bool) (w : Numbering D)
    (laws : SizeLaws c nz w) where
  to_size_exact : (n : ℕ) → Small n → to_size (c.llround (w.of_size n)) ≡ n
  to_size_exact n h = rw (laws.size_exact n h) (omega arith)

  valid_exact :
      (n count : ℕ) → Small n → n < count → valid_index count (c.llround (w.of_size n)) ≡ true
  valid_exact n count h l = rw (laws.size_exact n h) (ground arith)

  connect_made_lem :
      (l : Connection) (out : Blueprint D)
      → Connectable out l
      → connect_at out l ≡ (record out { connections = out.connections ++ l ∷ [] }, true)
  connect_made_lem l out h = elim (connect_lem out l) [
    | inl (_, e) ↦ e
    | inr (refused_it, _) ↦ absurd (refused_it h)
  ]

  pub load_connection-value :
      (l : Connection) (out : Blueprint D)
      → SmallConnection l
      → Connectable out l
      → load_connection c (connection_value w l) out
        ≡ loaded (record out { connections = out.connections ++ l ∷ [] })
  unfolding load_connection connection_value integer find set_key size_value equal size
  load_connection-value l out (s, o, d, i) h =
      let made = connect_made_lem l out h in
      let fit : (n : ℕ) → Small n → n % 2 ^ 64 ≡ n = λ n b. omega (arith, b) in
      rw
        (
          laws.size_exact l.src_node s,
          laws.size_exact l.dst_node d,
          laws.size_exact l.src_output o,
          laws.size_exact l.dst_input i,
          fit l.src_node s,
          fit l.dst_node d,
          fit l.src_output o,
          fit l.dst_input i,
          made,
          lt→ltb l.src_node (length out.nodes) h.ports.src_in,
          lt→ltb l.dst_node (length out.nodes) h.ports.dst_in,
        )
        refl

  modulation_made_lem :
      (l : ParamConnection) (out : Blueprint D)
      → ParamConnectable out l
      → connect_param_at out l
        ≡ (record out { param_connections = out.param_connections ++ l ∷ [] }, true)
  modulation_made_lem l out h = elim (connect_param_lem out l) [
    | inl (_, e) ↦ e
    | inr (refused_it, _) ↦ absurd (refused_it h)
  ]

  pub load_modulation-value :
      (l : ParamConnection) (out : Blueprint D)
      → SmallModulation l
      → ParamConnectable out l
      → load_modulation c (modulation_value w l) out
        ≡ loaded (record out { param_connections = out.param_connections ++ l ∷ [] })
  unfolding load_modulation modulation_value integer find set_key size_value equal size
  load_modulation-value l out (s, o, d, i) h =
      let made = modulation_made_lem l out h in
      let fit : (n : ℕ) → Small n → n % 2 ^ 64 ≡ n = λ n b. omega (arith, b) in
      rw
        (
          laws.size_exact l.src_node s,
          laws.size_exact l.dst_node d,
          laws.size_exact l.src_output o,
          laws.size_exact l.dst_param i,
          fit l.src_node s,
          fit l.dst_node d,
          fit l.src_output o,
          fit l.dst_param i,
          made,
          lt→ltb l.src_node (length out.nodes) h.ports.src_in,
          lt→ltb l.dst_node (length out.nodes) h.ports.dst_in,
        )
        refl

  abbrev source : ℕ → ℕ → Bool → TerminalSource
  source n ch silent = record { node = n; ch = ch; silent = silent }

  load_channel-fields :
      (count : ℕ) (key : Text) (n h : ℕ) (silent : Bool)
      → SavedChannel count (source n h silent)
      → load_channel c count key (channel_value w (source n h silent)) ≡ loaded (source n h silent)
  unfolding load_channel channel_value integer find set_key size_value equal
  load_channel-fields count key n h true (s, r) =
      let (zero_node, zero_ch) = s refl in rw (zero_node, zero_ch) refl
  load_channel-fields count key n h false (s, r) =
      let (lt, node_small, ch_small) = r refl in
      let fit : (n : ℕ) → Small n → n % 2 ^ 64 ≡ n = λ n b. omega (arith, b) in
      rw
        (
          laws.size_exact n node_small,
          laws.size_exact h ch_small,
          fit n node_small,
          fit h ch_small,
          lt→ltb n count lt,
        )
        refl

  load_channel-value :
      (count : ℕ) (key : Text) (ch : TerminalSource)
      → SavedChannel count ch
      → load_channel c count key (channel_value w ch) ≡ loaded ch
  load_channel-value count key ch s = load_channel-fields count key ch.node ch.ch ch.silent s

  load_channels-values :
      (count : ℕ) (key : Text) (chs : List TerminalSource)
      → All (SavedChannel count) chs
      → load_channels c count key (map (channel_value w) chs) ≡ loaded chs
  unfolding load_channels
  load_channels-values count key [] h = refl
  load_channels-values count key (ch ∷ chs) h =
      rw (load_channel-value count key ch h.0, load_channels-values count key chs h.1) refl

  pub array_at-find :
      (key : Text) (o : Value D) (vs : List (Value D))
      → find key o ≡ some (push_all vs make_array)
      → array_at key o ≡ vs
  unfolding array_at
  array_at-find key o vs e =
      ap array_items e
      ∙ ap (λ a. array_items (some a)) (push_all-to_items vs)
      ∙ items_of-to_items vs

  abbrev terminal : String → ℕ → List TerminalSource → Terminal
  terminal name n chs = record { name = name; node = n; channels = chs }

  load_terminal-fields :
      (count : ℕ) (key : Text) (name : String) (n : ℕ) (chs : List TerminalSource)
      → SavedTerminal count (terminal name n chs)
      → load_terminal c count key (terminal_value w (terminal name n chs))
        ≡ loaded (terminal name n chs)
  unfolding load_terminal terminal_value integer find set_key size_value equal text
  load_terminal-fields count key name n [] (b, lt, s, chs) =
      let fit : n % 2 ^ 64 ≡ n = omega (arith, s) in
      rw (laws.size_exact n s, fit, lt→ltb n count lt, decode-codes name) refl
  load_terminal-fields count key name n (ch ∷ rest) (b, lt, s, chs) =
      let fit : n % 2 ^ 64 ≡ n = omega (arith, s) in
      rw
        (
          laws.size_exact n s,
          fit,
          lt→ltb n count lt,
          decode-codes name,
          array_at-find (codes "channels") _ (map (channel_value w) (ch ∷ rest)) refl,
          load_channels-values count key (ch ∷ rest) chs,
        )
        refl

  load_terminal-value :
      (count : ℕ) (key : Text) (t : Terminal)
      → SavedTerminal count t
      → load_terminal c count key (terminal_value w t) ≡ loaded t
  load_terminal-value count key t s = load_terminal-fields count key t.name t.node t.channels s

  pub load_terminals-values :
      (count : ℕ) (key : Text) (ts : List Terminal)
      → All (SavedTerminal count) ts
      → load_terminals c count key (map (terminal_value w) ts) ≡ loaded ts
  unfolding load_terminals
  load_terminals-values count key [] h = refl
  load_terminals-values count key (t ∷ ts) h =
      rw (load_terminal-value count key t h.0, load_terminals-values count key ts h.1) refl
