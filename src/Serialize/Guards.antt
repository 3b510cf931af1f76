-- ===== src/Serialize/Guards.antt =====
-- src/serialize.cpp: what the parts of from_json() have checked of what they give.
use xrune.Base.{
  ℕ, ◌<◌, ◌≡◌, ◌⊎◌, ℤ, pos, negsuc, true, List, [], ◌∷◌, length, length-append, All, arith, ltb→lt,
}
use xrune.Blueprint.{Connection, ParamConnection, TerminalSource, Terminal, Blueprint}
use xrune.Blueprint.Wiring.{IsWellFormed}
use xrune.Blueprint.Editing.{connect-IsWellFormed, connect_param-IsWellFormed}
use xrune.Json.{Text, codes, Value}
use xrune.Json.Numbers.{CNumbers, integer}
use xrune.Registry.{NodeRegistry}
use xrune.Serialize.Load.{
  Loaded, loaded, refused, ◌>>=◌, to_size, valid_index, minus_1, array_at, load_node, load_nodes,
  load_connection, load_connections, load_modulation, load_modulations, load_channel, load_channels,
  load_terminal, load_terminals,
}

-- The property holds of the result, if there is one.
abbrev pub Given : {A : Type 0} → (A → Type 0) → Loaded A → Type 0
Given P (loaded a) = P a
Given P (refused e) = Unit

pub Given-bind :
    {A B : Type 0} (P : A → Type 0) (Q : B → Type 0) (r : Loaded A) (k : A → Loaded B)
    → Given P r
    → ((a : A) → P a → Given Q (k a))
    → Given Q (r >>= k)
Given-bind P Q (loaded a) k h f = f a h
Given-bind P Q (refused e) k h f = tt

-- Any result at all.
Given-any : {A : Type 0} (P : A → Type 0) (r : Loaded A) → ((a : A) → P a) → Given P r
Given-any P (loaded a) h = h a
Given-any P (refused e) h = tt

-- A channel is silent or an output of a node that is there, and so is a terminal's node.
abbrev pub ChannelIn : ℕ → TerminalSource → Type 0
ChannelIn count ch = (ch.silent ≡ true) ⊎ (ch.node < count)

abbrev pub TerminalIn : ℕ → Terminal → Type 0
TerminalIn count t = (t.node < count) × All (ChannelIn count) t.channels

valid_lt : (count : ℕ) (i : ℤ) → valid_index count i ≡ true → to_size i < count
valid_lt count (pos n) h = omega (arith, ltb→lt n count h)
valid_lt count (negsuc n) h = cc

module _ {D : Type 0} where
  -- Before the connections are read.
  pub record IsBare (bp : Blueprint D) : Type 0 where
    pub named : length bp.names ≡ length bp.nodes
    pub no_connections : bp.connections ≡ []
    pub no_modulations : bp.param_connections ≡ []

  pub load_nodes-IsBare :
      (reg : NodeRegistry D) (jns : List (Value D)) (out : Blueprint D)
      → IsBare out
      → Given IsBare (load_nodes reg jns out)
  unfolding load_nodes
  load_nodes-IsBare reg [] out h = h
  load_nodes-IsBare reg (jn ∷ jns) out h =
      Given-bind (λ _. Unit) IsBare (load_node reg jn) _ (Given-any _ _ (λ _. tt))
        (λ n _. load_nodes-IsBare reg jns _ (record {
          named =
              omega (
                arith,
                h.named,
                length-append out.names (_ ∷ []),
                length-append out.nodes (n ∷ []),
              );
          no_connections = h.no_connections;
          no_modulations = h.no_modulations;
        }))

  pub IsBare-IsWellFormed : (bp : Blueprint D) → IsBare bp → IsWellFormed bp
  IsBare-IsWellFormed bp h = record {
    named = h.named;
    in_range = rw h.no_connections tt;
    params_in_range = rw h.no_modulations tt;
    single = rw h.no_connections (λ i j a b p q. cc);
    single_param = rw h.no_modulations (λ i j a b p q. cc);
  }

  module _ (c : CNumbers D) where
    load_connection-IsWellFormed :
        (j : Value D) (out : Blueprint D)
        → IsWellFormed out
        → Given IsWellFormed (load_connection c j out)
    unfolding load_connection
    load_connection-IsWellFormed j out h =
        let link : Connection = record {
          src_node = to_size (integer c (codes "src") minus_1 j);
          src_output = to_size (integer c (codes "out") (pos 0) j);
          dst_node = to_size (integer c (codes "dst") minus_1 j);
          dst_input = to_size (integer c (codes "in") (pos 0) j);
        } in
        ground (arith, connect-IsWellFormed out link h)

    pub load_connections-IsWellFormed :
        (js : List (Value D)) (out : Blueprint D)
        → IsWellFormed out
        → Given IsWellFormed (load_connections c js out)
    unfolding load_connections
    load_connections-IsWellFormed [] out h = h
    load_connections-IsWellFormed (j ∷ js) out h =
        Given-bind IsWellFormed IsWellFormed (load_connection c j out) _
          (load_connection-IsWellFormed j out h) (λ next g. load_connections-IsWellFormed js next g)

    load_modulation-IsWellFormed :
        (j : Value D) (out : Blueprint D)
        → IsWellFormed out
        → Given IsWellFormed (load_modulation c j out)
    unfolding load_modulation
    load_modulation-IsWellFormed j out h =
        let link : ParamConnection = record {
          src_node = to_size (integer c (codes "src") minus_1 j);
          src_output = to_size (integer c (codes "out") (pos 0) j);
          dst_node = to_size (integer c (codes "dst") minus_1 j);
          dst_param = to_size (integer c (codes "param") (pos 0) j);
        } in
        ground (arith, connect_param-IsWellFormed out link h)

    pub load_modulations-IsWellFormed :
        (js : List (Value D)) (out : Blueprint D)
        → IsWellFormed out
        → Given IsWellFormed (load_modulations c js out)
    unfolding load_modulations
    load_modulations-IsWellFormed [] out h = h
    load_modulations-IsWellFormed (j ∷ js) out h =
        Given-bind IsWellFormed IsWellFormed (load_modulation c j out) _
          (load_modulation-IsWellFormed j out h) (λ next g. load_modulations-IsWellFormed js next g)

    module _ (count : ℕ) (key : Text) where
      load_channel-ChannelIn : (j : Value D) → Given (ChannelIn count) (load_channel c count key j)
      unfolding load_channel
      load_channel-ChannelIn j = ground (arith, valid_lt count (integer c (codes "node") minus_1 j))

      load_channels-ChannelIn :
          (js : List (Value D)) → Given (All (ChannelIn count)) (load_channels c count key js)
      unfolding load_channels
      load_channels-ChannelIn [] = tt
      load_channels-ChannelIn (j ∷ js) =
          Given-bind (ChannelIn count) (All (ChannelIn count)) (load_channel c count key j) _
            (load_channel-ChannelIn j)
            (λ ch g.
              Given-bind (All (ChannelIn count)) (All (ChannelIn count))
                (load_channels c count key js) _ (load_channels-ChannelIn js) (λ chs gs. (g, gs)))

      load_terminal-TerminalIn :
          (j : Value D) → Given (TerminalIn count) (load_terminal c count key j)
      unfolding load_terminal
      load_terminal-TerminalIn j =
          let chs = load_channels-ChannelIn (array_at (codes "channels") j) in
          ground (arith, valid_lt count (integer c (codes "node") minus_1 j), chs)

      pub load_terminals-TerminalIn :
          (js : List (Value D)) → Given (All (TerminalIn count)) (load_terminals c count key js)
      unfolding load_terminals
      load_terminals-TerminalIn [] = tt
      load_terminals-TerminalIn (j ∷ js) =
          Given-bind (TerminalIn count) (All (TerminalIn count)) (load_terminal c count key j) _
            (load_terminal-TerminalIn j)
            (λ t g.
              Given-bind (All (TerminalIn count)) (All (TerminalIn count))
                (load_terminals c count key js) _ (load_terminals-TerminalIn js) (λ ts gs. (g, gs)))
