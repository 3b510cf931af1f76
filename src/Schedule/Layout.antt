-- ===== src/Schedule/Layout.antt =====
-- src/schedule.cpp: context indices, buffer, state and parameter layout, and the wiring tables.
pub mod Regions
pub mod Wires
use xrune.Base.{
  ℕ, zero, suc, ◌+◌, ◌*◌, List, [], ◌∷◌, ◌++◌, map, max, modify, set, replicate, length, ltb,
  if◌then◌else◌, word, align_up,
}
use xrune.Blueprint.{Node, Connection, ParamConnection}

-- A loop base[i] = off; off += size[i]: the bases, and where they end.
unfoldable pub running : ℕ → List ℕ → List ℕ × ℕ
running off [] = ([], off)
running off (x ∷ xs) = let (bases, end) = running (word (off + x)) xs in (off ∷ bases, end)

-- The samples per output channel of each node.
unfoldable pub strides : ℕ → List ℕ → List ℕ
strides block_size = map (λ rate. word (rate * block_size))

-- The samples of each node's outputs.
unfoldable pub out_sizes : {S : Type 0} → List (Node S) → List ℕ → List ℕ
out_sizes [] ss = []
out_sizes (n ∷ ns) [] = []
out_sizes (n ∷ ns) (s ∷ ss) = word (n.outputs_count * s) ∷ out_sizes ns ss

unfoldable pub largest : ℕ → List ℕ → ℕ
largest m [] = m
largest m (x ∷ xs) = largest (max m x) xs

-- State blocks: an aligned offset for each node that keeps state, and 0 for the others.
unfoldable pub state_layout : {S : Type 0} → ℕ → List (Node S) → List ℕ × ℕ
state_layout soff [] = ([], soff)
state_layout soff (n ∷ ns) =
    let at = if ltb 0 n.state_size then align_up soff n.state_align else soff in
    let (offsets, end) = state_layout (word (at + n.state_size)) ns in
    ((if ltb 0 n.state_size then at else 0) ∷ offsets, end)

-- src_ref: silent, or a producer's output channel.
pub data SrcRef : Type 0 where
  silent : SrcRef
  channel : (node chan : ℕ) → SrcRef

unfoldable pub silent_rows : List ℕ → List (List SrcRef)
silent_rows counts = map (λ c. replicate c silent) counts

-- table[dst][port] = {src, out}
unfoldable pub wire : ℕ → ℕ → SrcRef → List (List SrcRef) → List (List SrcRef)
wire dst port src table = modify table dst (λ row. set row port src)

-- A loop of such writes, over what it writes and where.
pub record Wire : Type 0 where
  pub dst : ℕ
  pub port : ℕ
  pub source : SrcRef

unfoldable pub wire_all : List Wire → List (List SrcRef) → List (List SrcRef)
unfolding wire
wire_all [] table = table
wire_all (w ∷ ws) table = wire_all ws (wire w.dst w.port w.source table)

abbrev pub input_wire : Connection → Wire
input_wire c = record {
  dst = c.dst_node;
  port = c.dst_input;
  source = channel c.src_node c.src_output;
}

abbrev pub param_wire : ParamConnection → Wire
param_wire c = record {
  dst = c.dst_node;
  port = c.dst_param;
  source = channel c.src_node c.src_output;
}

unfoldable pub wire_inputs : List Connection → List (List SrcRef) → List (List SrcRef)
unfolding wire_all
wire_inputs cs = wire_all (map input_wire cs)

unfoldable pub wire_params : List ParamConnection → List (List SrcRef) → List (List SrcRef)
unfolding wire_all
wire_params cs = wire_all (map param_wire cs)
