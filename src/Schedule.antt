-- ===== src/Schedule.antt =====
-- include/xrune/schedule.hpp and src/schedule.cpp: compile() turns a blueprint into an execution plan.
-- A failed compilation, where the source returns a schedule whose ok flag is false, is `none`.
pub mod Topo
pub mod Power
pub mod Rates
pub mod Layout
pub mod Compiled
use xrune.Base.{
  ℕ, ◌≡◌, Bool, Option, none, some, List, [], ◌∷◌, map, length, ◌==◌, if◌then◌else◌, guard, ◌>>=◌,
  ◌>>◌,
}
use xrune.Blueprint.{Node, Blueprint, size}
use Topo.{edges, topo_sort, build_graph}
use Rates.{RateVectors, initial, propagate}
use Layout.{
  SrcRef, running, strides, out_sizes, largest, state_layout, silent_rows, wire_inputs, wire_params,
}

pub record CompiledSchedule (S : Type 0) : Type 0 where
  pub bp : Blueprint S
  pub block_size : ℕ
  pub topo_order : List ℕ
  pub region_rate : List ℕ
  pub node_block : List ℕ
  pub calls : List ℕ
  pub ctx_base : List ℕ
  pub total_calls : ℕ
  pub out_base_sample : List ℕ
  pub out_stride : List ℕ
  pub total_output_samples : ℕ
  pub max_stride : ℕ
  pub state_offset : List ℕ
  pub state_bytes : List ℕ
  pub total_state_bytes : ℕ
  pub input_source : List (List SrcRef)
  pub param_source : List (List SrcRef)
  pub param_base : List ℕ
  pub total_params : ℕ

module _ {S : Type 0} where
  -- What follows the propagation of rates, which cannot fail.
  unfoldable pub lay_out : Blueprint S → ℕ → List ℕ → RateVectors → CompiledSchedule S
  lay_out bp block_size order rates =
      let strided = strides block_size rates.region_rate in
      let params_counts = map (λ (n : Node S). length n.params) bp.nodes in
      let inputs_counts = map (λ (n : Node S). n.inputs_count) bp.nodes in
      let widest = largest 0 strided in
      record {
        bp = bp;
        block_size = block_size;
        topo_order = order;
        region_rate = rates.region_rate;
        node_block = rates.node_block;
        calls = rates.calls;
        ctx_base = (running 0 rates.calls).0;
        total_calls = (running 0 rates.calls).1;
        out_base_sample = (running 0 (out_sizes bp.nodes strided)).0;
        out_stride = strided;
        total_output_samples = (running 0 (out_sizes bp.nodes strided)).1;
        max_stride = if widest == 0 then block_size else widest;
        state_offset = (state_layout 0 bp.nodes).0;
        state_bytes = map (λ (n : Node S). n.state_size) bp.nodes;
        total_state_bytes = (state_layout 0 bp.nodes).1;
        input_source = wire_inputs bp.connections (silent_rows inputs_counts);
        param_source = wire_params bp.param_connections (silent_rows params_counts);
        param_base = (running 0 params_counts).0;
        total_params = (running 0 params_counts).1;
      }

  unfoldable pub compile : Blueprint S → ℕ → Option (CompiledSchedule S)
  compile bp block_size = do
    order ← topo_sort (size bp) (edges bp)
    guard (length order == size bp)
    rates ← propagate bp.nodes (edges bp) block_size order (initial (size bp) block_size)
    some (lay_out bp block_size order rates)
