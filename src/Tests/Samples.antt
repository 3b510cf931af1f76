-- ===== src/Tests/Samples.antt =====
-- A small patch: an oscillator through a resampled shaper, with a second oscillator on the shaper's
-- control port; and its compiled schedule.
use xrune.Base.{◌==◌, if◌then◌else◌, ℕ, ◌^◌, ◌≡◌, refl, none, some, List, [], ◌∷◌}
use xrune.Blueprint.{
  PortDescriptor, Node, Connection, ParamConnection, Blueprint, empty, size, connect, connect_param,
  set_output, add, add_named,
}
use xrune.Blueprint.Editing.{Edit, adds, adds_named, connects, connects_param, sets_output, edits}
use xrune.Schedule.Topo.{topo_sort, edges}
use xrune.Schedule.Power.{is_power_of_two}
use xrune.Schedule.Rates.{
  initial, propagate, visit, gather, node_rate, block_delta, block_at, store,
}
use xrune.Schedule.Layout.{
  running, strides, out_sizes, largest, state_layout, silent_rows, wire_inputs, wire_params,
}
use xrune.Schedule.{CompiledSchedule, lay_out, compile}

abbrev pub port : PortDescriptor ℕ
port = record { name = "freq"; default_value = 440; min_value = 0; max_value = 20000 }

abbrev pub node : ℕ → ℕ → ℕ → ℕ → ℕ → Node ℕ
node ins num den state align = record {
  inputs_count = ins;
  outputs_count = 1;
  params = port ∷ [];
  type_name = "sample";
  rate_num = num;
  rate_den = den;
  block_num = 1;
  block_den = 1;
  state_size = state;
  state_align = align;
  config_args = [];
  param_default = λ p. if p == 0 then 440 else 0;
}

abbrev pub oscillator : Node ℕ
oscillator = node 0 1 1 8 8

abbrev pub gain : Node ℕ
gain = node 1 1 1 0 8

abbrev pub up2 : Node ℕ
up2 = node 1 2 1 20 4

abbrev pub down2 : Node ℕ
down2 = node 1 1 2 20 8

abbrev pub link : ℕ → ℕ → Connection
link u v = record { src_node = u; src_output = 0; dst_node = v; dst_input = 0 }

abbrev pub param_link : ℕ → ℕ → ParamConnection
param_link u v = record { src_node = u; src_output = 0; dst_node = v; dst_param = 0 }

-- down2, up2, shaper and oscillator are added in this order, so that the sort has work to do.
abbrev pub recipe : List (Edit ℕ)
recipe =
    adds down2
    ∷ adds up2
    ∷ adds gain
    ∷ adds_named "osc" oscillator
    ∷ connects (link 2 0)
    ∷ connects (link 1 2)
    ∷ connects (link 3 1)
    ∷ connects (link 3 1)
    ∷ connects_param (param_link 1 2)
    ∷ sets_output 0
    ∷ []

unfoldable pub programs : Unit {0}
unfolding empty size connect connect_param set_output add add_named topo_sort edges is_power_of_two
    initial propagate visit gather node_rate block_delta block_at store running strides out_sizes
    largest state_layout silent_rows wire_inputs wire_params lay_out compile
programs = tt

unfoldable pub patch : Blueprint ℕ
unfolding programs
patch = edits empty recipe

patch_links : patch.connections ≡ link 2 0 ∷ link 1 2 ∷ link 3 1 ∷ []
unfolding patch
patch_links = refl

unfoldable pub plan : CompiledSchedule ℕ
unfolding patch
plan = elim (compile patch (2 ^ 7)) [ none ↦ lay_out patch 0 [] (initial 0 0) | some s ↦ s ]

pub compile-patch : compile patch (2 ^ 7) ≡ some plan
unfolding plan
compile-patch = refl

plan_order : plan.topo_order ≡ 3 ∷ 1 ∷ 2 ∷ 0 ∷ []
unfolding plan
plan_order = refl

plan_calls : plan.calls ≡ 1 ∷ 2 ∷ 2 ∷ 1 ∷ []
unfolding plan
plan_calls = refl

-- Two nodes that change neither rate nor block size.
unfoldable pub steady_patch : Blueprint ℕ
unfolding programs
steady_patch = edits empty (adds oscillator ∷ adds gain ∷ connects (link 0 1) ∷ [])
