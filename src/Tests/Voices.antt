-- ===== src/Tests/Voices.antt =====
-- Two voices, a route from one to the other and one to the master, and the theorems at them. An
-- instance is the last value written to it, and the telemetry queue is a list.
use xrune.Base.{
  Bool, get_elem?, get_or, set, some, ltb, Distinct, index_of, member, ℕ, ◌<◌, ◌≡◌, refl, arith,
  List, [], ◌∷◌, ◌++◌, All, true, false,
}
use xrune.Manager.{InstanceHandle, InstanceSlot, LifetimeKind, null_handle}
use xrune.Engine.{
  Engine, CommandEvent, CommandType, RouteTarget, EndReason, TelemetryEvent, is_active, route_of,
  release_slot, route_live, add_route, handle_command, drain_commands, init_engine,
}
use xrune.Engine.Order.{
  is_followed, append_rest, relax_routes, order_loop, count_routes, clear_degrees, compute_order,
}
use xrune.Engine.Order.Counts.{live_edges}
use xrune.Engine.Order.Voices.{compute_order-voices, compute_order-routes}
use xrune.Schedule.Topo.Order.{IsRanked}
use xrune.Engine.Active.{IsProper, IsRouted}
use xrune.Engine.Commands.{drain_commands-IsRouted, kill_lem, Ended}
use xrune.Engine.Reaping.{should_reap, scan, release_all, reap_pass}
use xrune.Engine.Killed.{killed_for_good}
use xrune.Engine.Reaping.Pass.{Reaped, reap_pass-Reaped}
use xrune.Engine.Reaping.Timed.{reap_passes, reap_passes_timed}
use xrune.Tests.Slots.{pool, handle}

abbrev write : ℕ → ℕ → ℕ → ℕ → ℕ
write g node param value = value

abbrev push : List TelemetryEvent → TelemetryEvent → List TelemetryEvent
push q event = q ++ event ∷ []

abbrev to_instance : InstanceHandle → RouteTarget
to_instance h = record { to_master = false; instance = h; terminal = 0 }

abbrev master : RouteTarget
master = record { to_master = true; instance = null_handle; terminal = 0 }

abbrev command : CommandType → InstanceHandle → RouteTarget → CommandEvent ℕ
command type h dest = record {
  type = type;
  handle = h;
  node_index = 0;
  parameter_index = 0;
  parameter_value = 7;
  src_terminal = 0;
  dest = dest;
}

abbrev start : Engine ℕ ℕ (List TelemetryEvent)
start = init_engine pool 3 12 []

abbrev script : List (CommandEvent ℕ)
script =
    command CommandType.activate (handle 0 3) master
    ∷ command CommandType.activate (handle 1 2) master
    ∷ command CommandType.connect (handle 0 3) (to_instance (handle 1 2))
    ∷ command CommandType.connect (handle 1 2) master
    ∷ command CommandType.kill (handle 0 1) master
    ∷ []

unfoldable playing : Engine ℕ ℕ (List TelemetryEvent)
unfolding init_engine drain_commands handle_command pool
playing = drain_commands write push script start

playing_list : playing.active_list ≡ 0 ∷ 1 ∷ []
unfolding playing
playing_list = refl

to_master-IsProper :
    (type : CommandType) (h : InstanceHandle) → 0 < h.generation → IsProper (command type h master)
to_master-IsProper type h p = record { handle = p; target = λ m. cc }

script-IsProper : All IsProper script
script-IsProper =
    let first = to_master-IsProper CommandType.activate (handle 0 3) (omega arith) in
    let second = to_master-IsProper CommandType.activate (handle 1 2) (omega arith) in
    let route = to_master-IsProper CommandType.connect (handle 1 2) (omega arith) in
    let end = to_master-IsProper CommandType.kill (handle 0 1) (omega arith) in
    (
      first,
      (second, (record { handle = omega arith; target = λ m. omega arith }, (route, (end, tt)))),
    )

-- A null handle as a target passes for the generation of a slot with no voice, and the route to it
-- is taken.
null_target :
    (add_route (command CommandType.connect (handle 0 3) (to_instance (handle 2 0))) playing).routes
    ≡ playing.routes
      ++ route_of (command CommandType.connect (handle 0 3) (to_instance (handle 2 0))) ∷ []
unfolding playing add_route
null_target = refl

drain_commands-IsRouted_example : IsRouted (drain_commands write push script start)
drain_commands-IsRouted_example =
    drain_commands-IsRouted write push pool 3 12 [] script script-IsProper

abbrev kill_voice : ℕ → ℕ → CommandEvent ℕ
kill_voice slot generation = command CommandType.kill (handle slot generation) master

playing-IsRouted : IsRouted playing
unfolding playing
playing-IsRouted = drain_commands-IsRouted write push pool 3 12 [] script script-IsProper

kill_lem_example :
    Ended write push
      (handle 0 3)
      EndReason.killed
      playing
      (handle_command write push (kill_voice 0 3) playing)
unfolding playing is_active
kill_lem_example =
    kill_lem write push (kill_voice 0 3) playing playing-IsRouted refl (omega arith) refl

abbrev again : List (CommandEvent ℕ)
again = command CommandType.activate (handle 0 4) master ∷ kill_voice 0 3 ∷ []

killed_for_good_example :
    is_active (drain_commands write push (kill_voice 0 3 ∷ again) playing).active_gen (handle 0 3)
    ≡ false
killed_for_good_example =
    killed_for_good write push (kill_voice 0 3) again playing refl (omega arith)
      ((λ k. refl), ((λ k. cc k), tt))

-- Every voice of which the instance has finished is ended, with its routes.
unfoldable after_block : Engine ℕ ℕ (List TelemetryEvent)
after_block = reap_pass (λ g. true) ltb push (λ g. g) playing

reaped : (after_block.active_list ≡ []) × (after_block.routes ≡ [])
unfolding playing after_block reap_pass scan should_reap release_all release_slot
reaped = (refl, refl)

abbrev three_blocks : InstanceSlot ℕ ℕ
three_blocks = record {
  inst = some 5;
  generation = 1;
  life = record {
    kind = LifetimeKind.timed;
    ttl_blocks = 3;
    silence_threshold = 0;
    silence_blocks = 0;
  };
  age_blocks = 0;
  silent_run = 0;
}

-- The voice in slot 0 has three blocks to live; that in slot 1 is permanent.
unfoldable aging : Engine ℕ ℕ (List TelemetryEvent)
unfolding playing
aging = record playing { mgr = record playing.mgr { slots = set playing.mgr.slots 0 three_blocks } }

aging-IsRouted : IsRouted aging
unfolding aging
aging-IsRouted =
    let v = playing-IsRouted in
    record { distinct = v.distinct; listed = v.listed; live = v.live; room = v.room }

aging-slot : get_elem? aging.mgr.slots 0 ≡ some three_blocks
unfolding aging pool
aging-slot = refl

reap_pass-Reaped_example :
    Reaped (λ g. false) ltb push (λ g. g) aging (reap_pass (λ g. false) ltb push (λ g. g) aging)
reap_pass-Reaped_example = reap_pass-Reaped (λ g. false) ltb push (λ g. g) aging aging-IsRouted

abbrev three_passes : List ((ℕ → Bool) × (ℕ → ℕ))
three_passes = ((λ g. false), (λ g. 9)) ∷ ((λ g. false), (λ g. 9)) ∷ ((λ g. false), (λ g. 9)) ∷ []

aged : (reap_passes ltb push three_passes aging).active_list ≡ 1 ∷ []
unfolding aging pool reap_passes reap_pass scan should_reap release_all release_slot
aged = refl

reap_passes_timed_example :
    (member 0 (reap_passes ltb push three_passes aging).active_list ≡ false)
    × (get_or (reap_passes ltb push three_passes aging).active_gen 0 0 ≡ 0)
reap_passes_timed_example =
    reap_passes_timed ltb push three_passes aging 0 three_blocks 5 aging-IsRouted aging-slot refl
      refl (omega arith) (omega arith) (omega arith)

-- The counters of the slots are left from another block.
abbrev stale : List ℕ
stale = 9 ∷ 9 ∷ 9 ∷ []

playing_order : compute_order playing stale ≡ some (0 ∷ 1 ∷ [])
unfolding playing compute_order is_followed route_live append_rest order_loop relax_routes
    count_routes clear_degrees
playing_order = refl

-- With a route back, neither voice can come first.
abbrev in_circle : Engine ℕ ℕ (List TelemetryEvent)
in_circle = add_route (command CommandType.connect (handle 1 2) (to_instance (handle 0 3))) playing

circle_order : compute_order in_circle stale ≡ some (0 ∷ 1 ∷ [])
unfolding playing add_route compute_order is_followed route_live append_rest order_loop relax_routes
    count_routes clear_degrees
circle_order = refl

playing-IsRanked : IsRanked (λ v. v) (live_edges playing.active_gen playing.routes)
unfolding playing is_followed route_live
playing-IsRanked = λ u v e. ground arith

compute_order-voices_example :
    (order : List ℕ) × (compute_order playing stale ≡ some order)
    × Distinct order
    × ((v : ℕ) → member v order ≡ member v playing.active_list)
unfolding playing
compute_order-voices_example = compute_order-voices playing stale playing-IsRouted refl

compute_order-routes_example : index_of 0 (0 ∷ 1 ∷ []) < index_of 1 (0 ∷ 1 ∷ [])
unfolding playing is_followed route_live
compute_order-routes_example =
    compute_order-routes playing stale (0 ∷ 1 ∷ []) (λ v. v) 0 1 playing-IsRouted refl playing_order
      playing-IsRanked refl
