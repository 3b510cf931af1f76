-- ===== src/Engine.antt =====
-- include/xrune/engine.hpp and src/engine.cpp: what the audio thread does with the commands of the
-- control thread. `I` stands for graph_instance, `S` for sample_t and `T` for the telemetry queue.
-- The operations on these are the module's arguments: set_param is graph_instance::set_parameter()
-- and try_enqueue is that of the lock-free queue. A vector is read only within its size.
pub mod Active
pub mod Commands
pub mod Killed
pub mod Reaping
pub mod Order
use xrune.Base.{
  ℕ, zero, suc, ◌+◌, ◌*◌, Bool, true, false, not, ◌&&◌, ◌||◌, Option, none, some, List, [], ◌∷◌,
  ◌++◌, ◌==◌, ltb, leb, if◌then◌else◌, length, get_or, modify, set, replicate, keep,
}
use xrune.Manager.{InstanceHandle, InstanceSlot, InstanceManager, instance_at}

pub record RouteTarget : Type 0 where
  pub to_master : Bool
  pub instance : InstanceHandle
  pub terminal : ℕ

pub data CommandType : Type 0 where
  activate : CommandType
  kill : CommandType
  set_parameter : CommandType
  connect : CommandType
  disconnect : CommandType

pub record CommandEvent (S : Type 0) : Type 0 where
  pub type : CommandType
  pub handle : InstanceHandle
  pub node_index : ℕ
  pub parameter_index : ℕ
  pub parameter_value : S
  pub src_terminal : ℕ
  pub dest : RouteTarget

pub data EndReason : Type 0 where
  killed : EndReason
  finished : EndReason
  timed_out : EndReason
  silent : EndReason

pub record TelemetryEvent : Type 0 where
  pub slot : ℕ
  pub generation : ℕ
  pub reason : EndReason

pub record ActiveRoute : Type 0 where
  pub src_slot : ℕ
  pub src_gen : ℕ
  pub src_terminal : ℕ
  pub to_master : Bool
  pub dst_slot : ℕ
  pub dst_gen : ℕ
  pub dst_terminal : ℕ

-- The fields that commands change. route_capacity is routes.capacity(), which init() reserves.
pub record Engine (I S T : Type 0) : Type 0 where
  pub mgr : InstanceManager I S
  pub active_gen : List ℕ
  pub active_list : List ℕ
  pub routes : List ActiveRoute
  pub route_capacity : ℕ
  pub telemetry_queue : T

-- std::find, then erase.
unfoldable pub erase : ℕ → List ℕ → List ℕ
erase a [] = []
erase a (x ∷ xs) = if x == a then xs else x ∷ erase a xs

-- slot < active_gen.size() && active_gen[slot] == generation
unfoldable pub is_active : List ℕ → InstanceHandle → Bool
is_active gens h = ltb h.slot (length gens) && get_or gens h.slot 0 == h.generation

unfoldable pub touches : ℕ → ActiveRoute → Bool
touches slot r = r.src_slot == slot || (not r.to_master && r.dst_slot == slot)

unfoldable pub route_live : List ℕ → ActiveRoute → Bool
unfolding is_active
route_live gens r =
    is_active gens (record { slot = r.src_slot; generation = r.src_gen })
    && (r.to_master || is_active gens (record { slot = r.dst_slot; generation = r.dst_gen }))

-- The test of remove_route().
unfoldable pub route_matches : {S : Type 0} → CommandEvent S → ActiveRoute → Bool
route_matches cmd r =
    r.src_slot == cmd.handle.slot
    && r.src_gen == cmd.handle.generation
    && r.src_terminal == cmd.src_terminal
    && (if r.to_master
        then cmd.dest.to_master
        else not cmd.dest.to_master
          && r.dst_slot == cmd.dest.instance.slot
          && r.dst_gen == cmd.dest.instance.generation
          && r.dst_terminal == cmd.dest.terminal)

-- The route that a connect command asks for. A route to the master leaves the other fields 0.
unfoldable pub route_of : {S : Type 0} → CommandEvent S → ActiveRoute
route_of cmd = record {
  src_slot = cmd.handle.slot;
  src_gen = cmd.handle.generation;
  src_terminal = cmd.src_terminal;
  to_master = cmd.dest.to_master;
  dst_slot = if cmd.dest.to_master then 0 else cmd.dest.instance.slot;
  dst_gen = if cmd.dest.to_master then 0 else cmd.dest.instance.generation;
  dst_terminal = if cmd.dest.to_master then 0 else cmd.dest.terminal;
}

-- g->set_parameter() on the instance of a slot, where there is one.
unfoldable pub set_on :
    {I S : Type 0} → (I → ℕ → ℕ → S → I) → CommandEvent S → InstanceSlot I S → InstanceSlot I S
set_on set_param cmd s = record s {
  inst = elim s.inst [
    | none ↦ none
    | some g ↦ some (set_param g cmd.node_index cmd.parameter_index cmd.parameter_value)
  ];
}

module _ {I S T : Type 0} where
  unfoldable pub add_route : CommandEvent S → Engine I S T → Engine I S T
  unfolding is_active route_of
  add_route cmd e =
      if not (is_active e.active_gen cmd.handle)
      then e
      else if leb e.route_capacity (length e.routes)
      then e
      else if not cmd.dest.to_master && not (is_active e.active_gen cmd.dest.instance)
      then e
      else record e { routes = e.routes ++ route_of cmd ∷ [] }

  unfoldable pub remove_route : CommandEvent S → Engine I S T → Engine I S T
  unfolding route_matches
  remove_route cmd e = record e { routes = keep (λ r. not (route_matches cmd r)) e.routes }

  unfoldable pub activate_slot : InstanceHandle → Engine I S T → Engine I S T
  activate_slot h e =
      if ltb h.slot (length e.active_gen) && get_or e.active_gen h.slot 0 == 0
      then record e {
        active_gen = set e.active_gen h.slot h.generation;
        active_list = e.active_list ++ h.slot ∷ [];
      }
      else e

  unfoldable pub release_slot :
      (T → TelemetryEvent → T) → ℕ → EndReason → Engine I S T → Engine I S T
  unfolding erase touches
  release_slot try_enqueue slot why e = record e {
    active_gen = set e.active_gen slot 0;
    active_list = erase slot e.active_list;
    routes = keep (λ r. not (touches slot r)) e.routes;
    telemetry_queue =
        try_enqueue e.telemetry_queue
          (record { slot = slot; generation = get_or e.active_gen slot 0; reason = why });
  }

  unfoldable pub handle_command :
      (I → ℕ → ℕ → S → I) → (T → TelemetryEvent → T) → CommandEvent S → Engine I S T → Engine I S T
  unfolding is_active activate_slot release_slot set_on add_route remove_route
  handle_command set_param try_enqueue cmd e = elim cmd.type [
    | activate ↦ activate_slot cmd.handle e
    | kill ↦
        if is_active e.active_gen cmd.handle
        then release_slot try_enqueue cmd.handle.slot EndReason.killed e
        else e
    | set_parameter ↦
        if is_active e.active_gen cmd.handle
        then record e {
          mgr = record e.mgr { slots = modify e.mgr.slots cmd.handle.slot (set_on set_param cmd) };
        }
        else e
    | connect ↦ add_route cmd e
    | disconnect ↦ remove_route cmd e
  ]

  -- drain_commands(), on the commands that try_dequeue() yields until the queue is empty.
  unfoldable pub drain_commands :
      (I → ℕ → ℕ → S → I)
      → (T → TelemetryEvent → T)
      → List (CommandEvent S)
      → Engine I S T
      → Engine I S T
  unfolding handle_command
  drain_commands set_param try_enqueue [] e = e
  drain_commands set_param try_enqueue (cmd ∷ cmds) e =
      drain_commands set_param try_enqueue cmds (handle_command set_param try_enqueue cmd e)

  -- What init() leaves, for the capacity that routes.reserve() makes.
  unfoldable pub init_engine : InstanceManager I S → ℕ → ℕ → T → Engine I S T
  init_engine mgr max_instances capacity queue = record {
    mgr = mgr;
    active_gen = replicate max_instances 0;
    active_list = [];
    routes = [];
    route_capacity = capacity;
    telemetry_queue = queue;
  }
