-- ===== src/Lib.antt =====
-- Xrune is a real-time audio engine: a program describes graphs of audio nodes, the graphs are
-- compiled to execution plans, and a running engine plays instances of the plans on an audio thread.
-- This library models the compiler of graphs, the control state of the engine, JSON texts, and the
-- lexer and parser of the .xrune language.
--
-- The parts and how they interact. A host, or the lowering of a parsed .xrune file, builds a
-- graph_blueprint with add(), connect() and the other editing calls (include/xrune/blueprint.hpp).
-- The lexer and the parser (include/xrune/lang/parser) make the syntax tree that is lowered.
-- compile() (src/schedule.cpp) checks the blueprint and computes a compiled_schedule: an execution
-- order, the rate and block size of each node, the layout of buffers, states and parameters, and the
-- tables that wire ports to buffers. include/xrune/instance.hpp builds an instance from it. The
-- instance_manager (include/xrune/instance_manager.hpp) holds the instances in slots on the control
-- thread and gives out handles. The engine (src/engine.cpp) sends commands with these handles to the
-- audio thread, which keeps the active slots and the routes between them, and reports ended voices.
--
-- The files:
--   Base and Base/*      shared names, lists measured by native numbers, bit tricks, alignment.
--   Blueprint            include/xrune/core.hpp (port_descriptor, node) and
--                        include/xrune/blueprint.hpp: graph_blueprint and its operations.
--   Blueprint/Wiring     the well-formedness of a blueprint, and what connect() accepts.
--   Blueprint/Editing    sequences of building operations.
--   Schedule             include/xrune/schedule.hpp: compiled_schedule; src/schedule.cpp: compile().
--   Schedule/Topo        the topological sort; Topo/Edges, Topo/Step and Topo/Order prove it.
--   Schedule/Power       is_power_of_two().
--   Schedule/Rates       rate and block-size propagation; its children prove it.
--   Schedule/Layout      buffer, state and parameter layout and wiring; its children prove them.
--   Schedule/Compiled    the theorems on whole compiled schedules.
--   Manager              include/xrune/instance_manager.hpp: slots, free list, handles.
--   Manager/Slots        the order of the pool; Manager/Handles: what handles reach.
--   Engine               include/xrune/engine.hpp and src/engine.cpp: drain_commands(), add_route(),
--                        remove_route(), release_slot().
--   Engine/Active        active_gen, active_list and routes agree; Engine/Commands: the commands;
--                        Engine/Killed: what they do of a killed handle; Engine/Reaping:
--                        should_reap() (Due) and reap_pass(), with its loops (Scan, Released), the
--                        whole (Pass) and calls of it block after block (Timed); Engine/Order:
--                        compute_order(), with its counters (Counts), its loop (Start, Sound) and its
--                        order (Voices).
--   Arena                include/xrune/util/arena.hpp: memory_arena, from which instances and the
--                        engine take buffers; Arena/Blocks: one request; Arena/Runs: a run of them;
--                        Arena/Pool: fixed_block_pool.
--   Json                 include/xrune/util/json.hpp, src/util/json.cpp: values and their fields;
--                        Json/Access: find() and set().
--   Json/Numbers         what the JSON code uses of the C library's number functions.
--   Json/Writer          dump(); Json/Reader: parse(); Json/Fuel: its fuel.
--   Json/RoundTrip       parse() behind dump(); Json/Strings, Json/White, Json/Plain and Json/Rounds
--                        are its parts.
--   Lang/Token           include/xrune/lang/parser/token.hpp and diagnostic.hpp.
--   Lang/Lexer           include/xrune/lang/parser/lexer.hpp: the cursor and the blanks;
--                        Lexer/Scan: tokens, next(), run(); Lexer/Cursor, Scan/Shape, Scan/Taken and
--                        Scan/Spacing are on the tokens that the lexer gives.
--   Lang/Ast             include/xrune/lang/parser/ast.hpp; Ast/Dump: the debug dump.
--   Lang/Parser          include/xrune/lang/parser/parser.hpp: the token helpers;
--                        Parser/Expressions, Parser/Statements: the parser; Parser/Progress,
--                        Parser/Enough, Parser/Ending and Parser/Total are on its loops.
--   Lang/Parser/Written  expressions as tokens; Parser/Reading, Parser/Precedence and Parser/Grouping
--                        are on how they are read. Calls are left out there.
--   Queue                include/xrune/util/mpmc_queue.hpp: the memory and the accesses of push() and
--                        pop(). Queue/System: threads that interleave; Queue/Contract: the list
--                        that they share; Queue/Slots, Tickets, Kept, View, Refine and Fifo are on
--                        how the one shows the other.
--   Registry             include/xrune/lang/node_registry.hpp: the arguments of a node call, and the
--                        table of node factories.
--   Serialize            src/serialize.cpp: to_json(); Serialize/Load: from_json(); Serialize/Dot:
--                        to_dot(). Serialize/Saved says which blueprints JSON can hold, and
--                        Serialize/Codes what a String is as bytes; Members, Args, Back, Wires,
--                        Nodes, Plain, RoundTrip, Guards and Checked are on what is written and read back.
--   Tests                samples and the theorems at them.
--
-- How the code is read. A method that changes its object takes the object and returns it, with its
-- result where it has one; a vector is a list, read past its end as the definition that reads it
-- says. sample_t, a double, is an abstract type S, since the modelled code only carries samples, and
-- compares a peak by an argument. A node is the record of what its virtual functions describe. A size_t is a natural number: where the
-- source adds or multiplies, `word` writes the wrap at 2 ^ 64 out. The input rate, a long, is held as
-- its 64-bit pattern. A schedule with ok = false is `none`, so its error text is not modelled. A
-- shift by 64 or more, undefined in C++, is a failure. The engine is a function of its state and one
-- command; graph_instance and the telemetry queue are abstract types, and graph_instance's
-- set_parameter(), its finished_flag and terminal_peak(), the queue's try_enqueue() and the result of
-- instantiate() are arguments.
--
-- from_json() is a function of the text that gives the blueprint and its name, or the problem that
-- its error message reports; what it leaves in `out` after an error is not modelled. A factory of the
-- registry is any function from arguments to a node or none. Numbering holds double(i) of an index,
-- with the laws in SizeLaws.
--
-- A text is the list of its bytes, and the place in a text or in the tokens is what is left of it. The
-- number functions of the C library are parameters (CNumbers for JSON, CDoubles for the language),
-- with the laws that the JSON round trip needs in NumberLaws. A JSON value is its kind with the field
-- that this kind uses. The int of a line, a column or a bracket depth is a natural number, for a source
-- shorter than 2 ^ 31 bytes. A parser's error value is its message and the text that was left.
--
-- A thread in the queue makes one access to the shared memory in each move, and the moves of all
-- threads come in any order; the moves see the memory in one order, which the release and acquire of
-- a cell's sequence number give for its value.
--
-- Fuel. The loop of the sort takes one node off its queue in each round, and its fuel is the number
-- of nodes (in compute_order(), of slots): a node enters the queue when its last edge is taken away, so no node enters it twice. JSON
-- parsing has three steps for each byte, the lexer's loops one step for each byte, expressions eight
-- steps for each token, and the other loops of the parser one step for each token; one or a few steps
-- are added for the end. `none`, or out_of_fuel for JSON, says that the fuel ran out. Every other loop is
-- structural; where the parser skips tokens up to a kind that the last token does not have, `none` says
-- that the loop would not end.
--
-- Not modelled: the signal processing of nodes and instances, which is floating-point arithmetic; the
-- audio backends, FAUST and the worker threads, which are calls to other libraries and the system;
-- the mixing of the engine; the lowering of the language to blueprints, and the host API over all of
-- it.
pub mod Arena
pub mod Base
pub mod Blueprint
pub mod Engine
pub mod Json
pub mod Lang
pub mod Manager
pub mod Queue
pub mod Registry
pub mod Schedule
pub mod Serialize
pub mod Tests
