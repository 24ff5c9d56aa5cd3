-- ===== src/Lib.antt =====
-- Models and theorems for the control benchmarks of this repository: model predictive control of a
-- double integrator, as C threads and as reactors, and a fly-by-wire voting system.
--
-- The parts of the program and the files that model them:
--
-- Mpc/: mpc/mpc-code/mpc-optimizer-model/mpc-code/mpc_solver.c, whose arithmetic is also that of
--   mpc/mpc-code/mpc_threaded.c and of the generated optimizer. Params has the macros and matrices,
--   Cost `compute_cost`, Solve the body of `mpc_solve`; the static `u_seq` is an argument and a
--   result. The loops over k are recursions on the rows left, the loop over iter is `iterate` with
--   OPT_ITER rounds: all structural, none on fuel.
-- Threaded/: mpc/mpc-code/mpc_threaded.c. State has `SharedState` and the bodies of the critical
--   sections; System has each thread's place as a data type, and `Step`, in which every thread
--   moves in any order. A critical section that only touches the shared state is one step. The
--   sensor's section also reads `g_plant_x`, which the actuator's `plant_step` writes without the
--   mutex, so both are two steps, and `is_locked` keeps the others out of the mutex between the
--   sensor's. `prediction_wake` is a spurious wake-up. How long a thread sleeps is not modelled:
--   any order is allowed. Mirror holds the threads' states against the loop of Reactors/Loop.antt.
-- Reactors/: mpc/mpc-code/mpc-lf-main/src-gen/mpc, the program generated from mpc.lf. Reference,
--   Plant and Optimizer are _reference.c, _plant.c and _optimizer.c with their headers (constructor,
--   reactions, deadline handler); Main is mpc.c, one function for each block of
--   `_lf_initialize_trigger_objects`; a pointer to a port, trigger or reaction is its name;
--   Enclaves has the functions before it. Runtime states the documented contract of the reactor
--   runtime over those tables, and Loop the control loop of mpc/mpc-code/mpc-lf-main/mpc.lf, which
--   the generated program is to implement. Federated is mpc/mpc-code/mpc-lf-federated/mpc_fed.lf,
--   three federates that run in any order and queues between them; Plugged is
--   mpc/mpc-code/mpc-optimizer-model/mpc-code/mpc.lf, whose optimizer calls a solver that is
--   an argument of the model, and mpc_solver.c as one.
-- Fbw/: fbw-lf/src/fbw_nav.h in Nav, the reactors of fbw-lf/src/fbw.lf in Pfc, Vote and System, and
--   the two votes of fbw-lf/tests/behavior/wes_original_behavior_test.c in Vote. Fbw.System composes
--   the reactors a second at a time, as the main reactor wires them. Controlled is
--   fbw-lf/src/fbw_controlled_test.lf, the system under a scripted failure generator; Redundancy
--   is what the system is to report by the health of its computers; Validation is
--   fbw-lf/src/fbw_c_equiv_validation.lf, the system without faults on `float` arithmetic; and
--   Vote.Harness is fbw-lf/tests/behavior/wes_lf_behavior_test.lf, the test of the vote. Reactions
--   has the reactions of a second one by one, as a step relation in which the computers take turns
--   in any order. Controlled.Log, Validation.Log and Vote.Output are what the programs print, line
--   by line.
-- Scripts/: fbw-lf/scripts. EndToEnd is check_e2e_faults.py, with the part of Python's `re` that it
--   uses in Patterns; Behavior is compare_behavior.py; Comparison is compare_fbw.py, with its two
--   patterns in Records, its dictionaries as a quotient in Dictionary and the rows of its CSV file in
--   Rows. They read what the models above print.
-- Common/, Int.antt, Text/ and Double/ are the helpers; Examples/ applies the theorems at concrete
-- inputs.
--
-- A `double` is any type with the operations of the record `Double`, of which nothing is assumed
-- but what a theorem names: `IsOrdered` (nothing is below itself; literals and their negations are
-- numbers and lie on their sides of 0; of two numbers the one that is not below is `>=`),
-- `IsComparable` (`==` is symmetric and transitive, not reflexive, because of NaN), `NegativeZero`
-- (adding to 0 changes a sum only if both terms are negative zeros). The millionths of
-- Double/Fixed.antt show that they can hold. `sscanf`, `acos`, the cast to `float`, how `%.4f` and
-- `%.9f` print a number, Python's `float` and the contents of the position file are parameters, and
-- so is what a local variable holds before it is set. `ReadsBack` says of `%.9f` and `float` that
-- what the one prints of a finite number the other takes.
-- Integers are unbounded: the counters stay far below 2^31 in the five seconds of the one program,
-- and below the 11960 lines of the other's file. `%lld` is printed with nineteen digits at most,
-- which are enough below 2^63.
--
-- Not modelled: the copy of the reactor runtime in src-gen and include, the build files and
-- binaries; the main reactor's _mpc_main.c and _mpc_main.h, which have no state or reaction; what the
-- control programs and the scripts print, with the statistics of compare_fbw.py, and the lines that
-- the runtime adds to a log; the Python scripts that only start programs; data and results. In
-- Runtime all that is taken from the runtime is the order by levels, timers, presence and
-- deadlines; a deadline is a free choice at each tag. In Federated it is that a federate handles
-- its tags in order and waits at an input until it knows it. The runs of Fbw, Federated and Plugged
-- are recursions on the seconds or tags, or relations, and no model but the printing of a number is
-- on fuel.
pub mod Common
pub mod Int
pub mod Text
pub mod Double
pub mod Mpc
pub mod Threaded
pub mod Fbw
pub mod Reactors
pub mod Scripts
pub mod Examples
