-- ===== src/Examples/Reactor.antt =====
-- The generated program at concrete inputs.
use lf_benchmarks.Common.{◌≡◌, ◌↔◌, refl, Bool, true, false, List, [], ◌∷◌}
use lf_benchmarks.Double.Fixed.{Micro, fixed}
use lf_benchmarks.Reactors.Main.{Program, initialize}
use lf_benchmarks.Reactors.Loop.{wired, closed_loop}
use lf_benchmarks.Reactors.Loop.Runs.{Runs, Runs-closed_loop}
use lf_benchmarks.Reactors.Federated.{
  Federation, FedReach, fed_start, fed_refer, fed_sense, fed_retarget, fed_optimize, fed_actuate,
}
use lf_benchmarks.Reactors.Federated.Agreement.{Synchronized, FedReach-Synchronized}
use lf_benchmarks.Reactors.Plugged.{mpc_solver, plugged_run}
use lf_benchmarks.Reactors.Plugged.Equivalence.{of_loop, loop_controls, plugged_run-closed_loop}
use lf_benchmarks.Reactors.Wiring.{IsConsistent, initialize-IsConsistent}

-- Two tags: at 0 the solver runs, at 1 ms its deadline is missed.
abbrev deadlines : List Bool
deadlines = true ∷ false ∷ []

abbrev after_two : Program Micro
after_two = wired ⦃d = fixed⦄ (closed_loop ⦃d = fixed⦄ deadlines)

Runs-closed_loop_example :
    Runs ⦃d = fixed⦄ deadlines after_two
    ↔ (after_two ≡ wired ⦃d = fixed⦄ (closed_loop ⦃d = fixed⦄ deadlines))
Runs-closed_loop_example = Runs-closed_loop ⦃d = fixed⦄ deadlines after_two

initialize-IsConsistent_example : IsConsistent {F = Micro} (initialize ⦃d = fixed⦄)
initialize-IsConsistent_example = initialize-IsConsistent ⦃d = fixed⦄

-- Reference is a tag ahead when the optimizer solves for the first time; then the plant has moved.
federates_run : (f : Federation Micro) × FedReach ⦃d = fixed⦄ (false ∷ []) f
federates_run =
    let sent = fed_sense (fed_refer (fed_refer fed_start)) refl in
    let solved = fed_optimize false (fed_retarget sent refl refl) refl refl in
    (_, fed_actuate solved refl refl)

FedReach-Synchronized_example : Synchronized ⦃d = fixed⦄ (false ∷ []) federates_run.0
FedReach-Synchronized_example = FedReach-Synchronized ⦃d = fixed⦄ federates_run.1

plugged_run-closed_loop_example :
    plugged_run ⦃d = fixed⦄ (mpc_solver ⦃d = fixed⦄) deadlines
    ≡ (loop_controls ⦃d = fixed⦄ deadlines, of_loop ⦃d = fixed⦄ (closed_loop ⦃d = fixed⦄ deadlines))
plugged_run-closed_loop_example = plugged_run-closed_loop ⦃d = fixed⦄ refl deadlines
