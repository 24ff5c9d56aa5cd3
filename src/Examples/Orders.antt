-- ===== src/Examples/Orders.antt =====
-- The orders of the flight computers' reactions, and their counters, at concrete inputs.
use lf_benchmarks.Common.{ℕ, ◌≡◌, ◌↔◌, ◌⊎◌, ◌<◌, some, List, [], ◌∷◌, ◌++◌, length}
use lf_benchmarks.Int.{pos, negsuc}
use lf_benchmarks.Double.Fixed.{Micro, fixed}
use lf_benchmarks.Fbw.Nav.{Line, ok, gpgll_sentence}
use lf_benchmarks.Fbw.System.{System, initial, run}
use lf_benchmarks.Fbw.System.Computers.{Computer, pfc_of}
use lf_benchmarks.Fbw.System.Lockstep.{after_seconds}
use lf_benchmarks.Fbw.System.Counters.{counters_bounded}
use lf_benchmarks.Fbw.Reactions.{Executes}
use lf_benchmarks.Fbw.Reactions.Execution.{Executes-run}
use lf_benchmarks.Examples.Faults.{scan, no_fault, stopped_2}

abbrev two_positions : List Line
two_positions = (gpgll_sentence ++ (50 ∷ [])) ∷ (gpgll_sentence ++ (51 ∷ [])) ∷ []

abbrev at_start : System Micro
at_start = initial ⦃d = fixed⦄ scan (some two_positions)

Executes-run_example :
    Executes ⦃d = fixed⦄ scan (no_fault ∷ stopped_2 ∷ []) at_start (some ok ∷ some ok ∷ [])
    ↔ (some ok ∷ some ok ∷ [] ≡ run ⦃d = fixed⦄ scan (no_fault ∷ stopped_2 ∷ []) at_start)
Executes-run_example =
    Executes-run ⦃d = fixed⦄ scan (no_fault ∷ stopped_2 ∷ []) at_start (some ok ∷ some ok ∷ [])

counters_bounded_example :
    let counter =
      (pfc_of Computer.second
        (after_seconds ⦃d = fixed⦄ scan (no_fault ∷ stopped_2 ∷ []) at_start)).counter in
    (counter ≡ negsuc 0)
    ⊎ ((k : ℕ) × (counter ≡ pos k)
        × (k < length (no_fault ∷ stopped_2 ∷ []))
        × (k < length two_positions))
counters_bounded_example =
    counters_bounded ⦃d = fixed⦄ scan two_positions (no_fault ∷ stopped_2 ∷ []) Computer.second
