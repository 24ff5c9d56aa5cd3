-- ===== src/Fbw/Controlled.antt =====
-- fbw-lf/src/fbw_controlled_test.lf: the system with a failure generator that follows a script. The
-- other reactors are those of fbw.lf.
pub mod Ticks
pub mod Reports
pub mod Log
pub mod Lines
pub mod Calm
pub mod Found
pub mod Passed
use lf_benchmarks.Common.{
  ◌≢◌, ◌≡◌, ℕ, zero, suc, Bool, true, false, not, ◌&&◌, Option, none, some, List, [], ◌∷◌, leb, ltb,
  ◌==◌, if◌then◌else◌,
}
use lf_benchmarks.Double.{Double}
use lf_benchmarks.Fbw.Nav.{Line, Scanned, Status, ok, error_pfc2, error_pfc3, apply_bias}
use lf_benchmarks.Fbw.Pfc.{FaultMsg, Pfc}
use lf_benchmarks.Fbw.System.{Second}
use lf_benchmarks.Fbw.System.Computers.{Computer, place, clean_tick}

-- `{0, 0, 0, 0}`
abbrev pub no_msg : FaultMsg
no_msg = record { stop = false; interrupt = false; cont = false; bias = false }

-- The reaction to the timer, with the time in seconds: what it sets on each port.
unfoldable pub send_scripted : ℕ → Computer → Option FaultMsg
send_scripted t_sec =
    if t_sec == 5
    then place Computer.second (some (record no_msg { stop = true })) none
    else if t_sec == 8
    then place Computer.second (some (record no_msg { cont = true })) none
    else if t_sec == 640
    then place Computer.third (some (record no_msg { bias = true })) none
    else λ c. none

-- The timer fires from 2 s on.
unfoldable pub scripted_fault : ℕ → Computer → Option FaultMsg
unfolding send_scripted
scripted_fault t_sec c = if leb 2 t_sec then send_scripted t_sec c else none

module _ {F : Type 0} where
  -- A second with the script's faults.
  abbrev pub scripted : ℕ → Second F → Second F
  scripted t_sec i = record i {
    fault1 = scripted_fault t_sec Computer.first;
    fault2 = scripted_fault t_sec Computer.second;
    fault3 = scripted_fault t_sec Computer.third;
  }

  -- `n` seconds from `t_sec` on; `stacks` gives what they take from outside besides the faults.
  unfoldable pub script : (ℕ → Second F) → (t_sec n : ℕ) → List (Second F)
  script stacks t_sec zero = []
  script stacks t_sec (suc n) = scripted t_sec (stacks t_sec) ∷ script stacks (suc t_sec) n

module _ {F : Type 0} ⦃d : Double F⦄ (sscanf : Line → Scanned F) where
  -- What WES is to report in a second in which the computed speed is `v`.
  abbrev pub expected_status : ℕ → F → Status
  expected_status t_sec v =
      if leb 5 t_sec && ltb t_sec 8
      then error_pfc2
      else if t_sec == 640 && not (d.eq v (apply_bias v))
      then error_pfc3
      else ok

  -- The reports of `n` seconds from `t_sec` on, with the state of a computer that has no faults.
  unfoldable pub expected_reports : (t_sec n : ℕ) → Pfc F → List (Option Status)
  expected_reports t_sec zero p = []
  expected_reports t_sec (suc n) p =
      let next = (clean_tick sscanf p).1 in
      some (expected_status t_sec next.accumulated_speed) ∷ expected_reports (suc t_sec) n next

  -- For so many seconds the computer finds a position, and the speed it computes is a number.
  abbrev pub Flies : ℕ → Pfc F → Type 0
  Flies zero p = Unit
  Flies (suc n) p =
      let next = clean_tick sscanf p in
      (next.0 ≢ none)
      × (d.eq (next.1).accumulated_speed (next.1).accumulated_speed ≡ true)
      × Flies n next.1

  -- The speed that a computer with no faults computes at its `j`-th tick, counted from 0.
  unfoldable pub speed_at : ℕ → Pfc F → F
  speed_at zero p = (clean_tick sscanf p).1.accumulated_speed
  speed_at (suc j) p = speed_at j (clean_tick sscanf p).1
