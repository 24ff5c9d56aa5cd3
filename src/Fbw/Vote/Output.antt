-- ===== src/Fbw/Vote/Output.antt =====
-- What the two test programs of fbw-lf/tests/behavior print.
use lf_benchmarks.Common.{ℕ, Option, none, some, List, [], ◌∷◌, ◌++◌, ltb, get_or, if◌then◌else◌}
use lf_benchmarks.Text.{codes}
use lf_benchmarks.Double.{Double}
use lf_benchmarks.Fbw.Nav.{Line, Status, ok, error_pfc1, error_pfc2, error_pfc3, emergency, exit}
use lf_benchmarks.Fbw.Vote.{original_wes, expected_tmr}
use lf_benchmarks.Fbw.Vote.Scenarios.{Scenario, matches}
use lf_benchmarks.Fbw.Vote.Harness.{BehaviorResult}

-- The names of the verdicts, which are the verdicts in the C program.
abbrev pub status_name : Status → List ℕ
status_name ok = codes "OK"
status_name error_pfc1 = codes "ERROR_PFC1"
status_name error_pfc2 = codes "ERROR_PFC2"
status_name error_pfc3 = codes "ERROR_PFC3"
status_name emergency = codes "EMERGENCY"
status_name exit = codes "UNKNOWN"

-- The names of the C program's scenarios, and those of the reactor test.
abbrev pub scenario_names : List (List ℕ)
scenario_names =
    codes "all_agree"
    ∷ codes "pfc3_bias"
    ∷ codes "pfc2_stale"
    ∷ codes "recovered"
    ∷ codes "pfc1_stale"
    ∷ codes "different_counters"
    ∷ codes "pfc1_bias"
    ∷ codes "pfc2_bias"
    ∷ codes "all_speeds_different"
    ∷ []

abbrev pub scenario_name : ℕ → List ℕ
scenario_name scenario =
    if ltb 8 scenario then codes "unknown" else get_or scenario_names scenario []

module _ {F : Type 0} ⦃d : Double F⦄ where
  abbrev pub c_line : List ℕ → Scenario F → Line
  c_line name s =
      let verdict = if matches s then codes "MATCH" else codes "MISMATCH" in
      codes "C_BEHAVIOR "
      ++ (name
          ++ (codes " "
              ++ (status_name (original_wes s.p1 s.p2 s.p3)
                  ++ (codes " EXPECTED "
                      ++ (status_name (expected_tmr s.p1 s.p2 s.p3) ++ (codes " " ++ verdict))))))

  -- The loop of `main`, over the names and the samples of its table.
  abbrev pub c_output : List (List ℕ) → List (Scenario F) → List Line
  c_output (name ∷ names) (s ∷ rest) = c_line name s ∷ c_output names rest
  c_output _ _ = []

-- The reaction of Reporter.
abbrev pub lf_line : BehaviorResult → Line
lf_line r =
    codes "LF_BEHAVIOR " ++ (scenario_name r.scenario ++ (codes " " ++ status_name r.status))

abbrev pub lf_output : List (Option BehaviorResult) → List Line
lf_output [] = []
lf_output (none ∷ rest) = lf_output rest
lf_output (some r ∷ rest) = lf_line r ∷ lf_output rest
