-- ===== src/Fbw/Vote/Scenarios.antt =====
-- `main` of fbw-lf/tests/behavior/wes_original_behavior_test.c: its table, and the verdicts it compares.
use lf_benchmarks.Common.{ℕ, Bool, true, false, List, [], ◌∷◌, map}
use lf_benchmarks.Int.{pos}
use lf_benchmarks.Double.{Double}
use lf_benchmarks.Fbw.Nav.{Status, ok, error_pfc1, error_pfc2, error_pfc3, emergency, exit}
use lf_benchmarks.Fbw.Vote.{Sample, original_wes, expected_tmr}

-- `scenario_t`, less the name.
pub record Scenario (F : Type 0) : Type 0 where
  pub p1 : Sample F
  pub p2 : Sample F
  pub p3 : Sample F

-- `strcmp(…) == 0` on the names of verdicts.
unfoldable pub same_status : Status → Status → Bool
same_status ok ok = true
same_status error_pfc1 error_pfc1 = true
same_status error_pfc2 error_pfc2 = true
same_status error_pfc3 error_pfc3 = true
same_status emergency emergency = true
same_status exit exit = true
same_status _ _ = false

module _ {F : Type 0} ⦃d : Double F⦄ where
  abbrev at : ℕ → ℕ → Sample F
  at counter speed = record { counter = pos counter; speed = d.lit speed 0 }

  abbrev row : (c1 s1 c2 s2 c3 s3 : ℕ) → Scenario F
  row c1 s1 c2 s2 c3 s3 = record { p1 = at c1 s1; p2 = at c2 s2; p3 = at c3 s3 }

  abbrev pub scenarios : List (Scenario F)
  scenarios =
      row 10 5 10 5 10 5
      ∷ row 11 5 11 5 11 20
      ∷ row 12 5 11 5 12 5
      ∷ row 13 6 13 6 13 6
      ∷ row 13 6 14 6 14 6
      ∷ row 15 7 14 7 13 7
      ∷ row 16 28 16 7 16 7
      ∷ row 17 7 17 28 17 7
      ∷ row 18 7 18 8 18 9
      ∷ []

  -- Whether the line of a scenario says MATCH.
  unfoldable pub matches : Scenario F → Bool
  unfolding same_status
  matches s = same_status (original_wes s.p1 s.p2 s.p3) (expected_tmr s.p1 s.p2 s.p3)

  -- The last words of the lines that the loop prints.
  abbrev pub report : List (Scenario F) → List Bool
  report = map matches
