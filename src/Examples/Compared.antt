-- ===== src/Examples/Compared.antt =====
-- The scripts that compare the programs' outputs at concrete inputs, with tests.
use mathlib.Core.List.{Perm, Pairwise, Pairwise-pair}
use mathlib.Core.List.Perm
use lf_benchmarks.Scripts.Comparison.Rows.{
  Row, rows, rows_from, common, sorted, insert, intersection,
}
use lf_benchmarks.Scripts.Comparison.Rows.Sorted.{IsAscending}
use lf_benchmarks.Scripts.Comparison.Rows.Written.{
  counters, find_row, row_for, all_passed, rows-written,
}
use lf_benchmarks.Scripts.Comparison.Order.{
  HaveOtherCounters, HaveOtherCounters-prop, compare_fbw-perm,
}
use lf_benchmarks.Common.{◌≡◌, ◌↔◌, refl, ◌*◌, false, true, Option, some, List, [], ◌∷◌, ◌++◌}
use lf_benchmarks.Int.{ℤ, pos, negsuc}
use lf_benchmarks.Text.{codes, decimal, decimal_int}
use lf_benchmarks.Text.Words.{words}
use lf_benchmarks.Double.Fixed.{Micro, fixed}
use lf_benchmarks.Fbw.Nav.{Line}
use lf_benchmarks.Fbw.Vote.Harness.{TestSpeedMsg, TestWes, results}
use lf_benchmarks.Fbw.Vote.Scenarios.{scenarios, report}
use lf_benchmarks.Fbw.Vote.Output.{scenario_names, c_output, lf_output}
use lf_benchmarks.Fbw.Vote.Compared.{count_false, compare_behavior-passed}
use lf_benchmarks.Scripts.Behavior.{Verdict, compare_behavior}
use lf_benchmarks.Scripts.Patterns.{search}
use lf_benchmarks.Scripts.EndToEnd.{emergency_pattern, stop_noticed}
use lf_benchmarks.Scripts.Records.{c_record, lf_record, record_at, digits_value}
use lf_benchmarks.Scripts.Comparison.{
  mismatches, find, Values, read_values, Ending, is_nil, compare_fbw,
}
use lf_benchmarks.Scripts.Comparison.Passes.{AllAgree, compare_fbw_iff}

decimal_test : decimal 640 ++ decimal_int (negsuc 6) ≡ codes "640-7"
unfolding decimal
decimal_test = refl

words_test :
    words (codes "  LF_BEHAVIOR recovered  OK")
    ≡ codes "LF_BEHAVIOR" ∷ codes "recovered" ∷ codes "OK" ∷ []
unfolding words
words_test = refl

search_test :
    (search stop_noticed (codes "x [WES   ] T=6 s | ERROR: PFC2 discordant | PFC1") ≡ true)
    × (search emergency_pattern (codes "EMERGENCYS") ≡ false)
    × (search emergency_pattern (codes "T=3 s | EMERGENCY: all") ≡ true)
unfolding search
search_test = (refl, refl, refl)

record_test :
    (lf_record (codes "LF_DATA 12 0.25") ≡ some (pos 12, codes "0.25"))
    × (c_record (codes " -1 1e-3 ") ≡ some (negsuc 0, codes "1e-3"))
unfolding lf_record c_record record_at
record_test = (refl, refl)

abbrev fresh_test : TestWes Micro
fresh_test =
    let zero : TestSpeedMsg Micro = record {
      counter = pos 0;
      speed = some (pos 0);
      valid = false;
      scenario = 0;
    } in
    record {
      last_s1 = zero;
      last_s2 = zero;
      last_s3 = zero;
      has_s1 = false;
      has_s2 = false;
      has_s3 = false;
    }

compare_behavior-passed_example :
    compare_behavior
      (c_output ⦃d = fixed⦄ scenario_names (scenarios ⦃d = fixed⦄))
      (lf_output (results ⦃d = fixed⦄ 0 9 fresh_test))
    ≡ Verdict.passed (count_false (report ⦃d = fixed⦄ (scenarios ⦃d = fixed⦄)))
compare_behavior-passed_example = compare_behavior-passed ⦃d = fixed⦄ fresh_test (refl, refl, refl)

-- A stand-in for `float`, which reads whole numbers.
abbrev read_whole : Line → Option Micro
read_whole text = some (some (pos (digits_value 0 text * 1_000_000)))

abbrev c_log : List Line
c_log = codes "counter speed" ∷ codes "0 5" ∷ codes "1 7" ∷ []

abbrev lf_log : List Line
lf_log = codes "LF_DATA 0 5" ∷ codes "LF_DATA 1 7" ∷ []

compare_fbw_iff_example :
    (compare_fbw ⦃d = fixed⦄ read_whole (some (pos 100)) c_log lf_log ≡ Ending.pass) ↔ (
      (c : Values Micro) × (lf : Values Micro) × (read_values c_record read_whole c_log ≡ some c)
      × (read_values lf_record read_whole lf_log ≡ some lf)
      × (is_nil c ≡ false)
      × (is_nil lf ≡ false)
      × AllAgree ⦃d = fixed⦄ (some (pos 100)) c lf)
compare_fbw_iff_example = compare_fbw_iff ⦃d = fixed⦄ (some (pos 100)) read_whole c_log lf_log

-- The logs with their lines exchanged.
abbrev c_log_back : List Line
c_log_back = codes "1 7" ∷ codes "0 5" ∷ codes "counter speed" ∷ []

abbrev lf_log_back : List Line
lf_log_back = codes "LF_DATA 1 7" ∷ codes "LF_DATA 0 5" ∷ []

c_log-perm : Perm c_log c_log_back
c_log-perm =
    Perm.trans (Perm.cons (codes "counter speed") (Perm.swap (codes "1 7") (codes "0 5") [])) (
      Perm.trans (Perm.swap (codes "1 7") (codes "counter speed") (codes "0 5" ∷ []))
        (Perm.cons (codes "1 7") (Perm.swap (codes "0 5") (codes "counter speed") [])))

-- The header of the C log has no record.
c_log-Pairwise : Pairwise (HaveOtherCounters c_record) c_log
unfolding c_record record_at
c_log-Pairwise =
    Pairwise.cons (λ a m. tt) ((Pairwise-pair (HaveOtherCounters-prop c_record)).1 refl)

lf_log-Pairwise : Pairwise (HaveOtherCounters lf_record) lf_log
unfolding lf_record record_at
lf_log-Pairwise = (Pairwise-pair (HaveOtherCounters-prop lf_record)).1 refl

compare_fbw-perm_example :
    compare_fbw ⦃d = fixed⦄ read_whole (some (pos 100)) c_log lf_log
    ≡ compare_fbw ⦃d = fixed⦄ read_whole (some (pos 100)) c_log_back lf_log_back
compare_fbw-perm_example =
    compare_fbw-perm ⦃d = fixed⦄ read_whole (some (pos 100)) c_log c_log_back lf_log lf_log_back
      c_log-perm (Perm.swap (codes "LF_DATA 1 7") (codes "LF_DATA 0 5") []) c_log-Pairwise
      lf_log-Pairwise

abbrev c_values : Values Micro
c_values = (pos 0, some (pos 5_000_000)) ∷ (pos 1, some (pos 7_000_000)) ∷ []

-- A dictionary filled in another order, with a counter that the C log does not have.
abbrev lf_values : Values Micro
lf_values =
    (pos 2, some (pos 0)) ∷ (pos 1, some (pos 7_000_000)) ∷ (pos 0, some (pos 6_000_000)) ∷ []

c_log-read : read_values c_record read_whole c_log ≡ some c_values
unfolding read_values c_record record_at
c_log-read = refl

rows-written_example :
    (rs : List (Row Micro)) × (rows ⦃d = fixed⦄ (some (pos 100)) c_values lf_values ≡ some rs)
    × IsAscending (counters rs)
    × ((k : ℤ)
        → find_row k rs
          ≡ row_for ⦃d = fixed⦄ (some (pos 100)) k (find c_values k) (find lf_values k))
    × (all_passed rs ≡ is_nil (mismatches ⦃d = fixed⦄ (some (pos 100)) c_values lf_values c_values))
rows-written_example =
    rows-written ⦃d = fixed⦄ (some (pos 100)) read_whole c_log c_values lf_values c_log-read

rows_test :
    rows ⦃d = fixed⦄ (some (pos 100)) c_values lf_values
    ≡ some (
        record {
          counter = pos 0;
          c_speed = some (pos 5_000_000);
          lf_speed = some (pos 6_000_000);
          error = some (pos 1_000_000);
          passed = false;
        }
        ∷ record {
          counter = pos 1;
          c_speed = some (pos 7_000_000);
          lf_speed = some (pos 7_000_000);
          error = some (pos 0);
          passed = true;
        }
        ∷ [])
unfolding rows rows_from common sorted insert intersection
rows_test = refl
