-- ===== src/Examples/Flight.antt =====
-- The votes and the flight computers at concrete inputs.
use lf_benchmarks.Common.{false, ℕ, ◌*◌, ◌≡◌, ◌≢◌, refl, ◌⊎◌, ◌↔◌, true, false, some, [], ◌∷◌}
use lf_benchmarks.Int.{pos, eqb_ℤ}
use lf_benchmarks.Double.Fixed.{Micro, fixed}
use lf_benchmarks.Fbw.Nav.{emergency, exit, SpeedMsg}
use lf_benchmarks.Fbw.Vote.{
  Sample, Wes, agree, original_wes, expected_tmr, match_pair, decide, verdict, vote, requests_stop,
}
use lf_benchmarks.Fbw.Vote.Laws.{sample, vote-expected_tmr, original_wes_iff, requests_stop_iff}
use lf_benchmarks.Fbw.Vote.Scenarios.{scenarios, report, matches, same_status}

abbrev knots : ℕ → Micro
knots n = some (pos (n * 1_000_000))

abbrev at_knots : ℕ → Sample Micro
at_knots n = record { counter = pos 7; speed = knots n }

abbrev message : ℕ → SpeedMsg Micro
message n = record { counter = pos 7; speed = knots n; valid = true }

-- The first computer's speed is biased.
abbrev biased_1 : Wes Micro
biased_1 = record {
  last_s1 = message 400;
  last_s2 = message 100;
  last_s3 = message 100;
  has_s1 = true;
  has_s2 = true;
  has_s3 = true;
}

vote-expected_tmr_example : vote ⦃d = fixed⦄ biased_1 ≡ (
  some (
      expected_tmr ⦃d = fixed⦄
        (sample ⦃d = fixed⦄ (message 400))
        (sample ⦃d = fixed⦄ (message 100))
        (sample ⦃d = fixed⦄ (message 100))),
  record biased_1 { has_s1 = false; has_s2 = false; has_s3 = false },
)
vote-expected_tmr_example = vote-expected_tmr ⦃d = fixed⦄ biased_1 refl refl refl

original_wes_iff_example :
    (original_wes ⦃d = fixed⦄ (at_knots 100) (at_knots 100) (at_knots 400)
      ≡ expected_tmr ⦃d = fixed⦄ (at_knots 100) (at_knots 100) (at_knots 400))
    ↔ ((agree ⦃d = fixed⦄ (pos 7) (knots 100) (pos 7) (knots 100) ≡ true)
        ⊎ ((eqb_ℤ (pos 7) (pos 7) ≡ true) × (fixed.eq (knots 100) (knots 400) ≡ true))
        ⊎ ((eqb_ℤ (pos 7) (pos 7) ≡ false)
            × ((eqb_ℤ (pos 7) (pos 7) ≡ false) ⊎ (fixed.eq (knots 100) (knots 400) ≡ true))))
original_wes_iff_example = original_wes_iff ⦃d = fixed⦄ (at_knots 100) (at_knots 100) (at_knots 400)

-- No two of these agree.
abbrev apart : Wes Micro
apart = record biased_1 { last_s2 = message 200 }

requests_stop_iff_example :
    (emergency ≢ exit)
    × ((requests_stop emergency ≡ true) ↔ (
        (match_pair ⦃d = fixed⦄ true (message 400) true (message 200) ≡ false)
        × (match_pair ⦃d = fixed⦄ true (message 400) true (message 100) ≡ false)
        × (match_pair ⦃d = fixed⦄ true (message 200) true (message 100) ≡ false)))
unfolding vote decide verdict
requests_stop_iff_example =
    requests_stop_iff ⦃d = fixed⦄ apart {s = emergency}
      {w' = record apart { has_s1 = false; has_s2 = false; has_s3 = false }} refl

-- A test: the lines of the test program, of which those of pfc1_bias and all_speeds_different say
-- MISMATCH.
report_test :
    report ⦃d = fixed⦄ (scenarios ⦃d = fixed⦄)
    ≡ true ∷ true ∷ true ∷ true ∷ true ∷ true ∷ false ∷ true ∷ false ∷ []
unfolding matches same_status original_wes expected_tmr verdict
report_test = refl
