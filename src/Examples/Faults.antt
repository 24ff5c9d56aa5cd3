-- ===== src/Examples/Faults.antt =====
-- The system of flight computers at concrete inputs.
use lf_benchmarks.Common.{
  ◌+◌, false, ℕ, ◌*◌, ◌≡◌, refl, ◌↔◌, true, false, none, some, List, [], ◌∷◌, ◌++◌, All, length,
  get_or, arith,
}
use lf_benchmarks.Int.{pos}
use lf_benchmarks.Text.{codes}
use lf_benchmarks.Double.Fixed.{Micro, fixed}
use lf_benchmarks.Fbw.Nav.{
  Line, Scanned, gpgll_sentence, parse_gpgll, starts_with, compute_speed, haversine_distance,
  degrees_to_radians,
}
use lf_benchmarks.Fbw.Pfc.{no_fix, find_fix, advance, tick}
use lf_benchmarks.Fbw.Vote.{decide, verdict, vote}
use lf_benchmarks.Fbw.System.{Second, System, second, initial, run}
use lf_benchmarks.Fbw.System.Lockstep.{IsAligned, after_seconds, after_seconds-IsAligned}
use lf_benchmarks.Fbw.Nav.Parse.{parse_gpgll_iff, Updated}
use lf_benchmarks.Fbw.System.Tolerance.{one_faulty}
use lf_benchmarks.Fbw.System.Reporting.{sent, reports_iff}
use lf_benchmarks.Fbw.System.Silence.{silent_after_file}
use lf_benchmarks.Fbw.System.Round.{Blames, OnlyFaults}
use lf_benchmarks.Fbw.System.Computers.{Computer, IsFresh}

abbrev knots : ℕ → Micro
knots n = some (pos (n * 1_000_000))

-- A stand-in for `sscanf`: the byte after "$GPGLL" is the latitude.
abbrev pub scan : Line → Scanned Micro
scan line = record {
  count = pos 6;
  lat = knots (get_or line 6 0);
  lat_dir = 78;
  lon = knots 10;
  lon_dir = 69;
  time_val = pos 120000;
}

abbrev position_file : List Line
position_file = (gpgll_sentence ++ (50 ∷ [])) ∷ (35 ∷ []) ∷ (gpgll_sentence ++ (51 ∷ [])) ∷ []

abbrev pub no_fault : Second Micro
no_fault = record {
  fault1 = none;
  fault2 = none;
  fault3 = none;
  junk1 = no_fix ⦃d = fixed⦄ scan;
  junk2 = no_fix ⦃d = fixed⦄ scan;
  junk3 = no_fix ⦃d = fixed⦄ scan;
}

abbrev biased_3 : Second Micro
biased_3 = record no_fault {
  fault3 = some (record { stop = false; interrupt = false; cont = false; bias = true });
}

abbrev seconds : List (Second Micro)
seconds = no_fault ∷ biased_3 ∷ no_fault ∷ []

only_third : (i : Second Micro) → i.fault1 ≡ none → i.fault2 ≡ none → OnlyFaults Computer.third i
only_third i e f Computer.first = e
only_third i e f Computer.second = f
only_third i e f Computer.third = refl

one_faulty_example :
    All
      (Blames Computer.third)
      (run ⦃d = fixed⦄ scan seconds (initial ⦃d = fixed⦄ scan (some position_file)))
    × (length (run ⦃d = fixed⦄ scan seconds (initial ⦃d = fixed⦄ scan (some position_file)))
        ≡ length seconds)
unfolding second tick find_fix parse_gpgll starts_with advance compute_speed haversine_distance
    degrees_to_radians vote decide verdict
one_faulty_example =
    one_faulty ⦃d = fixed⦄ scan Computer.third (some position_file) seconds
      (
        only_third no_fault refl refl,
        (only_third biased_3 refl refl, (only_third no_fault refl refl, tt)),
      )
      (refl, (refl, (refl, tt)))

parse_gpgll_iff_example :
    (((parse_gpgll scan (gpgll_sentence ++ (50 ∷ [])) (no_fix ⦃d = fixed⦄ scan)).0 ≡ true) ↔ (
      ((rest : Line) × (gpgll_sentence ++ (50 ∷ []) ≡ codes "$GPGLL" ++ rest))
      × ((more : ℕ) × ((scan (gpgll_sentence ++ (50 ∷ []))).count ≡ pos (5 + more)))))
    × ((parse_gpgll scan (gpgll_sentence ++ (50 ∷ [])) (no_fix ⦃d = fixed⦄ scan)).1.valid
        ≡ (parse_gpgll scan (gpgll_sentence ++ (50 ∷ [])) (no_fix ⦃d = fixed⦄ scan)).0)
    × Updated
        (parse_gpgll scan (gpgll_sentence ++ (50 ∷ [])) (no_fix ⦃d = fixed⦄ scan)).0
        (scan (gpgll_sentence ++ (50 ∷ [])))
        (no_fix ⦃d = fixed⦄ scan)
        (parse_gpgll scan (gpgll_sentence ++ (50 ∷ [])) (no_fix ⦃d = fixed⦄ scan)).1
parse_gpgll_iff_example =
    parse_gpgll_iff scan (gpgll_sentence ++ (50 ∷ [])) (no_fix ⦃d = fixed⦄ scan)

-- The second computer is stopped for a second, and the third one is biased.
abbrev pub stopped_2 : Second Micro
stopped_2 = record biased_3 {
  fault2 = some (record { stop = true; interrupt = false; cont = false; bias = false });
}

after_seconds-IsAligned_example : IsAligned (
    after_seconds ⦃d = fixed⦄ scan
      (stopped_2 ∷ no_fault ∷ [])
      (initial ⦃d = fixed⦄ scan (some position_file)))
after_seconds-IsAligned_example =
    after_seconds-IsAligned ⦃d = fixed⦄ scan (some position_file) (stopped_2 ∷ no_fault ∷ [])
      ((tt, refl, refl), ((tt, tt, tt), tt))

-- The three seconds of the flight, in which the third computer is biased.
abbrev flown : System Micro
flown = after_seconds ⦃d = fixed⦄ scan seconds (initial ⦃d = fixed⦄ scan (some position_file))

reports_iff_example :
    IsFresh flown.wes
    × (((second ⦃d = fixed⦄ scan no_fault flown).0 ≡ none) ↔ (
        (sent ⦃d = fixed⦄ scan Computer.first no_fault flown ≡ none)
        × (sent ⦃d = fixed⦄ scan Computer.second no_fault flown ≡ none)
        × (sent ⦃d = fixed⦄ scan Computer.third no_fault flown ≡ none)))
reports_iff_example = reports_iff ⦃d = fixed⦄ scan (some position_file) seconds no_fault

silent_after_file_example :
    (sent ⦃d = fixed⦄ scan Computer.first no_fault flown ≡ none)
    × (sent ⦃d = fixed⦄ scan Computer.second no_fault flown ≡ none)
    × (sent ⦃d = fixed⦄ scan Computer.third no_fault flown ≡ none)
    × ((second ⦃d = fixed⦄ scan no_fault flown).0 ≡ none)
silent_after_file_example =
    silent_after_file ⦃d = fixed⦄ scan position_file seconds no_fault (omega arith)
