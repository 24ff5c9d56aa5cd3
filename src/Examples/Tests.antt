-- ===== src/Examples/Tests.antt =====
-- The fly-by-wire tests at concrete inputs.
use lf_benchmarks.Common.{
  ◌≡◌, ◌≢◌, refl, true, false, ◌==◌, if◌then◌else◌, get_or, All, Option, none, some, List, [], ◌∷◌,
  ◌++◌, replicate,
}
use lf_benchmarks.Double.Fixed.{Micro, fixed}
use lf_benchmarks.Int.{pos}
use lf_benchmarks.Fbw.Nav.{
  Line, GllFix, gpgll_sentence, parse_gpgll, starts_with, compute_speed, haversine_distance,
  degrees_to_radians,
}
use lf_benchmarks.Fbw.Pfc.{FaultMsg, no_fix, on_fault, find_fix, advance, startup, tick}
use lf_benchmarks.Fbw.System.{Second, initial, run}
use lf_benchmarks.Fbw.Pfc.Stopped.{stop_msg, cont_msg, ticks, stop_cont}
use lf_benchmarks.Fbw.Validation.{
  Libc, validation_tick, validation_startup, validation_run, validation_initial,
}
use lf_benchmarks.Fbw.Validation.Lag.{readings, lagged, validation_state, validation_tick-lagged}
use lf_benchmarks.Fbw.Validation.Reports.{expected_run, validation_run-expected}
use lf_benchmarks.Fbw.Redundancy.{Health, spec_run, Finds}
use lf_benchmarks.Fbw.Redundancy.Refinement.{run-spec_run}
use lf_benchmarks.Fbw.Controlled.{script, expected_reports, Flies}
use lf_benchmarks.Fbw.Controlled.Reports.{controlled_run}
use lf_benchmarks.Fbw.Vote.Harness.{TestSpeedMsg, TestWes}
use lf_benchmarks.Examples.Faults.{scan, no_fault, stopped_2}

-- Seven positions, so that the fault at 5 s is met.
abbrev flight_file : Option (List Line)
flight_file = some (replicate 7 (gpgll_sentence ++ (50 ∷ [])))

some-ne-none : {A : Type 0} (a : A) → some a ≢ none
some-ne-none a e = cc

flight_file-Flies : Flies ⦃d = fixed⦄ scan 6 (startup ⦃d = fixed⦄ scan flight_file)
unfolding tick find_fix parse_gpgll starts_with advance compute_speed haversine_distance
    degrees_to_radians
flight_file-Flies = (
  some-ne-none _,
  refl,
  (
    some-ne-none _,
    refl,
    (
      some-ne-none _,
      refl,
      (some-ne-none _, refl, (some-ne-none _, refl, (some-ne-none _, refl, tt))),
    ),
  ),
)

controlled_run_example :
    run ⦃d = fixed⦄ scan (script (λ t. no_fault) 0 6) (initial ⦃d = fixed⦄ scan flight_file)
    ≡ expected_reports ⦃d = fixed⦄ scan 0 6 (startup ⦃d = fixed⦄ scan flight_file)
controlled_run_example =
    controlled_run ⦃d = fixed⦄ scan flight_file (λ t. no_fault) 6 flight_file-Flies

abbrev waiting : TestWes Micro
waiting =
    let zero : TestSpeedMsg Micro = record {
      counter = pos 0;
      speed = some (pos 0);
      valid = false;
      scenario = 0;
    } in
    record {
      last_s1 = zero;
      last_s2 = zero;
      last_s3 = zero;
      has_s1 = false;
      has_s2 = false;
      has_s3 = false;
    }

abbrev three_ticks : List (GllFix Micro)
three_ticks = replicate 3 (no_fix ⦃d = fixed⦄ scan)

abbrev stopped_once : List (Option FaultMsg × GllFix Micro)
stopped_once =
    let junk = no_fix ⦃d = fixed⦄ scan in (none, junk) ∷ (some stop_msg, junk) ∷ (none, junk) ∷ []

-- Stopped for three ticks of the flight.
stop_cont_example :
    All
      (λ o. o ≡ none)
      (ticks ⦃d = fixed⦄ scan three_ticks
        (on_fault stop_msg (startup ⦃d = fixed⦄ scan flight_file))).0
    × (on_fault cont_msg
          (ticks ⦃d = fixed⦄ scan three_ticks
            (on_fault stop_msg (startup ⦃d = fixed⦄ scan flight_file))).1
        ≡ (ticks ⦃d = fixed⦄ scan three_ticks (startup ⦃d = fixed⦄ scan flight_file)).1)
stop_cont_example =
    stop_cont ⦃d = fixed⦄ scan three_ticks (startup ⦃d = fixed⦄ scan flight_file)
      (record { alive = refl; active = refl; unbiased = refl })

-- A stand-in for the C library: the byte after "$GPGLL" is the latitude, and six items are read from
-- a line that has it.
abbrev pub libc : Libc Micro
libc = record {
  to_float = λ x. x;
  acos = λ x. some (pos 3_141_593);
  sscanf = λ line. record {
    parsed = if get_or line 6 0 == 0 then pos 0 else pos 6;
    lat = some (pos (get_or line 6 0));
    lon = some (pos 10);
  };
}

abbrev pub validation_lines : List Line
validation_lines = (gpgll_sentence ++ (50 ∷ [])) ∷ (35 ∷ []) ∷ (gpgll_sentence ++ (51 ∷ [])) ∷ []

validation_tick-lagged_example :
    (validation_tick ⦃d = fixed⦄ libc (
      validation_state ⦃d = fixed⦄ libc 1
        (validation_startup ⦃d = fixed⦄ libc (some validation_lines)))).0
    ≡ lagged ⦃d = fixed⦄ libc (readings libc validation_lines) 1
validation_tick-lagged_example = validation_tick-lagged ⦃d = fixed⦄ libc validation_lines 1

validation_run-expected_example :
    validation_run ⦃d = fixed⦄ libc 3 (validation_initial ⦃d = fixed⦄ libc (some validation_lines))
    ≡ expected_run ⦃d = fixed⦄ false (lagged ⦃d = fixed⦄ libc (readings libc validation_lines)) 0 3
validation_run-expected_example = validation_run-expected ⦃d = fixed⦄ libc validation_lines 3

-- The second computer is stopped while the third is biased, so that no two agree in the first second.
abbrev two_faulty : List (Second Micro)
two_faulty = stopped_2 ∷ no_fault ∷ []

flight_file-Finds : Finds ⦃d = fixed⦄ scan 2 (startup ⦃d = fixed⦄ scan flight_file)
unfolding tick find_fix parse_gpgll starts_with advance compute_speed haversine_distance
    degrees_to_radians
flight_file-Finds = (some-ne-none _, (some-ne-none _, tt))

run-spec_run_example :
    run ⦃d = fixed⦄ scan two_faulty (initial ⦃d = fixed⦄ scan flight_file)
    ≡ spec_run ⦃d = fixed⦄ scan two_faulty
        (startup ⦃d = fixed⦄ scan flight_file)
        (Health.live true false)
        (Health.live true false)
        (Health.live true false)
        false
run-spec_run_example = run-spec_run ⦃d = fixed⦄ scan flight_file two_faulty flight_file-Finds
