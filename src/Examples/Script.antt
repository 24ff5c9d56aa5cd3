-- ===== src/Examples/Script.antt =====
-- The end-to-end check at a concrete position file, and tests of the patterns.
use lf_benchmarks.Common.{
  ◌≡◌, ◌≢◌, ◌⊎◌, inl, inr, ◌+◌, ◌/◌, ◌%◌, refl, Bool-cases, ℕ, zero, suc, Bool, true, false, ◌&&◌,
  Option, none, some, List, [], ◌∷◌, ◌++◌, All, replicate, leb, ltb, arith,
}
use lf_benchmarks.Int.{ℤ, pos, negsuc, ◌/ℤ◌}
use lf_benchmarks.Text.{codes, digits, decimal, decimal_int, both_true}
use lf_benchmarks.Double.{Double}
use lf_benchmarks.Double.Fixed.{Micro, fixed}
use lf_benchmarks.Fbw.Nav.{
  Line, Scanned, gpgll_sentence, parse_gpgll, starts_with, compute_speed, haversine_distance,
  degrees_to_radians, apply_bias,
}
use lf_benchmarks.Fbw.Pfc.{Pfc, find_fix, advance, startup, tick}
use lf_benchmarks.Fbw.System.{initial}
use lf_benchmarks.Fbw.System.Computers.{clean_tick}
use lf_benchmarks.Fbw.Controlled.{script, Flies, speed_at}
use lf_benchmarks.Fbw.Controlled.Log.{log}
use lf_benchmarks.Fbw.Controlled.Calm.{PrintsNumbers}
use lf_benchmarks.Fbw.Controlled.Passed.{check_e2e_faults-log}
use lf_benchmarks.Scripts.EndToEnd.{check_e2e_faults}
use lf_benchmarks.Examples.Faults.{scan, no_fault}

abbrev is_some : {A : Type 0} → Option A → Bool
is_some none = false
is_some (some a) = true

is_some-ne-none : {A : Type 0} (o : Option A) → is_some o ≡ true → o ≢ none
is_some-ne-none none h = absurd cc
is_some-ne-none (some a) h = λ e. absurd cc

module _ {F : Type 0} ⦃d : Double F⦄ (sscanf : Line → Scanned F) where
  -- A test for `Flies`.
  flies : ℕ → Pfc F → Bool
  flies zero p = true
  flies (suc n) p =
      let next = clean_tick sscanf p in
      let v = (next.1).accumulated_speed in is_some next.0 && (d.eq v v && flies n next.1)

  flies-Flies : (n : ℕ) (p : Pfc F) → flies n p ≡ true → Flies sscanf n p
  unfolding flies
  flies-Flies zero p h = tt
  flies-Flies (suc n) p h =
      let (found, more) = both_true (is_some (clean_tick sscanf p).0) _ h in
      let (number, rest) = both_true (d.eq _ _) _ more in
      (is_some-ne-none _ found, number, flies-Flies n (clean_tick sscanf p).1 rest)

-- The latitude changes once, so that the speed is a constant from 1 s on.
abbrev long_file : Option (List Line)
long_file = some ((gpgll_sentence ++ (50 ∷ [])) ∷ replicate 641 (gpgll_sentence ++ (51 ∷ [])))

long_file-Flies : Flies ⦃d = fixed⦄ scan 642 (startup ⦃d = fixed⦄ scan long_file)
unfolding flies tick find_fix parse_gpgll starts_with advance compute_speed haversine_distance
    degrees_to_radians
long_file-Flies = flies-Flies ⦃d = fixed⦄ scan 642 (startup ⦃d = fixed⦄ scan long_file) refl

-- What a number prints as in the examples: its whole part.
abbrev pub show_micro : Micro → List ℕ
show_micro none = codes "nan"
show_micro (some a) = decimal_int (◌/ℤ◌ a (pos 1_000_000))

IsPrinted : ℕ → Type 0
IsPrinted c = (leb c b'9' ≡ true) ⊎ (leb b'a' c ≡ true)

digits-IsPrinted :
    (fuel n : ℕ) (rest : List ℕ) → All IsPrinted rest → All IsPrinted (digits fuel n rest)
unfolding digits IsPrinted
digits-IsPrinted zero n rest h = h
digits-IsPrinted (suc fuel) n rest h = elim (Bool-cases (ltb n 10)) [
  | inl e ↦ rw e (inl (ground (arith, e)), h)
  | inr e ↦ rw e (digits-IsPrinted fuel (n / 10) ((b'0' + n % 10) ∷ rest) (inl (ground arith), h))
]

decimal-IsPrinted : (n : ℕ) → All IsPrinted (decimal n)
unfolding decimal
decimal-IsPrinted n = digits-IsPrinted 19 n [] tt

decimal_int-IsPrinted : (a : ℤ) → All IsPrinted (decimal_int a)
unfolding IsPrinted
decimal_int-IsPrinted (pos n) = decimal-IsPrinted n
decimal_int-IsPrinted (negsuc n) = (inl refl, decimal-IsPrinted (suc n))

show_micro-PrintsNumbers : PrintsNumbers show_micro
unfolding IsPrinted
show_micro-PrintsNumbers none = (inr refl, (inr refl, (inr refl, tt)))
show_micro-PrintsNumbers (some a) = decimal_int-IsPrinted (◌/ℤ◌ a (pos 1_000_000))

check_e2e_faults-log_example :
    check_e2e_faults (
      some (
        log ⦃d = fixed⦄ show_micro scan 0
          (script (λ t. no_fault) 0 642)
          (initial ⦃d = fixed⦄ scan long_file)))
    ≡ 0
unfolding speed_at tick find_fix parse_gpgll starts_with advance compute_speed haversine_distance
    degrees_to_radians apply_bias
check_e2e_faults-log_example =
    check_e2e_faults-log ⦃d = fixed⦄ show_micro scan show_micro-PrintsNumbers long_file
      (λ t. no_fault) 642 (omega arith) long_file-Flies refl
