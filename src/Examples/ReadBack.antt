-- ===== src/Examples/ReadBack.antt =====
-- Records that are read back, at a concrete position file.
use std.Path.{subst}
use lf_benchmarks.Common.{
  List, false, ◌↔◌, ◌≡◌, refl, ap, ◌∙◌, ◌<◌, ℕ, zero, suc, true, Option, none, some, [], ◌∷◌, arith,
}
use lf_benchmarks.Int.{ℤ, pos, negsuc, ◌/ℤ◌}
use lf_benchmarks.Text.{codes, decimal, decimal_int, both_true}
use lf_benchmarks.Double.Fixed.{Micro, fixed}
use lf_benchmarks.Fbw.Nav.{Line, SpeedMsg}
use lf_benchmarks.Fbw.Validation.{validation_startup, validation_initial}
use lf_benchmarks.Fbw.Validation.Lag.{readings, lagged}
use lf_benchmarks.Fbw.Validation.Log.{data_log, validation_log}
use lf_benchmarks.Fbw.Validation.ReadBack.{IsFinite, ReadsBack, AreFinite, read_values-data_log}
use lf_benchmarks.Fbw.Validation.Compared.{compare_fbw-validation_log}
use lf_benchmarks.Fbw.Validation.Noted.{value_of, sent_by}
use lf_benchmarks.Scripts.Comparison.Passes.{Agrees}
use lf_benchmarks.Scripts.Records.{is_digit, is_float_char, digits_value, lf_record, c_record}
use lf_benchmarks.Scripts.Records.ReadBack.{
  all_pass, IsNumberText, IsFloatText, decimal-IsNumberText,
}
use lf_benchmarks.Scripts.Comparison.{Values, Ending, is_nil, find, read_values, compare_fbw}
use lf_benchmarks.Examples.Script.{show_micro}
use lf_benchmarks.Examples.Tests.{libc, validation_lines}

digits_float : (s : Line) → all_pass is_digit s ≡ true → all_pass is_float_char s ≡ true
digits_float [] h = refl
digits_float (c ∷ s) h =
    let (first, more) = both_true (is_digit c) (all_pass is_digit s) h in
    let rest = digits_float s more in
    let here : is_float_char c ≡ true = ground (arith, first) in simp (here, rest) refl

decimal-IsFloatText : (n : ℕ) → IsFloatText (decimal n)
unfolding IsNumberText
decimal-IsFloatText n =
    let (c, s, e, h) = decimal-IsNumberText n in (c, s, e, digits_float (c ∷ s) h)

decimal_int-IsFloatText : (a : ℤ) → IsFloatText (decimal_int a)
decimal_int-IsFloatText (pos n) = decimal-IsFloatText n
decimal_int-IsFloatText (negsuc n) =
    let (c, s, e, h) = decimal-IsFloatText (suc n) in
    (b'-', decimal (suc n), refl, ap (all_pass is_float_char) e ∙ h)

-- A stand-in for `float`, which reads what is printed as a whole number.
abbrev read_printed : Line → Option Micro
read_printed text = some (some (pos (digits_value 0 text)))

abbrev rounded_micro : Micro → Micro
rounded_micro v = some (pos (digits_value 0 (show_micro v)))

show_micro-IsFloatText : (v : Micro) → IsFinite ⦃d = fixed⦄ v → IsFloatText (show_micro v)
show_micro-IsFloatText none (h, _) = absurd cc
show_micro-IsFloatText (some a) h = decimal_int-IsFloatText (◌/ℤ◌ a (pos 1_000_000))

show_micro-ReadsBack : ReadsBack ⦃d = fixed⦄ show_micro read_printed rounded_micro
show_micro-ReadsBack = record { text = show_micro-IsFloatText; value = λ v h. refl }

IsFiniteSpeed : Option (SpeedMsg Micro) → Type 0
IsFiniteSpeed none = Unit
IsFiniteSpeed (some m) = IsFinite ⦃d = fixed⦄ m.speed

lagged-IsFiniteSpeed :
    (k : ℕ) → IsFiniteSpeed (lagged ⦃d = fixed⦄ libc (readings libc validation_lines) k)
unfolding IsFiniteSpeed readings
lagged-IsFiniteSpeed zero = (refl, refl)
lagged-IsFiniteSpeed (suc zero) = (refl, refl)
lagged-IsFiniteSpeed (suc (suc k)) = tt

validation_lines-AreFinite : AreFinite ⦃d = fixed⦄ libc (readings libc validation_lines)
unfolding IsFiniteSpeed
validation_lines-AreFinite k m e = subst IsFiniteSpeed e (lagged-IsFiniteSpeed k)

read_values-data_log_example :
    (m : Values Micro) × (read_values lf_record read_printed (
        data_log ⦃d = fixed⦄ libc show_micro 3
          (validation_startup ⦃d = fixed⦄ libc (some validation_lines)))
      ≡ some m)
    × ((k : ℕ)
        → k < 3
        → find m (pos k)
          ≡ value_of rounded_micro (lagged ⦃d = fixed⦄ libc (readings libc validation_lines) k))
read_values-data_log_example =
    read_values-data_log ⦃d = fixed⦄ libc show_micro read_printed rounded_micro show_micro-ReadsBack
      validation_lines validation_lines-AreFinite 3 (omega arith)

abbrev c_zeros : List Line
c_zeros = codes "0 0" ∷ codes "1 0" ∷ []

compare_fbw-validation_log_example :
    (compare_fbw ⦃d = fixed⦄ read_printed (some (pos 100)) c_zeros (
        validation_log ⦃d = fixed⦄ libc show_micro show_micro 0 3
          (validation_initial ⦃d = fixed⦄ libc (some validation_lines)))
      ≡ Ending.pass)
    ↔ ((c : Values Micro) × (read_values c_record read_printed c_zeros ≡ some c)
        × (is_nil c ≡ false)
        × ((k : ℤ)
            → Agrees ⦃d = fixed⦄
                (some (pos 100))
                (find c k)
                (sent_by ⦃d = fixed⦄ libc rounded_micro (readings libc validation_lines) 3 k)))
compare_fbw-validation_log_example =
    compare_fbw-validation_log ⦃d = fixed⦄ libc show_micro show_micro read_printed rounded_micro
      show_micro-ReadsBack validation_lines validation_lines-AreFinite (some (pos 100)) c_zeros 3
      (omega arith)
