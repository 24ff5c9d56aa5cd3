-- ===== src/Fbw/Validation/ReadBack.antt =====
-- fbw-lf/scripts/compare_fbw.py reads from the log of the validation build what its first computer
-- sends.
use lf_benchmarks.Common.{
  ltb, if◌then◌else◌, ℕ, zero, suc, ◌+◌, ◌^◌, ◌≤◌, ◌<◌, ◌≡◌, inl, inr, refl, ap, ◌∙◌, true, Option,
  none, some, List, [], ◌++◌, arith,
}
use lf_benchmarks.Int.{pos}
use lf_benchmarks.Double.{Double}
use lf_benchmarks.Fbw.Nav.{Line, SpeedMsg}
use lf_benchmarks.Fbw.Validation.{Libc, Reading, validation_tick, validation_startup}
use lf_benchmarks.Fbw.Validation.Lag.{
  message, readings, lagged, validation_state, validation_tick-lagged,
}
use lf_benchmarks.Fbw.Validation.Log.{data_lines, data_log}
use lf_benchmarks.Scripts.Records.{◌>>=◌, lf_record}
use lf_benchmarks.Scripts.Records.ReadBack.{IsFloatText, lf_record-printed}
use lf_benchmarks.Fbw.Validation.Noted.{value_of, lagged_cases, all_noted, find-all_noted}
use lf_benchmarks.Fbw.Validation.Reports.{state-suc}
use lf_benchmarks.Scripts.Comparison.{
  Values, put, find, add_value, add_record, read_from, read_values,
}

module _ {F : Type 0} ⦃d : Double F⦄ where
  -- Neither NaN, which differs from itself, nor infinite: infinity less itself is NaN.
  abbrev pub IsFinite : F → Type 0
  IsFinite v = (d.eq v v ≡ true) × (d.eq (d.sub v v) (d.lit 0 0) ≡ true)

  -- `%.9f` prints a finite number with digits, a point and perhaps a sign, which the pattern takes
  -- and `float` reads; `rounded` is what comes back. Of "inf" and "nan" nothing is said.
  pub record ReadsBack (fixed9 : F → List ℕ) (to_float : Line → Option F) (rounded : F → F)
      : Type 0 where
    pub text : (v : F) → IsFinite v → IsFloatText (fixed9 v)
    pub value : (v : F) → IsFinite v → to_float (fixed9 v) ≡ some (rounded v)

module _ {F : Type 0} ⦃d : Double F⦄ (libc : Libc F) where
  -- The lagged speeds of the positions are finite.
  abbrev pub AreFinite : List (Reading F) → Type 0
  AreFinite rs = (k : ℕ) (m : SpeedMsg F) → lagged libc rs k ≡ some m → IsFinite m.speed

  module _ (fixed9 : F → List ℕ) (to_float : Line → Option F) (rounded : F → F)
      (back : ReadsBack fixed9 to_float rounded) (lines : List Line)
      (numbers : AreFinite (readings libc lines)) where
    -- The records of the ticks from `t` on, and the values read from them.
    unfoldable pub lagged_lines : (t n : ℕ) → List Line
    lagged_lines t zero = []
    lagged_lines t (suc n) =
        data_lines fixed9 (lagged libc (readings libc lines) t) ++ lagged_lines (suc t) n

    data_log-lagged :
        (t n : ℕ)
        → data_log libc fixed9 n (validation_state libc t (validation_startup libc (some lines)))
          ≡ lagged_lines t n
    unfolding data_log lagged_lines
    data_log-lagged t zero = refl
    data_log-lagged t (suc n) =
        let p = validation_startup libc (some lines) in
        ap
          (λ o.
            data_lines fixed9 o
            ++ data_log libc fixed9 n (validation_tick libc (validation_state libc t p)).1)
          (validation_tick-lagged libc lines t)
        ∙ ap (λ l. data_lines fixed9 (lagged libc (readings libc lines) t) ++ l)
            (ap (data_log libc fixed9 n) (state-suc libc t p) ∙ data_log-lagged (suc t) n)

    pub read_from-lagged :
        (t n : ℕ) (m : Values F)
        → t + n ≤ 10 ^ 19
        → read_from lf_record to_float (lagged_lines t n) m
          ≡ some (all_noted libc rounded (readings libc lines) t n m)
    unfolding lagged_lines all_noted
    read_from-lagged t zero m h = refl
    read_from-lagged t (suc n) m h = elim (lagged_cases libc (readings libc lines) t) [
      | inl e ↦ rw e (read_from-lagged (suc t) n m (omega (arith, h)))
      | inr (v, e) ↦
          let number = numbers t (message t v) e in
          let printed = lf_record-printed t (fixed9 v) (omega (arith, h)) (back.text v number) in
          rw e (
            ap
              (λ o.
                add_record to_float o m >>= read_from lf_record to_float (lagged_lines (suc t) n))
              printed
            ∙ (ap
                  (λ o.
                    add_value (pos t) o m >>= read_from lf_record to_float (lagged_lines (suc t) n))
                  (back.value v number)
                ∙ read_from-lagged (suc t) n (put (pos t) (rounded v) m) (omega (arith, h))))
    ]

    -- If the lagged speeds are finite, and `%.9f` prints finite numbers so that `float` accepts them,
    -- then from the records of the first `n` ticks the script reads at each counter below `n` what the computer
    -- sent with it, as printed, and nothing where it sent nothing.
    pub read_values-data_log :
        (n : ℕ)
        → n ≤ 2 ^ 31
        → (m : Values F) × (read_values lf_record to_float
              (data_log libc fixed9 n (validation_startup libc (some lines)))
            ≡ some m)
          × ((k : ℕ)
              → k < n
              → find m (pos k) ≡ value_of rounded (lagged libc (readings libc lines) k))
    unfolding read_values validation_state
    read_values-data_log n h = (
      all_noted libc rounded (readings libc lines) 0 n [],
      ap (λ l. read_from lf_record to_float l []) (data_log-lagged 0 n)
          ∙ read_from-lagged 0 n [] (omega (arith, h)),
      λ k g.
          let below : ltb k n ≡ true = ground (arith, g) in
          find-all_noted libc rounded (readings libc lines) n (pos k)
          ∙ ap (λ b. if b then value_of rounded (lagged libc (readings libc lines) k) else none)
              below,
    )
