-- ===== src/Fbw/Validation/Noted.antt =====
-- The dictionary of the speeds that a computer of the validation build sends, as
-- fbw-lf/scripts/compare_fbw.py fills one.
use lf_benchmarks.Common.{
  ℕ, zero, suc, ◌+◌, ◌≤◌, ◌<◌, ◌≡◌, ◌⊎◌, inl, inr, refl, ap, ◌∙◌, false, Bool-cases, Option, none,
  some, Option-cases, List, [], get_elem?, take, ◌-◌, ◌==◌, ltb, if◌then◌else◌, arith,
}
use std.Path.{subst}
use lf_benchmarks.Int.{ℤ, pos, negsuc, eqb_ℤ}
use lf_benchmarks.Double.{Double}
use lf_benchmarks.Fbw.Nav.{SpeedMsg}
use lf_benchmarks.Fbw.Validation.{Libc, Reading}
use lf_benchmarks.Fbw.Validation.Lag.{message, legs, total, lagged}
use lf_benchmarks.Scripts.Comparison.Keys.{find-put_same, find-put_other}
use lf_benchmarks.Scripts.Comparison.{Values, put, find}

module _ {F : Type 0} where
  -- What is read of a message, if `rounded` gives what comes back of a speed.
  abbrev pub value_of : (F → F) → Option (SpeedMsg F) → Option F
  value_of rounded none = none
  value_of rounded (some msg) = some (rounded msg.speed)

  abbrev pub noted : (F → F) → Option (SpeedMsg F) → Values F → Values F
  noted rounded none m = m
  noted rounded (some msg) m = put msg.counter (rounded msg.speed) m

module _ {F : Type 0} ⦃d : Double F⦄ (libc : Libc F) where
  pub lagged_cases :
      (rs : List (Reading F)) (t : ℕ)
      → (lagged libc rs t ≡ none) ⊎ ((v : F) × (lagged libc rs t ≡ some (message t v)))
  lagged_cases rs t = elim (Option-cases (get_elem? rs t)) [
    | inl e ↦ inl (rw (lagged, e) refl)
    | inr (r, e) ↦ inr (total libc (d.lit 0 0) (take (t - 1) (legs libc rs)), rw (lagged, e) refl)
  ]

  module _ (rounded : F → F) (rs : List (Reading F)) where
    -- The speeds of `n` ticks from `t` on, beside others.
    unfoldable pub all_noted : (t n : ℕ) → Values F → Values F
    all_noted t zero m = m
    all_noted t (suc n) m = all_noted (suc t) n (noted rounded (lagged libc rs t) m)

    -- What `n` ticks send by counter.
    abbrev pub sent_by : ℕ → ℤ → Option F
    sent_by n (pos k) = if ltb k n then value_of rounded (lagged libc rs k) else none
    sent_by n (negsuc k) = none

    noted-other :
        (t : ℕ) (k : ℤ) (m : Values F)
        → eqb_ℤ (pos t) k ≡ false
        → find (noted rounded (lagged libc rs t) m) k ≡ find m k
    noted-other t k m h = elim (lagged_cases rs t) [
      | inl e ↦ rw e refl
      | inr (v, e) ↦ rw e (find-put_other (pos t) k (rounded v) m h)
    ]

    all_noted-other :
        (t n : ℕ) (k : ℤ) (m : Values F)
        → ((j : ℕ) → t ≤ j → j < t + n → eqb_ℤ (pos j) k ≡ false)
        → find (all_noted t n m) k ≡ find m k
    unfolding all_noted
    all_noted-other t zero k m h = refl
    all_noted-other t (suc n) k m h =
        all_noted-other (suc t) n k _ (λ j l u. h j (omega (arith, l)) (omega (arith, u)))
        ∙ noted-other t k m (h t (omega arith) (omega arith))

    noted-same :
        (t : ℕ) (m : Values F)
        → find m (pos t) ≡ none
        → find (noted rounded (lagged libc rs t) m) (pos t) ≡ value_of rounded (lagged libc rs t)
    noted-same t m h = elim (lagged_cases rs t) [
      | inl e ↦ rw e h
      | inr (v, e) ↦ rw e (find-put_same (pos t) (rounded v) m)
    ]

    all_noted-within :
        (t n k : ℕ) (m : Values F)
        → t ≤ k
        → k < t + n
        → find m (pos k) ≡ none
        → find (all_noted t n m) (pos k) ≡ value_of rounded (lagged libc rs k)
    unfolding all_noted
    all_noted-within t zero k m h g e = absurd (omega (arith, h, g))
    all_noted-within t (suc n) k m h g e = elim (Bool-cases (t == k)) [
      | inl f ↦
          let same : t ≡ k = ground (arith, f) in
          subst
            (λ z.
              find (all_noted (suc t) n (noted rounded (lagged libc rs t) m)) (pos z)
              ≡ value_of rounded (lagged libc rs z))
            same
            (all_noted-other (suc t) n (pos t) _ (λ j l u. ground (arith, l))
              ∙ noted-same t m (ap (λ z. find m (pos z)) same ∙ e))
      | inr f ↦
          all_noted-within (suc t) n k _ (ground (arith, h, f)) (omega (arith, g))
            (noted-other t (pos k) m f ∙ e)
    ]

    -- The dictionary of the first `n` ticks.
    pub find-all_noted : (n : ℕ) (k : ℤ) → find (all_noted 0 n []) k ≡ sent_by n k
    find-all_noted n (negsuc k) = all_noted-other 0 n (negsuc k) [] (λ j l u. refl)
    find-all_noted n (pos k) = elim (Bool-cases (ltb k n)) [
      | inl e ↦ rw e (all_noted-within 0 n k [] (omega arith) (ground (arith, e)) refl)
      | inr e ↦ rw e (all_noted-other 0 n (pos k) [] (λ j l u. ground (arith, e, u)))
    ]
