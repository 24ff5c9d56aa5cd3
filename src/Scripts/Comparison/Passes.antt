-- ===== src/Scripts/Comparison/Passes.antt =====
-- When fbw-lf/scripts/compare_fbw.py says PASS.
use lf_benchmarks.Common.{
  ◌≡◌, ◌≢◌, ◌↔◌, refl, sym, ap, ◌∙◌, Bool, true, false, ◌&&◌, ◌||◌, Option, none, some, List, [],
  ◌∷◌, if◌then◌else◌, arith,
}
use lf_benchmarks.Int.{ℤ}
use lf_benchmarks.Text.{both_true}
use lf_benchmarks.Double.{Double}
use lf_benchmarks.Fbw.Nav.{Line}
use lf_benchmarks.Scripts.Records.{c_record, lf_record}
use lf_benchmarks.Scripts.Comparison.{
  Values, find, read_values, only_in, Ending, is_nil, is_within, unless_passed, mismatches,
  compare_values, compare_fbw,
}
use lf_benchmarks.Scripts.Comparison.Keys.{all_keys, all_keys_iff, is_some, only_in-all_keys}

-- The chain of tests at the end.
ending_iff :
    (no_c no_lf right c_found lf_found : Bool)
    → ((if no_c || no_lf
          then Ending.no_records
          else if right && c_found && lf_found
          then Ending.pass
          else if right
          then Ending.partial_pass
          else Ending.fail)
        ≡ Ending.pass)
      ↔ ((no_c ≡ false) × (no_lf ≡ false) × (right && c_found && lf_found ≡ true))
ending_iff no_c no_lf right c_found lf_found = ground arith

module _ {F : Type 0} ⦃d : Double F⦄ (tolerance : F) where
  -- Both logs lack a counter, or their speeds for it are within the tolerance.
  abbrev pub Agrees : Option F → Option F → Type 0
  Agrees none none = Unit
  Agrees (some a) (some b) = is_within tolerance a b ≡ true
  Agrees _ _ = ⊥

  abbrev pub fits : Option F → Option F → Bool
  fits none lf = true
  fits (some a) none = true
  fits (some a) (some b) = is_within tolerance a b

  nil_unless_passed :
      (c lf : Option F) (k : ℤ) (rest : List ℤ)
      → is_nil (unless_passed tolerance c lf k rest) ≡ fits c lf && is_nil rest
  nil_unless_passed c lf k rest = ground arith

  pub mismatches-all_keys :
      (c lf m : Values F)
      → is_nil (mismatches tolerance c lf m) ≡ all_keys (λ k. fits (find c k) (find lf k)) m
  unfolding mismatches all_keys
  mismatches-all_keys c lf [] = refl
  mismatches-all_keys c lf ((j, u) ∷ m) =
      nil_unless_passed (find c j) (find lf j) j (mismatches tolerance c lf m)
      ∙ ap (λ b. fits (find c j) (find lf j) && b) (mismatches-all_keys c lf m)

  agreed :
      (c lf : Option F)
      → (c ≢ none → fits c lf ≡ true)
      → (c ≢ none → is_some lf ≡ true)
      → (lf ≢ none → is_some c ≡ true)
      → Agrees c lf
  agreed none none h x y = tt
  agreed none (some b) h x y = absurd (ground (arith, y (λ e. absurd cc)))
  agreed (some a) none h x y = absurd (ground (arith, x (λ e. absurd cc)))
  agreed (some a) (some b) h x y = h (λ e. absurd cc)

  agreed-fits :
      (c lf : Option F)
      → Agrees c lf
      → (fits c lf ≡ true) × (c ≢ none → is_some lf ≡ true) × (lf ≢ none → is_some c ≡ true)
  agreed-fits none none h = (refl, λ x. absurd (x refl), λ y. absurd (y refl))
  agreed-fits none (some b) h = absurd h
  agreed-fits (some a) none h = absurd h
  agreed-fits (some a) (some b) h = (h, λ x. refl, λ y. refl)

  abbrev pub AllAgree : Values F → Values F → Type 0
  AllAgree c lf = (k : ℤ) → Agrees (find c k) (find lf k)

  tests_iff :
      (c lf : Values F)
      → (is_nil (mismatches tolerance c lf c) && is_nil (only_in c lf) && is_nil (only_in lf c)
          ≡ true)
        ↔ AllAgree c lf
  tests_iff c lf =
      let fit = all_keys_iff (λ k. fits (find c k) (find lf k)) c in
      let in_lf = all_keys_iff (λ k. is_some (find lf k)) c in
      let in_c = all_keys_iff (λ k. is_some (find c k)) lf in
      let e1 = mismatches-all_keys c lf c in
      let e2 = only_in-all_keys c lf in
      let e3 = only_in-all_keys lf c in
      (
        λ h k.
            let (first, in_other) = both_true _ _ h in
            let (none_wrong, in_both) = both_true _ _ first in
            agreed (find c k) (find lf k) (fit.0 (sym e1 ∙ none_wrong) k)
              (in_lf.0 (sym e2 ∙ in_both) k) (in_c.0 (sym e3 ∙ in_other) k),
        λ h.
            let all = λ (k : ℤ). agreed-fits (find c k) (find lf k) (h k) in
            simp
              (
                e1 ∙ fit.1 (λ k _. (all k).0),
                e2 ∙ in_lf.1 (λ k. (all k).1),
                e3 ∙ in_c.1 (λ k. (all k).2),
              )
              refl,
      )

  compare_values_iff :
      (c lf : Values F)
      → (compare_values tolerance c lf ≡ Ending.pass)
        ↔ ((is_nil c ≡ false) × (is_nil lf ≡ false) × AllAgree c lf)
  unfolding compare_values
  compare_values_iff c lf =
      let (to, back) = tests_iff c lf in
      let wrong = is_nil (mismatches tolerance c lf c) in
      let ends =
        ending_iff (is_nil c) (is_nil lf) wrong (is_nil (only_in c lf)) (is_nil (only_in lf c)) in
      (
        λ e. let (some_c, some_lf, right) = ends.0 e in (some_c, some_lf, to right),
        λ (some_c, some_lf, agree). ends.1 (some_c, some_lf, back agree),
      )

  -- The script says PASS exactly if `float` accepts the records of both logs, there are some, and at
  -- every counter the logs agree: neither has a record for it, or both have and the last speeds are
  -- within the tolerance of each other.
  pub compare_fbw_iff :
      (to_float : Line → Option F) (c_log lf_log : List Line)
      → (compare_fbw to_float tolerance c_log lf_log ≡ Ending.pass) ↔ (
          (c : Values F) × (lf : Values F) × (read_values c_record to_float c_log ≡ some c)
          × (read_values lf_record to_float lf_log ≡ some lf)
          × (is_nil c ≡ false)
          × (is_nil lf ≡ false)
          × AllAgree c lf)
  unfolding compare_fbw
  compare_fbw_iff to_float c_log lf_log =
      go (read_values c_record to_float c_log) (read_values lf_record to_float lf_log)
    where
      go :
          (x y : Option (Values F))
          → ((elim x [
            | none ↦ Ending.value_error
            | some m ↦ elim y [ none ↦ Ending.value_error | some n ↦ compare_values tolerance m n ]
          ])
              ≡ Ending.pass)
            ↔ ((c : Values F) × (lf : Values F) × (x ≡ some c)
                × (y ≡ some lf)
                × (is_nil c ≡ false)
                × (is_nil lf ≡ false)
                × AllAgree c lf)
      go none y = (λ e. absurd cc, λ (c, lf, f, g, h, i, j). absurd cc)
      go (some c) none = (λ e. absurd cc, λ (c', lf', f, g, h, i, j). absurd cc)
      go (some c) (some lf) =
          let (to, back) = compare_values_iff c lf in
          (
            λ e. let (some_c, some_lf, agree) = to e in (c, lf, refl, refl, some_c, some_lf, agree),
            λ (c', lf', f, g, some_c, some_lf, agree).
                let same_c : c ≡ c' = cc f in
                let same_lf : lf ≡ lf' = cc g in
                ap (λ m. compare_values tolerance m lf) same_c
                ∙ (ap (compare_values tolerance c') same_lf
                    ∙ (compare_values_iff c' lf').1 (some_c, some_lf, agree)),
          )
