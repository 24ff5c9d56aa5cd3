-- ===== src/Scripts/Comparison/Rows/Written.antt =====
-- What stands in the rows.
use lf_benchmarks.Common.{
  ◌≢◌, ◌≡◌, ◌↔◌, refl, sym, ap, ◌∙◌, Bool, true, Bool-cases, ◌&&◌, inl, inr, Option, none, some,
  List, [], ◌∷◌, All, if◌then◌else◌, arith,
}
use std.Path.{subst}
use lf_benchmarks.Int.{eqb_sound, ℤ, eqb_ℤ, eqb_refl}
use lf_benchmarks.Text.{both_true}
use lf_benchmarks.Double.{Double}
use lf_benchmarks.Fbw.Nav.{Line}
use lf_benchmarks.Scripts.Records.{c_record}
use lf_benchmarks.Scripts.Comparison.{is_within, Values, find, read_values, is_nil, mismatches}
use lf_benchmarks.Scripts.Comparison.Keys.{all_keys_iff, is_some}
use lf_benchmarks.Scripts.Comparison.Passes.{fits, mismatches-all_keys}
use lf_benchmarks.Scripts.Comparison.Dictionary.{Bool-ext}
use lf_benchmarks.Scripts.Comparison.Rows.{Row, common, new_row, rows_from, rows}
use lf_benchmarks.Scripts.Comparison.Rows.Read.{read_values-IsDict}
use lf_benchmarks.Scripts.Comparison.Rows.Sorted.{
  IsAscending, elem, common-IsAscending, elem-common,
}

module _ {F : Type 0} where
  some_of : (o : Option F) → is_some o ≡ true → (a : F) × (o ≡ some a)
  some_of none h = absurd cc
  some_of (some a) h = (a, refl)

  abbrev pub find_row : ℤ → List (Row F) → Option (Row F)
  find_row k [] = none
  find_row k (r ∷ rs) = let later = find_row k rs in if eqb_ℤ r.counter k then some r else later

  abbrev pub all_passed : List (Row F) → Bool
  all_passed [] = true
  all_passed (r ∷ rs) = r.passed && all_passed rs

  abbrev pub counters : List (Row F) → List ℤ
  counters [] = []
  counters (r ∷ rs) = r.counter ∷ counters rs

abbrev all_of : (ℤ → Bool) → List ℤ → Bool
all_of test [] = true
all_of test (k ∷ ks) = test k && all_of test ks

all_of_iff :
    (test : ℤ → Bool) (ks : List ℤ)
    → (all_of test ks ≡ true) ↔ ((k : ℤ) → elem k ks ≡ true → test k ≡ true)
unfolding elem
all_of_iff test [] = (λ e k h. absurd cc, λ h. refl)
all_of_iff test (j ∷ ks) =
    let (to, back) = all_of_iff test ks in
    (
      λ e k h.
          let (first, rest) = both_true (test j) (all_of test ks) e in
          elim (Bool-cases (eqb_ℤ j k)) [
            | inl f ↦ ap test (sym (eqb_sound j k f)) ∙ first
            | inr f ↦ to rest k (ground (arith, f, h))
          ],
      λ h.
          let here : test j ≡ true = h j (ground (arith, eqb_refl j)) in
          let rest = back (λ k g. h k (ground (arith, g))) in simp (here, rest) refl,
    )

All-elem : (P : ℤ → Type 0) (ks : List ℤ) → ((k : ℤ) → elem k ks ≡ true → P k) → All P ks
unfolding elem
All-elem P [] h = tt
All-elem P (k ∷ ks) h =
    (h k (ground (arith, eqb_refl k)), All-elem P ks (λ j e. h j (ground (arith, e))))

module _ {F : Type 0} ⦃d : Double F⦄ (tolerance : F) where
  -- The row of a counter, if both logs have it.
  abbrev pub row_for : ℤ → Option F → Option F → Option (Row F)
  row_for k (some a) (some b) = some (new_row tolerance k a b)
  row_for k _ _ = none

  fits_cases :
      (a b : Option F)
      → a ≢ none
      → (is_some a && is_some b ≡ true → fits tolerance a b ≡ true)
      → fits tolerance a b ≡ true
  fits_cases none b has h = absurd (has refl)
  fits_cases (some a) none has h = refl
  fits_cases (some a) (some b) has h = h refl

  module _ (c lf : Values F) where
    abbrev is_common : ℤ → Bool
    is_common k = is_some (find c k) && is_some (find lf k)

    abbrev right : ℤ → Bool
    right k = fits tolerance (find c k) (find lf k)

    fits_unless : (k : ℤ) → find c k ≢ none → (is_common k ≡ true → right k ≡ true) → right k ≡ true
    fits_unless k has h = fits_cases (find c k) (find lf k) has h

    has_common : (k : ℤ) → is_common k ≡ true → find c k ≢ none
    has_common k e f = absurd (cc (rw f at e))

    -- What `rows_from` is to write.
    record WritesRows (ks : List ℤ) (rs : List (Row F)) : Type 0 where
      written : rows_from tolerance c lf ks ≡ some rs
      in_order : counters rs ≡ ks
      found :
          (k : ℤ) → find_row k rs ≡ (if elem k ks then row_for k (find c k) (find lf k) else none)
      all_right : all_passed rs ≡ all_of right ks

    WritesRows-cons :
        (k : ℤ) (a b : F) (ks : List ℤ) (rs : List (Row F))
        → find c k ≡ some a
        → find lf k ≡ some b
        → WritesRows ks rs
        → WritesRows (k ∷ ks) (new_row tolerance k a b ∷ rs)
    unfolding rows_from elem
    WritesRows-cons k a b ks rs e f w = record {
      written = rw (e, f, w.written) refl;
      in_order = ap (λ l. k ∷ l) w.in_order;
      found = λ i. elim (Bool-cases (eqb_ℤ k i)) [
        | inl g ↦
            let same = eqb_sound k i g in
            let here : row_for i (find c i) (find lf i) ≡ some (new_row tolerance k a b) =
              subst (λ j. row_for j (find c j) (find lf j) ≡ some (new_row tolerance k a b)) same
                (rw (e, f) refl) in
            rw g (sym here)
        | inr g ↦ rw g (w.found i)
      ];
      all_right =
          ap (λ x. is_within tolerance a b && x) w.all_right
          ∙ ap (λ x. x && all_of right ks) (sym (rw (e, f) refl));
    }

    rows_from-WritesRows :
        (ks : List ℤ) → All (λ k. is_common k ≡ true) ks → (rs : List (Row F)) × WritesRows ks rs
    unfolding rows_from elem
    rows_from-WritesRows [] h =
        ([], record { written = refl; in_order = refl; found = λ k. refl; all_right = refl })
    rows_from-WritesRows (k ∷ ks) (both, h) =
        let (rs, w) = rows_from-WritesRows ks h in
        let (has_c, has_lf) = both_true (is_some (find c k)) (is_some (find lf k)) both in
        let (a, e) = some_of (find c k) has_c in
        let (b, f) = some_of (find lf k) has_lf in
        (new_row tolerance k a b ∷ rs, WritesRows-cons k a b ks rs e f w)

    all_right-mismatches : all_of right (common c lf) ≡ is_nil (mismatches tolerance c lf c)
    all_right-mismatches =
        let (to, back) = all_of_iff right (common c lf) in
        let (to_keys, from_keys) = all_keys_iff right c in
        Bool-ext _ _
          (λ all. from_keys (λ k has. fits_unless k has (λ e. to all k (elem-common c lf k ∙ e))))
          (λ all. back (λ k e. to_keys all k (has_common k (sym (elem-common c lf k) ∙ e))))
        ∙ sym (mismatches-all_keys tolerance c lf c)

    row_for-common :
        (k : ℤ) (a b : Option F)
        → (if is_some a && is_some b then row_for k a b else none) ≡ row_for k a b
    row_for-common k none b = refl
    row_for-common k (some a) none = refl
    row_for-common k (some a) (some b) = refl

  -- The loop meets no missing key, whatever is read of the log of the validation build. It writes a
  -- row for each counter that both logs have and for no other, in ascending order, with both
  -- speeds, their error and whether it is within the tolerance. All rows pass exactly if there are
  -- no mismatches.
  pub rows-written :
      (to_float : Line → Option F) (c_log : List Line) (c lf : Values F)
      → read_values c_record to_float c_log ≡ some c
      → (rs : List (Row F)) × (rows tolerance c lf ≡ some rs)
        × IsAscending (counters rs)
        × ((k : ℤ) → find_row k rs ≡ row_for k (find c k) (find lf k))
        × (all_passed rs ≡ is_nil (mismatches tolerance c lf c))
  unfolding rows
  rows-written to_float c_log c lf e =
      let (rs, w) = rows_from-WritesRows c lf (common c lf) (
        All-elem (λ k. is_common c lf k ≡ true) (common c lf)
          (λ k h. sym (elem-common c lf k) ∙ h)) in
      (
        rs,
        w.written,
        subst IsAscending (sym w.in_order)
            (common-IsAscending c lf (read_values-IsDict c_record to_float c_log c e)),
        λ k.
            w.found k
            ∙ (ap (λ b. if b then row_for k (find c k) (find lf k) else none) (elem-common c lf k)
                ∙ row_for-common c lf k (find c k) (find lf k)),
        w.all_right ∙ all_right-mismatches c lf,
      )
