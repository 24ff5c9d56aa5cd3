-- ===== src/Scripts/Comparison/Dictionary.antt =====
-- The dictionaries of fbw-lf/scripts/compare_fbw.py, which forget the order in which they were filled.
use mathlib.Core.Quot.{Setoid, Quotient, Quotient-set}
use mathlib.Core.Quot.Quotient
use lf_benchmarks.Common.{
  List, ◌≡◌, refl, sym, ap, ◌∙◌, Bool, true, false, Option, none, some, [], ◌∷◌, arith,
}
use lf_benchmarks.Int.{ℤ}
use lf_benchmarks.Double.{Double}
use lf_benchmarks.Fbw.Nav.{Line}
use lf_benchmarks.Scripts.Records.{c_record, lf_record}
use lf_benchmarks.Scripts.Comparison.{
  Values, find, read_values, only_in, Ending, is_nil, mismatches, compare_values, compare_fbw,
}
use lf_benchmarks.Scripts.Comparison.Keys.{all_keys, all_keys_iff, is_some, only_in-all_keys}
use lf_benchmarks.Scripts.Comparison.Passes.{fits, mismatches-all_keys}

pub Ending-set : IsSet Ending
Ending-set = hlevel

pub Bool-ext : (a b : Bool) → (a ≡ true → b ≡ true) → (b ≡ true → a ≡ true) → a ≡ b
Bool-ext a b h k = ground (arith, h, k)

module _ {F : Type 0} where
  -- Two dictionaries have the same entries.
  abbrev pub SameEntries : Values F → Values F → Type 0
  SameEntries m m' = (k : ℤ) → find m k ≡ find m' k

  abbrev pub same_entries : Setoid {0, 0} (Values F)
  same_entries = record {
    r = SameEntries;
    iseqv = record {
      refl = λ m k. refl;
      symm = λ m m' h k. sym (h k);
      trans = λ m m' m'' h g k. h k ∙ g k;
    };
  }

  all_keys-same :
      (test test' : ℤ → Bool) (m m' : Values F)
      → ((k : ℤ) → test k ≡ test' k)
      → SameEntries m m'
      → all_keys test m ≡ true
      → all_keys test' m' ≡ true
  all_keys-same test test' m m' same h all =
      (all_keys_iff test' m').1
        (λ k has. sym (same k) ∙ (all_keys_iff test m).0 all k (λ e. has (sym (h k) ∙ e)))

  all_keys-congr :
      (test test' : ℤ → Bool) (m m' : Values F)
      → ((k : ℤ) → test k ≡ test' k)
      → SameEntries m m'
      → all_keys test m ≡ all_keys test' m'
  all_keys-congr test test' m m' same h =
      Bool-ext _ _ (all_keys-same test test' m m' same h)
        (all_keys-same test' test m' m (λ k. sym (same k)) (λ k. sym (h k)))

  is_nil-all_keys : (m : Values F) → is_nil m ≡ all_keys (λ k. false) m
  unfolding all_keys
  is_nil-all_keys [] = refl
  is_nil-all_keys (_ ∷ m) = refl

  is_nil-congr : (m m' : Values F) → SameEntries m m' → is_nil m ≡ is_nil m'
  is_nil-congr m m' h =
      is_nil-all_keys m
      ∙ (all_keys-congr (λ k. false) (λ k. false) m m' (λ k. refl) h ∙ sym (is_nil-all_keys m'))

  only_in-congr :
      (m m' other other' : Values F)
      → SameEntries m m'
      → SameEntries other other'
      → is_nil (only_in m other) ≡ is_nil (only_in m' other')
  only_in-congr m m' other other' h g =
      only_in-all_keys m other
      ∙ (all_keys-congr (λ k. is_some (find other k)) (λ k. is_some (find other' k)) m m'
            (λ k. ap is_some (g k)) h
          ∙ sym (only_in-all_keys m' other'))

abbrev pub Dictionary : Type 0 → Type 0
Dictionary F = Quotient (same_entries {F = F})

pub Dictionary?-set : {F : Type 0} → IsSet (Option (Dictionary F))
Dictionary?-set = hlevel (Quotient-set same_entries)

module _ {F : Type 0} where
  abbrev pub to_dictionary : Option (Values F) → Option (Dictionary F)
  to_dictionary none = none
  to_dictionary (some m) = some (Quotient.mk same_entries m)

  -- What is read from a log.
  unfoldable pub read_dictionary :
      (Line → Option (ℤ × Line)) → (Line → Option F) → List Line → Option (Dictionary F)
  read_dictionary pattern to_float lines = to_dictionary (read_values pattern to_float lines)

module _ {F : Type 0} ⦃d : Double F⦄ (tolerance : F) where
  mismatches-congr :
      (c c' lf lf' : Values F)
      → SameEntries c c'
      → SameEntries lf lf'
      → is_nil (mismatches tolerance c lf c) ≡ is_nil (mismatches tolerance c' lf' c')
  mismatches-congr c c' lf lf' h g =
      mismatches-all_keys tolerance c lf c
      ∙ (all_keys-congr (λ k. fits tolerance (find c k) (find lf k))
            (λ k. fits tolerance (find c' k) (find lf' k)) c c'
            (λ k.
              ap (λ o. fits tolerance o (find lf k)) (h k) ∙ ap (fits tolerance (find c' k)) (g k))
            h
          ∙ sym (mismatches-all_keys tolerance c' lf' c'))

  pub compare_values-congr :
      (c lf c' lf' : Values F)
      → SameEntries c c'
      → SameEntries lf lf'
      → compare_values tolerance c lf ≡ compare_values tolerance c' lf'
  unfolding compare_values
  compare_values-congr c lf c' lf' h g =
      rw
        (
          is_nil-congr c c' h,
          is_nil-congr lf lf' g,
          mismatches-congr c c' lf lf' h g,
          only_in-congr c c' lf lf' h g,
          only_in-congr lf lf' c c' g h,
        )
        refl

  -- How the script ends, by the dictionaries.
  unfoldable pub ends : Dictionary F → Dictionary F → Ending
  ends =
      Quotient.lift₂ same_entries same_entries Ending-set (compare_values tolerance)
        compare_values-congr

  abbrev pub ending_of : Option (Dictionary F) → Option (Dictionary F) → Ending
  ending_of none lf = Ending.value_error
  ending_of (some c) none = Ending.value_error
  ending_of (some c) (some lf) = ends c lf

  ending_of-values :
      (c lf : Option (Values F))
      → (elim c [
        | none ↦ Ending.value_error
        | some m ↦ elim lf [ none ↦ Ending.value_error | some n ↦ compare_values tolerance m n ]
      ])
        ≡ ending_of (to_dictionary c) (to_dictionary lf)
  unfolding ends
  ending_of-values none lf = refl
  ending_of-values (some m) none = refl
  ending_of-values (some m) (some n) = sym (
      Quotient.lift₂-mk same_entries same_entries Ending-set (compare_values tolerance)
        compare_values-congr m n)

module _ {F : Type 0} ⦃d : Double F⦄ (to_float : Line → Option F) (tolerance : F) where
  -- The script compares dictionaries.
  pub compare_fbw-dictionaries :
      (c_log lf_log : List Line)
      → compare_fbw to_float tolerance c_log lf_log
        ≡ ending_of tolerance
            (read_dictionary c_record to_float c_log)
            (read_dictionary lf_record to_float lf_log)
  unfolding compare_fbw read_dictionary
  compare_fbw-dictionaries c_log lf_log =
      ending_of-values tolerance (read_values c_record to_float c_log)
        (read_values lf_record to_float lf_log)
