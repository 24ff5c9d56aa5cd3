-- ===== src/Scripts/Comparison.antt =====
-- fbw-lf/scripts/compare_fbw.py: the comparison of the logs of the C program and of the validation
-- build. `float` is a parameter; it is `none` where it raises ValueError.
pub mod Dictionary
pub mod Keys
pub mod Order
pub mod Rows
pub mod Passes
use lf_benchmarks.Common.{
  ℕ, zero, suc, ◌+◌, ◌-◌, ◌*◌, Bool, true, false, not, ◌&&◌, ◌||◌, Option, none, some, List, [],
  ◌∷◌, leb, ◌==◌, if◌then◌else◌,
}
use lf_benchmarks.Int.{ℤ, eqb_ℤ}
use lf_benchmarks.Double.{Double}
use lf_benchmarks.Fbw.Nav.{Line}
use lf_benchmarks.Scripts.Records.{◌>>=◌, c_record, lf_record}

-- The `dict` of speeds by counter.
abbrev pub Values : Type 0 → Type 0
Values F = List (ℤ × F)

module _ {F : Type 0} where
  -- `values[counter] = speed`
  abbrev pub put : ℤ → F → Values F → Values F
  put k v [] = (k, v) ∷ []
  put k v ((j, u) ∷ m) = let rest = put k v m in if eqb_ℤ j k then (j, v) ∷ m else (j, u) ∷ rest

  abbrev pub find : Values F → ℤ → Option F
  find [] k = none
  find ((j, u) ∷ m) k = let rest = find m k in if eqb_ℤ j k then some u else rest

  -- What a line that matches, or does not, adds; `none` if `float` raises.
  abbrev pub add_value : ℤ → Option F → Values F → Option (Values F)
  add_value k none m = none
  add_value k (some v) m = some (put k v m)

  abbrev pub add_record : (Line → Option F) → Option (ℤ × Line) → Values F → Option (Values F)
  add_record to_float none m = some m
  add_record to_float (some (k, text)) m = add_value k (to_float text) m

  -- The loop over the lines.
  abbrev pub read_from :
      (Line → Option (ℤ × Line)) → (Line → Option F) → List Line → Values F → Option (Values F)
  read_from pattern to_float [] m = some m
  read_from pattern to_float (line ∷ lines) m = do
    m' ← add_record to_float (pattern line) m
    read_from pattern to_float lines m'

  unfoldable pub read_values :
      (Line → Option (ℤ × Line)) → (Line → Option F) → List Line → Option (Values F)
  read_values pattern to_float lines = read_from pattern to_float lines []

  -- A counter in front of others, unless a dictionary has it.
  abbrev pub unless_found : Option F → ℤ → List ℤ → List ℤ
  unless_found none k rest = k ∷ rest
  unless_found (some v) k rest = rest

  -- The counters of the entries that are not keys of another dictionary.
  unfoldable pub only_in : Values F → Values F → List ℤ
  only_in [] other = []
  only_in ((k, _) ∷ m) other = unless_found (find other k) k (only_in m other)

-- How the script ends.
pub data Ending : Type 0 where
  no_records value_error pass partial_pass fail : Ending

abbrev pub exit_code : Ending → ℕ
exit_code Ending.no_records = 2
exit_code Ending.pass = 0
exit_code _ = 1

abbrev pub is_nil {ℓ} : {A : Type ℓ} → List A → Bool
is_nil [] = true
is_nil (_ ∷ _) = false

module _ {F : Type 0} ⦃d : Double F⦄ where
  open d use {lt, le, sub, neg, lit}

  abbrev pub abs : F → F
  abs v = if lt v (lit 0 0) then neg v else v

  -- `abs(c_speed - lf_speed) <= args.tolerance`
  abbrev pub is_within : F → F → F → Bool
  is_within tolerance a b = le (abs (sub a b)) tolerance

  -- A common counter in front of others, unless the speeds pass.
  abbrev pub unless_passed : F → Option F → Option F → ℤ → List ℤ → List ℤ
  unless_passed tolerance (some a) (some b) k rest =
      if is_within tolerance a b then rest else k ∷ rest
  unless_passed tolerance _ _ k rest = rest

  -- The loop over the common counters: the mismatches.
  unfoldable pub mismatches : F → Values F → Values F → Values F → List ℤ
  mismatches tolerance c lf [] = []
  mismatches tolerance c lf ((k, _) ∷ m) =
      unless_passed tolerance (find c k) (find lf k) k (mismatches tolerance c lf m)

  -- From the test for records on.
  unfoldable pub compare_values : F → Values F → Values F → Ending
  compare_values tolerance c lf =
      let wrong = mismatches tolerance c lf c in
      if is_nil c || is_nil lf
      then Ending.no_records
      else if is_nil wrong && is_nil (only_in c lf) && is_nil (only_in lf c)
      then Ending.pass
      else if is_nil wrong
      then Ending.partial_pass
      else Ending.fail

  unfoldable pub compare_fbw : (Line → Option F) → F → List Line → List Line → Ending
  compare_fbw to_float tolerance c_log lf_log =
      let c = read_values c_record to_float c_log in
      let lf = read_values lf_record to_float lf_log in
      elim c [
        | none ↦ Ending.value_error
        | some m ↦ elim lf [ none ↦ Ending.value_error | some n ↦ compare_values tolerance m n ]
      ]
