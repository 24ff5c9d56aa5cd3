-- ===== src/Scripts/Behavior.antt =====
-- fbw-lf/scripts/compare_behavior.py, for the lines of the two files that it is given.
use lf_benchmarks.Common.{
  ℕ, ◌+◌, Bool, true, false, Option, none, some, List, [], ◌∷◌, ◌==◌, if◌then◌else◌,
}
use lf_benchmarks.Text.{codes}
use lf_benchmarks.Text.Words.{words, text_eq}
use lf_benchmarks.Fbw.Nav.{Line}

-- A `dict` from texts to texts, in the order of insertion.
abbrev pub Dict : Type 0
Dict = List (List ℕ × List ℕ)

-- `m[k] = v`
abbrev pub assign : List ℕ → List ℕ → Dict → Dict
assign k v [] = (k, v) ∷ []
assign k v ((j, u) ∷ m) =
    let rest = assign k v m in if text_eq j k then (j, v) ∷ m else (j, u) ∷ rest

-- `m.get(k)`
abbrev pub get : Dict → List ℕ → Option (List ℕ)
get [] k = none
get ((j, u) ∷ m) k = let rest = get m k in if text_eq j k then some u else rest

-- `m.get(k, default)`
abbrev pub get_or_default : Dict → List ℕ → List ℕ → List ℕ
get_or_default m k default = elim (get m k) [ none ↦ default | some v ↦ v ]

-- `==` on what `get` returns.
abbrev pub same_entry : Option (List ℕ) → Option (List ℕ) → Bool
same_entry none none = true
same_entry (some a) (some b) = text_eq a b
same_entry _ _ = false

-- What the C program's file says of scenarios: the results and what was expected.
pub record Parsed : Type 0 where
  pub result : Dict
  pub expected : Dict

abbrev pub take_c : List (List ℕ) → Parsed → Parsed
take_c (tag ∷ scenario ∷ result ∷ _ ∷ expected ∷ _ ∷ []) p =
    if text_eq tag (codes "C_BEHAVIOR")
    then record {
      result = assign scenario result p.result;
      expected = assign scenario expected p.expected;
    }
    else p
take_c _ p = p

abbrev pub parse_c_from : List Line → Parsed → Parsed
parse_c_from [] p = p
parse_c_from (line ∷ lines) p = parse_c_from lines (take_c (words line) p)

unfoldable pub parse_c : List Line → Parsed
parse_c lines = parse_c_from lines (record { result = []; expected = [] })

abbrev pub take_lf : List (List ℕ) → Dict → Dict
take_lf (tag ∷ scenario ∷ status ∷ []) m =
    if text_eq tag (codes "LF_BEHAVIOR") then assign scenario status m else m
take_lf _ m = m

abbrev pub parse_lf_from : List Line → Dict → Dict
parse_lf_from [] m = m
parse_lf_from (line ∷ lines) m = parse_lf_from lines (take_lf (words line) m)

unfoldable pub parse_lf : List Line → Dict
parse_lf lines = parse_lf_from lines []

-- The loop over the scenarios, which are the keys of `expected`: in how many the reactor test is
-- wrong.
abbrev pub count_failures : Parsed → Dict → Dict → ℕ
count_failures c lf [] = 0
count_failures c lf ((scenario, _) ∷ rest) =
    let exp = get_or_default c.expected scenario (codes "MISSING") in
    let ok = text_eq (get_or_default lf scenario (codes "MISSING")) exp in
    let failures = count_failures c lf rest in if ok then failures else failures + 1

abbrev pub count_mismatches : Parsed → Dict → ℕ
count_mismatches c [] = 0
count_mismatches c ((scenario, _) ∷ rest) =
    let same = same_entry (get c.result scenario) (get c.expected scenario) in
    let mismatches = count_mismatches c rest in if same then mismatches else mismatches + 1

-- How it ends: with exit code 1 and the number of failures, or with 0 and the number of scenarios in
-- which the original vote differs.
pub data Verdict : Type 0 where
  failed : ℕ → Verdict
  passed : ℕ → Verdict

abbrev pub exit_code : Verdict → ℕ
exit_code (Verdict.failed failures) = 1
exit_code (Verdict.passed mismatches) = 0

abbrev pub conclude : Parsed → Dict → Verdict
conclude c lf =
    let failures = count_failures c lf c.expected in
    if failures == 0
    then Verdict.passed (count_mismatches c c.expected)
    else Verdict.failed failures

unfoldable pub compare_behavior : List Line → List Line → Verdict
compare_behavior c_lines lf_lines = conclude (parse_c c_lines) (parse_lf lf_lines)
