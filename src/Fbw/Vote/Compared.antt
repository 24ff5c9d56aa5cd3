-- ===== src/Fbw/Vote/Compared.antt =====
-- fbw-lf/scripts/compare_behavior.py on the output of the two test programs.
use lf_benchmarks.Common.{
  ℕ, ◌+◌, ◌≡◌, refl, ap, ◌∙◌, Bool, true, false, Option, none, some, List, [], ◌∷◌, All,
  if◌then◌else◌, arith,
}
use lf_benchmarks.Text.{codes}
use lf_benchmarks.Text.Words.{is_word, words, words-join, text_eq, text_eq_refl}
use lf_benchmarks.Double.{Double}
use lf_benchmarks.Fbw.Nav.{Status, ok, error_pfc1, error_pfc2, error_pfc3, emergency, exit}
use lf_benchmarks.Fbw.Vote.{original_wes, expected_tmr}
use lf_benchmarks.Fbw.Vote.Scenarios.{Scenario, scenarios, matches, same_status, report}
use lf_benchmarks.Fbw.Vote.Harness.{
  BehaviorResult, TestWes, IsWaiting, results, expected_results, results-expected,
}
use lf_benchmarks.Fbw.Vote.Output.{
  status_name, scenario_names, scenario_name, c_line, c_output, lf_line, lf_output,
}
use lf_benchmarks.Scripts.Behavior.{
  Dict, assign, Parsed, take_c, take_lf, conclude, parse_c_from, parse_c, parse_lf_from, parse_lf,
  Verdict, compare_behavior,
}

status_name-is_word : (s : Status) → is_word (status_name s) ≡ true
status_name-is_word ok = refl
status_name-is_word error_pfc1 = refl
status_name-is_word error_pfc2 = refl
status_name-is_word error_pfc3 = refl
status_name-is_word emergency = refl
status_name-is_word exit = refl

text_eq-status_name : (a b : Status) → text_eq (status_name a) (status_name b) ≡ same_status a b
unfolding text_eq same_status
text_eq-status_name a b = ground arith

match_word : (b : Bool) → is_word (if b then codes "MATCH" else codes "MISMATCH") ≡ true
match_word true = refl
match_word false = refl

-- How many are false.
unfoldable pub count_false : List Bool → ℕ
count_false [] = 0
count_false (b ∷ bs) = let rest = count_false bs in if b then rest else rest + 1

module _ {F : Type 0} ⦃d : Double F⦄ where
  c_line-words :
      (name : List ℕ) (s : Scenario F)
      → is_word name ≡ true
      → words (c_line name s)
        ≡ codes "C_BEHAVIOR"
          ∷ name
          ∷ status_name (original_wes s.p1 s.p2 s.p3)
          ∷ codes "EXPECTED"
          ∷ status_name (expected_tmr s.p1 s.p2 s.p3)
          ∷ (if matches s then codes "MATCH" else codes "MISMATCH")
          ∷ []
  c_line-words name s h = words-join _ (
    refl,
    (
      h,
      (
        status_name-is_word (original_wes s.p1 s.p2 s.p3),
        (refl, (status_name-is_word (expected_tmr s.p1 s.p2 s.p3), (match_word (matches s), tt))),
      ),
    ),
  )

  -- What the script keeps of the C program's lines.
  kept : List (List ℕ) → List (Scenario F) → Parsed → Parsed
  kept (name ∷ names) (s ∷ rest) p = kept names rest (record {
    result = assign name (status_name (original_wes s.p1 s.p2 s.p3)) p.result;
    expected = assign name (status_name (expected_tmr s.p1 s.p2 s.p3)) p.expected;
  })
  kept _ _ p = p

  parse_c_from-kept :
      (names : List (List ℕ)) (rows : List (Scenario F)) (p : Parsed)
      → All (λ w. is_word w ≡ true) names
      → parse_c_from (c_output names rows) p ≡ kept names rows p
  unfolding kept text_eq
  parse_c_from-kept [] rows p h = refl
  parse_c_from-kept (name ∷ names) [] p h = refl
  parse_c_from-kept (name ∷ names) (s ∷ rest) p (h, hs) =
      ap (λ ws. parse_c_from (c_output names rest) (take_c ws p)) (c_line-words name s h)
      ∙ parse_c_from-kept names rest _ hs

abbrev HasName : Option BehaviorResult → Type 0
HasName none = Unit
HasName (some r) = is_word (scenario_name r.scenario) ≡ true

-- What it keeps of the reactor test's lines.
kept_lf : List (Option BehaviorResult) → Dict → Dict
kept_lf [] m = m
kept_lf (none ∷ rest) m = kept_lf rest m
kept_lf (some r ∷ rest) m =
    kept_lf rest (assign (scenario_name r.scenario) (status_name r.status) m)

lf_line-words :
    (r : BehaviorResult)
    → is_word (scenario_name r.scenario) ≡ true
    → words (lf_line r) ≡ codes "LF_BEHAVIOR" ∷ scenario_name r.scenario ∷ status_name r.status ∷ []
lf_line-words r h =
    words-join (codes "LF_BEHAVIOR" ∷ scenario_name r.scenario ∷ status_name r.status ∷ [])
      (refl, (h, (status_name-is_word r.status, tt)))

parse_lf_from-kept :
    (rs : List (Option BehaviorResult)) (m : Dict)
    → All HasName rs
    → parse_lf_from (lf_output rs) m ≡ kept_lf rs m
unfolding kept_lf text_eq
parse_lf_from-kept [] m h = refl
parse_lf_from-kept (none ∷ rest) m (_, hs) = parse_lf_from-kept rest m hs
parse_lf_from-kept (some r ∷ rest) m (h, hs) =
    ap (λ ws. parse_lf_from (lf_output rest) (take_lf ws m)) (lf_line-words r h)
    ∙ parse_lf_from-kept rest _ hs

scenario_names-words : All (λ w. is_word w ≡ true) scenario_names
scenario_names-words = (refl, (refl, (refl, (refl, (refl, (refl, (refl, (refl, (refl, tt)))))))))

abbrev nothing : Parsed
nothing = record { result = []; expected = [] }

conclude-kept :
    (F : Type 0) ⦃d : Double F⦄
    → conclude
        (kept scenario_names (scenarios {F = F}) nothing)
        (kept_lf (expected_results (scenarios {F = F}) 0 9) [])
      ≡ Verdict.passed (count_false (report (scenarios {F = F})))
unfolding kept kept_lf count_false matches expected_results text_eq
conclude-kept F = simp (text_eq_refl, text_eq-status_name) refl

expected-HasName :
    (F : Type 0) ⦃d : Double F⦄ → All HasName (expected_results (scenarios {F = F}) 0 9)
unfolding expected_results
expected-HasName F = (refl, (refl, (refl, (refl, (refl, (refl, (refl, (refl, (refl, tt)))))))))

module _ {F : Type 0} ⦃d : Double F⦄ where
  -- On the output of the C test program and the nine results that the reactor test prints before its
  -- timeout, from a state that waits for samples: the comparison passes, and the number of scenarios in
  -- which it says that the original vote differs is that of the lines that say MISMATCH.
  pub compare_behavior-passed :
      (w : TestWes F)
      → IsWaiting w
      → compare_behavior (c_output scenario_names (scenarios {F = F})) (lf_output (results 0 9 w))
        ≡ Verdict.passed (count_false (report (scenarios {F = F})))
  unfolding compare_behavior parse_c parse_lf
  compare_behavior-passed w h =
      let c = parse_c_from-kept scenario_names (scenarios {F = F}) nothing scenario_names-words in
      let lf =
        parse_lf_from-kept (expected_results (scenarios {F = F}) 0 9) [] (expected-HasName F) in
      ap
        (λ rs.
          conclude (parse_c (c_output scenario_names (scenarios {F = F})))
            (parse_lf (lf_output rs)))
        (results-expected 9 w h)
      ∙ (ap (λ p. conclude p (parse_lf (lf_output (expected_results (scenarios {F = F}) 0 9)))) c
          ∙ (ap (conclude (kept scenario_names (scenarios {F = F}) nothing)) lf ∙ conclude-kept F))
