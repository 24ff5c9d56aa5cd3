-- ===== src/Scripts/EndToEnd.antt =====
-- fbw-lf/scripts/check_e2e_faults.py: what the controlled test has to have printed.
use lf_benchmarks.Common.{
  ℕ, ◌+◌, ◌≡◌, refl, Bool, true, false, Bool-cases, inl, inr, Option, none, some, List, [], ◌∷◌,
  ◌++◌, All, ◌==◌, if◌then◌else◌,
}
use lf_benchmarks.Text.{codes, lacks}
use lf_benchmarks.Fbw.Nav.{Line}
use lf_benchmarks.Scripts.Patterns.{Piece, Pattern, plain, search, search_none}

abbrev pub entry : List ℕ → Pattern → List ℕ → Pattern
entry who time message =
    plain (codes "[" ++ who)
    ++ (Piece.spaces
        ∷ (plain (codes "]")
            ++ (Piece.spaces
                ∷ (plain (codes "T=")
                    ++ (time
                        ++ (plain (codes " s")
                            ++ (Piece.spaces
                                ∷ (plain (codes "|") ++ (Piece.spaces ∷ plain message)))))))))

abbrev pub five_to_seven : Pattern
five_to_seven = Piece.choice (codes "567") ∷ []

-- The patterns of the checks, and their list.
abbrev pub stop_sent : Pattern
stop_sent = entry (codes "FMAN") (plain (codes "5")) (codes "TEST: STOP sent to PFC2")

abbrev pub stop_applied : Pattern
stop_applied = entry (codes "PFC2") (plain (codes "5")) (codes "STOPPED")

abbrev pub stop_noticed : Pattern
stop_noticed = entry (codes "WES") five_to_seven (codes "ERROR: PFC2 discordant")

abbrev pub stop_reported : Pattern
stop_reported = entry (codes "PFCDS") five_to_seven (codes "ERROR: PFC2 faulty")

abbrev pub cont_sent : Pattern
cont_sent = entry (codes "FMAN") (plain (codes "8")) (codes "TEST: CONT sent to PFC2")

abbrev pub cont_applied : Pattern
cont_applied = entry (codes "PFC2") (plain (codes "8")) (codes "RESUMED")

abbrev pub ok_after_cont : Pattern
ok_after_cont = entry (codes "WES") (plain (codes "8")) (codes "OK:")

abbrev pub bias_sent : Pattern
bias_sent = entry (codes "FMAN") (plain (codes "640")) (codes "TEST: BIAS sent to PFC3")

abbrev pub bias_applied : Pattern
bias_applied = entry (codes "PFC3") (plain (codes "640")) (codes "BIAS applied:")

abbrev pub bias_noticed : Pattern
bias_noticed = entry (codes "WES") (plain (codes "640")) (codes "ERROR: PFC3 discordant")

abbrev pub bias_reported : Pattern
bias_reported = entry (codes "PFCDS") (plain (codes "640")) (codes "ERROR: PFC3 faulty")

abbrev pub ok_after_bias : Pattern
ok_after_bias = entry (codes "WES") (plain (codes "641")) (codes "OK:")

abbrev pub checks : List Pattern
checks =
    stop_sent ∷ stop_applied ∷ stop_noticed ∷ stop_reported ∷ cont_sent ∷ cont_applied
    ∷ ok_after_cont ∷ bias_sent ∷ bias_applied ∷ bias_noticed ∷ bias_reported ∷ ok_after_bias ∷ []

-- `\bEMERGENCY\b`
abbrev pub emergency_pattern : Pattern
emergency_pattern = Piece.boundary ∷ (plain (codes "EMERGENCY") ++ (Piece.boundary ∷ []))

unfoldable pub matching_lines : Pattern → List Line → List Line
matching_lines p [] = []
matching_lines p (line ∷ lines) =
    let rest = matching_lines p lines in if search p line then line ∷ rest else rest

abbrev pub is_empty : List Line → Bool
is_empty [] = true
is_empty (_ ∷ _) = false

-- The loop over the checks: how many fail.
unfoldable pub count_failed : List Line → List Pattern → ℕ
count_failed lines [] = 0
count_failed lines (check ∷ rest) =
    let failed = count_failed lines rest in
    if is_empty (matching_lines check lines) then failed + 1 else failed

-- The exit code, with the lines of the log, if the file exists.
unfoldable pub check_e2e_faults : Option (List Line) → ℕ
check_e2e_faults none = 2
check_e2e_faults (some lines) =
    let failed = count_failed lines checks in
    let emergencies = matching_lines emergency_pattern lines in
    let failed' = if is_empty emergencies then failed else failed + 1 in
    if failed' == 0 then 0 else 1

-- Some line matches.
abbrev pub Found : List Line → Pattern → Type 0
Found lines p = is_empty (matching_lines p lines) ≡ false

pub Found-left : (p : Pattern) (xs ys : List Line) → Found xs p → Found (xs ++ ys) p
unfolding matching_lines
Found-left p [] ys h = absurd cc
Found-left p (x ∷ xs) ys h = elim (Bool-cases (search p x)) [
  | inl e ↦ simp e refl
  | inr e ↦ simp e (Found-left p xs ys (simp e at h))
]

pub Found-right : (p : Pattern) (xs ys : List Line) → Found ys p → Found (xs ++ ys) p
unfolding matching_lines
Found-right p [] ys h = h
Found-right p (x ∷ xs) ys h = elim (Bool-cases (search p x)) [
  | inl e ↦ simp e refl
  | inr e ↦ simp e (Found-right p xs ys h)
]

pub lacking-empty :
    (p : Pattern) (c : ℕ) (lines : List Line)
    → (needed : (s : Line) → lacks c s ≡ true → search p s ≡ false)
    → All (λ s. lacks c s ≡ true) lines
    → is_empty (matching_lines p lines) ≡ true
unfolding matching_lines
lacking-empty p c [] needed h = refl
lacking-empty p c (s ∷ lines) needed (h, hs) = simp (needed s h) (lacking-empty p c lines needed hs)

count_failed-none :
    (lines : List Line) (ps : List Pattern) → All (Found lines) ps → count_failed lines ps ≡ 0
unfolding count_failed
count_failed-none lines [] h = refl
count_failed-none lines (p ∷ ps) (h, hs) = simp (h, count_failed-none lines ps hs) refl

-- A log in which every check finds its line, and no line has a 'Y', passes.
pub check_e2e_faults_passed :
    (lines : List Line)
    → All (Found lines) checks
    → All (λ s. lacks b'Y' s ≡ true) lines
    → check_e2e_faults (some lines) ≡ 0
unfolding check_e2e_faults
check_e2e_faults_passed lines found calm =
    let none_failed = count_failed-none lines checks found in
    let quiet =
      lacking-empty emergency_pattern b'Y' lines
        (λ s l. search_none b'Y' emergency_pattern s refl l) calm in
    simp (none_failed, quiet) refl
