-- ===== src/Scripts/Records/ReadBack.antt =====
-- The records of a log are read back as they were printed.
use lf_benchmarks.Common.{
  ℕ, zero, suc, ◌+◌, ◌*◌, ◌/◌, ◌%◌, ◌^◌, ◌<◌, ◌≡◌, refl, sym, ap, ◌∙◌, Bool, true, false,
  Bool-cases, ◌&&◌, inl, inr, some, [], ◌∷◌, ◌++◌, ltb, ◌==◌, arith,
}
use native.Mathlib.Numerals.{unary_clauses}
use mathlib.Core.List.{append-nil}
use lf_benchmarks.Int.{pos}
use lf_benchmarks.Text.{codes, digits, decimal, both_true}
use lf_benchmarks.Text.Words.{is_space}
use lf_benchmarks.Fbw.Nav.{Line}
use lf_benchmarks.Scripts.Records.{
  drop_spaces, is_digit, is_float_char, take_while, digits_value, whole, with_sign, signed,
  all_taken, float_text, record_at, lf_record,
}

-- All bytes of a text pass a test.
abbrev pub all_pass : (ℕ → Bool) → Line → Bool
all_pass test [] = true
all_pass test (c ∷ s) = test c && all_pass test s

tenth_below : (n b : ℕ) → n < b * 10 → n / 10 < b
tenth_below n b h = omega (arith, h)

-- The digits of a small enough number are read as the number.
digits_value-digits :
    (fuel n : ℕ) (rest : Line)
    → n < 10 ^ fuel
    → digits_value 0 (digits fuel n rest) ≡ digits_value n rest
unfolding digits
digits_value-digits zero n rest h = ap (λ k. digits_value k rest) (omega (arith, h))
digits_value-digits (suc fuel) n rest h = elim (Bool-cases (ltb n 10)) [
  | inl e ↦ rw e (ap (λ k. digits_value k rest) (omega arith))
  | inr e ↦ rw e (
      digits_value-digits fuel (n / 10) ((b'0' + n % 10) ∷ rest)
        (tenth_below n (10 ^ fuel) (simp unary_clauses at h))
      ∙ ap (λ k. digits_value k rest) (omega arith))
]

digits_value-decimal : (n : ℕ) → n < 10 ^ 19 → digits_value 0 (decimal n) ≡ n
unfolding decimal
digits_value-decimal n h = digits_value-digits 19 n [] h

all_pass-digits :
    (fuel n : ℕ) (rest : Line)
    → all_pass is_digit rest ≡ true
    → all_pass is_digit (digits fuel n rest) ≡ true
unfolding digits
all_pass-digits zero n rest h = h
all_pass-digits (suc fuel) n rest h =
    let more = all_pass-digits fuel (n / 10) ((b'0' + n % 10) ∷ rest) (ground (arith, h)) in
    ground (arith, h, more)

-- What is taken from a text of which the first part passes.
take_while-append :
    (test : ℕ → Bool) (s rest : Line)
    → all_pass test s ≡ true
    → take_while test rest ≡ ([], rest)
    → take_while test (s ++ rest) ≡ (s, rest)
take_while-append test [] rest h e = e
take_while-append test (c ∷ s) rest h e =
    let (first, more) = both_true (test c) (all_pass test s) h in
    simp (first, take_while-append test s rest more e) refl

-- A text of digits in front of a space.
signed-digits :
    (c : ℕ) (s rest : Line)
    → all_pass is_digit (c ∷ s) ≡ true
    → signed ((c ∷ s) ++ (b' ' ∷ rest)) ≡ some (pos (digits_value 0 (c ∷ s)), b' ' ∷ rest)
signed-digits c s rest h =
    let (first, more) = both_true (is_digit c) (all_pass is_digit s) h in
    let no_sign : (c == b'-') ≡ false = ground (arith, first) in
    let taken = take_while-append is_digit (c ∷ s) (b' ' ∷ rest) h refl in
    simp no_sign (ap (λ x. with_sign false (whole x)) taken)

float_text-back :
    (c : ℕ) (s : Line) → all_pass is_float_char (c ∷ s) ≡ true → float_text (c ∷ s) ≡ some (c ∷ s)
float_text-back c s h =
    let taken : take_while is_float_char (c ∷ s) ≡ (c ∷ s, []) =
      ap (take_while is_float_char) (sym (append-nil (c ∷ s)))
      ∙ take_while-append is_float_char (c ∷ s) [] h refl in
    ap (λ x. all_taken x.0 (drop_spaces x.1)) taken

-- A text in front of which no space stands.
no_space : (c : ℕ) (s : Line) → is_space c ≡ false → drop_spaces (c ∷ s) ≡ c ∷ s
no_space c s h = rw h refl

digit_no_space : (c : ℕ) → is_digit c ≡ true → is_space c ≡ false
digit_no_space c h = ground (arith, h)

float_no_space : (c : ℕ) → is_float_char c ≡ true → is_space c ≡ false
float_no_space c h = ground (arith, h)

record_at-back :
    (c : ℕ) (s : Line) (x : ℕ) (text : Line)
    → all_pass is_digit (c ∷ s) ≡ true
    → all_pass is_float_char (x ∷ text) ≡ true
    → record_at ((c ∷ s) ++ (b' ' ∷ x ∷ text)) ≡ some (pos (digits_value 0 (c ∷ s)), x ∷ text)
unfolding record_at
record_at-back c s x text h k =
    let (first, _) = both_true (is_float_char x) (all_pass is_float_char text) k in
    simp
      (
        signed-digits c s (x ∷ text) h,
        no_space x text (float_no_space x first),
        float_text-back x text k,
      )
      refl

-- A number prints as a digit and digits behind it.
unfoldable pub IsNumberText : Line → Type 0
IsNumberText text = (c : ℕ) × (s : Line) × (text ≡ c ∷ s) × (all_pass is_digit (c ∷ s) ≡ true)

digits-IsNumberText :
    (fuel n c : ℕ) (rest : Line)
    → all_pass is_digit (c ∷ rest) ≡ true
    → IsNumberText (digits fuel n (c ∷ rest))
unfolding digits IsNumberText
digits-IsNumberText zero n c rest h = (c, rest, refl, h)
digits-IsNumberText (suc fuel) n c rest h = elim (Bool-cases (ltb n 10)) [
  | inl e ↦ rw e (b'0' + n, c ∷ rest, refl, ground (arith, e, h))
  | inr e ↦ rw e (digits-IsNumberText fuel (n / 10) (b'0' + n % 10) (c ∷ rest) (ground (arith, h)))
]

pub decimal-IsNumberText : (n : ℕ) → IsNumberText (decimal n)
unfolding decimal digits IsNumberText
decimal-IsNumberText n = elim (Bool-cases (ltb n 10)) [
  | inl e ↦ rw e (b'0' + n, [], refl, ground (arith, e))
  | inr e ↦ rw e (digits-IsNumberText 18 (n / 10) (b'0' + n % 10) [] (ground arith))
]

-- What the second pattern's float group takes whole.
abbrev pub IsFloatText : Line → Type 0
IsFloatText text = (x : ℕ) × (s : Line) × (text ≡ x ∷ s) × (all_pass is_float_char (x ∷ s) ≡ true)

record_line-back :
    (digits text : Line)
    → IsNumberText digits
    → IsFloatText text
    → lf_record (codes "LF_DATA " ++ (digits ++ (b' ' ∷ text)))
      ≡ some (pos (digits_value 0 digits), text)
unfolding lf_record IsNumberText
record_line-back digits text (c, s, e, h) (x, t, f, k) =
    let (first, _) = both_true (is_digit c) (all_pass is_digit s) h in
    let after = no_space c (s ++ (b' ' ∷ x ∷ t)) (digit_no_space c first) in
    rw (e, f) (ap record_at after ∙ record_at-back c s x t h k)

-- A record that is printed with a counter below 10^19 is read back.
pub lf_record-printed :
    (n : ℕ) (text : Line)
    → n < 10 ^ 19
    → IsFloatText text
    → lf_record (codes "LF_DATA " ++ (decimal n ++ (b' ' ∷ text))) ≡ some (pos n, text)
lf_record-printed n text h k =
    record_line-back (decimal n) text (decimal-IsNumberText n) k
    ∙ ap (λ z. some (pos z, text)) (digits_value-decimal n h)
