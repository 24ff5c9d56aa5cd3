-- ===== src/Scripts/Records.antt =====
-- The records of fbw-lf/scripts/compare_fbw.py in a line: its two patterns, and the groups that they
-- take.
pub mod ReadBack
use lf_benchmarks.Common.{
  ◌≡◌, refl, ℕ, ◌+◌, ◌-◌, ◌*◌, Bool, true, false, ◌&&◌, ◌||◌, Option, none, some, [], ◌∷◌, leb,
  ◌==◌, if◌then◌else◌,
}
use lf_benchmarks.Int.{ℤ, pos, sub_ℕ}
use lf_benchmarks.Text.{codes}
use lf_benchmarks.Text.Words.{is_space}
use lf_benchmarks.Fbw.Nav.{Line}

infixl 5 ◌>>=◌
abbrev pub ◌>>=◌ {ℓ κ} : {A : Type ℓ} {B : Type κ} → Option A → (A → Option B) → Option B
none >>= f = none
some a >>= f = f a

pub bind_some : {A : Type 0} (o : Option A) → (o >>= some) ≡ o
bind_some none = refl
bind_some (some a) = refl

pub bind_ext :
    {A B : Type 0} (o : Option A) (f g : A → Option B)
    → ((a : A) → f a ≡ g a)
    → (o >>= f) ≡ (o >>= g)
bind_ext none f g h = refl
bind_ext (some a) f g h = h a

pub bind_assoc :
    {A B C : Type 0} (o : Option A) (f : A → Option B) (g : B → Option C)
    → (o >>= f >>= g) ≡ (o >>= (λ a. f a >>= g))
bind_assoc none f g = refl
bind_assoc (some a) f g = refl

-- `\s*`, `\d+` and `[-+0-9.eE]+`. What follows one of them in the patterns cannot match where it can go
-- on, so each takes as much as it can.
abbrev pub drop_spaces : Line → Line
drop_spaces [] = []
drop_spaces (c ∷ s) = if is_space c then drop_spaces s else c ∷ s

abbrev pub is_digit : ℕ → Bool
is_digit c = leb b'0' c && leb c b'9'

abbrev pub is_float_char : ℕ → Bool
is_float_char c = c == b'-' || c == b'+' || is_digit c || c == b'.' || c == b'e' || c == b'E'

abbrev pub take_while : (ℕ → Bool) → Line → Line × Line
take_while test [] = ([], [])
take_while test (c ∷ s) =
    let (taken, rest) = take_while test s in if test c then (c ∷ taken, rest) else ([], c ∷ s)

-- `\s+`
abbrev pub some_spaces : Line → Option Line
some_spaces [] = none
some_spaces (c ∷ s) = if is_space c then some (drop_spaces s) else none

-- A word, and at least one space.
abbrev pub after_word : Line → Line → Option Line
after_word [] s = some_spaces s
after_word (c ∷ w) [] = none
after_word (c ∷ w) (x ∷ s) = if x == c then after_word w s else none

-- `int` of decimal digits.
abbrev pub digits_value : ℕ → Line → ℕ
digits_value n [] = n
digits_value n (c ∷ s) = digits_value (n * 10 + (c - b'0')) s

-- `(-?\d+)` and `int` of it, with what follows. What was taken from a text is given with what is left.
abbrev pub whole : Line × Line → Option (ℕ × Line)
whole ([], rest) = none
whole (c ∷ digits, rest) = some (digits_value 0 (c ∷ digits), rest)

abbrev pub unsigned : Line → Option (ℕ × Line)
unsigned s = whole (take_while is_digit s)

abbrev pub with_sign : Bool → Option (ℕ × Line) → Option (ℤ × Line)
with_sign negative none = none
with_sign negative (some (n, rest)) = some (if negative then sub_ℕ 0 n else pos n, rest)

abbrev pub signed : Line → Option (ℤ × Line)
signed [] = none
signed (c ∷ s) =
    if c == b'-' then with_sign true (unsigned s) else with_sign false (unsigned (c ∷ s))

-- `([-+0-9.eE]+)\s*$`
abbrev pub all_taken : Line → Line → Option Line
all_taken (c ∷ chars) [] = some (c ∷ chars)
all_taken _ _ = none

abbrev pub float_text : Line → Option Line
float_text s = let (chars, rest) = take_while is_float_char s in all_taken chars (drop_spaces rest)

-- `(-?\d+)\s+([-+0-9.eE]+)\s*$`
unfoldable pub record_at : Line → Option (ℤ × Line)
record_at s = do
  (counter, rest) ← signed s
  behind ← some_spaces rest
  text ← float_text behind
  some (counter, text)

-- `c_pattern` and `lf_pattern`.
unfoldable pub c_record : Line → Option (ℤ × Line)
c_record line = record_at (drop_spaces line)

unfoldable pub lf_record : Line → Option (ℤ × Line)
lf_record line = do rest ← after_word (codes "LF_DATA") (drop_spaces line); record_at rest
