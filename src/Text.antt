-- ===== src/Text.antt =====
-- Text in bytes, as the programs print it.
pub mod Words
use Prim.Native.Char.{code}
use Prim.Native.String.{String}
use lf_benchmarks.Common.{
  ℕ, zero, suc, ◌+◌, ◌/◌, ◌%◌, ◌≡◌, refl, Bool, true, false, not, ◌&&◌, Bool-cases, inl, inr, List,
  [], ◌∷◌, ◌++◌, arith, ltb, ◌==◌, if◌then◌else◌,
}
use lf_benchmarks.Int.{ℤ, pos, negsuc}

abbrev pub codes : String → List ℕ
codes String.[] = []
codes (String.◌∷◌ c s) = code c ∷ codes s

-- The digits of a number in front of a text; `fuel` bounds how many there are.
unfoldable pub digits : (fuel n : ℕ) → List ℕ → List ℕ
digits zero n rest = rest
digits (suc fuel) n rest =
    let more = digits fuel (n / 10) ((b'0' + n % 10) ∷ rest) in
    if ltb n 10 then (b'0' + n) ∷ rest else more

-- `%lld` of a number that is not negative. Below `2 ^ 63` nineteen digits are enough.
unfoldable pub decimal : ℕ → List ℕ
unfolding digits
decimal n = digits 19 n []

-- `%d`
abbrev pub decimal_int : ℤ → List ℕ
decimal_int (pos n) = decimal n
decimal_int (negsuc n) = b'-' ∷ decimal (suc n)

-- Whether a byte does not occur.
abbrev pub lacks : ℕ → List ℕ → Bool
lacks c [] = true
lacks c (x ∷ s) = not (x == c) && lacks c s

pub both_true : (a b : Bool) → a && b ≡ true → (a ≡ true) × (b ≡ true)
both_true a b h = ground arith

pub lacks-append :
    (c : ℕ) (s t : List ℕ) → lacks c s ≡ true → lacks c t ≡ true → lacks c (s ++ t) ≡ true
lacks-append c [] t h k = k
lacks-append c (x ∷ s) t h k =
    let (first, rest) = both_true (not (x == c)) (lacks c s) h in
    simp (first, lacks-append c s t rest k) refl

lacks-digits :
    (c fuel n : ℕ) (rest : List ℕ)
    → ltb b'9' c ≡ true
    → lacks c rest ≡ true
    → lacks c (digits fuel n rest) ≡ true
unfolding digits
lacks-digits c zero n rest h k = k
lacks-digits c (suc fuel) n rest h k =
    let more = lacks-digits c fuel (n / 10) ((b'0' + n % 10) ∷ rest) h (ground (arith, k)) in
    ground (arith, k, more)

-- Only digits are printed, which are not above '9'.
pub lacks-decimal : (c n : ℕ) → ltb b'9' c ≡ true → lacks c (decimal n) ≡ true
unfolding decimal
lacks-decimal c n h = lacks-digits c 19 n [] h refl

pub lacks-decimal_int : (c : ℕ) (n : ℤ) → ltb b'9' c ≡ true → lacks c (decimal_int n) ≡ true
lacks-decimal_int c (pos n) h = lacks-decimal c n h
lacks-decimal_int c (negsuc n) h = ground (arith, lacks-decimal c (suc n) h)
