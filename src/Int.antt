-- ===== src/Int.antt =====
-- The C type `int` where no operation of the program leaves its range: integers over the native
-- numbers.
use lf_benchmarks.Common.{
  ℕ, suc, ◌+◌, ◌-◌, ◌*◌, ◌/◌, Bool, true, false, ◌≡◌, arith, ltb, leb, ◌==◌, if◌then◌else◌,
}

-- `negsuc n` is -(n + 1).
pub data ℤ : Type 0 where
  pos : ℕ → ℤ
  negsuc : ℕ → ℤ

abbrev pub pos_part : ℤ → ℕ
pos_part (pos n) = n
pos_part (negsuc n) = 0

abbrev pub neg_part : ℤ → ℕ
neg_part (pos n) = 0
neg_part (negsuc n) = suc n

-- a - b, as an integer.
abbrev pub sub_ℕ : ℕ → ℕ → ℤ
sub_ℕ a b = if leb b a then pos (a - b) else negsuc (b - a - 1)

infixl 65 ◌+ℤ◌ ◌-ℤ◌
infixl 70 ◌*ℤ◌
abbrev pub ◌+ℤ◌ : ℤ → ℤ → ℤ
a +ℤ b = sub_ℕ (pos_part a + pos_part b) (neg_part a + neg_part b)

abbrev pub ◌-ℤ◌ : ℤ → ℤ → ℤ
a -ℤ b = sub_ℕ (pos_part a + neg_part b) (neg_part a + pos_part b)

abbrev pub ◌*ℤ◌ : ℤ → ℤ → ℤ
a *ℤ b =
    sub_ℕ (pos_part a * pos_part b + neg_part a * neg_part b)
      (pos_part a * neg_part b + neg_part a * pos_part b)

-- Towards zero, as in C; by zero it gives zero here.
abbrev pub ◌/ℤ◌ : ℤ → ℤ → ℤ
◌/ℤ◌ a b =
    sub_ℕ ((pos_part a / pos_part b) + (neg_part a / neg_part b))
      ((pos_part a / neg_part b) + (neg_part a / pos_part b))

abbrev pub ltb_ℤ : ℤ → ℤ → Bool
ltb_ℤ a b = ltb (pos_part a + neg_part b) (pos_part b + neg_part a)

abbrev pub eqb_ℤ : ℤ → ℤ → Bool
eqb_ℤ (pos a) (pos b) = a == b
eqb_ℤ (negsuc a) (negsuc b) = a == b
eqb_ℤ _ _ = false

pub eqb_refl : (a : ℤ) → eqb_ℤ a a ≡ true
eqb_refl a = ground arith

pub eqb_symm : (a b : ℤ) → eqb_ℤ a b ≡ eqb_ℤ b a
eqb_symm a b = ground arith

pub eqb_trans : (a b c : ℤ) → eqb_ℤ a b ≡ true → eqb_ℤ b c ≡ true → eqb_ℤ a c ≡ true
eqb_trans a b c p q = ground arith

pub eqb_sound : (a b : ℤ) → eqb_ℤ a b ≡ true → a ≡ b
eqb_sound a b h = ground arith
