-- ===== src/Double/Fixed.antt =====
-- A concrete `double` for the examples: whole millionths, with NaN, and no trigonometry.
use lf_benchmarks.Common.{
  ◌≡◌, refl, ap, Bool, true, false, not, ◌*◌, ◌/◌, ◌^◌, Option, none, some, arith, if◌then◌else◌,
}
use lf_benchmarks.Int.{ℤ, pos, ◌+ℤ◌, ◌-ℤ◌, ◌*ℤ◌, ◌/ℤ◌, ltb_ℤ, eqb_ℤ}
use lf_benchmarks.Double.Defs.{Double, IsOrdered, IsComparable}

abbrev pub Micro : Type 0
Micro = Option ℤ

abbrev million : ℤ
million = pos 1_000_000

abbrev lift1 : (ℤ → ℤ) → Micro → Micro
lift1 f (some a) = some (f a)
lift1 f none = none

abbrev lift2 : (ℤ → ℤ → ℤ) → Micro → Micro → Micro
lift2 f (some a) (some b) = some (f a b)
lift2 f _ _ = none

abbrev test2 : (ℤ → ℤ → Bool) → Micro → Micro → Bool
test2 f (some a) (some b) = f a b
test2 f _ _ = false

abbrev nearest : Micro → ℤ
nearest (some a) = ◌/ℤ◌ (if ltb_ℤ a (pos 0) then a -ℤ pos 500_000 else a +ℤ pos 500_000) million
nearest none = pos 0

abbrev pub fixed : Double Micro
fixed = record {
  lit = λ m e. some (pos (m * 10 ^ 6 / 10 ^ e));
  neg = lift1 (λ a. pos 0 -ℤ a);
  add = lift2 ◌+ℤ◌;
  sub = lift2 ◌-ℤ◌;
  mul = lift2 (λ a b. ◌/ℤ◌ (a *ℤ b) million);
  div = lift2 (λ a b. ◌/ℤ◌ (a *ℤ million) b);
  lt = test2 ltb_ℤ;
  le = test2 (λ a b. not (ltb_ℤ b a));
  eq = test2 eqb_ℤ;
  of_int = λ a. some (a *ℤ million);
  round_int = nearest;
  sin = λ a. a;
  cos = λ a. a;
  sqrt = λ a. a;
  pow = λ a b. a;
  atan2 = λ a b. a;
}

ltb_ℤ_irrefl : (a : Micro) → test2 ltb_ℤ a a ≡ false
ltb_ℤ_irrefl none = refl
ltb_ℤ_irrefl (some a) = ground arith

not_ltb :
    (a b : Micro)
    → test2 ltb_ℤ a b ≡ false
    → fixed.eq a a ≡ true
    → fixed.eq b b ≡ true
    → fixed.le b a ≡ true
not_ltb none b h e f = absurd cc
not_ltb (some a) none h e f = absurd cc
not_ltb (some a) (some b) h e f = ap not h

pub fixed-IsOrdered : IsOrdered fixed
fixed-IsOrdered = record {
  lt_irrefl = ltb_ℤ_irrefl;
  lit_nonneg = λ m e. ground arith;
  neg_nonpos = λ m e. ground arith;
  lit_above = λ m e. ground arith;
  lit_number = λ m e. ground arith;
  neg_number = λ m e. ground arith;
  not_lt = λ a b e f h. not_ltb a b h e f;
}

eqb_symm : (x y : Micro) → test2 eqb_ℤ x y ≡ test2 eqb_ℤ y x
eqb_symm x y = ground arith

eqb_trans :
    (x y z : Micro) → test2 eqb_ℤ x y ≡ true → test2 eqb_ℤ y z ≡ true → test2 eqb_ℤ x z ≡ true
eqb_trans x y z p q = ground arith

pub fixed-IsComparable : IsComparable fixed
fixed-IsComparable = record { eq_symm = eqb_symm; eq_trans = eqb_trans }
