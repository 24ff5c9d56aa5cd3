-- ===== src/Double/Defs.antt =====
-- What the program does with a `double`, and the facts of IEEE 754 that theorems assume.
use lf_benchmarks.Common.{ℕ, ◌≡◌, Bool, true, false, ◌&&◌}
use lf_benchmarks.Int.{ℤ}

pub record Double (F : Type 0) : Type 0 where
  -- `lit m e` is what the literal m * 10^-e denotes.
  pub lit : ℕ → ℕ → F
  pub neg : F → F
  pub add : F → F → F
  pub sub : F → F → F
  pub mul : F → F → F
  pub div : F → F → F
  pub lt : F → F → Bool
  pub le : F → F → Bool
  pub eq : F → F → Bool
  pub of_int : ℤ → F
  -- `(int)round(x)`
  pub round_int : F → ℤ
  pub sin : F → F
  pub cos : F → F
  pub sqrt : F → F
  pub pow : F → F → F
  pub atan2 : F → F → F

-- `<` is irreflexive, the literal `m` is neither below zero nor `-m` above it, literals are numbers,
-- and of two numbers the one that is not below is `>=`. What is not NaN equals itself.
pub record IsOrdered {F : Type 0} (d : Double F) : Type 0 where
  pub lt_irrefl : (x : F) → d.lt x x ≡ false
  pub lit_nonneg : (m e : ℕ) → d.lt (d.lit m e) (d.lit 0 0) ≡ false
  pub neg_nonpos : (m e : ℕ) → d.lt (d.lit 0 0) (d.neg (d.lit m e)) ≡ false
  pub lit_above : (m e : ℕ) → d.lt (d.lit m e) (d.neg (d.lit m e)) ≡ false
  pub lit_number : (m e : ℕ) → d.eq (d.lit m e) (d.lit m e) ≡ true
  pub neg_number : (m e : ℕ) → d.eq (d.neg (d.lit m e)) (d.neg (d.lit m e)) ≡ true
  pub not_lt : (x y : F) → d.eq x x ≡ true → d.eq y y ≡ true → d.lt x y ≡ false → d.le y x ≡ true

-- `==` is symmetric and transitive. It is not reflexive: NaN differs from itself.
pub record IsComparable {F : Type 0} (d : Double F) : Type 0 where
  pub eq_symm : (x y : F) → d.eq x y ≡ d.eq y x
  pub eq_trans : (x y z : F) → d.eq x y ≡ true → d.eq y z ≡ true → d.eq x z ≡ true

-- The negative zero, and what adding to the positive one does: it changes a sum only if both of its
-- terms are negative zeros.
pub record NegativeZero {F : Type 0} (d : Double F) : Type 0 where
  pub is_neg_zero : F → Bool
  pub zero_add :
      (a b : F) → is_neg_zero a && is_neg_zero b ≡ false → d.add (d.add (d.lit 0 0) a) b ≡ d.add a b
