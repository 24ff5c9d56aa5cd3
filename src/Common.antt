-- ===== src/Common.antt =====
-- The names that the other modules share: the libraries', passed on, Boolean tests on numbers, and
-- lists measured by the native numbers.
mod Lists
pub use Lists.*
pub use Prim.Native.Nat.{ℕ, zero, suc, ◌+◌, ◌-◌, ◌*◌, ◌/◌, ◌%◌, ◌^◌, ◌≤◌, ◌<◌}
pub use mathlib.Core.Path.{◌≡◌, refl, sym, ap, ◌∙◌}
pub use mathlib.Core.Logic.{◌≢◌, ◌↔◌, ◌⊎◌, inl, inr}
pub use mathlib.Core.Bool.{Bool, true, false, not, ◌&&◌, ◌||◌}
pub use mathlib.Core.Option.{Option, none, some}
pub use mathlib.Core.List.{List, [], ◌∷◌, ◌++◌, map}
pub use native.Mathlib.Omega.{arith}
use Prim.Native.Nat.{compare, Ordering}

abbrev pub ltb : ℕ → ℕ → Bool
ltb a b = elim (compare a b) [ Ordering.lt ↦ true | _ ↦ false ]

abbrev pub leb : ℕ → ℕ → Bool
leb a b = elim (compare a b) [ Ordering.gt ↦ false | _ ↦ true ]

infix 50 ◌==◌
abbrev pub ◌==◌ : ℕ → ℕ → Bool
a == b = elim (compare a b) [ Ordering.eq ↦ true | _ ↦ false ]

infix 1 if◌then◌else◌
abbrev pub if◌then◌else◌ {ℓ} : {A : Type ℓ} → Bool → A → A → A
if true then x else y = x
if false then x else y = y

-- To split on a computed value and keep the equation.
pub Bool-cases : (b : Bool) → (b ≡ true) ⊎ (b ≡ false)
Bool-cases true = inl refl
Bool-cases false = inr refl

pub Option-cases {ℓ} : {A : Type ℓ} (o : Option A) → (o ≡ none) ⊎ ((a : A) × (o ≡ some a))
Option-cases none = inl refl
Option-cases (some a) = inr (a, refl)

-- `n` rounds of a loop whose body does not read the counter.
pub iterate {ℓ} : {S : Type ℓ} → ℕ → (S → S) → S → S
iterate zero body s = s
iterate (suc n) body s = iterate n body (body s)

-- What the body establishes whatever it starts from, and what it keeps, holds after one round or
-- more.
pub iterate_inv {ℓ κ} :
    {S : Type ℓ} (P Q : S → Type κ) (body : S → S)
    → ((s : S) → P s → P (body s) × Q (body s))
    → (n : ℕ) (s : S) → P s
    → 0 < n
    → P (iterate n body s) × Q (iterate n body s)
unfolding iterate
iterate_inv P Q body keep zero s p h = absurd (omega arith)
iterate_inv P Q body keep (suc zero) s p h = keep s p
iterate_inv P Q body keep (suc (suc n)) s p h =
    iterate_inv P Q body keep (suc n) (body s) (keep s p).0 (omega arith)
