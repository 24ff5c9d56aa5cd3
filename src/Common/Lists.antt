-- ===== src/Common/Lists.antt =====
-- Lists measured and indexed by the native numbers.
use Prim.Native.Nat.{ℕ, zero, suc, ◌+◌, ◌≤◌}
use mathlib.Core.Path.{◌≡◌, refl, ap}
use mathlib.Core.List.{List, [], ◌∷◌, ◌++◌}
use mathlib.Core.Option.{Option, none, some}
use native.Mathlib.Omega.{arith}

module _ {ℓ} {A : Type ℓ} where
  abbrev pub length : List A → ℕ
  length [] = 0
  length (x ∷ xs) = suc (length xs)

  abbrev pub get_elem? : List A → ℕ → Option A
  get_elem? [] i = none
  get_elem? (x ∷ xs) zero = some x
  get_elem? (x ∷ xs) (suc i) = get_elem? xs i

  abbrev pub get_or : List A → ℕ → A → A
  get_or [] i d = d
  get_or (x ∷ xs) zero d = x
  get_or (x ∷ xs) (suc i) d = get_or xs i d

  -- A write out of bounds changes nothing.
  abbrev pub set : List A → ℕ → A → List A
  set [] i v = []
  set (x ∷ xs) zero v = v ∷ xs
  set (x ∷ xs) (suc i) v = x ∷ set xs i v

  abbrev pub take : ℕ → List A → List A
  take zero xs = []
  take (suc n) [] = []
  take (suc n) (x ∷ xs) = x ∷ take n xs

  abbrev pub replicate : ℕ → A → List A
  replicate zero a = []
  replicate (suc n) a = a ∷ replicate n a

  abbrev pub All {κ} : (A → Type κ) → List A → Type κ
  All P [] = Unit
  All P (x ∷ xs) = P x × All P xs

module _ {ℓ} {A : Type ℓ} where
  pub length-append : (xs ys : List A) → length (xs ++ ys) ≡ length xs + length ys
  length-append [] ys = omega arith
  length-append (x ∷ xs) ys = omega (arith, length-append xs ys)

  pub length-set : (xs : List A) (i : ℕ) (v : A) → length (set xs i v) ≡ length xs
  length-set [] i v = refl
  length-set (x ∷ xs) zero v = refl
  length-set (x ∷ xs) (suc i) v = ap suc (length-set xs i v)

  pub length-replicate : (n : ℕ) (a : A) → length (replicate n a) ≡ n
  length-replicate zero a = refl
  length-replicate (suc n) a = ap suc (length-replicate n a)

module _ {ℓ κ} {A : Type ℓ} (P : A → Type κ) where
  pub All-append : (xs ys : List A) → All P xs → All P ys → All P (xs ++ ys)
  All-append [] ys p q = q
  All-append (x ∷ xs) ys (p, ps) q = (p, All-append xs ys ps q)

  pub All-replicate : (n : ℕ) (a : A) → P a → All P (replicate n a)
  All-replicate zero a p = tt
  All-replicate (suc n) a p = (p, All-replicate n a p)

  pub All-get_or : (xs : List A) (i : ℕ) (d : A) → All P xs → P d → P (get_or xs i d)
  All-get_or [] i d ps p = p
  All-get_or (x ∷ xs) zero d ps p = ps.0
  All-get_or (x ∷ xs) (suc i) d ps p = All-get_or xs i d ps.1 p

  -- `P` of the first `k` elements.
  abbrev pub AllBelow : ℕ → List A → Type κ
  AllBelow zero xs = Unit
  AllBelow (suc k) [] = Unit
  AllBelow (suc k) (x ∷ xs) = P x × AllBelow k xs

  pub AllBelow-set :
      (k : ℕ) (xs : List A) (v : A) → AllBelow k xs → P v → AllBelow (suc k) (set xs k v)
  AllBelow-set zero [] v b p = tt
  AllBelow-set zero (x ∷ xs) v b p = (p, tt)
  AllBelow-set (suc k) [] v b p = tt
  AllBelow-set (suc k) (x ∷ xs) v (q, b) p = (q, AllBelow-set k xs v b p)

  pub All-AllBelow : (k : ℕ) (xs : List A) → length xs ≤ k → AllBelow k xs → All P xs
  All-AllBelow zero [] h b = tt
  All-AllBelow zero (x ∷ xs) h b = absurd (omega arith)
  All-AllBelow (suc k) [] h b = tt
  All-AllBelow (suc k) (x ∷ xs) h (p, b) = (p, All-AllBelow k xs (omega arith) b)
