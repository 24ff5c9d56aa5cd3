-- ===== src/Scripts/Comparison/Rows/Sorted.antt =====
-- The sorted counters.
use lf_benchmarks.Common.{
  ◌≡◌, refl, ap, ◌∙◌, Bool, true, false, Bool-cases, ◌&&◌, ◌||◌, inl, inr, Option, none, some, List,
  [], ◌∷◌, All, arith,
}
use lf_benchmarks.Int.{eqb_sound, ℤ, ltb_ℤ, eqb_ℤ}
use lf_benchmarks.Scripts.Comparison.{Values, find}
use lf_benchmarks.Scripts.Comparison.Keys.{is_some}
use lf_benchmarks.Scripts.Comparison.Rows.{insert, sorted, if_found, intersection, common}

ltb_trans : (i j k : ℤ) → ltb_ℤ i j ≡ true → ltb_ℤ j k ≡ true → ltb_ℤ i k ≡ true
ltb_trans i j k h g = ground (arith, h, g)

ltb_total : (j k : ℤ) → ltb_ℤ k j ≡ false → eqb_ℤ j k ≡ false → ltb_ℤ j k ≡ true
ltb_total j k h g = ground (arith, h, g)

-- Each counter is below those behind it.
unfoldable pub IsAscending : List ℤ → Type 0
IsAscending [] = Unit
IsAscending (k ∷ ks) = All (λ j. ltb_ℤ k j ≡ true) ks × IsAscending ks

All-insert : (P : ℤ → Type 0) (k : ℤ) (ks : List ℤ) → P k → All P ks → All P (insert k ks)
unfolding insert
All-insert P k [] p h = (p, tt)
All-insert P k (j ∷ ks) p (q, h) = elim (Bool-cases (ltb_ℤ k j)) [
  | inl e ↦ rw e (p, (q, h))
  | inr e ↦ rw e (q, All-insert P k ks p h)
]

pub All-sorted : (P : ℤ → Type 0) (ks : List ℤ) → All P ks → All P (sorted ks)
unfolding sorted
All-sorted P [] h = tt
All-sorted P (k ∷ ks) (p, h) = All-insert P k (sorted ks) p (All-sorted P ks h)

All-map : (P Q : ℤ → Type 0) (ks : List ℤ) → ((k : ℤ) → P k → Q k) → All P ks → All Q ks
All-map P Q [] f h = tt
All-map P Q (k ∷ ks) f (p, h) = (f k p, All-map P Q ks f h)

insert-IsAscending :
    (k : ℤ) (ks : List ℤ)
    → All (λ j. eqb_ℤ j k ≡ false) ks
    → IsAscending ks
    → IsAscending (insert k ks)
unfolding insert IsAscending
insert-IsAscending k [] other h = (tt, tt)
insert-IsAscending k (j ∷ ks) (other, others) (above, h) = elim (Bool-cases (ltb_ℤ k j)) [
  | inl e ↦ rw e ((e, All-map _ _ ks (λ i. ltb_trans k j i e) above), (above, h))
  | inr e ↦ rw e (
    All-insert (λ i. ltb_ℤ j i ≡ true) k ks (ltb_total j k e other) above,
    insert-IsAscending k ks others h,
  )
]

-- No counter stands twice.
abbrev pub AreDistinct : List ℤ → Type 0
AreDistinct [] = Unit
AreDistinct (k ∷ ks) = All (λ j. eqb_ℤ j k ≡ false) ks × AreDistinct ks

sorted-IsAscending : (ks : List ℤ) → AreDistinct ks → IsAscending (sorted ks)
unfolding sorted IsAscending
sorted-IsAscending [] h = tt
sorted-IsAscending (k ∷ ks) (other, h) =
    insert-IsAscending k (sorted ks) (All-sorted (λ j. eqb_ℤ j k ≡ false) ks other)
      (sorted-IsAscending ks h)

-- Whether a counter stands in a list.
unfoldable pub elem : ℤ → List ℤ → Bool
elem k [] = false
elem k (j ∷ ks) = eqb_ℤ j k || elem k ks

elem-insert : (k i : ℤ) (ks : List ℤ) → elem k (insert i ks) ≡ eqb_ℤ i k || elem k ks
unfolding insert elem
elem-insert k i [] = refl
elem-insert k i (j ∷ ks) = ground (arith, elem-insert k i ks)

elem-sorted : (k : ℤ) (ks : List ℤ) → elem k (sorted ks) ≡ elem k ks
unfolding sorted elem
elem-sorted k [] = refl
elem-sorted k (j ∷ ks) = elem-insert k j (sorted ks) ∙ ap (λ b. eqb_ℤ j k || b) (elem-sorted k ks)

module _ {F : Type 0} where
  -- No counter is a key twice.
  abbrev pub IsDict : Values F → Type 0
  IsDict [] = Unit
  IsDict ((k, _) ∷ m) = (find m k ≡ none) × IsDict m

  intersection-other :
      (m lf : Values F) (k : ℤ) → find m k ≡ none → All (λ j. eqb_ℤ j k ≡ false) (intersection m lf)
  unfolding intersection
  intersection-other [] lf k h = tt
  intersection-other ((j, v) ∷ m) lf k h = elim (Bool-cases (eqb_ℤ j k)) [
    | inl e ↦ absurd (cc (rw e at h))
    | inr e ↦ here (find lf j) e (intersection-other m lf k (rw e at h))
  ]
    where
      here :
          (o : Option F)
          → eqb_ℤ j k ≡ false
          → All (λ i. eqb_ℤ i k ≡ false) (intersection m lf)
          → All (λ i. eqb_ℤ i k ≡ false) (if_found o j (intersection m lf))
      here none e rest = rest
      here (some u) e rest = (e, rest)

  intersection-AreDistinct : (m lf : Values F) → IsDict m → AreDistinct (intersection m lf)
  unfolding intersection
  intersection-AreDistinct [] lf h = tt
  intersection-AreDistinct ((k, v) ∷ m) lf (new, h) =
      here (find lf k) (intersection-AreDistinct m lf h)
    where
      here :
          (o : Option F)
          → AreDistinct (intersection m lf)
          → AreDistinct (if_found o k (intersection m lf))
      here none rest = rest
      here (some u) rest = (intersection-other m lf k new, rest)

  pub common-IsAscending : (c lf : Values F) → IsDict c → IsAscending (common c lf)
  unfolding common
  common-IsAscending c lf h =
      sorted-IsAscending (intersection c lf) (intersection-AreDistinct c lf h)

  elem-if_found :
      (o : Option F) (j k : ℤ) (ks : List ℤ)
      → elem k (if_found o j ks) ≡ (is_some o && eqb_ℤ j k) || elem k ks
  unfolding elem
  elem-if_found none j k ks = refl
  elem-if_found (some v) j k ks = refl

  elem-intersection :
      (m lf : Values F) (k : ℤ)
      → elem k (intersection m lf) ≡ is_some (find m k) && is_some (find lf k)
  unfolding elem intersection
  elem-intersection [] lf k = refl
  elem-intersection ((j, v) ∷ m) lf k =
      elem-if_found (find lf j) j k (intersection m lf)
      ∙ (ap (λ b. (is_some (find lf j) && eqb_ℤ j k) || b) (elem-intersection m lf k)
          ∙ elim (Bool-cases (eqb_ℤ j k)) [
            | inl e ↦
                let same = ap (λ i. is_some (find lf i)) (eqb_sound j k e) in
                rw (e, same) (ground arith)
            | inr e ↦ rw e (ground arith)
          ])

  pub elem-common :
      (c lf : Values F) (k : ℤ) → elem k (common c lf) ≡ is_some (find c k) && is_some (find lf k)
  unfolding common
  elem-common c lf k = elem-sorted k (intersection c lf) ∙ elem-intersection c lf k
