-- ===== src/Scripts/Comparison/Keys.antt =====
-- The counters of a log: looking one up, and tests of all of them.
use lf_benchmarks.Common.{
  ◌≡◌, ◌≢◌, ◌↔◌, ◌⊎◌, inl, inr, refl, sym, ap, ◌∙◌, Bool, true, false, Bool-cases, ◌&&◌, Option,
  none, some, List, [], ◌∷◌, arith,
}
use lf_benchmarks.Int.{eqb_sound, ℤ, eqb_ℤ, eqb_refl}
use lf_benchmarks.Text.{both_true}
use lf_benchmarks.Scripts.Comparison.{Values, put, find, unless_found, only_in, is_nil}

differs : (i j k : ℤ) → eqb_ℤ i j ≡ true → eqb_ℤ j k ≡ false → eqb_ℤ i k ≡ false
differs i j k e f = ground arith

module _ {F : Type 0} where
  -- A dictionary has a counter.
  abbrev pub Has : Values F → ℤ → Type 0
  Has m k = find m k ≢ none

  pub find-put_same : (k : ℤ) (v : F) (m : Values F) → find (put k v m) k ≡ some v
  find-put_same k v [] = rw (eqb_refl k) refl
  find-put_same k v ((j, u) ∷ m) = elim (Bool-cases (eqb_ℤ j k)) [
    | inl e ↦ simp e refl
    | inr e ↦ simp e (find-put_same k v m)
  ]

  pub find-put_other :
      (j k : ℤ) (v : F) (m : Values F) → eqb_ℤ j k ≡ false → find (put j v m) k ≡ find m k
  find-put_other j k v [] e = rw e refl
  find-put_other j k v ((i, u) ∷ m) e = elim (Bool-cases (eqb_ℤ i j)) [
    | inl f ↦ simp (f, differs i j k f e) refl
    | inr f ↦ elim (Bool-cases (eqb_ℤ i k)) [
      | inl g ↦ simp (f, g) refl
      | inr g ↦ simp (f, g) (find-put_other j k v m e)
    ]
  ]

  found_here : (j : ℤ) (u : F) (m : Values F) → Has ((j, u) ∷ m) j
  found_here j u m = rw (eqb_refl j) (λ e. absurd cc)

  found_later : (j k : ℤ) (u : F) (m : Values F) → Has m k → Has ((j, u) ∷ m) k
  found_later j k u m h = elim (Bool-cases (eqb_ℤ j k)) [
    | inl e ↦ rw e (λ f. absurd cc)
    | inr e ↦ rw e h
  ]

  -- Where a counter is found: it is the first, or among the others.
  found_cases : (j k : ℤ) (u : F) (m : Values F) → Has ((j, u) ∷ m) k → (j ≡ k) ⊎ Has m k
  found_cases j k u m h = elim (Bool-cases (eqb_ℤ j k)) [
    | inl e ↦ inl (eqb_sound j k e)
    | inr e ↦ inr (rw e at h)
  ]

  -- A test holds at every counter.
  unfoldable pub all_keys : (ℤ → Bool) → Values F → Bool
  all_keys test [] = true
  all_keys test ((k, _) ∷ m) = test k && all_keys test m

  pub all_keys_iff :
      (test : ℤ → Bool) (m : Values F)
      → (all_keys test m ≡ true) ↔ ((k : ℤ) → Has m k → test k ≡ true)
  unfolding all_keys
  all_keys_iff test [] = (λ e k h. absurd (h refl), λ h. refl)
  all_keys_iff test ((j, u) ∷ m) =
      let (to, back) = all_keys_iff test m in
      (
        λ e k h.
            let (first, rest) = both_true (test j) (all_keys test m) e in
            elim (found_cases j k u m h) [
              | inl same ↦ ap test (sym same) ∙ first
              | inr later ↦ to rest k later
            ],
        λ h.
            let rest = back (λ k g. h k (found_later j k u m g)) in
            simp (h j (found_here j u m), rest) refl,
      )

  abbrev pub is_some : Option F → Bool
  is_some none = false
  is_some (some a) = true

  nil_unless_found :
      (o : Option F) (k : ℤ) (rest : List ℤ)
      → is_nil (unless_found o k rest) ≡ is_some o && is_nil rest
  nil_unless_found none k rest = refl
  nil_unless_found (some v) k rest = refl

  pub only_in-all_keys :
      (m other : Values F) → is_nil (only_in m other) ≡ all_keys (λ k. is_some (find other k)) m
  unfolding only_in all_keys
  only_in-all_keys [] other = refl
  only_in-all_keys ((j, u) ∷ m) other =
      nil_unless_found (find other j) j (only_in m other)
      ∙ ap (λ b. is_some (find other j) && b) (only_in-all_keys m other)
