-- ===== src/Reactors/Loop/Order.antt =====
-- Which reaction an execution goes on with.
use lf_benchmarks.Common.{
  not, ◌≤◌, ◌≡◌, ◌↔◌, refl, refl, sym, Bool, true, false, Bool-cases, ◌&&◌, ◌||◌, ◌⊎◌, inl, inr,
  List, [], ◌∷◌, ltb, leb, arith,
}
use std.Path.{fun_ext, subst}
use lf_benchmarks.Double.{Double}
use lf_benchmarks.Reactors.Types.{ReactionId}
use lf_benchmarks.Reactors.Main.{Program}
use lf_benchmarks.Reactors.Runtime.{same_reaction, is_in, level, after, call, Executes}

-- The reactions of a list as a set of enabled ones.
abbrev pub among : List ReactionId → ReactionId → Bool
among rs r = is_in r rs

pub same_reaction-eq : (r s : ReactionId) → same_reaction r s ≡ true → r ≡ s
same_reaction-eq r s h = ground arith

pub same_reaction_refl : (r : ReactionId) → same_reaction r r ≡ true
same_reaction_refl r = ground arith

abbrev same_bool : Bool → Bool → Bool
same_bool true b = b
same_bool false b = not b

same_bool-eq : (a b : Bool) → same_bool a b ≡ true → a ≡ b
same_bool-eq true b h = sym h
same_bool-eq false true h = ground arith
same_bool-eq false false h = refl

abbrev every_reaction : List ReactionId
every_reaction =
    ReactionId.reference_0 ∷ ReactionId.reference_1 ∷ ReactionId.reference_2 ∷ ReactionId.plant_0
    ∷ ReactionId.plant_1 ∷ ReactionId.optimizer_0 ∷ ReactionId.optimizer_1 ∷ []

every_reaction-is_in : (r : ReactionId) → is_in r every_reaction ≡ true
every_reaction-is_in r = ground arith

abbrev exactly_on : List ReactionId → (ReactionId → Bool) → List ReactionId → Bool
exactly_on [] e rs = true
exactly_on (r ∷ l) e rs = same_bool (e r) (among rs r) && exactly_on l e rs

-- The reactions of the list, and no other ones, are enabled.
abbrev pub exactly : (ReactionId → Bool) → List ReactionId → Bool
exactly e rs = exactly_on every_reaction e rs

and_both : (a b : Bool) → (a && b) ≡ true → (a ≡ true) × (b ≡ true)
and_both a b h = ground arith

exactly_on-at :
    (l : List ReactionId) (e : ReactionId → Bool) (rs : List ReactionId)
    → exactly_on l e rs ≡ true
    → (r : ReactionId) → is_in r l ≡ true
    → e r ≡ among rs r
exactly_on-at [] e rs h r i = ground arith
exactly_on-at (a ∷ l) e rs h r i = elim (Bool-cases (same_reaction r a)) [
  | inl f ↦ rw (same_reaction-eq r a f) (same_bool-eq _ _ (and_both _ _ h).0)
  | inr f ↦ exactly_on-at l e rs (and_both _ _ h).1 r (ground arith)
]

pub exactly-among :
    (e : ReactionId → Bool) (rs : List ReactionId) → exactly e rs ≡ true → e ≡ among rs
exactly-among e rs h = fun_ext (λ r. exactly_on-at every_reaction e rs h r (every_reaction-is_in r))

module _ {F : Type 0} ⦃d : Double F⦄ where
  -- No reaction of the list is on a lower level than `r`.
  abbrev pub is_lowest : Program F → ReactionId → List ReactionId → Bool
  is_lowest p r [] = true
  is_lowest p r (s ∷ rs) = leb (level p r) (level p s) && is_lowest p r rs

  -- No other reaction of the list is on its level either.
  abbrev pub is_alone : Program F → ReactionId → List ReactionId → Bool
  is_alone p r [] = true
  is_alone p r (s ∷ rs) = (same_reaction s r || ltb (level p r) (level p s)) && is_alone p r rs

  is_lowest-leq :
      (p : Program F) (r : ReactionId) (rs : List ReactionId)
      → is_lowest p r rs ≡ true
      → (s : ReactionId) → is_in s rs ≡ true
      → level p r ≤ level p s
  is_lowest-leq p r [] l s h = ground arith
  is_lowest-leq p r (a ∷ rs) l s h = elim (Bool-cases (same_reaction s a)) [
    | inl e ↦ rw (same_reaction-eq s a e) (ground arith)
    | inr e ↦ is_lowest-leq p r rs (and_both _ _ l).1 s (ground arith)
  ]

  is_alone-same :
      (p : Program F) (r : ReactionId) (rs : List ReactionId)
      → is_alone p r rs ≡ true
      → (s : ReactionId) → is_in s rs ≡ true
      → level p s ≤ level p r
      → s ≡ r
  is_alone-same p r [] l s h e = ground arith
  is_alone-same p r (a ∷ rs) l s h e = elim (Bool-cases (same_reaction s a)) [
    | inl f ↦
        let here : (same_reaction s r || ltb (level p r) (level p s)) ≡ true =
          rw (same_reaction-eq s a f) (and_both _ _ l).0 in
        same_reaction-eq s r (ground arith)
    | inr f ↦ is_alone-same p r rs (and_both _ _ l).1 s (ground arith) e
  ]

  -- An execution may go on with an enabled reaction of the lowest level.
  pub fire_lowest :
      {missed : Bool} {p q : Program F} (r : ReactionId) (rs rest : List ReactionId)
      → is_in r rs ≡ true
      → is_lowest p r rs ≡ true
      → exactly (after r (call missed r p) (among rs)) rest ≡ true
      → Executes missed (among rest) (call missed r p) q
      → Executes missed (among rs) p q
  fire_lowest {missed} {p} {q} r rs rest h l e run =
      Executes.fire r h (is_lowest-leq p r rs l)
        (subst (λ f. Executes missed f (call missed r p) q) (sym (exactly-among _ rest e)) run)

  -- An execution goes on with the reaction that is alone on the lowest level.
  pub fires_alone :
      {missed : Bool} {p q : Program F} (r : ReactionId) (rs rest : List ReactionId)
      → is_in r rs ≡ true
      → is_alone p r rs ≡ true
      → exactly (after r (call missed r p) (among rs)) rest ≡ true
      → Executes missed (among rs) p q
      → Executes missed (among rest) (call missed r p) q
  fires_alone {missed} {p} {q} r rs rest h l e (Executes.finish none_is) =
      absurd (ground (arith, none_is r))
  fires_alone {missed} {p} {q} r rs rest h l e (Executes.fire s g least run) =
      let same = is_alone-same p r rs l s g (least r h) in
      subst (λ f. Executes missed f (call missed r p) q) (exactly-among _ rest e)
        (subst (λ z. Executes missed (after z (call missed z p) (among rs)) (call missed z p) q)
          same run)

  -- So the executions are those from there.
  pub stage :
      {missed : Bool} {p q : Program F} (r : ReactionId) (rs rest : List ReactionId)
      (p' : Program F)
      → call missed r p ≡ p'
      → is_in r rs ≡ true
      → is_alone p r rs ≡ true
      → is_lowest p r rs ≡ true
      → exactly (after r p' (among rs)) rest ≡ true
      → Executes missed (among rs) p q ↔ Executes missed (among rest) p' q
  stage {missed} {p} {q} r rs rest p' c h alone lowest e =
      subst
        (λ z.
          exactly (after r z (among rs)) rest ≡ true
          → Executes missed (among rs) p q ↔ Executes missed (among rest) z q)
        c (λ f. (fires_alone r rs rest h alone f, fire_lowest r rs rest h lowest f)) e

  -- When two are enabled, an execution goes on with either.
  pub first_of_two :
      {missed : Bool} {p q : Program F} (r s : ReactionId) (after_r after_s : List ReactionId)
      → exactly (after r (call missed r p) (among (r ∷ s ∷ []))) after_r ≡ true
      → exactly (after s (call missed s p) (among (r ∷ s ∷ []))) after_s ≡ true
      → Executes missed (among (r ∷ s ∷ [])) p q
      → Executes missed (among after_r) (call missed r p) q
        ⊎ Executes missed (among after_s) (call missed s p) q
  first_of_two r s after_r after_s e f (Executes.finish none_is) =
      absurd (ground (arith, none_is r, same_reaction_refl r))
  first_of_two {missed} {p} {q} r s after_r after_s e f (Executes.fire a h least run) =
      let rs = r ∷ s ∷ [] in
      let run_as : (z : ReactionId)
          → a ≡ z
          → Executes missed (after z (call missed z p) (among rs)) (call missed z p) q =
        λ z g.
          subst (λ y. Executes missed (after y (call missed y p) (among rs)) (call missed y p) q) g
            run in
      elim (Bool-cases (same_reaction a r)) [
        | inl g ↦ inl (
            subst (λ k. Executes missed k (call missed r p) q) (exactly-among _ after_r e)
              (run_as r (same_reaction-eq a r g)))
        | inr g ↦ inr (
            subst (λ k. Executes missed k (call missed s p) q) (exactly-among _ after_s f)
              (run_as s (same_reaction-eq a s (ground arith))))
      ]

  stop-only : {missed : Bool} {p q : Program F} → Executes missed (among []) p q → q ≡ p
  stop-only (Executes.finish e) = refl
  stop-only (Executes.fire r e least run) = absurd (ground arith)

  pub stop : {missed : Bool} {p q : Program F} → Executes missed (among []) p q ↔ (q ≡ p)
  stop {missed} {p} {q} =
      (stop-only, λ e. subst (Executes missed (among []) p) (sym e) (Executes.finish (λ r. refl)))
