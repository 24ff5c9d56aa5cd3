-- ===== src/Reactors/Loop/Tags.antt =====
-- What an execution of one tag of the loop does.
use lf_benchmarks.Common.{◌+◌, ◌≡◌, ◌↔◌, refl, inl, inr, Bool, true, false, none, some, [], ◌∷◌}
use lf_benchmarks.Double.{Double}
use lf_benchmarks.Mpc.Params.{Vector, zero_f}
use lf_benchmarks.Mpc.Solve.{mpc_solve}
use lf_benchmarks.Threaded.State.{plant_step}
use lf_benchmarks.Reactors.Types.{ReactionId}
use lf_benchmarks.Reactors.Plant.{plant_reaction_0, plant_reaction_1}
use lf_benchmarks.Reactors.Optimizer.{optimizer_reaction_1}
use lf_benchmarks.Reactors.Main.{Program}
use lf_benchmarks.Reactors.Runtime.{call, Executes}
use lf_benchmarks.Reactors.Loop.Order.{among, fire_lowest, first_of_two, stage, stop}
use lf_benchmarks.Reactors.Loop.{Loop, wired, sample, control, loop_step, present, absent}

infixr 30 ◌↔∙◌
◌↔∙◌ : {A B C : Type 0} → A ↔ B → B ↔ C → A ↔ C
(f ↔∙ g) = (λ a. g.0 (f.0 a), λ c. f.1 (g.1 c))

module _ {F : Type 0} ⦃d : Double F⦄ where
  open d use {lit}

  -- As the tag begins.
  abbrev pub cleared : Loop F → Loop F
  cleared s = record s { x_ref = absent s.x_ref; x = absent s.x; u_apply = absent s.u_apply }

  -- After `plant_0`, `optimizer_1` and `plant_1`.
  abbrev sampled : Loop F → Loop F
  sampled s = let x0 = sample s.plant_x s.tick in record s { tick = s.tick + 1; x = present x0 s.x }

  abbrev solved : Bool → Loop F → Loop F
  solved missed s =
      let r = control missed s.x.value s.current_ref s.u_seq in
      record s { u_apply = present r.0 s.u_apply; u_seq = r.1 }

  abbrev moved : Loop F → Loop F
  moved s = record s { plant_x = plant_step s.plant_x s.u_apply.value }

  call-sampled : (m : Bool) (s : Loop F) → call m ReactionId.plant_0 (wired s) ≡ wired (sampled s)
  unfolding call plant_reaction_0
  call-sampled m s = refl

  call-solved :
      (m : Bool) (s : Loop F) → call m ReactionId.optimizer_1 (wired s) ≡ wired (solved m s)
  unfolding call optimizer_reaction_1 mpc_solve
  call-solved true s = refl
  call-solved false s = refl

  call-moved : (m : Bool) (s : Loop F) → call m ReactionId.plant_1 (wired s) ≡ wired (moved s)
  unfolding call plant_reaction_1 plant_step
  call-moved m s = refl

  -- After `reference_0`, `reference_1` and `reference_2`, and after `optimizer_0`.
  abbrev referred : Vector F → Loop F → Loop F
  referred v s = record s { x_ref = present v s.x_ref }

  abbrev taken : Loop F → Loop F
  taken s = record s { current_ref = s.x_ref.value }

  -- From the optimizer's solve on.
  solve_tail :
      {m : Bool} {q : Program F} (s : Loop F)
      → Executes m (among (ReactionId.optimizer_1 ∷ [])) (wired s) q
        ↔ (q ≡ wired (moved (solved m s)))
  solve_tail {m} s =
      stage ReactionId.optimizer_1 (ReactionId.optimizer_1 ∷ []) (ReactionId.plant_1 ∷ [])
        (wired (solved m s)) (call-solved m s) refl refl refl refl
      ↔∙ stage ReactionId.plant_1 (ReactionId.plant_1 ∷ []) [] (wired (moved (solved m s)))
          (call-moved m (solved m s)) refl refl refl refl
      ↔∙ stop

  -- From there, when a reference has been set before.
  take_tail :
      {m : Bool} {q : Program F} (s : Loop F)
      → Executes m (among (ReactionId.optimizer_0 ∷ ReactionId.optimizer_1 ∷ [])) (wired s) q
        ↔ (q ≡ wired (moved (solved m (taken s))))
  unfolding call
  take_tail {m} s =
      stage ReactionId.optimizer_0 (ReactionId.optimizer_0 ∷ ReactionId.optimizer_1 ∷ [])
        (ReactionId.optimizer_1 ∷ []) (wired (taken s)) refl refl refl refl refl
      ↔∙ solve_tail (taken s)

  pub quiet_tag :
      {m : Bool} {q : Program F} (s : Loop F)
      → Executes m (among (ReactionId.plant_0 ∷ [])) (wired (cleared s)) q
        ↔ (q ≡ wired (loop_step m none s))
  quiet_tag {m} s =
      stage ReactionId.plant_0 (ReactionId.plant_0 ∷ []) (ReactionId.optimizer_1 ∷ [])
        (wired (sampled (cleared s))) (call-sampled m (cleared s)) refl refl refl refl
      ↔∙ solve_tail (sampled (cleared s))

  pub reference_1_tag :
      {m : Bool} {q : Program F} (s : Loop F)
      → Executes m (among (ReactionId.reference_1 ∷ ReactionId.plant_0 ∷ [])) (wired (cleared s)) q
        ↔ (q ≡ wired (loop_step m (some (record { c0 = lit 1 0; c1 = zero_f })) s))
  unfolding call
  reference_1_tag {m} s =
      let s' = sampled (cleared s) in
      stage ReactionId.plant_0 (ReactionId.reference_1 ∷ ReactionId.plant_0 ∷ [])
        (ReactionId.reference_1 ∷ ReactionId.optimizer_1 ∷ []) (wired s')
        (call-sampled m (cleared s)) refl refl refl refl
      ↔∙ stage ReactionId.reference_1 (ReactionId.reference_1 ∷ ReactionId.optimizer_1 ∷ [])
          (ReactionId.optimizer_0 ∷ ReactionId.optimizer_1 ∷ [])
          (wired (referred (record { c0 = lit 1 0; c1 = zero_f }) s')) refl refl refl refl refl
      ↔∙ take_tail (referred (record { c0 = lit 1 0; c1 = zero_f }) s')

  pub reference_2_tag :
      {m : Bool} {q : Program F} (s : Loop F)
      → Executes m (among (ReactionId.reference_2 ∷ ReactionId.plant_0 ∷ [])) (wired (cleared s)) q
        ↔ (q ≡ wired (loop_step m (some (record { c0 = lit 5 1; c1 = zero_f })) s))
  unfolding call
  reference_2_tag {m} s =
      let s' = sampled (cleared s) in
      stage ReactionId.plant_0 (ReactionId.reference_2 ∷ ReactionId.plant_0 ∷ [])
        (ReactionId.reference_2 ∷ ReactionId.optimizer_1 ∷ []) (wired s')
        (call-sampled m (cleared s)) refl refl refl refl
      ↔∙ stage ReactionId.reference_2 (ReactionId.reference_2 ∷ ReactionId.optimizer_1 ∷ [])
          (ReactionId.optimizer_0 ∷ ReactionId.optimizer_1 ∷ [])
          (wired (referred (record { c0 = lit 5 1; c1 = zero_f }) s')) refl refl refl refl refl
      ↔∙ take_tail (referred (record { c0 = lit 5 1; c1 = zero_f }) s')

  -- At time 0 the reference and the sample have the same level, and either may come first.
  sample_last :
      {m : Bool} {q : Program F} (v : Vector F) (s : Loop F)
      → Executes m
          (among (ReactionId.plant_0 ∷ ReactionId.optimizer_0 ∷ []))
          (wired (referred v (cleared s)))
          q
        ↔ (q ≡ wired (loop_step m (some v) s))
  sample_last {m} v s =
      let s' = referred v (cleared s) in
      stage ReactionId.plant_0 (ReactionId.plant_0 ∷ ReactionId.optimizer_0 ∷ [])
        (ReactionId.optimizer_0 ∷ ReactionId.optimizer_1 ∷ []) (wired (sampled s'))
        (call-sampled m s') refl refl refl refl
      ↔∙ take_tail (sampled s')

  reference_last :
      {m : Bool} {q : Program F} (s : Loop F)
      → Executes m
          (among (ReactionId.reference_0 ∷ ReactionId.optimizer_1 ∷ []))
          (wired (sampled (cleared s)))
          q
        ↔ (q ≡ wired (loop_step m (some (record { c0 = zero_f; c1 = zero_f })) s))
  unfolding call
  reference_last s =
      let s' = referred (record { c0 = zero_f; c1 = zero_f }) (sampled (cleared s)) in
      stage ReactionId.reference_0 (ReactionId.reference_0 ∷ ReactionId.optimizer_1 ∷ [])
        (ReactionId.optimizer_0 ∷ ReactionId.optimizer_1 ∷ []) (wired s') refl refl refl refl refl
      ↔∙ take_tail s'

  pub startup_tag :
      {m : Bool} {q : Program F} (s : Loop F)
      → Executes m (among (ReactionId.reference_0 ∷ ReactionId.plant_0 ∷ [])) (wired (cleared s)) q
        ↔ (q ≡ wired (loop_step m (some (record { c0 = zero_f; c1 = zero_f })) s))
  unfolding call plant_reaction_0
  startup_tag {m} {q} s =
      let r = ReactionId.reference_0 in
      let p = ReactionId.plant_0 in
      let v : Vector F = record { c0 = zero_f; c1 = zero_f } in
      let then_p = p ∷ ReactionId.optimizer_0 ∷ [] in
      (
        λ run. elim (first_of_two r p then_p (r ∷ ReactionId.optimizer_1 ∷ []) refl refl run) [
          | inl rest ↦ (sample_last v s).0 rest
          | inr rest ↦ (reference_last s).0 rest
        ],
        λ e. fire_lowest r (r ∷ p ∷ []) then_p refl refl refl ((sample_last v s).1 e),
      )
