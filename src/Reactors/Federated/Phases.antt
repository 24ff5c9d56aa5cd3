-- ===== src/Reactors/Federated/Phases.antt =====
-- The federates of one tag, and what is on its way between them, against the control loop.
use lf_benchmarks.Common.{
  ℕ, zero, suc, ◌+◌, ◌*◌, ◌≡◌, ap, Option, List, [], ◌∷◌, ◌++◌, ◌⊎◌, inl, inr, arith,
}
use lf_benchmarks.Double.{Double}
use lf_benchmarks.Mpc.Params.{Vector}
use lf_benchmarks.Threaded.State.{plant_step}
use lf_benchmarks.Reactors.Main.{msec}
use lf_benchmarks.Reactors.Loop.{Loop}
use lf_benchmarks.Reactors.Federated.{
  PlantPhase, OptimizerPhase, fed_reference, fed_sample, fed_take,
}

module _ {F : Type 0} ⦃d : Double F⦄ where
  -- What Reference sends at `count` tags from the tag `first`.
  abbrev pub due : ℕ → ℕ → List (Option (Vector F))
  due first zero = []
  due first (suc count) = fed_reference (first * msec 1) ∷ due (suc first) count

  -- The queue of references holds what was sent from the tag `first` up to the tag of Reference.
  abbrev pub Queued : ℕ → List (Option (Vector F)) → ℕ → Type 0
  Queued first x_ref ref_tag = (count : ℕ) × (x_ref ≡ due first count) × (ref_tag ≡ first + count)

  -- The optimizer in a phase of its tag `n`, after the tags of the loop `l`.
  abbrev pub OptimizerAgrees :
      OptimizerPhase → ℕ → Loop F → List (Option (Vector F)) → ℕ → Vector F → Type 0
  OptimizerAgrees OptimizerPhase.waits_ref n l x_ref ref_tag current_ref =
      Queued n x_ref ref_tag × (current_ref ≡ l.current_ref)
  OptimizerAgrees OptimizerPhase.waits_x n l x_ref ref_tag current_ref =
      Queued (suc n) x_ref ref_tag
      × (current_ref ≡ fed_take (fed_reference (n * msec 1)) l.current_ref)

  -- The plant in a phase of its tag, and the queues between it and the optimizer, after the tags of
  -- the loop `l`. A plant that waits has either its sample on the way to the optimizer, or on the
  -- way to itself the control that moves it to where it is in `l`.
  abbrev pub PlantAgrees : PlantPhase → Loop F → List (Vector F) → List F → Vector F → ℕ → Type 0
  PlantAgrees PlantPhase.samples l x u plant_x tick =
      (x ≡ []) × (u ≡ []) × (plant_x ≡ l.plant_x) × (tick ≡ l.tick)
  PlantAgrees PlantPhase.waits l x u plant_x tick =
      ((x ≡ fed_sample l.plant_x l.tick ∷ [])
        × (u ≡ [])
        × (plant_x ≡ l.plant_x)
        × (tick ≡ l.tick + 1))
      ⊎ ((x ≡ [])
          × (u ≡ l.u_apply.value ∷ [])
          × (plant_step plant_x l.u_apply.value ≡ l.plant_x)
          × (tick ≡ l.tick))

  due-snoc :
      (first count : ℕ)
      → due first count ++ (fed_reference ((first + count) * msec 1) ∷ []) ≡ due first (suc count)
  due-snoc first zero =
      ap (λ t. fed_reference (t * msec 1) ∷ []) (let e : first + 0 ≡ first = omega arith in e)
  due-snoc first (suc count) =
      let e : first + suc count ≡ suc first + count = omega arith in
      rw e (ap (λ r. fed_reference (first * msec 1) ∷ r) (due-snoc (suc first) count))

  Queued-refer :
      (first : ℕ) (x_ref : List (Option (Vector F))) (ref_tag : ℕ)
      → Queued first x_ref ref_tag
      → Queued first (x_ref ++ (fed_reference (ref_tag * msec 1) ∷ [])) (suc ref_tag)
  Queued-refer first x_ref ref_tag (count, sent, tag) =
      (suc count, rw (sent, tag) (due-snoc first count), omega arith)

  pub OptimizerAgrees-refer :
      (p : OptimizerPhase) (n : ℕ) (l : Loop F) (x_ref : List (Option (Vector F))) (ref_tag : ℕ)
      (current_ref : Vector F)
      → OptimizerAgrees p n l x_ref ref_tag current_ref
      → OptimizerAgrees p n l
          (x_ref ++ (fed_reference (ref_tag * msec 1) ∷ []))
          (suc ref_tag)
          current_ref
  OptimizerAgrees-refer OptimizerPhase.waits_ref n l x_ref ref_tag current_ref (q, c) =
      (Queued-refer n x_ref ref_tag q, c)
  OptimizerAgrees-refer OptimizerPhase.waits_x n l x_ref ref_tag current_ref (q, c) =
      (Queued-refer (suc n) x_ref ref_tag q, c)

  -- The reference at the head of the queue is that of the optimizer's tag.
  pub OptimizerAgrees-retarget :
      (n : ℕ) (l : Loop F) (known : Option (Vector F)) (rest : List (Option (Vector F)))
      (ref_tag : ℕ) (current_ref : Vector F)
      → OptimizerAgrees OptimizerPhase.waits_ref n l (known ∷ rest) ref_tag current_ref
      → OptimizerAgrees OptimizerPhase.waits_x n l rest ref_tag (fed_take known current_ref)
  OptimizerAgrees-retarget n l known rest ref_tag current_ref ((zero, sent, tag), c) = cc
  OptimizerAgrees-retarget n l known rest ref_tag current_ref ((suc count, sent, tag), c) =
      ((count, cc, omega arith), cc)

  pub Sampled-head :
      (p : PlantPhase) (l : Loop F) (x0 : Vector F) (rest : List (Vector F)) (u : List F)
      (plant_x : Vector F) (tick : ℕ)
      → PlantAgrees p l (x0 ∷ rest) u plant_x tick
      → x0 ≡ fed_sample l.plant_x l.tick
  Sampled-head PlantPhase.samples l x0 rest u plant_x tick (e, _, _, _) = absurd cc
  Sampled-head PlantPhase.waits l x0 rest u plant_x tick (inl (e, _, _, _)) = cc
  Sampled-head PlantPhase.waits l x0 rest u plant_x tick (inr (e, _, _, _)) = absurd cc

  pub PlantAgrees-actuate :
      (l : Loop F) (x : List (Vector F)) (u_val : F) (rest : List F) (plant_x : Vector F) (tick : ℕ)
      → PlantAgrees PlantPhase.waits l x (u_val ∷ rest) plant_x tick
      → PlantAgrees PlantPhase.samples l x rest (plant_step plant_x u_val) tick
  PlantAgrees-actuate l x u_val rest plant_x tick (inl (_, e, _, _)) = absurd cc
  PlantAgrees-actuate l x u_val rest plant_x tick (inr (e, f, g, t)) = (e, cc, cc, t)
