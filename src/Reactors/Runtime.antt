-- ===== src/Reactors/Runtime.antt =====
-- The contract of the reactor runtime, which the repository only carries a copy of, over the tables
-- that the generated code hands it: at a tag, reactions of timers and of ports that were set run one
-- at a time, none before one of a lower level; before the tag all ports are absent.
use lf_benchmarks.Common.{
  ℕ, ◌-◌, ◌%◌, ◌≤◌, ◌≡◌, Bool, true, false, not, ◌&&◌, ◌||◌, Option, none, some, List, [], ◌∷◌, ltb,
  leb, ◌==◌, if◌then◌else◌,
}
use lf_benchmarks.Double.{Double}
use lf_benchmarks.Mpc.Params.{Vector, zero_f, zero_vector}
use lf_benchmarks.Reactors.Types.{PortId, ReactionId, TriggerId, Reaction, Trigger}
use lf_benchmarks.Reactors.Reference.{
  reference_reaction_0, reference_reaction_1, reference_reaction_2,
}
use lf_benchmarks.Reactors.Plant.{plant_reaction_0, plant_reaction_1}
use lf_benchmarks.Reactors.Optimizer.{
  optimizer_reaction_0, optimizer_reaction_1, optimizer_deadline_1,
}
use lf_benchmarks.Reactors.Main.{Program}

abbrev pub same_reaction : ReactionId → ReactionId → Bool
same_reaction ReactionId.reference_0 ReactionId.reference_0 = true
same_reaction ReactionId.reference_1 ReactionId.reference_1 = true
same_reaction ReactionId.reference_2 ReactionId.reference_2 = true
same_reaction ReactionId.plant_0 ReactionId.plant_0 = true
same_reaction ReactionId.plant_1 ReactionId.plant_1 = true
same_reaction ReactionId.optimizer_0 ReactionId.optimizer_0 = true
same_reaction ReactionId.optimizer_1 ReactionId.optimizer_1 = true
same_reaction _ _ = false

abbrev pub is_in : ReactionId → List ReactionId → Bool
is_in r [] = false
is_in r (s ∷ l) = same_reaction r s || is_in r l

-- Whether a timer fires at a time since the start.
abbrev pub fires_at : ℕ → Trigger → Bool
fires_at time timer =
    timer.is_timer
    && ((time == timer.offset)
        || (ltb 0 timer.period
            && (leb timer.offset time && ((time - timer.offset) % timer.period == 0))))

-- A reaction that has missed its deadline is replaced by its handler, if it has both.
abbrev late : Bool → Reaction → Bool
late missed r = elim r.deadline [ none ↦ false | some limit ↦ missed && r.has_handler ]

module _ {F : Type 0} where
  abbrev pub reaction : Program F → ReactionId → Reaction
  reaction p ReactionId.reference_0 = p.reference.reaction_0
  reaction p ReactionId.reference_1 = p.reference.reaction_1
  reaction p ReactionId.reference_2 = p.reference.reaction_2
  reaction p ReactionId.plant_0 = p.plant.reaction_0
  reaction p ReactionId.plant_1 = p.plant.reaction_1
  reaction p ReactionId.optimizer_0 = p.optimizer.reaction_0
  reaction p ReactionId.optimizer_1 = p.optimizer.reaction_1

  abbrev pub trigger : Program F → TriggerId → Trigger
  trigger p TriggerId.startup = p.reference.startup
  trigger p TriggerId.t1 = p.reference.t1
  trigger p TriggerId.t2 = p.reference.t2
  trigger p TriggerId.t = p.plant.t
  trigger p TriggerId.u = p.plant.u
  trigger p TriggerId.x_current = p.optimizer.x_current
  trigger p TriggerId.x_ref_in = p.optimizer.x_ref_in

  abbrev pub level : Program F → ReactionId → ℕ
  level p r = (reaction p r).index.level

  abbrev pub is_present : Program F → PortId → Bool
  is_present p PortId.x_ref = p.reference.x_ref.is_present
  is_present p PortId.x = p.plant.x.is_present
  is_present p PortId.u_apply = p.optimizer.u_apply.is_present

  abbrev clear : PortId → Program F → Program F
  clear PortId.x_ref p = record p {
    reference = record (p.reference) { x_ref = record (p.reference.x_ref) { is_present = false } };
  }
  clear PortId.x p = record p {
    plant = record (p.plant) { x = record (p.plant.x) { is_present = false } };
  }
  clear PortId.u_apply p = record p {
    optimizer = record (p.optimizer) {
      u_apply = record (p.optimizer.u_apply) { is_present = false };
    };
  }

  abbrev clear_all : List PortId → Program F → Program F
  clear_all [] p = p
  clear_all (port ∷ ports) p = clear_all ports (clear port p)

  -- At the start of a tag the ports of `is_present_fields` are made absent.
  abbrev pub start_tag : Program F → Program F
  start_tag p = clear_all p.env.is_present_fields p

  abbrev by_triggers : Program F → List TriggerId → ReactionId → Bool
  by_triggers p [] r = false
  by_triggers p (first ∷ ts) r = is_in r (trigger p first).reactions || by_triggers p ts r

  abbrev by_timers : Program F → ℕ → List TriggerId → ReactionId → Bool
  by_timers p time [] r = false
  by_timers p time (first ∷ ts) r =
      (fires_at time (trigger p first) && is_in r (trigger p first).reactions)
      || by_timers p time ts r

  -- The reactions that are enabled as the tag at a time begins.
  abbrev pub enabled_at : Program F → ℕ → ReactionId → Bool
  enabled_at p time r =
      (time == 0 && is_in r p.env.startup_reactions) || by_timers p time p.env.timer_triggers r

  -- The reactions that the outputs of one that has run enable.
  abbrev by_outputs : Program F → List PortId → List (List TriggerId) → ReactionId → Bool
  by_outputs p (port ∷ ports) (ts ∷ rest) r =
      (is_present p port && by_triggers p ts r) || by_outputs p ports rest r
  by_outputs p _ _ r = false

  -- After the reaction `r` has run, with the result `p`.
  abbrev pub after : ReactionId → Program F → (ReactionId → Bool) → ReactionId → Bool
  after r p enabled s =
      (not (same_reaction s r) && enabled s)
      || by_outputs p (reaction p r).output_produced (reaction p r).triggers s

module _ {F : Type 0} ⦃d : Double F⦄ where
  -- What an input pointer points to. A port of another type is never read.
  abbrev read_vector : Program F → Option PortId → Vector F
  read_vector p (some PortId.x_ref) = p.reference.x_ref.value
  read_vector p (some PortId.x) = p.plant.x.value
  read_vector p _ = zero_vector

  abbrev read_number : Program F → Option PortId → F
  read_number p (some PortId.u_apply) = p.optimizer.u_apply.value
  read_number p _ = zero_f

  -- The call of a reaction's function; `missed` says whether its deadline has passed.
  unfoldable pub call : Bool → ReactionId → Program F → Program F
  call missed ReactionId.reference_0 p = record p { reference = reference_reaction_0 p.reference }
  call missed ReactionId.reference_1 p = record p { reference = reference_reaction_1 p.reference }
  call missed ReactionId.reference_2 p = record p { reference = reference_reaction_2 p.reference }
  call missed ReactionId.plant_0 p = record p { plant = plant_reaction_0 p.plant }
  call missed ReactionId.plant_1 p = record p {
    plant = plant_reaction_1 (read_number p p.plant.u_port) p.plant;
  }
  call missed ReactionId.optimizer_0 p = record p {
    optimizer = optimizer_reaction_0 (read_vector p p.optimizer.x_ref_in_port) p.optimizer;
  }
  call missed ReactionId.optimizer_1 p = record p {
    optimizer =
        if late missed p.optimizer.reaction_1
        then optimizer_deadline_1 p.optimizer
        else optimizer_reaction_1 (read_vector p p.optimizer.x_current_port) p.optimizer;
  }

  -- The executions of a tag: any enabled reaction of the lowest level goes next.
  pub data Executes (missed : Bool) : (ReactionId → Bool) → Program F → Program F → Type 0 where
    finish :
        {enabled : ReactionId → Bool} {p : Program F}
        → ((r : ReactionId) → enabled r ≡ false)
        → Executes missed enabled p p
    fire :
        {enabled : ReactionId → Bool} {p q : Program F} (r : ReactionId)
        → enabled r ≡ true
        → ((s : ReactionId) → enabled s ≡ true → level p r ≤ level p s)
        → Executes missed (after r (call missed r p) enabled) (call missed r p) q
        → Executes missed enabled p q
