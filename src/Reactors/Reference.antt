-- ===== src/Reactors/Reference.antt =====
-- _reference.c and _reference.h: the reactor that sets the reference.
use lf_benchmarks.Common.{ℕ, Bool, true, false, none, [], ◌∷◌}
use lf_benchmarks.Double.{Double}
use lf_benchmarks.Mpc.Params.{Vector, zero_f, zero_vector}
use lf_benchmarks.Reactors.Types.{Port, Reaction, Trigger, ReactionId, lf_set}

-- `_reference_self_t`
pub record ReferenceSelf (F : Type 0) : Type 0 where
  pub x_ref : Port (Vector F)
  pub reaction_0 : Reaction
  pub reaction_1 : Reaction
  pub reaction_2 : Reaction
  pub t1 : Trigger
  pub t2 : Trigger
  pub startup : Trigger

-- What every constructor stores in a reaction and in a trigger; the rest is zeroed memory.
abbrev pub new_reaction : ℕ → ReactionId → Reaction
new_reaction n f = record {
  number = n;
  function = f;
  has_handler = false;
  deadline = none;
  num_outputs = 0;
  output_produced = [];
  triggered_sizes = [];
  triggers = [];
  index = record { deadline = 0; level = 0 };
}

abbrev pub new_trigger : ReactionId → Bool → Trigger
new_trigger r timer = record {
  reactions = r ∷ [];
  number_of_reactions = 1;
  is_timer = timer;
  offset = 0;
  period = 0;
}

module _ {F : Type 0} ⦃d : Double F⦄ where
  open d use {lit}

  -- `new__reference`
  abbrev pub new_reference : ReferenceSelf F
  new_reference = record {
    x_ref = record { value = zero_vector; is_present = false; num_destinations = 0 };
    reaction_0 = new_reaction 0 ReactionId.reference_0;
    reaction_1 = new_reaction 1 ReactionId.reference_1;
    reaction_2 = new_reaction 2 ReactionId.reference_2;
    t1 = new_trigger ReactionId.reference_1 true;
    t2 = new_trigger ReactionId.reference_2 true;
    startup = new_trigger ReactionId.reference_0 false;
  }

  -- `_referencereaction_function_0`
  abbrev pub reference_reaction_0 : ReferenceSelf F → ReferenceSelf F
  reference_reaction_0 self = record self {
    x_ref = lf_set self.x_ref (record { c0 = zero_f; c1 = zero_f });
  }

  -- `_referencereaction_function_1`
  abbrev pub reference_reaction_1 : ReferenceSelf F → ReferenceSelf F
  reference_reaction_1 self = record self {
    x_ref = lf_set self.x_ref (record { c0 = lit 1 0; c1 = zero_f });
  }

  -- `_referencereaction_function_2`
  abbrev pub reference_reaction_2 : ReferenceSelf F → ReferenceSelf F
  reference_reaction_2 self = record self {
    x_ref = lf_set self.x_ref (record { c0 = lit 5 1; c1 = zero_f });
  }
