-- ===== src/Reactors/Types.antt =====
-- The structures of the generated code: ports, reactions and triggers, as far as the generated code
-- fills them in. A pointer to one of them is its name.
use lf_benchmarks.Common.{ℕ, Bool, true, Option, List}

-- The output ports.
pub data PortId : Type 0 where
  x_ref x u_apply : PortId

-- The reactions, with the numbers that they have in their reactors.
pub data ReactionId : Type 0 where
  reference_0 reference_1 reference_2 plant_0 plant_1 optimizer_0 optimizer_1 : ReactionId

-- The triggers.
pub data TriggerId : Type 0 where
  startup t1 t2 t u x_current x_ref_in : TriggerId

-- `_reference_x_ref_t` and the like.
pub record Port (V : Type 0) : Type 0 where
  pub value : V
  pub is_present : Bool
  pub num_destinations : ℕ

-- The arguments of `lf_combine_deadline_and_level`.
pub record Priority : Type 0 where
  pub deadline : ℕ
  pub level : ℕ

-- `reaction_t`; the deadline is in nanoseconds, `none` for `NEVER`.
pub record Reaction : Type 0 where
  pub number : ℕ
  pub function : ReactionId
  pub has_handler : Bool
  pub deadline : Option ℕ
  pub num_outputs : ℕ
  pub output_produced : List PortId
  pub triggered_sizes : List ℕ
  pub triggers : List (List TriggerId)
  pub index : Priority

-- `trigger_t`; times are in nanoseconds.
pub record Trigger : Type 0 where
  pub reactions : List ReactionId
  pub number_of_reactions : ℕ
  pub is_timer : Bool
  pub offset : ℕ
  pub period : ℕ

module _ {V : Type 0} where
  -- `lf_set`
  abbrev pub lf_set : Port V → V → Port V
  lf_set p v = record p { value = v; is_present = true }
