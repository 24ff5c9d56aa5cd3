-- ===== src/Reactors/Optimizer.antt =====
-- _optimizer.c and _optimizer.h: the reactor that solves for the control.
use lf_benchmarks.Common.{true, false, Option, none, List, get_or, replicate}
use lf_benchmarks.Double.{Double}
use lf_benchmarks.Mpc.Params.{Vector, horizon, zero_f, zero_vector}
use lf_benchmarks.Mpc.Solve.{optimize, shift}
use lf_benchmarks.Reactors.Types.{Port, PortId, Reaction, Trigger, ReactionId, lf_set}
use lf_benchmarks.Reactors.Reference.{new_reaction, new_trigger}

-- `_optimizer_self_t`, with the static `u_seq` of its second reaction. `x_current_port` and
-- `x_ref_in_port` are the input pointers, `none` for a default input.
pub record OptimizerSelf (F : Type 0) : Type 0 where
  pub current_ref : Vector F
  pub u_seq : List F
  pub x_current_port : Option PortId
  pub x_ref_in_port : Option PortId
  pub u_apply : Port F
  pub reaction_0 : Reaction
  pub reaction_1 : Reaction
  pub x_current : Trigger
  pub x_ref_in : Trigger

module _ {F : Type 0} ⦃d : Double F⦄ where
  -- `new__optimizer`
  abbrev pub new_optimizer : OptimizerSelf F
  new_optimizer = record {
    current_ref = zero_vector;
    u_seq = replicate horizon zero_f;
    x_current_port = none;
    x_ref_in_port = none;
    u_apply = record { value = zero_f; is_present = false; num_destinations = 0 };
    reaction_0 = new_reaction 0 ReactionId.optimizer_0;
    reaction_1 = record (new_reaction 1 ReactionId.optimizer_1) { has_handler = true };
    x_current = new_trigger ReactionId.optimizer_1 false;
    x_ref_in = new_trigger ReactionId.optimizer_0 false;
  }

  -- `_optimizerreaction_function_0`, with the value of `x_ref_in`.
  abbrev pub optimizer_reaction_0 : Vector F → OptimizerSelf F → OptimizerSelf F
  optimizer_reaction_0 ref self = record self { current_ref = ref }

  -- `_optimizerreaction_function_1`, with the value of `x_current`.
  unfoldable pub optimizer_reaction_1 : Vector F → OptimizerSelf F → OptimizerSelf F
  optimizer_reaction_1 x0 self =
      let solved = optimize x0 self.current_ref self.u_seq in
      record self { u_apply = lf_set self.u_apply (get_or solved 0 zero_f); u_seq = shift solved }

  -- `_optimizer_deadline_function1`
  abbrev pub optimizer_deadline_1 : OptimizerSelf F → OptimizerSelf F
  optimizer_deadline_1 self = record self { u_apply = lf_set self.u_apply zero_f }
