-- ===== src/Reactors/Plant.antt =====
-- _plant.c and _plant.h: the reactor that samples the plant and moves it.
use lf_benchmarks.Common.{ℕ, ◌+◌, true, false, Option, none}
use lf_benchmarks.Double.{Double}
use lf_benchmarks.Mpc.Params.{Vector, matrix_a, matrix_b, zero_vector}
use lf_benchmarks.Threaded.State.{noise}
use lf_benchmarks.Reactors.Types.{Port, PortId, Reaction, Trigger, ReactionId, lf_set}
use lf_benchmarks.Reactors.Reference.{new_reaction, new_trigger}

-- `_plant_self_t`; `u_port` is `_lf_u`, `none` for the default input that is always absent.
pub record PlantSelf (F : Type 0) : Type 0 where
  pub plant_x : Vector F
  pub tick : ℕ
  pub u_port : Option PortId
  pub x : Port (Vector F)
  pub reaction_0 : Reaction
  pub reaction_1 : Reaction
  pub t : Trigger
  pub u : Trigger

module _ {F : Type 0} ⦃d : Double F⦄ where
  open d use {lit, add, mul}

  -- `new__plant`
  abbrev pub new_plant : PlantSelf F
  new_plant = record {
    plant_x = zero_vector;
    tick = 0;
    u_port = none;
    x = record { value = zero_vector; is_present = false; num_destinations = 0 };
    reaction_0 = new_reaction 0 ReactionId.plant_0;
    reaction_1 = new_reaction 1 ReactionId.plant_1;
    t = new_trigger ReactionId.plant_0 true;
    u = new_trigger ReactionId.plant_1 false;
  }

  -- `_plantreaction_function_0`
  unfoldable pub plant_reaction_0 : PlantSelf F → PlantSelf F
  plant_reaction_0 self =
      let n = noise self.tick in
      let current_x : Vector F = record {
        c0 = add self.plant_x.c0 n;
        c1 = add self.plant_x.c1 (mul n (lit 5 1));
      } in
      record self { x = lf_set self.x current_x; tick = self.tick + 1 }

  -- `_plantreaction_function_1`, with the value of `u`.
  unfoldable pub plant_reaction_1 : F → PlantSelf F → PlantSelf F
  plant_reaction_1 u_val self =
      let x_new : Vector F = record {
        c0 =
            add (add (mul matrix_a.c0.c0 self.plant_x.c0) (mul matrix_a.c0.c1 self.plant_x.c1))
              (mul matrix_b.c0 u_val);
        c1 =
            add (add (mul matrix_a.c1.c0 self.plant_x.c0) (mul matrix_a.c1.c1 self.plant_x.c1))
              (mul matrix_b.c1 u_val);
      } in
      record self { plant_x = x_new }
