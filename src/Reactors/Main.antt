-- ===== src/Reactors/Main.antt =====
-- mpc.c: `_lf_initialize_trigger_objects`, one function for each of its blocks, in their order.
use lf_benchmarks.Common.{ℕ, ◌*◌, ◌^◌, none, some, List, [], ◌∷◌, ◌++◌}
use lf_benchmarks.Double.{Double}
use lf_benchmarks.Mpc.Params.{zero_vector}
use lf_benchmarks.Reactors.Types.{PortId, ReactionId, TriggerId, Reaction}
use lf_benchmarks.Reactors.Reference.{ReferenceSelf, new_reference}
use lf_benchmarks.Reactors.Plant.{PlantSelf, new_plant}
use lf_benchmarks.Reactors.Optimizer.{OptimizerSelf, new_optimizer}

-- The arguments of `environment_init`, and the tables of the environment that are filled in.
pub record Environment : Type 0 where
  pub num_timers : ℕ
  pub num_startup_reactions : ℕ
  pub num_is_present_fields : ℕ
  pub startup_reactions : List ReactionId
  pub timer_triggers : List TriggerId
  pub is_present_fields : List PortId
  pub num_reactions_per_level : List ℕ

pub record Program (F : Type 0) : Type 0 where
  pub env : Environment
  pub reference : ReferenceSelf F
  pub plant : PlantSelf F
  pub optimizer : OptimizerSelf F

abbrev pub sec : ℕ → ℕ
sec n = n * 10 ^ 9

abbrev pub msec : ℕ → ℕ
msec n = n * 10 ^ 6

-- `lf_create_environments`
abbrev pub create_environments : Environment
create_environments = record {
  num_timers = 3;
  num_startup_reactions = 1;
  num_is_present_fields = 3;
  startup_reactions = [];
  timer_triggers = [];
  is_present_fields = [];
  num_reactions_per_level = [];
}

-- A reaction with one output port: room for one row of triggers, which are still null.
abbrev one_output : PortId → Reaction → Reaction
one_output port r = record r {
  num_outputs = 1;
  triggers = [] ∷ [];
  triggered_sizes = 0 ∷ [];
  output_produced = port ∷ [];
}

-- `triggered_sizes[0] = 1`, and a row of one trigger.
abbrev one_trigger : TriggerId → Reaction → Reaction
one_trigger target r = record r { triggered_sizes = 1 ∷ []; triggers = (target ∷ []) ∷ [] }

abbrev with_priority : ℕ → ℕ → Reaction → Reaction
with_priority deadline level r = record r { index = record { deadline = deadline; level = level } }

module _ {F : Type 0} ⦃d : Double F⦄ where
  -- The constructors' results, as the three "Start initializing" blocks bind them.
  abbrev created : Program F
  created = record {
    env = create_environments;
    reference = new_reference;
    plant = new_plant;
    optimizer = new_optimizer;
  }

  -- "Start initializing mpc.ref"
  abbrev init_reference : Program F → Program F
  init_reference p = record p {
    env = record (p.env) {
      startup_reactions = p.env.startup_reactions ++ (ReactionId.reference_0 ∷ []);
      timer_triggers = p.env.timer_triggers ++ (TriggerId.t1 ∷ TriggerId.t2 ∷ []);
    };
    reference = record (p.reference) {
      t1 = record (p.reference.t1) { offset = sec 1; period = 0 };
      t2 = record (p.reference.t2) { offset = sec 3; period = 0 };
      reaction_0 = record (p.reference.reaction_0) { deadline = none };
      reaction_1 = record (p.reference.reaction_1) { deadline = none };
      reaction_2 = record (p.reference.reaction_2) { deadline = none };
    };
  }

  -- "Start initializing mpc.plant"
  abbrev init_plant : Program F → Program F
  init_plant p = record p {
    env = record (p.env) { timer_triggers = p.env.timer_triggers ++ (TriggerId.t ∷ []) };
    plant = record (p.plant) {
      plant_x = zero_vector;
      tick = 0;
      t = record (p.plant.t) { offset = 0; period = msec 1 };
      reaction_0 = record (p.plant.reaction_0) { deadline = none };
      reaction_1 = record (p.plant.reaction_1) { deadline = none };
    };
  }

  -- "Start initializing mpc.optimizer"
  abbrev init_optimizer : Program F → Program F
  init_optimizer p = record p {
    optimizer = record (p.optimizer) {
      current_ref = zero_vector;
      reaction_0 = record (p.optimizer.reaction_0) { deadline = none };
      reaction_1 = record (p.optimizer.reaction_1) { deadline = some (msec 1) };
    };
  }

  -- "Start deferred initialize for mpc.ref"
  abbrev defer_reference : Program F → Program F
  defer_reference p = record p {
    reference = record (p.reference) {
      reaction_0 = one_output PortId.x_ref p.reference.reaction_0;
      reaction_1 = one_output PortId.x_ref p.reference.reaction_1;
      reaction_2 = one_output PortId.x_ref p.reference.reaction_2;
    };
  }

  -- "Start deferred initialize for mpc.plant"
  abbrev defer_plant : Program F → Program F
  defer_plant p = record p {
    plant = record (p.plant) {
      reaction_0 = one_output PortId.x p.plant.reaction_0;
      reaction_1 = record (p.plant.reaction_1) { num_outputs = 0 };
    };
  }

  -- "Start deferred initialize for mpc.optimizer"
  abbrev defer_optimizer : Program F → Program F
  defer_optimizer p = record p {
    optimizer = record (p.optimizer) {
      reaction_0 = record (p.optimizer.reaction_0) { num_outputs = 0 };
      reaction_1 = one_output PortId.u_apply p.optimizer.reaction_1;
    };
  }

  -- "Start non-nested deferred initialize for mpc.ref"
  abbrev trigger_reference : Program F → Program F
  trigger_reference p = record p {
    reference = record (p.reference) {
      x_ref = record (p.reference.x_ref) { num_destinations = 1 };
      reaction_0 = one_trigger TriggerId.x_ref_in p.reference.reaction_0;
      reaction_1 = one_trigger TriggerId.x_ref_in p.reference.reaction_1;
      reaction_2 = one_trigger TriggerId.x_ref_in p.reference.reaction_2;
    };
  }

  -- "Start non-nested deferred initialize for mpc.plant"
  abbrev trigger_plant : Program F → Program F
  trigger_plant p = record p {
    plant = record (p.plant) {
      x = record (p.plant.x) { num_destinations = 1 };
      reaction_0 = one_trigger TriggerId.x_current p.plant.reaction_0;
    };
  }

  -- "Start non-nested deferred initialize for mpc.optimizer"
  abbrev trigger_optimizer : Program F → Program F
  trigger_optimizer p = record p {
    optimizer = record (p.optimizer) {
      u_apply = record (p.optimizer.u_apply) { num_destinations = 1 };
      reaction_1 = one_trigger TriggerId.u p.optimizer.reaction_1;
    };
  }

  -- "Connect inputs and outputs"
  abbrev connect : Program F → Program F
  connect p = record p {
    optimizer = record (p.optimizer) {
      x_ref_in_port = some PortId.x_ref;
      x_current_port = some PortId.x;
    };
    plant = record (p.plant) { u_port = some PortId.u_apply };
  }

  -- The stores into slots 0, 1 and 2 of `is_present_fields`.
  abbrev list_present : Program F → Program F
  list_present p = record p {
    env = record (p.env) { is_present_fields = PortId.x_ref ∷ PortId.x ∷ PortId.u_apply ∷ [] };
  }

  -- "Set reaction priorities"
  abbrev prioritize : Program F → Program F
  prioritize p = record p {
    reference = record (p.reference) {
      reaction_0 = with_priority 1_000_000 0 p.reference.reaction_0;
      reaction_1 = with_priority 1_000_000 1 p.reference.reaction_1;
      reaction_2 = with_priority 1_000_000 2 p.reference.reaction_2;
    };
    plant = record (p.plant) {
      reaction_0 = with_priority 1_000_000 0 p.plant.reaction_0;
      reaction_1 = with_priority 9_223_372_036_854_775_807 5 p.plant.reaction_1;
    };
    optimizer = record (p.optimizer) {
      reaction_0 = with_priority 1_000_000 3 p.optimizer.reaction_0;
      reaction_1 = with_priority 1_000_000 4 p.optimizer.reaction_1;
    };
  }

  -- The parameters of `lf_sched_init`.
  abbrev init_scheduler : Program F → Program F
  init_scheduler p = record p {
    env = record (p.env) { num_reactions_per_level = 2 ∷ 1 ∷ 1 ∷ 1 ∷ 1 ∷ 1 ∷ [] };
  }

  -- `_lf_initialize_trigger_objects`
  abbrev pub initialize : Program F
  initialize =
      let p = init_optimizer (init_plant (init_reference created)) in
      let q = defer_optimizer (defer_plant (defer_reference p)) in
      let r = trigger_optimizer (trigger_plant (trigger_reference q)) in
      init_scheduler (prioritize (list_present (connect r)))
