-- ===== src/Reactors/Wiring.antt =====
-- The tables of reactions, triggers and levels that `initialize` fills in, against each other.
use lf_benchmarks.Common.{
  ℕ, zero, suc, ◌+◌, ◌<◌, ◌≡◌, refl, List, [], ◌∷◌, map, ◌++◌, length, All, ◌==◌, if◌then◌else◌,
  arith,
}
use lf_benchmarks.Double.{Double}
use lf_benchmarks.Reactors.Types.{ReactionId, TriggerId}
use lf_benchmarks.Reactors.Main.{Program, initialize}
use lf_benchmarks.Reactors.Runtime.{reaction, trigger, level}

-- Every reaction, level by level.
abbrev pub all_reactions : List ReactionId
all_reactions =
    ReactionId.reference_0 ∷ ReactionId.plant_0 ∷ ReactionId.reference_1 ∷ ReactionId.reference_2
    ∷ ReactionId.optimizer_0 ∷ ReactionId.optimizer_1 ∷ ReactionId.plant_1 ∷ []

module _ {F : Type 0} where
  abbrev reactions_of : Program F → List TriggerId → List ReactionId
  reactions_of p [] = []
  reactions_of p (first ∷ rest) = (trigger p first).reactions ++ reactions_of p rest

  abbrev reactions_of_rows : Program F → List (List TriggerId) → List ReactionId
  reactions_of_rows p [] = []
  reactions_of_rows p (row ∷ rows) = reactions_of p row ++ reactions_of_rows p rows

  -- The reactions that the outputs of `r` can trigger.
  abbrev pub downstream : Program F → ReactionId → List ReactionId
  downstream p r = reactions_of_rows p (reaction p r).triggers

  abbrev count_at : Program F → ℕ → List ReactionId → ℕ
  count_at p l [] = 0
  count_at p l (r ∷ rs) = (if level p r == l then 1 else 0) + count_at p l rs

  -- How many reactions there are on each of `n` levels, from `l` on.
  abbrev pub counts : Program F → ℕ → ℕ → List ℕ
  counts p zero l = []
  counts p (suc n) l = count_at p l all_reactions ∷ counts p n (suc l)

  -- What the runtime relies on in the tables.
  pub record IsConsistent (p : Program F) : Type 0 where
    pub functions : (r : ReactionId) → (reaction p r).function ≡ r
    pub outputs :
        (r : ReactionId) → length (reaction p r).output_produced ≡ (reaction p r).num_outputs
    pub rows :
        (r : ReactionId) → map length (reaction p r).triggers ≡ (reaction p r).triggered_sizes
    pub widths :
        (a : TriggerId) → length (trigger p a).reactions ≡ (trigger p a).number_of_reactions
    pub timers : length p.env.timer_triggers ≡ p.env.num_timers
    pub startups : length p.env.startup_reactions ≡ p.env.num_startup_reactions
    pub presents : length p.env.is_present_fields ≡ p.env.num_is_present_fields
    pub levels : counts p (length p.env.num_reactions_per_level) 0 ≡ p.env.num_reactions_per_level
    pub levelled : (r : ReactionId) → level p r < length p.env.num_reactions_per_level
    pub forward : (r : ReactionId) → All (λ s. level p r < level p s) (downstream p r)

module _ {F : Type 0} ⦃d : Double F⦄ where
  -- The tables that `initialize` fills in agree with each other: each reaction has its own function,
  -- as many outputs as it announces, and rows of triggers of the announced lengths; each trigger
  -- has its announced number of reactions; timers, startup reactions and presence fields are as
  -- many as `environment_init` was told; each level has as many reactions as `lf_sched_init` was
  -- told, with no reaction on a level beyond them; and a reaction has a lower level than each one
  -- that its outputs trigger.
  pub initialize-IsConsistent : IsConsistent {F = F} initialize
  initialize-IsConsistent = record {
    functions = λ r. ground arith;
    outputs = λ r. ground arith;
    rows = λ r. ground arith;
    widths = λ a. ground arith;
    timers = refl;
    startups = refl;
    presents = refl;
    levels = refl;
    levelled = λ r. ground arith;
    forward = λ r. ground arith;
  }
