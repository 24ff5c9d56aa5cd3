-- ===== src/Threaded/Race.antt =====
-- The plant's state, which the actuator writes without the mutex.
use lf_benchmarks.Double.{Double}
use lf_benchmarks.Mpc.Params.{Vector}
use lf_benchmarks.Threaded.System.{System}

module _ {F : Type 0} ⦃d : Double F⦄ where
  open d use {lit, add, mul}

  -- A measurement with the position of `x` and the velocity of `y`, and the noise `n`.
  abbrev pub measured : F → Vector F → Vector F → Vector F
  measured n x y = record { c0 = add x.c0 n; c1 = add y.c1 (mul n (lit 5 1)) }
