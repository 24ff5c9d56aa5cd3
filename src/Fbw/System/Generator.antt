-- ===== src/Fbw/System/Generator.antt =====
-- What the failure generator sends.
use lf_benchmarks.Common.{ℕ, zero, suc, ◌≡◌, ◌↔◌, true, some, arith}
use lf_benchmarks.Double.{Double}
use lf_benchmarks.Fbw.Pfc.{FaultMsg}
use lf_benchmarks.Fbw.System.{is_fault, to_port, drawn, generate_fault}

to_port-some :
    (port selected : ℕ) (m m' : FaultMsg)
    → (to_port port selected m ≡ some m') ↔ ((port ≡ selected) × (m' ≡ m))
to_port-some zero zero m m' = ground arith
to_port-some zero (suc s) m m' = ground arith
to_port-some (suc p) zero m m' = ground arith
to_port-some (suc p) (suc s) m m' = ground (arith, to_port-some p s m m')

module _ {F : Type 0} ⦃d : Double F⦄ where
  -- A port gets a message exactly if it is the one drawn and at least one of the four draws asks
  -- for a fault, and the message then has all that were drawn.
  pub generate_fault_iff :
      (port selected : ℕ) (r1 r2 r3 r4 : F) (m : FaultMsg)
      → (generate_fault port selected r1 r2 r3 r4 ≡ some m)
        ↔ ((port ≡ selected) × (is_fault (drawn r1 r2 r3 r4) ≡ true) × (m ≡ drawn r1 r2 r3 r4))
  unfolding generate_fault
  generate_fault_iff port selected r1 r2 r3 r4 m =
      ground (arith, to_port-some port selected (drawn r1 r2 r3 r4) m)
