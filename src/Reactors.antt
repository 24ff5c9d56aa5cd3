-- ===== src/Reactors.antt =====
-- mpc/mpc-code/mpc-lf-main/src-gen/mpc: the C program generated from mpc.lf, less its copy of the
-- reactor runtime.
pub mod Types
pub mod Reference
pub mod Plant
pub mod Optimizer
pub mod Main
pub mod Runtime
pub mod Loop
pub mod Wiring
pub mod Enclaves
pub mod Federated
pub mod Plugged
