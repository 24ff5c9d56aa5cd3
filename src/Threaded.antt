-- ===== src/Threaded.antt =====
-- mpc/mpc-code/mpc_threaded.c: five POSIX threads over one shared state.
pub mod State
pub mod Predict
pub mod Race
pub mod Sampling
pub mod System
pub mod Invariant
pub mod Shutdown
pub mod Finish
pub mod Mirror
