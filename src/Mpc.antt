-- ===== src/Mpc.antt =====
-- The controller that the three versions of the MPC benchmark share: the linear model of the plant,
-- the cost of a control sequence and its descent, from mpc-optimizer-model/mpc-code/mpc_solver.c.
pub mod Params
pub mod Cost
pub mod Solve
