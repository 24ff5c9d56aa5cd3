-- ===== src/Fbw.antt =====
-- fbw-lf: the fly-by-wire benchmark with triple modular redundancy, and the check against the
-- decisions of the original C program.
pub mod Nav
pub mod Pfc
pub mod Vote
pub mod Reactions
pub mod System
pub mod Controlled
pub mod Validation
pub mod Redundancy
