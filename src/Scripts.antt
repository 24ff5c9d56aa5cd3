-- ===== src/Scripts.antt =====
-- fbw-lf/scripts: the scripts that check what the fly-by-wire programs print.
pub mod Patterns
pub mod EndToEnd
pub mod Behavior
pub mod Records
pub mod Comparison
