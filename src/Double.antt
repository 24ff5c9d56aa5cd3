-- ===== src/Double.antt =====
-- The C type `double` with the functions of <math.h>, as the program uses them: a parameter of the
-- model. The arithmetic is not looked into; `IsOrdered`, `IsComparable` and `NegativeZero` are the
-- facts of IEEE 754 that theorems name as hypotheses.
mod Defs
pub mod Fixed
pub use Defs.{Double, IsOrdered, IsComparable, NegativeZero}
