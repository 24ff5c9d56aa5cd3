-- ===== src/Reactors/Federated/Progress.antt =====
-- That the federates can finish a tag from wherever they are.
use lf_benchmarks.Double.{Double}
