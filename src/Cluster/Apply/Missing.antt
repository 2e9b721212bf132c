-- ===== src/Cluster/Apply/Missing.antt =====
-- A service without a version that is not deployed ends the program.
use environment_operator.Bitesize.Types.{Service}
