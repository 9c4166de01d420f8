-- ===== src/Solvers.antt =====
-- The choice of an ACME challenge solver (pkg/util/solverpicker and
-- pkg/controller/acmeorders/selectors).
pub mod Picker
pub mod Rounds
pub mod Usable
pub mod Weighing
pub mod Best
