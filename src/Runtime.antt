-- ===== src/Runtime.antt =====
-- core/shark_turbine/runtime: custom operators and how an eager call of one is run.
pub mod Device
pub mod OpReg
