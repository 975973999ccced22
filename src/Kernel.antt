-- ===== src/Kernel.antt =====
-- core/shark_turbine/kernel: the support code of the kernel compiler.
pub mod Context
pub mod Regions
