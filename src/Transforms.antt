-- ===== src/Transforms.antt =====
-- core/shark_turbine/transforms: what the passes on MLIR modules compute.
pub mod Merger
pub mod RenameParameters
pub mod Rewriter
