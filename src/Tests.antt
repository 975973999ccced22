-- ===== src/Tests.antt =====
-- Concrete inputs for the theorems, and runs of the definitions on them.
mod Serving
mod Transforms
mod Kernel
mod Models
mod Runtime
mod Layers
mod Data
