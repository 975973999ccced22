-- ===== src/Models.antt =====
-- models/turbine_models: the names of tensors in GGUF files.
pub mod Names
pub mod Mappings
pub mod TensorNameMap
