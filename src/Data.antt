-- ===== src/Data.antt =====
-- llm/turbine_llm/data: the parameters of a model.
pub mod Theta
