-- ===== src/Serving.antt =====
-- The LLM serving runtime: serving/turbine_serving/llm and serving/turbine_serving/framework.
pub mod Config
pub mod BlockCache
pub mod Session
pub mod Generate
