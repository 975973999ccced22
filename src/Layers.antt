-- ===== src/Layers.antt =====
-- llm/turbine_llm/layers: the layers of language models.
pub mod KvCache
