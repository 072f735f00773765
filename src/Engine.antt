-- ===== src/Engine.antt =====
-- src/inference_x/engines/vllm_engine.py: the adapter of vLLM's asynchronous engine. vLLM, its
-- tokenizer and the HuggingFace client are arguments of the definitions: what they return or raise.
pub mod Output
pub mod Chunks
pub mod Generate
pub mod Prompt
pub mod Load
pub mod InitError
