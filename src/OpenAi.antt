-- ===== src/OpenAi.antt =====
-- pkg/ai/llm/openai: the adapter of OpenAI-compatible providers.
pub mod ToolCalls
pub mod Wire
pub mod Failures
pub mod Stream
pub mod Settings
pub mod Mapping
pub mod Provider
