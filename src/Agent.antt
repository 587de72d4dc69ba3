-- ===== src/Agent.antt =====
-- pkg/ai/agent: the tools a model may call, their registry, and the executor of the tool loop.
pub mod Tool
pub mod Registry
pub mod Executor
