-- ===== src/Prompt.antt =====
-- pkg/ai/prompt: finding, reading and rendering templates.
pub mod Paths
pub mod Registry
pub mod Rendering
