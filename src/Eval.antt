-- ===== src/Eval.antt =====
-- pkg/ai/eval: what an evaluation runs on, what it scores, and the evidence and the report that it gives.
pub mod Dataset
pub mod Evidence
pub mod Metrics
pub mod Retrieval
pub mod Runner
