-- ===== src/Obs.antt =====
-- pkg/ai/obs: correlation identities, safe summaries, traces, and the guarded export of a trace.
pub mod Identity
pub mod Summary
pub mod Trace
pub mod ChainRecorder
pub mod Redaction
pub mod DualPlaneLink
pub mod Logger
pub mod SpanMapper
