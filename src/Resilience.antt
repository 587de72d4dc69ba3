-- ===== src/Resilience.antt =====
-- pkg/ai/resilience: the circuit breaker and the provider wrapper that it protects.
pub mod CircuitBreaker
pub mod OutcomeTrace
pub mod ProviderWrapper
