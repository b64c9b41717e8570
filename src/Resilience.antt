-- ===== src/Resilience.antt =====
-- pkg/resilience: the circuit breaker and the adaptive batch sizer.
pub mod Breaker
pub mod BreakerRuns
pub mod Sizer
pub mod Failures
pub mod SizerBounds
pub mod Retry
