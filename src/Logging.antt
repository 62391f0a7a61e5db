-- ===== src/Logging.antt =====
-- pkg/logging: the stages that a log record passes.
pub mod Sampler
pub mod Async
pub mod Level
pub mod Strategy
pub mod Masker
pub mod Audit
pub mod ErrorMetrics
pub mod Health
pub mod Factory
pub mod Otlp
