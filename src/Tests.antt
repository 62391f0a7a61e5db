-- ===== src/Tests.antt =====
-- The theorems at concrete inputs.
mod Storing
mod Sqlite
mod Calling
mod Serving
mod Transporting
mod Configuring
mod Failing
mod Logging
mod Levels
mod Sampling
mod Streaming
mod Auditing
mod Monitoring
mod Producing
