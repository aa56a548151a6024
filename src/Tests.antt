-- ===== src/Tests.antt =====
-- Concrete parameters, runs of the definitions, and the theorems at concrete inputs.
mod Fixtures
mod Comparing
mod Texts
mod Knowing
mod Serving
mod Console
mod Schemas
mod Scripts
mod Generating
mod Sessions
mod Sharing
mod Explaining
mod LruMap
mod Proxying
mod Agreeing
mod Racing
mod Connecting
