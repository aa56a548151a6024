-- ===== src/Web.antt =====
-- webui/app.py: the console that runs a statement on a database or through the proxy.
pub mod Run
pub mod Handlers
pub mod Counts
pub mod Answers
pub mod Plans
pub mod Forward
pub mod Session
pub mod Samples
pub mod Sampled
pub mod Translating
pub mod Explaining
