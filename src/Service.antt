-- ===== src/Service.antt =====
-- agent/app.py: the HTTP service. The parts are the translation and the management of the knowledge base.
pub mod Translate
pub mod Translated
pub mod Import
pub mod Manage
pub mod Managed
pub mod Ends
pub mod Imported
pub mod Agent
pub mod Shared
