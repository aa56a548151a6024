-- ===== src/Knowledge.antt =====
-- agent/tools/sql_knowledge.py: the knowledge base of translations that succeeded. The table, its
-- statements and its operations are in the children.
pub mod Table
pub mod Filter
pub mod Store
pub mod Outcome
pub mod Valid
pub mod History
pub mod Retrieval
pub mod Saving
pub mod View
pub mod Admin
pub mod Steps
pub mod Alone
pub mod Known
pub mod Interleaved
