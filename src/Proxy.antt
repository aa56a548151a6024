-- ===== src/Proxy.antt =====
-- The proxy of proxy/: clients speak the MySQL protocol to it, and it answers from Redshift through the
-- translating agent, or from MySQL for the tables that are not on its list.
pub mod GoText
pub mod Config
pub mod Router
pub mod Normalize
pub mod Cache
pub mod Values
pub mod Client
pub mod Saves
pub mod Server
pub mod Routes
pub mod Retry
pub mod Numbers
pub mod Literals
pub mod Cached
pub mod Repeated
pub mod Start
pub mod Started
pub mod Agent
pub mod Agreed
pub mod Serves
pub mod Worlds
pub mod Connections
pub mod Uninterrupted
pub mod Concurrent
