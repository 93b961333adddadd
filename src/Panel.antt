-- ===== src/Panel.antt =====
-- api/panel: the client of the panel that a node reads its settings and users from.
pub mod Types
pub mod Config
pub mod Client
pub mod Users
pub mod Protocols
