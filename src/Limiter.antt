-- ===== src/Limiter.antt =====
-- limiter/: the speed and device limits of a node's users.
pub mod Types
pub mod Check
pub mod Users
pub mod Registry
pub mod Rules
