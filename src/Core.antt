-- ===== src/Core.antt =====
-- core/: the proxy cores, and the selector that runs several of them as one.
pub mod Call
pub mod Interface
pub mod Selector
pub mod Traffic
pub mod Sing
pub mod Hy2
pub mod Dispatcher
pub mod Accounts
pub mod Xray
