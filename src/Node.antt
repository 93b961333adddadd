-- ===== src/Node.antt =====
-- node/: the controllers of the nodes.
pub mod Users
pub mod Report
pub mod Controller
pub mod Controllers
pub mod Certificates
