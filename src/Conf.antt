-- ===== src/Conf.antt =====
-- conf/: the settings of a node.
pub mod Sing
pub mod Xray
pub mod Types
pub mod Nodes
