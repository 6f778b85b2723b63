-- ===== src/Net.antt =====
-- crates/dlep-net.
pub mod Framed
