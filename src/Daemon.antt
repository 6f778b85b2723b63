-- ===== src/Daemon.antt =====
-- crates/dlep-daemon: what surrounds the state machines in a running program.
pub mod Connections
