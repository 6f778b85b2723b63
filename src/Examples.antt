-- ===== src/Examples.antt =====
-- Runs of the model on concrete data, among them those of the tests in crates/dlep-core/src/codec.rs
-- and crates/dlep-fsm/src, with `ipnet` as the functions of Core/Ipnet/Masked.antt.
mod Data
mod Codec
mod Stream
mod Fsm
mod Discovery
mod Session
mod Machines
mod Early
mod Daemon
