-- ===== src/Fsm.antt =====
-- crates/dlep-fsm: the state machines, which take events and return actions.
pub mod Transaction
pub mod Addresses
pub mod Validation
pub mod Events
pub mod Discovery
pub mod Common
pub mod Session
pub mod Router
pub mod Modem
pub mod Handshake
pub mod Teardown
pub mod Receipt
