-- ===== src/Fsm/Teardown/Ended.antt =====
-- The end of a session between a router and a modem, crates/dlep-fsm/src/session_router.rs and
-- session_modem.rs.
use dlep.Core.Ipnet.{Ipnet}
