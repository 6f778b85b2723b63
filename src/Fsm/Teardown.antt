-- ===== src/Fsm/Teardown.antt =====
-- The end of a session between the machines of crates/dlep-fsm/src/session_router.rs and
-- session_modem.rs, when the application of one side shuts down.
pub mod RouterSide
pub mod ModemSide
pub mod Ended
use dlep.Base.{List, [], ◌∷◌}
use dlep.Core.Status.{StatusCode}
use dlep.Fsm.Events.{FsmAction, send_message, cancel_timer, close_tcp, emit, session_down}
use dlep.Fsm.Common.Builders.{build_session_termination_response}
use dlep.Fsm.Session.{timer_termination, timer_heartbeat, timer_heartbeat_missed}

-- What the side that is told does, and what the side that shut down does at the answer.
abbrev pub told : StatusCode → List FsmAction
told reason =
    cancel_timer timer_heartbeat
    ∷ cancel_timer timer_heartbeat_missed
    ∷ send_message build_session_termination_response
    ∷ close_tcp
    ∷ emit (session_down reason)
    ∷ []

abbrev pub answered : StatusCode → List FsmAction
answered reason = cancel_timer timer_termination ∷ close_tcp ∷ emit (session_down reason) ∷ []
