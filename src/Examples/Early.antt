-- ===== src/Examples/Early.antt =====
-- A message that comes too early at the machine of crates/dlep-fsm/src/session_router.rs.
use dlep.Base.{[], ◌≡◌, refl}
use dlep.Core.Status.{unexpected_message}
use dlep.Core.Item.{DataItem}
use dlep.Fsm.Events.{recv_message, command_of}
use dlep.Fsm.Common.Builders.{build_heartbeat}
use dlep.Fsm.Session.{ran, error_actions, fatal_status}
use dlep.Fsm.Router.{RouterSessionState, RouterSessionFsm, with_config, protocol_error, fail_with}
use dlep.Fsm.Router.Checks.{check_received}
use dlep.Fsm.Router.Step.{step, stepped, uncommanded, received, screened, checked}
use dlep.Fsm.Validation.{validate_message, is_expected}
use dlep.Examples.Data.{example_net}
use dlep.Examples.Session.{fast}

abbrev pending : RouterSessionFsm
pending = record (with_config fast) { state = RouterSessionState.session_init_pending }

-- A heartbeat before the response ends the session by a Session Termination.
early_heartbeat :
    step pending (recv_message build_heartbeat)
    ≡ ran (error_actions fast (DataItem.status unexpected_message [])) (record pending {
      state = RouterSessionState.terminating;
      termination_reason = unexpected_message;
    })
unfolding step stepped command_of uncommanded received screened build_heartbeat fatal_status checked
    check_received validate_message is_expected protocol_error fail_with
early_heartbeat = refl
