-- ===== src/Fsm/Teardown/RouterSide.antt =====
-- The end of a session at a machine of crates/dlep-fsm/src/session_router.rs.
use dlep.Base.{◌++◌, true, [], ◌∷◌, ok, ◌≡◌, retain, nat_eq}
use dlep.Core.Ipnet.{Ipnet}
use dlep.Core.Status.{StatusCode}
use dlep.Fsm.Validation.{validate_mac_format, is_metric}
use dlep.Fsm.Validation.Transactions.{first_mac, extract_destination_mac, validate_transaction}
use dlep.Fsm.Events.{recv_message, app_shutdown, command_of}
use dlep.Fsm.Common.{termination_timeout}
use dlep.Fsm.Common.Accepted.{validate-build_session_termination}
use dlep.Fsm.Common.Builders.{
  build_session_termination, build_session_termination_response, extract_status, find_map,
}
use dlep.Fsm.Session.{ran, shutdown_actions}
use dlep.Fsm.Session.Machine.{run}
use dlep.Fsm.Router.{RouterSessionState, RouterSessionFsm, metric_types}
use dlep.Fsm.Router.Checks.{check_received, check_addresses, check_metrics}
use dlep.Fsm.Router.Handlers.{on_message}
use dlep.Fsm.Router.Basic.{on_termination}
use dlep.Fsm.Router.Step.{
  when_in_session, when_terminating, handle_in, handle, checked, screened, received, uncommanded,
  stepped, step,
}
use dlep.Fsm.Teardown.{told, answered}

module _ ⦃ip : Ipnet⦄ (fsm : RouterSessionFsm) (reason : StatusCode)
    (inside : fsm.state ≡ RouterSessionState.in_session) where
  router_received : check_received fsm (build_session_termination reason) ≡ ok tt
  unfolding check_received check_addresses check_metrics validate_mac_format metric_types retain
      is_metric validate_transaction extract_destination_mac first_mac build_session_termination
  router_received =
      simp (inside, validate-build_session_termination reason true fsm.config.advertised_extensions)

  pub router_told :
      step fsm (recv_message (build_session_termination reason))
      ≡ ran (told reason) (record fsm { state = RouterSessionState.terminated })
  unfolding step stepped uncommanded received screened checked handle handle_in when_in_session
      on_message on_termination command_of build_session_termination extract_status find_map
      build_session_termination_response
  router_told = simp (inside, router_received)

  pub router_shuts_down :
      run step fsm (app_shutdown reason ∷ recv_message build_session_termination_response ∷ [])
      ≡ ran
          (shutdown_actions fsm.config reason ++ answered reason)
          (record fsm { state = RouterSessionState.terminated; termination_reason = reason })
  unfolding run step stepped uncommanded received handle handle_in when_in_session when_terminating
      command_of shutdown_actions build_session_termination build_session_termination_response
      termination_timeout
  router_shuts_down = simp inside
