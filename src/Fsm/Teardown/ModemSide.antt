-- ===== src/Fsm/Teardown/ModemSide.antt =====
-- The end of a session at a machine of crates/dlep-fsm/src/session_modem.rs.
use dlep.Base.{◌++◌, false, [], ◌∷◌, ok, ◌≡◌, nat_eq}
use dlep.Core.Ipnet.{Ipnet}
use dlep.Core.Status.{StatusCode}
use dlep.Fsm.Validation.{validate_mac_format}
use dlep.Fsm.Validation.Transactions.{first_mac, extract_destination_mac, validate_transaction}
use dlep.Fsm.Events.{recv_message, app_shutdown, command_of}
use dlep.Fsm.Common.{termination_timeout}
use dlep.Fsm.Common.Accepted.{validate-build_session_termination}
use dlep.Fsm.Common.Builders.{
  build_session_termination, build_session_termination_response, extract_status, find_map,
}
use dlep.Fsm.Session.{ran, shutdown_actions}
use dlep.Fsm.Session.Machine.{run}
use dlep.Fsm.Modem.{ModemSessionState, ModemSessionFsm}
use dlep.Fsm.Modem.Checks.{check_received, check_addresses, check_unanswered}
use dlep.Fsm.Modem.Handlers.{on_message}
use dlep.Fsm.Modem.Basic.{on_termination}
use dlep.Fsm.Modem.Step.{
  when_in_session, when_terminating, handle_in, handle, checked, screened, received, uncommanded,
  stepped, step,
}
use dlep.Fsm.Teardown.{told, answered}

module _ ⦃ip : Ipnet⦄ (fsm : ModemSessionFsm) (reason : StatusCode)
    (inside : fsm.state ≡ ModemSessionState.in_session) where
  modem_received : check_received fsm (build_session_termination reason) ≡ ok tt
  unfolding check_received check_addresses check_unanswered validate_mac_format validate_transaction
      extract_destination_mac first_mac build_session_termination
  modem_received =
      simp
        (inside, validate-build_session_termination reason false fsm.config.advertised_extensions)

  pub modem_told :
      step fsm (recv_message (build_session_termination reason))
      ≡ ran (told reason) (record fsm { state = ModemSessionState.terminated })
  unfolding step stepped uncommanded received screened checked handle handle_in when_in_session
      on_message on_termination command_of build_session_termination extract_status find_map
      build_session_termination_response
  modem_told = simp (inside, modem_received)

  pub modem_shuts_down :
      run step fsm (app_shutdown reason ∷ recv_message build_session_termination_response ∷ [])
      ≡ ran
          (shutdown_actions fsm.config reason ++ answered reason)
          (record fsm { state = ModemSessionState.terminated; termination_reason = reason })
  unfolding run step stepped uncommanded received handle handle_in when_in_session when_terminating
      command_of shutdown_actions build_session_termination build_session_termination_response
      termination_timeout
  modem_shuts_down = simp inside
