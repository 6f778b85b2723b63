-- ===== src/Fsm/Handshake/RouterSide.antt =====
-- What a new machine of crates/dlep-fsm/src/session_router.rs does with the modem's first message.
use dlep.Base.{◌*◌, ◌≤◌, true, false, List, [], ◌∷◌, All, some, ok, ◌≡◌, refl, ap}
use dlep.Core.Ids.{msg_session_initialization_response}
use dlep.Core.Ipnet.{Ipnet}
use dlep.Core.Codec.Wire.{Encodable}
use dlep.Core.Codec.Encode.{u32_max}
use dlep.Fsm.Addresses.{addrs_empty}
use dlep.Fsm.Events.{
  TimerKind, recv_message, tcp_connected, FsmAction, send_message, start_timer, cancel_timer,
  reset_heartbeat, emit, session_up, session_metrics_update, command_of,
}
use dlep.Fsm.Common.{SessionConfig, local_heartbeat_interval}
use dlep.Fsm.Common.Heartbeat.{heartbeat_agreed}
use dlep.Fsm.Session.{
  ran, reset_actions, first_addresses, timer_session_init, timer_heartbeat, timer_heartbeat_missed,
}
use dlep.Fsm.Session.Machine.{run}
use dlep.Fsm.Modem.{build_session_initialization_response}
use dlep.Fsm.Router.{
  RouterSessionState, RouterSessionFsm, build_session_initialization, with_config, metric_types,
}
use dlep.Fsm.Router.Checks.{check_received, check_addresses}
use dlep.Fsm.Router.Handlers.{on_initialized, on_initialization_response}
use dlep.Fsm.Router.Step.{
  when_closed, when_pending, handle_in, handle, checked, screened, received, uncommanded, stepped,
  step,
}
use dlep.Fsm.Handshake.{Found, found, faultless, response-Found, validate-faultless, apply_none}

module _ ⦃ip : Ipnet⦄ (router modem : SessionConfig) where
  -- The router of a new connection, which waits for the modem's answer.
  abbrev waiting : RouterSessionFsm
  waiting = record (with_config router) { state = RouterSessionState.session_init_pending }

  abbrev seen : Found
  seen =
      faultless msg_session_initialization_response (local_heartbeat_interval modem)
        modem.advertised_extensions modem.initial_metrics

  response-seen :
      found true false router.mac_address_format (build_session_initialization_response modem)
      ≡ seen
  response-seen = response-Found modem false router.mac_address_format

  waiting_received :
      All Encodable (build_session_initialization_response modem).data_items
      → check_received waiting (build_session_initialization_response modem) ≡ ok tt
  unfolding check_received check_addresses
  waiting_received e =
      let (valid, format) =
        validate-faultless (build_session_initialization_response modem) true
          router.advertised_extensions router.mac_address_format _ _ _ e
          (λ u. response-Found modem u router.mac_address_format) in
      rw
        (
          check_received,
          valid,
          format,
          check_addresses,
          ap (λ (f : Found). f.changes) response-seen,
          apply_none,
        )
        refl

  reset_seen :
      modem.heartbeat_interval_ms ≤ u32_max
      → reset_actions (some (local_heartbeat_interval modem))
        ≡ reset_heartbeat timer_heartbeat_missed (local_heartbeat_interval modem * 2) ∷ []
  unfolding reset_actions local_heartbeat_interval
  reset_seen h = rw (reset_actions, (heartbeat_agreed modem timer_heartbeat_missed h).1) refl

  -- The router in session with the modem.
  abbrev pub router_opened : RouterSessionFsm
  router_opened = record (with_config router) {
    state = RouterSessionState.in_session;
    session_metrics = modem.initial_metrics;
    session_metric_types = metric_types (build_session_initialization_response modem).data_items;
    peer_heartbeat_interval = some (local_heartbeat_interval modem);
    peer_extensions = modem.advertised_extensions;
  }

  abbrev pub router_actions : List FsmAction
  router_actions =
      cancel_timer timer_session_init
      ∷ start_timer timer_heartbeat TimerKind.heartbeat (local_heartbeat_interval router) true
      ∷ reset_heartbeat timer_heartbeat_missed (local_heartbeat_interval modem * 2)
      ∷ emit (session_up modem.advertised_extensions)
      ∷ emit (session_metrics_update modem.initial_metrics)
      ∷ []

  initialized :
      modem.heartbeat_interval_ms ≤ u32_max
      → on_initialized waiting (build_session_initialization_response modem)
        ≡ ran router_actions router_opened
  unfolding on_initialized first_addresses addrs_empty
  initialized h =
      rw
        (
          ap (λ (f : Found). f.changes) response-seen,
          ap (λ (f : Found). f.interval) response-seen,
          ap (λ (f : Found). f.extensions) response-seen,
          ap (λ (f : Found). f.metrics) response-seen,
          reset_seen h,
        )
        refl

  waiting_step :
      modem.heartbeat_interval_ms ≤ u32_max
      → All Encodable (build_session_initialization_response modem).data_items
      → step waiting (recv_message (build_session_initialization_response modem))
        ≡ ran router_actions router_opened
  unfolding step stepped uncommanded received screened checked handle handle_in when_pending
      on_initialization_response command_of
  waiting_step h e = simp (
    ap (λ (f : Found). f.kind) response-seen,
    ap (λ (f : Found). f.fatal) response-seen,
    ap (λ (f : Found). f.status) response-seen,
    waiting_received e,
    initialized h,
  )

  -- A new router that opens a connection and takes the modem's message.
  pub router_opens :
      modem.heartbeat_interval_ms ≤ u32_max
      → All Encodable (build_session_initialization_response modem).data_items
      → run step
          (with_config router)
          (tcp_connected ∷ recv_message (build_session_initialization_response modem) ∷ [])
        ≡ ran
            (send_message (build_session_initialization router)
              ∷ start_timer timer_session_init TimerKind.session_init router.session_init_timeout
                  false
              ∷ router_actions)
            router_opened
  unfolding run step stepped uncommanded handle handle_in when_closed command_of
  router_opens h e = rw (waiting_step h e) refl
