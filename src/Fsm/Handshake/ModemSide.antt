-- ===== src/Fsm/Handshake/ModemSide.antt =====
-- What a new machine of crates/dlep-fsm/src/session_modem.rs does with the router's first message.
use dlep.Base.{◌*◌, ◌≤◌, true, false, List, [], ◌∷◌, All, some, ok, ◌≡◌, refl, ap}
use dlep.Core.Ids.{msg_session_initialization}
use dlep.Core.Ipnet.{Ipnet}
use dlep.Core.Codec.Wire.{Encodable}
use dlep.Core.Codec.Encode.{u32_max}
use dlep.Fsm.Addresses.{addrs_empty}
use dlep.Fsm.Events.{
  TimerKind, recv_message, tcp_accepted, FsmAction, send_message, start_timer, cancel_timer,
  reset_heartbeat, emit, session_up, command_of,
}
use dlep.Fsm.Common.{SessionConfig, local_heartbeat_interval}
use dlep.Fsm.Common.Builders.{no_metrics}
use dlep.Fsm.Common.Heartbeat.{heartbeat_agreed}
use dlep.Fsm.Session.{
  ran, reset_actions, first_addresses, timer_session_init, timer_heartbeat, timer_heartbeat_missed,
}
use dlep.Fsm.Session.Machine.{run}
use dlep.Fsm.Router.{build_session_initialization}
use dlep.Fsm.Modem.{
  ModemSessionState, ModemSessionFsm, build_session_initialization_response, with_config,
}
use dlep.Fsm.Modem.Checks.{check_received, check_addresses}
use dlep.Fsm.Modem.Handlers.{on_initialization}
use dlep.Fsm.Modem.Step.{
  when_listening, when_awaiting, handle_in, handle, checked, screened, received, uncommanded,
  stepped, step,
}
use dlep.Fsm.Handshake.{Found, found, faultless, init-Found, validate-faultless, apply_none}

module _ ⦃ip : Ipnet⦄ (modem router : SessionConfig) where
  -- The modem of a new connection, which waits for the router's message.
  abbrev waiting : ModemSessionFsm
  waiting = record (with_config modem) { state = ModemSessionState.awaiting_session_init }

  abbrev seen : Found
  seen =
      faultless msg_session_initialization (local_heartbeat_interval router)
        router.advertised_extensions no_metrics

  init-seen :
      found false false modem.mac_address_format (build_session_initialization router) ≡ seen
  init-seen = init-Found router false modem.mac_address_format

  waiting_received :
      All Encodable (build_session_initialization router).data_items
      → check_received waiting (build_session_initialization router) ≡ ok tt
  unfolding check_received check_addresses
  waiting_received e =
      let (valid, format) =
        validate-faultless (build_session_initialization router) false modem.advertised_extensions
          modem.mac_address_format _ _ _ e (λ u. init-Found router u modem.mac_address_format) in
      rw
        (
          check_received,
          valid,
          format,
          check_addresses,
          ap (λ (f : Found). f.changes) init-seen,
          apply_none,
        )
        refl

  reset_seen :
      router.heartbeat_interval_ms ≤ u32_max
      → reset_actions (some (local_heartbeat_interval router))
        ≡ reset_heartbeat timer_heartbeat_missed (local_heartbeat_interval router * 2) ∷ []
  unfolding reset_actions local_heartbeat_interval
  reset_seen h = rw (reset_actions, (heartbeat_agreed router timer_heartbeat_missed h).1) refl

  -- The modem in session with the router.
  abbrev pub modem_opened : ModemSessionFsm
  modem_opened = record (with_config modem) {
    state = ModemSessionState.in_session;
    peer_heartbeat_interval = some (local_heartbeat_interval router);
    peer_extensions = router.advertised_extensions;
  }

  abbrev pub modem_actions : List FsmAction
  modem_actions =
      cancel_timer timer_session_init
      ∷ send_message (build_session_initialization_response modem)
      ∷ start_timer timer_heartbeat TimerKind.heartbeat (local_heartbeat_interval modem) true
      ∷ reset_heartbeat timer_heartbeat_missed (local_heartbeat_interval router * 2)
      ∷ emit (session_up router.advertised_extensions)
      ∷ []

  initialized :
      router.heartbeat_interval_ms ≤ u32_max
      → on_initialization waiting (build_session_initialization router)
        ≡ ran modem_actions modem_opened
  unfolding on_initialization first_addresses addrs_empty
  initialized h =
      rw
        (
          ap (λ (f : Found). f.changes) init-seen,
          ap (λ (f : Found). f.interval) init-seen,
          ap (λ (f : Found). f.extensions) init-seen,
          reset_seen h,
        )
        refl

  waiting_step :
      router.heartbeat_interval_ms ≤ u32_max
      → All Encodable (build_session_initialization router).data_items
      → step waiting (recv_message (build_session_initialization router))
        ≡ ran modem_actions modem_opened
  unfolding step stepped uncommanded received screened checked handle handle_in when_awaiting
      command_of
  waiting_step h e = simp (
    ap (λ (f : Found). f.kind) init-seen,
    ap (λ (f : Found). f.fatal) init-seen,
    waiting_received e,
    initialized h,
  )

  -- A new modem that takes a connection and the router's message.
  pub modem_opens :
      router.heartbeat_interval_ms ≤ u32_max
      → All Encodable (build_session_initialization router).data_items
      → run step
          (with_config modem)
          (tcp_accepted ∷ recv_message (build_session_initialization router) ∷ [])
        ≡ ran
            (start_timer timer_session_init TimerKind.session_init modem.session_init_timeout false
              ∷ modem_actions)
            modem_opened
  unfolding run step stepped uncommanded handle handle_in when_listening command_of
  modem_opens h e = rw (waiting_step h e) refl
