-- ===== src/Fsm/Handshake/Opened.antt =====
-- The initialization of a session between a new router and a new modem machine,
-- crates/dlep-fsm/src/session_router.rs and session_modem.rs.
use dlep.Base.{◌≤◌, false, [], ◌∷◌, All, ◌≡◌}
use dlep.Core.Ipnet.{Ipnet}
use dlep.Core.Codec.Wire.{Encodable}
use dlep.Core.Codec.Encode.{u32_max}
use dlep.Fsm.Events.{
  TimerKind, recv_message, tcp_connected, tcp_accepted, send_message, start_timer,
}
use dlep.Fsm.Common.{SessionConfig}
use dlep.Fsm.Session.{ran, timer_session_init}
use dlep.Fsm.Session.Machine.{run}
use dlep.Fsm.Modem.{build_session_initialization_response}
use dlep.Fsm.Router.{build_session_initialization}
use dlep.Fsm.Handshake.ModemSide.{modem_actions, modem_opened, modem_opens}
use dlep.Fsm.Handshake.RouterSide.{router_actions, router_opened, router_opens}

-- A configuration within its Rust types.
abbrev pub InRange : SessionConfig → Type 0
InRange config = config.heartbeat_interval_ms ≤ u32_max

module _ ⦃ip : Ipnet⦄ where
  -- For any two configurations whose heartbeat intervals fit their 32 bits and the items of whose
  -- initialization messages can be encoded: a new router that connects sends its Session
  -- Initialization, a new modem that accepts the connection takes it and answers, and the router
  -- takes the answer; both then are in session with the interval and extensions of the other, the
  -- router with the metrics of the modem, each with a heartbeat at its own interval and a deadline
  -- of twice the interval of the peer, and with exactly these actions and no others.
  pub session_handshake :
      (router modem : SessionConfig)
      → InRange router
      → InRange modem
      → All Encodable (build_session_initialization router).data_items
      → All Encodable (build_session_initialization_response modem).data_items
      → (run dlep.Fsm.Router.Step.step
            (dlep.Fsm.Router.with_config router)
            (tcp_connected ∷ recv_message (build_session_initialization_response modem) ∷ [])
          ≡ ran
              (send_message (build_session_initialization router)
                ∷ start_timer timer_session_init TimerKind.session_init router.session_init_timeout
                    false
                ∷ router_actions router modem)
              (router_opened router modem))
        × (run dlep.Fsm.Modem.Step.step
              (dlep.Fsm.Modem.with_config modem)
              (tcp_accepted ∷ recv_message (build_session_initialization router) ∷ [])
            ≡ ran
                (start_timer timer_session_init TimerKind.session_init modem.session_init_timeout
                    false
                  ∷ modem_actions modem router)
                (modem_opened modem router))
  session_handshake router modem h k e f =
      (router_opens router modem k f, modem_opens modem router h e)
