-- ===== src/Examples/Machines.antt =====
-- Runs of the session machines of crates/dlep-fsm/src/session_router.rs and session_modem.rs.
use dlep.Base.{
  true, false, [], ◌∷◌, ◌++◌, some, List, All, length-to_be_bytes, ◌≡◌, refl, get, contains, arith,
}
use dlep.Core.Status.{success}
use dlep.Fsm.Addresses.{no_addrs}
use dlep.Fsm.Transaction.{RequestKind, no_transactions}
use dlep.Fsm.Events.{
  TimerKind, FsmEvent, recv_message, tcp_connected, tcp_accepted, send_message, start_timer,
  tcp_closed, timer_expired, app_shutdown, app_drop_destination, CommandInfo, CommandKind,
  command_of,
}
use dlep.Fsm.Common.Builders.{
  build_destination_down, build_heartbeat, no_metrics, push_extensions_supported, push_metric_items,
  push_some,
}
use dlep.Fsm.Session.{ran, timer_session_init}
use dlep.Fsm.Session.Lifecycle.{Phase, Legal}
use dlep.Fsm.Session.Machine.{Ends, run, Course}
use dlep.Fsm.Router.{RouterSessionState, RouterSessionFsm, build_session_initialization}
use dlep.Fsm.Router.Refused.{session_router-Answered}
use dlep.Fsm.Router.Refines.{session_router-Legal}
use dlep.Fsm.Router.Course.{session_router-Course, session_router_stops}
use dlep.Fsm.Modem.{ModemSessionState, ModemSessionFsm, build_session_initialization_response}
use dlep.Fsm.Modem.Refused.{session_modem-Answered}
use dlep.Fsm.Modem.Refines.{session_modem-Legal}
use dlep.Fsm.Modem.Course.{session_modem-Course, session_modem_stops}
use dlep.Fsm.Handshake.ModemSide.{modem_actions, modem_opened}
use dlep.Fsm.Handshake.RouterSide.{router_actions, router_opened}
use dlep.Fsm.Handshake.Opened.{session_handshake}
use dlep.Examples.Data.{example_net, mac}
use dlep.Core.Codec.Wire.{Encodable}
use dlep.Fsm.Common.{SessionConfig, local_heartbeat_interval}
use dlep.Examples.Session.{fast}

-- A router in session that knows a destination and has asked for its characteristics.
abbrev asking : RouterSessionFsm
asking = record (dlep.Fsm.Router.with_config fast) {
  state = RouterSessionState.in_session;
  destinations = (mac, record { up = true; metrics = no_metrics; addrs = no_addrs }) ∷ [];
  tx = record no_transactions {
    per_destination = (mac, record { kind = RequestKind.link_characteristics }) ∷ [];
  };
}

asking-IsSound : dlep.Fsm.Router.Sound.IsSound asking
unfolding get
asking-IsSound m h = ground arith

-- A modem in session whose application has been asked about a destination.
abbrev asked : ModemSessionFsm
asked = record (dlep.Fsm.Modem.with_config fast) {
  state = ModemSessionState.in_session;
  destinations =
      (
        mac,
        record {
          announced = true;
          pending_metrics = false;
          metrics = no_metrics;
          addrs = no_addrs;
          advertised_addrs = no_addrs;
        },
      )
      ∷ [];
  pending_link_requests = mac ∷ [];
}

asked-IsSound : dlep.Fsm.Modem.Sound.IsSound asked
unfolding get contains
asked-IsSound m h = ground arith

-- The destination goes down while the request is pending.
session_router-Legal_example :
    Ends
      (λ actions next.
        Legal Phase.active actions (dlep.Fsm.Router.Sound.phase_of next.state)
        × dlep.Fsm.Router.Sound.IsSound next)
      (dlep.Fsm.Router.Step.step asking (recv_message (build_destination_down mac 0)))
session_router-Legal_example =
    session_router-Legal asking (recv_message (build_destination_down mac 0)) asking-IsSound

session_modem-Legal_example :
    Ends
      (λ actions next.
        Legal Phase.active actions (dlep.Fsm.Modem.Sound.phase_of next.state)
        × dlep.Fsm.Modem.Sound.IsSound next)
      (dlep.Fsm.Modem.Step.step asked (recv_message (build_destination_down mac 0)))
session_modem-Legal_example =
    session_modem-Legal asked (recv_message (build_destination_down mac 0)) asked-IsSound

-- A connection that stays without an answer, and is closed.
abbrev failing : List FsmEvent
failing = tcp_connected ∷ recv_message build_heartbeat ∷ tcp_closed ∷ []

session_router-Course_example :
    Ends
      (λ actions last. Course Phase.idle actions (dlep.Fsm.Router.Sound.phase_of last.state))
      (run dlep.Fsm.Router.Step.step (dlep.Fsm.Router.with_config fast) failing)
session_router-Course_example = session_router-Course fast failing

session_modem-Course_example :
    Ends
      (λ actions last. Course Phase.idle actions (dlep.Fsm.Modem.Sound.phase_of last.state))
      (run dlep.Fsm.Modem.Step.step (dlep.Fsm.Modem.with_config fast) failing)
session_modem-Course_example = session_modem-Course fast failing

session_router_stops_example :
    Ends
      (λ actions last. last.state ≡ RouterSessionState.terminated)
      (run dlep.Fsm.Router.Step.step (dlep.Fsm.Router.with_config fast) (
        (tcp_connected ∷ [])
        ++ (app_shutdown success
            ∷ ((recv_message build_heartbeat ∷ [])
                ++ (timer_expired 1 TimerKind.termination ∷ [])))))
session_router_stops_example =
    session_router_stops fast (tcp_connected ∷ []) (recv_message build_heartbeat ∷ []) success 1

session_modem_stops_example :
    Ends
      (λ actions last. last.state ≡ ModemSessionState.terminated)
      (run dlep.Fsm.Modem.Step.step (dlep.Fsm.Modem.with_config fast) (
        (tcp_connected ∷ [])
        ++ (app_shutdown success
            ∷ ((recv_message build_heartbeat ∷ [])
                ++ (timer_expired 1 TimerKind.termination ∷ [])))))
session_modem_stops_example =
    session_modem_stops fast (tcp_connected ∷ []) (recv_message build_heartbeat ∷ []) success 1

abbrev dropping : CommandInfo
dropping = record { kind = CommandKind.drop_destination; destination = some mac }

-- The destination has a pending request, so the command is refused as busy.
session_router-Answered_example :
    dlep.Fsm.Router.Refused.Answered asking dropping
      (dlep.Fsm.Router.Checks.check_command asking (app_drop_destination mac 0))
      (dlep.Fsm.Router.Step.step asking (app_drop_destination mac 0))
unfolding command_of
session_router-Answered_example =
    session_router-Answered asking (app_drop_destination mac 0) dropping asking-IsSound refl

session_modem-Answered_example :
    dlep.Fsm.Modem.Refused.Answered asked dropping
      (dlep.Fsm.Modem.Checks.check_command asked (app_drop_destination mac 0))
      (dlep.Fsm.Modem.Step.step asked (app_drop_destination mac 0))
unfolding command_of
session_modem-Answered_example =
    session_modem-Answered asked (app_drop_destination mac 0) dropping asked-IsSound refl

-- A modem with metrics of its own.
abbrev metered : SessionConfig
metered = record fast { initial_metrics = record no_metrics { mtu = some 1500 } }

init-Encodable : All Encodable (build_session_initialization fast).data_items
unfolding build_session_initialization push_extensions_supported local_heartbeat_interval
init-Encodable = ground (arith, length-to_be_bytes 4 1000)

response-Encodable : All Encodable (build_session_initialization_response metered).data_items
unfolding build_session_initialization_response push_extensions_supported push_metric_items
    push_some local_heartbeat_interval
response-Encodable =
    ground (arith, length-to_be_bytes 4 1000, length-to_be_bytes 8 0, length-to_be_bytes 2 1500)

session_handshake_example :
    (run dlep.Fsm.Router.Step.step
        (dlep.Fsm.Router.with_config fast)
        (tcp_connected ∷ recv_message (build_session_initialization_response metered) ∷ [])
      ≡ ran
          (send_message (build_session_initialization fast)
            ∷ start_timer timer_session_init TimerKind.session_init fast.session_init_timeout false
            ∷ router_actions fast metered)
          (router_opened fast metered))
    × (run dlep.Fsm.Modem.Step.step
          (dlep.Fsm.Modem.with_config metered)
          (tcp_accepted ∷ recv_message (build_session_initialization fast) ∷ [])
        ≡ ran
            (start_timer timer_session_init TimerKind.session_init metered.session_init_timeout
                false
              ∷ modem_actions metered fast)
            (modem_opened metered fast))
session_handshake_example =
    session_handshake fast metered (omega arith) (omega arith) init-Encodable response-Encodable
