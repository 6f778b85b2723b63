-- ===== src/Fsm/Discovery/Machines.antt =====
-- crates/dlep-fsm/src/discovery_modem.rs and discovery_router.rs.
use dlep.Base.{◌==◌, Bool, true, not, if◌then◌else◌, List, [], ◌∷◌, octets_eq}
use dlep.Core.Ids.{signal_peer_discovery, signal_peer_offer}
use dlep.Core.Ipnet.{Ipnet}
use dlep.Core.Metrics.{Duration}
use dlep.Core.Utf8.{Text}
use dlep.Core.Item.{Signal}
use dlep.Fsm.Events.{
  SocketAddr, OfferEndpoint, TimerId, TimerKind, discovery_group, unicast, FsmEvent, recv_signal,
  timer_expired, app_start_discovery, app_shutdown, FsmAction, send_signal, start_timer,
  cancel_timer, emit, peer_discovered,
}
use dlep.Fsm.Discovery.{
  build_peer_discovery, build_peer_offer, extract_peer_description, offer_endpoints, valid_signal,
}

pub data ModemDiscoveryState : Type 0 where
  listening offer_burst : ModemDiscoveryState

pub record ModemDiscoveryFsm : Type 0 where
  pub state : ModemDiscoveryState
  pub tcp_endpoint : SocketAddr
  pub peer_description : Text
  pub use_tls : Bool

-- `ModemDiscoveryFsm::new`.
abbrev pub new_modem : SocketAddr → Text → Bool → ModemDiscoveryFsm
new_modem tcp_endpoint peer_description use_tls = record {
  state = listening;
  tcp_endpoint = tcp_endpoint;
  peer_description = peer_description;
  use_tls = use_tls;
}

module _ ⦃ip : Ipnet⦄ where
  -- `ModemDiscoveryFsm::step`: the actions, and the new state.
  unfoldable pub modem_step : ModemDiscoveryFsm → FsmEvent → List FsmAction × ModemDiscoveryFsm
  modem_step fsm (recv_signal signal from) =
      if signal.signal_type == signal_peer_discovery
      then (if not (valid_signal signal) then ([], fsm) else (
        send_signal (build_peer_offer fsm.peer_description fsm.tcp_endpoint fsm.use_tls)
              (unicast from)
            ∷ [],
        record fsm { state = offer_burst },
      ))
      else ([], fsm)
  modem_step fsm (app_shutdown reason) = ([], record fsm { state = listening })
  modem_step fsm _ = ([], fsm)

abbrev pub timer_discovery : TimerId
timer_discovery = 10

pub data RouterDiscoveryState : Type 0 where
  idle probing offer_received : RouterDiscoveryState

pub record RouterDiscoveryConfig : Type 0 where
  pub peer_description : Text
  pub discovery_interval : Duration

pub record RouterDiscoveryFsm : Type 0 where
  pub state : RouterDiscoveryState
  pub config : RouterDiscoveryConfig

-- `RouterDiscoveryFsm::with_config`.
abbrev pub with_config : RouterDiscoveryConfig → RouterDiscoveryFsm
with_config config = record { state = idle; config = config }

abbrev pub send_discovery : RouterDiscoveryConfig → FsmAction
send_discovery config = send_signal (build_peer_discovery config.peer_description) discovery_group

-- The end of the arm for an inbound Peer Offer.
abbrev pub report_offer : Signal → List OfferEndpoint → List FsmAction
report_offer signal [] = []
report_offer signal (e ∷ es) =
    emit (peer_discovered (e ∷ es) (extract_peer_description signal)) ∷ []

module _ ⦃ip : Ipnet⦄ where
  unfoldable pub router_offer : Signal → SocketAddr → List FsmAction
  router_offer signal from =
      if signal.signal_type == signal_peer_offer
      then (if not (valid_signal signal)
          then []
          else report_offer signal (offer_endpoints signal from))
      else []

  -- `RouterDiscoveryFsm::step`: the actions, and the new state.
  unfoldable pub router_step : RouterDiscoveryFsm → FsmEvent → List FsmAction × RouterDiscoveryFsm
  router_step fsm app_start_discovery = elim fsm.state [
    | idle ↦ (
      send_discovery fsm.config
          ∷ start_timer timer_discovery TimerKind.discovery fsm.config.discovery_interval true
          ∷ [],
      record fsm { state = probing },
    )
    | probing ↦ ([], fsm)
    | offer_received ↦ ([], fsm)
  ]
  router_step fsm (timer_expired id TimerKind.discovery) = elim fsm.state [
    | probing ↦ (send_discovery fsm.config ∷ [], fsm)
    | idle ↦ ([], fsm)
    | offer_received ↦ ([], fsm)
  ]
  router_step fsm (recv_signal signal from) = elim fsm.state [
    | probing ↦ (router_offer signal from, fsm)
    | idle ↦ ([], fsm)
    | offer_received ↦ ([], fsm)
  ]
  router_step fsm (app_shutdown reason) = (
    elim fsm.state [
      | probing ↦ cancel_timer timer_discovery ∷ []
      | idle ↦ []
      | offer_received ↦ []
    ],
    record fsm { state = idle },
  )
  router_step fsm _ = ([], fsm)
