-- ===== src/Examples/Discovery.antt =====
-- Discovery of a modem.
use dlep.Base.{
  ℕ, Octets, true, false, List, [], ◌∷◌, Option, none, some, ◌≡◌, ◌↔◌, refl, arith, contains,
  retain, eq_octets,
}
use dlep.Core.Metrics.{from_millis}
use dlep.Core.Item.{DataItem, Signal}
use dlep.Fsm.Events.{
  SocketAddr, v4, OfferEndpoint, FsmEvent, TimerKind, recv_signal, timer_expired,
  app_start_discovery, app_shutdown, send_signal, unicast, emit, peer_discovered,
}
use dlep.Fsm.Discovery.{
  build_peer_discovery, build_peer_offer, is_usable, all_zero, endpoint_eq, endpoints_of,
  endpoint_of, offer_endpoints, rank, insert_by_rank, sort_by_rank, dedup, dedup_after, eq_endpoint,
  eq_addr,
}
use dlep.Fsm.Discovery.Machines.{
  ModemDiscoveryFsm, new_modem, offer_burst, modem_step, RouterDiscoveryConfig, with_config,
  probing, router_step,
}
use dlep.Fsm.Discovery.Timer.{run, is_probing, armed_iff_probing}
use dlep.Fsm.Discovery.Candidates.{IsOrdered, NoRepeat, CanReach, Candidate}
use dlep.Fsm.Discovery.Offers.{offer_endpoints_lem}
use dlep.Fsm.Discovery.Handshake.{offered, discovery_handshake}
use dlep.Examples.Data.{example_net, modem_text, offer}

abbrev config : RouterDiscoveryConfig
config = record { peer_description = modem_text; discovery_interval = from_millis 5000 }

abbrev modem_addr : SocketAddr
modem_addr = v4 (192 ∷ 0 ∷ 2 ∷ 10 ∷ []) 854

abbrev other_addr : SocketAddr
other_addr = v4 (192 ∷ 0 ∷ 2 ∷ 11 ∷ []) 854

abbrev modem : ModemDiscoveryFsm
modem = new_modem modem_addr modem_text true

abbrev events : List FsmEvent
events =
    app_start_discovery
    ∷ timer_expired 10 TimerKind.discovery
    ∷ recv_signal offer modem_addr
    ∷ app_shutdown 255
    ∷ app_start_discovery
    ∷ []

armed_iff_probing_example :
    (run false (with_config config) events).0
    ≡ is_probing (run false (with_config config) events).1.state
armed_iff_probing_example = armed_iff_probing config events

offer_endpoints_lem_example :
    IsOrdered (offer_endpoints offer other_addr)
    × NoRepeat (offer_endpoints offer other_addr)
    × ((e : OfferEndpoint)
        → (contains (offer_endpoints offer other_addr) e ≡ true)
          ↔ (CanReach e.addr × Candidate other_addr offer.data_items e))
offer_endpoints_lem_example = offer_endpoints_lem offer other_addr

modem_usable : is_usable (offered other_addr modem) ≡ true
unfolding is_usable all_zero
modem_usable = refl

discovery_handshake_example :
    (modem_step modem (recv_signal (build_peer_discovery modem_text) other_addr) ≡ (
      send_signal (build_peer_offer modem_text modem_addr true) (unicast other_addr) ∷ [],
      record modem { state = offer_burst },
    ))
    × (router_step
          (record { state = probing; config = config })
          (recv_signal (build_peer_offer modem_text modem_addr true) other_addr)
        ≡ (
          emit (peer_discovered (offered other_addr modem ∷ []) (some modem_text)) ∷ [],
          record { state = probing; config = config },
        ))
discovery_handshake_example =
    discovery_handshake config modem other_addr other_addr (omega arith) (omega arith) (omega arith)
      modem_usable

abbrev point : Octets → Option ℕ → DataItem
point addr port = DataItem.ipv4_connection_point (record { use_tls = false }) addr port

-- An offer that names one endpoint twice, without a port and with the default port, and another in
-- between.
abbrev twice : Signal
twice = record {
  signal_type = 2;
  data_items =
      point (192 ∷ 0 ∷ 2 ∷ 10 ∷ []) none
      ∷ point (192 ∷ 0 ∷ 2 ∷ 11 ∷ []) none
      ∷ point (192 ∷ 0 ∷ 2 ∷ 10 ∷ []) (some 854)
      ∷ [];
}

abbrev plain : SocketAddr → OfferEndpoint
plain a = record { addr = a; use_tls = false }

-- Equal ranks keep the two apart, so `dedup` leaves both.
twice_run :
    offer_endpoints twice other_addr ≡ plain modem_addr ∷ plain other_addr ∷ plain modem_addr ∷ []
unfolding offer_endpoints endpoints_of endpoint_of retain sort_by_rank insert_by_rank dedup
    dedup_after is_usable all_zero rank eq_endpoint eq_addr eq_octets
twice_run = refl
