-- ===== src/Fsm/Discovery/Handshake.antt =====
-- A router that looks for peers and a modem that answers.
use dlep.Base.{
  ◌≤◌, Octets, length, length-append, length-to_be_bytes, to_be_bytes, eq_octets, Bool, true, false,
  List, [], ◌∷◌, some, ok, ◌≡◌, refl, ap, ◌∙◌, arith, contains, retain, inl, inr, octets_eq,
}
use dlep.Core.Ids.{signal_peer_offer, signal_peer_discovery}
use dlep.Core.Ipnet.{Ipnet}
use dlep.Core.Utf8.{Text}
use dlep.Core.Item.{DataItem}
use dlep.Core.Codec.Encode.{encode_item}
use dlep.Core.Codec.Wire.{Encodable, item_octets, tlv, port_octets}
use dlep.Core.Codec.Encode.Item.{encode_item_lem}
use dlep.Fsm.Events.{
  SocketAddr, v4, v6, OfferEndpoint, unicast, recv_signal, send_signal, emit, peer_discovered,
}
use dlep.Fsm.Discovery.{
  build_peer_discovery, build_peer_offer, peer_type_item, connection_point_item, endpoint_of,
  endpoints_of, scope_from, ip_octets, is_usable, insert_by_rank, sort_by_rank, dedup_after, dedup,
  offer_endpoints, extract_peer_description, first_description, bytes_of, admit, valid_items,
  valid_signal,
}
use dlep.Fsm.Discovery.Machines.{
  ModemDiscoveryFsm, offer_burst, modem_step, RouterDiscoveryConfig, RouterDiscoveryFsm, probing,
  router_step, router_offer,
}

module _ ⦃ip : Ipnet⦄ where
  encoded : (item : DataItem) → Encodable item → encode_item item [] ≡ (ok tt, item_octets item)
  encoded item good = elim (encode_item_lem item []) [
    | inl (_, e) ↦ e
    | inr (x, e, bad) ↦ absurd (bad good)
  ]

  -- One round of the loop of `valid_signal`.
  valid_step :
      (offer peer_type named : Bool) (seen : List Octets) (item : DataItem) (items : List DataItem)
      → admit offer peer_type item ≡ some named
      → Encodable item
      → contains seen (item_octets item) ≡ false
      → valid_items offer peer_type seen (item ∷ items)
        ≡ valid_items offer named (item_octets item ∷ seen) items
  unfolding valid_items
  valid_step offer peer_type named seen item items a good new =
      let bytes : bytes_of (encode_item item []) ≡ some (item_octets item) =
        ap bytes_of (encoded item good) in
      ground arith

  -- A description that fits into an item.
  abbrev pub IsShort : Text → Type 0
  IsShort t = length t ≤ 65534

  named_item : (t : Text) → IsShort t → Encodable (peer_type_item t)
  named_item t h = (tt, omega arith)

  point_item :
      (a : SocketAddr) (use_tls : Bool)
      → length (ip_octets a) ≤ 16
      → Encodable (connection_point_item a use_tls)
  point_item (v4 addr port) use_tls h = (
    tt,
    omega (arith, length-append {0} addr (port_octets (some port)), length-to_be_bytes 2 port),
  )
  point_item (v6 addr port flowinfo scope_id) use_tls h = (
    tt,
    omega (arith, length-append {0} addr (port_octets (some port)), length-to_be_bytes 2 port),
  )

  point_admitted :
      (a : SocketAddr) (use_tls : Bool)
      → admit true true (connection_point_item a use_tls) ≡ some true
  unfolding admit
  point_admitted (v4 addr port) use_tls = refl
  point_admitted (v6 addr port flowinfo scope_id) use_tls = refl

  point_new :
      (a : SocketAddr) (use_tls : Bool) (t : Text)
      → contains
          (item_octets (peer_type_item t) ∷ [])
          (item_octets (connection_point_item a use_tls))
        ≡ false
  unfolding contains tlv to_be_bytes eq_octets
  point_new (v4 addr port) use_tls t = refl
  point_new (v6 addr port flowinfo scope_id) use_tls t = refl

  valid-build_peer_discovery : (t : Text) → IsShort t → valid_signal (build_peer_discovery t) ≡ true
  unfolding valid_signal build_peer_discovery valid_items admit contains
  valid-build_peer_discovery t h =
      valid_step false false true [] (peer_type_item t) [] refl (named_item t h) refl

  valid-build_peer_offer :
      (t : Text) (a : SocketAddr) (use_tls : Bool)
      → IsShort t
      → length (ip_octets a) ≤ 16
      → valid_signal (build_peer_offer t a use_tls) ≡ true
  unfolding valid_signal build_peer_offer valid_items admit contains
  valid-build_peer_offer t a use_tls h l =
      valid_step true false true [] (peer_type_item t) (connection_point_item a use_tls ∷ []) refl
        (named_item t h) refl
      ∙ valid_step true true true (item_octets (peer_type_item t) ∷ [])
          (connection_point_item a use_tls) [] (point_admitted a use_tls) (point_item a use_tls l)
          (point_new a use_tls t)

  -- The modem's endpoint as the router sees it: a link-local address gets the scope of the
  -- interface where the offer came from.
  abbrev pub seen_from : SocketAddr → SocketAddr → SocketAddr
  seen_from source (v4 addr port) = v4 addr port
  seen_from source (v6 addr port flowinfo scope_id) = v6 addr port 0 (scope_from source addr)

  abbrev pub offered : SocketAddr → ModemDiscoveryFsm → OfferEndpoint
  offered source modem = record {
    addr = seen_from source modem.tcp_endpoint;
    use_tls = modem.use_tls;
  }

  offered_alone :
      (source a : SocketAddr) (t : Text) (use_tls : Bool)
      → is_usable (record { addr = seen_from source a; use_tls = use_tls }) ≡ true
      → offer_endpoints (build_peer_offer t a use_tls) source
        ≡ record { addr = seen_from source a; use_tls = use_tls } ∷ []
  unfolding offer_endpoints build_peer_offer endpoints_of endpoint_of retain sort_by_rank
      insert_by_rank dedup dedup_after
  offered_alone source (v4 addr port) t use_tls u = rw u
  offered_alone source (v6 addr port flowinfo scope_id) t use_tls u = rw u

  offer_type :
      (t : Text) (a : SocketAddr) (use_tls : Bool)
      → (build_peer_offer t a use_tls).signal_type ≡ signal_peer_offer
  unfolding build_peer_offer
  offer_type t a use_tls = refl

  discovery_type : (t : Text) → (build_peer_discovery t).signal_type ≡ signal_peer_discovery
  unfolding build_peer_discovery
  discovery_type t = refl

  named_by :
      (t : Text) (a : SocketAddr) (use_tls : Bool)
      → extract_peer_description (build_peer_offer t a use_tls) ≡ some t
  unfolding extract_peer_description first_description build_peer_offer
  named_by t a use_tls = refl

  -- When the endpoint of a modem is one that a router can use and its address has at most 16
  -- octets, and the descriptions of both are short enough for an item, the modem answers the Peer
  -- Discovery of the router, and a probing router that receives the answer reports the modem's
  -- description and its endpoint with the modem's choice of TLS.
  pub discovery_handshake :
      (router : RouterDiscoveryConfig) (modem : ModemDiscoveryFsm) (client source : SocketAddr)
      → IsShort router.peer_description
      → IsShort modem.peer_description
      → length (ip_octets modem.tcp_endpoint) ≤ 16
      → is_usable (offered source modem) ≡ true
      → let offer = build_peer_offer modem.peer_description modem.tcp_endpoint modem.use_tls in
        let waiting : RouterDiscoveryFsm = record { state = probing; config = router } in
        (modem_step modem (recv_signal (build_peer_discovery router.peer_description) client)
          ≡ (send_signal offer (unicast client) ∷ [], record modem { state = offer_burst }))
        × (router_step waiting (recv_signal offer source) ≡ (
          emit (peer_discovered (offered source modem ∷ []) (some modem.peer_description)) ∷ [],
          waiting,
        ))
  unfolding modem_step router_step router_offer
  discovery_handshake router modem client source r m l u =
      let t = modem.peer_description in
      let a = modem.tcp_endpoint in
      (
        rw (
          valid-build_peer_discovery router.peer_description r,
          discovery_type router.peer_description,
        ),
        rw (
          router_offer,
          valid-build_peer_offer t a modem.use_tls m l,
          offered_alone source a t modem.use_tls u,
          named_by t a modem.use_tls,
          offer_type t a modem.use_tls,
        ),
      )
