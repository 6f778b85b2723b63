-- ===== src/Fsm/Discovery.antt =====
-- crates/dlep-fsm/src/discovery_common.rs.
pub mod Machines
pub mod Candidates
pub mod Named
pub mod Offers
pub mod Timer
pub mod Handshake
use dlep.Base.{
  ℕ, ◌+◌, Octets, ltb, leb, ◌==◌, Bool, true, false, not, ◌&&◌, ◌||◌, if◌then◌else◌, List, [], ◌∷◌,
  ◌++◌, Option, none, some, Result, ok, err, panic, Eq, ◌≟◌, octets_eq, eq_octets, eq_octets_iff,
  contains, retain, ◌≡◌, ◌↔◌, arith, ap,
}
use dlep.Core.Ids.{signal_peer_discovery, signal_peer_offer, default_port}
use dlep.Core.Ipnet.{Ipnet}
use dlep.Core.Error.{CodecError}
use dlep.Core.Metrics.{Duration, from_millis}
use dlep.Core.Utf8.{Text}
use dlep.Core.Item.{DataItem, PeerFlags, ConnectionPointFlags, Signal, new_signal, with_signal_item}
use dlep.Core.Codec.Encode.{encode_item}
use dlep.Fsm.Events.{
  SocketAddr, v4, v6, OfferEndpoint, TimerId, TimerKind, SendTarget, discovery_group, unicast,
  FsmEvent, recv_signal, timer_expired, app_start_discovery, app_shutdown, FsmAction, send_signal,
  start_timer, cancel_timer, emit, EmittedEvent, peer_discovered,
}

-- The derived `PartialEq` of socket addresses and endpoints.
unfoldable pub eq_addr : SocketAddr → SocketAddr → Bool
eq_addr (v4 a p) (v4 b q) = eq_octets a b && (p == q)
eq_addr (v6 a p f s) (v6 b q g t) = eq_octets a b && (p == q) && (f == g) && (s == t)
eq_addr _ _ = false

abbrev pub eq_bool : Bool → Bool → Bool
eq_bool true b = b
eq_bool false b = not b

unfoldable pub eq_endpoint : OfferEndpoint → OfferEndpoint → Bool
eq_endpoint a b = eq_addr a.addr b.addr && eq_bool a.use_tls b.use_tls

pub eq_addr_iff : (a b : SocketAddr) → (eq_addr a b ≡ true) ↔ (a ≡ b)
unfolding eq_addr
eq_addr_iff (v4 a p) (v4 b q) =
    (λ h. ground (arith, eq_octets_iff a b), λ h. ground (arith, eq_octets_iff a b))
eq_addr_iff (v6 a p f s) (v6 b q g t) =
    (λ h. ground (arith, eq_octets_iff a b), λ h. ground (arith, eq_octets_iff a b))
eq_addr_iff (v4 a p) (v6 b q g t) = (λ h. cc, λ h. cc)
eq_addr_iff (v6 a p f s) (v4 b q) = (λ h. cc, λ h. cc)

instance abbrev pub addr_eq : Eq SocketAddr
addr_eq = record { beq = eq_addr; beq_iff = eq_addr_iff }

pub eq_endpoint_iff : (a b : OfferEndpoint) → (eq_endpoint a b ≡ true) ↔ (a ≡ b)
unfolding eq_endpoint
eq_endpoint_iff a b =
    (λ h. ground (arith, eq_addr_iff a.addr b.addr), λ h. ground (arith, eq_addr_iff a.addr b.addr))

instance abbrev pub endpoint_eq : Eq OfferEndpoint
endpoint_eq = record { beq = eq_endpoint; beq_iff = eq_endpoint_iff }

abbrev pub peer_type_item : Text → DataItem
peer_type_item description = DataItem.peer_type (record { smi = false }) description

unfoldable pub build_peer_discovery : Text → Signal
build_peer_discovery peer_description =
    with_signal_item (new_signal signal_peer_discovery) (peer_type_item peer_description)

abbrev pub connection_point_item : SocketAddr → Bool → DataItem
connection_point_item (v4 ip port) use_tls =
    DataItem.ipv4_connection_point (record { use_tls = use_tls }) ip (some port)
connection_point_item (v6 ip port flowinfo scope_id) use_tls =
    DataItem.ipv6_connection_point (record { use_tls = use_tls }) ip (some port)

unfoldable pub build_peer_offer : Text → SocketAddr → Bool → Signal
build_peer_offer peer_description tcp_endpoint use_tls =
    with_signal_item
      (with_signal_item (new_signal signal_peer_offer) (peer_type_item peer_description))
      (connection_point_item tcp_endpoint use_tls)

abbrev pub description_of : DataItem → Option Text
description_of (DataItem.peer_type flags description) = some description
description_of _ = none

-- `find_map` over the items.
unfoldable pub first_description : List DataItem → Option Text
first_description [] = none
first_description (item ∷ items) =
    let rest = first_description items in
    elim (description_of item) [ some d ↦ some d | none ↦ rest ]

unfoldable pub extract_peer_description : Signal → Option Text
extract_peer_description sig = first_description sig.data_items

abbrev pub port_or_default : Option ℕ → ℕ
port_or_default none = default_port
port_or_default (some p) = p

-- `Ipv6Addr::is_unicast_link_local`: fe80::/10.
unfoldable pub is_unicast_link_local : Octets → Bool
is_unicast_link_local (a ∷ b ∷ rest) = (a == 254) && leb 128 b && ltb b 192
is_unicast_link_local _ = false

-- The scope of a link-local endpoint is that of the source.
unfoldable pub scope_from : SocketAddr → Octets → ℕ
scope_from (v4 ip port) addr = 0
scope_from (v6 ip port flowinfo scope_id) addr = if is_unicast_link_local addr then scope_id else 0

-- The `filter_map` of `offer_endpoints`.
unfoldable pub endpoint_of : SocketAddr → DataItem → Option OfferEndpoint
endpoint_of from (DataItem.ipv4_connection_point flags addr port) =
    some (record { addr = v4 addr (port_or_default port); use_tls = flags.use_tls })
endpoint_of from (DataItem.ipv6_connection_point flags addr port) = some (record {
  addr = v6 addr (port_or_default port) 0 (scope_from from addr);
  use_tls = flags.use_tls;
})
endpoint_of from _ = none

unfoldable pub endpoints_of : SocketAddr → List DataItem → List OfferEndpoint
endpoints_of from [] = []
endpoints_of from (item ∷ items) =
    let rest = endpoints_of from items in
    elim (endpoint_of from item) [ some e ↦ e ∷ rest | none ↦ rest ]

-- `addr.set_port(DEFAULT_PORT)`.
abbrev pub at_default_port : SocketAddr → SocketAddr
at_default_port (v4 ip port) = v4 ip default_port
at_default_port (v6 ip port flowinfo scope_id) = v6 ip default_port flowinfo scope_id

abbrev pub or_source : SocketAddr → List OfferEndpoint → List OfferEndpoint
or_source from [] = record { addr = at_default_port from; use_tls = false } ∷ []
or_source from (e ∷ es) = e ∷ es

unfoldable pub all_zero : Octets → Bool
all_zero [] = true
all_zero (o ∷ v) = (o == 0) && all_zero v

-- `IpAddr::is_multicast`: 224.0.0.0/4 and ff00::/8.
abbrev pub is_multicast : SocketAddr → Bool
is_multicast (v4 [] port) = false
is_multicast (v4 (a ∷ ip) port) = leb 224 a && leb a 239
is_multicast (v6 [] port flowinfo scope_id) = false
is_multicast (v6 (a ∷ ip) port flowinfo scope_id) = a == 255

abbrev pub ip_octets : SocketAddr → Octets
ip_octets (v4 ip port) = ip
ip_octets (v6 ip port flowinfo scope_id) = ip

abbrev pub port_of : SocketAddr → ℕ
port_of (v4 ip port) = port
port_of (v6 ip port flowinfo scope_id) = port

abbrev pub is_ipv6 : SocketAddr → Bool
is_ipv6 (v4 ip port) = false
is_ipv6 (v6 ip port flowinfo scope_id) = true

-- The test of `endpoints.retain`.
unfoldable pub is_usable : OfferEndpoint → Bool
is_usable e =
    not (all_zero (ip_octets e.addr)) && not (is_multicast e.addr) && not (port_of e.addr == 0)

-- The sort key `(!e.use_tls, !e.addr.is_ipv6())`, false before true.
unfoldable pub rank : OfferEndpoint → ℕ
rank e = (if e.use_tls then 0 else 2) + (if is_ipv6 e.addr then 0 else 1)

-- `sort_by_key`, which is stable.
unfoldable pub insert_by_rank : OfferEndpoint → List OfferEndpoint → List OfferEndpoint
insert_by_rank e [] = e ∷ []
insert_by_rank e (f ∷ fs) =
    let rest = insert_by_rank e fs in if leb (rank e) (rank f) then e ∷ f ∷ fs else f ∷ rest

unfoldable pub sort_by_rank : List OfferEndpoint → List OfferEndpoint
sort_by_rank [] = []
sort_by_rank (e ∷ es) = insert_by_rank e (sort_by_rank es)

-- `dedup` keeps the first of equal neighbours.
unfoldable pub dedup_after : OfferEndpoint → List OfferEndpoint → List OfferEndpoint
dedup_after e [] = []
dedup_after e (f ∷ fs) =
    let same = dedup_after e fs in let other = dedup_after f fs in if e ≟ f then same else f ∷ other

unfoldable pub dedup : List OfferEndpoint → List OfferEndpoint
dedup [] = []
dedup (e ∷ es) = e ∷ dedup_after e es

unfoldable pub offer_endpoints : Signal → SocketAddr → List OfferEndpoint
offer_endpoints sig from =
    dedup (sort_by_rank (retain is_usable (or_source from (endpoints_of from sig.data_items))))

unfoldable pub first_endpoint : List DataItem → Option OfferEndpoint
first_endpoint [] = none
first_endpoint (item ∷ items) =
    let rest = first_endpoint items in
    elim (endpoint_of (v4 [] 0) item) [ some e ↦ some e | none ↦ rest ]

-- A source without a scope, since `extract_offer_endpoint` sets none.
unfoldable pub extract_offer_endpoint : Signal → Option OfferEndpoint
extract_offer_endpoint sig = first_endpoint sig.data_items

-- The bytes of an encoded item; a panic of the encoder is read as an error.
abbrev pub bytes_of : Result CodecError (Unit {0}) × Octets → Option Octets
bytes_of (ok u, bytes) = some bytes
bytes_of (err e, bytes) = none
bytes_of (panic, bytes) = none

-- The `match` of `valid_signal`: none if the item is refused, otherwise the flag `peer_type`.
unfoldable pub admit : (offer peer_type : Bool) → DataItem → Option Bool
admit offer peer_type (DataItem.peer_type flags description) =
    if not peer_type then some true else none
admit offer peer_type (DataItem.ipv4_connection_point flags addr port) =
    if offer then some peer_type else none
admit offer peer_type (DataItem.ipv6_connection_point flags addr port) =
    if offer then some peer_type else none
admit offer peer_type _ = none

module _ ⦃ip : Ipnet⦄ where
  unfoldable pub valid_items : (offer peer_type : Bool) (seen : List Octets) → List DataItem → Bool
  valid_items offer peer_type seen [] = true
  valid_items offer peer_type seen (item ∷ items) = elim (admit offer peer_type item) [
    | none ↦ false
    | some named ↦ elim (bytes_of (encode_item item [])) [
      | none ↦ false
      | some bytes ↦ not (contains seen bytes) && valid_items offer named (bytes ∷ seen) items
    ]
  ]

  unfoldable pub valid_signal : Signal → Bool
  valid_signal signal =
      valid_items (signal.signal_type == signal_peer_offer) false [] signal.data_items
