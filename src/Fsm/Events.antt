-- ===== src/Fsm/Events.antt =====
-- crates/dlep-fsm/src/events.rs, commands.rs and timers.rs: what the state machines take and return,
-- and the socket addresses of the standard library.
use dlep.Base.{ℕ, Bool, List, Option, none, some}
use dlep.Core.Ids.{ExtensionId}
use dlep.Core.Mac.{MacAddress}
use dlep.Core.Status.{StatusCode}
use dlep.Core.Metrics.{Duration, LinkMetrics, LinkCharacteristics}
use dlep.Core.Utf8.{Text}
use dlep.Core.Item.{Ipv4Addr, Ipv6Addr, Message, Signal}
use dlep.Fsm.Addresses.{DestinationAddrs, AddressChanges}

-- `std::net::SocketAddr`.
pub data SocketAddr : Type 0 where
  v4 : (ip : Ipv4Addr) (port : ℕ) → SocketAddr
  v6 : (ip : Ipv6Addr) (port flowinfo scope_id : ℕ) → SocketAddr

abbrev pub TimerId : Type 0
TimerId = ℕ

pub data TimerKind : Type 0 where
  heartbeat heartbeat_missed session_init termination discovery : TimerKind

pub data SendTarget : Type 0 where
  discovery_group : SendTarget
  unicast : SocketAddr → SendTarget

pub data CommandKind : Type 0 where
  add_destination drop_destination update_metrics update_addresses session_addresses : CommandKind
  session_metrics announce_destination link_characteristics : CommandKind
  link_characteristics_response : CommandKind

pub record CommandInfo : Type 0 where
  pub kind : CommandKind
  pub destination : Option MacAddress

pub data CommandError : Type 0 where
  busy not_ready unknown_destination already_exists unsupported invalid_input : CommandError
  no_pending_request mac_address_format_mismatch : CommandError

pub record CommandRejection : Type 0 where
  pub command : CommandInfo
  pub reason : CommandError

pub record OfferEndpoint : Type 0 where
  pub addr : SocketAddr
  pub use_tls : Bool

pub data FsmEvent : Type 0 where
  recv_message : Message → FsmEvent
  recv_extension_message : FsmEvent
  protocol_error : StatusCode → FsmEvent
  recv_signal : (signal : Signal) (from : SocketAddr) → FsmEvent
  tcp_connected tcp_accepted tcp_closed : FsmEvent
  timer_expired : TimerId → TimerKind → FsmEvent
  app_add_destination :
      (mac : MacAddress) (metrics : LinkMetrics) (addrs : DestinationAddrs) → FsmEvent
  app_drop_destination : (mac : MacAddress) (reason : StatusCode) → FsmEvent
  app_update_metrics : (mac : MacAddress) (metrics : LinkMetrics) → FsmEvent
  app_update_addresses : (mac : MacAddress) (changes : AddressChanges) → FsmEvent
  app_session_addresses : (changes : AddressChanges) → FsmEvent
  app_announce_destination : (mac : MacAddress) → FsmEvent
  app_session_update : (metrics : LinkMetrics) → FsmEvent
  app_request_link_characteristics : (mac : MacAddress) (requested : LinkCharacteristics) → FsmEvent
  app_link_characteristics_response :
      (mac : MacAddress) (status : StatusCode) (text : Text) (metrics : Option LinkMetrics)
      → FsmEvent
  app_start_discovery : FsmEvent
  app_shutdown : (reason : StatusCode) → FsmEvent

pub data EmittedEvent : Type 0 where
  command_rejected : CommandRejection → EmittedEvent
  session_up : (peer_extensions : List ExtensionId) → EmittedEvent
  session_down : StatusCode → EmittedEvent
  peer_discovered : (endpoints : List OfferEndpoint) (peer_description : Option Text) → EmittedEvent
  destination_up :
      (mac : MacAddress) (metrics : LinkMetrics) (addrs : DestinationAddrs) → EmittedEvent
  destination_down : (mac : MacAddress) (reason : StatusCode) → EmittedEvent
  destination_update : (mac : MacAddress) (metrics : LinkMetrics) → EmittedEvent
  destination_addresses_update :
      (mac : MacAddress) (changes : AddressChanges) (addresses : DestinationAddrs) → EmittedEvent
  session_addresses_update :
      (changes : AddressChanges) (addresses : DestinationAddrs) → EmittedEvent
  link_characteristics_response :
      (mac : MacAddress) (status : StatusCode) (text : Text) (metrics : LinkMetrics) → EmittedEvent
  link_characteristics_requested :
      (mac : MacAddress) (requested : LinkCharacteristics) (metrics : LinkMetrics) (pending : Bool)
      → EmittedEvent
  session_metrics_update : (metrics : LinkMetrics) → EmittedEvent
  destination_announced : (mac : MacAddress) (requested_addresses : AddressChanges) → EmittedEvent

pub data FsmAction : Type 0 where
  send_message : Message → FsmAction
  send_signal : (signal : Signal) (target : SendTarget) → FsmAction
  start_timer :
      (id : TimerId) (kind : TimerKind) (duration : Duration) (periodic : Bool) → FsmAction
  cancel_timer : TimerId → FsmAction
  reset_heartbeat : (timer_id : TimerId) (missed_deadline : Duration) → FsmAction
  close_tcp : FsmAction
  emit : EmittedEvent → FsmAction

-- `FsmEvent::command`.
unfoldable pub command_of : FsmEvent → Option CommandInfo
command_of (app_add_destination mac metrics addrs) =
    some (record { kind = CommandKind.add_destination; destination = some mac })
command_of (app_drop_destination mac reason) =
    some (record { kind = CommandKind.drop_destination; destination = some mac })
command_of (app_update_metrics mac metrics) =
    some (record { kind = CommandKind.update_metrics; destination = some mac })
command_of (app_update_addresses mac changes) =
    some (record { kind = CommandKind.update_addresses; destination = some mac })
command_of (app_session_addresses changes) =
    some (record { kind = CommandKind.session_addresses; destination = none })
command_of (app_session_update metrics) =
    some (record { kind = CommandKind.session_metrics; destination = none })
command_of (app_announce_destination mac) =
    some (record { kind = CommandKind.announce_destination; destination = some mac })
command_of (app_request_link_characteristics mac requested) =
    some (record { kind = CommandKind.link_characteristics; destination = some mac })
command_of (app_link_characteristics_response mac status text metrics) =
    some (record { kind = CommandKind.link_characteristics_response; destination = some mac })
command_of _ = none
