-- ===== src/Core/Item.antt =====
-- crates/dlep-core/src/data_item.rs, message.rs and signal.rs. An `Ipv4Addr` is its 4 octets, an
-- `Ipv6Addr` its 16, and a `String` the octets of its text.
use dlep.Base.{ℕ, Octets, List, [], ◌∷◌, ◌++◌, Bool, Option}
use dlep.Core.Ids.{
  SignalType, MessageType, DataItemType, ExtensionId, item_status, item_ipv4_connection_point,
  item_ipv6_connection_point, item_peer_type, item_heartbeat_interval, item_extensions_supported,
  item_mac_address, item_ipv4_address, item_ipv6_address, item_ipv4_attached_subnet,
  item_ipv6_attached_subnet, item_maximum_data_rate_receive, item_maximum_data_rate_transmit,
  item_current_data_rate_receive, item_current_data_rate_transmit, item_latency, item_resources,
  item_relative_link_quality_receive, item_relative_link_quality_transmit, item_mtu,
}
use dlep.Core.Mac.{MacAddress}
use dlep.Core.Status.{StatusCode}
use dlep.Core.Metrics.{Duration}
use dlep.Core.Ipnet.{IpNet}
use dlep.Core.Utf8.{Text}

abbrev pub Ipv4Addr : Type 0
Ipv4Addr = Octets

abbrev pub Ipv6Addr : Type 0
Ipv6Addr = Octets

pub record RawDataItem : Type 0 where
  pub type_id : DataItemType
  pub value : Octets

pub record PeerFlags : Type 0 where
  pub smi : Bool

pub record ConnectionPointFlags : Type 0 where
  pub use_tls : Bool

pub data DataItem : Type 0 where
  status : (code : StatusCode) (text : Text) → DataItem
  ipv4_connection_point :
      (flags : ConnectionPointFlags) (addr : Ipv4Addr) (port : Option ℕ) → DataItem
  ipv6_connection_point :
      (flags : ConnectionPointFlags) (addr : Ipv6Addr) (port : Option ℕ) → DataItem
  peer_type : (flags : PeerFlags) (description : Text) → DataItem
  heartbeat_interval : Duration → DataItem
  extensions_supported : List ExtensionId → DataItem
  mac_address : MacAddress → DataItem
  ipv4_address : (add : Bool) (addr : Ipv4Addr) → DataItem
  ipv6_address : (add : Bool) (addr : Ipv6Addr) → DataItem
  ipv4_attached_subnet : (add : Bool) (subnet : IpNet) → DataItem
  ipv6_attached_subnet : (add : Bool) (subnet : IpNet) → DataItem
  max_data_rate_receive : ℕ → DataItem
  max_data_rate_transmit : ℕ → DataItem
  current_data_rate_receive : ℕ → DataItem
  current_data_rate_transmit : ℕ → DataItem
  latency : Duration → DataItem
  resources : ℕ → DataItem
  relative_link_quality_receive : ℕ → DataItem
  relative_link_quality_transmit : ℕ → DataItem
  mtu : ℕ → DataItem
  unknown : RawDataItem → DataItem

-- `DataItem::type_id`.
abbrev pub type_id_of : DataItem → DataItemType
type_id_of (DataItem.status code text) = item_status
type_id_of (DataItem.ipv4_connection_point flags addr port) = item_ipv4_connection_point
type_id_of (DataItem.ipv6_connection_point flags addr port) = item_ipv6_connection_point
type_id_of (DataItem.peer_type flags description) = item_peer_type
type_id_of (DataItem.heartbeat_interval d) = item_heartbeat_interval
type_id_of (DataItem.extensions_supported ids) = item_extensions_supported
type_id_of (DataItem.mac_address mac) = item_mac_address
type_id_of (DataItem.ipv4_address add addr) = item_ipv4_address
type_id_of (DataItem.ipv6_address add addr) = item_ipv6_address
type_id_of (DataItem.ipv4_attached_subnet add subnet) = item_ipv4_attached_subnet
type_id_of (DataItem.ipv6_attached_subnet add subnet) = item_ipv6_attached_subnet
type_id_of (DataItem.max_data_rate_receive bps) = item_maximum_data_rate_receive
type_id_of (DataItem.max_data_rate_transmit bps) = item_maximum_data_rate_transmit
type_id_of (DataItem.current_data_rate_receive bps) = item_current_data_rate_receive
type_id_of (DataItem.current_data_rate_transmit bps) = item_current_data_rate_transmit
type_id_of (DataItem.latency d) = item_latency
type_id_of (DataItem.resources pct) = item_resources
type_id_of (DataItem.relative_link_quality_receive pct) = item_relative_link_quality_receive
type_id_of (DataItem.relative_link_quality_transmit pct) = item_relative_link_quality_transmit
type_id_of (DataItem.mtu m) = item_mtu
type_id_of (DataItem.unknown r) = r.type_id

pub record Signal : Type 0 where
  pub signal_type : SignalType
  pub data_items : List DataItem

pub record Message : Type 0 where
  pub message_type : MessageType
  pub data_items : List DataItem

-- `Message::new` and `with_item`.
abbrev pub new_message : MessageType → Message
new_message t = record { message_type = t; data_items = [] }

abbrev pub with_item : Message → DataItem → Message
with_item m item = record m { data_items = m.data_items ++ (item ∷ []) }

-- `Signal::new` and `with_item`.
abbrev pub new_signal : SignalType → Signal
new_signal t = record { signal_type = t; data_items = [] }

abbrev pub with_signal_item : Signal → DataItem → Signal
with_signal_item s item = record s { data_items = s.data_items ++ (item ∷ []) }
