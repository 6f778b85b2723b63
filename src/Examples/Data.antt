-- ===== src/Examples/Data.antt =====
-- The data of the examples.
use dlep.Base.{Octets, [], ◌∷◌, true, some}
use dlep.Core.Ids.{msg_session_initialization, signal_peer_offer}
use dlep.Core.Ipnet.{Ipnet, IpNet}
use dlep.Core.Ipnet.Masked.{masked}
use dlep.Core.Item.{DataItem, Message, Signal}
use dlep.Core.Metrics.{from_millis}
use dlep.Core.Mac.{MacAddress}

instance abbrev pub example_net : Ipnet
example_net = masked

-- "modem".
abbrev pub modem_text : Octets
modem_text = 109 ∷ 111 ∷ 100 ∷ 101 ∷ 109 ∷ []

-- 10.1.2.3/16, which has host bits set.
abbrev pub host_net : IpNet
host_net = record { addr = 10 ∷ 1 ∷ 2 ∷ 3 ∷ []; prefix_len = 16 }

abbrev pub peer_item : DataItem
peer_item = DataItem.peer_type (record { smi = true }) modem_text

abbrev pub heartbeat_item : DataItem
heartbeat_item = DataItem.heartbeat_interval (from_millis 60000)

abbrev pub subnet_item : DataItem
subnet_item = DataItem.ipv4_attached_subnet true host_net

abbrev pub init_message : Message
init_message = record {
  message_type = msg_session_initialization;
  data_items = peer_item ∷ heartbeat_item ∷ subnet_item ∷ [];
}

abbrev pub offer : Signal
offer = record {
  signal_type = signal_peer_offer;
  data_items =
      peer_item
      ∷ DataItem.ipv4_connection_point (record { use_tls = true }) (192 ∷ 0 ∷ 2 ∷ 10 ∷ [])
          (some 854)
      ∷ [];
}

abbrev pub mac : MacAddress
mac = MacAddress.eui48 (2 ∷ 0 ∷ 0 ∷ 0 ∷ 0 ∷ 1 ∷ [])
