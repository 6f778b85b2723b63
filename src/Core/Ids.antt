-- ===== src/Core/Ids.antt =====
-- crates/dlep-core/src/ids.rs and the constants of lib.rs. A newtype over `u16` is a number.
use dlep.Base.{ℕ, Octets, [], ◌∷◌}

abbrev pub SignalType : Type 0
SignalType = ℕ

abbrev pub MessageType : Type 0
MessageType = ℕ

abbrev pub DataItemType : Type 0
DataItemType = ℕ

abbrev pub ExtensionId : Type 0
ExtensionId = ℕ

abbrev pub signal_peer_discovery : SignalType
signal_peer_discovery = 1

abbrev pub signal_peer_offer : SignalType
signal_peer_offer = 2

abbrev pub msg_session_initialization : MessageType
msg_session_initialization = 1

abbrev pub msg_session_initialization_response : MessageType
msg_session_initialization_response = 2

abbrev pub msg_session_update : MessageType
msg_session_update = 3

abbrev pub msg_session_update_response : MessageType
msg_session_update_response = 4

abbrev pub msg_session_termination : MessageType
msg_session_termination = 5

abbrev pub msg_session_termination_response : MessageType
msg_session_termination_response = 6

abbrev pub msg_destination_up : MessageType
msg_destination_up = 7

abbrev pub msg_destination_up_response : MessageType
msg_destination_up_response = 8

abbrev pub msg_destination_announce : MessageType
msg_destination_announce = 9

abbrev pub msg_destination_announce_response : MessageType
msg_destination_announce_response = 10

abbrev pub msg_destination_down : MessageType
msg_destination_down = 11

abbrev pub msg_destination_down_response : MessageType
msg_destination_down_response = 12

abbrev pub msg_destination_update : MessageType
msg_destination_update = 13

abbrev pub msg_link_characteristics_request : MessageType
msg_link_characteristics_request = 14

abbrev pub msg_link_characteristics_response : MessageType
msg_link_characteristics_response = 15

abbrev pub msg_heartbeat : MessageType
msg_heartbeat = 16

abbrev pub item_status : DataItemType
item_status = 1

abbrev pub item_ipv4_connection_point : DataItemType
item_ipv4_connection_point = 2

abbrev pub item_ipv6_connection_point : DataItemType
item_ipv6_connection_point = 3

abbrev pub item_peer_type : DataItemType
item_peer_type = 4

abbrev pub item_heartbeat_interval : DataItemType
item_heartbeat_interval = 5

abbrev pub item_extensions_supported : DataItemType
item_extensions_supported = 6

abbrev pub item_mac_address : DataItemType
item_mac_address = 7

abbrev pub item_ipv4_address : DataItemType
item_ipv4_address = 8

abbrev pub item_ipv6_address : DataItemType
item_ipv6_address = 9

abbrev pub item_ipv4_attached_subnet : DataItemType
item_ipv4_attached_subnet = 10

abbrev pub item_ipv6_attached_subnet : DataItemType
item_ipv6_attached_subnet = 11

abbrev pub item_maximum_data_rate_receive : DataItemType
item_maximum_data_rate_receive = 12

abbrev pub item_maximum_data_rate_transmit : DataItemType
item_maximum_data_rate_transmit = 13

abbrev pub item_current_data_rate_receive : DataItemType
item_current_data_rate_receive = 14

abbrev pub item_current_data_rate_transmit : DataItemType
item_current_data_rate_transmit = 15

abbrev pub item_latency : DataItemType
item_latency = 16

abbrev pub item_resources : DataItemType
item_resources = 17

abbrev pub item_relative_link_quality_receive : DataItemType
item_relative_link_quality_receive = 18

abbrev pub item_relative_link_quality_transmit : DataItemType
item_relative_link_quality_transmit = 19

abbrev pub item_mtu : DataItemType
item_mtu = 20

-- The ASCII letters `DLEP`.
abbrev pub signal_prefix : Octets
signal_prefix = b'D' ∷ b'L' ∷ b'E' ∷ b'P' ∷ []

abbrev pub default_port : ℕ
default_port = 854

abbrev pub min_heartbeat_interval_ms : ℕ
min_heartbeat_interval_ms = 1000
