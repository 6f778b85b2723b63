-- ===== src/Core/Codec/RoundTrip.antt =====
-- `decode_item` on the value fields of the wire format.
use dlep.Base.{ok, ◌≡◌, arith}
use dlep.Core.Metrics.{as_millis, as_micros, from_micros}
use dlep.Core.Error.{Field}
use dlep.Core.Ipnet.{Ipnet, IpnetLaws}
use dlep.Core.Item.{RawDataItem, DataItem, type_id_of}
use dlep.Core.Codec.Decode.{
  decode_item, decode_metric, decode_ipv4_connection_point, decode_ipv6_connection_point,
  decode_ipv4_address, decode_ipv6_address, decode_ipv4_subnet, decode_ipv6_subnet,
}
use dlep.Core.Codec.Decode.Values.{
  decode_status_lem, decode_peer_type_lem, connection_point_lem, decode_heartbeat_lem,
  decode_extensions_lem, decode_mac_lem, address_lem, attached_subnet_lem, decode_u64_lem,
  decode_percent_item_lem, decode_mtu_lem,
}
use dlep.Core.Codec.Wire.{IsItem, InRange, value_octets, on_the_wire}

module _ ⦃ip : Ipnet⦄ where
  abbrev pub raw_item : DataItem → RawDataItem
  raw_item item = record { type_id = type_id_of item; value = value_octets item }

module _ ⦃ip : Ipnet⦄ (laws : IpnetLaws ip) where
  -- Under the documented laws of ipnet, every item within its Rust types whose value is in range,
  -- and whose type id, if the item is an unknown one, is none of the RFC's (0, or above 20), is
  -- read back, from its type and value field, as it appears on the wire.
  pub decode_item-value_octets :
      (item : DataItem)
      → IsItem item
      → InRange item
      → decode_item (raw_item item) ≡ ok (on_the_wire item)
  unfolding decode_item decode_metric decode_ipv4_connection_point decode_ipv6_connection_point
      decode_ipv4_address decode_ipv6_address decode_ipv4_subnet decode_ipv6_subnet
  decode_item-value_octets (DataItem.status code text) h r = decode_status_lem 1 code text (h.1)
  decode_item-value_octets (DataItem.ipv4_connection_point flags addr port) h r =
      connection_point_lem 4 DataItem.ipv4_connection_point 2 flags addr port (h.0.0) (h.1)
  decode_item-value_octets (DataItem.ipv6_connection_point flags addr port) h r =
      connection_point_lem 16 DataItem.ipv6_connection_point 3 flags addr port (h.0.0) (h.1)
  decode_item-value_octets (DataItem.peer_type flags description) h r =
      decode_peer_type_lem 4 flags description h
  decode_item-value_octets (DataItem.heartbeat_interval d) h r =
      decode_heartbeat_lem 5 (as_millis d) (r.0) (r.1)
  decode_item-value_octets (DataItem.extensions_supported ids) h r = decode_extensions_lem 6 ids h
  decode_item-value_octets (DataItem.mac_address mac) h r = decode_mac_lem 7 mac h
  decode_item-value_octets (DataItem.ipv4_address add addr) h r =
      address_lem 4 DataItem.ipv4_address 8 add addr (h.0)
  decode_item-value_octets (DataItem.ipv6_address add addr) h r =
      address_lem 16 DataItem.ipv6_address 9 add addr (h.0)
  decode_item-value_octets (DataItem.ipv4_attached_subnet add subnet) h r =
      attached_subnet_lem 4 32 ip.v4 _ DataItem.ipv4_attached_subnet 10 add subnet laws.v4 h
  decode_item-value_octets (DataItem.ipv6_attached_subnet add subnet) h r =
      attached_subnet_lem 16 128 ip.v6 _ DataItem.ipv6_attached_subnet 11 add subnet laws.v6 h
  decode_item-value_octets (DataItem.max_data_rate_receive bps) h r =
      decode_u64_lem DataItem.max_data_rate_receive 12 bps h
  decode_item-value_octets (DataItem.max_data_rate_transmit bps) h r =
      decode_u64_lem DataItem.max_data_rate_transmit 13 bps h
  decode_item-value_octets (DataItem.current_data_rate_receive bps) h r =
      decode_u64_lem DataItem.current_data_rate_receive 14 bps h
  decode_item-value_octets (DataItem.current_data_rate_transmit bps) h r =
      decode_u64_lem DataItem.current_data_rate_transmit 15 bps h
  decode_item-value_octets (DataItem.latency d) h r =
      decode_u64_lem (λ us. DataItem.latency (from_micros us)) 16 (as_micros d) (omega arith)
  decode_item-value_octets (DataItem.resources pct) h r =
      decode_percent_item_lem DataItem.resources Field.resources 17 pct r
  decode_item-value_octets (DataItem.relative_link_quality_receive pct) h r =
      decode_percent_item_lem DataItem.relative_link_quality_receive Field.rlq_receive 18 pct r
  decode_item-value_octets (DataItem.relative_link_quality_transmit pct) h r =
      decode_percent_item_lem DataItem.relative_link_quality_transmit Field.rlq_transmit 19 pct r
  decode_item-value_octets (DataItem.mtu m) h r = decode_mtu_lem 20 m h
  decode_item-value_octets (DataItem.unknown raw) h r = ground arith
