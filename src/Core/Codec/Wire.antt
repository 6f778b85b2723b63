-- ===== src/Core/Codec/Wire.antt =====
-- The wire format of RFC 8175 §11.3 and §13, written as plain functions: what codec.rs is held to.
use dlep.Base.{
  ℕ, ◌^◌, ◌≤◌, ◌<◌, Octets, IsByte, IsOctets, length, All, to_be_bytes, ◌≡◌, ◌⊎◌, List, [], ◌∷◌,
  ◌++◌, Option, none, some, true,
}
use dlep.Core.Ids.{DataItemType, ExtensionId}
use dlep.Core.Mac.{as_bytes, IsMac}
use dlep.Core.Metrics.{from_millis, as_millis, from_micros, as_micros}
use dlep.Core.Ipnet.{Ipnet, IpNet, IsAddr, trunc}
use dlep.Core.Utf8.{Text, is_utf8}
use dlep.Core.Item.{DataItem, type_id_of}
use dlep.Core.Codec.Encode.{u8_of, u32_max, u64_max}

-- Type, length, value.
unfoldable pub tlv : DataItemType → Octets → Octets
tlv t v = to_be_bytes 2 t ++ (to_be_bytes 2 (length v) ++ v)

abbrev pub port_octets : Option ℕ → Octets
port_octets none = []
port_octets (some p) = to_be_bytes 2 p

abbrev pub id_octets : List ExtensionId → Octets
id_octets [] = []
id_octets (id ∷ ids) = to_be_bytes 2 id ++ id_octets ids

-- The values that the format can express.
abbrev pub InRange : DataItem → Type 0
InRange (DataItem.heartbeat_interval d) = (1000 ≤ as_millis d) × (as_millis d ≤ u32_max)
InRange (DataItem.latency d) = as_micros d ≤ u64_max
InRange (DataItem.resources pct) = pct ≤ 100
InRange (DataItem.relative_link_quality_receive pct) = pct ≤ 100
InRange (DataItem.relative_link_quality_transmit pct) = pct ≤ 100
InRange _ = Unit {0}

abbrev pub IsText : Text → Type 0
IsText t = IsOctets t × (is_utf8 t ≡ true)

abbrev pub IsU16 : ℕ → Type 0
IsU16 n = n < 65536

abbrev pub IsPort : Option ℕ → Type 0
IsPort none = Unit {0}
IsPort (some p) = IsU16 p

abbrev pub IsNet : ℕ → ℕ → IpNet → Type 0
IsNet octets bits n = IsAddr octets n.addr × (n.prefix_len ≤ bits)

-- A type id of no item of the RFC.
abbrev pub IsForeign : DataItemType → Type 0
IsForeign t = (t ≡ 0) ⊎ (20 < t)

-- What the Rust types guarantee of an item's fields. `Unknown` may hold any type id in Rust; that
-- it holds none of the RFC's is what `DataItem::decode` guarantees.
abbrev pub IsItem : DataItem → Type 0
IsItem (DataItem.status code text) = IsByte code × IsText text
IsItem (DataItem.ipv4_connection_point flags addr port) = IsAddr 4 addr × IsPort port
IsItem (DataItem.ipv6_connection_point flags addr port) = IsAddr 16 addr × IsPort port
IsItem (DataItem.peer_type flags description) = IsText description
IsItem (DataItem.extensions_supported ids) = All IsU16 ids
IsItem (DataItem.mac_address mac) = IsMac mac
IsItem (DataItem.ipv4_address add addr) = IsAddr 4 addr
IsItem (DataItem.ipv6_address add addr) = IsAddr 16 addr
IsItem (DataItem.ipv4_attached_subnet add subnet) = IsNet 4 32 subnet
IsItem (DataItem.ipv6_attached_subnet add subnet) = IsNet 16 128 subnet
IsItem (DataItem.max_data_rate_receive bps) = bps < 2 ^ 64
IsItem (DataItem.max_data_rate_transmit bps) = bps < 2 ^ 64
IsItem (DataItem.current_data_rate_receive bps) = bps < 2 ^ 64
IsItem (DataItem.current_data_rate_transmit bps) = bps < 2 ^ 64
IsItem (DataItem.resources pct) = IsByte pct
IsItem (DataItem.relative_link_quality_receive pct) = IsByte pct
IsItem (DataItem.relative_link_quality_transmit pct) = IsByte pct
IsItem (DataItem.mtu m) = IsU16 m
IsItem (DataItem.unknown raw) = IsForeign raw.type_id × IsU16 raw.type_id × IsOctets raw.value
IsItem (DataItem.heartbeat_interval d) = Unit {0}
IsItem (DataItem.latency d) = Unit {0}

module _ ⦃ip : Ipnet⦄ where
  -- The value field, RFC 8175 §13.1 to §13.20.
  abbrev pub value_octets : DataItem → Octets
  value_octets (DataItem.status code text) = code ∷ text
  value_octets (DataItem.ipv4_connection_point flags addr port) =
      u8_of flags.use_tls ∷ (addr ++ port_octets port)
  value_octets (DataItem.ipv6_connection_point flags addr port) =
      u8_of flags.use_tls ∷ (addr ++ port_octets port)
  value_octets (DataItem.peer_type flags description) = u8_of flags.smi ∷ description
  value_octets (DataItem.heartbeat_interval d) = to_be_bytes 4 (as_millis d)
  value_octets (DataItem.extensions_supported ids) = id_octets ids
  value_octets (DataItem.mac_address mac) = as_bytes mac
  value_octets (DataItem.ipv4_address add addr) = u8_of add ∷ addr
  value_octets (DataItem.ipv6_address add addr) = u8_of add ∷ addr
  value_octets (DataItem.ipv4_attached_subnet add subnet) =
      u8_of add ∷ (ip.v4.network subnet ++ (subnet.prefix_len ∷ []))
  value_octets (DataItem.ipv6_attached_subnet add subnet) =
      u8_of add ∷ (ip.v6.network subnet ++ (subnet.prefix_len ∷ []))
  value_octets (DataItem.max_data_rate_receive bps) = to_be_bytes 8 bps
  value_octets (DataItem.max_data_rate_transmit bps) = to_be_bytes 8 bps
  value_octets (DataItem.current_data_rate_receive bps) = to_be_bytes 8 bps
  value_octets (DataItem.current_data_rate_transmit bps) = to_be_bytes 8 bps
  value_octets (DataItem.latency d) = to_be_bytes 8 (as_micros d)
  value_octets (DataItem.resources pct) = pct ∷ []
  value_octets (DataItem.relative_link_quality_receive pct) = pct ∷ []
  value_octets (DataItem.relative_link_quality_transmit pct) = pct ∷ []
  value_octets (DataItem.mtu m) = to_be_bytes 2 m
  value_octets (DataItem.unknown raw) = raw.value

  abbrev pub item_octets : DataItem → Octets
  item_octets item = tlv (type_id_of item) (value_octets item)

  -- An item can be sent if its value is in range and fits the 16-bit length field.
  abbrev pub Encodable : DataItem → Type 0
  Encodable item = InRange item × (length (value_octets item) ≤ 65535)

  -- What of an item reaches the peer: a duration loses what is below the unit of its field, a
  -- subnet its host bits.
  abbrev pub on_the_wire : DataItem → DataItem
  on_the_wire (DataItem.heartbeat_interval d) =
      DataItem.heartbeat_interval (from_millis (as_millis d))
  on_the_wire (DataItem.latency d) = DataItem.latency (from_micros (as_micros d))
  on_the_wire (DataItem.ipv4_attached_subnet add subnet) =
      DataItem.ipv4_attached_subnet add (trunc ip.v4 subnet)
  on_the_wire (DataItem.ipv6_attached_subnet add subnet) =
      DataItem.ipv6_attached_subnet add (trunc ip.v6 subnet)
  on_the_wire item = item
