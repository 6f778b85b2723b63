-- ===== src/Core/Codec/Decode.antt =====
-- Decoding of codec.rs: `DataItem::decode` and its helpers, one function for each arm of its match.
pub mod Values
pub mod Sound
pub mod FixedSound
pub mod Total
use Prim.Native.Nat.{bit_and}
use dlep.Base.{
  ℕ, ◌+◌, ◌%◌, Octets, length, drop, from_be_bytes, Result, ok, err, panic, ◌>>=◌, ◌>>◌,
  if◌then◌else◌, ltb, leb, ◌==◌, List, [], ◌∷◌, Bool, true, false, not, ◌&&◌, Option, none, some,
}
use dlep.Core.Ids.{
  DataItemType, ExtensionId, min_heartbeat_interval_ms, item_status, item_ipv4_connection_point,
  item_ipv6_connection_point, item_peer_type, item_heartbeat_interval, item_extensions_supported,
  item_mac_address, item_ipv4_address, item_ipv6_address, item_ipv4_attached_subnet,
  item_ipv6_attached_subnet, item_maximum_data_rate_receive, item_maximum_data_rate_transmit,
  item_current_data_rate_receive, item_current_data_rate_transmit, item_latency, item_resources,
  item_relative_link_quality_receive, item_relative_link_quality_transmit, item_mtu,
}
use dlep.Core.Mac.{MacAddress}
use dlep.Core.Metrics.{from_millis, from_micros}
use dlep.Core.Error.{
  CodecError, CodecResult, Field, ExpectedLen, at_least, one_of, multiple, invalid_utf8,
  out_of_range, invalid_data_item_length, data_item_flags, heartbeat_interval_ms,
  ipv4_attached_subnet_prefix, ipv6_attached_subnet_prefix,
}
use dlep.Core.Ipnet.{Ipnet, IpNet, NetOps, trunc}
use dlep.Core.Utf8.{Text, is_utf8}
use dlep.Core.Item.{RawDataItem, ConnectionPointFlags, PeerFlags, DataItem}
use dlep.Core.Codec.Raw.{index, slice, expect_exact}
use dlep.Core.Codec.Encode.{check_percent}

unfoldable pub validate_flags : ℕ → CodecResult (Unit {0})
validate_flags byte =
    if not (bit_and byte 0xfe == 0) then err (out_of_range data_item_flags byte) else ok tt

-- `byte & 0x01 != 0`, the flag of every flag octet.
unfoldable pub low_flag : ℕ → Bool
low_flag byte = not (bit_and byte 0x01 == 0)

-- `String::from_utf8(v[1..].to_vec())?`.
unfoldable pub text_after_first : Octets → CodecResult Text
text_after_first [] = panic
text_after_first (b ∷ v) = if is_utf8 v then ok v else err invalid_utf8

-- `(len == n).then(|| u16::from_be_bytes([v[at], v[at + 1]]))`.
unfoldable pub optional_port : Octets → ℕ → ℕ → CodecResult (Option ℕ)
optional_port v n at =
    if length v == n
    then (do hi ← index v at; lo ← index v (at + 1); ok (some (from_be_bytes (hi ∷ lo ∷ []))))
    else ok none

unfoldable pub decode_status : DataItemType → Octets → CodecResult DataItem
decode_status kind v =
    if ltb (length v) 1
    then err (invalid_data_item_length kind (at_least 1) (length v))
    else do code ← index v 0; text ← text_after_first v; ok (DataItem.status code text)

unfoldable pub decode_peer_type : DataItemType → Octets → CodecResult DataItem
decode_peer_type kind v =
    if ltb (length v) 1 then err (invalid_data_item_length kind (at_least 1) (length v)) else do
      byte ← index v 0
      validate_flags byte
      description ← text_after_first v
      ok (DataItem.peer_type (record { smi = low_flag byte }) description)

-- The IPv4 and IPv6 arms differ in the lengths that they accept.
unfoldable pub connection_point :
    ℕ
    → (ConnectionPointFlags → Octets → Option ℕ → DataItem)
    → DataItemType
    → Octets
    → CodecResult DataItem
connection_point octets build kind v =
    if not (length v == octets + 1) && not (length v == octets + 3)
    then err (invalid_data_item_length kind (one_of ((octets + 1) ∷ (octets + 3) ∷ [])) (length v))
    else do
      byte ← index v 0
      validate_flags byte
      addr ← slice v 1 octets
      port ← optional_port v (octets + 3) (octets + 1)
      ok (build (record { use_tls = low_flag byte }) addr port)

unfoldable pub decode_ipv4_connection_point : DataItemType → Octets → CodecResult DataItem
decode_ipv4_connection_point = connection_point 4 DataItem.ipv4_connection_point

unfoldable pub decode_ipv6_connection_point : DataItemType → Octets → CodecResult DataItem
decode_ipv6_connection_point = connection_point 16 DataItem.ipv6_connection_point

unfoldable pub decode_heartbeat : DataItemType → Octets → CodecResult DataItem
decode_heartbeat kind v = do
  expect_exact kind (length v) 4
  bytes ← slice v 0 4
  let ms = from_be_bytes bytes
  if ltb ms min_heartbeat_interval_ms
      then err (out_of_range heartbeat_interval_ms ms)
      else ok (DataItem.heartbeat_interval (from_millis ms))

-- The `while` loop over pairs of octets.
unfoldable pub read_ids : Octets → CodecResult (List ExtensionId)
read_ids [] = ok []
read_ids (a ∷ []) = panic
read_ids (a ∷ b ∷ v) = do ids ← read_ids v; ok (from_be_bytes (a ∷ b ∷ []) ∷ ids)

unfoldable pub decode_extensions : DataItemType → Octets → CodecResult DataItem
decode_extensions kind v =
    if not (length v % 2 == 0)
    then err (invalid_data_item_length kind (multiple 2) (length v))
    else do ids ← read_ids v; ok (DataItem.extensions_supported ids)

unfoldable pub decode_mac : DataItemType → Octets → CodecResult DataItem
decode_mac kind v =
    if length v == 6
    then (do octets ← slice v 0 6; ok (DataItem.mac_address (MacAddress.eui48 octets)))
    else if length v == 8
    then (do octets ← slice v 0 8; ok (DataItem.mac_address (MacAddress.eui64 octets)))
    else err (invalid_data_item_length kind (one_of (6 ∷ 8 ∷ [])) (length v))

-- A flag octet and an address; the IPv4 and IPv6 arms differ in the length.
unfoldable pub address :
    ℕ → (Bool → Octets → DataItem) → DataItemType → Octets → CodecResult DataItem
address octets build kind v = do
  expect_exact kind (length v) (octets + 1)
  byte ← index v 0
  validate_flags byte
  addr ← slice v 1 octets
  ok (build (low_flag byte) addr)

unfoldable pub decode_ipv4_address : DataItemType → Octets → CodecResult DataItem
decode_ipv4_address = address 4 DataItem.ipv4_address

unfoldable pub decode_ipv6_address : DataItemType → Octets → CodecResult DataItem
decode_ipv6_address = address 16 DataItem.ipv6_address

-- `…Net::new(addr, prefix).map_err(…)?.trunc()`.
unfoldable pub truncated_net : NetOps → Field → Octets → ℕ → CodecResult IpNet
truncated_net ops field addr prefix = elim (ops.new addr prefix) [
  | none ↦ err (out_of_range field prefix)
  | some net ↦ ok (trunc ops net)
]

-- A flag octet, an address and a prefix; the IPv4 and IPv6 arms differ in the length.
unfoldable pub attached_subnet :
    ℕ → NetOps → Field → (Bool → IpNet → DataItem) → DataItemType → Octets → CodecResult DataItem
attached_subnet octets ops field build kind v = do
  expect_exact kind (length v) (octets + 2)
  byte ← index v 0
  validate_flags byte
  addr ← slice v 1 octets
  prefix ← index v (octets + 1)
  subnet ← truncated_net ops field addr prefix
  ok (build (low_flag byte) subnet)

-- The four data rates: eight octets.
unfoldable pub decode_u64 : (ℕ → DataItem) → DataItemType → Octets → CodecResult DataItem
decode_u64 build kind v = do
  expect_exact kind (length v) 8
  bytes ← slice v 0 8
  ok (build (from_be_bytes bytes))

unfoldable pub decode_percent : DataItemType → Octets → Field → CodecResult ℕ
decode_percent kind value field = do
  expect_exact kind (length value) 1
  pct ← index value 0
  check_percent field pct
  ok pct

unfoldable pub decode_percent_item :
    (ℕ → DataItem) → Field → DataItemType → Octets → CodecResult DataItem
decode_percent_item build field kind v = do pct ← decode_percent kind v field; ok (build pct)

unfoldable pub decode_mtu : DataItemType → Octets → CodecResult DataItem
decode_mtu kind v = do
  expect_exact kind (length v) 2
  bytes ← slice v 0 2
  ok (DataItem.mtu (from_be_bytes bytes))

module _ ⦃ip : Ipnet⦄ where
  unfoldable pub decode_ipv4_subnet : DataItemType → Octets → CodecResult DataItem
  decode_ipv4_subnet =
      attached_subnet 4 ip.v4 ipv4_attached_subnet_prefix DataItem.ipv4_attached_subnet

  unfoldable pub decode_ipv6_subnet : DataItemType → Octets → CodecResult DataItem
  decode_ipv6_subnet =
      attached_subnet 16 ip.v6 ipv6_attached_subnet_prefix DataItem.ipv6_attached_subnet

  -- The arms of the match from MAXIMUM_DATA_RATE_RECEIVE on.
  unfoldable pub decode_metric : DataItemType → RawDataItem → CodecResult DataItem
  decode_metric kind raw =
      if kind == item_maximum_data_rate_receive
      then decode_u64 DataItem.max_data_rate_receive kind raw.value
      else if kind == item_maximum_data_rate_transmit
      then decode_u64 DataItem.max_data_rate_transmit kind raw.value
      else if kind == item_current_data_rate_receive
      then decode_u64 DataItem.current_data_rate_receive kind raw.value
      else if kind == item_current_data_rate_transmit
      then decode_u64 DataItem.current_data_rate_transmit kind raw.value
      else if kind == item_latency
      then decode_u64 (λ us. DataItem.latency (from_micros us)) kind raw.value
      else if kind == item_resources
      then decode_percent_item DataItem.resources Field.resources kind raw.value
      else if kind == item_relative_link_quality_receive
      then decode_percent_item DataItem.relative_link_quality_receive Field.rlq_receive kind
          raw.value
      else if kind == item_relative_link_quality_transmit
      then decode_percent_item DataItem.relative_link_quality_transmit Field.rlq_transmit kind
          raw.value
      else if kind == item_mtu
      then decode_mtu kind raw.value
      else ok (DataItem.unknown raw)

  -- `DataItem::decode`.
  unfoldable pub decode_item : RawDataItem → CodecResult DataItem
  decode_item raw =
      let kind = raw.type_id in
      if kind == item_status
      then decode_status kind raw.value
      else if kind == item_ipv4_connection_point
      then decode_ipv4_connection_point kind raw.value
      else if kind == item_ipv6_connection_point
      then decode_ipv6_connection_point kind raw.value
      else if kind == item_peer_type
      then decode_peer_type kind raw.value
      else if kind == item_heartbeat_interval
      then decode_heartbeat kind raw.value
      else if kind == item_extensions_supported
      then decode_extensions kind raw.value
      else if kind == item_mac_address
      then decode_mac kind raw.value
      else if kind == item_ipv4_address
      then decode_ipv4_address kind raw.value
      else if kind == item_ipv6_address
      then decode_ipv6_address kind raw.value
      else if kind == item_ipv4_attached_subnet
      then decode_ipv4_subnet kind raw.value
      else if kind == item_ipv6_attached_subnet
      then decode_ipv6_subnet kind raw.value
      else decode_metric kind raw
