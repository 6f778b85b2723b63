-- ===== src/Core/Codec/Encode.antt =====
-- Encoding of codec.rs: `RawDataItem::encode` and `DataItem::encode`. A function that appends to
-- `out: &mut BytesMut` takes the buffer and returns it beside its result, in the monad `Put`.
pub mod Value
pub mod Item
use dlep.Base.{
  ℕ, ◌+◌, ◌-◌, ◌*◌, ◌%◌, ◌^◌, min, Octets, length, take, drop, to_be_bytes, Result, ok, err, panic,
  if◌then◌else◌, ltb, leb, List, [], ◌∷◌, ◌++◌, Bool, true, false, Option, none, some,
}
use dlep.Core.Ids.{min_heartbeat_interval_ms, ExtensionId}
use dlep.Core.Mac.{as_bytes}
use dlep.Core.Metrics.{as_millis, as_micros}
use dlep.Core.Error.{
  CodecError, CodecResult, Field, out_of_range, data_item_value_length, heartbeat_interval_ms,
  latency_us,
}
use dlep.Core.Ipnet.{Ipnet, IpNet}
use dlep.Core.Item.{RawDataItem, ConnectionPointFlags, PeerFlags, DataItem, type_id_of}
use dlep.Core.Codec.Raw.{u16_length}

abbrev pub Put : Type 0 → Type 0
Put A = Octets → CodecResult A × Octets

abbrev pub and_then : {A B : Type 0} → CodecResult A × Octets → (A → Put B) → CodecResult B × Octets
and_then (ok a, out) f = f a out
and_then (err e, out) f = (err e, out)
and_then (panic, out) f = (panic, out)

infixl 5 ◌>>=◌ ◌>>◌
abbrev pub ◌>>=◌ : {A B : Type 0} → Put A → (A → Put B) → Put B
◌>>=◌ m f out = and_then (m out) f

abbrev pub ◌>>◌ : {B : Type 0} → Put (Unit {0}) → Put B → Put B
m >> k = m >>= λ _. k

-- A result that leaves the buffer alone.
abbrev pub lift : {A : Type 0} → CodecResult A → Put A
lift r out = (r, out)

abbrev pub put_slice : Octets → Put (Unit {0})
put_slice v out = (ok tt, out ++ v)

abbrev pub put_u8 : ℕ → Put (Unit {0})
put_u8 n = put_slice (n ∷ [])

abbrev pub put_u16 : ℕ → Put (Unit {0})
put_u16 n = put_slice (to_be_bytes 2 n)

abbrev pub put_u32 : ℕ → Put (Unit {0})
put_u32 n = put_slice (to_be_bytes 4 n)

abbrev pub put_u64 : ℕ → Put (Unit {0})
put_u64 n = put_slice (to_be_bytes 8 n)

-- `u8::from(bool)`.
abbrev pub u8_of : Bool → ℕ
u8_of true = 1
u8_of false = 0

abbrev pub u32_max : ℕ
u32_max = 4_294_967_295

abbrev pub u64_max : ℕ
u64_max = 18_446_744_073_709_551_615

unfoldable pub encode_cp_flags : ConnectionPointFlags → ℕ
encode_cp_flags flags = u8_of flags.use_tls

unfoldable pub encode_peer_flags : PeerFlags → ℕ
encode_peer_flags flags = u8_of flags.smi

unfoldable pub check_percent : Field → ℕ → CodecResult (Unit {0})
check_percent field pct = if ltb 100 pct then err (out_of_range field pct) else ok tt

-- `RawDataItem::encode`.
unfoldable pub encode_raw : RawDataItem → Put (Unit {0})
unfolding u16_length
encode_raw raw = do
  len ← lift (u16_length data_item_value_length (length raw.value))
  put_u16 raw.type_id
  put_u16 len
  put_slice raw.value

put_port : Option ℕ → Put (Unit {0})
put_port none = lift (ok tt)
put_port (some p) = put_u16 p

put_ids : List ExtensionId → Put (Unit {0})
put_ids [] = lift (ok tt)
put_ids (id ∷ ids) = do put_u16 id; put_ids ids

put_heartbeat : ℕ → Put (Unit {0})
put_heartbeat ms =
    if ltb ms min_heartbeat_interval_ms
    then lift (err (out_of_range heartbeat_interval_ms (min ms u64_max)))
    else if ltb u32_max ms
    then lift (err (out_of_range heartbeat_interval_ms (min ms u64_max)))
    else put_u32 (ms % 2 ^ 32)

put_latency : ℕ → Put (Unit {0})
put_latency us =
    if ltb u64_max us then lift (err (out_of_range latency_us u64_max)) else put_u64 (us % 2 ^ 64)

put_percent : Field → ℕ → Put (Unit {0})
unfolding check_percent
put_percent field pct = do lift (check_percent field pct); put_u8 pct

-- `projected_value_len`; `usize` is taken wide enough, so the saturation does not show.
unfoldable pub projected_value_len : DataItem → Option ℕ
projected_value_len (DataItem.status code text) = some (1 + length text)
projected_value_len (DataItem.peer_type flags description) = some (1 + length description)
projected_value_len (DataItem.extensions_supported ids) = some (length ids * 2)
projected_value_len _ = none

check_projected : Option ℕ → Put (Unit {0})
unfolding u16_length
check_projected none = lift (ok tt)
check_projected (some projected) = do
  len ← lift (u16_length data_item_value_length projected)
  lift (ok tt)

-- `out[at..at + 2].copy_from_slice(v)`.
patch : ℕ → Octets → Put (Unit {0})
patch at v out =
    if leb (at + 2) (length out)
    then (ok tt, take at out ++ (v ++ drop (at + 2) out))
    else (panic, out)

-- `self.encode_into(out)` failed, and the buffer is cut back.
abbrev restore : ℕ → CodecResult (Unit {0}) × Octets → CodecResult (Unit {0}) × Octets
restore len (ok u, out) = (ok u, out)
restore len (err e, out) = (err e, take len out)
restore len (panic, out) = (panic, out)

module _ ⦃ip : Ipnet⦄ where
  -- The `match` of `encode_into`, which writes the value.
  pub encode_value : DataItem → Put (Unit {0})
  unfolding put_port put_ids put_heartbeat put_latency put_percent encode_cp_flags encode_peer_flags
      as_bytes
  encode_value (DataItem.status code text) = do put_u8 code; put_slice text
  encode_value (DataItem.ipv4_connection_point flags addr port) = do
    put_u8 (encode_cp_flags flags)
    put_slice addr
    put_port port
  encode_value (DataItem.ipv6_connection_point flags addr port) = do
    put_u8 (encode_cp_flags flags)
    put_slice addr
    put_port port
  encode_value (DataItem.peer_type flags description) = do
    put_u8 (encode_peer_flags flags)
    put_slice description
  encode_value (DataItem.heartbeat_interval d) = put_heartbeat (as_millis d)
  encode_value (DataItem.extensions_supported ids) = put_ids ids
  encode_value (DataItem.mac_address mac) = put_slice (as_bytes mac)
  encode_value (DataItem.ipv4_address add addr) = do put_u8 (u8_of add); put_slice addr
  encode_value (DataItem.ipv6_address add addr) = do put_u8 (u8_of add); put_slice addr
  encode_value (DataItem.ipv4_attached_subnet add subnet) = do
    put_u8 (u8_of add)
    put_slice (ip.v4.network subnet)
    put_u8 subnet.prefix_len
  encode_value (DataItem.ipv6_attached_subnet add subnet) = do
    put_u8 (u8_of add)
    put_slice (ip.v6.network subnet)
    put_u8 subnet.prefix_len
  encode_value (DataItem.max_data_rate_receive bps) = put_u64 bps
  encode_value (DataItem.max_data_rate_transmit bps) = put_u64 bps
  encode_value (DataItem.current_data_rate_receive bps) = put_u64 bps
  encode_value (DataItem.current_data_rate_transmit bps) = put_u64 bps
  encode_value (DataItem.latency d) = put_latency (as_micros d)
  encode_value (DataItem.resources pct) = put_percent Field.resources pct
  encode_value (DataItem.relative_link_quality_receive pct) = put_percent Field.rlq_receive pct
  encode_value (DataItem.relative_link_quality_transmit pct) = put_percent Field.rlq_transmit pct
  encode_value (DataItem.mtu m) = put_u16 m
  encode_value (DataItem.unknown raw) = lift panic

  -- The length field is a placeholder until the value is written.
  pub encode_typed : DataItem → Put (Unit {0})
  unfolding check_projected projected_value_len patch u16_length
  encode_typed item out = and_then (check_projected (projected_value_len item) out) λ _ out₁.
      and_then (put_u16 (type_id_of item) out₁) λ _ out₂. and_then (put_u16 0 out₂) λ _ out₃.
        and_then (encode_value item out₃) λ _ out₄.
          and_then (lift (u16_length data_item_value_length (length out₄ - length out₃)) out₄)
            λ len. patch (length out₂) (to_be_bytes 2 len)

  pub encode_into : DataItem → Put (Unit {0})
  unfolding encode_raw encode_typed
  encode_into (DataItem.unknown raw) = encode_raw raw
  encode_into item = encode_typed item

  -- `DataItem::encode`.
  unfoldable pub encode_item : DataItem → Put (Unit {0})
  unfolding encode_into
  encode_item item out = restore (length out) (encode_into item out)
