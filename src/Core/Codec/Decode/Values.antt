-- ===== src/Core/Codec/Decode/Values.antt =====
-- The arms of `DataItem::decode` on the value fields of the wire format.
use dlep.Base.{
  ℕ, suc, ◌+◌, ◌%◌, ◌/◌, ◌^◌, ◌≤◌, ◌<◌, Octets, length, All, to_be_bytes, ok, List, [], ◌∷◌, ◌++◌,
  ◌≡◌, refl, ap, arith, Option, none, some, Bool, true, false, length-append, length-to_be_bytes,
  from_be_bytes-to_be_bytes, append-nil,
}
use dlep.Core.Ids.{DataItemType, ExtensionId}
use dlep.Core.Mac.{MacAddress, as_bytes, IsMac}
use dlep.Core.Error.{Field}
use dlep.Core.Ipnet.{IpNet, NetOps, NetLaws, trunc}
use dlep.Core.Item.{DataItem, ConnectionPointFlags, PeerFlags}
use dlep.Core.Metrics.{from_millis}
use dlep.Core.Codec.Raw.{index, slice, expect_exact}
use dlep.Core.Codec.Slices.{
  index-after_flag, index-after_two, slice_all, slice-after_flag, expect_exact_ok,
}
use dlep.Core.Codec.Encode.{u8_of, u32_max, check_percent}
use dlep.Core.Codec.Decode.{
  validate_flags, low_flag, text_after_first, optional_port, decode_status, decode_peer_type,
  connection_point, decode_heartbeat, read_ids, decode_extensions, decode_mac, address,
  truncated_net, attached_subnet, decode_u64, decode_percent, decode_percent_item, decode_mtu,
}
use dlep.Core.Codec.Wire.{IsText, IsPort, IsU16, IsNet, port_octets, id_octets}

index_head : (x : ℕ) (v : Octets) → index (x ∷ v) 0 ≡ ok x
unfolding index
index_head x v = refl

validate_flags_lem : (b : Bool) → validate_flags (u8_of b) ≡ ok tt
unfolding validate_flags
validate_flags_lem true = refl
validate_flags_lem false = refl

low_flag_lem : (b : Bool) → low_flag (u8_of b) ≡ b
unfolding low_flag
low_flag_lem true = refl
low_flag_lem false = refl

text_after_first_lem : (x : ℕ) (t : Octets) → IsText t → text_after_first (x ∷ t) ≡ ok t
unfolding text_after_first
text_after_first_lem x t h = rw (h.1)

pub decode_status_lem :
    (kind : DataItemType) (code : ℕ) (t : Octets)
    → IsText t
    → decode_status kind (code ∷ t) ≡ ok (DataItem.status code t)
unfolding decode_status
decode_status_lem kind code t h = ground (arith, index_head code t, text_after_first_lem code t h)

pub decode_peer_type_lem :
    (kind : DataItemType) (flags : PeerFlags) (t : Octets)
    → IsText t
    → decode_peer_type kind (u8_of flags.smi ∷ t) ≡ ok (DataItem.peer_type flags t)
unfolding decode_peer_type
decode_peer_type_lem kind flags t h =
    let flag = u8_of flags.smi in
    ground (
      arith,
      index_head flag t,
      validate_flags_lem flags.smi,
      text_after_first_lem flag t h,
      low_flag_lem flags.smi,
    )

pub connection_point_lem :
    (n : ℕ) (build : ConnectionPointFlags → Octets → Option ℕ → DataItem) (kind : DataItemType)
    (flags : ConnectionPointFlags) (addr : Octets) (port : Option ℕ)
    → length addr ≡ n
    → IsPort port
    → connection_point n build kind (u8_of flags.use_tls ∷ (addr ++ port_octets port))
      ≡ ok (build flags addr port)
unfolding connection_point optional_port to_be_bytes
connection_point_lem n build kind flags addr none h hp =
    let flag = u8_of flags.use_tls in
    ground (
      arith,
      length-append {0} addr [],
      index_head flag (addr ++ []),
      validate_flags_lem flags.use_tls,
      slice-after_flag addr [] flag n h,
      low_flag_lem flags.use_tls,
    )
connection_point_lem n build kind flags addr (some p) h hp =
    let flag = u8_of flags.use_tls in
    let hi = p / 256 % 256 in
    let lo = p % 256 in
    ground (
      arith,
      length-append {0} addr (hi ∷ lo ∷ []),
      index_head flag (addr ++ (hi ∷ lo ∷ [])),
      validate_flags_lem flags.use_tls,
      slice-after_flag addr (hi ∷ lo ∷ []) flag n h,
      index-after_flag addr (lo ∷ []) flag hi n h,
      index-after_two addr flag hi lo n h,
      from_be_bytes-to_be_bytes 2 p hp,
      low_flag_lem flags.use_tls,
    )

pub decode_heartbeat_lem :
    (kind : DataItemType) (ms : ℕ)
    → 1000 ≤ ms
    → ms ≤ u32_max
    → decode_heartbeat kind (to_be_bytes 4 ms) ≡ ok (DataItem.heartbeat_interval (from_millis ms))
unfolding decode_heartbeat
decode_heartbeat_lem kind ms lo hi =
    let v = to_be_bytes 4 ms in
    ground (
      arith,
      expect_exact_ok kind (length v) 4 (length-to_be_bytes 4 ms),
      slice_all v 4 (length-to_be_bytes 4 ms),
      from_be_bytes-to_be_bytes 4 ms (omega arith),
    )

read_ids_lem : (ids : List ExtensionId) → All IsU16 ids → read_ids (id_octets ids) ≡ ok ids
unfolding read_ids to_be_bytes
read_ids_lem [] h = refl
read_ids_lem (id ∷ ids) (hid, h) =
    rw (read_ids_lem ids h) (ap (λ (n : ℕ). ok (n ∷ ids)) (from_be_bytes-to_be_bytes 2 id hid))

even : (ids : List ExtensionId) → length (id_octets ids) % 2 ≡ 0
unfolding to_be_bytes
even [] = refl
even (id ∷ ids) = omega (arith, even ids)

pub decode_extensions_lem :
    (kind : DataItemType) (ids : List ExtensionId)
    → All IsU16 ids
    → decode_extensions kind (id_octets ids) ≡ ok (DataItem.extensions_supported ids)
unfolding decode_extensions
decode_extensions_lem kind ids h = ground (arith, even ids, read_ids_lem ids h)

pub decode_mac_lem :
    (kind : DataItemType) (mac : MacAddress)
    → IsMac mac
    → decode_mac kind (as_bytes mac) ≡ ok (DataItem.mac_address mac)
unfolding decode_mac as_bytes
decode_mac_lem kind (MacAddress.eui48 o) h = ground (arith, slice_all o 6 (h.0))
decode_mac_lem kind (MacAddress.eui64 o) h = ground (arith, slice_all o 8 (h.0))

pub address_lem :
    (n : ℕ) (build : Bool → Octets → DataItem) (kind : DataItemType) (add : Bool) (addr : Octets)
    → length addr ≡ n
    → address n build kind (u8_of add ∷ addr) ≡ ok (build add addr)
unfolding address
address_lem n build kind add addr h =
    let flag = u8_of add in
    let whole : slice (flag ∷ addr) 1 n ≡ ok addr =
      rw append-nil at (slice-after_flag addr [] flag n h) in
    ground (
      arith,
      expect_exact_ok kind (suc (length addr)) (n + 1) (omega arith),
      index_head flag addr,
      validate_flags_lem add,
      whole,
      low_flag_lem add,
    )

pub attached_subnet_lem :
    (n bits : ℕ) (ops : NetOps) (field : Field) (build : Bool → IpNet → DataItem)
    (kind : DataItemType) (add : Bool) (net : IpNet)
    → NetLaws n bits ops
    → IsNet n bits net
    → attached_subnet n ops field build kind
        (u8_of add ∷ (ops.network net ++ (net.prefix_len ∷ [])))
      ≡ ok (build add (trunc ops net))
unfolding attached_subnet truncated_net
attached_subnet_lem n bits ops field build kind add net laws h =
    let flag = u8_of add in
    let a = ops.network net in
    let p = net.prefix_len in
    let len : length a ≡ n = (laws.network_addr net (h.0)).0 in
    ground (
      arith,
      length-append {0} a (p ∷ []),
      expect_exact_ok kind (suc (length (a ++ (p ∷ [])))) (n + 2),
      index_head flag (a ++ (p ∷ [])),
      validate_flags_lem add,
      slice-after_flag a (p ∷ []) flag n len,
      index-after_flag a [] flag p n len,
      laws.new_ok a p (h.1),
      laws.network_trunc net,
      low_flag_lem add,
    )

pub decode_u64_lem :
    (build : ℕ → DataItem) (kind : DataItemType) (n : ℕ)
    → n < 2 ^ 64
    → decode_u64 build kind (to_be_bytes 8 n) ≡ ok (build n)
unfolding decode_u64
decode_u64_lem build kind n h =
    let v = to_be_bytes 8 n in
    ground (
      arith,
      expect_exact_ok kind (length v) 8 (length-to_be_bytes 8 n),
      slice_all v 8 (length-to_be_bytes 8 n),
      from_be_bytes-to_be_bytes 8 n h,
    )

pub decode_percent_item_lem :
    (build : ℕ → DataItem) (field : Field) (kind : DataItemType) (pct : ℕ)
    → pct ≤ 100
    → decode_percent_item build field kind (pct ∷ []) ≡ ok (build pct)
unfolding decode_percent_item decode_percent check_percent expect_exact
decode_percent_item_lem build field kind pct h = ground (arith, index_head pct [])

pub decode_mtu_lem :
    (kind : DataItemType) (n : ℕ)
    → IsU16 n
    → decode_mtu kind (to_be_bytes 2 n) ≡ ok (DataItem.mtu n)
unfolding decode_mtu
decode_mtu_lem kind n h =
    let v = to_be_bytes 2 n in
    ground (
      arith,
      expect_exact_ok kind (length v) 2 (length-to_be_bytes 2 n),
      slice_all v 2 (length-to_be_bytes 2 n),
      from_be_bytes-to_be_bytes 2 n h,
    )
