-- ===== src/Core/Codec/Frame/RoundTrip.antt =====
-- The decoders of messages and signals on what the encoders write.
use dlep.Base.{
  ℕ, zero, suc, ◌≤◌, ◌<◌, Octets, length, All, to_be_bytes, ok, ◌>>=◌, List, [], ◌∷◌, ◌++◌, map,
  ◌≡◌, refl, ◌∙◌, ltb, false, arith, eq_octets, append_assoc, length-append, length-to_be_bytes,
  inl, inr, ==_iff,
}
use dlep.Core.Ids.{signal_prefix}
use dlep.Core.Ipnet.{Ipnet, IpnetLaws}
use dlep.Core.Item.{RawDataItem, DataItem, Message, Signal, type_id_of}
use dlep.Core.Codec.Raw.{decode_raw, ensure_len}
use dlep.Core.Codec.Slices.{
  decode_raw-tlv, ensure_len_ok, get_u16-to_be_bytes, split_to-append, split_to_all, room,
}
use dlep.Core.Codec.Decode.{decode_item}
use dlep.Core.Codec.RoundTrip.{raw_item, decode_item-value_octets}
use dlep.Core.Codec.Frame.{
  decode_items, encode_message, decode_message, encode_signal, decode_signal,
}
use dlep.Core.Codec.Frame.Written.{
  items_octets, message_octets, signal_octets, Sendable, encode_message_lem, encode_signal_lem,
}
use dlep.Core.Codec.Wire.{IsItem, IsU16, Encodable, value_octets, item_octets, on_the_wire, tlv}

type_id-IsU16 : (item : DataItem) → IsItem item → IsU16 (type_id_of item)
type_id-IsU16 (DataItem.unknown raw) h = h.1
type_id-IsU16 (DataItem.mtu m) h = omega arith
type_id-IsU16 _ h = omega arith

module _ ⦃ip : Ipnet⦄ where
  pub decode_items_step :
      (fuel : ℕ) (src rest : Octets) (raw : RawDataItem) (item : DataItem)
      → decode_raw src ≡ ok (raw, rest)
      → decode_item raw ≡ ok item
      → decode_items (suc fuel) src ≡ (decode_items fuel rest >>= λ items. ok (item ∷ items))
  unfolding decode_items
  decode_items_step fuel [] rest raw item e f = unfold decode_raw ensure_len in cc
  decode_items_step fuel (b ∷ src) rest raw item e f = rw (e, f)

  length-tlv : (t : ℕ) (v r : Octets) → length r < length (tlv t v ++ r)
  unfolding tlv
  length-tlv t v r = omega (
    arith,
    length-append {0} (tlv t v) r,
    length-append {0} (to_be_bytes 2 t) (to_be_bytes 2 (length v) ++ v),
    length-to_be_bytes 2 t,
  )

  module _ (laws : IpnetLaws ip) where
    decode_items-items_octets :
        (items : List DataItem) (fuel : ℕ)
        → All IsItem items
        → All Encodable items
        → length (items_octets items) ≤ fuel
        → decode_items fuel (items_octets items) ≡ ok (map on_the_wire items)
    decode_items-items_octets [] fuel h k le = unfold decode_items in refl
    decode_items-items_octets (item ∷ items) zero h k le =
        absurd
          (omega (arith, length-tlv (type_id_of item) (value_octets item) (items_octets items)))
    decode_items-items_octets (item ∷ items) (suc fuel) (h, hs) (k, ks) le =
        let rest = items_octets items in
        decode_items_step fuel (item_octets item ++ rest) rest (raw_item item) (on_the_wire item)
          (decode_raw-tlv (type_id_of item) (value_octets item) rest (type_id-IsU16 item h) (k.1))
          (decode_item-value_octets laws item h (k.0))
        ∙ rw (
            decode_items-items_octets items fuel hs ks
              (omega (arith, length-tlv (type_id_of item) (value_octets item) rest)))

    -- The octets of a message, and anything behind them.
    pub decode_message-octets :
        (m : Message) (rest : Octets)
        → IsU16 m.message_type
        → All IsItem m.data_items
        → Sendable m.data_items
        → decode_message (message_octets m ++ rest)
          ≡ ok (record m { data_items = map on_the_wire m.data_items })
    unfolding decode_message
    decode_message-octets m rest ht hi (he, fits) =
        let body = items_octets m.data_items in
        let flat : message_octets m ++ rest
            ≡ to_be_bytes 2 m.message_type ++ (to_be_bytes 2 (length body) ++ (body ++ rest)) =
          simp append_assoc in
        let enough : ltb (length (body ++ rest)) (length body) ≡ false =
          ground (arith, length-append {0} body rest) in
        rw (
          flat,
          ensure_len_ok _ 4 (room m.message_type (length body) (body ++ rest)),
          get_u16-to_be_bytes m.message_type (to_be_bytes 2 (length body) ++ (body ++ rest)) ht,
          get_u16-to_be_bytes (length body) (body ++ rest) (omega arith),
          enough,
          split_to-append body rest (length body) refl,
          decode_items-items_octets m.data_items (length body) hi he (omega arith),
        )

    -- Under the documented laws of ipnet, a message whose fields are within their Rust types,
    -- whose unknown items have a type id that is none of the RFC's (0, or above 20), and whose
    -- items can be sent is encoded without an error, and its encoding, with any octets behind it,
    -- is decoded to the message with its items as they appear on the wire (durations in whole
    -- units, subnets in network form).
    pub decode-encode_message :
        (m : Message) (rest : Octets)
        → IsU16 m.message_type
        → All IsItem m.data_items
        → Sendable m.data_items
        → (encode_message m >>= λ bytes. decode_message (bytes ++ rest))
          ≡ ok (record m { data_items = map on_the_wire m.data_items })
    decode-encode_message m rest ht hi hs = elim (encode_message_lem m) [
      | inl (_, e) ↦ rw e (decode_message-octets m rest ht hi hs)
      | inr (x, e, bad) ↦ absurd (bad hs)
    ]

    decode_signal-octets :
        (s : Signal)
        → IsU16 s.signal_type
        → All IsItem s.data_items
        → Sendable s.data_items
        → decode_signal (signal_octets s)
          ≡ ok (record s { data_items = map on_the_wire s.data_items })
    unfolding decode_signal eq_octets
    decode_signal-octets s ht hi (he, fits) =
        let body = items_octets s.data_items in
        let tail = to_be_bytes 2 s.signal_type ++ (to_be_bytes 2 (length body) ++ body) in
        rw (
          ensure_len_ok (length (signal_prefix ++ tail)) 8
              (omega (arith, room s.signal_type (length body) body)),
          split_to-append signal_prefix tail 4 refl,
          get_u16-to_be_bytes s.signal_type (to_be_bytes 2 (length body) ++ body) ht,
          get_u16-to_be_bytes (length body) body (omega arith),
          (==_iff (length body) (length body)).1 refl,
          split_to_all body (length body) refl,
          decode_items-items_octets s.data_items (length body) hi he (omega arith),
        )

    -- Under the documented laws of ipnet, a signal whose fields are within their Rust types, whose
    -- unknown items have a type id that is none of the RFC's (0, or above 20), and whose items can
    -- be sent is encoded without an error and decoded to the signal with its items as they appear
    -- on the wire.
    pub decode-encode_signal :
        (s : Signal)
        → IsU16 s.signal_type
        → All IsItem s.data_items
        → Sendable s.data_items
        → (encode_signal s >>= decode_signal)
          ≡ ok (record s { data_items = map on_the_wire s.data_items })
    decode-encode_signal s ht hi hs = elim (encode_signal_lem s) [
      | inl (_, e) ↦ rw e (decode_signal-octets s ht hi hs)
      | inr (x, e, bad) ↦ absurd (bad hs)
    ]
