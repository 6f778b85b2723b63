-- ===== src/Examples/Codec.antt =====
-- Items, messages and signals.
use dlep.Base.{
  Octets, IsOctets, length, All, map, [], ◌∷◌, ◌++◌, ok, ◌≡◌, refl, ◌>>=◌, from_be_bytes, eq_octets,
  to_be_bytes, arith, Meets,
}
use dlep.Core.Ipnet.Masked.{masked_laws, net_ops}
use dlep.Core.Utf8.{is_utf8}
use dlep.Core.Item.{DataItem, Message}
use dlep.Core.Codec.Wire.{tlv, IsItem, Encodable, item_octets, on_the_wire}
use dlep.Core.Codec.Encode.{encode_item}
use dlep.Core.Codec.Decode.{decode_item, decode_heartbeat}
use dlep.Core.Codec.Encode.Value.{Appends}
use dlep.Core.Codec.Encode.Item.{encode_item_lem}
use dlep.Core.Codec.RoundTrip.{raw_item, decode_item-value_octets}
use dlep.Core.Codec.Raw.{ensure_len, get_u16, split_to, decode_raw, expect_exact, slice}
use dlep.Core.Codec.Frame.{
  decode_items, encode_message, decode_message, encode_signal, decode_signal,
}
use dlep.Core.Codec.Frame.Written.{Sendable, Answers, message_octets, encode_message_lem}
use dlep.Core.Codec.Frame.RoundTrip.{decode-encode_message, decode-encode_signal}
use dlep.Core.Codec.Frame.Total.{
  IsReceivedMessage, IsReceivedSignal, decode_message-Meets, decode_signal-Meets,
}
use dlep.Core.Codec.Frame.Stable.{reencode_message}
use dlep.Core.Codec.Decode.Sound.{Sound}
use dlep.Core.Codec.Decode.Total.{decode_item-Sound}
use dlep.Examples.Data.{example_net, init_message, offer, heartbeat_item, subnet_item}

pub init_items : All IsItem init_message.data_items
unfolding is_utf8
init_items = (
  ((omega arith, (omega arith, (omega arith, (omega arith, (omega arith, tt))))), refl),
  (tt, (((refl, (omega arith, (omega arith, (omega arith, (omega arith, tt))))), omega arith), tt)),
)

pub init-Sendable : Sendable init_message.data_items
unfolding to_be_bytes tlv net_ops
init-Sendable = (
  ((tt, omega arith), (((omega arith, omega arith), omega arith), ((tt, omega arith), tt))),
  omega arith,
)

offer_items : All IsItem offer.data_items
unfolding is_utf8
offer_items = (
  ((omega arith, (omega arith, (omega arith, (omega arith, (omega arith, tt))))), refl),
  (((refl, (omega arith, (omega arith, (omega arith, (omega arith, tt))))), omega arith), tt),
)

offer-Sendable : Sendable offer.data_items
unfolding to_be_bytes tlv
offer-Sendable = (((tt, omega arith), ((tt, omega arith), tt)), omega arith)

-- The host bits of the subnet are gone.
decode-encode_message_example :
    (encode_message init_message >>= λ bytes. decode_message (bytes ++ (1 ∷ 2 ∷ [])))
    ≡ ok (record init_message { data_items = map on_the_wire init_message.data_items })
decode-encode_message_example =
    decode-encode_message masked_laws init_message (1 ∷ 2 ∷ []) (omega arith) init_items
      init-Sendable

decode-encode_signal_example :
    (encode_signal offer >>= decode_signal)
    ≡ ok (record offer { data_items = map on_the_wire offer.data_items })
decode-encode_signal_example =
    decode-encode_signal masked_laws offer (omega arith) offer_items offer-Sendable

-- The encoding of the message, as bytes on the wire; the rest is cut short.
abbrev received : Octets
received = 0 ∷ 1 ∷ 0 ∷ 8 ∷ 0 ∷ 5 ∷ 0 ∷ 4 ∷ 0 ∷ 0 ∷ 234 ∷ 96 ∷ []

received-IsOctets : IsOctets received
received-IsOctets = (
  omega arith,
  (
    omega arith,
    (
      omega arith,
      (
        omega arith,
        (
          omega arith,
          (
            omega arith,
            (
              omega arith,
              (omega arith, (omega arith, (omega arith, (omega arith, (omega arith, tt))))),
            ),
          ),
        ),
      ),
    ),
  ),
)

abbrev heartbeat_only : Message
heartbeat_only = record { message_type = 1; data_items = heartbeat_item ∷ [] }

received_message : decode_message received ≡ ok heartbeat_only
unfolding decode_message decode_item ensure_len get_u16 from_be_bytes split_to decode_items
    decode_raw decode_heartbeat expect_exact slice
received_message = refl

decode_message-Meets_example : Meets (IsReceivedMessage (length received)) (decode_message received)
decode_message-Meets_example = decode_message-Meets masked_laws received received-IsOctets

reencode_message_example :
    (encode_message heartbeat_only >>= λ bytes. decode_message (bytes ++ (7 ∷ [])))
    ≡ ok heartbeat_only
reencode_message_example =
    reencode_message masked_laws received (7 ∷ []) heartbeat_only received-IsOctets received_message

-- "DLEP", a Peer Discovery with no items.
abbrev probe : Octets
probe = 68 ∷ 76 ∷ 69 ∷ 80 ∷ 0 ∷ 1 ∷ 0 ∷ 0 ∷ []

probe-IsOctets : IsOctets probe
probe-IsOctets = (
  omega arith,
  (
    omega arith,
    (omega arith, (omega arith, (omega arith, (omega arith, (omega arith, (omega arith, tt)))))),
  ),
)

probe_signal : decode_signal probe ≡ ok (record { signal_type = 1; data_items = [] })
unfolding decode_signal ensure_len split_to eq_octets get_u16 from_be_bytes decode_items
probe_signal = refl

decode_signal-Meets_example : Meets (IsReceivedSignal (length probe)) (decode_signal probe)
decode_signal-Meets_example = decode_signal-Meets masked_laws probe probe-IsOctets

-- A relative link quality above 100 percent, refused behind one octet.
encode_item_lem_example :
    Appends
      (Encodable (DataItem.resources 101))
      (item_octets (DataItem.resources 101))
      (9 ∷ [])
      (encode_item (DataItem.resources 101) (9 ∷ []))
encode_item_lem_example = encode_item_lem (DataItem.resources 101) (9 ∷ [])

encode_message_lem_example :
    Answers
      (Sendable init_message.data_items)
      (message_octets init_message)
      (encode_message init_message)
encode_message_lem_example = encode_message_lem init_message

decode_item-value_octets_example : decode_item (raw_item subnet_item) ≡ ok (on_the_wire subnet_item)
decode_item-value_octets_example =
    decode_item-value_octets masked_laws subnet_item
      ((refl, (omega arith, (omega arith, (omega arith, (omega arith, tt))))), omega arith) tt

-- A MAC address of 7 octets.
decode_item-Sound_example :
    Sound 7
      (1 ∷ 2 ∷ 3 ∷ 4 ∷ 5 ∷ 6 ∷ 7 ∷ [])
      (decode_item (record { type_id = 7; value = 1 ∷ 2 ∷ 3 ∷ 4 ∷ 5 ∷ 6 ∷ 7 ∷ [] }))
decode_item-Sound_example =
    decode_item-Sound masked_laws (record { type_id = 7; value = 1 ∷ 2 ∷ 3 ∷ 4 ∷ 5 ∷ 6 ∷ 7 ∷ [] })
      (omega arith)
      (
        omega arith,
        (
          omega arith,
          (omega arith, (omega arith, (omega arith, (omega arith, (omega arith, tt))))),
        ),
      )
      (omega arith)
