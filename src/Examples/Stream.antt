-- ===== src/Examples/Stream.antt =====
-- Frames of a stream.
use dlep.Base.{
  Octets, map, from_be_bytes, to_be_bytes, [], ◌∷◌, ◌++◌, Option, none, some, ok, ◌≡◌, refl, arith,
}
use dlep.Core.Ipnet.Masked.{masked_laws}
use dlep.Core.Ids.{msg_heartbeat}
use dlep.Core.Error.{CodecResult}
use dlep.Core.Item.{Message, new_message}
use dlep.Core.Codec.Wire.{on_the_wire}
use dlep.Core.Codec.Frame.Written.{message_octets}
use dlep.Core.Codec.Raw.{ensure_len, get_u16, split_to, index}
use dlep.Core.Codec.Frame.{decode_items, decode_message}
use dlep.Net.Framed.{decode_frame, encode_frame, declared_length, frame_of, take_frame}
use dlep.Net.Framed.Stream.{decode_frame-append, decode_frame_partial, decode_frame-encode_frame}
use dlep.Examples.Data.{example_net, init_message}
use dlep.Examples.Codec.{init_items, init-Sendable}

-- A Heartbeat message, which has no items.
abbrev heartbeat : Message
heartbeat = new_message msg_heartbeat

abbrev heartbeat_octets : Octets
heartbeat_octets = 0 ∷ 16 ∷ 0 ∷ 0 ∷ []

heartbeat_run : decode_frame heartbeat_octets ≡ (ok (some heartbeat), [])
unfolding decode_frame take_frame frame_of declared_length index decode_message ensure_len get_u16
    split_to decode_items from_be_bytes
heartbeat_run = refl

written : message_octets heartbeat ≡ (0 ∷ 16 ∷ 0 ∷ []) ++ (0 ∷ [])
unfolding to_be_bytes
written = refl

abbrev something : CodecResult (Option Message)
something = ok (some heartbeat)

decode_frame-append_example :
    decode_frame (heartbeat_octets ++ (0 ∷ 5 ∷ [])) ≡ (ok (some heartbeat), 0 ∷ 5 ∷ [])
decode_frame-append_example =
    decode_frame-append heartbeat_octets (0 ∷ 5 ∷ []) something [] heartbeat_run (λ e. cc)

decode_frame_partial_example : decode_frame (0 ∷ 16 ∷ 0 ∷ []) ≡ (ok none, 0 ∷ 16 ∷ 0 ∷ [])
decode_frame_partial_example =
    decode_frame_partial heartbeat (0 ∷ 16 ∷ 0 ∷ []) [] 0 (tt, omega arith) written

decode_frame-encode_frame_example :
    decode_frame ((encode_frame init_message []).1 ++ heartbeat_octets) ≡ (
      ok (some (record init_message { data_items = map on_the_wire init_message.data_items })),
      heartbeat_octets,
    )
decode_frame-encode_frame_example =
    decode_frame-encode_frame masked_laws init_message heartbeat_octets (omega arith) init_items
      init-Sendable
