-- ===== src/Net/Framed.antt =====
-- crates/dlep-net/src/framed.rs: messages cut out of a TCP stream. The buffer `src` is returned
-- beside the result; `reserve` changes no content.
pub mod Stream
use dlep.Base.{
  ℕ, ◌+◌, Octets, length, take, drop, from_be_bytes, ok, err, panic, ◌>>=◌, if◌then◌else◌, ltb,
  List, [], ◌∷◌, ◌++◌, Option, none, some,
}
use dlep.Core.Error.{CodecResult}
use dlep.Core.Ipnet.{Ipnet}
use dlep.Core.Item.{Message, Signal}
use dlep.Core.Codec.Raw.{index}
use dlep.Core.Codec.Frame.{
  message_header_len, encode_message, decode_message, encode_signal, decode_signal,
}

-- `u16::from_be_bytes([src[2], src[3]])`.
unfoldable pub declared_length : Octets → CodecResult ℕ
declared_length src = do hi ← index src 2; lo ← index src 3; ok (from_be_bytes (hi ∷ lo ∷ []))

module _ ⦃ip : Ipnet⦄ where
  -- `split_to(total)` and `Message::decode`, once the whole frame is there.
  unfoldable pub take_frame : ℕ → Octets → CodecResult (Option Message) × Octets
  take_frame total src =
      if ltb (length src) total
      then (ok none, src)
      else ((decode_message (take total src) >>= λ m. ok (some m)), drop total src)

  unfoldable pub frame_of : CodecResult ℕ → Octets → CodecResult (Option Message) × Octets
  unfolding take_frame
  frame_of (ok declared) src = take_frame (message_header_len + declared) src
  frame_of (err e) src = (err e, src)
  frame_of panic src = (panic, src)

  -- `<MessageCodec as Decoder>::decode`.
  unfoldable pub decode_frame : Octets → CodecResult (Option Message) × Octets
  unfolding declared_length frame_of
  decode_frame src =
      if ltb (length src) message_header_len
      then (ok none, src)
      else frame_of (declared_length src) src

  unfoldable pub append_frame : CodecResult Octets → Octets → CodecResult (Unit {0}) × Octets
  append_frame (ok bytes) dst = (ok tt, dst ++ bytes)
  append_frame (err e) dst = (err e, dst)
  append_frame panic dst = (panic, dst)

  -- `<MessageCodec as Encoder<Message>>::encode`.
  unfoldable pub encode_frame : Message → Octets → CodecResult (Unit {0}) × Octets
  unfolding append_frame
  encode_frame m dst = append_frame (encode_message m) dst

  -- `SignalCodec::decode_datagram` and `encode_datagram`.
  unfoldable pub decode_datagram : Octets → CodecResult Signal
  decode_datagram buf = decode_signal buf

  unfoldable pub encode_datagram : Signal → CodecResult Octets
  encode_datagram s = encode_signal s
