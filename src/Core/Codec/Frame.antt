-- ===== src/Core/Codec/Frame.antt =====
-- `Message` and `Signal` of codec.rs: header, body length and items.
pub mod Written
pub mod RoundTrip
pub mod Total
pub mod Stable
use dlep.Base.{
  ℕ, zero, suc, Octets, length, take, drop, to_be_bytes, Result, ok, err, panic, ◌>>=◌, ◌>>◌,
  if◌then◌else◌, ltb, ◌==◌, eq_octets, List, [], ◌∷◌, ◌++◌, Bool, true, false, not, ◌&&◌,
}
use dlep.Core.Ids.{signal_prefix}
use dlep.Core.Error.{
  CodecError, CodecResult, Field, missing_signal_prefix, length_mismatch, signal_body_length,
  message_body_length,
}
use dlep.Core.Ipnet.{Ipnet}
use dlep.Core.Item.{DataItem, Message, Signal}
use dlep.Core.Codec.Raw.{ensure_len, get_u16, split_to, u16_length, decode_raw}
use dlep.Core.Codec.Encode.{Put, encode_item, and_then}
use dlep.Core.Codec.Decode.{decode_item}

abbrev pub signal_header_len : ℕ
signal_header_len = 8

abbrev pub message_header_len : ℕ
message_header_len = 4

module _ ⦃ip : Ipnet⦄ where
  -- `for item in &self.data_items { item.encode(&mut body)?; }`.
  unfoldable pub encode_items : List DataItem → Put (Unit {0})
  encode_items [] body = (ok tt, body)
  encode_items (item ∷ items) body = and_then (encode_item item body) λ _. encode_items items

  -- `while body.has_remaining()`. Each round takes 4 octets at least, so the body's length bounds
  -- the rounds; running out of fuel would show as a panic.
  unfoldable pub decode_items : ℕ → Octets → CodecResult (List DataItem)
  decode_items fuel [] = ok []
  decode_items zero (b ∷ body) = panic
  decode_items (suc fuel) (b ∷ body) = do
    (raw, rest) ← decode_raw (b ∷ body)
    item ← decode_item raw
    items ← decode_items fuel rest
    ok (item ∷ items)

  -- `Message::encode`.
  unfoldable pub encode_message : Message → CodecResult Octets
  encode_message m =
      let (r, body) = encode_items m.data_items [] in
      do
        r
        body_len ← u16_length message_body_length (length body)
        ok (to_be_bytes 2 m.message_type ++ (to_be_bytes 2 body_len ++ body))

  -- `Message::decode`, which ignores what follows the declared body.
  unfoldable pub decode_message : Octets → CodecResult Message
  decode_message src = do
    ensure_len (length src) message_header_len
    (message_type, src₁) ← get_u16 src
    (declared, src₂) ← get_u16 src₁
    if ltb (length src₂) declared then err (length_mismatch declared (length src₂)) else do
      (body, rest) ← split_to src₂ declared
      items ← decode_items (length body) body
      ok (record { message_type = message_type; data_items = items })

  -- `Signal::encode`.
  unfoldable pub encode_signal : Signal → CodecResult Octets
  encode_signal s =
      let (r, body) = encode_items s.data_items [] in
      do
        r
        body_len ← u16_length signal_body_length (length body)
        ok (signal_prefix ++ (to_be_bytes 2 s.signal_type ++ (to_be_bytes 2 body_len ++ body)))

  -- `Signal::decode`, which wants the body to fill the datagram.
  unfoldable pub decode_signal : Octets → CodecResult Signal
  decode_signal src = do
    ensure_len (length src) signal_header_len
    (prefix, src₀) ← split_to src 4
    if not (eq_octets prefix signal_prefix) then err missing_signal_prefix else do
      (signal_type, src₁) ← get_u16 src₀
      (declared, src₂) ← get_u16 src₁
      if not (length src₂ == declared) then err (length_mismatch declared (length src₂)) else do
        (body, rest) ← split_to src₂ declared
        items ← decode_items (length body) body
        ok (record { signal_type = signal_type; data_items = items })
