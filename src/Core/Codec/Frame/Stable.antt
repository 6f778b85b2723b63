-- ===== src/Core/Codec/Frame/Stable.antt =====
-- Received messages and signals that are sent on.
use dlep.Base.{Octets, IsOctets, length, ok, ◌>>=◌, Meets, ◌++◌, ◌≡◌, ◌∙◌, subst}
use dlep.Core.Ipnet.{Ipnet, IpnetLaws}
use dlep.Core.Item.{Message, Signal}
use dlep.Core.Codec.Frame.{encode_message, decode_message, encode_signal, decode_signal}
use dlep.Core.Codec.Frame.Total.{
  IsReceivedMessage, IsReceivedSignal, decode_message-Meets, decode_signal-Meets,
}
use dlep.Core.Codec.Frame.RoundTrip.{decode-encode_message, decode-encode_signal}

module _ ⦃ip : Ipnet⦄ (laws : IpnetLaws ip) where
  -- Under the documented laws of ipnet, a message that was decoded from any octets is encoded
  -- without an error, and its encoding, also with other octets behind it, is decoded to the same
  -- message.
  pub reencode_message :
      (src rest : Octets) (m : Message)
      → IsOctets src
      → decode_message src ≡ ok m
      → (encode_message m >>= λ bytes. decode_message (bytes ++ rest)) ≡ ok m
  reencode_message src rest m h e =
      let (t, items, sendable, canonical, _) =
        subst (Meets (IsReceivedMessage (length src))) e (decode_message-Meets laws src h) in
      decode-encode_message laws m rest t items sendable
      ∙ (λ i. ok (record m { data_items = canonical i }))

  -- Under the documented laws of ipnet, a signal that was decoded from any octets is encoded
  -- without an error and decoded to the same signal.
  pub reencode_signal :
      (src : Octets) (s : Signal)
      → IsOctets src
      → decode_signal src ≡ ok s
      → (encode_signal s >>= decode_signal) ≡ ok s
  reencode_signal src s h e =
      let (t, items, sendable, canonical, _) =
        subst (Meets (IsReceivedSignal (length src))) e (decode_signal-Meets laws src h) in
      decode-encode_signal laws s t items sendable
      ∙ (λ i. ok (record s { data_items = canonical i }))
