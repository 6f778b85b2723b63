-- ===== src/Core/Codec/Frame/Total.antt =====
-- The decoders of raw items, messages and signals on any octets.
use dlep.Base.{
  ℕ, zero, suc, ◌+◌, ◌≤◌, ◌<◌, Octets, IsByte, IsOctets, length, All, to_be_bytes, List, [], ◌∷◌,
  ◌++◌, map, ◌≡◌, refl, ltb, leb, not, arith, eq_octets, length-append, length-to_be_bytes,
  length-take, length-drop, All-take, All-drop, from_be_bytes-lt, ◌==◌, Bool-cases, inl, inr, Meets,
  Meets-bind, if_rule,
}
use dlep.Core.Error.{CodecError}
use dlep.Core.Ipnet.{Ipnet, IpnetLaws}
use dlep.Core.Item.{RawDataItem, DataItem, Message, Signal, type_id_of}
use dlep.Core.Codec.Raw.{decode_raw, ensure_len, get_u16, split_to}
use dlep.Core.Codec.Decode.{decode_item}
use dlep.Core.Codec.Decode.Sound.{IsDecoded}
use dlep.Core.Codec.Decode.Total.{decode_item-Sound}
use dlep.Core.Codec.Frame.{decode_items, decode_message, decode_signal}
use dlep.Core.Codec.Frame.Written.{items_octets, Sendable}
use dlep.Core.Codec.Wire.{IsItem, IsU16, Encodable, value_octets, item_octets, on_the_wire, tlv}

ensure_len-Meets :
    (have needed : ℕ) → Meets (λ (u : Unit {0}). needed ≤ have) (ensure_len have needed)
unfolding ensure_len
ensure_len-Meets have needed = ground arith

-- Two octets are taken off.
abbrev Word : Octets → ℕ × Octets → Type 0
Word src (n, rest) = IsU16 n × IsOctets rest × (length src ≡ length rest + 2)

get_u16-Meets : (src : Octets) → IsOctets src → 2 ≤ length src → Meets (Word src) (get_u16 src)
unfolding get_u16
get_u16-Meets [] h le = absurd (omega arith)
get_u16-Meets (a ∷ []) h le = absurd (omega arith)
get_u16-Meets (a ∷ b ∷ src) h le =
    (from_be_bytes-lt (a ∷ b ∷ []) (h.0, (h.1.0, tt)), h.1.1, omega arith)

abbrev Split : Octets → ℕ → Octets × Octets → Type 0
Split src n (v, rest) = IsOctets v × IsOctets rest × (length v ≡ n) × (length src ≡ n + length rest)

split_to-Meets :
    (src : Octets) (n : ℕ) → IsOctets src → n ≤ length src → Meets (Split src n) (split_to src n)
unfolding split_to
split_to-Meets src n h le = elim (Bool-cases (leb n (length src))) [
  | inr e ↦ absurd (ground arith)
  | inl e ↦ rw e (
    All-take IsByte n src h,
    All-drop IsByte n src h,
    length-take n src le,
    omega (arith, length-drop {0} n src),
  )
]

-- A raw item is taken off the front, with its four octets of header.
abbrev Taken : Octets → RawDataItem × Octets → Type 0
Taken src (raw, rest) =
    (raw.type_id < 65536)
    × IsOctets raw.value
    × (length raw.value ≤ 65535)
    × IsOctets rest
    × (length src ≡ 4 + length raw.value + length rest)

decode_raw-Meets : (src : Octets) → IsOctets src → Meets (Taken src) (decode_raw src)
unfolding decode_raw
decode_raw-Meets src h =
    Meets-bind _ (Taken src) (ensure_len (length src) 4) _ (ensure_len-Meets (length src) 4)
      λ _ four.
        Meets-bind (Word src) (Taken src) (get_u16 src) _ (get_u16-Meets src h (omega arith))
          λ (t, src₁) (ht, h₁, l₁).
            Meets-bind (Word src₁) (Taken src) (get_u16 src₁) _
              (get_u16-Meets src₁ h₁ (omega arith))
              λ (n, src₂) (hn, h₂, l₂).
                Meets-bind _ (Taken src) (ensure_len (length src₂) n) _
                  (ensure_len-Meets (length src₂) n)
                  λ _ enough.
                    Meets-bind (Split src₂ n) (Taken src) (split_to src₂ n) _
                      (split_to-Meets src₂ n h₂ enough)
                      λ (v, rest) (hv, hr, lv, lr). (ht, hv, omega arith, hr, omega arith)

module _ ⦃ip : Ipnet⦄ where
  -- What is promised of items that were read from `n` octets.
  abbrev pub IsReceived : ℕ → List DataItem → Type 0
  IsReceived n items =
      All IsItem items
      × All Encodable items
      × (length (items_octets items) ≡ n)
      × (map on_the_wire items ≡ items)

  -- A message that was read from `n` octets.
  abbrev pub IsReceivedMessage : ℕ → Message → Type 0
  IsReceivedMessage n m =
      IsU16 m.message_type
      × All IsItem m.data_items
      × Sendable m.data_items
      × (map on_the_wire m.data_items ≡ m.data_items)
      × (4 + length (items_octets m.data_items) ≤ n)

  abbrev pub IsReceivedSignal : ℕ → Signal → Type 0
  IsReceivedSignal n s =
      IsU16 s.signal_type
      × All IsItem s.data_items
      × Sendable s.data_items
      × (map on_the_wire s.data_items ≡ s.data_items)
      × (8 + length (items_octets s.data_items) ≡ n)

  length-item_octets :
      (item : DataItem) → length (item_octets item) ≡ 4 + length (value_octets item)
  unfolding tlv
  length-item_octets item =
      let v = value_octets item in
      omega (
        arith,
        length-append {0} (to_be_bytes 2 (type_id_of item)) (to_be_bytes 2 (length v) ++ v),
        length-append {0} (to_be_bytes 2 (length v)) v,
        length-to_be_bytes 2 (type_id_of item),
        length-to_be_bytes 2 (length v),
      )

  module _ (laws : IpnetLaws ip) where
    -- Enough fuel is a round for each octet.
    decode_items-Meets :
        (fuel : ℕ) (src : Octets)
        → IsOctets src
        → length src ≤ fuel
        → Meets (IsReceived (length src)) (decode_items fuel src)
    unfolding decode_items
    decode_items-Meets fuel [] h le = (tt, tt, refl, refl)
    decode_items-Meets zero (b ∷ src) h le = absurd (omega arith)
    decode_items-Meets (suc fuel) (b ∷ src) h le =
        let P = IsReceived (length (b ∷ src)) in
        Meets-bind (Taken (b ∷ src)) P (decode_raw (b ∷ src)) _ (decode_raw-Meets (b ∷ src) h)
          λ (raw, rest) (ht, hv, lv, hr, l).
            Meets-bind (IsDecoded raw.type_id (length raw.value)) P (decode_item raw) _
              (decode_item-Sound laws raw ht hv lv)
              λ item (ti, hi, (ri, li), wi).
                Meets-bind (IsReceived (length rest)) P (decode_items fuel rest) _
                  (decode_items-Meets fuel rest hr (omega arith))
                  λ items (his, hes, lis, ws). (
                    (hi, his),
                    ((ri, omega arith), hes),
                    omega (
                      arith,
                      length-append {0} (item_octets item) (items_octets items),
                      length-item_octets item,
                    ),
                    λ i. wi i ∷ ws i,
                  )

    -- Under the documented laws of ipnet, decoding a message never panics on any octets, and a
    -- message that it accepts has fields within their Rust types, can be encoded again, is already
    -- as it appears on the wire, and its encoding is no longer than the input.
    pub decode_message-Meets :
        (src : Octets) → IsOctets src → Meets (IsReceivedMessage (length src)) (decode_message src)
    unfolding decode_message
    decode_message-Meets src h =
        let P = IsReceivedMessage (length src) in
        Meets-bind _ P (ensure_len (length src) 4) _ (ensure_len-Meets (length src) 4) λ _ four.
          Meets-bind (Word src) P (get_u16 src) _ (get_u16-Meets src h (omega arith))
            λ (t, src₁) (ht, h₁, l₁).
              Meets-bind (Word src₁) P (get_u16 src₁) _ (get_u16-Meets src₁ h₁ (omega arith))
                λ (n, src₂) (hn, h₂, l₂).
                  if_rule (Meets {E = CodecError} P) (ltb (length src₂) n) (λ _. tt)
                    λ e.
                      Meets-bind (Split src₂ n) P (split_to src₂ n) _
                        (split_to-Meets src₂ n h₂ (ground arith))
                        λ (body, rest) (hb, hr, lb, lr).
                          Meets-bind (IsReceived (length body)) P (decode_items (length body) body)
                            _ (decode_items-Meets (length body) body hb (omega arith))
                            λ items (his, hes, lis, ws).
                              (ht, his, (hes, omega arith), ws, omega arith)

    -- Under the documented laws of ipnet, decoding a signal never panics on any octets, and a
    -- signal that it accepts has fields within their Rust types, can be encoded again, is already
    -- as it appears on the wire, and fills its datagram.
    pub decode_signal-Meets :
        (src : Octets) → IsOctets src → Meets (IsReceivedSignal (length src)) (decode_signal src)
    unfolding decode_signal
    decode_signal-Meets src h =
        let P = IsReceivedSignal (length src) in
        Meets-bind _ P (ensure_len (length src) 8) _ (ensure_len-Meets (length src) 8) λ _ eight.
          Meets-bind (Split src 4) P (split_to src 4) _ (split_to-Meets src 4 h (omega arith))
            λ (prefix, src₀) (hp, h₀, lp, l₀).
              if_rule (Meets {E = CodecError} P) (not (eq_octets prefix _)) (λ _. tt)
                λ e.
                  Meets-bind (Word src₀) P (get_u16 src₀) _ (get_u16-Meets src₀ h₀ (omega arith))
                    λ (t, src₁) (ht, h₁, l₁).
                      Meets-bind (Word src₁) P (get_u16 src₁) _
                        (get_u16-Meets src₁ h₁ (omega arith))
                        λ (n, src₂) (hn, h₂, l₂).
                          if_rule (Meets {E = CodecError} P) (not (length src₂ == n)) (λ _. tt)
                            λ e.
                              Meets-bind (Split src₂ n) P (split_to src₂ n) _
                                (split_to-Meets src₂ n h₂ (ground arith))
                                λ (body, rest) (hb, hr, lb, lr).
                                  Meets-bind (IsReceived (length body)) P
                                    (decode_items (length body) body) _
                                    (decode_items-Meets (length body) body hb (omega arith))
                                    λ items (his, hes, lis, ws).
                                      (ht, his, (hes, omega arith), ws, ground arith)
