-- ===== src/Core/Codec/Frame/Written.antt =====
-- What the encoders of messages and signals write, and when they refuse.
use dlep.Base.{
  ℕ, ◌≤◌, Octets, length, All, to_be_bytes, ok, err, List, [], ◌∷◌, ◌++◌, ◌≡◌, ◌⊎◌, inl, inr, arith,
  append-nil, append_assoc, Bool-cases, leb, tests,
}
use dlep.Core.Ids.{signal_prefix}
use dlep.Core.Error.{
  CodecError, CodecResult, Field, out_of_range, message_body_length, signal_body_length,
}
use dlep.Core.Ipnet.{Ipnet}
use dlep.Core.Item.{DataItem, Message, Signal}
use dlep.Core.Codec.Raw.{u16_length}
use dlep.Core.Codec.Encode.Item.{encode_item_lem}
use dlep.Core.Codec.Frame.{encode_items, encode_message, encode_signal}
use dlep.Core.Codec.Wire.{Encodable, item_octets}

-- A value is returned under the condition, and otherwise an error.
abbrev pub Answers : {A : Type 0} → Type 0 → A → CodecResult A → Type 0
Answers P a r = (P × (r ≡ ok a)) ⊎ ((e : CodecError) × (r ≡ err e) × ¬ P)

u16_length_lem : (field : Field) (n : ℕ) → Answers (n ≤ 65535) n (u16_length field n)
unfolding u16_length
u16_length_lem field n = elim (Bool-cases (leb n 65535)) [
  | inl fits ↦ inl (omega tests, rw fits)
  | inr long ↦ inr (out_of_range field n, rw long, λ p. ground arith)
]

module _ ⦃ip : Ipnet⦄ where
  abbrev pub items_octets : List DataItem → Octets
  items_octets [] = []
  items_octets (item ∷ items) = item_octets item ++ items_octets items

  -- The items are encoded one by one, and the first that is not encodable stops the loop.
  encode_items_lem :
      (items : List DataItem) (body : Octets)
      → ((All Encodable items) × (encode_items items body ≡ (ok tt, body ++ items_octets items)))
        ⊎ ((e : CodecError) × ((encode_items items body).0 ≡ err e) × ¬ (All Encodable items))
  unfolding encode_items
  encode_items_lem [] body = inl (tt, rw append-nil)
  encode_items_lem (item ∷ items) body = elim (encode_item_lem item body) [
    | inr (e, p, bad) ↦ inr (e, rw p, λ h. bad h.0)
    | inl (good, p) ↦ elim (encode_items_lem items (body ++ item_octets item)) [
      | inl (rest, q) ↦ inl ((good, rest), rw (p, q, append_assoc))
      | inr (e, q, bad) ↦ inr (e, rw p q, λ h. bad h.1)
    ]
  ]

  -- A body that can be sent: every item can, and their total fits the length field.
  abbrev pub Sendable : List DataItem → Type 0
  Sendable items = All Encodable items × (length (items_octets items) ≤ 65535)

  abbrev pub body_octets : List DataItem → Octets
  body_octets items = to_be_bytes 2 (length (items_octets items)) ++ items_octets items

  abbrev pub message_octets : Message → Octets
  message_octets m = to_be_bytes 2 m.message_type ++ body_octets m.data_items

  abbrev pub signal_octets : Signal → Octets
  signal_octets s = signal_prefix ++ (to_be_bytes 2 s.signal_type ++ body_octets s.data_items)

  -- A message is encoded as its type, body length and items exactly when each item can be
  -- expressed and the body length fits 16 bits; every other message gets an error, never a panic.
  pub encode_message_lem :
      (m : Message) → Answers (Sendable m.data_items) (message_octets m) (encode_message m)
  unfolding encode_message
  encode_message_lem m = elim (encode_items_lem m.data_items []) [
    | inr (e, p, bad) ↦ inr (e, rw p, λ h. bad h.0)
    | inl (good, p) ↦
        elim (u16_length_lem message_body_length (length (items_octets m.data_items))) [
          | inl (fits, q) ↦ inl ((good, fits), rw (p, q))
          | inr (e, q, bad) ↦ inr (e, rw (p, q), λ h. bad h.1)
        ]
  ]

  -- A signal is encoded as the prefix, its type, body length and items exactly when each item can
  -- be expressed and the body length fits 16 bits; every other signal gets an error, never a
  -- panic.
  pub encode_signal_lem :
      (s : Signal) → Answers (Sendable s.data_items) (signal_octets s) (encode_signal s)
  unfolding encode_signal
  encode_signal_lem s = elim (encode_items_lem s.data_items []) [
    | inr (e, p, bad) ↦ inr (e, rw p, λ h. bad h.0)
    | inl (good, p) ↦
        elim (u16_length_lem signal_body_length (length (items_octets s.data_items))) [
          | inl (fits, q) ↦ inl ((good, fits), rw (p, q))
          | inr (e, q, bad) ↦ inr (e, rw (p, q), λ h. bad h.1)
        ]
  ]
