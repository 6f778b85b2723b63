-- ===== src/Net/Framed/Stream.antt =====
-- The stream decoder of framed.rs on parts of a stream, and on what the encoder writes.
use dlep.Base.{
  ℕ, ◌+◌, ◌≤◌, ◌<◌, ◌/◌, ◌%◌, Octets, length, All, to_be_bytes, from_be_bytes, ok, ◌>>=◌, [], ◌∷◌,
  ◌++◌, map, ◌≡◌, sym, ap, ◌∙◌, ltb, lt→ltb, true, false, Option, none, some, ◌≢◌, arith,
  append-nil, length-append, length-to_be_bytes, take-append, drop-append, take-append_le,
  drop-append_le, from_be_bytes-to_be_bytes, Bool-cases, inl, inr,
}
use dlep.Core.Error.{CodecResult}
use dlep.Core.Ipnet.{Ipnet, IpnetLaws}
use dlep.Core.Item.{Message}
use dlep.Core.Codec.Raw.{index}
use dlep.Core.Codec.Frame.{decode_message}
use dlep.Core.Codec.Frame.Written.{items_octets, message_octets, Sendable, encode_message_lem}
use dlep.Core.Codec.Frame.RoundTrip.{decode_message-octets}
use dlep.Core.Codec.Wire.{IsItem, IsU16, on_the_wire}
use dlep.Net.Framed.{take_frame, decode_frame, encode_frame, append_frame}

module _ ⦃ip : Ipnet⦄ where
  -- The decoder sees the first four octets only, once they are there.
  header :
      (a b hi lo : ℕ) (r : Octets)
      → decode_frame (a ∷ b ∷ hi ∷ lo ∷ r)
        ≡ take_frame (4 + from_be_bytes (hi ∷ lo ∷ [])) (a ∷ b ∷ hi ∷ lo ∷ r)
  unfolding decode_frame index
  header a b hi lo r = ground arith

  take_frame_whole :
      (frame rest : Octets) (n : ℕ)
      → length frame ≡ n
      → take_frame n (frame ++ rest) ≡ ((decode_message frame >>= λ m. ok (some m)), rest)
  unfolding take_frame
  take_frame_whole frame rest n h =
      let enough : ltb (length (frame ++ rest)) n ≡ false =
        ground (arith, length-append {0} frame rest) in
      rw (enough, ← h) (rw (take-append, drop-append))

  take_frame-append :
      (n : ℕ) (src more : Octets) (r : CodecResult (Option Message)) (rest : Octets)
      → take_frame n src ≡ (r, rest)
      → r ≢ ok none
      → take_frame n (src ++ more) ≡ (r, rest ++ more)
  unfolding take_frame
  take_frame-append n src more r rest e h = elim (Bool-cases (ltb (length src) n)) [
    | inl short ↦
        absurd (h (sym (ap (λ (p : CodecResult (Option Message) × Octets). p.0) (rw short at e))))
    | inr whole ↦
        let still : ltb (length (src ++ more)) n ≡ false =
          ground (arith, length-append {0} src more) in
        let le : n ≤ length src = ground arith in
        rw (still, take-append_le n src more le, drop-append_le n src more le)
          (ap (λ (p : CodecResult (Option Message) × Octets). (p.0, p.1 ++ more)) (rw whole at e))
  ]

  waits : (src : Octets) → length src < 4 → decode_frame src ≡ (ok none, src)
  unfolding decode_frame
  waits src h = ground arith

  -- A result of the stream decoder, a message or an error, is not changed by octets that arrive
  -- later, which stay in the buffer behind what was left.
  pub decode_frame-append :
      (src more : Octets) (r : CodecResult (Option Message)) (rest : Octets)
      → decode_frame src ≡ (r, rest)
      → r ≢ ok none
      → decode_frame (src ++ more) ≡ (r, rest ++ more)
  decode_frame-append (a ∷ b ∷ hi ∷ lo ∷ src) more r rest e h =
      header a b hi lo (src ++ more)
      ∙ take_frame-append (4 + from_be_bytes (hi ∷ lo ∷ [])) (a ∷ b ∷ hi ∷ lo ∷ src) more r rest
          (sym (header a b hi lo src) ∙ e) h
  decode_frame-append [] more r rest e h = absurd (h (cc (waits [] (omega arith))))
  decode_frame-append (a ∷ []) more r rest e h = absurd (h (cc (waits (a ∷ []) (omega arith))))
  decode_frame-append (a ∷ b ∷ []) more r rest e h =
      absurd (h (cc (waits (a ∷ b ∷ []) (omega arith))))
  decode_frame-append (a ∷ b ∷ c ∷ []) more r rest e h =
      absurd (h (cc (waits (a ∷ b ∷ c ∷ []) (omega arith))))

  length-message_octets :
      (m : Message) → length (message_octets m) ≡ 4 + length (items_octets m.data_items)
  length-message_octets m =
      let body = items_octets m.data_items in
      omega (
        arith,
        length-append {0} (to_be_bytes 2 m.message_type) (to_be_bytes 2 (length body) ++ body),
        length-append {0} (to_be_bytes 2 (length body)) body,
        length-to_be_bytes 2 m.message_type,
        length-to_be_bytes 2 (length body),
      )

  -- On a strict prefix of the encoding of a message that can be sent, the stream decoder answers
  -- that it needs more, and leaves the buffer as it was.
  pub decode_frame_partial :
      (m : Message) (front back : Octets) (x : ℕ)
      → Sendable m.data_items
      → message_octets m ≡ front ++ (x ∷ back)
      → decode_frame front ≡ (ok none, front)
  unfolding to_be_bytes take_frame
  decode_frame_partial m (a ∷ b ∷ hi ∷ lo ∷ r) back x h e =
      let n = length (items_octets m.data_items) in
      let word : hi ∷ lo ∷ [] ≡ to_be_bytes 2 n = cc in
      let declared : from_be_bytes (hi ∷ lo ∷ []) ≡ n =
        ap from_be_bytes word ∙ from_be_bytes-to_be_bytes 2 n (omega arith) in
      let front : Octets = a ∷ b ∷ hi ∷ lo ∷ r in
      let short : ltb (length front) (4 + n) ≡ true =
        lt→ltb _ _ (
          omega
            (arith, ap length e, length-message_octets m, length-append {0} front (x ∷ back))) in
      header a b hi lo r ∙ rw (declared, short)
  decode_frame_partial m [] back x h e = waits [] (omega arith)
  decode_frame_partial m (a ∷ []) back x h e = waits (a ∷ []) (omega arith)
  decode_frame_partial m (a ∷ b ∷ []) back x h e = waits (a ∷ b ∷ []) (omega arith)
  decode_frame_partial m (a ∷ b ∷ c ∷ []) back x h e = waits (a ∷ b ∷ c ∷ []) (omega arith)

  whole_frame :
      (m : Message) (rest : Octets)
      → Sendable m.data_items
      → decode_frame (message_octets m ++ rest)
        ≡ ((decode_message (message_octets m) >>= λ d. ok (some d)), rest)
  unfolding to_be_bytes
  whole_frame m rest h =
      let body = items_octets m.data_items in
      let n = length body in
      let t = m.message_type in
      header (t / 256 % 256) (t % 256) (n / 256 % 256) (n % 256) (body ++ rest)
      ∙ rw (from_be_bytes-to_be_bytes 2 n (omega arith))
          (take_frame_whole (message_octets m) rest (4 + n) (length-message_octets m))

  module _ (laws : IpnetLaws ip) where
    -- Under the documented laws of ipnet, a message that is within its Rust types, has only
    -- unknown items whose type id is none of the RFC's (0, or above 20), and can be sent, framed
    -- and put at the front of a stream, is the next frame, with its items as they appear on the
    -- wire, and exactly what follows it stays in the buffer.
    pub decode_frame-encode_frame :
        (m : Message) (rest : Octets)
        → IsU16 m.message_type
        → All IsItem m.data_items
        → Sendable m.data_items
        → decode_frame ((encode_frame m []).1 ++ rest)
          ≡ (ok (some (record m { data_items = map on_the_wire m.data_items })), rest)
    unfolding encode_frame append_frame
    decode_frame-encode_frame m rest ht hi hs = elim (encode_message_lem m) [
      | inr (x, e, bad) ↦ absurd (bad hs)
      | inl (_, e) ↦
          let sent : (encode_frame m []).1 ≡ message_octets m =
            ap (λ (r : CodecResult Octets). (append_frame r []).1) e in
          let read : decode_message (message_octets m) ≡ _ =
            rw append-nil at (decode_message-octets laws m [] ht hi hs) in
          rw sent (whole_frame m rest hs ∙ rw read)
    ]
