-- ===== src/Core/Codec/Encode/Value.antt =====
-- `encode_value` and the value fields of the wire format.
use dlep.Base.{
  ℕ, ◌%◌, ◌^◌, ◌≤◌, Octets, to_be_bytes, ok, err, ltb, List, [], ◌∷◌, ◌++◌, ◌≡◌, refl, ◌⊎◌, inl,
  inr, append-nil, append_assoc, arith, tests, min, Option, none, some, Bool-cases,
}
use dlep.Core.Error.{
  CodecError, CodecResult, Field, out_of_range, heartbeat_interval_ms, latency_us,
}
use dlep.Core.Metrics.{as_millis, as_micros}
use dlep.Core.Ipnet.{Ipnet}
use dlep.Core.Item.{DataItem}
use dlep.Core.Ids.{ExtensionId}
use dlep.Core.Codec.Encode.{
  encode_value, put_ids, put_port, put_heartbeat, put_latency, put_percent, u32_max, u64_max,
}
use dlep.Core.Codec.Wire.{InRange, value_octets, id_octets, port_octets}

-- `v` was appended under the condition, and otherwise an error left the buffer alone.
abbrev pub Appends : Type 0 → Octets → Octets → CodecResult (Unit {0}) × Octets → Type 0
Appends P v out r = (P × (r ≡ (ok tt, out ++ v))) ⊎ ((e : CodecError) × (r ≡ (err e, out)) × ¬ P)

put_ids_lem :
    (ids : List ExtensionId) (out : Octets) → put_ids ids out ≡ (ok tt, out ++ id_octets ids)
unfolding put_ids
put_ids_lem [] out = rw append-nil
put_ids_lem (id ∷ ids) out = rw (put_ids_lem ids (out ++ to_be_bytes 2 id), append_assoc)

put_port_lem :
    (port : Option ℕ) (out : Octets) → put_port port out ≡ (ok tt, out ++ port_octets port)
unfolding put_port
put_port_lem none out = rw append-nil
put_port_lem (some p) out = refl

put_heartbeat_lem :
    (ms : ℕ) (out : Octets)
    → Appends ((1000 ≤ ms) × (ms ≤ u32_max)) (to_be_bytes 4 ms) out (put_heartbeat ms out)
unfolding put_heartbeat
put_heartbeat_lem ms out =
    let e : CodecError = out_of_range heartbeat_interval_ms (min ms u64_max) in
    elim (Bool-cases (ltb ms 1000)) [
      | inl low ↦ inr (e, rw low, λ p. absurd (omega tests))
      | inr ok₁ ↦ elim (Bool-cases (ltb u32_max ms)) [
        | inl high ↦ inr (e, rw (ok₁, high), λ p. absurd (omega tests))
        | inr ok₂ ↦
            let fits : ms % 2 ^ 32 ≡ ms = ground arith in
            inl ((ground arith, ground arith), rw (ok₁, ok₂, fits))
      ]
    ]

put_latency_lem :
    (us : ℕ) (out : Octets) → Appends (us ≤ u64_max) (to_be_bytes 8 us) out (put_latency us out)
unfolding put_latency
put_latency_lem us out = elim (Bool-cases (ltb u64_max us)) [
  | inl high ↦ inr (out_of_range latency_us u64_max, rw high, λ p. absurd (omega tests))
  | inr fits ↦ let same : us % 2 ^ 64 ≡ us = ground arith in inl (ground arith, rw (fits, same))
]

put_percent_lem :
    (field : Field) (pct : ℕ) (out : Octets)
    → Appends (pct ≤ 100) (pct ∷ []) out (put_percent field pct out)
unfolding put_percent
put_percent_lem field pct out = elim (Bool-cases (ltb 100 pct)) [
  | inl high ↦ inr (out_of_range field pct, rw high, λ p. absurd (omega tests))
  | inr fits ↦ inl (ground arith, rw fits)
]

-- An item other than `Unknown`, whose value `encode_raw` writes.
abbrev pub IsTyped : DataItem → Type 0
IsTyped (DataItem.unknown raw) = ⊥
IsTyped _ = Unit {0}

module _ ⦃ip : Ipnet⦄ where
  -- The value field is written whole if the value is in range, and not at all otherwise.
  pub encode_value_lem :
      (item : DataItem) (out : Octets)
      → IsTyped item
      → Appends (InRange item) (value_octets item) out (encode_value item out)
  unfolding encode_value
  encode_value_lem (DataItem.status code text) out h = inl (tt, rw append_assoc)
  encode_value_lem (DataItem.ipv4_connection_point flags addr port) out h =
      inl (tt, rw (put_port_lem port) (simp append_assoc))
  encode_value_lem (DataItem.ipv6_connection_point flags addr port) out h =
      inl (tt, rw (put_port_lem port) (simp append_assoc))
  encode_value_lem (DataItem.peer_type flags description) out h = inl (tt, rw append_assoc)
  encode_value_lem (DataItem.heartbeat_interval d) out h = put_heartbeat_lem (as_millis d) out
  encode_value_lem (DataItem.extensions_supported ids) out h = inl (tt, put_ids_lem ids out)
  encode_value_lem (DataItem.ipv4_address add addr) out h = inl (tt, rw append_assoc)
  encode_value_lem (DataItem.ipv6_address add addr) out h = inl (tt, rw append_assoc)
  encode_value_lem (DataItem.ipv4_attached_subnet add subnet) out h = inl (tt, simp append_assoc)
  encode_value_lem (DataItem.ipv6_attached_subnet add subnet) out h = inl (tt, simp append_assoc)
  encode_value_lem (DataItem.latency d) out h = put_latency_lem (as_micros d) out
  encode_value_lem (DataItem.resources pct) out h = put_percent_lem Field.resources pct out
  encode_value_lem (DataItem.relative_link_quality_receive pct) out h =
      put_percent_lem Field.rlq_receive pct out
  encode_value_lem (DataItem.relative_link_quality_transmit pct) out h =
      put_percent_lem Field.rlq_transmit pct out
  encode_value_lem (DataItem.unknown raw) out h = absurd h
  encode_value_lem _ out h = inl (tt, refl)
