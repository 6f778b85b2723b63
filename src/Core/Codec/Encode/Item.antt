-- ===== src/Core/Codec/Encode/Item.antt =====
-- `encode_item` and the TLVs of the wire format.
use dlep.Base.{
  ℕ, ◌+◌, ◌-◌, ◌*◌, ◌≤◌, Octets, length, take, drop, to_be_bytes, ok, err, leb, List, [], ◌∷◌, ◌++◌,
  ◌≡◌, refl, ◌⊎◌, inl, inr, append_assoc, arith, some, ap, ◌∙◌, length-append, take-append,
  drop-append, take-length, length-to_be_bytes, le→leb, true,
}
use dlep.Core.Error.{CodecError, out_of_range, data_item_value_length}
use dlep.Core.Ipnet.{Ipnet}
use dlep.Core.Ids.{ExtensionId}
use dlep.Core.Item.{RawDataItem, DataItem, type_id_of}
use dlep.Core.Codec.Raw.{u16_length}
use dlep.Core.Codec.Encode.{
  encode_raw, encode_typed, encode_into, encode_item, restore, patch, projected_value_len,
  check_projected,
}
use dlep.Core.Codec.Encode.Value.{Appends, IsTyped, encode_value_lem}
use dlep.Core.Codec.Wire.{Encodable, value_octets, id_octets, item_octets, tlv}

u16_length_cases :
    (n : ℕ)
    → ((n ≤ 65535) × (u16_length data_item_value_length n ≡ ok n))
      ⊎ ((65536 ≤ n)
          × (u16_length data_item_value_length n ≡ err (out_of_range data_item_value_length n)))
unfolding u16_length
u16_length_cases n = ground arith

-- Writing the length over its placeholder.
patch_lem :
    (out b c v : Octets)
    → length b ≡ 2
    → patch (length out) c ((out ++ b) ++ v) ≡ (ok tt, out ++ (c ++ v))
unfolding patch
patch_lem out b c v h =
    let end : length out + 2 ≡ length (out ++ b) = omega (arith, length-append {0} out b) in
    let room : leb (length out + 2) (length ((out ++ b) ++ v)) ≡ true =
      le→leb _ _ (omega (arith, length-append {0} (out ++ b) v)) in
    let front : take (length out) ((out ++ b) ++ v) ≡ out =
      rw append_assoc (take-append out (b ++ v)) in
    let back : drop (length out + 2) ((out ++ b) ++ v) ≡ v = rw end (drop-append (out ++ b) v) in
    rw (room, front, back)

length-id_octets : (ids : List ExtensionId) → length (id_octets ids) ≡ length ids * 2
length-id_octets [] = omega arith
length-id_octets (id ∷ ids) = omega (
  arith,
  length-append {0} (to_be_bytes 2 id) (id_octets ids),
  length-to_be_bytes 2 id,
  length-id_octets ids,
)

encode_raw_lem :
    (raw : RawDataItem) (out : Octets)
    → Appends (length raw.value ≤ 65535) (tlv raw.type_id raw.value) out (encode_raw raw out)
unfolding encode_raw tlv
encode_raw_lem raw out = elim (u16_length_cases (length raw.value)) [
  | inl (fits, e) ↦ inl (fits, rw e (simp append_assoc))
  | inr (long, e) ↦
      inr (out_of_range data_item_value_length (length raw.value), rw e, λ p. absurd (omega arith))
]

check_projected-some :
    (n : ℕ) (out : Octets)
    → (check_projected (some n) out ≡ (ok tt, out))
      ⊎ ((e : CodecError) × (check_projected (some n) out ≡ (err e, out)) × (65536 ≤ n))
unfolding check_projected
check_projected-some n out = elim (u16_length_cases n) [
  | inl (fits, e) ↦ inl (rw e)
  | inr (long, e) ↦ inr (out_of_range data_item_value_length n, rw e, long)
]

module _ ⦃ip : Ipnet⦄ where
  -- The projected length of the three variable-length items is the length that is written.
  check_projected_cases :
      (item : DataItem) (out : Octets)
      → (check_projected (projected_value_len item) out ≡ (ok tt, out))
        ⊎ ((e : CodecError) × (check_projected (projected_value_len item) out ≡ (err e, out))
            × (65536 ≤ length (value_octets item)))
  unfolding check_projected projected_value_len
  check_projected_cases (DataItem.status code text) out =
      elim (check_projected-some (1 + length text) out) [
        | inl e ↦ inl e
        | inr (e, p, q) ↦ inr (e, p, omega arith)
      ]
  check_projected_cases (DataItem.peer_type flags description) out =
      elim (check_projected-some (1 + length description) out) [
        | inl e ↦ inl e
        | inr (e, p, q) ↦ inr (e, p, omega arith)
      ]
  check_projected_cases (DataItem.extensions_supported ids) out =
      elim (check_projected-some (length ids * 2) out) [
        | inl e ↦ inl e
        | inr (e, p, q) ↦ inr (e, p, omega (arith, length-id_octets ids))
      ]
  check_projected_cases _ out = inl refl

  encode_typed_lem :
      (item : DataItem) (out : Octets)
      → IsTyped item
      → Appends
          (Encodable item)
          (item_octets item)
          out
          (restore (length out) (encode_typed item out))
  unfolding encode_typed tlv
  encode_typed_lem item out h =
      let v = value_octets item in
      let header = to_be_bytes 2 (type_id_of item) in
      let blank = to_be_bytes 2 0 in
      let start = (out ++ header) ++ blank in
      let cut : take (length out) start ≡ out =
        rw (append_assoc out header blank) (take-append out (header ++ blank)) in
      let cut_all : take (length out) (start ++ v) ≡ out =
        simp append_assoc (take-append out (header ++ (blank ++ v))) in
      let written : length (start ++ v) - length start ≡ length v =
        omega (arith, length-append {0} start v) in
      elim (check_projected_cases item out) [
        | inr (e, p, long) ↦ inr (e, rw p (rw take-length), λ ne. absurd (omega arith))
        | inl p ↦ elim (encode_value_lem item start h) [
          | inr (e, q, bad) ↦ inr (e, rw (p, q, cut), λ ne. bad ne.0)
          | inl (good, q) ↦ elim (u16_length_cases (length v)) [
            | inl (fits, r) ↦ inl (
              (good, fits),
              rw
                  (
                    p,
                    q,
                    written,
                    r,
                    patch_lem (out ++ header) blank (to_be_bytes 2 (length v)) v
                        (length-to_be_bytes 2 0),
                  )
                  (rw append_assoc),
            )
            | inr (long, r) ↦ inr (
              out_of_range data_item_value_length (length v),
              rw (p, q, written, r, cut_all),
              λ ne. absurd (omega arith),
            )
          ]
        ]
      ]

  -- Encoding an item onto a buffer appends its type, length and value exactly when the item can be
  -- expressed on the wire; otherwise it reports an error and leaves the buffer as it was; it never
  -- panics.
  pub encode_item_lem :
      (item : DataItem) (out : Octets)
      → Appends (Encodable item) (item_octets item) out (encode_item item out)
  unfolding encode_item encode_into
  encode_item_lem (DataItem.unknown raw) out = elim (encode_raw_lem raw out) [
    | inl (fits, e) ↦ inl ((tt, fits), ap (restore (length out)) e)
    | inr (x, e, bad) ↦ inr (x, ap (restore (length out)) e ∙ rw take-length, λ ne. bad ne.1)
  ]
  encode_item_lem (DataItem.status code text) out =
      encode_typed_lem (DataItem.status code text) out tt
  encode_item_lem item out = encode_typed_lem item out tt
