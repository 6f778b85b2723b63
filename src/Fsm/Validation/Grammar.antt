-- ===== src/Fsm/Validation/Grammar.antt =====
-- The grammar of the items of a message, and the check of one item.
use dlep.Base.{
  Octets, Bool, true, false, not, ◌&&◌, ◌||◌, if◌then◌else◌, List, [], ◌∷◌, ◌++◌, append-nil,
  Result, ok, err, ◌≡◌, refl, ap, ◌∙◌, arith, ◌⊎◌, inl, inr, octets_eq, nat_eq, contains,
  Bool-cases,
}
use dlep.Core.Ids.{MessageType, DataItemType}
use dlep.Core.Ipnet.{Ipnet}
use dlep.Core.Status.{StatusCode, invalid_data}
use dlep.Core.Item.{DataItem, type_id_of}
use dlep.Core.Codec.Encode.{encode_item}
use dlep.Core.Error.{CodecError}
use dlep.Core.Codec.Wire.{Encodable, item_octets}
use dlep.Core.Codec.Encode.Item.{encode_item_lem}
use dlep.Fsm.Validation.{
  Seen, is_address, is_allowed, is_unknown, is_removal, note_encoded, check_known, check_item,
}

module _ ⦃ip : Ipnet⦄ where
  -- The types of the items that may stand once.
  abbrev pub single_types : List DataItem → List DataItemType
  single_types [] = []
  single_types (item ∷ items) =
      if is_unknown item || is_address (type_id_of item)
      then single_types items
      else type_id_of item ∷ single_types items

  -- The octets of the address items.
  abbrev pub address_octets : List DataItem → List Octets
  address_octets [] = []
  address_octets (item ∷ items) =
      if not (is_unknown item) && is_address (type_id_of item)
      then item_octets item ∷ address_octets items
      else address_octets items

  -- What the grammar asks of an item by itself.
  abbrev pub fits : (mt : MessageType) (router initializing unrecognized : Bool) → DataItem → Bool
  fits mt router initializing unrecognized item =
      if is_unknown item
      then initializing && unrecognized
      else is_allowed mt router (type_id_of item)
        && not (is_address (type_id_of item) && (initializing && is_removal item))

  abbrev pub ItemOk :
      (mt : MessageType) (router initializing unrecognized : Bool) → DataItem → Type 0
  ItemOk mt router initializing unrecognized item =
      (fits mt router initializing unrecognized item ≡ true)
      × (is_unknown item ≡ false → Encodable item)

  abbrev pub fresh : Seen → DataItem → Bool
  fresh seen item =
      if is_unknown item
      then true
      else (if is_address (type_id_of item)
          then not (contains seen.addresses (item_octets item))
          else not (contains seen.types (type_id_of item)))

  abbrev pub after : Seen → List DataItem → Seen
  after seen items = record {
    types = seen.types ++ single_types items;
    addresses = seen.addresses ++ address_octets items;
  }

  -- A check either accepts and answers `s`, when `P` holds, or reports invalid data, when not.
  abbrev pub Decides {κ} : {A : Type κ} → Type 0 → A → Result StatusCode A → Type κ
  Decides P a r = (P × (r ≡ ok a)) ⊎ ((r ≡ err invalid_data) × ¬ P)

  check_known_lem :
      (initializing : Bool) (item : DataItem) (seen : Seen)
      → encode_item item [] ≡ (ok tt, item_octets item)
      → check_known initializing item seen ≡ (
          if is_address (type_id_of item)
          then (if contains seen.addresses (item_octets item)
              then err invalid_data
              else (if initializing && is_removal item
                  then err invalid_data
                  else ok (record seen { addresses = seen.addresses ++ (item_octets item ∷ []) })))
          else (if contains seen.types (type_id_of item)
              then err invalid_data
              else ok (record seen { types = seen.types ++ (type_id_of item ∷ []) })))
  unfolding check_known note_encoded
  check_known_lem initializing item seen e = ap (note_encoded initializing item seen) e

  check_known_err :
      (initializing : Bool) (item : DataItem) (seen : Seen) (x : CodecError)
      → encode_item item [] ≡ (err x, [])
      → check_known initializing item seen ≡ err invalid_data
  unfolding check_known note_encoded
  check_known_err initializing item seen x e = ap (note_encoded initializing item seen) e

  check_item_refused :
      (mt : MessageType) (router initializing unrecognized : Bool) (item : DataItem) (seen : Seen)
      (x : CodecError)
      → is_unknown item ≡ false
      → encode_item item [] ≡ (err x, [])
      → check_item mt router initializing unrecognized item seen ≡ err invalid_data
  unfolding check_item
  check_item_refused mt router initializing unrecognized item seen x k e =
      ground (arith, check_known_err initializing item seen x)

  check_item_ok :
      (mt : MessageType) (router initializing unrecognized : Bool) (item : DataItem) (seen : Seen)
      → is_unknown item ≡ false
      → encode_item item [] ≡ (ok tt, item_octets item)
      → fits mt router initializing unrecognized item ≡ true
      → fresh seen item ≡ true
      → check_item mt router initializing unrecognized item seen ≡ ok (after seen (item ∷ []))
  unfolding check_item
  check_item_ok mt router initializing unrecognized item seen k e f n = ground (
    arith,
    check_known_lem initializing item seen,
    append-nil seen.types,
    append-nil seen.addresses,
  )

  check_item_err :
      (mt : MessageType) (router initializing unrecognized : Bool) (item : DataItem) (seen : Seen)
      → is_unknown item ≡ false
      → encode_item item [] ≡ (ok tt, item_octets item)
      → (fits mt router initializing unrecognized item && fresh seen item) ≡ false
      → check_item mt router initializing unrecognized item seen ≡ err invalid_data
  unfolding check_item
  check_item_err mt router initializing unrecognized item seen k e f =
      ground (arith, check_known_lem initializing item seen)

  check_item_unknown :
      (mt : MessageType) (router initializing unrecognized : Bool) (item : DataItem) (seen : Seen)
      → is_unknown item ≡ true
      → check_item mt router initializing unrecognized item seen ≡ (
          if fits mt router initializing unrecognized item
          then ok (after seen (item ∷ []))
          else err invalid_data)
  unfolding check_item
  check_item_unknown mt router initializing unrecognized item seen u =
      rw (u, append-nil seen.types, append-nil seen.addresses)

  pub check_item_lem :
      (mt : MessageType) (router initializing unrecognized : Bool) (item : DataItem) (seen : Seen)
      → Decides
          (ItemOk mt router initializing unrecognized item × (fresh seen item ≡ true))
          (after seen (item ∷ []))
          (check_item mt router initializing unrecognized item seen)
  check_item_lem mt router initializing unrecognized item seen =
      elim (Bool-cases (is_unknown item)) [
        | inl u ↦ elim (Bool-cases (fits mt router initializing unrecognized item)) [
          | inl f ↦ inl (
            ((f, λ k. absurd (cc)), ground (arith)),
            check_item_unknown mt router initializing unrecognized item seen u ∙ rw f refl,
          )
          | inr f ↦ inr (
            check_item_unknown mt router initializing unrecognized item seen u ∙ rw f refl,
            λ ok₁. absurd (cc),
          )
        ]
        | inr k ↦ elim (encode_item_lem item []) [
          | inl (good, e) ↦
              elim (Bool-cases (fits mt router initializing unrecognized item && fresh seen item)) [
                | inl f ↦ inl (
                  ((ground arith, λ _. good), ground arith),
                  check_item_ok mt router initializing unrecognized item seen k e (ground arith)
                      (ground arith),
                )
                | inr f ↦ inr (
                  check_item_err mt router initializing unrecognized item seen k e f,
                  λ ok₁. absurd (ground arith),
                )
              ]
          | inr (x, e, bad) ↦ inr (
            check_item_refused mt router initializing unrecognized item seen x k e,
            λ ok₁. bad (ok₁.0.1 k),
          )
        ]
      ]
