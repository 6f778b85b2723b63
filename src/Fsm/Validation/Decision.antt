-- ===== src/Fsm/Validation/Decision.antt =====
-- `validate_message` of validation.rs and the grammar of messages.
use dlep.Base.{
  leb, ◌==◌, Bool, true, false, not, ◌&&◌, ◌||◌, if◌then◌else◌, List, [], ◌∷◌, ◌++◌, append_assoc,
  append-nil, All, Result, ok, err, panic, ◌>>=◌, ◌≡◌, refl, sym, ap, ◌∙◌, arith, inl, inr,
  octets_eq, nat_eq, contains, any, distinct, distinct-snoc, distinct-again, Bool-cases, if_rule,
}
use dlep.Core.Ids.{
  MessageType, ExtensionId, msg_link_characteristics_request, item_current_data_rate_receive,
  item_current_data_rate_transmit, item_latency,
}
use dlep.Core.Ipnet.{Ipnet}
use dlep.Core.Status.{StatusCode, invalid_data, unknown_message, unexpected_message}
use dlep.Core.Item.{DataItem, Message, type_id_of}
use dlep.Core.Codec.Wire.{item_octets}
use dlep.Fsm.Validation.{
  Seen, is_expected, is_address, is_unknown, announces_unrecognized, required_items, check_items,
  validate_message, one_of,
}
use dlep.Fsm.Validation.Grammar.{
  single_types, address_octets, ItemOk, fresh, after, Decides, check_item_lem,
}

if_append :
    {A : Type 0} (b : Bool) (x : A) (xs : List A)
    → (if b then xs else x ∷ xs) ≡ (if b then [] else x ∷ []) ++ xs
if_append true x xs = refl
if_append false x xs = refl

append_if :
    {A : Type 0} (b : Bool) (x : A) (xs : List A)
    → (if b then x ∷ xs else xs) ≡ (if b then x ∷ [] else []) ++ xs
append_if true x xs = refl
append_if false x xs = refl

module _ ⦃ip : Ipnet⦄ where
  types_after :
      (seen : Seen) (item : DataItem) (items : List DataItem)
      → (after seen (item ∷ [])).types ++ single_types items
        ≡ seen.types ++ single_types (item ∷ items)
  types_after seen item items =
      append_assoc seen.types (single_types (item ∷ [])) (single_types items)
      ∙ ap (◌++◌ seen.types)
          (sym (if_append (is_unknown item || is_address (type_id_of item)) (type_id_of item) _))

  addresses_after :
      (seen : Seen) (item : DataItem) (items : List DataItem)
      → (after seen (item ∷ [])).addresses ++ address_octets items
        ≡ seen.addresses ++ address_octets (item ∷ items)
  addresses_after seen item items =
      append_assoc seen.addresses (address_octets (item ∷ [])) (address_octets items)
      ∙ ap (◌++◌ seen.addresses) (
          sym (
            append_if (not (is_unknown item) && is_address (type_id_of item)) (item_octets item) _))

  after-after :
      (seen : Seen) (item : DataItem) (items : List DataItem)
      → after (after seen (item ∷ [])) items ≡ after seen (item ∷ items)
  after-after seen item items i = record {
    types = types_after seen item items i;
    addresses = addresses_after seen item items i;
  }

  -- What the grammar asks of the items that follow those of `seen`.
  abbrev ItemsOk :
      (mt : MessageType) (router initializing unrecognized : Bool) → Seen → List DataItem → Type 0
  ItemsOk mt router initializing unrecognized seen items =
      All (ItemOk mt router initializing unrecognized) items
      × (distinct (after seen items).types ≡ true)
      × (distinct (after seen items).addresses ≡ true)

  distinct-fresh :
      (seen : Seen) (item : DataItem) (items : List DataItem)
      → distinct (after seen (item ∷ items)).types ≡ true
      → distinct (after seen (item ∷ items)).addresses ≡ true
      → fresh seen item ≡ true
  distinct-fresh seen item items t a = ground (
    arith,
    distinct-again seen.types (single_types items) (type_id_of item),
    distinct-again seen.addresses (address_octets items) (item_octets item),
  )

  fresh-distinct :
      (seen : Seen) (item : DataItem)
      → fresh seen item ≡ true
      → distinct seen.types ≡ true
      → distinct seen.addresses ≡ true
      → (distinct (after seen (item ∷ [])).types ≡ true)
        × (distinct (after seen (item ∷ [])).addresses ≡ true)
  fresh-distinct seen item f t a = ground (
    arith,
    append-nil seen.types,
    append-nil seen.addresses,
    distinct-snoc seen.types (type_id_of item),
    distinct-snoc seen.addresses (item_octets item),
  )

  check_items_lem :
      (mt : MessageType) (router initializing unrecognized : Bool) (items : List DataItem)
      (seen : Seen)
      → distinct seen.types ≡ true
      → distinct seen.addresses ≡ true
      → Decides
          (ItemsOk mt router initializing unrecognized seen items)
          (after seen items)
          (check_items mt router initializing unrecognized items seen)
  unfolding check_items
  check_items_lem mt router initializing unrecognized [] seen t a =
      let same : after seen [] ≡ seen =
        λ i. record { types = append-nil seen.types i; addresses = append-nil seen.addresses i } in
      inl (
        (tt, ap (λ s. distinct s.types) same ∙ t, ap (λ s. distinct s.addresses) same ∙ a),
        ap ok (sym same),
      )
  check_items_lem mt router initializing unrecognized (item ∷ items) seen t a =
      let next = after seen (item ∷ []) in
      elim (check_item_lem mt router initializing unrecognized item seen) [
        | inr (e, bad) ↦ inr (
          ap (λ r. r >>= check_items mt router initializing unrecognized items) e,
          λ good. bad (good.0.0, distinct-fresh seen item items good.1 good.2),
        )
        | inl ((fit, new), e) ↦
            let d = fresh-distinct seen item new t a in
            let step = ap (λ r. r >>= check_items mt router initializing unrecognized items) e in
            elim (check_items_lem mt router initializing unrecognized items next d.0 d.1) [
              | inl ((rest, dt, da), p) ↦ inl (
                (
                  (fit, rest),
                  ap distinct (sym (types_after seen item items)) ∙ dt,
                  ap distinct (sym (addresses_after seen item items)) ∙ da,
                ),
                step ∙ p ∙ ap ok (after-after seen item items),
              )
              | inr (p, bad) ↦ inr (
                step ∙ p,
                λ good. bad (
                  good.0.1,
                  ap distinct (types_after seen item items) ∙ good.1,
                  ap distinct (addresses_after seen item items) ∙ good.2,
                ),
              )
            ]
      ]

  abbrev no_seen : Seen
  no_seen = record { types = []; addresses = [] }

  -- The grammar of a message of an expected type.
  abbrev pub Conforms : Message → (router initializing : Bool) → List ExtensionId → Type 0
  Conforms msg router initializing locals =
      All
        (ItemOk msg.message_type router initializing
          (any (announces_unrecognized locals) msg.data_items))
        msg.data_items
      × (distinct (single_types msg.data_items) ≡ true)
      × (distinct (address_octets msg.data_items) ≡ true)
      × (any (λ t. not (contains (single_types msg.data_items) t)) (required_items msg.message_type)
          ≡ false)
      × (((msg.message_type == msg_link_characteristics_request)
            && not (
                any
                  (λ t. one_of t (
                    item_current_data_rate_receive ∷ item_current_data_rate_transmit ∷ item_latency
                    ∷ []))
                  (single_types msg.data_items)))
          ≡ false)

  abbrev pub Verdict :
      Message
      → (router initializing : Bool) → List ExtensionId
      → Result StatusCode (Unit {0})
      → Type 0
  Verdict msg router initializing locals (ok u) =
      (leb 1 msg.message_type && leb msg.message_type 16 ≡ true)
      × (is_expected msg.message_type router initializing ≡ true)
      × Conforms msg router initializing locals
  Verdict msg router initializing locals (err e) =
      if not (leb 1 msg.message_type && leb msg.message_type 16)
      then e ≡ unknown_message
      else if not (is_expected msg.message_type router initializing)
      then e ≡ unexpected_message
      else (e ≡ invalid_data) × ¬ Conforms msg router initializing locals
  Verdict msg router initializing locals panic = ⊥

  refused :
      (msg : Message) (router initializing : Bool) (locals : List ExtensionId)
      → leb 1 msg.message_type && leb msg.message_type 16 ≡ true
      → is_expected msg.message_type router initializing ≡ true
      → ¬ Conforms msg router initializing locals
      → Verdict msg router initializing locals (err invalid_data)
  refused msg router initializing locals r x bad = rw (r, x) (refl, bad)

  -- Message validation accepts exactly the messages of a known type that is expected in the state,
  -- whose items the type allows, can be encoded, stand once and include the required ones;
  -- otherwise it names the first of unknown type, unexpected type and invalid data that applies;
  -- it never panics.
  pub validate_message-Verdict :
      (msg : Message) (router initializing : Bool) (locals : List ExtensionId)
      → Verdict msg router initializing locals (validate_message msg router initializing locals)
  unfolding validate_message distinct
  validate_message-Verdict msg router initializing locals =
      let mt = msg.message_type in
      let V = Verdict msg router initializing locals in
      let unrecognized = any (announces_unrecognized locals) msg.data_items in
      elim (Bool-cases (leb 1 mt && leb mt 16)) [
        | inr r ↦ rw r (rw r refl)
        | inl r ↦ elim (Bool-cases (is_expected mt router initializing)) [
          | inr x ↦ rw (r, x) (rw (r, x) refl)
          | inl x ↦
              elim (check_items_lem mt router initializing unrecognized msg.data_items no_seen refl
                refl) [
                  | inr (e, bad) ↦ rw (r, x, e) (rw (r, x) (refl, λ c. bad (c.0, c.1, c.2)))
                  | inl (good, e) ↦
                      let no = refused msg router initializing locals r x in
                      rw (r, x, e)
                        (if_rule V _ {x = err invalid_data} (λ h. no λ c. absurd (cc))
                          (λ n.
                            if_rule V _ {x = err invalid_data} {y = ok tt}
                              (λ h. no λ c. absurd (cc))
                              (λ m. (r, x, (good.0, good.1, good.2, n, m)))))
                ]
        ]
      ]
