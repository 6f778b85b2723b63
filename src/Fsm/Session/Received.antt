-- ===== src/Fsm/Session/Received.antt =====
-- What the checks of a received message promise to the handlers of session_router.rs and
-- session_modem.rs, whose `expect`s rely on it.
use dlep.Base.{
  Bool, true, false, not, if◌then◌else◌, List, [], ◌∷◌, any, Option, none, some, Result, ok, err,
  panic, ◌>>◌, ◌≡◌, refl, ap, ◌∙◌, arith, contains, nat_eq, Bool-cases, Option-cases, inl, inr,
}
use dlep.Core.Ids.{MessageType, DataItemType, ExtensionId, item_mac_address, item_status}
use dlep.Core.Ipnet.{Ipnet}
use dlep.Core.Mac.{MacAddress}
use dlep.Core.Status.{StatusCode}
use dlep.Core.Utf8.{Text}
use dlep.Core.Item.{DataItem, Message, type_id_of}
use dlep.Fsm.Validation.{is_unknown, required_items, validate_message, is_expected}
use dlep.Fsm.Validation.Grammar.{single_types}
use dlep.Fsm.Validation.Decision.{Verdict, Conforms, validate_message-Verdict}
use dlep.Fsm.Validation.Transactions.{mac_of, first_mac, extract_destination_mac}
use dlep.Fsm.Common.Builders.{find_map}
use dlep.Fsm.Session.{is_fatal, fatal_status}

abbrev pub OnSome {ℓ} : {A : Type 0} → (A → Type ℓ) → Option A → Type ℓ
OnSome P none = Unit
OnSome P (some a) = P a

abbrev pub IsStatus : DataItem → Type 0
IsStatus (DataItem.status code text) = Unit {0}
IsStatus item = ⊥

is_fatal-IsStatus : (item : DataItem) → is_fatal item ≡ true → IsStatus item
is_fatal-IsStatus (DataItem.status code text) h = tt
is_fatal-IsStatus item h = absurd (cc)

found-IsStatus :
    (b : Bool) (item : DataItem) (rest : Option DataItem)
    → (b ≡ true → IsStatus item)
    → OnSome IsStatus rest
    → OnSome IsStatus (if b then some item else rest)
found-IsStatus true item rest h k = h refl
found-IsStatus false item rest h k = k

-- A status that ends the session is a status item.
pub fatal_status-IsStatus : (items : List DataItem) → OnSome IsStatus (fatal_status items)
unfolding fatal_status
fatal_status-IsStatus [] = tt
fatal_status-IsStatus (item ∷ items) =
    found-IsStatus (is_fatal item) item (fatal_status items) (is_fatal-IsStatus item)
      (fatal_status-IsStatus items)

-- Both steps of a chain.
pub both_ok : {E : Type 0} (m k : Result E (Unit {0})) → m >> k ≡ ok tt → (m ≡ ok tt) × (k ≡ ok tt)
both_ok (ok u) k h = (refl, h)
both_ok (err e) k h = absurd (cc)
both_ok panic k h = absurd (cc)

find_step :
    {A : Type 0} (f : DataItem → Option A) (item : DataItem) (items : List DataItem)
    → (a : A) × (find_map f items ≡ some a)
    → (a : A) × (find_map f (item ∷ items) ≡ some a)
unfolding find_map
find_step f item items (a, e) = elim (Option-cases (f item)) [
  | inl n ↦ (a, rw (find_map, n) e)
  | inr (b, k) ↦ (b, rw (find_map, k) refl)
]

find_here :
    {A : Type 0} (f : DataItem → Option A) (item : DataItem) (items : List DataItem)
    → (a : A) × (f item ≡ some a)
    → (a : A) × (find_map f (item ∷ items) ≡ some a)
unfolding find_map
find_here f item items (a, e) = (a, rw (find_map, e) refl)

module _ ⦃ip : Ipnet⦄ where
  single_cases :
      (item : DataItem) (items : List DataItem) (t : DataItemType)
      → contains (single_types (item ∷ items)) t ≡ true
      → contains (single_types items) t ≡ false
      → (is_unknown item ≡ false) × (type_id_of item ≡ t)
  unfolding contains
  single_cases item items t h n = ground arith

  -- An item of a type that stands in the message is found.
  find_map-found :
      {A : Type 0} (f : DataItem → Option A) (t : DataItemType)
      → ((item : DataItem)
          → is_unknown item ≡ false
          → type_id_of item ≡ t
          → (a : A) × (f item ≡ some a))
      → (items : List DataItem) → contains (single_types items) t ≡ true
      → (a : A) × (find_map f items ≡ some a)
  unfolding contains
  find_map-found f t g [] h = absurd (cc)
  find_map-found f t g (item ∷ items) h = elim (Bool-cases (contains (single_types items) t)) [
    | inl e ↦ find_step f item items (find_map-found f t g items e)
    | inr n ↦ let k = single_cases item items t h n in find_here f item items (g item k.0 k.1)
  ]

mac_of-some :
    (item : DataItem)
    → is_unknown item ≡ false
    → type_id_of item ≡ item_mac_address
    → (a : MacAddress) × (mac_of item ≡ some a)
mac_of-some (DataItem.mac_address mac) u h = (mac, refl)
mac_of-some item u h = absurd (ground arith)

status_case :
    {A : Type 0} (f : DataItem → Option A)
    → ((code : StatusCode) (text : Text) → (a : A) × (f (DataItem.status code text) ≡ some a))
    → (item : DataItem) → is_unknown item ≡ false
    → type_id_of item ≡ item_status
    → (a : A) × (f item ≡ some a)
status_case f g (DataItem.status code text) u h = g code text
status_case f g item u h = absurd (ground arith)

first_mac-find : (items : List DataItem) → first_mac items ≡ find_map mac_of items
unfolding first_mac find_map
first_mac-find [] = refl
first_mac-find (item ∷ items) =
    ap (λ rest. elim (mac_of item) [ some m ↦ some m | none ↦ rest ]) (first_mac-find items)

required :
    (xs ts : List DataItemType) (t : DataItemType)
    → any (λ u. not (contains xs u)) ts ≡ false
    → contains ts t ≡ true
    → contains xs t ≡ true
unfolding contains
required xs [] t h k = absurd (cc)
required xs (u ∷ ts) t h k = ground (arith, required xs ts t, nat_eq.beq_iff u t)

-- Whether messages of a type must carry an item of a type.
abbrev pub requires : MessageType → DataItemType → Bool
requires mt t = contains (required_items mt) t

module _ ⦃ip : Ipnet⦄ where
  accepted_parts :
      (msg : Message) (router initializing : Bool) (locals : List ExtensionId)
      (r : Result StatusCode (Unit {0}))
      → r ≡ ok tt
      → Verdict msg router initializing locals r
      → (is_expected msg.message_type router initializing ≡ true)
        × Conforms msg router initializing locals
  accepted_parts msg router initializing locals (ok u) e v = (v.1, v.2)
  accepted_parts msg router initializing locals (err c) e v = absurd (cc)
  accepted_parts msg router initializing locals panic e v = absurd v

  pub expected_type :
      (msg : Message) (router initializing : Bool) (locals : List ExtensionId)
      → validate_message msg router initializing locals ≡ ok tt
      → is_expected msg.message_type router initializing ≡ true
  expected_type msg router initializing locals e =
      (accepted_parts msg router initializing locals _ e
        (validate_message-Verdict msg router initializing locals)).0

  carried :
      (msg : Message) (router initializing : Bool) (locals : List ExtensionId) (t : DataItemType)
      → validate_message msg router initializing locals ≡ ok tt
      → requires msg.message_type t ≡ true
      → contains (single_types msg.data_items) t ≡ true
  carried msg router initializing locals t e k =
      let (x, (fit, once, apart, all, wanted)) =
        accepted_parts msg router initializing locals _ e
          (validate_message-Verdict msg router initializing locals) in
      required (single_types msg.data_items) (required_items msg.message_type) t all k

  -- A message that validation accepts carries the MAC address that its type requires.
  pub mac_found :
      (msg : Message) (router initializing : Bool) (locals : List ExtensionId)
      → validate_message msg router initializing locals ≡ ok tt
      → requires msg.message_type item_mac_address ≡ true
      → (mac : MacAddress) × (extract_destination_mac msg ≡ some mac)
  unfolding extract_destination_mac
  mac_found msg router initializing locals e k =
      let (mac, found) =
        find_map-found mac_of item_mac_address mac_of-some msg.data_items
          (carried msg router initializing locals item_mac_address e k) in
      (mac, first_mac-find msg.data_items ∙ found)

  pub status_found :
      {A : Type 0} (f : DataItem → Option A) (msg : Message) (router initializing : Bool)
      (locals : List ExtensionId)
      → ((code : StatusCode) (text : Text) → (a : A) × (f (DataItem.status code text) ≡ some a))
      → validate_message msg router initializing locals ≡ ok tt
      → requires msg.message_type item_status ≡ true
      → (a : A) × (find_map f msg.data_items ≡ some a)
  status_found f msg router initializing locals g e k =
      find_map-found f item_status (status_case f g) msg.data_items
        (carried msg router initializing locals item_status e k)
