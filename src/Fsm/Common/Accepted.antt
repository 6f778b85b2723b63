-- ===== src/Fsm/Common/Accepted.antt =====
-- Built messages of session_common.rs and the validation of their receiver.
use dlep.Base.{
  Bool, true, false, leb, ◌&&◌, List, [], ◌∷◌, any, not, ◌==◌, Result, ok, err, panic, ◌≡◌, refl,
  arith, contains, distinct, nat_eq, octets_eq,
}
use dlep.Core.Ids.{
  MessageType, ExtensionId, item_mac_address, item_status, msg_link_characteristics_request,
  msg_destination_up_response, msg_destination_announce_response, msg_destination_down_response,
  msg_destination_announce, msg_destination_down, msg_session_update_response,
  msg_session_termination, msg_heartbeat,
}
use dlep.Core.Ipnet.{Ipnet}
use dlep.Core.Mac.{MacAddress, IsMac, as_bytes}
use dlep.Core.Status.{StatusCode}
use dlep.Core.Item.{DataItem, Message, type_id_of}
use dlep.Core.Codec.Wire.{Encodable}
use dlep.Fsm.Validation.{
  validate_message, is_expected, is_address, is_metric, is_allowed, required_items, is_unknown,
  announces_unrecognized,
}
use dlep.Fsm.Validation.Decision.{Conforms, Verdict, validate_message-Verdict}
use dlep.Fsm.Common.Builders.{
  answer, status_item, build_session_update_response, build_session_termination, build_heartbeat,
  build_destination_up_response, build_destination_down_response,
  build_destination_announce_response, build_destination_down, build_destination_announce,
}

module _ ⦃ip : Ipnet⦄ where
  accepted_by :
      (msg : Message) (router initializing : Bool) (locals : List ExtensionId)
      (r : Result StatusCode (Unit {0}))
      → leb 1 msg.message_type && leb msg.message_type 16 ≡ true
      → is_expected msg.message_type router initializing ≡ true
      → Conforms msg router initializing locals
      → Verdict msg router initializing locals r
      → r ≡ ok tt
  accepted_by msg router initializing locals (ok u) k x c v = refl
  accepted_by msg router initializing locals (err e) k x c v = absurd ((rw (k, x) at v).1 c)
  accepted_by msg router initializing locals panic k x c v = absurd v

  -- A message that conforms to the grammar is accepted.
  pub Conforms-ok :
      (msg : Message) (router initializing : Bool) (locals : List ExtensionId)
      → leb 1 msg.message_type && leb msg.message_type 16 ≡ true
      → is_expected msg.message_type router initializing ≡ true
      → Conforms msg router initializing locals
      → validate_message msg router initializing locals ≡ ok tt
  Conforms-ok msg router initializing locals k x c =
      accepted_by msg router initializing locals (validate_message msg router initializing locals) k
        x c (validate_message-Verdict msg router initializing locals)

  accepted :
      (msg : Message) (router : Bool) (locals : List ExtensionId)
      → leb 1 msg.message_type && leb msg.message_type 16 ≡ true
      → is_expected msg.message_type router false ≡ true
      → Conforms msg router false locals
      → validate_message msg router false locals ≡ ok tt
  accepted msg router locals k x c = Conforms-ok msg router false locals k x c

  mac_item : (mac : MacAddress) → IsMac mac → Encodable (DataItem.mac_address mac)
  unfolding as_bytes
  mac_item (MacAddress.eui48 o) h = (tt, omega (arith, h.0))
  mac_item (MacAddress.eui64 o) h = (tt, omega (arith, h.0))

  -- A message with a MAC address and a status, of a type that allows them.
  answer-Conforms :
      (mt : MessageType) (mac : MacAddress) (status : StatusCode) (router : Bool)
      (locals : List ExtensionId)
      → IsMac mac
      → is_allowed mt router item_mac_address && is_allowed mt router item_status ≡ true
      → any (λ t. not (contains (item_mac_address ∷ item_status ∷ []) t)) (required_items mt)
        ≡ false
      → (mt == msg_link_characteristics_request) ≡ false
      → Conforms (answer mt mac status) router false locals
  unfolding is_address distinct contains
  answer-Conforms mt mac status router locals h a r l = (
    ((ground arith, λ _. mac_item mac h), ((ground arith, λ _. (tt, omega arith)), tt)),
    refl,
    refl,
    r,
    ground arith,
  )

  down_expected : (router : Bool) → is_expected msg_destination_down_response router false ≡ true
  unfolding is_expected contains
  down_expected true = refl
  down_expected false = refl

  -- The responses about a destination.
  pub validated_answers :
      (mac : MacAddress) (status : StatusCode) (router : Bool) (locals : List ExtensionId)
      → IsMac mac
      → (validate_message (build_destination_up_response mac status) false false locals ≡ ok tt)
        × (validate_message (build_destination_announce_response mac status) true false locals
            ≡ ok tt)
        × (validate_message (build_destination_down_response mac status) router false locals
            ≡ ok tt)
  unfolding build_destination_up_response build_destination_announce_response
      build_destination_down_response is_expected is_allowed is_address is_metric required_items
      contains distinct
  validated_answers mac status router locals h = (
    accepted (answer msg_destination_up_response mac status) false locals refl refl
        (answer-Conforms msg_destination_up_response mac status false locals h refl refl refl),
    accepted (answer msg_destination_announce_response mac status) true locals refl refl
        (answer-Conforms msg_destination_announce_response mac status true locals h refl refl refl),
    accepted (answer msg_destination_down_response mac status) router locals refl
        (down_expected router)
        (answer-Conforms msg_destination_down_response mac status router locals h refl refl refl),
  )

  -- A message with one item, of a type that allows it and wants nothing else.
  one_item-Conforms :
      (mt : MessageType) (item : DataItem) (router : Bool) (locals : List ExtensionId)
      → is_unknown item ≡ false
      → announces_unrecognized locals item ≡ false
      → is_address (type_id_of item) ≡ false
      → Encodable item
      → is_allowed mt router (type_id_of item) ≡ true
      → any (λ t. not (contains (type_id_of item ∷ []) t)) (required_items mt) ≡ false
      → (mt == msg_link_characteristics_request) ≡ false
      → Conforms (record { message_type = mt; data_items = item ∷ [] }) router false locals
  unfolding distinct contains
  one_item-Conforms mt item router locals k n a g f r l =
      (((ground arith, λ _. g), tt), ground arith, ground arith, ground arith, ground arith)

  either_expected :
      (router : Bool)
      → (is_expected msg_destination_down router false ≡ true)
        × (is_expected msg_session_update_response router false ≡ true)
        × (is_expected msg_session_termination router false ≡ true)
        × (is_expected msg_heartbeat router false ≡ true)
  unfolding is_expected contains
  either_expected true = (refl, refl, refl, refl)
  either_expected false = (refl, refl, refl, refl)

  -- In session, either side accepts the end of the session, whatever its status.
  pub validate-build_session_termination :
      (status : StatusCode) (router : Bool) (locals : List ExtensionId)
      → validate_message (build_session_termination status) router false locals ≡ ok tt
  unfolding build_session_termination is_allowed is_address required_items contains
  validate-build_session_termination status router locals =
      accepted (build_session_termination status) router locals refl ((either_expected router).2) (
        one_item-Conforms msg_session_termination (status_item status) router locals refl refl refl
          (tt, omega arith) refl refl refl)

  -- The messages with one item or none.
  pub validated_notices :
      (mac : MacAddress) (status : StatusCode) (router : Bool) (locals : List ExtensionId)
      → IsMac mac
      → (validate_message (build_destination_announce mac) false false locals ≡ ok tt)
        × (validate_message (build_destination_down mac status) router false locals ≡ ok tt)
        × (validate_message (build_session_update_response status) router false locals ≡ ok tt)
        × (validate_message (build_session_termination status) router false locals ≡ ok tt)
        × (validate_message build_heartbeat router false locals ≡ ok tt)
  unfolding build_destination_announce build_destination_down build_session_update_response
      build_session_termination build_heartbeat is_expected is_allowed is_address required_items
      contains distinct
  validated_notices mac status router locals h =
      let (down, response, _, beat) = either_expected router in
      (
        accepted (build_destination_announce mac) false locals refl refl (
            one_item-Conforms msg_destination_announce (DataItem.mac_address mac) false locals refl
              refl refl (mac_item mac h) refl refl refl),
        accepted (build_destination_down mac status) router locals refl down (
            one_item-Conforms msg_destination_down (DataItem.mac_address mac) router locals refl
              refl refl (mac_item mac h) refl refl refl),
        accepted (build_session_update_response status) router locals refl response (
            one_item-Conforms msg_session_update_response (status_item status) router locals refl
              refl refl (tt, omega arith) refl refl refl),
        validate-build_session_termination status router locals,
        accepted build_heartbeat router locals refl beat (tt, refl, refl, refl, refl),
      )
