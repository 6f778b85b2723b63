-- ===== src/Fsm/Validation/Transactions.antt =====
-- `validate_transaction` of crates/dlep-fsm/src/validation.rs, and `extract_destination_mac` of
-- crates/dlep-fsm/src/session_common.rs.
use dlep.Base.{
  ◌==◌, Bool, true, false, not, ◌&&◌, if◌then◌else◌, List, [], ◌∷◌, Option, none, some, Result, ok,
  err, octets_eq, nat_eq, get,
}
use dlep.Core.Ids.{
  msg_destination_announce, msg_destination_announce_response, msg_destination_down,
  msg_destination_down_response, msg_destination_up, msg_destination_up_response,
  msg_destination_update, msg_link_characteristics_request, msg_link_characteristics_response,
  msg_session_update, msg_session_update_response, MessageType,
}
use dlep.Core.Mac.{MacAddress, mac_eq}
use dlep.Core.Status.{StatusCode, unexpected_message, invalid_destination}
use dlep.Core.Item.{DataItem, Message}
use dlep.Fsm.Transaction.{
  RequestKind, PendingRequest, TransactionTracker, session_busy, destination_busy,
}
use dlep.Fsm.Validation.{one_of}

abbrev pub mac_of : DataItem → Option MacAddress
mac_of (DataItem.mac_address m) = some m
mac_of _ = none

-- `extract_destination_mac` of crates/dlep-fsm/src/session_common.rs.
unfoldable pub first_mac : List DataItem → Option MacAddress
first_mac [] = none
first_mac (item ∷ items) =
    let rest = first_mac items in elim (mac_of item) [ some m ↦ some m | none ↦ rest ]

unfoldable pub extract_destination_mac : Message → Option MacAddress
extract_destination_mac msg = first_mac msg.data_items

-- The derived `PartialEq` of `RequestKind`.
abbrev pub is_kind : RequestKind → RequestKind → Bool
is_kind RequestKind.session_update RequestKind.session_update = true
is_kind RequestKind.session_termination RequestKind.session_termination = true
is_kind RequestKind.destination_up RequestKind.destination_up = true
is_kind RequestKind.destination_announce RequestKind.destination_announce = true
is_kind RequestKind.destination_down RequestKind.destination_down = true
is_kind RequestKind.link_characteristics RequestKind.link_characteristics = true
is_kind _ _ = false

-- `is_some_and(|p| p.kind == kind)`.
abbrev pub pending_is : RequestKind → Option PendingRequest → Bool
pending_is kind none = false
pending_is kind (some p) = is_kind p.kind kind

-- `response_kind` of `validate_transaction`.
unfoldable pub response_kind : MessageType → Option RequestKind
response_kind mt =
    if mt == msg_destination_up_response
    then some RequestKind.destination_up
    else if mt == msg_destination_down_response
    then some RequestKind.destination_down
    else if mt == msg_destination_announce_response
    then some RequestKind.destination_announce
    else if mt == msg_link_characteristics_response
    then some RequestKind.link_characteristics
    else none

-- What `validate_transaction` asks of a message about a destination.
unfoldable pub validate_destination :
    (mt : MessageType)
    → MacAddress
    → TransactionTracker
    → (destination_up : Bool) → Result StatusCode (Unit {0})
validate_destination mt mac tx up = elim (response_kind mt) [
  | some kind ↦
      if not (pending_is kind (get tx.per_destination mac)) then err unexpected_message else ok tt
  | none ↦
      if one_of mt (
          msg_destination_up ∷ msg_destination_announce ∷ msg_destination_down
          ∷ msg_link_characteristics_request ∷ [])
        && destination_busy tx mac
      then err unexpected_message
      else if one_of mt
            (msg_destination_update ∷ msg_destination_down ∷ msg_link_characteristics_request ∷ [])
          && not up
      then err invalid_destination
      else if one_of mt (msg_destination_up ∷ msg_destination_announce ∷ []) && up
      then err unexpected_message
      else ok tt
]

unfoldable pub validate_transaction :
    Message → TransactionTracker → (destination_up : Bool) → Result StatusCode (Unit {0})
validate_transaction msg tx up =
    let mt = msg.message_type in
    if (mt == msg_session_update) && session_busy tx
    then err unexpected_message
    else if (mt == msg_session_update_response)
        && not (pending_is RequestKind.session_update tx.session_pending)
    then err unexpected_message
    else elim (extract_destination_mac msg) [
      | none ↦ ok tt
      | some mac ↦ validate_destination mt mac tx up
    ]
