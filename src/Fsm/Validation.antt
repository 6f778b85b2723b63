-- ===== src/Fsm/Validation.antt =====
-- crates/dlep-fsm/src/validation.rs. A `HashSet` is the list of its elements in the order of their
-- insertion, without duplicates.
pub mod Transactions
pub mod Grammar
pub mod Decision
pub mod Requests
use dlep.Base.{
  ℕ, Octets, ltb, leb, ◌==◌, Bool, true, false, not, ◌&&◌, ◌||◌, if◌then◌else◌, List, [], ◌∷◌, ◌++◌,
  Option, none, some, Result, ok, err, panic, ◌>>=◌, ◌>>◌, octets_eq, nat_eq, contains, any, get,
}
use dlep.Core.Ids.{
  item_current_data_rate_receive, item_current_data_rate_transmit, item_extensions_supported,
  item_heartbeat_interval, item_ipv4_address, item_ipv6_address, item_latency, item_mac_address,
  item_maximum_data_rate_receive, item_maximum_data_rate_transmit, item_peer_type, item_status,
  msg_destination_announce, msg_destination_announce_response, msg_destination_down,
  msg_destination_down_response, msg_destination_up, msg_destination_up_response,
  msg_destination_update, msg_heartbeat, msg_link_characteristics_request,
  msg_link_characteristics_response, msg_session_initialization,
  msg_session_initialization_response, msg_session_termination, msg_session_update,
  msg_session_update_response, MessageType, DataItemType, ExtensionId,
}
use dlep.Core.Ipnet.{Ipnet}
use dlep.Core.Mac.{MacAddress, MacAddressFormat, accepts, mac_eq}
use dlep.Core.Status.{
  StatusCode, unknown_message, unexpected_message, invalid_data, invalid_destination,
}
use dlep.Core.Item.{DataItem, Message, type_id_of}
use dlep.Core.Error.{CodecError}
use dlep.Core.Codec.Encode.{encode_item}
use dlep.Fsm.Transaction.{
  RequestKind, PendingRequest, TransactionTracker, session_busy, destination_busy, session_update,
  destination_up, destination_down, destination_announce, link_characteristics,
}

-- `matches!(t, A | B | ...)` on numbers.
abbrev pub one_of : ℕ → List ℕ → Bool
one_of t ts = contains ts t

abbrev pub has_refused_mac : MacAddressFormat → DataItem → Bool
has_refused_mac format (DataItem.mac_address mac) = not (accepts format mac)
has_refused_mac format _ = false

unfoldable pub validate_mac_format : Message → MacAddressFormat → Result StatusCode (Unit {0})
validate_mac_format msg format =
    if any (has_refused_mac format) msg.data_items then err invalid_data else ok tt

-- `expected` of `validate_message`.
unfoldable pub is_expected : (mt : MessageType) (router initializing : Bool) → Bool
is_expected mt router initializing =
    if initializing
    then mt == (if router then msg_session_initialization_response else msg_session_initialization)
    else one_of mt (
        msg_session_update ∷ msg_session_update_response ∷ msg_session_termination ∷ msg_heartbeat
        ∷ [])
      || (if router
          then one_of mt (
              msg_destination_up ∷ msg_destination_announce_response ∷ msg_destination_down
              ∷ msg_destination_down_response ∷ msg_destination_update
              ∷ msg_link_characteristics_response ∷ [])
          else one_of mt (
              msg_destination_up_response ∷ msg_destination_announce ∷ msg_destination_down
              ∷ msg_destination_down_response ∷ msg_link_characteristics_request ∷ []))

unfoldable pub is_address : DataItemType → Bool
is_address t = leb 8 t && leb t 11

unfoldable pub is_metric : DataItemType → Bool
is_metric t = leb 12 t && leb t 20

-- `allowed` of `validate_message`.
unfoldable pub is_allowed : (mt : MessageType) (router : Bool) (t : DataItemType) → Bool
is_allowed mt router t =
    if mt == msg_session_initialization
    then one_of t (item_peer_type ∷ item_heartbeat_interval ∷ item_extensions_supported ∷ [])
      || is_address t
    else if mt == msg_session_initialization_response
    then one_of t
        (item_status ∷ item_peer_type ∷ item_heartbeat_interval ∷ item_extensions_supported ∷ [])
      || is_address t
      || is_metric t
    else if mt == msg_session_update
    then is_address t || (router && is_metric t)
    else if one_of mt (msg_session_update_response ∷ msg_session_termination ∷ [])
    then t == item_status
    else if one_of mt (msg_destination_up ∷ msg_destination_update ∷ [])
    then (t == item_mac_address) || is_address t || is_metric t
    else if one_of mt (msg_destination_up_response ∷ msg_destination_down_response ∷ [])
    then one_of t (item_mac_address ∷ item_status ∷ [])
    else if mt == msg_destination_announce
    then one_of t (item_mac_address ∷ item_ipv4_address ∷ item_ipv6_address ∷ [])
    else if mt == msg_destination_announce_response
    then one_of t (item_mac_address ∷ item_status ∷ []) || is_address t || is_metric t
    else if mt == msg_link_characteristics_response
    then one_of t (item_mac_address ∷ item_status ∷ []) || is_metric t
    else if mt == msg_destination_down
    then t == item_mac_address
    else if mt == msg_link_characteristics_request
    then one_of t (
        item_mac_address ∷ item_current_data_rate_receive ∷ item_current_data_rate_transmit
        ∷ item_latency ∷ [])
    else false

abbrev pub is_unknown : DataItem → Bool
is_unknown (DataItem.unknown raw) = true
is_unknown _ = false

-- Whether an address item has `add: false`.
abbrev pub is_removal : DataItem → Bool
is_removal (DataItem.ipv4_address add addr) = not add
is_removal (DataItem.ipv6_address add addr) = not add
is_removal (DataItem.ipv4_attached_subnet add subnet) = not add
is_removal (DataItem.ipv6_attached_subnet add subnet) = not add
is_removal _ = false

-- Whether an item announces an extension that is not one of the local ones.
abbrev pub announces_unrecognized : List ExtensionId → DataItem → Bool
announces_unrecognized locals (DataItem.extensions_supported ids) =
    any (λ id. not (contains locals id)) ids
announces_unrecognized locals _ = false

-- `types` and `addresses`, the sets of the loop.
pub record Seen : Type 0 where
  pub types : List DataItemType
  pub addresses : List Octets

unfoldable pub required_items : MessageType → List DataItemType
required_items mt =
    if mt == msg_session_initialization
    then item_peer_type ∷ item_heartbeat_interval ∷ []
    else if mt == msg_session_initialization_response
    then item_status ∷ item_peer_type ∷ item_heartbeat_interval ∷ item_maximum_data_rate_receive
      ∷ item_maximum_data_rate_transmit ∷ item_current_data_rate_receive
      ∷ item_current_data_rate_transmit ∷ item_latency ∷ []
    else if one_of mt (msg_session_update_response ∷ msg_session_termination ∷ [])
    then item_status ∷ []
    else if one_of mt (
        msg_destination_up_response ∷ msg_destination_announce_response
        ∷ msg_destination_down_response ∷ msg_link_characteristics_response ∷ [])
    then item_mac_address ∷ item_status ∷ []
    else if one_of mt (
        msg_destination_up ∷ msg_destination_announce ∷ msg_destination_down
        ∷ msg_destination_update ∷ msg_link_characteristics_request ∷ [])
    then item_mac_address ∷ []
    else []

-- The end of the round, from the outcome of `item.encode` and the bytes that it leaves.
unfoldable pub note_encoded :
    (initializing : Bool)
    → DataItem
    → Seen
    → Result CodecError (Unit {0}) × Octets
    → Result StatusCode Seen
note_encoded initializing item seen (err e, bytes) = err invalid_data
note_encoded initializing item seen (panic, bytes) = panic
note_encoded initializing item seen (ok u, bytes) =
    if is_address (type_id_of item)
    then (if contains seen.addresses bytes
        then err invalid_data
        else (if initializing && is_removal item
            then err invalid_data
            else ok (record seen { addresses = seen.addresses ++ (bytes ∷ []) })))
    else (if contains seen.types (type_id_of item)
        then err invalid_data
        else ok (record seen { types = seen.types ++ (type_id_of item ∷ []) }))

module _ ⦃ip : Ipnet⦄ where
  -- The round of the loop for an item that `Unknown` does not hold, behind the test of `allowed`.
  unfoldable pub check_known : (initializing : Bool) → DataItem → Seen → Result StatusCode Seen
  check_known initializing item seen = note_encoded initializing item seen (encode_item item [])

  unfoldable pub check_item :
      (mt : MessageType) (router initializing unrecognized_extension : Bool)
      → DataItem
      → Seen
      → Result StatusCode Seen
  check_item mt router initializing unrecognized_extension item seen =
      if is_unknown item
      then (if initializing && unrecognized_extension then ok seen else err invalid_data)
      else if not (is_allowed mt router (type_id_of item))
      then err invalid_data
      else check_known initializing item seen

  unfoldable pub check_items :
      (mt : MessageType) (router initializing unrecognized_extension : Bool)
      → List DataItem
      → Seen
      → Result StatusCode Seen
  check_items mt router initializing unrecognized_extension [] seen = ok seen
  check_items mt router initializing unrecognized_extension (item ∷ items) seen =
      check_item mt router initializing unrecognized_extension item seen >>= λ s.
      check_items mt router initializing unrecognized_extension items s

  unfoldable pub validate_message :
      Message
      → (router initializing : Bool) → (local_extensions : List ExtensionId)
      → Result StatusCode (Unit {0})
  validate_message msg router initializing local_extensions =
      let mt = msg.message_type in
      if not (leb 1 mt && leb mt 16)
      then err unknown_message
      else if not (is_expected mt router initializing)
      then err unexpected_message
      else check_items mt router initializing
          (any (announces_unrecognized local_extensions) msg.data_items) msg.data_items
          (record { types = []; addresses = [] })
        >>= λ seen.
            if any (λ t. not (contains seen.types t)) (required_items mt)
            then err invalid_data
            else if (mt == msg_link_characteristics_request)
                && not (
                    any
                      (λ t. one_of t (
                        item_current_data_rate_receive ∷ item_current_data_rate_transmit
                        ∷ item_latency ∷ []))
                      seen.types)
            then err invalid_data
            else ok tt
