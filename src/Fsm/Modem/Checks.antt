-- ===== src/Fsm/Modem/Checks.antt =====
-- The checks of crates/dlep-fsm/src/session_modem.rs: of a command, and of a received message.
use dlep.Base.{
  ◌==◌, Bool, true, false, not, ◌&&◌, if◌then◌else◌, [], ◌∷◌, Option, none, some, Result, ok, err,
  panic, ◌>>◌, nat_eq, contains, contains_key, get,
}
use dlep.Core.Ids.{msg_session_update, msg_destination_down, msg_link_characteristics_request}
use dlep.Core.Ipnet.{Ipnet}
use dlep.Core.Mac.{MacAddress, mac_eq, accepts}
use dlep.Core.Metrics.{LinkMetrics, supported_by}
use dlep.Core.Utf8.{Text}
use dlep.Core.Status.{StatusCode, unexpected_message, terminates_session}
use dlep.Core.Item.{Message}
use dlep.Core.Codec.Frame.{encode_message}
use dlep.Fsm.Transaction.{RequestKind, PendingRequest, session_busy}
use dlep.Fsm.Addresses.{
  no_addrs, AddressChanges, validate, apply_lenient, apply_strict, from_message,
}
use dlep.Fsm.Validation.{validate_message, validate_mac_format, one_of}
use dlep.Fsm.Validation.Transactions.{extract_destination_mac, validate_transaction, is_kind}
use dlep.Fsm.Events.{
  CommandInfo, CommandError, FsmEvent, app_add_destination, app_drop_destination,
  app_update_metrics, app_update_addresses, app_session_addresses, app_announce_destination,
  app_session_update, app_request_link_characteristics, app_link_characteristics_response,
  command_of,
}
use dlep.Fsm.Common.{or_invalid, validate_local_address_update}
use dlep.Fsm.Common.Builders.{build_session_update, build_destination_up, merge_link_metrics}
use dlep.Fsm.Modem.{
  ModemSessionState, ModemSessionFsm, DestinationState, build_link_characteristics_reply,
}

-- `self.state == ModemSessionState::InSession` and `AwaitingSessionInit`.
abbrev pub is_in_session : ModemSessionState → Bool
is_in_session ModemSessionState.in_session = true
is_in_session _ = false

abbrev pub is_initializing : ModemSessionState → Bool
is_initializing ModemSessionState.awaiting_session_init = true
is_initializing _ = false

-- `is_some_and(|d| d.announced)`.
abbrev pub is_announced : Option DestinationState → Bool
is_announced none = false
is_announced (some d) = d.announced

abbrev pub known_opt : ModemSessionFsm → Option MacAddress → Bool
known_opt fsm none = false
known_opt fsm (some mac) = is_announced (get fsm.destinations mac)

-- `self.pending_link_requests.contains(&mac)`.
abbrev pub is_pending : ModemSessionFsm → Option MacAddress → Bool
is_pending fsm none = false
is_pending fsm (some mac) = contains fsm.pending_link_requests mac

-- Metrics with a change merged into them.
abbrev pub with_metrics : LinkMetrics → LinkMetrics → LinkMetrics
with_metrics change metrics = (merge_link_metrics (build_session_update change) metrics).1

unfoldable pub check_pending :
    ModemSessionFsm → FsmEvent → MacAddress → Result CommandError (Unit {0})
check_pending fsm (app_link_characteristics_response dest status text metrics) mac =
    if not (is_pending fsm (some mac)) then err CommandError.no_pending_request else ok tt
check_pending fsm (app_drop_destination dest reason) mac =
    if is_pending fsm (some mac) then err CommandError.busy else ok tt
check_pending fsm _ mac = ok tt

-- `retained`: an update while the destination is being announced.
unfoldable pub is_retained : FsmEvent → PendingRequest → Bool
is_retained (app_update_metrics mac metrics) pending =
    is_kind pending.kind RequestKind.destination_up
is_retained (app_update_addresses mac changes) pending =
    is_kind pending.kind RequestKind.destination_up
is_retained _ pending = false

unfoldable pub check_transaction : FsmEvent → Option PendingRequest → Result CommandError (Unit {0})
check_transaction event none = ok tt
check_transaction event (some pending) =
    if not (is_retained event pending) then err CommandError.busy else ok tt

unfoldable pub check_scope :
    ModemSessionFsm → FsmEvent → Option MacAddress → Result CommandError (Unit {0})
check_scope fsm event (some mac) =
    if not (accepts fsm.config.mac_address_format mac)
    then err CommandError.mac_address_format_mismatch
    else check_pending fsm event mac >> check_transaction event (get fsm.tx.per_destination mac)
check_scope fsm event none = if session_busy fsm.tx then err CommandError.busy else ok tt

-- The commands of a router.
abbrev pub is_unsupported : FsmEvent → Bool
is_unsupported (app_announce_destination mac) = true
is_unsupported (app_request_link_characteristics mac wanted) = true
is_unsupported _ = false

-- `is_ok`.
abbrev pub is_ok : {E A : Type 0} → Result E A → Bool
is_ok (ok a) = true
is_ok (err e) = false
is_ok panic = false

module _ ⦃ip : Ipnet⦄ where
  unfoldable pub valid_metrics : ModemSessionFsm → LinkMetrics → Bool
  valid_metrics fsm metrics =
      supported_by metrics fsm.config.initial_metrics
      && is_ok (encode_message (build_session_update metrics))

  -- A message of the checks that must be one that can be encoded.
  abbrev pub check_encoding : Message → Result CommandError (Unit {0})
  check_encoding msg = or_invalid (encode_message msg)

  unfoldable pub check_addresses_of :
      MacAddress → AddressChanges → Option DestinationState → Result CommandError (Unit {0})
  check_addresses_of mac changes none = err CommandError.unknown_destination
  check_addresses_of mac changes (some d) =
      or_invalid (validate changes)
      >> check_encoding (build_destination_up mac d.metrics (apply_lenient changes d.addrs))

  -- The metrics that a reply reports.
  unfoldable pub replied_metrics : LinkMetrics → Option LinkMetrics → LinkMetrics
  replied_metrics metrics none = metrics
  replied_metrics metrics (some change) = with_metrics change metrics

  abbrev pub refused_metrics : ModemSessionFsm → Option LinkMetrics → Bool
  refused_metrics fsm none = false
  refused_metrics fsm (some metrics) = not (valid_metrics fsm metrics)

  -- `self.destinations[mac]` panics on a destination that is missing.
  unfoldable pub check_reply :
      ModemSessionFsm
      → MacAddress
      → StatusCode
      → Text
      → Option LinkMetrics
      → Option DestinationState
      → Result CommandError (Unit {0})
  check_reply fsm mac status text metrics none = panic
  check_reply fsm mac status text metrics (some d) =
      if refused_metrics fsm metrics
      then err CommandError.invalid_input
      else check_encoding
          (build_link_characteristics_reply mac status text (replied_metrics d.metrics metrics))

  -- The `match` on the event behind the check of the scope.
  unfoldable pub check_event : ModemSessionFsm → FsmEvent → Result CommandError (Unit {0})
  check_event fsm (app_add_destination mac metrics addrs) =
      if contains_key fsm.destinations mac
      then err CommandError.already_exists
      else if not (valid_metrics fsm metrics)
      then err CommandError.invalid_input
      else or_invalid (validate (record { added = addrs; removed = no_addrs }))
        >> check_encoding
            (build_destination_up mac (with_metrics metrics fsm.session_metrics) addrs)
  check_event fsm (app_drop_destination mac reason) =
      if not (contains_key fsm.destinations mac)
      then err CommandError.unknown_destination
      else ok tt
  check_event fsm (app_update_metrics mac metrics) =
      if not (contains_key fsm.destinations mac)
      then err CommandError.unknown_destination
      else if not (valid_metrics fsm metrics)
      then err CommandError.invalid_input
      else ok tt
  check_event fsm (app_update_addresses mac changes) =
      check_addresses_of mac changes (get fsm.destinations mac)
  check_event fsm (app_session_update metrics) =
      if not (valid_metrics fsm metrics) then err CommandError.invalid_input else ok tt
  check_event fsm (app_link_characteristics_response mac status text metrics) =
      if terminates_session status
      then err CommandError.invalid_input
      else check_reply fsm mac status text metrics (get fsm.destinations mac)
  check_event fsm (app_session_addresses changes) =
      validate_local_address_update fsm.local_addresses changes
  check_event fsm _ = err CommandError.unsupported

  -- With the `expect("application command")`.
  unfoldable pub check_info :
      ModemSessionFsm → FsmEvent → Option CommandInfo → Result CommandError (Unit {0})
  check_info fsm event none = panic
  check_info fsm event (some info) =
      if is_unsupported event
      then err CommandError.unsupported
      else check_scope fsm event info.destination >> check_event fsm event

  unfoldable pub check_command : ModemSessionFsm → FsmEvent → Result CommandError (Unit {0})
  check_command fsm event =
      if not (is_in_session fsm.state)
      then err CommandError.not_ready
      else check_info fsm event (command_of event)

  unfoldable pub check_addresses : ModemSessionFsm → Message → Result StatusCode (Unit {0})
  check_addresses fsm msg =
      if is_initializing fsm.state
      then (apply_strict (from_message msg) fsm.peer_addresses).0
      else if msg.message_type == msg_session_update
      then (apply_strict (from_message msg) fsm.peer_addresses).0
      else ok tt

  -- A request while the router's own request about the destination awaits its answer.
  unfoldable pub check_unanswered : ModemSessionFsm → Message → Result StatusCode (Unit {0})
  check_unanswered fsm msg =
      if is_pending fsm (extract_destination_mac msg)
        && one_of msg.message_type (msg_destination_down ∷ msg_link_characteristics_request ∷ [])
      then err unexpected_message
      else ok tt

  -- `checked` of `step`.
  unfoldable pub check_received : ModemSessionFsm → Message → Result StatusCode (Unit {0})
  check_received fsm msg =
      validate_message msg false (is_initializing fsm.state) fsm.config.advertised_extensions
      >> validate_mac_format msg fsm.config.mac_address_format
      >> check_addresses fsm msg
      >> (if is_initializing fsm.state
          then ok tt
          else check_unanswered fsm msg
            >> validate_transaction msg fsm.tx (known_opt fsm (extract_destination_mac msg)))
