-- ===== src/Fsm/Router/Checks.antt =====
-- The checks of crates/dlep-fsm/src/session_router.rs: of a command, and of a received message.
use dlep.Base.{
  ◌==◌, Bool, true, false, not, ◌&&◌, if◌then◌else◌, List, any, Option, none, some, Result, ok, err,
  ◌>>◌, nat_eq, contains, get,
}
use dlep.Core.Ids.{DataItemType, msg_session_update, msg_link_characteristics_response}
use dlep.Core.Ipnet.{Ipnet}
use dlep.Core.Mac.{MacAddress, mac_eq, accepts}
use dlep.Core.Metrics.{LinkCharacteristics, requests_nothing}
use dlep.Core.Status.{StatusCode, invalid_data}
use dlep.Core.Item.{Message}
use dlep.Core.Codec.Frame.{encode_message}
use dlep.Fsm.Transaction.{session_busy, destination_busy}
use dlep.Fsm.Addresses.{apply_strict, from_message}
use dlep.Fsm.Validation.{validate_message, validate_mac_format}
use dlep.Fsm.Validation.Transactions.{extract_destination_mac, validate_transaction}
use dlep.Fsm.Events.{
  CommandError, FsmEvent, app_drop_destination, app_announce_destination,
  app_request_link_characteristics, app_session_addresses,
}
use dlep.Fsm.Common.{or_invalid, validate_local_address_update}
use dlep.Fsm.Common.Builders.{build_link_characteristics_request}
use dlep.Fsm.Router.{RouterSessionState, RouterSessionFsm, metric_types, is_up}

-- `self.state == RouterSessionState::InSession` and `SessionInitPending`.
abbrev pub is_in_session : RouterSessionState → Bool
is_in_session RouterSessionState.in_session = true
is_in_session _ = false

abbrev pub is_initializing : RouterSessionState → Bool
is_initializing RouterSessionState.session_init_pending = true
is_initializing _ = false

-- `self.destinations.get(mac).is_some_and(|d| d.up)`.
abbrev pub known : RouterSessionFsm → MacAddress → Bool
known fsm mac = is_up (get fsm.destinations mac)

abbrev pub known_opt : RouterSessionFsm → Option MacAddress → Bool
known_opt fsm none = false
known_opt fsm (some mac) = known fsm mac

-- `==` of two sets.
unfoldable pub same_set : List DataItemType → List DataItemType → Bool
same_set a b = not (any (λ t. not (contains b t)) a) && not (any (λ t. not (contains a t)) b)

-- The check of a command on a destination, or on the session, for a free transaction.
unfoldable pub check_scope : RouterSessionFsm → Option MacAddress → Result CommandError (Unit {0})
check_scope fsm (some mac) =
    if not (accepts fsm.config.mac_address_format mac)
    then err CommandError.mac_address_format_mismatch
    else if destination_busy fsm.tx mac
    then err CommandError.busy
    else ok tt
check_scope fsm none = if session_busy fsm.tx then err CommandError.busy else ok tt

module _ ⦃ip : Ipnet⦄ where
  unfoldable pub check_requested : MacAddress → LinkCharacteristics → Result CommandError (Unit {0})
  check_requested mac requested =
      if requests_nothing requested
      then err CommandError.invalid_input
      else or_invalid (encode_message (build_link_characteristics_request mac requested))

  -- `check_command` behind the test of the state.
  unfoldable pub check_event : RouterSessionFsm → FsmEvent → Result CommandError (Unit {0})
  check_event fsm (app_drop_destination mac reason) =
      check_scope fsm (some mac)
      >> (if not (known fsm mac) then err CommandError.unknown_destination else ok tt)
  check_event fsm (app_request_link_characteristics mac requested) =
      check_scope fsm (some mac)
      >> (if not (known fsm mac)
          then err CommandError.unknown_destination
          else check_requested mac requested)
  check_event fsm (app_announce_destination mac) =
      check_scope fsm (some mac)
      >> (if known fsm mac then err CommandError.already_exists else ok tt)
  check_event fsm (app_session_addresses changes) =
      check_scope fsm none >> validate_local_address_update fsm.local_addresses changes
  check_event fsm _ = err CommandError.unsupported

  unfoldable pub check_command : RouterSessionFsm → FsmEvent → Result CommandError (Unit {0})
  check_command fsm event =
      if not (is_in_session fsm.state) then err CommandError.not_ready else check_event fsm event

  -- The peer's addresses are those that the message leaves.
  unfoldable pub check_addresses : RouterSessionFsm → Message → Result StatusCode (Unit {0})
  check_addresses fsm msg =
      if is_initializing fsm.state
      then (apply_strict (from_message msg) fsm.peer_addresses).0
      else if msg.message_type == msg_session_update
      then (apply_strict (from_message msg) fsm.peer_addresses).0
      else ok tt

  unfoldable pub check_metrics : RouterSessionFsm → Message → Result StatusCode (Unit {0})
  check_metrics fsm msg =
      let received = metric_types msg.data_items in
      if any (λ t. not (contains fsm.session_metric_types t)) received
      then err invalid_data
      else if (msg.message_type == msg_link_characteristics_response)
          && not (same_set received fsm.session_metric_types)
      then err invalid_data
      else ok tt

  -- `checked` of `step`.
  unfoldable pub check_received : RouterSessionFsm → Message → Result StatusCode (Unit {0})
  check_received fsm msg =
      validate_message msg true (is_initializing fsm.state) fsm.config.advertised_extensions
      >> validate_mac_format msg fsm.config.mac_address_format
      >> check_addresses fsm msg
      >> (if is_initializing fsm.state
          then ok tt
          else check_metrics fsm msg
            >> validate_transaction msg fsm.tx (known_opt fsm (extract_destination_mac msg)))
