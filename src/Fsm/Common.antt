-- ===== src/Fsm/Common.antt =====
-- crates/dlep-fsm/src/session_common.rs: the session's configuration, heartbeat intervals and local
-- address updates. `extract_destination_mac` stands in Fsm/Validation/Transactions.antt.
pub mod Builders
pub mod Metrics
pub mod LocalAddresses
pub mod Heartbeat
pub mod Accepted
use dlep.Base.{
  ℕ, ◌*◌, ◌^◌, max, Bool, true, false, not, ltb, if◌then◌else◌, List, [], ◌∷◌, ◌++◌, map, Octets,
  Option, none, some, Result, ok, err, panic, ◌>>◌,
}
use dlep.Core.Ids.{
  ExtensionId, min_heartbeat_interval_ms, msg_session_update, msg_session_update_response,
  msg_session_termination, msg_session_termination_response, msg_destination_up,
  msg_destination_up_response, msg_destination_announce, msg_destination_announce_response,
  msg_destination_down, msg_destination_down_response, msg_destination_update,
  msg_link_characteristics_request, msg_link_characteristics_response, msg_heartbeat,
}
use dlep.Core.Ipnet.{Ipnet}
use dlep.Core.Mac.{MacAddress, MacAddressFormat}
use dlep.Core.Error.{CodecError, CodecResult}
use dlep.Core.Metrics.{Duration, from_millis, LinkMetrics, LinkCharacteristics}
use dlep.Core.Utf8.{Text}
use dlep.Core.Status.{StatusCode}
use dlep.Core.Item.{DataItem, Message, new_message, with_item}
use dlep.Core.Codec.Frame.{encode_message}
use dlep.Fsm.Transaction.{
  RequestKind, PendingRequest, TransactionTracker, session_busy, open_session,
}
use dlep.Fsm.Addresses.{
  DestinationAddrs, no_addrs, AddressChanges, changes_empty, validate, apply_lenient, between,
  append_to, from_message,
}
use dlep.Fsm.Events.{
  TimerId, CommandKind, CommandInfo, CommandError, busy, invalid_input, CommandRejection, FsmAction,
  send_message, reset_heartbeat, emit, command_rejected,
}

-- `explicit_termination_timeout` is the field `termination_timeout`.
pub record SessionConfig : Type 0 where
  pub mac_address_format : MacAddressFormat
  pub peer_description : Text
  pub initial_metrics : LinkMetrics
  pub heartbeat_interval_ms : ℕ
  pub session_init_timeout : Duration
  pub explicit_termination_timeout : Option Duration
  pub advertised_extensions : List ExtensionId
  pub defer_link_characteristics : Bool

unfoldable pub local_heartbeat_interval : SessionConfig → Duration
local_heartbeat_interval config =
    from_millis (max config.heartbeat_interval_ms min_heartbeat_interval_ms)

-- The largest `Duration`: 2^64 - 1 seconds and 999999999 nanoseconds.
abbrev pub exceeds_duration : ℕ → Bool
exceeds_duration n = not (ltb n (2 ^ 64 * 1_000_000_000))

abbrev pub max_duration : Duration
max_duration = 18_446_744_073_709_551_615_999_999_999

-- `SessionConfig::termination_timeout`, with `saturating_mul`.
unfoldable pub termination_timeout : SessionConfig → Duration
termination_timeout config = elim config.explicit_termination_timeout [
  | some d ↦ d
  | none ↦
      let d = local_heartbeat_interval config * 4 in if exceeds_duration d then max_duration else d
]

-- Behind the two `?` of `heartbeat_reset_action`: `d.checked_mul(2)`.
unfoldable pub reset_action : TimerId → Duration → Option FsmAction
reset_action timer_id d =
    if ltb d (from_millis min_heartbeat_interval_ms)
    then none
    else if exceeds_duration (d * 2)
    then none
    else some (reset_heartbeat timer_id (d * 2))

unfoldable pub heartbeat_reset_action : TimerId → Option Duration → Option FsmAction
heartbeat_reset_action timer_id none = none
heartbeat_reset_action timer_id (some d) = reset_action timer_id d

-- `.map_err(|_| CommandError::InvalidInput)?` and `Ok(())`.
abbrev pub or_invalid : {E A : Type 0} → Result E A → Result CommandError (Unit {0})
or_invalid (ok a) = ok tt
or_invalid (err e) = err invalid_input
or_invalid panic = panic

-- The state that `apply_local_address_update` changes.
pub record Shared : Type 0 where
  pub tx : TransactionTracker
  pub locals : DestinationAddrs

abbrev pub reject : CommandError → List FsmAction
reject reason =
    emit (
      command_rejected (record {
        command = record { kind = CommandKind.session_addresses; destination = none };
        reason = reason;
      }))
    ∷ []

module _ ⦃ip : Ipnet⦄ where
  unfoldable pub extract_destination_addrs : Message → DestinationAddrs
  extract_destination_addrs msg = apply_lenient (from_message msg) no_addrs

  -- The message of a local update, from the set as it is and the changes that the application asks
  -- for: only effective changes.
  unfoldable pub effective_changes : DestinationAddrs → AddressChanges → AddressChanges
  effective_changes locals changes = between locals (apply_lenient changes locals)

  unfoldable pub update_message : DestinationAddrs → AddressChanges → Message
  update_message locals changes =
      append_to (effective_changes locals changes) (new_message msg_session_update)

  unfoldable pub validate_local_address_update :
      DestinationAddrs → AddressChanges → Result CommandError (Unit {0})
  validate_local_address_update locals changes =
      or_invalid (validate changes) >> or_invalid (encode_message (update_message locals changes))

  -- What follows `tx.open_session(…)`, with its `expect("checked transaction")`.
  unfoldable pub sent :
      Shared
      → AddressChanges
      → Result PendingRequest (Unit {0}) × TransactionTracker
      → Result CommandError (List FsmAction) × Shared
  sent s changes (err existing, tx) = (panic, record s { tx = tx })
  sent s changes (panic, tx) = (panic, record s { tx = tx })
  sent s changes (ok u, tx) = (
    ok (send_message (update_message s.locals changes) ∷ []),
    record { tx = tx; locals = apply_lenient changes s.locals },
  )

  unfoldable pub send_update :
      Shared → AddressChanges → Result CommandError (List FsmAction) × Shared
  send_update s changes = sent s changes (open_session s.tx RequestKind.session_update)

  -- What follows the checks of `apply_local_address_update`.
  unfoldable pub act :
      Shared
      → AddressChanges
      → Result CommandError (Unit {0})
      → Result CommandError (List FsmAction) × Shared
  act s changes (err reason) = (ok (reject reason), s)
  act s changes panic = (panic, s)
  act s changes (ok u) =
      if changes_empty (effective_changes s.locals changes)
      then (ok [], s)
      else send_update s changes

  -- A rejection is an action; the result is a panic or the actions.
  unfoldable pub apply_local_address_update :
      Shared → AddressChanges → Result CommandError (List FsmAction) × Shared
  apply_local_address_update s changes =
      act s changes
        (if session_busy s.tx then err busy else validate_local_address_update s.locals changes)
