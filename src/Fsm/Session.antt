-- ===== src/Fsm/Session.antt =====
-- What crates/dlep-fsm/src/session_router.rs and session_modem.rs share: the timers, and the parts of
-- their handlers that both files write alike.
pub mod Lifecycle
pub mod Actions
pub mod Machine
pub mod Received
pub mod Safe
pub mod Steps
pub mod Ending
use dlep.Base.{
  ℕ, Bool, true, false, not, if◌then◌else◌, List, [], ◌∷◌, ◌++◌, Option, none, some, Result, ok,
  err, panic,
}
use dlep.Core.Ids.{msg_session_termination}
use dlep.Core.Metrics.{Duration}
use dlep.Core.Status.{StatusCode, terminates_session}
use dlep.Core.Item.{DataItem, Message, new_message, with_item}
use dlep.Fsm.Addresses.{DestinationAddrs, no_addrs, AddressChanges, addrs_empty, changes_empty}
use dlep.Fsm.Events.{
  TimerId, TimerKind, CommandInfo, CommandError, FsmAction, send_message, start_timer, cancel_timer,
  emit, command_rejected, session_addresses_update,
}
use dlep.Fsm.Common.{SessionConfig, termination_timeout, heartbeat_reset_action}
use dlep.Fsm.Common.Builders.{build_session_termination}

abbrev pub timer_session_init : TimerId
timer_session_init = 1

abbrev pub timer_termination : TimerId
timer_termination = 2

abbrev pub timer_heartbeat : TimerId
timer_heartbeat = 3

abbrev pub timer_heartbeat_missed : TimerId
timer_heartbeat_missed = 4

-- What a step comes to: the actions and the machine, or a panic.
pub data Run (F : Type 0) : Type 0 where
  ran : (actions : List FsmAction) (fsm : F) → Run F
  panicked : Run F

-- `expect` on an option and on a result.
abbrev pub expecting : {A F : Type 0} → Option A → (A → Run F) → Run F
expecting none k = panicked
expecting (some a) k = k a

abbrev pub expecting_ok : {E F : Type 0} → Result E (Unit {0}) → Run F → Run F
expecting_ok (ok u) r = r
expecting_ok (err e) r = panicked
expecting_ok panic r = panicked

abbrev pub unwrap_or : {A : Type 0} → Option A → A → A
unwrap_or none a = a
unwrap_or (some b) a = b

-- `IntoIterator` of an option.
abbrev pub into_list : {A : Type 0} → Option A → List A
into_list none = []
into_list (some a) = a ∷ []

-- `heartbeat_reset_action(TIMER_HEARTBEAT_MISSED, …)`, pushed if there is one.
unfoldable pub reset_actions : Option Duration → List FsmAction
reset_actions interval = into_list (heartbeat_reset_action timer_heartbeat_missed interval)

-- The answer to a command that the check refuses.
abbrev pub rejection : CommandInfo → CommandError → List FsmAction
rejection command reason =
    emit (command_rejected (record { command = command; reason = reason })) ∷ []

abbrev pub is_fatal : DataItem → Bool
is_fatal (DataItem.status code text) = terminates_session code
is_fatal _ = false

-- The first status item that terminates the session.
unfoldable pub fatal_status : List DataItem → Option DataItem
fatal_status [] = none
fatal_status (item ∷ items) =
    let rest = fatal_status items in if is_fatal item then some item else rest

-- The timer that waits for the response to a Session Termination.
abbrev pub await_termination : SessionConfig → FsmAction
await_termination config =
    start_timer timer_termination TimerKind.termination (termination_timeout config) false

-- The actions of `protocol_error` in a state that sends a Session Termination.
unfoldable pub error_actions : SessionConfig → DataItem → List FsmAction
error_actions config item =
    cancel_timer timer_session_init
    ∷ cancel_timer timer_heartbeat
    ∷ cancel_timer timer_heartbeat_missed
    ∷ send_message (with_item (new_message msg_session_termination) item)
    ∷ await_termination config
    ∷ []

-- The actions of a shutdown in session, and of a deadline that the peer's heartbeats missed.
unfoldable pub shutdown_actions : SessionConfig → StatusCode → List FsmAction
shutdown_actions config reason =
    cancel_timer timer_heartbeat
    ∷ cancel_timer timer_heartbeat_missed
    ∷ send_message (build_session_termination reason)
    ∷ await_termination config
    ∷ []

unfoldable pub missed_actions : SessionConfig → StatusCode → List FsmAction
missed_actions config reason =
    cancel_timer timer_heartbeat
    ∷ send_message (build_session_termination reason)
    ∷ await_termination config
    ∷ []

-- An event under a condition.
unfoldable pub when_found : Bool → FsmAction → List FsmAction
when_found found action = if found then action ∷ [] else []

-- The event of the peer's addresses at the start of a session.
unfoldable pub first_addresses : DestinationAddrs → List FsmAction
first_addresses addresses =
    if not (addrs_empty addresses)
    then emit
        (session_addresses_update (record { added = addresses; removed = no_addrs }) addresses)
      ∷ []
    else []

-- The event of changes to the peer's addresses.
unfoldable pub changed_addresses : AddressChanges → DestinationAddrs → List FsmAction
changed_addresses changes addresses =
    if not (changes_empty changes)
    then emit (session_addresses_update changes addresses) ∷ []
    else []
