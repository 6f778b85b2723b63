-- ===== src/Fsm/Router/Step.antt =====
-- `RouterSessionFsm::step` of crates/dlep-fsm/src/session_router.rs.
use dlep.Base.{
  ◌==◌, false, not, ◌||◌, if◌then◌else◌, List, [], ◌∷◌, Option, none, some, Result, ok, err, panic,
}
use dlep.Core.Ids.{
  msg_session_initialization_response, msg_session_termination, msg_session_termination_response,
}
use dlep.Core.Ipnet.{Ipnet}
use dlep.Core.Mac.{MacAddress}
use dlep.Core.Status.{StatusCode, success, invalid_data, timed_out}
use dlep.Core.Item.{DataItem, Message}
use dlep.Fsm.Transaction.{RequestKind, PendingRequest, TransactionTracker, open_destination}
use dlep.Fsm.Events.{
  TimerKind, CommandInfo, CommandError, FsmEvent, recv_message, recv_extension_message,
  protocol_error, tcp_connected, tcp_closed, timer_expired, app_drop_destination,
  app_session_addresses, app_announce_destination, app_request_link_characteristics, app_shutdown,
  FsmAction, send_message, start_timer, cancel_timer, close_tcp, emit, session_down, command_of,
}
use dlep.Fsm.Common.{Shared, apply_local_address_update}
use dlep.Fsm.Common.Builders.{
  build_heartbeat, build_destination_down, build_destination_announce,
  build_link_characteristics_request,
}
use dlep.Fsm.Session.{
  Run, ran, panicked, rejection, fatal_status, shutdown_actions, missed_actions, timer_session_init,
  timer_termination, timer_heartbeat, timer_heartbeat_missed,
}
use dlep.Fsm.Router.{RouterSessionState, RouterSessionFsm, build_session_initialization}
use dlep.Fsm.Router.Checks.{check_command, check_received, is_in_session, is_initializing}
use dlep.Fsm.Router.Handlers.{on_initialization_response, on_message}
use dlep.Fsm.Router.Basic.{terminate, refresh}

unfoldable pub when_closed : RouterSessionFsm → FsmEvent → Run RouterSessionFsm
when_closed fsm tcp_connected =
    ran
      (send_message (build_session_initialization fsm.config)
        ∷ start_timer timer_session_init TimerKind.session_init fsm.config.session_init_timeout
            false
        ∷ [])
      (record fsm { state = RouterSessionState.session_init_pending })
when_closed fsm (app_shutdown reason) = terminate fsm []
when_closed fsm tcp_closed = terminate fsm []
when_closed fsm _ = ran [] fsm

unfoldable pub when_terminating : RouterSessionFsm → FsmEvent → Run RouterSessionFsm
when_terminating fsm (recv_message msg) =
    if msg.message_type == msg_session_termination_response
    then terminate fsm (
        cancel_timer timer_termination
        ∷ close_tcp
        ∷ emit (session_down fsm.termination_reason)
        ∷ [])
    else ran [] fsm
when_terminating fsm (timer_expired id TimerKind.termination) =
    terminate fsm (close_tcp ∷ emit (session_down timed_out) ∷ [])
when_terminating fsm tcp_closed =
    terminate fsm (cancel_timer timer_termination ∷ emit (session_down fsm.termination_reason) ∷ [])
when_terminating fsm _ = ran [] fsm

-- `open_destination(…)` with its `expect`, and one message.
unfoldable pub requested :
    RouterSessionFsm
    → Message
    → Result PendingRequest (Unit {0}) × TransactionTracker
    → Run RouterSessionFsm
requested fsm msg (ok u, tx) = ran (send_message msg ∷ []) (record fsm { tx = tx })
requested fsm msg (err existing, tx) = panicked
requested fsm msg (panic, tx) = panicked

unfoldable pub request_destination :
    RouterSessionFsm → MacAddress → RequestKind → Message → Run RouterSessionFsm
request_destination fsm mac kind msg = requested fsm msg (open_destination fsm.tx mac kind)

-- The tracker and the local addresses after `apply_local_address_update`.
unfoldable pub locally_updated :
    RouterSessionFsm → Result CommandError (List FsmAction) × Shared → Run RouterSessionFsm
locally_updated fsm (ok actions, s) =
    ran actions (record fsm { tx = s.tx; local_addresses = s.locals })
locally_updated fsm (err e, s) = panicked
locally_updated fsm (panic, s) = panicked

module _ ⦃ip : Ipnet⦄ where
  unfoldable pub when_pending : RouterSessionFsm → FsmEvent → Run RouterSessionFsm
  when_pending fsm (recv_message msg) =
      if msg.message_type == msg_session_initialization_response
      then on_initialization_response fsm msg
      else terminate fsm
          (cancel_timer timer_session_init ∷ close_tcp ∷ emit (session_down invalid_data) ∷ [])
  when_pending fsm (timer_expired id TimerKind.session_init) =
      terminate fsm (close_tcp ∷ emit (session_down timed_out) ∷ [])
  when_pending fsm tcp_closed = terminate fsm (emit (session_down timed_out) ∷ [])
  when_pending fsm (app_shutdown reason) =
      terminate fsm (cancel_timer timer_session_init ∷ close_tcp ∷ emit (session_down reason) ∷ [])
  when_pending fsm _ = ran [] fsm

  unfoldable pub when_in_session : RouterSessionFsm → FsmEvent → Run RouterSessionFsm
  when_in_session fsm (recv_message msg) = on_message fsm msg
  when_in_session fsm (app_drop_destination mac reason) =
      request_destination fsm mac RequestKind.destination_down (build_destination_down mac success)
  when_in_session fsm (app_request_link_characteristics mac wanted) =
      request_destination fsm mac RequestKind.link_characteristics
        (build_link_characteristics_request mac wanted)
  when_in_session fsm (app_announce_destination mac) =
      request_destination fsm mac RequestKind.destination_announce (build_destination_announce mac)
  when_in_session fsm (app_session_addresses changes) =
      locally_updated fsm
        (apply_local_address_update (record { tx = fsm.tx; locals = fsm.local_addresses }) changes)
  when_in_session fsm recv_extension_message = refresh fsm
  when_in_session fsm (timer_expired id TimerKind.heartbeat) =
      ran (send_message build_heartbeat ∷ []) fsm
  when_in_session fsm (timer_expired id TimerKind.heartbeat_missed) =
      ran (missed_actions fsm.config timed_out)
        (record fsm { state = RouterSessionState.terminating; termination_reason = timed_out })
  when_in_session fsm (app_shutdown reason) =
      ran (shutdown_actions fsm.config reason)
        (record fsm { state = RouterSessionState.terminating; termination_reason = reason })
  when_in_session fsm tcp_closed = terminate fsm (
      cancel_timer timer_heartbeat
      ∷ cancel_timer timer_heartbeat_missed
      ∷ emit (session_down timed_out)
      ∷ [])
  when_in_session fsm _ = ran [] fsm

  -- `match (self.state, event)`.
  unfoldable pub handle_in : RouterSessionState → RouterSessionFsm → FsmEvent → Run RouterSessionFsm
  handle_in RouterSessionState.closed fsm event = when_closed fsm event
  handle_in RouterSessionState.session_init_pending fsm event = when_pending fsm event
  handle_in RouterSessionState.in_session fsm event = when_in_session fsm event
  handle_in RouterSessionState.terminating fsm event = when_terminating fsm event
  handle_in RouterSessionState.terminated fsm event = ran [] fsm

  unfoldable pub handle : RouterSessionFsm → FsmEvent → Run RouterSessionFsm
  handle fsm event = handle_in fsm.state fsm event

  -- What follows the checks of a received message.
  unfoldable pub checked :
      RouterSessionFsm → Message → Result StatusCode (Unit {0}) → Run RouterSessionFsm
  checked fsm msg (ok u) = handle fsm (recv_message msg)
  checked fsm msg (err code) = dlep.Fsm.Router.protocol_error fsm (DataItem.status code [])
  checked fsm msg panic = panicked

  -- A status that terminates the session comes before the checks.
  unfoldable pub screened : RouterSessionFsm → Message → Option DataItem → Run RouterSessionFsm
  screened fsm msg (some item) = dlep.Fsm.Router.protocol_error fsm item
  screened fsm msg none = checked fsm msg (check_received fsm msg)

  unfoldable pub received : RouterSessionFsm → Message → Run RouterSessionFsm
  received fsm msg =
      if is_initializing fsm.state || is_in_session fsm.state
      then screened fsm msg (
          if not (msg.message_type == msg_session_termination)
          then fatal_status msg.data_items
          else none)
      else handle fsm (recv_message msg)

  unfoldable pub commanded :
      RouterSessionFsm
      → FsmEvent
      → CommandInfo
      → Result CommandError (Unit {0})
      → Run RouterSessionFsm
  commanded fsm event command (ok u) = handle fsm event
  commanded fsm event command (err reason) = ran (rejection command reason) fsm
  commanded fsm event command panic = panicked

  -- An event that is no command.
  unfoldable pub uncommanded : RouterSessionFsm → FsmEvent → Run RouterSessionFsm
  uncommanded fsm (recv_message msg) = received fsm msg
  uncommanded fsm (protocol_error code) =
      dlep.Fsm.Router.protocol_error fsm (DataItem.status code [])
  uncommanded fsm event = handle fsm event

  unfoldable pub stepped : RouterSessionFsm → FsmEvent → Option CommandInfo → Run RouterSessionFsm
  stepped fsm event none = uncommanded fsm event
  stepped fsm event (some command) = commanded fsm event command (check_command fsm event)

  unfoldable pub step : RouterSessionFsm → FsmEvent → Run RouterSessionFsm
  step fsm event = stepped fsm event (command_of event)
