-- ===== src/Fsm/Modem/Step.antt =====
-- `ModemSessionFsm::step` of crates/dlep-fsm/src/session_modem.rs.
use dlep.Base.{
  ◌==◌, false, not, ◌||◌, if◌then◌else◌, [], ◌∷◌, Option, none, some, Result, ok, err, panic, get,
}
use dlep.Core.Ids.{
  msg_session_initialization, msg_session_termination, msg_session_termination_response,
}
use dlep.Core.Ipnet.{Ipnet}
use dlep.Core.Mac.{mac_eq}
use dlep.Core.Status.{StatusCode, invalid_data, timed_out}
use dlep.Core.Item.{DataItem, Message}
use dlep.Fsm.Events.{
  TimerKind, CommandInfo, CommandError, FsmEvent, recv_message, recv_extension_message,
  protocol_error, tcp_accepted, tcp_closed, timer_expired, app_add_destination,
  app_drop_destination, app_update_metrics, app_update_addresses, app_session_addresses,
  app_session_update, app_link_characteristics_response, app_shutdown, send_message, start_timer,
  cancel_timer, close_tcp, emit, session_down, command_of,
}
use dlep.Fsm.Common.{apply_local_address_update}
use dlep.Fsm.Common.Builders.{build_heartbeat}
use dlep.Fsm.Session.{
  Run, ran, panicked, expecting, rejection, fatal_status, shutdown_actions, missed_actions,
  timer_session_init, timer_termination, timer_heartbeat, timer_heartbeat_missed,
}
use dlep.Fsm.Modem.{ModemSessionState, ModemSessionFsm}
use dlep.Fsm.Modem.Checks.{check_command, check_received, is_in_session, is_initializing}
use dlep.Fsm.Modem.Handlers.{on_initialization, on_message}
use dlep.Fsm.Modem.Basic.{terminate, refresh}
use dlep.Fsm.Modem.Commands.{
  drop_destination, update_metrics, update_session, locally_updated, reply_characteristics,
  add_destination, update_addresses,
}

unfoldable pub when_listening : ModemSessionFsm → FsmEvent → Run ModemSessionFsm
when_listening fsm tcp_accepted =
    ran
      (start_timer timer_session_init TimerKind.session_init fsm.config.session_init_timeout false
        ∷ [])
      (record fsm { state = ModemSessionState.awaiting_session_init })
when_listening fsm (app_shutdown reason) = terminate fsm []
when_listening fsm tcp_closed = terminate fsm []
when_listening fsm _ = ran [] fsm

unfoldable pub when_terminating : ModemSessionFsm → FsmEvent → Run ModemSessionFsm
when_terminating fsm (recv_message msg) =
    if msg.message_type == msg_session_termination_response
    then terminate fsm (
        cancel_timer timer_termination
        ∷ close_tcp
        ∷ emit (session_down fsm.termination_reason)
        ∷ [])
    else ran [] fsm
when_terminating fsm (timer_expired id TimerKind.termination) =
    terminate fsm (close_tcp ∷ emit (session_down timed_out) ∷ [])
when_terminating fsm tcp_closed =
    terminate fsm (cancel_timer timer_termination ∷ emit (session_down fsm.termination_reason) ∷ [])
when_terminating fsm _ = ran [] fsm

module _ ⦃ip : Ipnet⦄ where
  unfoldable pub when_awaiting : ModemSessionFsm → FsmEvent → Run ModemSessionFsm
  when_awaiting fsm (recv_message msg) =
      if msg.message_type == msg_session_initialization
      then on_initialization fsm msg
      else terminate fsm
          (cancel_timer timer_session_init ∷ close_tcp ∷ emit (session_down invalid_data) ∷ [])
  when_awaiting fsm (timer_expired id TimerKind.session_init) =
      terminate fsm (close_tcp ∷ emit (session_down timed_out) ∷ [])
  when_awaiting fsm tcp_closed =
      terminate fsm (cancel_timer timer_session_init ∷ emit (session_down timed_out) ∷ [])
  when_awaiting fsm (app_shutdown reason) =
      terminate fsm (cancel_timer timer_session_init ∷ close_tcp ∷ emit (session_down reason) ∷ [])
  when_awaiting fsm _ = ran [] fsm

  unfoldable pub when_in_session : ModemSessionFsm → FsmEvent → Run ModemSessionFsm
  when_in_session fsm (recv_message msg) = on_message fsm msg
  when_in_session fsm (app_add_destination mac metrics addrs) =
      add_destination fsm mac metrics addrs
  when_in_session fsm (app_update_metrics mac metrics) =
      expecting (get fsm.destinations mac) (update_metrics fsm mac metrics)
  when_in_session fsm (app_update_addresses mac changes) =
      expecting (get fsm.destinations mac) (update_addresses fsm mac changes)
  when_in_session fsm (app_drop_destination mac reason) =
      expecting (get fsm.destinations mac) (drop_destination fsm mac reason)
  when_in_session fsm (app_link_characteristics_response mac code text metrics) =
      expecting (get fsm.destinations mac) (reply_characteristics fsm mac code text metrics)
  when_in_session fsm (app_session_addresses changes) =
      locally_updated fsm
        (apply_local_address_update (record { tx = fsm.tx; locals = fsm.local_addresses }) changes)
  when_in_session fsm recv_extension_message = refresh fsm
  when_in_session fsm (timer_expired id TimerKind.heartbeat) =
      ran (send_message build_heartbeat ∷ []) fsm
  when_in_session fsm (timer_expired id TimerKind.heartbeat_missed) =
      ran (missed_actions fsm.config timed_out)
        (record fsm { state = ModemSessionState.terminating; termination_reason = timed_out })
  when_in_session fsm (app_session_update metrics) = update_session fsm metrics
  when_in_session fsm (app_shutdown reason) =
      ran (shutdown_actions fsm.config reason)
        (record fsm { state = ModemSessionState.terminating; termination_reason = reason })
  when_in_session fsm tcp_closed = terminate fsm (
      cancel_timer timer_heartbeat
      ∷ cancel_timer timer_heartbeat_missed
      ∷ emit (session_down timed_out)
      ∷ [])
  when_in_session fsm _ = ran [] fsm

  -- `match (self.state, event)`.
  unfoldable pub handle_in : ModemSessionState → ModemSessionFsm → FsmEvent → Run ModemSessionFsm
  handle_in ModemSessionState.listening fsm event = when_listening fsm event
  handle_in ModemSessionState.awaiting_session_init fsm event = when_awaiting fsm event
  handle_in ModemSessionState.in_session fsm event = when_in_session fsm event
  handle_in ModemSessionState.terminating fsm event = when_terminating fsm event
  handle_in ModemSessionState.terminated fsm event = ran [] fsm

  unfoldable pub handle : ModemSessionFsm → FsmEvent → Run ModemSessionFsm
  handle fsm event = handle_in fsm.state fsm event

  -- What follows the checks of a received message.
  unfoldable pub checked :
      ModemSessionFsm → Message → Result StatusCode (Unit {0}) → Run ModemSessionFsm
  checked fsm msg (ok u) = handle fsm (recv_message msg)
  checked fsm msg (err code) = dlep.Fsm.Modem.protocol_error fsm (DataItem.status code [])
  checked fsm msg panic = panicked

  -- A status that terminates the session comes before the checks.
  unfoldable pub screened : ModemSessionFsm → Message → Option DataItem → Run ModemSessionFsm
  screened fsm msg (some item) = dlep.Fsm.Modem.protocol_error fsm item
  screened fsm msg none = checked fsm msg (check_received fsm msg)

  unfoldable pub received : ModemSessionFsm → Message → Run ModemSessionFsm
  received fsm msg =
      if is_initializing fsm.state || is_in_session fsm.state
      then screened fsm msg (
          if not (msg.message_type == msg_session_termination)
          then fatal_status msg.data_items
          else none)
      else handle fsm (recv_message msg)

  unfoldable pub commanded :
      ModemSessionFsm
      → FsmEvent
      → CommandInfo
      → Result CommandError (Unit {0})
      → Run ModemSessionFsm
  commanded fsm event command (ok u) = handle fsm event
  commanded fsm event command (err reason) = ran (rejection command reason) fsm
  commanded fsm event command panic = panicked

  -- An event that is no command.
  unfoldable pub uncommanded : ModemSessionFsm → FsmEvent → Run ModemSessionFsm
  uncommanded fsm (recv_message msg) = received fsm msg
  uncommanded fsm (protocol_error code) =
      dlep.Fsm.Modem.protocol_error fsm (DataItem.status code [])
  uncommanded fsm event = handle fsm event

  unfoldable pub stepped : ModemSessionFsm → FsmEvent → Option CommandInfo → Run ModemSessionFsm
  stepped fsm event none = uncommanded fsm event
  stepped fsm event (some command) = commanded fsm event command (check_command fsm event)

  unfoldable pub step : ModemSessionFsm → FsmEvent → Run ModemSessionFsm
  step fsm event = stepped fsm event (command_of event)
