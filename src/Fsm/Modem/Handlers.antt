-- ===== src/Fsm/Modem/Handlers.antt =====
-- The arms of `ModemSessionFsm::step` for received messages, crates/dlep-fsm/src/session_modem.rs.
use dlep.Base.{
  ◌==◌, true, false, not, ◌||◌, if◌then◌else◌, [], ◌∷◌, ◌++◌, Option, none, some, get, insert,
  nat_eq,
}
use dlep.Core.Ids.{
  msg_session_termination, msg_destination_up_response, msg_destination_down,
  msg_destination_down_response, msg_session_update, msg_session_update_response,
  msg_destination_announce, msg_link_characteristics_request, msg_heartbeat,
}
use dlep.Core.Ipnet.{Ipnet}
use dlep.Core.Mac.{MacAddress, mac_eq}
use dlep.Core.Status.{StatusCode, success, unexpected_message}
use dlep.Core.Item.{DataItem, Message}
use dlep.Fsm.Transaction.{close_destination}
use dlep.Fsm.Addresses.{
  DestinationAddrs, changes_empty, from_message, apply_strict, between, append_to,
}
use dlep.Fsm.Validation.Transactions.{extract_destination_mac}
use dlep.Fsm.Events.{
  TimerKind, send_message, start_timer, cancel_timer, emit, session_up, destination_announced,
}
use dlep.Fsm.Common.{local_heartbeat_interval}
use dlep.Fsm.Common.Builders.{
  extract_status, extract_heartbeat_interval, extract_extensions_supported,
  build_destination_update, build_session_update_response,
}
use dlep.Fsm.Session.{
  Run, ran, expecting, expecting_ok, unwrap_or, reset_actions, timer_session_init, timer_heartbeat,
  first_addresses, changed_addresses,
}
use dlep.Fsm.Modem.{
  ModemSessionState, ModemSessionFsm, DestinationState, protocol_error,
  build_session_initialization_response,
}
use dlep.Fsm.Modem.Basic.{
  refresh, bare_update, on_termination, on_destination_down, on_destination_down_response,
  on_session_update_response, answer_announcement, note_announced, on_characteristics_request,
}

module _ ⦃ip : Ipnet⦄ where
  unfoldable pub on_initialization : ModemSessionFsm → Message → Run ModemSessionFsm
  on_initialization fsm msg =
      let peer = (from_message msg).added in
      let interval = extract_heartbeat_interval msg in
      let extensions = unwrap_or (extract_extensions_supported msg) [] in
      ran
        (cancel_timer timer_session_init
          ∷ send_message (build_session_initialization_response fsm.config)
          ∷ start_timer timer_heartbeat TimerKind.heartbeat (local_heartbeat_interval fsm.config)
              true
          ∷ (reset_actions interval ++ (emit (session_up extensions) ∷ first_addresses peer)))
        (record fsm {
          state = ModemSessionState.in_session;
          peer_addresses = peer;
          peer_heartbeat_interval = interval;
          peer_extensions = extensions;
        })

  -- The router accepted the destination: what changed since it was announced is sent now.
  unfoldable pub announced_now :
      ModemSessionFsm → MacAddress → DestinationState → Run ModemSessionFsm
  announced_now fsm mac d =
      let changes = between d.advertised_addrs d.addrs in
      if d.pending_metrics || not (changes_empty changes)
      then ran
          (send_message (
              append_to changes (
                if d.pending_metrics
                then build_destination_update mac d.metrics
                else bare_update mac))
            ∷ reset_actions fsm.peer_heartbeat_interval)
          (record fsm {
            destinations = insert fsm.destinations mac (record d {
              announced = true;
              pending_metrics = false;
              advertised_addrs = d.addrs;
            });
          })
      else refresh (record fsm {
        destinations = insert fsm.destinations mac (record d { announced = true });
      })

  unfoldable pub up_answered :
      ModemSessionFsm → MacAddress → StatusCode → Option DestinationState → Run ModemSessionFsm
  up_answered fsm mac code none = refresh fsm
  up_answered fsm mac code (some d) =
      if code == success
      then announced_now fsm mac d
      else refresh (record fsm {
        destinations = insert fsm.destinations mac (record d { announced = false });
      })

  unfoldable pub up_answered_for :
      ModemSessionFsm → StatusCode → Option MacAddress → Run ModemSessionFsm
  up_answered_for fsm code none = refresh fsm
  up_answered_for fsm code (some mac) =
      up_answered (record fsm { tx = (close_destination fsm.tx mac).1 }) mac code
        (get fsm.destinations mac)

  unfoldable pub on_destination_up_response : ModemSessionFsm → Message → Run ModemSessionFsm
  on_destination_up_response fsm msg =
      up_answered_for fsm (unwrap_or (extract_status msg) success) (extract_destination_mac msg)

  unfoldable pub session_updated :
      ModemSessionFsm → Message → DestinationAddrs → Run ModemSessionFsm
  session_updated fsm msg addresses =
      ran
        (send_message (build_session_update_response success)
          ∷ (changed_addresses (from_message msg) addresses
              ++ reset_actions fsm.peer_heartbeat_interval))
        (record fsm { peer_addresses = addresses })

  unfoldable pub on_session_update : ModemSessionFsm → Message → Run ModemSessionFsm
  on_session_update fsm msg =
      let applied = apply_strict (from_message msg) fsm.peer_addresses in
      expecting_ok applied.0 (session_updated fsm msg applied.1)

  unfoldable pub announced : ModemSessionFsm → Message → MacAddress → Run ModemSessionFsm
  announced fsm msg mac =
      let d = get fsm.destinations mac in
      ran
        (send_message (answer_announcement mac d)
          ∷ emit (destination_announced mac (from_message msg))
          ∷ reset_actions fsm.peer_heartbeat_interval)
        (note_announced fsm mac d)

  unfoldable pub on_announce : ModemSessionFsm → Message → Run ModemSessionFsm
  on_announce fsm msg = expecting (extract_destination_mac msg) (announced fsm msg)

  -- The arms of `(InSession, RecvMessage(msg))`.
  unfoldable pub on_message : ModemSessionFsm → Message → Run ModemSessionFsm
  on_message fsm msg =
      let mt = msg.message_type in
      if mt == msg_session_termination
      then on_termination fsm msg
      else if mt == msg_destination_up_response
      then on_destination_up_response fsm msg
      else if mt == msg_destination_down
      then on_destination_down fsm msg
      else if mt == msg_destination_down_response
      then on_destination_down_response fsm msg
      else if mt == msg_session_update
      then on_session_update fsm msg
      else if mt == msg_session_update_response
      then on_session_update_response fsm msg
      else if mt == msg_destination_announce
      then on_announce fsm msg
      else if mt == msg_link_characteristics_request
      then on_characteristics_request fsm msg
      else if mt == msg_heartbeat
      then refresh fsm
      else protocol_error fsm (DataItem.status unexpected_message [])
