-- ===== src/Fsm/Router/Handlers.antt =====
-- The arms of `RouterSessionFsm::step` for received messages, crates/dlep-fsm/src/session_router.rs.
use dlep.Base.{◌==◌, true, not, if◌then◌else◌, [], ◌∷◌, ◌++◌, get, insert, nat_eq}
use dlep.Core.Ids.{
  msg_session_termination, msg_destination_up, msg_destination_update, msg_destination_down,
  msg_destination_down_response, msg_session_update, msg_session_update_response,
  msg_destination_announce_response, msg_link_characteristics_response, msg_heartbeat,
}
use dlep.Core.Ipnet.{Ipnet}
use dlep.Core.Mac.{MacAddress, mac_eq}
use dlep.Core.Utf8.{Text}
use dlep.Core.Status.{success, unexpected_message}
use dlep.Core.Item.{DataItem, Message}
use dlep.Fsm.Transaction.{close_destination}
use dlep.Fsm.Addresses.{
  DestinationAddrs, no_addrs, changes_empty, from_message, apply_lenient, apply_strict, between,
}
use dlep.Fsm.Validation.Transactions.{extract_destination_mac}
use dlep.Fsm.Events.{
  TimerKind, send_message, start_timer, cancel_timer, emit, session_up, destination_up,
  destination_update, destination_addresses_update, session_metrics_update,
}
use dlep.Fsm.Common.{local_heartbeat_interval}
use dlep.Fsm.Common.Builders.{
  merge_link_metrics, extract_status, extract_heartbeat_interval, extract_extensions_supported,
  build_destination_up_response, build_session_update_response,
}
use dlep.Fsm.Session.{
  when_found, Run, ran, expecting, expecting_ok, unwrap_or, reset_actions, timer_session_init,
  timer_heartbeat, first_addresses, changed_addresses,
}
use dlep.Fsm.Router.{
  RouterSessionState, RouterSessionFsm, DestinationState, metric_types, protocol_error,
  destination_address_changes,
}
use dlep.Fsm.Router.Basic.{
  refresh, merge_all, on_termination, on_destination_down, on_destination_down_response,
  on_session_update_response, is_success, on_characteristics_response,
}

-- "initialization did not succeed".
abbrev pub init_failed_text : Text
init_failed_text =
    b'i' ∷ b'n' ∷ b'i' ∷ b't' ∷ b'i' ∷ b'a' ∷ b'l' ∷ b'i' ∷ b'z' ∷ b'a' ∷ b't' ∷ b'i' ∷ b'o' ∷ b'n'
    ∷ b' ' ∷ b'd' ∷ b'i' ∷ b'd' ∷ b' ' ∷ b'n' ∷ b'o' ∷ b't' ∷ b' ' ∷ b's' ∷ b'u' ∷ b'c' ∷ b'c'
    ∷ b'e' ∷ b'e' ∷ b'd' ∷ []

module _ ⦃ip : Ipnet⦄ where
  unfoldable pub on_initialized : RouterSessionFsm → Message → Run RouterSessionFsm
  on_initialized fsm msg =
      let peer = (from_message msg).added in
      let metrics = (merge_link_metrics msg fsm.session_metrics).1 in
      let interval = extract_heartbeat_interval msg in
      let extensions = unwrap_or (extract_extensions_supported msg) [] in
      ran
        (cancel_timer timer_session_init
          ∷ start_timer timer_heartbeat TimerKind.heartbeat (local_heartbeat_interval fsm.config)
              true
          ∷ (reset_actions interval
              ++ (emit (session_up extensions)
                  ∷ emit (session_metrics_update metrics)
                  ∷ first_addresses peer)))
        (record fsm {
          state = RouterSessionState.in_session;
          session_metrics = metrics;
          session_metric_types = metric_types msg.data_items;
          peer_addresses = peer;
          peer_heartbeat_interval = interval;
          peer_extensions = extensions;
        })

  unfoldable pub on_initialization_response : RouterSessionFsm → Message → Run RouterSessionFsm
  on_initialization_response fsm msg =
      if not (unwrap_or (extract_status msg) success == success)
      then protocol_error fsm (DataItem.status unexpected_message init_failed_text)
      else on_initialized fsm msg

  -- The destination that a Destination Up or the response to an announcement reports.
  unfoldable pub reported_destination : RouterSessionFsm → MacAddress → Message → DestinationState
  reported_destination fsm mac msg = record {
    up = true;
    metrics = (merge_link_metrics msg fsm.session_metrics).1;
    addrs = apply_lenient (destination_address_changes fsm mac msg) no_addrs;
  }

  unfoldable pub destination_upped : RouterSessionFsm → Message → MacAddress → Run RouterSessionFsm
  destination_upped fsm msg mac =
      let d = reported_destination fsm mac msg in
      ran
        (send_message (build_destination_up_response mac success)
          ∷ emit (destination_up mac d.metrics d.addrs)
          ∷ reset_actions fsm.peer_heartbeat_interval)
        (record fsm { destinations = insert fsm.destinations mac d })

  unfoldable pub on_destination_up : RouterSessionFsm → Message → Run RouterSessionFsm
  on_destination_up fsm msg = expecting (extract_destination_mac msg) (destination_upped fsm msg)

  unfoldable pub destination_updated :
      RouterSessionFsm → Message → MacAddress → DestinationState → Run RouterSessionFsm
  destination_updated fsm msg mac d =
      let addrs = apply_lenient (destination_address_changes fsm mac msg) d.addrs in
      let changes = between d.addrs addrs in
      let merged = merge_link_metrics msg d.metrics in
      ran
        (when_found merged.0 (emit (destination_update mac merged.1))
          ++ (when_found (not (changes_empty changes))
                (emit (destination_addresses_update mac changes addrs))
              ++ reset_actions fsm.peer_heartbeat_interval))
        (record fsm {
          destinations =
              insert fsm.destinations mac (record d { metrics = merged.1; addrs = addrs });
        })

  unfoldable pub on_destination_update : RouterSessionFsm → Message → Run RouterSessionFsm
  on_destination_update fsm msg =
      expecting (extract_destination_mac msg)
        λ mac. expecting (get fsm.destinations mac) (destination_updated fsm msg mac)

  unfoldable pub session_updated :
      RouterSessionFsm → Message → DestinationAddrs → Run RouterSessionFsm
  session_updated fsm msg addresses =
      let merged = merge_link_metrics msg fsm.session_metrics in
      ran
        (send_message (build_session_update_response success)
          ∷ (changed_addresses (from_message msg) addresses
              ++ (when_found merged.0 (emit (session_metrics_update merged.1))
                  ++ reset_actions fsm.peer_heartbeat_interval)))
        (record fsm {
          peer_addresses = addresses;
          session_metrics = merged.1;
          destinations = if merged.0 then merge_all msg fsm.destinations else fsm.destinations;
        })

  unfoldable pub on_session_update : RouterSessionFsm → Message → Run RouterSessionFsm
  on_session_update fsm msg =
      let applied = apply_strict (from_message msg) fsm.peer_addresses in
      expecting_ok applied.0 (session_updated fsm msg applied.1)

  unfoldable pub announcement_answered :
      RouterSessionFsm → Message → MacAddress → Run RouterSessionFsm
  announcement_answered fsm msg mac =
      let d = reported_destination fsm mac msg in
      let freed = record fsm { tx = (close_destination fsm.tx mac).1 } in
      if is_success (extract_status msg)
      then ran
          (emit (destination_up mac d.metrics d.addrs) ∷ reset_actions fsm.peer_heartbeat_interval)
          (record freed { destinations = insert fsm.destinations mac d })
      else refresh freed

  unfoldable pub on_announce_response : RouterSessionFsm → Message → Run RouterSessionFsm
  on_announce_response fsm msg =
      expecting (extract_destination_mac msg) (announcement_answered fsm msg)

  -- The arms of `(InSession, RecvMessage(msg))`.
  unfoldable pub on_message : RouterSessionFsm → Message → Run RouterSessionFsm
  on_message fsm msg =
      let mt = msg.message_type in
      if mt == msg_session_termination
      then on_termination fsm msg
      else if mt == msg_destination_up
      then on_destination_up fsm msg
      else if mt == msg_destination_update
      then on_destination_update fsm msg
      else if mt == msg_destination_down
      then on_destination_down fsm msg
      else if mt == msg_destination_down_response
      then on_destination_down_response fsm msg
      else if mt == msg_session_update
      then on_session_update fsm msg
      else if mt == msg_session_update_response
      then on_session_update_response fsm msg
      else if mt == msg_destination_announce_response
      then on_announce_response fsm msg
      else if mt == msg_link_characteristics_response
      then on_characteristics_response fsm msg
      else if mt == msg_heartbeat
      then refresh fsm
      else protocol_error fsm (DataItem.status unexpected_message [])
