-- ===== src/Fsm/Modem/Basic.antt =====
-- The arms of crates/dlep-fsm/src/session_modem.rs for messages in session that read no addresses.
use dlep.Base.{
  true, false, if◌then◌else◌, List, [], ◌∷◌, ◌++◌, Option, none, some, get, insert, remove,
  contains, nat_eq,
}
use dlep.Core.Ids.{msg_destination_update, msg_destination_announce_response}
use dlep.Core.Mac.{MacAddress, mac_eq}
use dlep.Core.Status.{success, request_denied, shutting_down}
use dlep.Core.Item.{DataItem, Message, new_message, with_item}
use dlep.Fsm.Transaction.{close_destination, close_session}
use dlep.Fsm.Validation.Transactions.{extract_destination_mac}
use dlep.Fsm.Events.{
  FsmAction, send_message, cancel_timer, close_tcp, emit, session_down, destination_down,
  link_characteristics_requested,
}
use dlep.Fsm.Common.Builders.{
  extract_status, extract_link_characteristics, build_session_termination_response,
  build_destination_up, build_destination_down_response, build_destination_announce_response,
  build_link_characteristics_response, status_item,
}
use dlep.Fsm.Session.{
  Run, ran, expecting, unwrap_or, reset_actions, timer_heartbeat, timer_heartbeat_missed,
}
use dlep.Fsm.Modem.{ModemSessionState, ModemSessionFsm, DestinationState}

-- Ends the session in the state Terminated.
abbrev pub terminate : ModemSessionFsm → List FsmAction → Run ModemSessionFsm
terminate fsm actions = ran actions (record fsm { state = ModemSessionState.terminated })

-- What keeps the session alive, and nothing else.
abbrev pub refresh : ModemSessionFsm → Run ModemSessionFsm
refresh fsm = ran (reset_actions fsm.peer_heartbeat_interval) fsm

-- A Destination Update without metrics.
abbrev pub bare_update : MacAddress → Message
bare_update mac = with_item (new_message msg_destination_update) (DataItem.mac_address mac)

-- `pending_link_requests.insert`.
unfoldable pub add_pending : List MacAddress → MacAddress → List MacAddress
add_pending pending mac = if contains pending mac then pending else mac ∷ pending

unfoldable pub on_termination : ModemSessionFsm → Message → Run ModemSessionFsm
on_termination fsm msg = terminate fsm (
    cancel_timer timer_heartbeat
    ∷ cancel_timer timer_heartbeat_missed
    ∷ send_message build_session_termination_response
    ∷ close_tcp
    ∷ emit (session_down (unwrap_or (extract_status msg) shutting_down))
    ∷ [])

unfoldable pub destination_downed :
    ModemSessionFsm → MacAddress → DestinationState → Run ModemSessionFsm
destination_downed fsm mac d =
    ran
      (send_message (build_destination_down_response mac success)
        ∷ emit (destination_down mac success)
        ∷ reset_actions fsm.peer_heartbeat_interval)
      (record fsm {
        destinations =
            insert fsm.destinations mac (record d { announced = false; pending_metrics = false });
      })

unfoldable pub on_destination_down : ModemSessionFsm → Message → Run ModemSessionFsm
on_destination_down fsm msg =
    expecting (extract_destination_mac msg)
      λ mac. expecting (get fsm.destinations mac) (destination_downed fsm mac)

unfoldable pub destination_dropped : ModemSessionFsm → Option MacAddress → Run ModemSessionFsm
destination_dropped fsm none = refresh fsm
destination_dropped fsm (some mac) = refresh (record fsm {
  tx = (close_destination fsm.tx mac).1;
  destinations = remove fsm.destinations mac;
})

unfoldable pub on_destination_down_response : ModemSessionFsm → Message → Run ModemSessionFsm
on_destination_down_response fsm msg = destination_dropped fsm (extract_destination_mac msg)

unfoldable pub on_session_update_response : ModemSessionFsm → Message → Run ModemSessionFsm
on_session_update_response fsm msg = refresh (record fsm { tx = (close_session fsm.tx).1 })

-- The response to an announcement of a destination that the modem knows.
unfoldable pub announcement_granted : MacAddress → DestinationState → Message
announcement_granted mac d =
    let message = build_destination_up mac d.metrics d.addrs in
    record {
      message_type = msg_destination_announce_response;
      data_items = message.data_items ++ (status_item success ∷ []);
    }

unfoldable pub answer_announcement : MacAddress → Option DestinationState → Message
answer_announcement mac none = build_destination_announce_response mac request_denied
answer_announcement mac (some d) = announcement_granted mac d

-- The destinations after an announcement.
unfoldable pub note_announced :
    ModemSessionFsm → MacAddress → Option DestinationState → ModemSessionFsm
note_announced fsm mac none = fsm
note_announced fsm mac (some d) = record fsm {
  destinations =
      insert fsm.destinations mac
        (record d { announced = true; pending_metrics = false; advertised_addrs = d.addrs });
}

unfoldable pub characteristics_requested :
    ModemSessionFsm → Message → MacAddress → DestinationState → Run ModemSessionFsm
characteristics_requested fsm msg mac d =
    let pending = fsm.config.defer_link_characteristics in
    ran
      ((if pending
          then []
          else send_message (build_link_characteristics_response mac request_denied d.metrics) ∷ [])
        ++ (emit (
              link_characteristics_requested mac (extract_link_characteristics msg) d.metrics
                pending)
            ∷ reset_actions fsm.peer_heartbeat_interval))
      (record fsm {
        pending_link_requests =
            if pending
            then add_pending fsm.pending_link_requests mac
            else fsm.pending_link_requests;
      })

unfoldable pub on_characteristics_request : ModemSessionFsm → Message → Run ModemSessionFsm
on_characteristics_request fsm msg =
    expecting (extract_destination_mac msg)
      λ mac. expecting (get fsm.destinations mac) (characteristics_requested fsm msg mac)
