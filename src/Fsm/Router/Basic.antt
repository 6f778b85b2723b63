-- ===== src/Fsm/Router/Basic.antt =====
-- The arms of crates/dlep-fsm/src/session_router.rs for messages in session that read no addresses.
use dlep.Base.{
  ◌==◌, Bool, false, List, [], ◌∷◌, Option, none, some, Map, get, insert, remove, map_values,
  nat_eq,
}
use dlep.Core.Mac.{MacAddress, mac_eq}
use dlep.Core.Metrics.{LinkMetrics}
use dlep.Core.Utf8.{Text}
use dlep.Core.Status.{StatusCode, success, shutting_down}
use dlep.Core.Item.{DataItem, Message}
use dlep.Fsm.Transaction.{close_destination, close_session}
use dlep.Fsm.Validation.Transactions.{extract_destination_mac}
use dlep.Fsm.Events.{
  FsmAction, send_message, cancel_timer, close_tcp, emit, session_down, destination_down,
  link_characteristics_response,
}
use dlep.Fsm.Common.Builders.{
  merge_link_metrics, extract_status, build_session_termination_response,
  build_destination_down_response, find_map,
}
use dlep.Fsm.Session.{
  Run, ran, expecting, unwrap_or, reset_actions, timer_heartbeat, timer_heartbeat_missed,
}
use dlep.Fsm.Router.{RouterSessionState, RouterSessionFsm, DestinationState}

-- Ends the session in the state Terminated.
abbrev pub terminate : RouterSessionFsm → List FsmAction → Run RouterSessionFsm
terminate fsm actions = ran actions (record fsm { state = RouterSessionState.terminated })

-- What keeps the session alive, and nothing else.
abbrev pub refresh : RouterSessionFsm → Run RouterSessionFsm
refresh fsm = ran (reset_actions fsm.peer_heartbeat_interval) fsm

abbrev pub status_text : DataItem → Option (StatusCode × Text)
status_text (DataItem.status code text) = some (code, text)
status_text _ = none

-- `for destination in self.destinations.values_mut()`.
unfoldable pub merge_all :
    Message → Map MacAddress DestinationState → Map MacAddress DestinationState
merge_all msg destinations =
    map_values (λ d. record d { metrics = (merge_link_metrics msg d.metrics).1 }) destinations

unfoldable pub on_termination : RouterSessionFsm → Message → Run RouterSessionFsm
on_termination fsm msg = terminate fsm (
    cancel_timer timer_heartbeat
    ∷ cancel_timer timer_heartbeat_missed
    ∷ send_message build_session_termination_response
    ∷ close_tcp
    ∷ emit (session_down (unwrap_or (extract_status msg) shutting_down))
    ∷ [])

unfoldable pub destination_downed : RouterSessionFsm → Message → MacAddress → Run RouterSessionFsm
destination_downed fsm msg mac =
    ran
      (send_message (build_destination_down_response mac success)
        ∷ emit (destination_down mac (unwrap_or (extract_status msg) success))
        ∷ reset_actions fsm.peer_heartbeat_interval)
      (record fsm { destinations = remove fsm.destinations mac })

unfoldable pub on_destination_down : RouterSessionFsm → Message → Run RouterSessionFsm
on_destination_down fsm msg = expecting (extract_destination_mac msg) (destination_downed fsm msg)

unfoldable pub destination_dropped :
    RouterSessionFsm → MacAddress → StatusCode → Run RouterSessionFsm
destination_dropped fsm mac reason =
    ran (emit (destination_down mac reason) ∷ reset_actions fsm.peer_heartbeat_interval)
      (record fsm {
        tx = (close_destination fsm.tx mac).1;
        destinations = remove fsm.destinations mac;
      })

unfoldable pub on_destination_down_response : RouterSessionFsm → Message → Run RouterSessionFsm
on_destination_down_response fsm msg =
    expecting (extract_destination_mac msg)
      λ mac. expecting (extract_status msg) (destination_dropped fsm mac)

unfoldable pub on_session_update_response : RouterSessionFsm → Message → Run RouterSessionFsm
on_session_update_response fsm msg = refresh (record fsm { tx = (close_session fsm.tx).1 })

-- `extract_status(&msg) == Some(StatusCode::SUCCESS)`.
abbrev pub is_success : Option StatusCode → Bool
is_success none = false
is_success (some code) = code == success

unfoldable pub characteristics_answered :
    RouterSessionFsm
    → MacAddress
    → DestinationState
    → LinkMetrics
    → StatusCode × Text
    → Run RouterSessionFsm
characteristics_answered fsm mac d metrics (code, text) =
    ran
      (emit (link_characteristics_response mac code text metrics)
        ∷ reset_actions fsm.peer_heartbeat_interval)
      (record fsm {
        tx = (close_destination fsm.tx mac).1;
        destinations = insert fsm.destinations mac (record d { metrics = metrics });
      })

unfoldable pub on_characteristics_response : RouterSessionFsm → Message → Run RouterSessionFsm
on_characteristics_response fsm msg = expecting (extract_destination_mac msg) λ mac.
    expecting (get fsm.destinations mac) λ d.
      expecting (find_map status_text msg.data_items)
        (characteristics_answered fsm mac d (merge_link_metrics msg d.metrics).1)
