-- ===== src/Fsm/Modem.antt =====
-- crates/dlep-fsm/src/session_modem.rs. A method on `&mut self` returns the machine.
pub mod Checks
pub mod Basic
pub mod Handlers
pub mod Commands
pub mod Step
pub mod Sound
pub mod Messages
pub mod Requests
pub mod Legal
pub mod Accepted
pub mod Checked
pub mod Outside
pub mod Refines
pub mod Course
pub mod Refused
use dlep.Base.{Bool, false, List, [], ◌∷◌, Option, none, Map}
use dlep.Core.Ids.{ExtensionId, msg_session_initialization_response}
use dlep.Core.Mac.{MacAddress}
use dlep.Core.Metrics.{Duration, LinkMetrics}
use dlep.Core.Utf8.{Text}
use dlep.Core.Status.{StatusCode, success}
use dlep.Core.Item.{DataItem, Message, new_message, with_item}
use dlep.Fsm.Transaction.{TransactionTracker, no_transactions}
use dlep.Fsm.Addresses.{DestinationAddrs, no_addrs}
use dlep.Fsm.Events.{cancel_timer, close_tcp, emit, session_down}
use dlep.Fsm.Common.{SessionConfig, local_heartbeat_interval}
use dlep.Fsm.Common.Builders.{
  push_extensions_supported, push_metric_items, build_link_characteristics_response, status_item,
}
use dlep.Fsm.Session.{Run, ran, panicked, error_actions, timer_session_init}

pub data ModemSessionState : Type 0 where
  listening awaiting_session_init in_session terminating terminated : ModemSessionState

pub record DestinationState : Type 0 where
  pub announced : Bool
  pub pending_metrics : Bool
  pub metrics : LinkMetrics
  pub addrs : DestinationAddrs
  pub advertised_addrs : DestinationAddrs

pub record ModemSessionFsm : Type 0 where
  pub state : ModemSessionState
  pub tx : TransactionTracker
  pub destinations : Map MacAddress DestinationState
  pub peer_addresses : DestinationAddrs
  pub local_addresses : DestinationAddrs
  pub session_metrics : LinkMetrics
  pub config : SessionConfig
  pub termination_reason : StatusCode
  pub peer_heartbeat_interval : Option Duration
  pub peer_extensions : List ExtensionId
  pub pending_link_requests : List MacAddress

-- `ModemSessionFsm::with_config`.
abbrev pub with_config : SessionConfig → ModemSessionFsm
with_config config = record {
  state = listening;
  tx = no_transactions;
  destinations = [];
  peer_addresses = no_addrs;
  local_addresses = no_addrs;
  session_metrics = config.initial_metrics;
  config = config;
  termination_reason = success;
  peer_heartbeat_interval = none;
  peer_extensions = [];
  pending_link_requests = [];
}

-- `protocol_error`, with its `unreachable!()`.
unfoldable pub fail_with :
    ModemSessionState → ModemSessionFsm → StatusCode → DataItem → Run ModemSessionFsm
fail_with terminating fsm code item = ran [] fsm
fail_with terminated fsm code item = ran [] fsm
fail_with awaiting_session_init fsm code item =
    ran (cancel_timer timer_session_init ∷ close_tcp ∷ emit (session_down code) ∷ [])
      (record fsm { state = terminated })
fail_with _ fsm code item =
    ran (error_actions fsm.config item)
      (record fsm { state = terminating; termination_reason = code })

unfoldable pub protocol_error : ModemSessionFsm → DataItem → Run ModemSessionFsm
protocol_error fsm (DataItem.status code text) =
    fail_with fsm.state fsm code (DataItem.status code text)
protocol_error fsm _ = panicked

-- The loop of `build_link_characteristics_reply`: the first status item gets the text.
unfoldable pub set_text : Text → List DataItem → List DataItem
set_text text [] = []
set_text text (DataItem.status code slot ∷ items) = DataItem.status code text ∷ items
set_text text (item ∷ items) = item ∷ set_text text items

unfoldable pub build_link_characteristics_reply :
    MacAddress → StatusCode → Text → LinkMetrics → Message
build_link_characteristics_reply mac status text metrics =
    let message = build_link_characteristics_response mac status metrics in
    record message { data_items = set_text text message.data_items }

unfoldable pub build_session_initialization_response : SessionConfig → Message
build_session_initialization_response config =
    push_metric_items
      (push_extensions_supported
        (with_item
          (with_item
            (with_item (new_message msg_session_initialization_response) (status_item success))
            (DataItem.heartbeat_interval (local_heartbeat_interval config)))
          (DataItem.peer_type (record { smi = false }) config.peer_description))
        config.advertised_extensions)
      config.initial_metrics
