-- ===== src/Fsm/Router.antt =====
-- crates/dlep-fsm/src/session_router.rs. A method on `&mut self` returns the machine.
pub mod Checks
pub mod Basic
pub mod Handlers
pub mod Step
pub mod Sound
pub mod Messages
pub mod Legal
pub mod Commands
pub mod Outside
pub mod Refines
pub mod Course
pub mod Refused
use dlep.Base.{
  Bool, true, false, not, ◌&&◌, ◌||◌, if◌then◌else◌, List, [], ◌∷◌, ◌++◌, map, any, Option, none,
  some, Eq, nat_eq, octets_eq, contains, retain, Map, ◌≟◌,
}
use dlep.Core.Ids.{DataItemType, ExtensionId, msg_session_initialization}
use dlep.Core.Ipnet.{Ipnet, net_eq}
use dlep.Core.Mac.{MacAddress, mac_eq}
use dlep.Core.Metrics.{Duration, LinkMetrics}
use dlep.Core.Status.{StatusCode, success}
use dlep.Core.Item.{DataItem, Message, new_message, with_item, type_id_of}
use dlep.Fsm.Transaction.{TransactionTracker, no_transactions}
use dlep.Fsm.Addresses.{DestinationAddrs, no_addrs, AddressChanges, from_message}
use dlep.Fsm.Validation.{is_metric}
use dlep.Fsm.Common.{SessionConfig, local_heartbeat_interval}
use dlep.Fsm.Common.Builders.{no_metrics, push_extensions_supported}
use dlep.Fsm.Session.{Run, ran, panicked, error_actions}

pub data RouterSessionState : Type 0 where
  closed session_init_pending in_session terminating terminated : RouterSessionState

pub record DestinationState : Type 0 where
  pub up : Bool
  pub metrics : LinkMetrics
  pub addrs : DestinationAddrs

pub record RouterSessionFsm : Type 0 where
  pub state : RouterSessionState
  pub tx : TransactionTracker
  pub destinations : Map MacAddress DestinationState
  pub session_metrics : LinkMetrics
  pub session_metric_types : List DataItemType
  pub peer_addresses : DestinationAddrs
  pub local_addresses : DestinationAddrs
  pub config : SessionConfig
  pub termination_reason : StatusCode
  pub peer_heartbeat_interval : Option Duration
  pub peer_extensions : List ExtensionId

-- `RouterSessionFsm::with_config`.
abbrev pub with_config : SessionConfig → RouterSessionFsm
with_config config = record {
  state = closed;
  tx = no_transactions;
  destinations = [];
  session_metrics = no_metrics;
  session_metric_types = [];
  peer_addresses = no_addrs;
  local_addresses = no_addrs;
  config = config;
  termination_reason = success;
  peer_heartbeat_interval = none;
  peer_extensions = [];
}

-- The types of the metrics in a message.
unfoldable pub metric_types : List DataItem → List DataItemType
metric_types items = retain is_metric (map type_id_of items)

-- `is_some_and(|d| d.up)`.
abbrev pub is_up : Option DestinationState → Bool
is_up none = false
is_up (some d) = d.up

unfoldable pub build_session_initialization : SessionConfig → Message
build_session_initialization config =
    push_extensions_supported
      (with_item
        (with_item (new_message msg_session_initialization)
          (DataItem.heartbeat_interval (local_heartbeat_interval config)))
        (DataItem.peer_type (record { smi = false }) config.peer_description))
      config.advertised_extensions

-- `protocol_error`, with its `unreachable!()`.
unfoldable pub fail_with :
    RouterSessionState → RouterSessionFsm → StatusCode → DataItem → Run RouterSessionFsm
fail_with terminating fsm code item = ran [] fsm
fail_with terminated fsm code item = ran [] fsm
fail_with _ fsm code item =
    ran (error_actions fsm.config item)
      (record fsm { state = terminating; termination_reason = code })

unfoldable pub protocol_error : RouterSessionFsm → DataItem → Run RouterSessionFsm
protocol_error fsm (DataItem.status code text) =
    fail_with fsm.state fsm code (DataItem.status code text)
protocol_error fsm _ = panicked

module _ {A : Type 0} ⦃e : Eq A⦄ where
  -- One of the four `retain` of `destination_address_changes`; `sets` are the destinations with
  -- the set of theirs that it is about.
  unfoldable pub free_addresses :
      (peer removed : List A) → MacAddress → Map MacAddress (List A) → List A → List A
  free_addresses peer removed mac sets added =
      retain
        (λ a.
          contains removed a
          || (not (contains peer a) && not (any (λ d. not (d.0 ≟ mac) && contains d.1 a) sets)))
        added

-- The destinations with one set of each.
abbrev pub sets_of :
    {A : Type 0}
    → (DestinationAddrs → List A)
    → Map MacAddress DestinationState
    → Map MacAddress (List A)
sets_of f destinations =
    map (λ (d : MacAddress × DestinationState). (d.0, f d.1.addrs)) destinations

module _ ⦃ip : Ipnet⦄ where
  unfoldable pub destination_address_changes :
      RouterSessionFsm → MacAddress → Message → AddressChanges
  destination_address_changes fsm mac msg =
      let changes = from_message msg in
      let removed = changes.removed in
      let peer = fsm.peer_addresses in
      record changes {
        added = record {
          v4 =
              free_addresses peer.v4 removed.v4 mac (sets_of (λ s. s.v4) fsm.destinations)
                changes.added.v4;
          v6 =
              free_addresses peer.v6 removed.v6 mac (sets_of (λ s. s.v6) fsm.destinations)
                changes.added.v6;
          v4_subnets =
              free_addresses peer.v4_subnets removed.v4_subnets mac
                (sets_of (λ s. s.v4_subnets) fsm.destinations) changes.added.v4_subnets;
          v6_subnets =
              free_addresses peer.v6_subnets removed.v6_subnets mac
                (sets_of (λ s. s.v6_subnets) fsm.destinations) changes.added.v6_subnets;
        };
      }
