-- ===== src/Fsm/Common/Builders.antt =====
-- crates/dlep-fsm/src/session_common.rs: builders of messages, and extractors of what they carry.
use dlep.Base.{ℕ, Bool, true, false, if◌then◌else◌, List, [], ◌∷◌, ◌++◌, map, Option, none, some}
use dlep.Core.Ids.{
  ExtensionId, msg_session_update, msg_session_update_response, msg_session_termination,
  msg_session_termination_response, msg_destination_up, msg_destination_up_response,
  msg_destination_announce, msg_destination_announce_response, msg_destination_down,
  msg_destination_down_response, msg_destination_update, msg_link_characteristics_request,
  msg_link_characteristics_response, msg_heartbeat,
}
use dlep.Core.Mac.{MacAddress}
use dlep.Core.Metrics.{Duration, LinkMetrics, LinkCharacteristics}
use dlep.Core.Status.{StatusCode}
use dlep.Core.Item.{DataItem, Message, new_message, with_item}
use dlep.Fsm.Addresses.{DestinationAddrs}

abbrev pub status_item : StatusCode → DataItem
status_item code = DataItem.status code []

unfoldable pub build_session_termination : StatusCode → Message
build_session_termination reason =
    with_item (new_message msg_session_termination) (status_item reason)

unfoldable pub build_session_termination_response : Message
build_session_termination_response = new_message msg_session_termination_response

-- `if let Some(value) = … { push }`.
unfoldable pub push_some : {A : Type 0} → (A → DataItem) → Option A → Message → Message
push_some item none msg = msg
push_some item (some value) msg = with_item msg (item value)

unfoldable pub push_metric_items : Message → LinkMetrics → Message
push_metric_items msg m = push_some DataItem.mtu m.mtu (
    push_some DataItem.relative_link_quality_transmit m.rlq_tx (
      push_some DataItem.relative_link_quality_receive m.rlq_rx (
        push_some DataItem.resources m.resources (
          with_item
            (with_item
              (with_item
                (with_item (with_item msg (DataItem.max_data_rate_receive m.max_data_rate_rx_bps))
                  (DataItem.max_data_rate_transmit m.max_data_rate_tx_bps))
                (DataItem.current_data_rate_receive m.current_data_rate_rx_bps))
              (DataItem.current_data_rate_transmit m.current_data_rate_tx_bps))
            (DataItem.latency m.latency)))))

unfoldable pub build_session_update : LinkMetrics → Message
build_session_update metrics = push_metric_items (new_message msg_session_update) metrics

unfoldable pub build_session_update_response : StatusCode → Message
build_session_update_response status =
    with_item (new_message msg_session_update_response) (status_item status)

unfoldable pub build_link_characteristics_request : MacAddress → LinkCharacteristics → Message
build_link_characteristics_request mac requested = push_some DataItem.latency requested.latency (
    push_some DataItem.current_data_rate_transmit requested.current_data_rate_tx_bps (
      push_some DataItem.current_data_rate_receive requested.current_data_rate_rx_bps
        (with_item (new_message msg_link_characteristics_request) (DataItem.mac_address mac))))

abbrev pub no_characteristics : LinkCharacteristics
no_characteristics = record {
  current_data_rate_rx_bps = none;
  current_data_rate_tx_bps = none;
  latency = none;
}

-- The `match` of `extract_link_characteristics`.
unfoldable pub note_requested : LinkCharacteristics → DataItem → LinkCharacteristics
note_requested c (DataItem.current_data_rate_receive value) = record c {
  current_data_rate_rx_bps = some value;
}
note_requested c (DataItem.current_data_rate_transmit value) = record c {
  current_data_rate_tx_bps = some value;
}
note_requested c (DataItem.latency value) = record c { latency = some value }
note_requested c _ = c

unfoldable pub note_all_requested : LinkCharacteristics → List DataItem → LinkCharacteristics
note_all_requested c [] = c
note_all_requested c (item ∷ items) = note_all_requested (note_requested c item) items

unfoldable pub extract_link_characteristics : Message → LinkCharacteristics
extract_link_characteristics msg = note_all_requested no_characteristics msg.data_items

abbrev pub answer : ℕ → MacAddress → StatusCode → Message
answer message_type mac status =
    with_item (with_item (new_message message_type) (DataItem.mac_address mac)) (status_item status)

unfoldable pub build_link_characteristics_response : MacAddress → StatusCode → LinkMetrics → Message
build_link_characteristics_response mac status metrics =
    push_metric_items (answer msg_link_characteristics_response mac status) metrics

unfoldable pub build_destination_announce : MacAddress → Message
build_destination_announce mac =
    with_item (new_message msg_destination_announce) (DataItem.mac_address mac)

unfoldable pub build_destination_announce_response : MacAddress → StatusCode → Message
build_destination_announce_response mac status = answer msg_destination_announce_response mac status

unfoldable pub build_destination_up_response : MacAddress → StatusCode → Message
build_destination_up_response mac status = answer msg_destination_up_response mac status

unfoldable pub build_destination_down_response : MacAddress → StatusCode → Message
build_destination_down_response mac status = answer msg_destination_down_response mac status

unfoldable pub build_destination_down : MacAddress → StatusCode → Message
build_destination_down mac reason =
    with_item (new_message msg_destination_down) (DataItem.mac_address mac)

unfoldable pub build_destination_update : MacAddress → LinkMetrics → Message
build_destination_update mac metrics =
    push_metric_items (with_item (new_message msg_destination_update) (DataItem.mac_address mac))
      metrics

unfoldable pub build_heartbeat : Message
build_heartbeat = new_message msg_heartbeat

-- The `for` loops of `build_destination_up`.
abbrev pub with_items : Message → List DataItem → Message
with_items msg items = record msg { data_items = msg.data_items ++ items }

unfoldable pub build_destination_up : MacAddress → LinkMetrics → DestinationAddrs → Message
build_destination_up mac metrics addrs =
    push_metric_items
      (with_items
        (with_items
          (with_items
            (with_items (with_item (new_message msg_destination_up) (DataItem.mac_address mac))
              (map (DataItem.ipv4_address true) addrs.v4))
            (map (DataItem.ipv6_address true) addrs.v6))
          (map (DataItem.ipv4_attached_subnet true) addrs.v4_subnets))
        (map (DataItem.ipv6_attached_subnet true) addrs.v6_subnets))
      metrics

abbrev pub no_metrics : LinkMetrics
no_metrics = record {
  max_data_rate_rx_bps = 0;
  max_data_rate_tx_bps = 0;
  current_data_rate_rx_bps = 0;
  current_data_rate_tx_bps = 0;
  latency = 0;
  resources = none;
  rlq_rx = none;
  rlq_tx = none;
  mtu = none;
}

-- The `match` of `merge_link_metrics`: `found`, and the metrics.
unfoldable pub merge_item : Bool × LinkMetrics → DataItem → Bool × LinkMetrics
merge_item (found, m) (DataItem.max_data_rate_receive v) =
    (true, record m { max_data_rate_rx_bps = v })
merge_item (found, m) (DataItem.max_data_rate_transmit v) =
    (true, record m { max_data_rate_tx_bps = v })
merge_item (found, m) (DataItem.current_data_rate_receive v) =
    (true, record m { current_data_rate_rx_bps = v })
merge_item (found, m) (DataItem.current_data_rate_transmit v) =
    (true, record m { current_data_rate_tx_bps = v })
merge_item (found, m) (DataItem.latency v) = (true, record m { latency = v })
merge_item (found, m) (DataItem.resources v) = (true, record m { resources = some v })
merge_item (found, m) (DataItem.relative_link_quality_receive v) =
    (true, record m { rlq_rx = some v })
merge_item (found, m) (DataItem.relative_link_quality_transmit v) =
    (true, record m { rlq_tx = some v })
merge_item (found, m) (DataItem.mtu v) = (true, record m { mtu = some v })
merge_item (found, m) _ = (found, m)

unfoldable pub merge_items : Bool × LinkMetrics → List DataItem → Bool × LinkMetrics
merge_items s [] = s
merge_items s (item ∷ items) = merge_items (merge_item s item) items

unfoldable pub merge_link_metrics : Message → LinkMetrics → Bool × LinkMetrics
merge_link_metrics msg m = merge_items (false, m) msg.data_items

unfoldable pub extract_link_metrics : Message → Option LinkMetrics
extract_link_metrics msg =
    let (found, m) = merge_link_metrics msg no_metrics in if found then some m else none

-- `data_items.iter().find_map(…)`.
unfoldable pub find_map : {A : Type 0} → (DataItem → Option A) → List DataItem → Option A
find_map f [] = none
find_map f (item ∷ items) =
    let rest = find_map f items in elim (f item) [ some a ↦ some a | none ↦ rest ]

abbrev pub status_of : DataItem → Option StatusCode
status_of (DataItem.status code text) = some code
status_of _ = none

unfoldable pub extract_status : Message → Option StatusCode
extract_status msg = find_map status_of msg.data_items

abbrev pub interval_of : DataItem → Option Duration
interval_of (DataItem.heartbeat_interval d) = some d
interval_of _ = none

unfoldable pub extract_heartbeat_interval : Message → Option Duration
extract_heartbeat_interval msg = find_map interval_of msg.data_items

abbrev pub extensions_of : DataItem → Option (List ExtensionId)
extensions_of (DataItem.extensions_supported ids) = some ids
extensions_of _ = none

unfoldable pub extract_extensions_supported : Message → Option (List ExtensionId)
extract_extensions_supported msg = find_map extensions_of msg.data_items

unfoldable pub push_extensions_supported : Message → List ExtensionId → Message
push_extensions_supported msg [] = msg
push_extensions_supported msg (id ∷ ids) = with_item msg (DataItem.extensions_supported (id ∷ ids))
