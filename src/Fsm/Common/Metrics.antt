-- ===== src/Fsm/Common/Metrics.antt =====
-- What a peer reads out of the metrics and characteristics that were built into a message.
use dlep.Base.{ℕ, true, Option, none, some, ◌≡◌, refl}
use dlep.Core.Mac.{MacAddress}
use dlep.Core.Metrics.{Duration, LinkMetrics, LinkCharacteristics}
use dlep.Fsm.Common.Builders.{
  build_link_characteristics_request, extract_link_characteristics, note_all_requested,
  note_requested, push_some, push_metric_items, build_destination_update, merge_link_metrics,
  merge_items, merge_item,
}

requested_back :
    (mac : MacAddress) (rx tx : Option ℕ) (latency : Option Duration)
    → extract_link_characteristics (
        build_link_characteristics_request mac (record {
          current_data_rate_rx_bps = rx;
          current_data_rate_tx_bps = tx;
          latency = latency;
        }))
      ≡ record { current_data_rate_rx_bps = rx; current_data_rate_tx_bps = tx; latency = latency }
unfolding build_link_characteristics_request extract_link_characteristics note_all_requested
    note_requested push_some
requested_back mac none none none = refl
requested_back mac none none (some l) = refl
requested_back mac none (some t) none = refl
requested_back mac none (some t) (some l) = refl
requested_back mac (some r) none none = refl
requested_back mac (some r) none (some l) = refl
requested_back mac (some r) (some t) none = refl
requested_back mac (some r) (some t) (some l) = refl

-- The characteristics that a request asks for are read back from it, and no others.
pub extract-build_link_characteristics_request :
    (mac : MacAddress) (requested : LinkCharacteristics)
    → extract_link_characteristics (build_link_characteristics_request mac requested) ≡ requested
extract-build_link_characteristics_request mac requested =
    requested_back mac requested.current_data_rate_rx_bps requested.current_data_rate_tx_bps
      requested.latency

abbrev pub or_kept : Option ℕ → Option ℕ → Option ℕ
or_kept none kept = kept
or_kept (some v) kept = some v

-- The metrics with those of `old` where `m` reports none.
abbrev pub merged : LinkMetrics → LinkMetrics → LinkMetrics
merged m old = record m {
  resources = or_kept m.resources old.resources;
  rlq_rx = or_kept m.rlq_rx old.rlq_rx;
  rlq_tx = or_kept m.rlq_tx old.rlq_tx;
  mtu = or_kept m.mtu old.mtu;
}

abbrev with_optional : LinkMetrics → Option ℕ → Option ℕ → Option ℕ → Option ℕ → LinkMetrics
with_optional m a b c d = record m { resources = a; rlq_rx = b; rlq_tx = c; mtu = d }

merged_back :
    (mac : MacAddress) (m old : LinkMetrics) (a b c d : Option ℕ)
    → merge_link_metrics (build_destination_update mac (with_optional m a b c d)) old
      ≡ (true, merged (with_optional m a b c d) old)
unfolding build_destination_update merge_link_metrics merge_items merge_item push_metric_items
    push_some
merged_back mac m old none none none none = refl
merged_back mac m old none none none (some d) = refl
merged_back mac m old none none (some c) none = refl
merged_back mac m old none none (some c) (some d) = refl
merged_back mac m old none (some b) none none = refl
merged_back mac m old none (some b) none (some d) = refl
merged_back mac m old none (some b) (some c) none = refl
merged_back mac m old none (some b) (some c) (some d) = refl
merged_back mac m old (some a) none none none = refl
merged_back mac m old (some a) none none (some d) = refl
merged_back mac m old (some a) none (some c) none = refl
merged_back mac m old (some a) none (some c) (some d) = refl
merged_back mac m old (some a) (some b) none none = refl
merged_back mac m old (some a) (some b) none (some d) = refl
merged_back mac m old (some a) (some b) (some c) none = refl
merged_back mac m old (some a) (some b) (some c) (some d) = refl

-- Merging a Destination Update into known metrics takes over the mandatory metrics and the
-- optional ones that it reports, keeps the other optional ones, and reports that it found metrics.
pub merge-build_destination_update :
    (mac : MacAddress) (m old : LinkMetrics)
    → merge_link_metrics (build_destination_update mac m) old ≡ (true, merged m old)
merge-build_destination_update mac m old = merged_back mac m old m.resources m.rlq_rx m.rlq_tx m.mtu
