-- ===== src/Core/Metrics.antt =====
-- crates/dlep-core/src/metrics.rs. A `Duration` is its number of nanoseconds.
use dlep.Base.{ℕ, ◌*◌, ◌/◌, Bool, true, false, ◌&&◌, ◌||◌, Option, none, some}

abbrev pub Duration : Type 0
Duration = ℕ

-- `Duration::from_millis`, `as_millis`, `from_micros` and `as_micros` of the standard library.
abbrev pub from_millis : ℕ → Duration
from_millis ms = ms * 1_000_000

abbrev pub as_millis : Duration → ℕ
as_millis d = d / 1_000_000

abbrev pub from_micros : ℕ → Duration
from_micros us = us * 1000

abbrev pub as_micros : Duration → ℕ
as_micros d = d / 1000

abbrev pub is_none {ℓ} : {A : Type ℓ} → Option A → Bool
is_none none = true
is_none (some a) = false

abbrev pub is_some {ℓ} : {A : Type ℓ} → Option A → Bool
is_some none = false
is_some (some a) = true

pub record LinkMetrics : Type 0 where
  pub max_data_rate_rx_bps : ℕ
  pub max_data_rate_tx_bps : ℕ
  pub current_data_rate_rx_bps : ℕ
  pub current_data_rate_tx_bps : ℕ
  pub latency : Duration
  pub resources : Option ℕ
  pub rlq_rx : Option ℕ
  pub rlq_tx : Option ℕ
  pub mtu : Option ℕ

unfoldable pub supported_by : LinkMetrics → LinkMetrics → Bool
supported_by m initial =
    (is_none m.resources || is_some initial.resources)
    && (is_none m.rlq_rx || is_some initial.rlq_rx)
    && (is_none m.rlq_tx || is_some initial.rlq_tx)
    && (is_none m.mtu || is_some initial.mtu)

pub record LinkCharacteristics : Type 0 where
  pub current_data_rate_rx_bps : Option ℕ
  pub current_data_rate_tx_bps : Option ℕ
  pub latency : Option Duration

-- `LinkCharacteristics::is_empty`.
unfoldable pub requests_nothing : LinkCharacteristics → Bool
requests_nothing c =
    is_none c.current_data_rate_rx_bps && is_none c.current_data_rate_tx_bps && is_none c.latency
