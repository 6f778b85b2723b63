-- ===== src/Core/Error.antt =====
-- crates/dlep-core/src/error.rs, and the field labels of codec.rs. The variants `Io` and
-- `Unknown…Type`, which the codec never builds, are left out.
use dlep.Base.{ℕ, List, Result}
use dlep.Core.Ids.{DataItemType}

pub data ExpectedLen : Type 0 where
  exact : ℕ → ExpectedLen
  at_least : ℕ → ExpectedLen
  one_of : List ℕ → ExpectedLen
  multiple : ℕ → ExpectedLen

pub data Field : Type 0 where
  data_item_flags heartbeat_interval_ms latency_us resources rlq_receive rlq_transmit : Field
  ipv4_attached_subnet_prefix ipv6_attached_subnet_prefix : Field
  data_item_value_length signal_body_length message_body_length : Field

pub data CodecError : Type 0 where
  truncated : (needed have : ℕ) → CodecError
  missing_signal_prefix : CodecError
  length_mismatch : (declared remaining : ℕ) → CodecError
  invalid_data_item_length : (kind : DataItemType) (expected : ExpectedLen) (got : ℕ) → CodecError
  invalid_utf8 : CodecError
  out_of_range : (field : Field) (value : ℕ) → CodecError

abbrev pub CodecResult {ℓ} : Type ℓ → Type ℓ
CodecResult A = Result CodecError A
