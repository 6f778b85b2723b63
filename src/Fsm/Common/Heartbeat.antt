-- ===== src/Fsm/Common/Heartbeat.antt =====
-- The heartbeat interval that one side advertises, and the deadline that the other one sets.
use dlep.Base.{ℕ, ◌≤◌, ◌*◌, ltb, false, some, ◌≡◌, arith, length-to_be_bytes}
use dlep.Core.Ids.{min_heartbeat_interval_ms}
use dlep.Core.Ipnet.{Ipnet}
use dlep.Core.Metrics.{from_millis, as_millis}
use dlep.Core.Item.{DataItem}
use dlep.Core.Codec.Encode.{u32_max}
use dlep.Core.Codec.Wire.{Encodable}
use dlep.Fsm.Events.{TimerId, reset_heartbeat}
use dlep.Fsm.Common.{
  SessionConfig, local_heartbeat_interval, heartbeat_reset_action, reset_action, exceeds_duration,
}

interval_bounds :
    (config : SessionConfig)
    → config.heartbeat_interval_ms ≤ u32_max
    → (1_000_000_000 ≤ local_heartbeat_interval config)
      × (local_heartbeat_interval config ≤ 4_294_967_295_000_000)
unfolding local_heartbeat_interval
interval_bounds config h = (omega arith, omega arith)

reset_in_range :
    (timer_id : TimerId) (d : ℕ)
    → 1_000_000_000 ≤ d
    → d ≤ 4_294_967_295_000_000
    → reset_action timer_id d ≡ some (reset_heartbeat timer_id (d * 2))
unfolding reset_action
reset_in_range timer_id d low high =
    let not_low : ltb d (from_millis min_heartbeat_interval_ms) ≡ false = ground arith in
    let small : exceeds_duration (d * 2) ≡ false = ground arith in rw (not_low, small)

module _ ⦃ip : Ipnet⦄ where
  -- The heartbeat interval of any configuration with a 32-bit number of milliseconds can be sent,
  -- and the peer that receives it sets its deadline to twice the interval.
  pub heartbeat_agreed :
      (config : SessionConfig) (timer_id : TimerId)
      → config.heartbeat_interval_ms ≤ u32_max
      → Encodable (DataItem.heartbeat_interval (local_heartbeat_interval config))
        × (heartbeat_reset_action timer_id (some (local_heartbeat_interval config))
            ≡ some (reset_heartbeat timer_id (local_heartbeat_interval config * 2)))
  unfolding heartbeat_reset_action
  heartbeat_agreed config timer_id h =
      let (low, high) = interval_bounds config h in
      (
        (
          (omega arith, omega arith),
          omega (arith, length-to_be_bytes 4 (as_millis (local_heartbeat_interval config))),
        ),
        reset_in_range timer_id (local_heartbeat_interval config) low high,
      )
