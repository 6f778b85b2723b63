-- ===== src/Examples/Session.antt =====
-- Builders, local address updates and heartbeats.
use dlep.Base.{
  ok, true, false, [], ◌∷◌, none, some, ◌≡◌, refl, arith, ◌*◌, not, ◌&&◌, distinct, contains,
  octets_eq,
}
use dlep.Core.Ipnet.Masked.{masked_laws}
use dlep.Core.Metrics.{from_millis}
use dlep.Core.Mac.{MacAddressFormat, IsMac, accepts}
use dlep.Core.Item.{DataItem}
use dlep.Core.Codec.Wire.{Encodable}
use dlep.Fsm.Transaction.{no_transactions}
use dlep.Fsm.Addresses.{
  DestinationAddrs, no_addrs, AddressChanges, apply_lenient, apply_strict, from_message,
  canonical_addrs,
}
use dlep.Fsm.Addresses.Apply.{Address, has}
use dlep.Fsm.Events.{reset_heartbeat}
use dlep.Fsm.Common.{
  SessionConfig, Shared, update_message, apply_local_address_update, local_heartbeat_interval,
  heartbeat_reset_action,
}
use dlep.Fsm.Common.Builders.{
  build_destination_up_response, build_destination_announce_response,
  build_destination_down_response, build_destination_announce, build_destination_down,
  build_session_update_response, build_session_termination, build_heartbeat, no_metrics,
}
use dlep.Fsm.Common.LocalAddresses.{Updated, has-update_message, apply_local_address_update-Updated}
use dlep.Fsm.Receipt.{Receipt, fatal_of, validate-answers, validate-notices}
use dlep.Fsm.Common.Heartbeat.{heartbeat_agreed}
use dlep.Examples.Data.{example_net, modem_text, mac}

abbrev held : DestinationAddrs
held = record no_addrs { v4 = (10 ∷ 0 ∷ 0 ∷ 1 ∷ []) ∷ [] }

-- One address is added, one that is absent is removed.
abbrev asked : AddressChanges
asked = record {
  added = record no_addrs { v4 = (10 ∷ 0 ∷ 0 ∷ 2 ∷ []) ∷ [] };
  removed = record no_addrs { v4 = (10 ∷ 0 ∷ 0 ∷ 9 ∷ []) ∷ [] };
}

has-update_message_example :
    let new = apply_lenient asked held in
    let read = from_message (update_message held asked) in
    ((apply_strict read held).0 ≡ ok tt)
    × ((x : Address) → has (apply_strict read held).1 x ≡ has new x)
    × ((x : Address) → has read.added x ≡ (has new x && not (has held x)))
    × ((x : Address) → has read.removed x ≡ (has held x && not (has new x)))
unfolding canonical_addrs distinct contains
has-update_message_example = has-update_message masked_laws held asked refl (refl, refl, refl, refl)

abbrev at_rest : Shared
at_rest = record { tx = no_transactions; locals = held }

apply_local_address_update-Updated_example :
    Updated at_rest asked (apply_local_address_update at_rest asked)
apply_local_address_update-Updated_example = apply_local_address_update-Updated at_rest asked

-- The configured interval of 10 ms is below the minimum.
abbrev pub fast : SessionConfig
fast = record {
  mac_address_format = MacAddressFormat.eui48;
  peer_description = modem_text;
  initial_metrics = no_metrics;
  heartbeat_interval_ms = 10;
  session_init_timeout = from_millis 5000;
  explicit_termination_timeout = none;
  advertised_extensions = [];
  defer_link_characteristics = false;
}

heartbeat_agreed_example :
    Encodable (DataItem.heartbeat_interval (local_heartbeat_interval fast))
    × (heartbeat_reset_action 3 (some (local_heartbeat_interval fast))
        ≡ some (reset_heartbeat 3 (local_heartbeat_interval fast * 2)))
heartbeat_agreed_example = heartbeat_agreed fast 3 (omega arith)

mac-IsMac : IsMac mac
mac-IsMac = (
  refl,
  (omega arith, (omega arith, (omega arith, (omega arith, (omega arith, (omega arith, tt)))))),
)

-- A fatal status, and a modem of the other format.
validate-answers_example :
    Receipt
      (build_destination_up_response mac 131)
      false
      []
      MacAddressFormat.eui64
      (fatal_of 131)
      false
    × Receipt
        (build_destination_announce_response mac 131)
        true
        []
        MacAddressFormat.eui64
        (fatal_of 131)
        false
    × Receipt
        (build_destination_down_response mac 131)
        true
        []
        MacAddressFormat.eui64
        (fatal_of 131)
        false
unfolding accepts
validate-answers_example = validate-answers mac 131 true [] MacAddressFormat.eui64 mac-IsMac

validate-notices_example :
    Receipt (build_destination_announce mac) false [] MacAddressFormat.eui48 none true
    × Receipt (build_destination_down mac 0) false [] MacAddressFormat.eui48 none true
    × Receipt (build_session_update_response 0) false [] MacAddressFormat.eui48 (fatal_of 0) true
    × Receipt (build_session_termination 0) false [] MacAddressFormat.eui48 none true
    × Receipt build_heartbeat false [] MacAddressFormat.eui48 none true
unfolding accepts
validate-notices_example = validate-notices mac 0 false [] MacAddressFormat.eui48 mac-IsMac
