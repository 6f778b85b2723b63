-- ===== src/Fsm/Modem/Commands.antt =====
-- The arms of `ModemSessionFsm::step` for commands of the application,
-- crates/dlep-fsm/src/session_modem.rs.
use dlep.Base.{
  true, false, not, ◌&&◌, ◌||◌, if◌then◌else◌, List, [], ◌∷◌, Option, Result, ok, err, panic, ◌≟◌,
  insert, remove, map_values, retain, Map,
}
use dlep.Core.Ipnet.{Ipnet}
use dlep.Core.Mac.{MacAddress, mac_eq}
use dlep.Core.Metrics.{LinkMetrics}
use dlep.Core.Utf8.{Text}
use dlep.Core.Status.{StatusCode}
use dlep.Core.Item.{Message}
use dlep.Fsm.Transaction.{
  RequestKind, PendingRequest, TransactionTracker, open_destination, open_session, destination_busy,
}
use dlep.Fsm.Addresses.{
  DestinationAddrs, AddressChanges, changes_empty, canonical_addrs, apply_lenient, between,
  append_to,
}
use dlep.Fsm.Events.{CommandError, FsmAction, send_message}
use dlep.Fsm.Common.{Shared}
use dlep.Fsm.Common.Builders.{
  build_session_update, build_destination_up, build_destination_update, build_destination_down,
  merge_link_metrics,
}
use dlep.Fsm.Session.{Run, ran, panicked}
use dlep.Fsm.Modem.{ModemSessionFsm, DestinationState, build_link_characteristics_reply}
use dlep.Fsm.Modem.Checks.{with_metrics, replied_metrics}
use dlep.Fsm.Modem.Basic.{bare_update}

-- `open_destination(…)` or `open_session(…)` with its `expect`, and one message; `fsm` has what
-- else the arm changes.
unfoldable pub requested :
    ModemSessionFsm
    → Message
    → Result PendingRequest (Unit {0}) × TransactionTracker
    → Run ModemSessionFsm
requested fsm msg (ok u, tx) = ran (send_message msg ∷ []) (record fsm { tx = tx })
requested fsm msg (err existing, tx) = panicked
requested fsm msg (panic, tx) = panicked

unfoldable pub drop_destination :
    ModemSessionFsm → MacAddress → StatusCode → DestinationState → Run ModemSessionFsm
drop_destination fsm mac reason d =
    if not d.announced && not (destination_busy fsm.tx mac)
    then ran [] (record fsm { destinations = remove fsm.destinations mac })
    else requested fsm (build_destination_down mac reason)
        (open_destination fsm.tx mac RequestKind.destination_down)

unfoldable pub update_metrics :
    ModemSessionFsm → MacAddress → LinkMetrics → DestinationState → Run ModemSessionFsm
update_metrics fsm mac metrics d =
    let merged = with_metrics metrics d.metrics in
    if not d.announced || destination_busy fsm.tx mac
    then ran [] (record fsm {
      destinations =
          insert fsm.destinations mac (record d { metrics = merged; pending_metrics = true });
    })
    else ran (send_message (build_destination_update mac metrics) ∷ [])
        (record fsm { destinations = insert fsm.destinations mac (record d { metrics = merged }) })

-- `for destination in self.destinations.values_mut()`.
unfoldable pub merge_all :
    Message → Map MacAddress DestinationState → Map MacAddress DestinationState
merge_all msg destinations =
    map_values (λ d. record d { metrics = (merge_link_metrics msg d.metrics).1 }) destinations

unfoldable pub update_session : ModemSessionFsm → LinkMetrics → Run ModemSessionFsm
update_session fsm metrics =
    let message = build_session_update metrics in
    requested
      (record fsm {
        session_metrics = (merge_link_metrics message fsm.session_metrics).1;
        destinations = merge_all message fsm.destinations;
      })
      message (open_session fsm.tx RequestKind.session_update)

-- The tracker and the local addresses after `apply_local_address_update`.
unfoldable pub locally_updated :
    ModemSessionFsm → Result CommandError (List FsmAction) × Shared → Run ModemSessionFsm
locally_updated fsm (ok actions, s) =
    ran actions (record fsm { tx = s.tx; local_addresses = s.locals })
locally_updated fsm (err e, s) = panicked
locally_updated fsm (panic, s) = panicked

module _ ⦃ip : Ipnet⦄ where
  unfoldable pub reply_characteristics :
      ModemSessionFsm
      → MacAddress
      → StatusCode
      → Text
      → Option LinkMetrics
      → DestinationState
      → Run ModemSessionFsm
  reply_characteristics fsm mac code text metrics d =
      let merged = replied_metrics d.metrics metrics in
      ran (send_message (build_link_characteristics_reply mac code text merged) ∷ []) (record fsm {
        destinations = insert fsm.destinations mac (record d { metrics = merged });
        pending_link_requests = retain (λ m. not (m ≟ mac)) fsm.pending_link_requests;
      })

  unfoldable pub add_destination :
      ModemSessionFsm → MacAddress → LinkMetrics → DestinationAddrs → Run ModemSessionFsm
  add_destination fsm mac metrics addrs =
      let effective = with_metrics metrics fsm.session_metrics in
      let canonical = canonical_addrs addrs in
      requested
        (record fsm {
          destinations = insert fsm.destinations mac (record {
            announced = false;
            pending_metrics = false;
            metrics = effective;
            addrs = canonical_addrs canonical;
            advertised_addrs = canonical_addrs canonical;
          });
        })
        (build_destination_up mac effective canonical)
        (open_destination fsm.tx mac RequestKind.destination_up)

  -- The part of an address update that the router is told.
  unfoldable pub tell_addresses :
      ModemSessionFsm → MacAddress → DestinationState → Run ModemSessionFsm
  tell_addresses fsm mac d =
      let kept = record fsm { destinations = insert fsm.destinations mac d } in
      let effective = between d.advertised_addrs d.addrs in
      if not d.announced || destination_busy fsm.tx mac
      then ran [] kept
      else if changes_empty effective
      then ran [] kept
      else ran (send_message (append_to effective (bare_update mac)) ∷ []) (record fsm {
        destinations = insert fsm.destinations mac (record d { advertised_addrs = d.addrs });
      })

  unfoldable pub update_addresses :
      ModemSessionFsm → MacAddress → AddressChanges → DestinationState → Run ModemSessionFsm
  update_addresses fsm mac changes d =
      tell_addresses fsm mac (record d { addrs = apply_lenient changes d.addrs })
