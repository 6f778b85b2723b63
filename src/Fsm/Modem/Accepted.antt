-- ===== src/Fsm/Modem/Accepted.antt =====
-- The commands of session_modem.rs keep the invariant.
use dlep.Base.{
  true, false, not, ◌&&◌, ◌||◌, List, Option, none, some, Result, ok, err, panic, get, insert,
  contains, contains_key, ◌≡◌, refl, sym, arith, if_rule, subst,
}
use dlep.Core.Ipnet.{Ipnet}
use dlep.Core.Mac.{MacAddress, mac_eq}
use dlep.Core.Metrics.{LinkMetrics}
use dlep.Core.Utf8.{Text}
use dlep.Core.Status.{StatusCode}
use dlep.Core.Item.{Message}
use dlep.Fsm.Transaction.{
  TransactionTracker, PendingRequest, RequestKind, open_destination, open_session, session_busy,
  destination_busy,
}
use dlep.Fsm.Addresses.{DestinationAddrs, changes_empty, between}
use dlep.Fsm.Events.{CommandError, FsmAction}
use dlep.Fsm.Common.{Shared}
use dlep.Fsm.Session.Actions.{Ordinary}
use dlep.Fsm.Session.Machine.{Ends}
use dlep.Fsm.Session.Safe.{Aside}
use dlep.Fsm.Modem.{ModemSessionState, ModemSessionFsm, DestinationState}
use dlep.Fsm.Modem.Checks.{is_in_session}
use dlep.Fsm.Modem.Commands.{
  requested, drop_destination, update_metrics, update_session, locally_updated,
  reply_characteristics, add_destination, tell_addresses, merge_all,
}
use dlep.Fsm.Modem.Sound.{
  IsSound, Kept, Kept-insert, Kept-remove, Kept-open, Kept-answer, Kept-map, not_asked_unknown,
}
use dlep.Fsm.Modem.Messages.{Stays}

pub inside_of :
    (state : ModemSessionState) → is_in_session state ≡ true → state ≡ ModemSessionState.in_session
inside_of ModemSessionState.in_session e = refl
inside_of state e = absurd (cc)

opened :
    (fsm : ModemSessionFsm) (mac : MacAddress) (kind : RequestKind)
    → get fsm.tx.per_destination mac ≡ none
    → open_destination fsm.tx mac kind ≡ (
      ok tt,
      record (fsm.tx) {
        per_destination = insert fsm.tx.per_destination mac (record { kind = kind });
      },
    )
unfolding open_destination
opened fsm mac kind free = rw (open_destination, free) refl

opened_session :
    (tx : TransactionTracker)
    → session_busy tx ≡ false
    → open_session tx RequestKind.session_update
      ≡ (ok tt, record tx { session_pending = some (record { kind = RequestKind.session_update }) })
unfolding open_session session_busy
opened_session tx free = ground arith

requested-Stays :
    (fsm : ModemSessionFsm) (msg : Message)
    (o : Result PendingRequest (Unit {0}) × TransactionTracker) (tx : TransactionTracker)
    → o ≡ (ok tt, tx)
    → fsm.state ≡ ModemSessionState.in_session
    → IsSound (record fsm { tx = tx })
    → Ends Stays (requested fsm msg o)
unfolding requested Ordinary
requested-Stays fsm msg o tx e inside sound =
    subst (λ p. Ends Stays (requested fsm msg p)) (sym e) ((refl, tt), inside, sound)

-- A command that the modem checks leaves a machine as `Stays` says.
module _ (fsm : ModemSessionFsm) (inside : fsm.state ≡ ModemSessionState.in_session)
    (sound : IsSound fsm) where
  with_destination :
      (mac : MacAddress) (d : DestinationState)
      → IsSound (record fsm { destinations = insert fsm.destinations mac d })
  with_destination mac d =
      Kept-insert fsm.tx.per_destination fsm.destinations fsm.pending_link_requests sound mac d

  pub drop_destination-Stays :
      (mac : MacAddress) (reason : StatusCode) (d : DestinationState)
      → get fsm.tx.per_destination mac ≡ none
      → contains fsm.pending_link_requests mac ≡ false
      → Ends Stays (drop_destination fsm mac reason d)
  unfolding drop_destination Ordinary
  drop_destination-Stays mac reason d free unasked =
      if_rule (Ends Stays) (not d.announced && not (destination_busy fsm.tx mac)) {y = _}
        (λ _. (
          tt,
          inside,
          Kept-remove fsm.tx.per_destination fsm.destinations fsm.pending_link_requests sound mac
              unasked,
        ))
        (λ _. requested-Stays fsm _ _ _ (opened fsm mac RequestKind.destination_down free) inside (
          Kept-open fsm.tx.per_destination fsm.destinations fsm.pending_link_requests sound mac
            RequestKind.destination_down unasked))

  pub update_metrics-Stays :
      (mac : MacAddress) (metrics : LinkMetrics) (d : DestinationState)
      → Ends Stays (update_metrics fsm mac metrics d)
  unfolding update_metrics Ordinary
  update_metrics-Stays mac metrics d =
      if_rule (Ends Stays) (not d.announced || destination_busy fsm.tx mac)
        (λ _. (tt, inside, with_destination mac _))
        (λ _. ((refl, tt), inside, with_destination mac _))

  pub update_session-Stays :
      (metrics : LinkMetrics)
      → session_busy fsm.tx ≡ false
      → Ends Stays (update_session fsm metrics)
  unfolding update_session merge_all
  update_session-Stays metrics free =
      requested-Stays _ _ _ _ (opened_session fsm.tx free) inside
        (Kept-map fsm.tx.per_destination fsm.destinations fsm.pending_link_requests sound _)

  pub reply-Stays :
      ⦃ip : Ipnet⦄ (mac : MacAddress) (code : StatusCode) (text : Text)
      (metrics : Option LinkMetrics) (d : DestinationState)
      → Ends Stays (reply_characteristics fsm mac code text metrics d)
  unfolding reply_characteristics Ordinary
  reply-Stays mac code text metrics d = (
    (refl, tt),
    inside,
    Kept-answer fsm.tx.per_destination (insert fsm.destinations mac _) fsm.pending_link_requests
        (with_destination mac _) mac,
  )

  pub add_destination-Stays :
      ⦃ip : Ipnet⦄ (mac : MacAddress) (metrics : LinkMetrics) (addrs : DestinationAddrs)
      → get fsm.tx.per_destination mac ≡ none
      → contains_key fsm.destinations mac ≡ false
      → Ends Stays (add_destination fsm mac metrics addrs)
  unfolding add_destination
  add_destination-Stays mac metrics addrs free new =
      let unasked =
        not_asked_unknown fsm.tx.per_destination fsm.destinations fsm.pending_link_requests sound
          mac new in
      requested-Stays _ _ _ _ (opened fsm mac RequestKind.destination_up free) inside (
        Kept-open fsm.tx.per_destination (insert fsm.destinations mac _) fsm.pending_link_requests
          (with_destination mac _) mac RequestKind.destination_up unasked)

  pub tell_addresses-Stays :
      ⦃ip : Ipnet⦄ (mac : MacAddress) (d : DestinationState) → Ends Stays (tell_addresses fsm mac d)
  unfolding tell_addresses Ordinary
  tell_addresses-Stays mac d =
      if_rule (Ends Stays) (not d.announced || destination_busy fsm.tx mac) {y = _}
        (λ _. (tt, inside, with_destination mac d))
        (λ _.
          if_rule (Ends Stays) (changes_empty (between d.advertised_addrs d.addrs))
            (λ _. (tt, inside, with_destination mac d))
            (λ _. ((refl, tt), inside, with_destination mac _)))

  pub local-Stays :
      (r : Result CommandError (List FsmAction) × Shared)
      → Aside (record { tx = fsm.tx; locals = fsm.local_addresses }) r
      → Ends Stays (locally_updated fsm r)
  unfolding locally_updated
  local-Stays (ok actions, t) (o, e) = (
    o,
    inside,
    subst (λ pending. Kept pending fsm.destinations fsm.pending_link_requests) (sym e) sound,
  )
  local-Stays (err reason, t) h = h
  local-Stays (panic, t) h = h
