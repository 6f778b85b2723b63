-- ===== src/Fsm/Modem/Checked.antt =====
-- What the check of a command in session_modem.rs promises to the arms behind it.
use dlep.Base.{
  true, false, not, Option, none, some, ok, ◌>>◌, get, contains, ◌≡◌, refl, arith, Option-cases,
  inl, inr,
}
use dlep.Core.Ipnet.{Ipnet}
use dlep.Core.Mac.{MacAddress, mac_eq}
use dlep.Core.Metrics.{LinkMetrics}
use dlep.Core.Utf8.{Text}
use dlep.Core.Status.{StatusCode}
use dlep.Fsm.Addresses.{no_addrs, AddressChanges, apply_lenient}
use dlep.Fsm.Transaction.{session_busy}
use dlep.Fsm.Events.{
  CommandInfo, FsmEvent, app_add_destination, app_drop_destination, app_update_metrics,
  app_update_addresses, app_session_addresses, app_session_update,
  app_link_characteristics_response, command_of,
}
use dlep.Fsm.Common.Builders.{build_destination_up}
use dlep.Fsm.Session.Machine.{Ends, expecting-Ends}
use dlep.Fsm.Session.Safe.{
  Safe, Safe-if, Safe-then, encode-Safe, validate-Safe, validate_local-Safe, local_update-Aside,
}
use dlep.Fsm.Modem.{
  ModemSessionState, ModemSessionFsm, DestinationState, build_link_characteristics_reply,
}
use dlep.Fsm.Modem.Checks.{
  is_in_session, is_unsupported, is_retained, check_scope, check_pending, check_transaction,
  check_event, check_info, check_command, check_addresses_of, check_reply, replied_metrics,
  with_metrics,
}
use dlep.Fsm.Modem.Commands.{update_addresses}
use dlep.Fsm.Modem.Step.{when_in_session}
use dlep.Fsm.Modem.Sound.{IsSound}
use dlep.Fsm.Modem.Messages.{Stays}
use dlep.Fsm.Modem.Accepted.{
  inside_of, drop_destination-Stays, update_metrics-Stays, update_session-Stays, reply-Stays,
  add_destination-Stays, tell_addresses-Stays, local-Stays,
}

found :
    (o : Option DestinationState)
    → (elim o [ none ↦ false | some v ↦ true ]) ≡ true
    → (d : DestinationState) × (o ≡ some d)
found none h = absurd (cc)
found (some d) h = (d, refl)

scope_parts :
    (fsm : ModemSessionFsm) (e : FsmEvent) (mac : MacAddress)
    → check_scope fsm e (some mac) ≡ ok tt
    → (check_pending fsm e mac ≡ ok tt)
      × (check_transaction e (get fsm.tx.per_destination mac) ≡ ok tt)
unfolding check_scope
scope_parts fsm e mac h = ground arith

scope_free :
    (fsm : ModemSessionFsm) (e : FsmEvent) (mac : MacAddress)
    → ((r : _) → is_retained e r ≡ false)
    → check_scope fsm e (some mac) ≡ ok tt
    → get fsm.tx.per_destination mac ≡ none
unfolding check_transaction
scope_free fsm e mac k h = elim (Option-cases (get fsm.tx.per_destination mac)) [
  | inl n ↦ n
  | inr (r, p) ↦ let t = (scope_parts fsm e mac h).1 in absurd (ground (arith, k r))
]

scope_reply :
    (fsm : ModemSessionFsm) (mac : MacAddress) (code : StatusCode) (text : Text)
    (metrics : Option LinkMetrics)
    → check_scope fsm (app_link_characteristics_response mac code text metrics) (some mac) ≡ ok tt
    → contains fsm.pending_link_requests mac ≡ true
unfolding check_pending
scope_reply fsm mac code text metrics h =
    let p = (scope_parts fsm (app_link_characteristics_response mac code text metrics) mac h).0 in
    ground arith

scope_drop :
    (fsm : ModemSessionFsm) (mac : MacAddress) (reason : StatusCode)
    → check_scope fsm (app_drop_destination mac reason) (some mac) ≡ ok tt
    → contains fsm.pending_link_requests mac ≡ false
unfolding check_pending
scope_drop fsm mac reason h =
    let p = (scope_parts fsm (app_drop_destination mac reason) mac h).0 in ground arith

check_scope-Safe :
    (fsm : ModemSessionFsm) (e : FsmEvent) (mac : Option MacAddress) → Safe (check_scope fsm e mac)
unfolding check_scope check_pending check_transaction
check_scope-Safe fsm e none = ground arith
check_scope-Safe fsm (app_link_characteristics_response dest code text metrics) (some mac) =
    ground arith
check_scope-Safe fsm (app_drop_destination dest reason) (some mac) = ground arith
check_scope-Safe fsm e (some mac) = ground arith

module _ ⦃ip : Ipnet⦄ (fsm : ModemSessionFsm) (sound : IsSound fsm) where
  check_addresses_of-Safe :
      (mac : MacAddress) (changes : AddressChanges) (o : Option DestinationState)
      → Safe (check_addresses_of mac changes o)
  unfolding check_addresses_of
  check_addresses_of-Safe mac changes none = tt
  check_addresses_of-Safe mac changes (some d) = ground (
    arith,
    validate-Safe changes,
    encode-Safe (build_destination_up mac d.metrics (apply_lenient changes d.addrs)),
  )

  check_reply-Safe :
      (mac : MacAddress) (code : StatusCode) (text : Text) (metrics : Option LinkMetrics)
      (o : Option DestinationState)
      → (elim o [ none ↦ false | some v ↦ true ]) ≡ true
      → Safe (check_reply fsm mac code text metrics o)
  unfolding check_reply
  check_reply-Safe mac code text metrics none h = absurd (cc)
  check_reply-Safe mac code text metrics (some d) h = ground (
    arith,
    encode-Safe
        (build_link_characteristics_reply mac code text (replied_metrics d.metrics metrics)),
  )

  scope_event-Safe :
      (e : FsmEvent) (info : CommandInfo)
      → command_of e ≡ some info
      → check_scope fsm e info.destination ≡ ok tt
      → Safe (check_event fsm e)
  unfolding check_event command_of
  scope_event-Safe (app_add_destination mac metrics addrs) info c h = ground (
    arith,
    validate-Safe (record { added = addrs; removed = no_addrs }),
    encode-Safe (build_destination_up mac (with_metrics metrics fsm.session_metrics) addrs),
  )
  scope_event-Safe (app_drop_destination mac reason) info c h = ground arith
  scope_event-Safe (app_update_metrics mac metrics) info c h = ground arith
  scope_event-Safe (app_update_addresses mac changes) info c h =
      check_addresses_of-Safe mac changes (get fsm.destinations mac)
  scope_event-Safe (app_session_update metrics) info c h = ground arith
  scope_event-Safe (app_link_characteristics_response mac code text metrics) info c h =
      let same : info.destination ≡ some mac = cc in
      let asked = scope_reply fsm mac code text metrics (rw same at h) in
      ground (
        arith,
        check_reply-Safe mac code text metrics (get fsm.destinations mac) ((sound mac asked).0),
      )
  scope_event-Safe (app_session_addresses changes) info c h =
      validate_local-Safe fsm.local_addresses changes
  scope_event-Safe e info c h = tt

  check_info-Safe :
      (e : FsmEvent) (info : CommandInfo)
      → command_of e ≡ some info
      → Safe (check_info fsm e (some info))
  unfolding check_info
  check_info-Safe e info c =
      Safe-if (is_unsupported e) _ (check_scope fsm e info.destination >> check_event fsm e) tt (
        Safe-then (check_scope fsm e info.destination) (check_event fsm e)
          (check_scope-Safe fsm e info.destination) (scope_event-Safe e info c))

  pub check_command-Safe :
      (e : FsmEvent) (info : CommandInfo) → command_of e ≡ some info → Safe (check_command fsm e)
  unfolding check_command
  check_command-Safe e info c =
      rw (check_command, c)
        (Safe-if (not (is_in_session fsm.state)) _ (check_info fsm e (some info)) tt
          (check_info-Safe e info c))

  -- What the check of a command accepts.
  pub accepted_command :
      (e : FsmEvent) (info : CommandInfo)
      → command_of e ≡ some info
      → check_command fsm e ≡ ok tt
      → (fsm.state ≡ ModemSessionState.in_session)
        × (check_scope fsm e info.destination ≡ ok tt)
        × (check_event fsm e ≡ ok tt)
  unfolding check_command check_info
  accepted_command e info c h = (inside_of fsm.state (ground arith), ground arith, ground arith)

  known_addresses :
      (mac : MacAddress) (changes : AddressChanges) (o : Option DestinationState)
      → check_addresses_of mac changes o ≡ ok tt
      → (d : DestinationState) × (o ≡ some d)
  unfolding check_addresses_of
  known_addresses mac changes none h = absurd (cc)
  known_addresses mac changes (some d) h = (d, refl)

  session_scope :
      (e : FsmEvent) (info : CommandInfo)
      → info.destination ≡ none
      → check_scope fsm e info.destination ≡ ok tt
      → session_busy fsm.tx ≡ false
  unfolding check_scope
  session_scope e info n h = let k = rw n at h in ground arith

  -- A command that the checks of its scope and of the event accept, in session.
  pub event-Stays :
      (e : FsmEvent) (info : CommandInfo)
      → command_of e ≡ some info
      → fsm.state ≡ ModemSessionState.in_session
      → check_scope fsm e info.destination ≡ ok tt
      → check_event fsm e ≡ ok tt
      → Ends Stays (when_in_session fsm e)
  unfolding when_in_session check_event command_of is_retained update_addresses
  event-Stays (app_add_destination mac metrics addrs) info c inside h k =
      let same : info.destination ≡ some mac = cc in
      let free =
        scope_free fsm (app_add_destination mac metrics addrs) mac (λ r. refl) (rw same at h) in
      add_destination-Stays fsm inside sound mac metrics addrs free (ground arith)
  event-Stays (app_drop_destination mac reason) info c inside h k =
      let same : info.destination ≡ some mac = cc in
      let scope = rw same at h in
      expecting-Ends Stays (get fsm.destinations mac) _ (found _ (ground arith)) λ d _.
        drop_destination-Stays fsm inside sound mac reason d
          (scope_free fsm (app_drop_destination mac reason) mac (λ r. refl) scope)
          (scope_drop fsm mac reason scope)
  event-Stays (app_update_metrics mac metrics) info c inside h k =
      expecting-Ends Stays (get fsm.destinations mac) _ (found _ (ground arith))
        λ d _. update_metrics-Stays fsm inside sound mac metrics d
  event-Stays (app_update_addresses mac changes) info c inside h k =
      expecting-Ends Stays (get fsm.destinations mac) _
        (known_addresses mac changes (get fsm.destinations mac) k)
        λ d _. tell_addresses-Stays fsm inside sound mac _
  event-Stays (app_session_update metrics) info c inside h k =
      update_session-Stays fsm inside sound metrics (session_scope _ info (cc) h)
  event-Stays (app_link_characteristics_response mac code text metrics) info c inside h k =
      let same : info.destination ≡ some mac = cc in
      let asked = scope_reply fsm mac code text metrics (rw same at h) in
      expecting-Ends Stays (get fsm.destinations mac) _ (found _ ((sound mac asked).0))
        λ d _. reply-Stays fsm inside sound mac code text metrics d
  event-Stays (app_session_addresses changes) info c inside h k =
      local-Stays fsm inside sound _ (local_update-Aside _ changes)
  event-Stays e info c inside h k = absurd (cc)
