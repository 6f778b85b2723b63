-- ===== src/Fsm/Router/Commands.antt =====
-- The commands of session_router.rs keep the invariant.
use dlep.Base.{
  true, List, Option, none, some, Result, ok, err, panic, get, insert, contains_key, ◌≡◌, refl, sym,
  arith, subst,
}
use dlep.Core.Ipnet.{Ipnet}
use dlep.Core.Mac.{MacAddress, mac_eq}
use dlep.Core.Metrics.{LinkCharacteristics}
use dlep.Core.Item.{Message}
use dlep.Fsm.Transaction.{RequestKind, open_destination, destination_busy}
use dlep.Fsm.Validation.Transactions.{is_kind}
use dlep.Fsm.Events.{
  CommandError, FsmEvent, app_drop_destination, app_request_link_characteristics,
  app_announce_destination, app_session_addresses, FsmAction,
}
use dlep.Fsm.Common.{Shared}
use dlep.Fsm.Common.Builders.{build_link_characteristics_request}
use dlep.Fsm.Session.Actions.{Ordinary}
use dlep.Fsm.Session.Machine.{Ends}
use dlep.Fsm.Session.Received.{both_ok}
use dlep.Fsm.Session.Safe.{Safe, encode-Safe, validate_local-Safe, Aside, local_update-Aside}
use dlep.Fsm.Router.{RouterSessionState, RouterSessionFsm}
use dlep.Fsm.Router.Checks.{
  is_in_session, known, check_scope, check_requested, check_event, check_command,
}
use dlep.Fsm.Router.Step.{requested, request_destination, locally_updated, when_in_session}
use dlep.Fsm.Router.Sound.{IsSound, Kept, Kept-open}
use dlep.Fsm.Router.Messages.{Stays}

pub inside_of :
    (state : RouterSessionState)
    → is_in_session state ≡ true
    → state ≡ RouterSessionState.in_session
inside_of RouterSessionState.in_session e = refl
inside_of state e = absurd (cc)

known_contains :
    (fsm : RouterSessionFsm) (mac : MacAddress)
    → known fsm mac ≡ true
    → contains_key fsm.destinations mac ≡ true
known_contains fsm mac e = ground arith

scope_free :
    (fsm : RouterSessionFsm) (mac : MacAddress)
    → check_scope fsm (some mac) ≡ ok tt
    → get fsm.tx.per_destination mac ≡ none
unfolding check_scope destination_busy
scope_free fsm mac e = ground arith

opened :
    (fsm : RouterSessionFsm) (mac : MacAddress) (kind : RequestKind)
    → get fsm.tx.per_destination mac ≡ none
    → open_destination fsm.tx mac kind ≡ (
      ok tt,
      record (fsm.tx) {
        per_destination = insert fsm.tx.per_destination mac (record { kind = kind });
      },
    )
unfolding open_destination
opened fsm mac kind free = rw (open_destination, free) refl

request-Stays :
    (fsm : RouterSessionFsm) (mac : MacAddress) (kind : RequestKind) (msg : Message)
    → fsm.state ≡ RouterSessionState.in_session
    → IsSound fsm
    → get fsm.tx.per_destination mac ≡ none
    → (is_kind kind RequestKind.link_characteristics ≡ true
        → contains_key fsm.destinations mac ≡ true)
    → Ends Stays (request_destination fsm mac kind msg)
unfolding request_destination requested Ordinary
request-Stays fsm mac kind msg inside sound free h =
    subst (λ o. Ends Stays (requested fsm msg o)) (sym (opened fsm mac kind free))
      ((refl, tt), inside, Kept-open fsm.tx.per_destination fsm.destinations sound mac kind h)

local-Stays :
    (fsm : RouterSessionFsm) (r : Result CommandError (List FsmAction) × Shared)
    → fsm.state ≡ RouterSessionState.in_session
    → IsSound fsm
    → Aside (record { tx = fsm.tx; locals = fsm.local_addresses }) r
    → Ends Stays (locally_updated fsm r)
unfolding locally_updated
local-Stays fsm (ok actions, t) inside sound (o, e) =
    (o, inside, subst (λ pending. Kept pending fsm.destinations) (sym e) sound)
local-Stays fsm (err reason, t) inside sound h = h
local-Stays fsm (panic, t) inside sound h = h

module _ ⦃ip : Ipnet⦄ where
  check_requested-Safe :
      (mac : MacAddress) (wanted : LinkCharacteristics) → Safe (check_requested mac wanted)
  unfolding check_requested
  check_requested-Safe mac wanted =
      ground (arith, encode-Safe (build_link_characteristics_request mac wanted))

  check_scope-Safe : (fsm : RouterSessionFsm) (mac : Option MacAddress) → Safe (check_scope fsm mac)
  unfolding check_scope
  check_scope-Safe fsm none = ground arith
  check_scope-Safe fsm (some mac) = ground arith

  check_event-Safe : (fsm : RouterSessionFsm) (e : FsmEvent) → Safe (check_event fsm e)
  unfolding check_event
  check_event-Safe fsm (app_drop_destination mac reason) =
      ground (arith, check_scope-Safe fsm (some mac))
  check_event-Safe fsm (app_request_link_characteristics mac wanted) =
      ground (arith, check_scope-Safe fsm (some mac), check_requested-Safe mac wanted)
  check_event-Safe fsm (app_announce_destination mac) =
      ground (arith, check_scope-Safe fsm (some mac))
  check_event-Safe fsm (app_session_addresses changes) =
      ground (arith, check_scope-Safe fsm none, validate_local-Safe fsm.local_addresses changes)
  check_event-Safe fsm e = tt

  pub check_command-Safe : (fsm : RouterSessionFsm) (e : FsmEvent) → Safe (check_command fsm e)
  unfolding check_command
  check_command-Safe fsm e = ground (arith, check_event-Safe fsm e)

  request_known :
      (fsm : RouterSessionFsm) (mac : MacAddress) (wanted : LinkCharacteristics)
      → check_event fsm (app_request_link_characteristics mac wanted) ≡ ok tt
      → known fsm mac ≡ true
  unfolding check_event
  request_known fsm mac wanted e = ground arith

  -- A command that the check of the event accepts, in session.
  pub event-Stays :
      (fsm : RouterSessionFsm) (e : FsmEvent)
      → fsm.state ≡ RouterSessionState.in_session
      → IsSound fsm
      → check_event fsm e ≡ ok tt
      → Ends Stays (when_in_session fsm e)
  unfolding when_in_session check_event
  event-Stays fsm (app_drop_destination mac reason) inside sound ok_ =
      request-Stays fsm mac RequestKind.destination_down _ inside sound
        (scope_free fsm mac ((both_ok _ _ ok_).0)) (λ h. absurd (cc))
  event-Stays fsm (app_request_link_characteristics mac wanted) inside sound ok_ =
      request-Stays fsm mac RequestKind.link_characteristics _ inside sound
        (scope_free fsm mac ((both_ok _ _ ok_).0))
        (λ h. known_contains fsm mac (request_known fsm mac wanted ok_))
  event-Stays fsm (app_announce_destination mac) inside sound ok_ =
      request-Stays fsm mac RequestKind.destination_announce _ inside sound
        (scope_free fsm mac ((both_ok _ _ ok_).0)) (λ h. absurd (cc))
  event-Stays fsm (app_session_addresses changes) inside sound ok_ =
      local-Stays fsm _ inside sound (local_update-Aside _ changes)
  event-Stays fsm e inside sound ok_ = absurd (cc)

  -- What the check of a command accepts.
  pub accepted_command :
      (fsm : RouterSessionFsm) (e : FsmEvent)
      → check_command fsm e ≡ ok tt
      → (fsm.state ≡ RouterSessionState.in_session) × (check_event fsm e ≡ ok tt)
  unfolding check_command
  accepted_command fsm e h = (inside_of fsm.state (ground arith), ground arith)
