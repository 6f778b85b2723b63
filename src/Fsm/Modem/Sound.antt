-- ===== src/Fsm/Modem/Sound.antt =====
-- The invariant of the modem machine of session_modem.rs, and how maps keep it.
use dlep.Base.{
  true, false, not, List, none, some, Map, get, insert, remove, map_values, contains_key,
  get-insert, get-remove, get-map_values, contains, retain, contains-retain, ◌≡◌, arith, ◌≟◌,
}
use dlep.Core.Mac.{MacAddress, mac_eq}
use dlep.Fsm.Transaction.{RequestKind, PendingRequest}
use dlep.Fsm.Session.Lifecycle.{Phase}
use dlep.Fsm.Modem.{ModemSessionState, ModemSessionFsm, DestinationState}
use dlep.Fsm.Modem.Basic.{add_pending}

abbrev pub phase_of : ModemSessionState → Phase
phase_of ModemSessionState.listening = Phase.idle
phase_of ModemSessionState.awaiting_session_init = Phase.initializing
phase_of ModemSessionState.in_session = Phase.active
phase_of ModemSessionState.terminating = Phase.closing
phase_of ModemSessionState.terminated = Phase.over

-- A destination whose link request awaits the application's answer is known, and the modem has no
-- request of its own about it.
abbrev pub Kept :
    Map MacAddress PendingRequest → Map MacAddress DestinationState → List MacAddress → Type 0
Kept pending destinations asked =
    (mac : MacAddress)
    → contains asked mac ≡ true
    → (contains_key destinations mac ≡ true) × (get pending mac ≡ none)

abbrev pub IsSound : ModemSessionFsm → Type 0
IsSound fsm = Kept fsm.tx.per_destination fsm.destinations fsm.pending_link_requests

module _ (pending : Map MacAddress PendingRequest) (destinations : Map MacAddress DestinationState)
    (asked : List MacAddress) (kept : Kept pending destinations asked) where
  pub Kept-insert :
      (k : MacAddress) (d : DestinationState) → Kept pending (insert destinations k d) asked
  Kept-insert k d mac p = ground (arith, kept mac p, get-insert destinations k mac d)

  pub Kept-remove :
      (k : MacAddress) → contains asked k ≡ false → Kept pending (remove destinations k) asked
  Kept-remove k n mac p =
      ground (arith, kept mac p, get-remove destinations k mac, mac_eq.beq_iff k mac)

  pub Kept-close : (k : MacAddress) → Kept (remove pending k) destinations asked
  Kept-close k mac p = ground (arith, kept mac p, get-remove pending k mac)

  pub Kept-open :
      (k : MacAddress) (kind : RequestKind)
      → contains asked k ≡ false
      → Kept (insert pending k (record { kind = kind })) destinations asked
  Kept-open k kind n mac p =
      ground
        (arith, kept mac p, get-insert pending k mac (record { kind = kind }), mac_eq.beq_iff k mac)

  pub Kept-ask :
      (k : MacAddress)
      → contains_key destinations k ≡ true
      → get pending k ≡ none
      → Kept pending destinations (add_pending asked k)
  unfolding add_pending contains
  Kept-ask k d n mac p = ground (arith, kept mac, mac_eq.beq_iff k mac)

  pub Kept-answer : (k : MacAddress) → Kept pending destinations (retain (λ m. not (m ≟ k)) asked)
  Kept-answer k mac p = kept mac (ground (arith, contains-retain (λ m. not (m ≟ k)) asked mac))

  pub Kept-map :
      (f : DestinationState → DestinationState) → Kept pending (map_values f destinations) asked
  Kept-map f mac p = ground (arith, kept mac p, get-map_values f destinations mac)

  -- A request of the modem's own, or a destination that is not known, leaves no link request.
  pub not_asked :
      (k : MacAddress) (r : PendingRequest) → get pending k ≡ some r → contains asked k ≡ false
  not_asked k r e = ground (arith, kept k)

  pub not_asked_unknown :
      (k : MacAddress) → contains_key destinations k ≡ false → contains asked k ≡ false
  not_asked_unknown k e = ground (arith, kept k)
