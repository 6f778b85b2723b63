-- ===== src/Fsm/Router/Sound.antt =====
-- The invariant of the router machine of session_router.rs, and how maps keep it.
use dlep.Base.{
  true, false, Map, get, insert, remove, map_values, contains_key, get-insert, get-remove,
  get-map_values, ◌≡◌, arith,
}
use dlep.Core.Mac.{MacAddress, mac_eq}
use dlep.Fsm.Transaction.{RequestKind, PendingRequest}
use dlep.Fsm.Validation.Transactions.{pending_is, is_kind}
use dlep.Fsm.Session.Lifecycle.{Phase}
use dlep.Fsm.Router.{RouterSessionState, RouterSessionFsm, DestinationState}

abbrev pub phase_of : RouterSessionState → Phase
phase_of RouterSessionState.closed = Phase.idle
phase_of RouterSessionState.session_init_pending = Phase.initializing
phase_of RouterSessionState.in_session = Phase.active
phase_of RouterSessionState.terminating = Phase.closing
phase_of RouterSessionState.terminated = Phase.over

-- A destination whose characteristics have been asked for is known.
abbrev pub Kept : Map MacAddress PendingRequest → Map MacAddress DestinationState → Type 0
Kept pending destinations =
    (mac : MacAddress)
    → pending_is RequestKind.link_characteristics (get pending mac) ≡ true
    → contains_key destinations mac ≡ true

abbrev pub IsSound : RouterSessionFsm → Type 0
IsSound fsm = Kept fsm.tx.per_destination fsm.destinations

module _ (pending : Map MacAddress PendingRequest) (destinations : Map MacAddress DestinationState)
    (kept : Kept pending destinations) where
  pub Kept-insert : (k : MacAddress) (d : DestinationState) → Kept pending (insert destinations k d)
  Kept-insert k d mac p = ground (arith, kept mac p, get-insert destinations k mac d)

  pub Kept-remove :
      (k : MacAddress)
      → pending_is RequestKind.link_characteristics (get pending k) ≡ false
      → Kept pending (remove destinations k)
  Kept-remove k n mac p =
      ground (arith, kept mac p, get-remove destinations k mac, mac_eq.beq_iff k mac)

  pub Kept-close : (k : MacAddress) → Kept (remove pending k) destinations
  Kept-close k mac p = kept mac (ground (arith, get-remove pending k mac))

  pub Kept-drop : (k : MacAddress) → Kept (remove pending k) (remove destinations k)
  Kept-drop k mac p =
      ground (arith, kept mac, get-remove pending k mac, get-remove destinations k mac)

  pub Kept-open :
      (k : MacAddress) (kind : RequestKind)
      → (is_kind kind RequestKind.link_characteristics ≡ true → contains_key destinations k ≡ true)
      → Kept (insert pending k (record { kind = kind })) destinations
  Kept-open k kind h mac p =
      ground
        (arith, kept mac, get-insert pending k mac (record { kind = kind }), mac_eq.beq_iff k mac)

  pub Kept-map :
      (f : DestinationState → DestinationState) → Kept pending (map_values f destinations)
  Kept-map f mac p = ground (arith, kept mac p, get-map_values f destinations mac)
