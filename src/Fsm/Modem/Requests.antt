-- ===== src/Fsm/Modem/Requests.antt =====
-- The answers to the requests of the router keep the invariant of session_modem.rs.
use dlep.Base.{
  true, false, [], ◌∷◌, Option, none, some, ok, get, remove, ◌≡◌, refl, arith, if_rule, contains,
  nat_eq, Option-cases, inl, inr,
}
use dlep.Core.Ids.{
  MessageType, item_mac_address, msg_destination_down, msg_destination_down_response,
  msg_destination_announce, msg_link_characteristics_request,
}
use dlep.Core.Ipnet.{Ipnet}
use dlep.Core.Mac.{MacAddress, mac_eq}
use dlep.Core.Item.{Message}
use dlep.Fsm.Transaction.{RequestKind, PendingRequest, close_destination}
use dlep.Fsm.Validation.{validate_message, required_items, one_of}
use dlep.Fsm.Validation.Transactions.{
  extract_destination_mac, validate_transaction, validate_destination, response_kind, pending_is,
}
use dlep.Fsm.Validation.Requests.{
  is_request, request_kind, not_busy, validated_destination, close_validated,
}
use dlep.Fsm.Session.Actions.{Ordinary, Ordinary-append, reset-Ordinary}
use dlep.Fsm.Session.Machine.{Ends, expecting-Ends}
use dlep.Fsm.Session.Received.{mac_found, requires}
use dlep.Fsm.Modem.{ModemSessionState, ModemSessionFsm, DestinationState}
use dlep.Fsm.Modem.Checks.{known_opt}
use dlep.Fsm.Modem.Handlers.{on_announce, announced}
use dlep.Fsm.Modem.Basic.{
  on_destination_down, destination_downed, on_destination_down_response, destination_dropped,
  on_characteristics_request, characteristics_requested,
}
use dlep.Fsm.Modem.Sound.{IsSound, Kept, Kept-remove, Kept-close, Kept-ask, not_asked}
use dlep.Fsm.Modem.Messages.{Stays, refresh-Stays, with_destination, note_announced-IsSound}

requires_mac :
    (mt : MessageType)
    → one_of mt
        (msg_destination_down ∷ msg_destination_announce ∷ msg_link_characteristics_request ∷ [])
      ≡ true
    → requires mt item_mac_address ≡ true
unfolding required_items contains
requires_mac mt h = ground arith

-- A request that is known to be pending is one.
pending_some :
    (kind : RequestKind) (o : Option PendingRequest)
    → pending_is kind o ≡ true
    → (r : PendingRequest) × (o ≡ some r)
pending_some kind none h = absurd (cc)
pending_some kind (some r) h = (r, refl)

module _ ⦃ip : Ipnet⦄ (fsm : ModemSessionFsm) (msg : Message)
    (inside : fsm.state ≡ ModemSessionState.in_session) (sound : IsSound fsm)
    (valid : validate_message msg false false fsm.config.advertised_extensions ≡ ok tt)
    (free : validate_transaction msg fsm.tx (known_opt fsm (extract_destination_mac msg))
      ≡ ok tt) where
  found_mac :
      requires msg.message_type item_mac_address ≡ true
      → (mac : MacAddress) × (extract_destination_mac msg ≡ some mac)
  found_mac = mac_found msg false false fsm.config.advertised_extensions valid

  -- A request about a destination that must be announced.
  known_destination :
      (mac : MacAddress)
      → extract_destination_mac msg ≡ some mac
      → one_of msg.message_type (msg_destination_down ∷ msg_link_characteristics_request ∷ [])
        ≡ true
      → (d : DestinationState) × (get fsm.destinations mac ≡ some d)
  unfolding validate_destination response_kind contains
  known_destination mac m e = elim (Option-cases (get fsm.destinations mac)) [
    | inr found ↦ found
    | inl n ↦
        let none_known : known_opt fsm (extract_destination_mac msg) ≡ false = rw (m, n) refl in
        absurd (ground (arith, validated_destination msg fsm.tx _ mac m free))
  ]

  idle_destination :
      (mac : MacAddress)
      → extract_destination_mac msg ≡ some mac
      → is_request msg.message_type ≡ true
      → get fsm.tx.per_destination mac ≡ none
  idle_destination mac m asked =
      not_busy msg.message_type mac fsm.tx _ asked (request_kind msg.message_type asked)
        (validated_destination msg fsm.tx _ mac m free)

  pub on_destination_down-Stays :
      msg.message_type ≡ msg_destination_down → Ends Stays (on_destination_down fsm msg)
  unfolding on_destination_down destination_downed contains Ordinary
  on_destination_down-Stays e =
      expecting-Ends Stays (extract_destination_mac msg) _
        (found_mac (requires_mac msg.message_type (ground arith)))
        λ mac found.
          expecting-Ends Stays (get fsm.destinations mac) (destination_downed fsm mac)
            (known_destination mac found (ground arith))
            λ d _. (
              (refl, (refl, reset-Ordinary fsm.peer_heartbeat_interval)),
              inside,
              with_destination fsm inside sound mac _,
            )

  dropped-Stays :
      (o : Option MacAddress)
      → extract_destination_mac msg ≡ o
      → msg.message_type ≡ msg_destination_down_response
      → Ends Stays (destination_dropped fsm o)
  unfolding destination_dropped close_destination response_kind
  dropped-Stays none m e = refresh-Stays fsm inside sound
  dropped-Stays (some mac) m e =
      let (r, some_pending) =
        pending_some RequestKind.destination_down (get fsm.tx.per_destination mac)
          (close_validated msg fsm.tx _ mac RequestKind.destination_down (ground arith) m free) in
      let unasked =
        not_asked fsm.tx.per_destination fsm.destinations fsm.pending_link_requests sound mac r
          some_pending in
      (
        reset-Ordinary fsm.peer_heartbeat_interval,
        inside,
        Kept-close fsm.tx.per_destination (remove fsm.destinations mac) fsm.pending_link_requests
            (Kept-remove fsm.tx.per_destination fsm.destinations fsm.pending_link_requests sound mac
              unasked)
            mac,
      )

  pub on_destination_down_response-Stays :
      msg.message_type ≡ msg_destination_down_response
      → Ends Stays (on_destination_down_response fsm msg)
  unfolding on_destination_down_response
  on_destination_down_response-Stays e = dropped-Stays (extract_destination_mac msg) refl e

  pub on_announce-Stays :
      msg.message_type ≡ msg_destination_announce → Ends Stays (on_announce fsm msg)
  unfolding on_announce announced contains Ordinary
  on_announce-Stays e =
      expecting-Ends Stays (extract_destination_mac msg) (announced fsm msg)
        (found_mac (requires_mac msg.message_type (ground arith)))
        λ mac found.
          let (state, kept) =
            note_announced-IsSound fsm inside sound mac (get fsm.destinations mac) in
          ((refl, (refl, reset-Ordinary fsm.peer_heartbeat_interval)), state, kept)

  requested-Stays :
      (mac : MacAddress) (d : DestinationState)
      → get fsm.destinations mac ≡ some d
      → get fsm.tx.per_destination mac ≡ none
      → Ends Stays (characteristics_requested fsm msg mac d)
  unfolding characteristics_requested Ordinary
  requested-Stays mac d known idle = (
    Ordinary-append _ _
        (if_rule Ordinary fsm.config.defer_link_characteristics (λ _. tt) (λ _. (refl, tt)))
        (refl, reset-Ordinary fsm.peer_heartbeat_interval),
    inside,
    if_rule (Kept fsm.tx.per_destination fsm.destinations) fsm.config.defer_link_characteristics
        (λ _.
          Kept-ask fsm.tx.per_destination fsm.destinations fsm.pending_link_requests sound mac
            (ground arith) idle)
        (λ _. sound),
  )

  pub on_characteristics_request-Stays :
      msg.message_type ≡ msg_link_characteristics_request
      → Ends Stays (on_characteristics_request fsm msg)
  unfolding on_characteristics_request contains
  on_characteristics_request-Stays e =
      expecting-Ends Stays (extract_destination_mac msg) _
        (found_mac (requires_mac msg.message_type (ground arith)))
        λ mac found.
          expecting-Ends Stays (get fsm.destinations mac) (characteristics_requested fsm msg mac)
            (known_destination mac found (ground arith))
            λ d known. requested-Stays mac d known (idle_destination mac found (ground arith))
