-- ===== src/Fsm/Router/Messages.antt =====
-- The handlers of messages in session_router.rs keep the invariant.
use dlep.Base.{
  true, false, List, [], ◌∷◌, some, ok, get, remove, ◌≡◌, refl, arith, if_rule, contains, nat_eq,
  Option-cases, inl, inr,
}
use dlep.Core.Ids.{
  MessageType, item_mac_address, msg_destination_up, msg_destination_update, msg_destination_down,
  msg_destination_down_response, msg_destination_announce_response,
  msg_link_characteristics_response,
}
use dlep.Core.Ipnet.{Ipnet}
use dlep.Core.Mac.{MacAddress, mac_eq}
use dlep.Core.Item.{Message}
use dlep.Fsm.Transaction.{RequestKind, close_destination, close_session}
use dlep.Fsm.Addresses.{apply_strict, from_message}
use dlep.Fsm.Validation.{validate_message, required_items, one_of}
use dlep.Fsm.Validation.Transactions.{
  extract_destination_mac, validate_transaction, validate_destination, response_kind,
}
use dlep.Fsm.Validation.Requests.{
  is_request, request_kind, not_busy, validated_destination, close_validated,
}
use dlep.Fsm.Events.{FsmAction}
use dlep.Fsm.Common.Builders.{extract_status, find_map, status_of, merge_link_metrics}
use dlep.Fsm.Session.Actions.{
  Ordinary, Ordinary-append, reset-Ordinary, when_found-Ordinary, changed-Ordinary,
}
use dlep.Fsm.Session.Machine.{Ends, expecting-Ends, expecting_ok-Ends}
use dlep.Fsm.Session.Received.{mac_found, status_found, requires}
use dlep.Fsm.Router.{RouterSessionState, RouterSessionFsm, DestinationState}
use dlep.Fsm.Router.Checks.{known_opt}
use dlep.Fsm.Router.Handlers.{
  on_destination_up, destination_upped, on_destination_update, destination_updated,
  on_session_update, session_updated, on_announce_response, announcement_answered,
}
use dlep.Fsm.Router.Basic.{
  refresh, on_destination_down, destination_downed, on_destination_down_response,
  destination_dropped, merge_all, on_session_update_response, is_success,
  on_characteristics_response, characteristics_answered, status_text,
}
use dlep.Fsm.Router.Sound.{IsSound, Kept, Kept-insert, Kept-remove, Kept-close, Kept-drop, Kept-map}

-- What a handler in session leaves.
abbrev pub Stays : List FsmAction → RouterSessionFsm → Type 0
Stays actions fsm = Ordinary actions × (fsm.state ≡ RouterSessionState.in_session) × IsSound fsm

requires_mac :
    (mt : MessageType)
    → one_of mt (
        msg_destination_up ∷ msg_destination_update ∷ msg_destination_down
        ∷ msg_destination_down_response ∷ msg_destination_announce_response
        ∷ msg_link_characteristics_response ∷ [])
      ≡ true
    → requires mt item_mac_address ≡ true
unfolding required_items contains
requires_mac mt h = ground arith

module _ ⦃ip : Ipnet⦄ (fsm : RouterSessionFsm) (msg : Message)
    (inside : fsm.state ≡ RouterSessionState.in_session) (sound : IsSound fsm)
    (valid : validate_message msg true false fsm.config.advertised_extensions ≡ ok tt)
    (free : validate_transaction msg fsm.tx (known_opt fsm (extract_destination_mac msg))
      ≡ ok tt) where
  pub on_destination_up-Stays :
      msg.message_type ≡ msg_destination_up → Ends Stays (on_destination_up fsm msg)
  unfolding on_destination_up destination_upped contains Ordinary
  on_destination_up-Stays e =
      expecting-Ends Stays (extract_destination_mac msg) (destination_upped fsm msg)
        (mac_found msg true false fsm.config.advertised_extensions valid
          (requires_mac msg.message_type (ground arith)))
        λ mac found. (
          (refl, (refl, reset-Ordinary fsm.peer_heartbeat_interval)),
          inside,
          Kept-insert fsm.tx.per_destination fsm.destinations sound mac _,
        )

  found_mac :
      requires msg.message_type item_mac_address ≡ true
      → (mac : MacAddress) × (extract_destination_mac msg ≡ some mac)
  found_mac = mac_found msg true false fsm.config.advertised_extensions valid

  known_destination :
      (mac : MacAddress)
      → extract_destination_mac msg ≡ some mac
      → msg.message_type ≡ msg_destination_update
      → (d : DestinationState) × (get fsm.destinations mac ≡ some d)
  unfolding validate_destination response_kind contains
  known_destination mac m e = elim (Option-cases (get fsm.destinations mac)) [
    | inr found ↦ found
    | inl n ↦
        let none_known : known_opt fsm (extract_destination_mac msg) ≡ false = rw (m, n) refl in
        absurd (ground (arith, validated_destination msg fsm.tx _ mac m free))
  ]

  pub on_destination_update-Stays :
      msg.message_type ≡ msg_destination_update → Ends Stays (on_destination_update fsm msg)
  unfolding on_destination_update destination_updated contains
  on_destination_update-Stays e =
      expecting-Ends Stays (extract_destination_mac msg) _
        (found_mac (requires_mac msg.message_type (ground arith)))
        λ mac found.
          expecting-Ends Stays (get fsm.destinations mac) (destination_updated fsm msg mac)
            (known_destination mac found e)
            λ d _. (
              Ordinary-append _ _ (when_found-Ordinary _ _ refl) (
                  Ordinary-append _ _ (when_found-Ordinary _ _ refl)
                    (reset-Ordinary fsm.peer_heartbeat_interval)),
              inside,
              Kept-insert fsm.tx.per_destination fsm.destinations sound mac _,
            )

  pub on_destination_down-Stays :
      msg.message_type ≡ msg_destination_down → Ends Stays (on_destination_down fsm msg)
  unfolding on_destination_down destination_downed contains Ordinary
  on_destination_down-Stays e =
      expecting-Ends Stays (extract_destination_mac msg) _
        (found_mac (requires_mac msg.message_type (ground arith)))
        λ mac found.
          let asked : is_request msg.message_type ≡ true = ground arith in
          let idle =
            not_busy msg.message_type mac fsm.tx _ asked (request_kind msg.message_type asked)
              (validated_destination msg fsm.tx _ mac found free) in
          (
            (refl, (refl, reset-Ordinary fsm.peer_heartbeat_interval)),
            inside,
            Kept-remove fsm.tx.per_destination fsm.destinations sound mac (rw idle refl),
          )

  pub on_destination_down_response-Stays :
      msg.message_type ≡ msg_destination_down_response
      → Ends Stays (on_destination_down_response fsm msg)
  unfolding on_destination_down_response destination_dropped contains close_destination Ordinary
      extract_status required_items
  on_destination_down_response-Stays e =
      expecting-Ends Stays (extract_destination_mac msg) _
        (found_mac (requires_mac msg.message_type (ground arith)))
        λ mac found.
          expecting-Ends Stays (extract_status msg) (destination_dropped fsm mac)
            (status_found status_of msg true false fsm.config.advertised_extensions
              (λ code text. (code, refl)) valid (ground arith))
            λ reason _. (
              (refl, reset-Ordinary fsm.peer_heartbeat_interval),
              inside,
              Kept-drop fsm.tx.per_destination fsm.destinations sound mac,
            )

  pub on_session_update-Stays :
      (apply_strict (from_message msg) fsm.peer_addresses).0 ≡ ok tt
      → Ends Stays (on_session_update fsm msg)
  unfolding on_session_update session_updated merge_all Ordinary
  on_session_update-Stays applied =
      expecting_ok-Ends Stays (apply_strict (from_message msg) fsm.peer_addresses).0 _ applied (
        (
          refl,
          Ordinary-append _ _ (changed-Ordinary _ _) (
              Ordinary-append _ _ (when_found-Ordinary _ _ refl)
                (reset-Ordinary fsm.peer_heartbeat_interval)),
        ),
        inside,
        if_rule (Kept fsm.tx.per_destination) (merge_link_metrics msg fsm.session_metrics).0
            (λ _. Kept-map fsm.tx.per_destination fsm.destinations sound _) (λ _. sound),
      )

  pub on_session_update_response-Stays : Ends Stays (on_session_update_response fsm msg)
  unfolding on_session_update_response close_session
  on_session_update_response-Stays = (reset-Ordinary fsm.peer_heartbeat_interval, inside, sound)

  pub on_announce_response-Stays :
      msg.message_type ≡ msg_destination_announce_response
      → Ends Stays (on_announce_response fsm msg)
  unfolding on_announce_response announcement_answered contains close_destination Ordinary
  on_announce_response-Stays e =
      expecting-Ends Stays (extract_destination_mac msg) _
        (found_mac (requires_mac msg.message_type (ground arith)))
        λ mac found.
          let closed = Kept-close fsm.tx.per_destination fsm.destinations sound mac in
          if_rule (Ends Stays) (is_success (extract_status msg))
            (λ _. (
              (refl, reset-Ordinary fsm.peer_heartbeat_interval),
              inside,
              Kept-insert (remove fsm.tx.per_destination mac) fsm.destinations closed mac _,
            ))
            (λ _. (reset-Ordinary fsm.peer_heartbeat_interval, inside, closed))

  asked_destination :
      (mac : MacAddress)
      → extract_destination_mac msg ≡ some mac
      → msg.message_type ≡ msg_link_characteristics_response
      → (d : DestinationState) × (get fsm.destinations mac ≡ some d)
  unfolding response_kind close_destination
  asked_destination mac m e =
      let pending =
        close_validated msg fsm.tx _ mac RequestKind.link_characteristics (ground arith) m free in
      let known = sound mac pending in
      elim (Option-cases (get fsm.destinations mac)) [
        | inr found ↦ found
        | inl n ↦ absurd (ground arith)
      ]

  pub on_characteristics_response-Stays :
      msg.message_type ≡ msg_link_characteristics_response
      → Ends Stays (on_characteristics_response fsm msg)
  unfolding on_characteristics_response characteristics_answered contains close_destination Ordinary
      required_items
  on_characteristics_response-Stays e =
      expecting-Ends Stays (extract_destination_mac msg) _
        (found_mac (requires_mac msg.message_type (ground arith)))
        λ mac found.
          expecting-Ends Stays (get fsm.destinations mac) _ (asked_destination mac found e) λ d _.
            expecting-Ends Stays (find_map status_text msg.data_items) _
              (status_found status_text msg true false fsm.config.advertised_extensions
                (λ code text. ((code, text), refl)) valid (ground arith))
              λ (code, text) _.
                let closed = Kept-close fsm.tx.per_destination fsm.destinations sound mac in
                (
                  (refl, reset-Ordinary fsm.peer_heartbeat_interval),
                  inside,
                  Kept-insert (remove fsm.tx.per_destination mac) fsm.destinations closed mac _,
                )

  pub refresh-Stays : Ends Stays (refresh fsm)
  refresh-Stays = (reset-Ordinary fsm.peer_heartbeat_interval, inside, sound)
