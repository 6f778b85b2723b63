-- ===== src/Fsm/Modem/Messages.antt =====
-- The handlers of messages in session_modem.rs keep the invariant.
use dlep.Base.{
  ◌==◌, not, ◌||◌, List, Option, none, some, ok, get, insert, ◌≡◌, refl, if_rule, nat_eq,
}
use dlep.Core.Ipnet.{Ipnet}
use dlep.Core.Mac.{MacAddress, mac_eq}
use dlep.Core.Status.{StatusCode, success}
use dlep.Core.Item.{Message}
use dlep.Fsm.Transaction.{close_destination, close_session}
use dlep.Fsm.Addresses.{apply_strict, from_message, between, changes_empty}
use dlep.Fsm.Validation.Transactions.{extract_destination_mac}
use dlep.Fsm.Events.{FsmAction}
use dlep.Fsm.Session.Actions.{Ordinary, Ordinary-append, reset-Ordinary, changed-Ordinary}
use dlep.Fsm.Session.Machine.{Ends, expecting_ok-Ends}
use dlep.Fsm.Modem.{ModemSessionState, ModemSessionFsm, DestinationState}
use dlep.Fsm.Modem.Handlers.{
  on_destination_up_response, up_answered_for, up_answered, announced_now, on_session_update,
  session_updated,
}
use dlep.Fsm.Modem.Basic.{refresh, on_session_update_response, note_announced}
use dlep.Fsm.Modem.Sound.{IsSound, Kept-insert, Kept-close}

-- What a handler in session leaves.
abbrev pub Stays : List FsmAction → ModemSessionFsm → Type 0
Stays actions fsm = Ordinary actions × (fsm.state ≡ ModemSessionState.in_session) × IsSound fsm

pub refresh-Stays :
    (fsm : ModemSessionFsm)
    → fsm.state ≡ ModemSessionState.in_session
    → IsSound fsm
    → Ends Stays (refresh fsm)
refresh-Stays fsm inside sound = (reset-Ordinary fsm.peer_heartbeat_interval, inside, sound)

module _ (fsm : ModemSessionFsm) (inside : fsm.state ≡ ModemSessionState.in_session)
    (sound : IsSound fsm) where
  pub with_destination :
      (mac : MacAddress) (d : DestinationState)
      → IsSound (record fsm { destinations = insert fsm.destinations mac d })
  with_destination mac d =
      Kept-insert fsm.tx.per_destination fsm.destinations fsm.pending_link_requests sound mac d

  announced_now-Stays :
      ⦃ip : Ipnet⦄ (mac : MacAddress) (d : DestinationState) → Ends Stays (announced_now fsm mac d)
  unfolding announced_now Ordinary
  announced_now-Stays mac d =
      if_rule (Ends Stays)
        (d.pending_metrics || not (changes_empty (between d.advertised_addrs d.addrs)))
        (λ _. ((refl, reset-Ordinary fsm.peer_heartbeat_interval), inside, with_destination mac _))
        (λ _. (reset-Ordinary fsm.peer_heartbeat_interval, inside, with_destination mac _))

  up_answered-Stays :
      ⦃ip : Ipnet⦄ (mac : MacAddress) (code : StatusCode) (o : Option DestinationState)
      → Ends Stays (up_answered fsm mac code o)
  unfolding up_answered
  up_answered-Stays mac code none = refresh-Stays fsm inside sound
  up_answered-Stays mac code (some d) =
      if_rule (Ends Stays) (code == success) {x = announced_now fsm mac d}
        (λ _. announced_now-Stays mac d)
        (λ _. (reset-Ordinary fsm.peer_heartbeat_interval, inside, with_destination mac _))

module _ (fsm : ModemSessionFsm) (inside : fsm.state ≡ ModemSessionState.in_session)
    (sound : IsSound fsm) where
  closed : (mac : MacAddress) → IsSound (record fsm { tx = (close_destination fsm.tx mac).1 })
  unfolding close_destination
  closed mac =
      Kept-close fsm.tx.per_destination fsm.destinations fsm.pending_link_requests sound mac

  up_answered_for-Stays :
      ⦃ip : Ipnet⦄ (code : StatusCode) (o : Option MacAddress)
      → Ends Stays (up_answered_for fsm code o)
  unfolding up_answered_for
  up_answered_for-Stays code none = refresh-Stays fsm inside sound
  up_answered_for-Stays code (some mac) =
      up_answered-Stays (record fsm { tx = (close_destination fsm.tx mac).1 }) inside (closed mac)
        mac code (get fsm.destinations mac)

  pub on_destination_up_response-Stays :
      ⦃ip : Ipnet⦄ (msg : Message) → Ends Stays (on_destination_up_response fsm msg)
  unfolding on_destination_up_response
  on_destination_up_response-Stays msg = up_answered_for-Stays _ (extract_destination_mac msg)

  pub on_session_update-Stays :
      ⦃ip : Ipnet⦄ (msg : Message)
      → (apply_strict (from_message msg) fsm.peer_addresses).0 ≡ ok tt
      → Ends Stays (on_session_update fsm msg)
  unfolding on_session_update session_updated Ordinary
  on_session_update-Stays msg applied =
      expecting_ok-Ends Stays (apply_strict (from_message msg) fsm.peer_addresses).0 _ applied (
        (
          refl,
          Ordinary-append _ _ (changed-Ordinary _ _) (reset-Ordinary fsm.peer_heartbeat_interval),
        ),
        inside,
        sound,
      )

  pub on_session_update_response-Stays :
      (msg : Message) → Ends Stays (on_session_update_response fsm msg)
  unfolding on_session_update_response close_session
  on_session_update_response-Stays msg = (reset-Ordinary fsm.peer_heartbeat_interval, inside, sound)

  pub note_announced-IsSound :
      (mac : MacAddress) (o : Option DestinationState)
      → ((note_announced fsm mac o).state ≡ ModemSessionState.in_session)
        × IsSound (note_announced fsm mac o)
  unfolding note_announced
  note_announced-IsSound mac none = (inside, sound)
  note_announced-IsSound mac (some d) = (inside, with_destination fsm inside sound mac _)
