-- ===== src/Fsm/Modem/Legal.antt =====
-- `ModemSessionFsm::step` of session_modem.rs is a session machine: it keeps its invariant, does
-- not panic, and goes through the phases of a session.
use dlep.Base.{◌==◌, ==_iff, false, if◌then◌else◌, [], ok, ◌≡◌, refl, sym, if_rule, nat_eq, subst}
use dlep.Core.Ids.{
  MessageType, msg_session_termination, msg_session_update, msg_destination_up_response,
  msg_destination_down, msg_destination_down_response, msg_session_update_response,
  msg_destination_announce, msg_link_characteristics_request, msg_heartbeat,
}
use dlep.Core.Ipnet.{Ipnet}
use dlep.Core.Mac.{mac_eq}
use dlep.Core.Status.{StatusCode, unexpected_message}
use dlep.Core.Item.{DataItem, Message}
use dlep.Fsm.Addresses.{apply_strict, from_message}
use dlep.Fsm.Validation.{validate_message}
use dlep.Fsm.Validation.Transactions.{extract_destination_mac, validate_transaction}
use dlep.Fsm.Session.{Run, ran}
use dlep.Fsm.Session.Lifecycle.{Phase, Legal}
use dlep.Fsm.Session.Actions.{Ordinary-Legal}
use dlep.Fsm.Session.Steps.{idle-Legal, error-Legal, over-Legal}
use dlep.Fsm.Session.Machine.{Ends, Ends-map}
use dlep.Fsm.Session.Received.{IsStatus}
use dlep.Fsm.Modem.{ModemSessionState, ModemSessionFsm, fail_with, protocol_error}
use dlep.Fsm.Modem.Checks.{known_opt}
use dlep.Fsm.Modem.Handlers.{on_message}
use dlep.Fsm.Modem.Basic.{on_termination}
use dlep.Fsm.Modem.Sound.{phase_of, IsSound}
use dlep.Fsm.Modem.Messages.{
  Stays, on_destination_up_response-Stays, on_session_update-Stays,
  on_session_update_response-Stays, refresh-Stays,
}
use dlep.Fsm.Modem.Requests.{
  on_destination_down-Stays, on_destination_down_response-Stays, on_announce-Stays,
  on_characteristics_request-Stays,
}

-- A run out of a phase is a legal step to a sound machine.
abbrev pub Good : Phase → Run ModemSessionFsm → Type 0
Good p = Ends λ actions next. Legal p actions (phase_of next.state) × IsSound next

pub Stays-Good : (r : Run ModemSessionFsm) → Ends Stays r → Good Phase.active r
Stays-Good r h =
    Ends-map Stays _ r
      (λ xs fsm (o, s, k).
        (subst (λ state. Legal Phase.active xs (phase_of state)) (sym s) (Ordinary-Legal xs o), k))
      h

pub stays_put :
    (fsm : ModemSessionFsm) (state : ModemSessionState)
    → fsm.state ≡ state
    → IsSound fsm
    → Good (phase_of state) (ran [] fsm)
stays_put fsm state e s = (rw e (idle-Legal (phase_of state)), s)

fail_with-Good :
    (state : ModemSessionState) (fsm : ModemSessionFsm) (code : StatusCode) (item : DataItem)
    → fsm.state ≡ state
    → IsSound fsm
    → Good (phase_of state) (fail_with state fsm code item)
unfolding fail_with
fail_with-Good ModemSessionState.terminating fsm code item e s = stays_put fsm _ e s
fail_with-Good ModemSessionState.terminated fsm code item e s = stays_put fsm _ e s
fail_with-Good ModemSessionState.listening fsm code item e s =
    (error-Legal Phase.idle fsm.config item refl, s)
fail_with-Good ModemSessionState.awaiting_session_init fsm code item e s =
    (over-Legal Phase.initializing _ refl refl (λ h. absurd (cc)), s)
fail_with-Good ModemSessionState.in_session fsm code item e s =
    (error-Legal Phase.active fsm.config item refl, s)

pub protocol_error-Good :
    (fsm : ModemSessionFsm) (item : DataItem)
    → IsStatus item
    → IsSound fsm
    → Good (phase_of fsm.state) (protocol_error fsm item)
unfolding protocol_error
protocol_error-Good fsm (DataItem.status code text) h s =
    fail_with-Good fsm.state fsm code (DataItem.status code text) refl s
protocol_error-Good fsm item h s = absurd h

on_termination-Good :
    (fsm : ModemSessionFsm) (msg : Message)
    → IsSound fsm
    → Good Phase.active (on_termination fsm msg)
unfolding on_termination
on_termination-Good fsm msg s = (over-Legal Phase.active _ refl refl (λ h. absurd (cc)), s)

-- An arm for a type of message, which stays in session, before the others.
arm_rule :
    (mt t : MessageType) (x y : Run ModemSessionFsm)
    → (mt ≡ t → Ends Stays x)
    → Good Phase.active y
    → Good Phase.active (if mt == t then x else y)
arm_rule mt t x y f g =
    if_rule (Good Phase.active) (mt == t) (λ e. Stays-Good x (f ((==_iff mt t).0 e))) (λ _. g)

module _ ⦃ip : Ipnet⦄ (fsm : ModemSessionFsm) (msg : Message)
    (inside : fsm.state ≡ ModemSessionState.in_session) (sound : IsSound fsm)
    (valid : validate_message msg false false fsm.config.advertised_extensions ≡ ok tt)
    (free : validate_transaction msg fsm.tx (known_opt fsm (extract_destination_mac msg)) ≡ ok tt)
    (applied : msg.message_type ≡ msg_session_update
      → (apply_strict (from_message msg) fsm.peer_addresses).0 ≡ ok tt) where
  pub on_message-Good : Good Phase.active (on_message fsm msg)
  unfolding on_message
  on_message-Good =
      let mt = msg.message_type in
      if_rule (Good Phase.active) (mt == msg_session_termination) {x = on_termination fsm msg}
        {y = _} (λ _. on_termination-Good fsm msg sound)
        (λ _.
          arm_rule mt msg_destination_up_response _ _
            (λ e. on_destination_up_response-Stays fsm inside sound msg)
            (arm_rule mt msg_destination_down _ _
              (λ e. on_destination_down-Stays fsm msg inside sound valid free e)
              (arm_rule mt msg_destination_down_response _ _
                (λ e. on_destination_down_response-Stays fsm msg inside sound valid free e)
                (arm_rule mt msg_session_update _ _
                  (λ e. on_session_update-Stays fsm inside sound msg (applied e))
                  (arm_rule mt msg_session_update_response _ _
                    (λ e. on_session_update_response-Stays fsm inside sound msg)
                    (arm_rule mt msg_destination_announce _ _
                      (λ e. on_announce-Stays fsm msg inside sound valid free e)
                      (arm_rule mt msg_link_characteristics_request _ _
                        (λ e. on_characteristics_request-Stays fsm msg inside sound valid free e)
                        (arm_rule mt msg_heartbeat _ _ (λ e. refresh-Stays fsm inside sound)
                          (subst
                            (λ state.
                              Good (phase_of state)
                                (protocol_error fsm (DataItem.status unexpected_message [])))
                            inside
                            (protocol_error-Good fsm (DataItem.status unexpected_message []) tt
                              sound))))))))))
