-- ===== src/Fsm/Modem/Outside.antt =====
-- The steps of session_modem.rs outside a session.
use dlep.Base.{true, List, [], ◌∷◌, ◌≡◌, refl, arith, if_rule}
use dlep.Core.Ipnet.{Ipnet}
use dlep.Core.Item.{Message}
use dlep.Fsm.Events.{
  TimerKind, FsmEvent, recv_message, tcp_accepted, tcp_closed, timer_expired, app_shutdown,
  FsmAction, cancel_timer, send_message, start_timer,
}
use dlep.Fsm.Common.{local_heartbeat_interval}
use dlep.Fsm.Common.Builders.{extract_heartbeat_interval}
use dlep.Fsm.Session.{timer_session_init, timer_heartbeat, reset_actions, ran}
use dlep.Fsm.Session.Lifecycle.{
  Phase, is_ending, ends, is_session_up, is_session_down, is_send, bit, count,
}
use dlep.Fsm.Session.Actions.{first-Ordinary, reset-Ordinary, opening-Legal}
use dlep.Fsm.Session.Steps.{over-Legal}
use dlep.Fsm.Modem.{build_session_initialization_response, ModemSessionState, ModemSessionFsm}
use dlep.Fsm.Modem.Handlers.{on_initialization}
use dlep.Fsm.Modem.Basic.{terminate}
use dlep.Fsm.Modem.Step.{when_listening, when_awaiting, when_terminating}
use dlep.Fsm.Modem.Sound.{IsSound}
use dlep.Fsm.Modem.Legal.{Good, stays_put}

-- The end of the session.
pub terminate-Good :
    (p : Phase) (fsm : ModemSessionFsm) (actions : List FsmAction)
    → count is_session_up actions ≡ 0
    → count is_session_down actions ≡ bit (ends p Phase.over)
    → (is_ending p ≡ true → count is_send actions ≡ 0)
    → IsSound fsm
    → Good p (terminate fsm actions)
terminate-Good p fsm actions up down send s = (over-Legal p actions up down send, s)

pub when_listening-Good :
    (fsm : ModemSessionFsm) (e : FsmEvent)
    → fsm.state ≡ ModemSessionState.listening
    → IsSound fsm
    → Good Phase.idle (when_listening fsm e)
unfolding when_listening
when_listening-Good fsm tcp_accepted at s = (
  record {
    forward = refl;
    ups = refl;
    downs = refl;
    silent = λ h. absurd (cc);
    timed = λ id armed before waits. ground arith;
  },
  s,
)
when_listening-Good fsm (app_shutdown reason) at s =
    terminate-Good Phase.idle fsm [] refl refl (λ h. refl) s
when_listening-Good fsm tcp_closed at s = terminate-Good Phase.idle fsm [] refl refl (λ h. refl) s
when_listening-Good fsm e at s = stays_put fsm ModemSessionState.listening at s

pub when_terminating-Good :
    (fsm : ModemSessionFsm) (e : FsmEvent)
    → fsm.state ≡ ModemSessionState.terminating
    → IsSound fsm
    → Good Phase.closing (when_terminating fsm e)
unfolding when_terminating
when_terminating-Good fsm (recv_message msg) at s =
    if_rule (Good Phase.closing) _ {x = terminate fsm _} {y = ran [] fsm}
      (λ _. terminate-Good Phase.closing fsm _ refl refl (λ h. refl) s)
      (λ _. stays_put fsm ModemSessionState.terminating at s)
when_terminating-Good fsm (timer_expired id TimerKind.termination) at s =
    terminate-Good Phase.closing fsm _ refl refl (λ h. refl) s
when_terminating-Good fsm tcp_closed at s =
    terminate-Good Phase.closing fsm _ refl refl (λ h. refl) s
when_terminating-Good fsm e at s = stays_put fsm ModemSessionState.terminating at s

module _ ⦃ip : Ipnet⦄ where
  initialized-Good :
      (fsm : ModemSessionFsm) (msg : Message)
      → IsSound fsm
      → Good Phase.initializing (on_initialization fsm msg)
  unfolding on_initialization
  initialized-Good fsm msg s = (
    opening-Legal
        (cancel_timer timer_session_init
          ∷ send_message (build_session_initialization_response fsm.config)
          ∷ start_timer timer_heartbeat TimerKind.heartbeat (local_heartbeat_interval fsm.config)
              true
          ∷ [])
        (reset_actions (extract_heartbeat_interval msg)) _ _ refl refl (λ armed. refl)
        (reset-Ordinary (extract_heartbeat_interval msg)) (first-Ordinary _),
    s,
  )

  pub when_awaiting-Good :
      (fsm : ModemSessionFsm) (e : FsmEvent)
      → fsm.state ≡ ModemSessionState.awaiting_session_init
      → IsSound fsm
      → Good Phase.initializing (when_awaiting fsm e)
  unfolding when_awaiting
  when_awaiting-Good fsm (recv_message msg) at s =
      if_rule (Good Phase.initializing) _ {x = on_initialization fsm msg} {y = terminate fsm _}
        (λ _. initialized-Good fsm msg s)
        (λ _. terminate-Good Phase.initializing fsm _ refl refl (λ h. absurd (cc)) s)
  when_awaiting-Good fsm (timer_expired id TimerKind.session_init) at s =
      terminate-Good Phase.initializing fsm _ refl refl (λ h. absurd (cc)) s
  when_awaiting-Good fsm tcp_closed at s =
      terminate-Good Phase.initializing fsm _ refl refl (λ h. absurd (cc)) s
  when_awaiting-Good fsm (app_shutdown reason) at s =
      terminate-Good Phase.initializing fsm _ refl refl (λ h. absurd (cc)) s
  when_awaiting-Good fsm e at s = stays_put fsm ModemSessionState.awaiting_session_init at s
