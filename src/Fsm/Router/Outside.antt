-- ===== src/Fsm/Router/Outside.antt =====
-- The steps of session_router.rs outside a session.
use dlep.Base.{true, List, [], ◌∷◌, ◌≡◌, refl, arith, if_rule, subst}
use dlep.Core.Ipnet.{Ipnet}
use dlep.Core.Status.{unexpected_message}
use dlep.Core.Item.{DataItem, Message}
use dlep.Fsm.Events.{
  TimerKind, FsmEvent, recv_message, tcp_connected, tcp_closed, timer_expired, app_shutdown,
  FsmAction, cancel_timer, start_timer,
}
use dlep.Fsm.Common.{local_heartbeat_interval}
use dlep.Fsm.Common.Builders.{extract_heartbeat_interval}
use dlep.Fsm.Session.{timer_session_init, timer_heartbeat, reset_actions, ran}
use dlep.Fsm.Session.Lifecycle.{
  Phase, is_ending, ends, is_session_up, is_session_down, is_send, bit, count,
}
use dlep.Fsm.Session.Actions.{Ordinary, first-Ordinary, reset-Ordinary, opening-Legal}
use dlep.Fsm.Session.Steps.{over-Legal}
use dlep.Fsm.Router.{RouterSessionState, RouterSessionFsm}
use dlep.Fsm.Router.Handlers.{on_initialized, on_initialization_response, init_failed_text}
use dlep.Fsm.Router.Basic.{terminate}
use dlep.Fsm.Router.Step.{when_closed, when_pending, when_terminating}
use dlep.Fsm.Router.Sound.{phase_of, IsSound}
use dlep.Fsm.Router.Legal.{Good, stays_put, protocol_error-Good}

-- The end of the session.
pub terminate-Good :
    (p : Phase) (fsm : RouterSessionFsm) (actions : List FsmAction)
    → count is_session_up actions ≡ 0
    → count is_session_down actions ≡ bit (ends p Phase.over)
    → (is_ending p ≡ true → count is_send actions ≡ 0)
    → IsSound fsm
    → Good p (terminate fsm actions)
terminate-Good p fsm actions up down send s = (over-Legal p actions up down send, s)

pub when_closed-Good :
    (fsm : RouterSessionFsm) (e : FsmEvent)
    → fsm.state ≡ RouterSessionState.closed
    → IsSound fsm
    → Good Phase.idle (when_closed fsm e)
unfolding when_closed
when_closed-Good fsm tcp_connected at s = (
  record {
    forward = refl;
    ups = refl;
    downs = refl;
    silent = λ h. absurd (cc);
    timed = λ id armed before waits. ground arith;
  },
  s,
)
when_closed-Good fsm (app_shutdown reason) at s =
    terminate-Good Phase.idle fsm [] refl refl (λ h. refl) s
when_closed-Good fsm tcp_closed at s = terminate-Good Phase.idle fsm [] refl refl (λ h. refl) s
when_closed-Good fsm e at s = stays_put fsm RouterSessionState.closed at s

pub when_terminating-Good :
    (fsm : RouterSessionFsm) (e : FsmEvent)
    → fsm.state ≡ RouterSessionState.terminating
    → IsSound fsm
    → Good Phase.closing (when_terminating fsm e)
unfolding when_terminating
when_terminating-Good fsm (recv_message msg) at s =
    if_rule (Good Phase.closing) _ {x = terminate fsm _} {y = ran [] fsm}
      (λ _. terminate-Good Phase.closing fsm _ refl refl (λ h. refl) s)
      (λ _. stays_put fsm RouterSessionState.terminating at s)
when_terminating-Good fsm (timer_expired id TimerKind.termination) at s =
    terminate-Good Phase.closing fsm _ refl refl (λ h. refl) s
when_terminating-Good fsm tcp_closed at s =
    terminate-Good Phase.closing fsm _ refl refl (λ h. refl) s
when_terminating-Good fsm e at s = stays_put fsm RouterSessionState.terminating at s

module _ ⦃ip : Ipnet⦄ where
  initialized-Good :
      (fsm : RouterSessionFsm) (msg : Message)
      → IsSound fsm
      → Good Phase.initializing (on_initialized fsm msg)
  unfolding on_initialized Ordinary
  initialized-Good fsm msg s = (
    opening-Legal
        (cancel_timer timer_session_init
          ∷ start_timer timer_heartbeat TimerKind.heartbeat (local_heartbeat_interval fsm.config)
              true
          ∷ [])
        (reset_actions (extract_heartbeat_interval msg)) _ _ refl refl (λ armed. refl)
        (reset-Ordinary (extract_heartbeat_interval msg)) (refl, first-Ordinary _),
    s,
  )

  pub when_pending-Good :
      (fsm : RouterSessionFsm) (e : FsmEvent)
      → fsm.state ≡ RouterSessionState.session_init_pending
      → IsSound fsm
      → Good Phase.initializing (when_pending fsm e)
  unfolding when_pending on_initialization_response
  when_pending-Good fsm (recv_message msg) at s =
      if_rule (Good Phase.initializing) _ {x = on_initialization_response fsm msg}
        {y = terminate fsm _}
        (λ _.
          if_rule (Good Phase.initializing) _
            {x = dlep.Fsm.Router.protocol_error fsm
              (DataItem.status unexpected_message init_failed_text)}
            {y = on_initialized fsm msg}
            (λ _.
              subst
                (λ state. Good (phase_of state) (
                  dlep.Fsm.Router.protocol_error fsm
                    (DataItem.status unexpected_message init_failed_text)))
                at (protocol_error-Good fsm _ tt s))
            (λ _. initialized-Good fsm msg s))
        (λ _. terminate-Good Phase.initializing fsm _ refl refl (λ h. absurd (cc)) s)
  when_pending-Good fsm (timer_expired id TimerKind.session_init) at s =
      terminate-Good Phase.initializing fsm _ refl refl (λ h. absurd (cc)) s
  when_pending-Good fsm tcp_closed at s =
      terminate-Good Phase.initializing fsm _ refl refl (λ h. absurd (cc)) s
  when_pending-Good fsm (app_shutdown reason) at s =
      terminate-Good Phase.initializing fsm _ refl refl (λ h. absurd (cc)) s
  when_pending-Good fsm e at s = stays_put fsm RouterSessionState.session_init_pending at s
