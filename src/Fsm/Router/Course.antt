-- ===== src/Fsm/Router/Course.antt =====
-- The runs of the session machine of crates/dlep-fsm/src/session_router.rs.
use dlep.Base.{List, [], ◌∷◌, ◌++◌, true, ◌≡◌, refl, get}
use dlep.Core.Ipnet.{Ipnet}
use dlep.Core.Status.{StatusCode}
use dlep.Fsm.Events.{TimerId, TimerKind, FsmEvent, timer_expired, app_shutdown, command_of}
use dlep.Fsm.Common.{SessionConfig}
use dlep.Fsm.Session.Lifecycle.{Phase, is_ending}
use dlep.Fsm.Session.Machine.{Ends, Ends-map, run, Course, run-Course}
use dlep.Fsm.Session.Ending.{Stops, shutdown_over}
use dlep.Fsm.Router.{RouterSessionState, RouterSessionFsm, with_config}
use dlep.Fsm.Router.Step.{
  when_closed, when_pending, when_in_session, when_terminating, handle_in, handle, uncommanded,
  stepped, step,
}
use dlep.Fsm.Router.Sound.{phase_of, IsSound}
use dlep.Fsm.Router.Refines.{machine}

new-IsSound : (config : SessionConfig) → IsSound (with_config config)
unfolding get
new-IsSound config mac h = absurd (cc)

terminated_of :
    (state : RouterSessionState)
    → phase_of state ≡ Phase.over
    → state ≡ RouterSessionState.terminated
terminated_of RouterSessionState.terminated e = refl
terminated_of state e = absurd (cc)

module _ ⦃ip : Ipnet⦄ where
  -- Any events, in any order, given to a new router machine never make it panic; in all the
  -- actions that it returns the session is reported up once at most, and down once at most, and
  -- only if the machine has come to its final state; a session that was reported up is not over or
  -- was reported down; and the timer that the last state waits for is set.
  pub session_router-Course :
      (config : SessionConfig) (es : List FsmEvent)
      → Ends
          (λ actions last. Course Phase.idle actions (phase_of last.state))
          (run step (with_config config) es)
  session_router-Course config es =
      Ends-map (λ xs last. Course Phase.idle xs (phase_of last.state) × IsSound last) _ _
        (λ xs last h. h.0) (run-Course machine (with_config config) es (new-IsSound config))

  stops_in :
      (state : RouterSessionState) (fsm : RouterSessionFsm) (reason : StatusCode)
      → fsm.state ≡ state
      → Ends
          (λ xs next. is_ending (phase_of next.state) ≡ true)
          (handle_in state fsm (app_shutdown reason))
  unfolding handle_in when_closed when_pending when_in_session when_terminating
  stops_in RouterSessionState.terminating fsm reason at = rw at refl
  stops_in RouterSessionState.terminated fsm reason at = rw at refl
  stops_in state fsm reason at = refl

  deadline_in :
      (state : RouterSessionState) (fsm : RouterSessionFsm) (id : TimerId)
      → fsm.state ≡ state
      → is_ending (phase_of state) ≡ true
      → Ends
          (λ xs next. phase_of next.state ≡ Phase.over)
          (handle_in state fsm (timer_expired id TimerKind.termination))
  unfolding handle_in when_terminating
  deadline_in RouterSessionState.terminating fsm id at h = refl
  deadline_in RouterSessionState.terminated fsm id at h = rw at refl
  deadline_in state fsm id at h = absurd (cc)

  machine-Stops : Stops machine
  unfolding step stepped uncommanded handle command_of
  machine-Stops = record {
    shutdown = λ fsm reason. stops_in fsm.state fsm reason refl;
    deadline = λ fsm id h. deadline_in fsm.state fsm id refl h;
  }

  -- Whatever events a new router machine has taken, after a shutdown, any other events and then
  -- the expiry of the termination timer it is in its final state.
  pub session_router_stops :
      (config : SessionConfig) (before es : List FsmEvent) (reason : StatusCode) (id : TimerId)
      → Ends
          (λ actions last. last.state ≡ RouterSessionState.terminated)
          (run step (with_config config) (
            before
            ++ (app_shutdown reason ∷ (es ++ (timer_expired id TimerKind.termination ∷ [])))))
  session_router_stops config before es reason id =
      Ends-map (λ xs (last : RouterSessionFsm). phase_of last.state ≡ Phase.over) _ _
        (λ xs last h. terminated_of last.state h)
        (shutdown_over machine machine-Stops (with_config config) before es reason id
          (new-IsSound config))
