-- ===== src/Fsm/Modem/Course.antt =====
-- The runs of the session machine of crates/dlep-fsm/src/session_modem.rs.
use dlep.Base.{List, [], ◌∷◌, ◌++◌, true, ◌≡◌, refl, contains}
use dlep.Core.Ipnet.{Ipnet}
use dlep.Core.Status.{StatusCode}
use dlep.Fsm.Events.{TimerId, TimerKind, FsmEvent, timer_expired, app_shutdown, command_of}
use dlep.Fsm.Common.{SessionConfig}
use dlep.Fsm.Session.Lifecycle.{Phase, is_ending}
use dlep.Fsm.Session.Machine.{Ends, Ends-map, run, Course, run-Course}
use dlep.Fsm.Session.Ending.{Stops, shutdown_over}
use dlep.Fsm.Modem.{ModemSessionState, ModemSessionFsm, with_config}
use dlep.Fsm.Modem.Step.{
  when_listening, when_awaiting, when_in_session, when_terminating, handle_in, handle, uncommanded,
  stepped, step,
}
use dlep.Fsm.Modem.Sound.{phase_of, IsSound}
use dlep.Fsm.Modem.Refines.{machine}

new-IsSound : (config : SessionConfig) → IsSound (with_config config)
unfolding contains
new-IsSound config mac h = absurd (cc)

terminated_of :
    (state : ModemSessionState) → phase_of state ≡ Phase.over → state ≡ ModemSessionState.terminated
terminated_of ModemSessionState.terminated e = refl
terminated_of state e = absurd (cc)

module _ ⦃ip : Ipnet⦄ where
  -- Any events, in any order, given to a new modem machine never make it panic; in all the actions
  -- that it returns the session is reported up once at most, and down once at most, and only if
  -- the machine has come to its final state; a session that was reported up is not over or was
  -- reported down; and the timer that the last state waits for is set.
  pub session_modem-Course :
      (config : SessionConfig) (es : List FsmEvent)
      → Ends
          (λ actions last. Course Phase.idle actions (phase_of last.state))
          (run step (with_config config) es)
  session_modem-Course config es =
      Ends-map (λ xs last. Course Phase.idle xs (phase_of last.state) × IsSound last) _ _
        (λ xs last h. h.0) (run-Course machine (with_config config) es (new-IsSound config))

  stops_in :
      (state : ModemSessionState) (fsm : ModemSessionFsm) (reason : StatusCode)
      → fsm.state ≡ state
      → Ends
          (λ xs next. is_ending (phase_of next.state) ≡ true)
          (handle_in state fsm (app_shutdown reason))
  unfolding handle_in when_listening when_awaiting when_in_session when_terminating
  stops_in ModemSessionState.terminating fsm reason at = rw at refl
  stops_in ModemSessionState.terminated fsm reason at = rw at refl
  stops_in state fsm reason at = refl

  deadline_in :
      (state : ModemSessionState) (fsm : ModemSessionFsm) (id : TimerId)
      → fsm.state ≡ state
      → is_ending (phase_of state) ≡ true
      → Ends
          (λ xs next. phase_of next.state ≡ Phase.over)
          (handle_in state fsm (timer_expired id TimerKind.termination))
  unfolding handle_in when_terminating
  deadline_in ModemSessionState.terminating fsm id at h = refl
  deadline_in ModemSessionState.terminated fsm id at h = rw at refl
  deadline_in state fsm id at h = absurd (cc)

  machine-Stops : Stops machine
  unfolding step stepped uncommanded handle command_of
  machine-Stops = record {
    shutdown = λ fsm reason. stops_in fsm.state fsm reason refl;
    deadline = λ fsm id h. deadline_in fsm.state fsm id refl h;
  }

  -- Whatever events a new modem machine has taken, after a shutdown, any other events and then the
  -- expiry of the termination timer it is in its final state.
  pub session_modem_stops :
      (config : SessionConfig) (before es : List FsmEvent) (reason : StatusCode) (id : TimerId)
      → Ends
          (λ actions last. last.state ≡ ModemSessionState.terminated)
          (run step (with_config config) (
            before
            ++ (app_shutdown reason ∷ (es ++ (timer_expired id TimerKind.termination ∷ [])))))
  session_modem_stops config before es reason id =
      Ends-map (λ xs (last : ModemSessionFsm). phase_of last.state ≡ Phase.over) _ _
        (λ xs last h. terminated_of last.state h)
        (shutdown_over machine machine-Stops (with_config config) before es reason id
          (new-IsSound config))
