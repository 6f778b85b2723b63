-- ===== src/Fsm/Router/Refused.antt =====
-- How session_router.rs answers the commands of the application.
use dlep.Base.{some, Result, ok, err, panic, ◌≡◌, refl, sym, subst}
use dlep.Core.Ipnet.{Ipnet}
use dlep.Fsm.Events.{CommandInfo, CommandError, FsmEvent, command_of}
use dlep.Fsm.Session.{Run, ran, rejection}
use dlep.Fsm.Session.Machine.{Ends}
use dlep.Fsm.Session.Safe.{Safe}
use dlep.Fsm.Router.{RouterSessionState, RouterSessionFsm}
use dlep.Fsm.Router.Checks.{check_command}
use dlep.Fsm.Router.Step.{handle_in, handle, commanded, stepped, step}
use dlep.Fsm.Router.Sound.{IsSound}
use dlep.Fsm.Router.Messages.{Stays}
use dlep.Fsm.Router.Commands.{check_command-Safe, event-Stays, accepted_command}

module _ ⦃ip : Ipnet⦄ where
  -- A command is refused and changes nothing, or the session goes on with ordinary actions.
  abbrev pub Answered :
      RouterSessionFsm
      → CommandInfo
      → Result CommandError (Unit {0})
      → Run RouterSessionFsm
      → Type 0
  Answered fsm command (ok u) r = (fsm.state ≡ RouterSessionState.in_session) × Ends Stays r
  Answered fsm command (err reason) r = r ≡ ran (rejection command reason) fsm
  Answered fsm command panic r = ⊥

  commanded-Answered :
      (fsm : RouterSessionFsm) (e : FsmEvent) (command : CommandInfo)
      (r : Result CommandError (Unit {0}))
      → IsSound fsm
      → check_command fsm e ≡ r
      → Safe r
      → Answered fsm command r (commanded fsm e command r)
  unfolding commanded handle handle_in
  commanded-Answered fsm e command (ok u) s p h =
      let (inside, fine) = accepted_command fsm e p in
      (
        inside,
        subst (λ state. Ends Stays (handle_in state fsm e)) (sym inside)
            (event-Stays fsm e inside s fine),
      )
  commanded-Answered fsm e command (err reason) s p h = refl
  commanded-Answered fsm e command panic s p h = h

  -- A command given to a machine that keeps the invariant is answered by its check: if the check
  -- refuses it, the step returns one rejection with that reason and changes nothing; if the check
  -- accepts it, the machine is in session and stays there, keeps the invariant, and returns only
  -- actions that leave the life of the session alone; the check does not panic.
  pub session_router-Answered :
      (fsm : RouterSessionFsm) (e : FsmEvent) (command : CommandInfo)
      → IsSound fsm
      → command_of e ≡ some command
      → Answered fsm command (check_command fsm e) (step fsm e)
  unfolding step stepped
  session_router-Answered fsm e command s c =
      rw c (commanded-Answered fsm e command _ s refl (check_command-Safe fsm e))
