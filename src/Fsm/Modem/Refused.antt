-- ===== src/Fsm/Modem/Refused.antt =====
-- How session_modem.rs answers the commands of the application.
use dlep.Base.{some, Result, ok, err, panic, ◌≡◌, refl, sym, subst}
use dlep.Core.Ipnet.{Ipnet}
use dlep.Fsm.Events.{CommandInfo, CommandError, FsmEvent, command_of}
use dlep.Fsm.Session.{Run, ran, rejection}
use dlep.Fsm.Session.Machine.{Ends}
use dlep.Fsm.Session.Safe.{Safe}
use dlep.Fsm.Modem.{ModemSessionState, ModemSessionFsm}
use dlep.Fsm.Modem.Checks.{check_command}
use dlep.Fsm.Modem.Step.{handle_in, handle, commanded, stepped, step}
use dlep.Fsm.Modem.Sound.{IsSound}
use dlep.Fsm.Modem.Messages.{Stays}
use dlep.Fsm.Modem.Checked.{check_command-Safe, event-Stays, accepted_command}

module _ ⦃ip : Ipnet⦄ where
  -- A command is refused and changes nothing, or the session goes on with ordinary actions.
  abbrev pub Answered :
      ModemSessionFsm → CommandInfo → Result CommandError (Unit {0}) → Run ModemSessionFsm → Type 0
  Answered fsm command (ok u) r = (fsm.state ≡ ModemSessionState.in_session) × Ends Stays r
  Answered fsm command (err reason) r = r ≡ ran (rejection command reason) fsm
  Answered fsm command panic r = ⊥

  commanded-Answered :
      (fsm : ModemSessionFsm) (e : FsmEvent) (command : CommandInfo)
      (r : Result CommandError (Unit {0}))
      → IsSound fsm
      → command_of e ≡ some command
      → check_command fsm e ≡ r
      → Safe r
      → Answered fsm command r (commanded fsm e command r)
  unfolding commanded handle handle_in
  commanded-Answered fsm e command (ok u) s c p h =
      let (inside, scope, fine) = accepted_command fsm s e command c p in
      (
        inside,
        subst (λ state. Ends Stays (handle_in state fsm e)) (sym inside)
            (event-Stays fsm s e command c inside scope fine),
      )
  commanded-Answered fsm e command (err reason) s c p h = refl
  commanded-Answered fsm e command panic s c p h = h

  -- A command given to a machine that keeps the invariant is answered by its check: if the check
  -- refuses it, the step returns one rejection with that reason and changes nothing; if the check
  -- accepts it, the machine is in session and stays there, keeps the invariant, and returns only
  -- actions that leave the life of the session alone; the check does not panic.
  pub session_modem-Answered :
      (fsm : ModemSessionFsm) (e : FsmEvent) (command : CommandInfo)
      → IsSound fsm
      → command_of e ≡ some command
      → Answered fsm command (check_command fsm e) (step fsm e)
  unfolding step stepped
  session_modem-Answered fsm e command s c =
      rw c (commanded-Answered fsm e command _ s c refl (check_command-Safe fsm s e command c))
