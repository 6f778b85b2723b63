-- ===== src/Fsm/Router/Refines.antt =====
-- `RouterSessionFsm::step` of session_router.rs is a session machine.
use dlep.Base.{
  true, false, ◌||◌, List, [], Option, none, some, Result, ok, err, panic, ◌≡◌, refl, sym, arith,
  if_rule, subst, ◌⊎◌, inl, inr,
}
use dlep.Core.Ids.{msg_session_update}
use dlep.Core.Ipnet.{Ipnet}
use dlep.Core.Status.{StatusCode, timed_out}
use dlep.Core.Item.{DataItem, Message}
use dlep.Fsm.Addresses.{apply_strict, from_message}
use dlep.Fsm.Validation.{validate_message}
use dlep.Fsm.Validation.Transactions.{extract_destination_mac, validate_transaction}
use dlep.Fsm.Events.{
  TimerKind, CommandInfo, CommandError, FsmEvent, recv_message, recv_extension_message,
  protocol_error, tcp_closed, timer_expired, app_shutdown, app_drop_destination,
  app_request_link_characteristics, app_announce_destination, app_session_addresses, FsmAction,
  command_of,
}
use dlep.Fsm.Session.{ran, fatal_status, missed_actions, shutdown_actions}
use dlep.Fsm.Session.Lifecycle.{Phase, Legal}
use dlep.Fsm.Session.Actions.{Ordinary, reset-Ordinary}
use dlep.Fsm.Session.Steps.{is_message, shutdown-Legal, missed-Legal, rejected-Legal}
use dlep.Fsm.Session.Machine.{Ends, Machine}
use dlep.Fsm.Session.Received.{IsStatus, OnSome, fatal_status-IsStatus}
use dlep.Fsm.Session.Safe.{
  Safe, validate_message-Safe, validate_mac_format-Safe, apply_strict-Safe,
  validate_transaction-Safe,
}
use dlep.Fsm.Router.{RouterSessionState, RouterSessionFsm}
use dlep.Fsm.Router.Checks.{
  is_in_session, is_initializing, known_opt, check_command, check_addresses, check_metrics,
  check_received,
}
use dlep.Fsm.Router.Basic.{refresh}
use dlep.Fsm.Router.Step.{
  when_in_session, handle_in, handle, checked, screened, received, commanded, uncommanded, stepped,
  step,
}
use dlep.Fsm.Router.Sound.{phase_of, IsSound}
use dlep.Fsm.Router.Legal.{Good, Stays-Good, stays_put, protocol_error-Good, on_message-Good}
use dlep.Fsm.Router.Commands.{check_command-Safe, event-Stays, accepted_command}
use dlep.Fsm.Router.Outside.{
  terminate-Good, when_closed-Good, when_terminating-Good, when_pending-Good,
}

module _ ⦃ip : Ipnet⦄ where
  -- The actions of a session that is given up.
  given_up-Good :
      (fsm : RouterSessionFsm) (reason : StatusCode) (actions : List FsmAction)
      → (actions ≡ shutdown_actions fsm.config reason)
        ⊎ (actions ≡ missed_actions fsm.config reason)
      → IsSound fsm
      → Good Phase.active (
          ran actions
            (record fsm { state = RouterSessionState.terminating; termination_reason = reason }))
  given_up-Good fsm reason actions (inl e) s = (
    subst (λ xs. Legal Phase.active xs Phase.closing) (sym e) (shutdown-Legal fsm.config reason),
    s,
  )
  given_up-Good fsm reason actions (inr e) s = (
    subst (λ xs. Legal Phase.active xs Phase.closing) (sym e) (missed-Legal fsm.config reason),
    s,
  )

  -- In session, an event that is neither a message nor a command.
  quiet-Good :
      (fsm : RouterSessionFsm) (e : FsmEvent)
      → fsm.state ≡ RouterSessionState.in_session
      → IsSound fsm
      → is_message e ≡ false
      → command_of e ≡ none
      → Good Phase.active (when_in_session fsm e)
  unfolding when_in_session Ordinary command_of
  quiet-Good fsm recv_extension_message at s m c =
      Stays-Good (refresh fsm) (reset-Ordinary fsm.peer_heartbeat_interval, at, s)
  quiet-Good fsm (timer_expired id TimerKind.heartbeat) at s m c =
      Stays-Good (ran _ fsm) ((refl, tt), at, s)
  quiet-Good fsm (timer_expired id TimerKind.heartbeat_missed) at s m c =
      given_up-Good fsm timed_out _ (inr refl) s
  quiet-Good fsm (app_shutdown reason) at s m c = given_up-Good fsm reason _ (inl refl) s
  quiet-Good fsm tcp_closed at s m c =
      terminate-Good Phase.active fsm _ refl refl (λ h. absurd (cc)) s
  quiet-Good fsm (recv_message msg) at s m c = absurd (cc)
  quiet-Good fsm (app_drop_destination mac reason) at s m c = absurd (cc)
  quiet-Good fsm (app_request_link_characteristics mac wanted) at s m c = absurd (cc)
  quiet-Good fsm (app_announce_destination mac) at s m c = absurd (cc)
  quiet-Good fsm (app_session_addresses changes) at s m c = absurd (cc)
  quiet-Good fsm e at s m c = stays_put fsm RouterSessionState.in_session at s

  handle_in-Good :
      (state : RouterSessionState) (fsm : RouterSessionFsm) (e : FsmEvent)
      → fsm.state ≡ state
      → IsSound fsm
      → (state ≡ RouterSessionState.in_session → Good Phase.active (when_in_session fsm e))
      → Good (phase_of state) (handle_in state fsm e)
  unfolding handle_in
  handle_in-Good RouterSessionState.closed fsm e at s h = when_closed-Good fsm e at s
  handle_in-Good RouterSessionState.session_init_pending fsm e at s h = when_pending-Good fsm e at s
  handle_in-Good RouterSessionState.in_session fsm e at s h = h refl
  handle_in-Good RouterSessionState.terminating fsm e at s h = when_terminating-Good fsm e at s
  handle_in-Good RouterSessionState.terminated fsm e at s h = stays_put fsm _ at s

  handle-Good :
      (fsm : RouterSessionFsm) (e : FsmEvent)
      → IsSound fsm
      → (fsm.state ≡ RouterSessionState.in_session → Good Phase.active (when_in_session fsm e))
      → Good (phase_of fsm.state) (handle fsm e)
  unfolding handle
  handle-Good fsm e s h = handle_in-Good fsm.state fsm e refl s h

  check_received-Safe : (fsm : RouterSessionFsm) (msg : Message) → Safe (check_received fsm msg)
  unfolding check_received check_addresses check_metrics
  check_received-Safe fsm msg = ground (
    arith,
    validate_message-Safe msg true (is_initializing fsm.state) fsm.config.advertised_extensions,
    validate_mac_format-Safe msg fsm.config.mac_address_format,
    apply_strict-Safe (from_message msg) fsm.peer_addresses,
    validate_transaction-Safe msg fsm.tx (known_opt fsm (extract_destination_mac msg)),
  )

  -- What the checks of a message promise in session.
  received_valid :
      (fsm : RouterSessionFsm) (msg : Message)
      → fsm.state ≡ RouterSessionState.in_session
      → check_received fsm msg ≡ ok tt
      → (validate_message msg true false fsm.config.advertised_extensions ≡ ok tt)
        × (validate_transaction msg fsm.tx (known_opt fsm (extract_destination_mac msg)) ≡ ok tt)
        × (msg.message_type ≡ msg_session_update
            → (apply_strict (from_message msg) fsm.peer_addresses).0 ≡ ok tt)
  unfolding check_received check_addresses
  received_valid fsm msg inside e =
      let start : is_initializing fsm.state ≡ false = rw inside refl in
      (ground arith, ground arith, λ m. ground arith)

  checked-Good :
      (fsm : RouterSessionFsm) (msg : Message) (r : Result StatusCode (Unit {0}))
      → IsSound fsm
      → check_received fsm msg ≡ r
      → Safe r
      → Good (phase_of fsm.state) (checked fsm msg r)
  unfolding checked when_in_session
  checked-Good fsm msg (ok u) s e h = handle-Good fsm (recv_message msg) s λ inside.
      let (valid, free, applied) = received_valid fsm msg inside e in
      on_message-Good fsm msg inside s valid free applied
  checked-Good fsm msg (err code) s e h = protocol_error-Good fsm (DataItem.status code []) tt s
  checked-Good fsm msg panic s e h = absurd h

  screened-Good :
      (fsm : RouterSessionFsm) (msg : Message) (o : Option DataItem)
      → IsSound fsm
      → OnSome IsStatus o
      → Good (phase_of fsm.state) (screened fsm msg o)
  unfolding screened
  screened-Good fsm msg none s h =
      checked-Good fsm msg (check_received fsm msg) s refl (check_received-Safe fsm msg)
  screened-Good fsm msg (some item) s h = protocol_error-Good fsm item h s

  received-Good :
      (fsm : RouterSessionFsm) (msg : Message)
      → IsSound fsm
      → Good (phase_of fsm.state) (received fsm msg)
  unfolding received
  received-Good fsm msg s =
      if_rule (Good (phase_of fsm.state)) (is_initializing fsm.state || is_in_session fsm.state)
        {x = screened fsm msg _} {y = handle fsm (recv_message msg)}
        (λ _. screened-Good fsm msg _ s (
          if_rule (OnSome IsStatus) _ {x = fatal_status msg.data_items} {y = none}
            (λ _. fatal_status-IsStatus msg.data_items) (λ _. tt)))
        (λ out. handle-Good fsm (recv_message msg) s λ inside. absurd (ground arith))

  commanded-Good :
      (fsm : RouterSessionFsm) (e : FsmEvent) (command : CommandInfo)
      (r : Result CommandError (Unit {0}))
      → IsSound fsm
      → check_command fsm e ≡ r
      → Safe r
      → Good (phase_of fsm.state) (commanded fsm e command r)
  unfolding commanded
  commanded-Good fsm e command (ok u) s p h =
      handle-Good fsm e s
        λ inside. Stays-Good _ (event-Stays fsm e inside s ((accepted_command fsm e p).1))
  commanded-Good fsm e command (err reason) s p h = (rejected-Legal (phase_of fsm.state) _ _, s)
  commanded-Good fsm e command panic s p h = absurd h

  uncommanded-Good :
      (fsm : RouterSessionFsm) (e : FsmEvent)
      → IsSound fsm
      → command_of e ≡ none
      → Good (phase_of fsm.state) (uncommanded fsm e)
  unfolding uncommanded
  uncommanded-Good fsm (recv_message msg) s c = received-Good fsm msg s
  uncommanded-Good fsm (protocol_error code) s c =
      protocol_error-Good fsm (DataItem.status code []) tt s
  uncommanded-Good fsm e s c = handle-Good fsm e s λ inside. quiet-Good fsm e inside s refl c

  stepped-Good :
      (fsm : RouterSessionFsm) (e : FsmEvent) (command : Option CommandInfo)
      → IsSound fsm
      → command_of e ≡ command
      → Good (phase_of fsm.state) (stepped fsm e command)
  unfolding stepped
  stepped-Good fsm e none s c = uncommanded-Good fsm e s c
  stepped-Good fsm e (some command) s c =
      commanded-Good fsm e command _ s refl (check_command-Safe fsm e)

  -- From any router machine in which a destination with a pending Link Characteristics request is
  -- known, and on any event, a step does not panic, keeps that invariant, and is a legal move of
  -- the session's life: it goes forward only, reports that the session is up exactly when it opens
  -- and that it is down exactly when a session that had begun ends, sends nothing once it is
  -- ending, and sets the timer that it waits for.
  pub session_router-Legal :
      (fsm : RouterSessionFsm) (e : FsmEvent)
      → IsSound fsm
      → Ends
          (λ actions next. Legal (phase_of fsm.state) actions (phase_of next.state) × IsSound next)
          (step fsm e)
  unfolding step
  session_router-Legal fsm e s = stepped-Good fsm e (command_of e) s refl

  abbrev pub machine : Machine RouterSessionFsm
  machine = record {
    step = step;
    phase = λ fsm. phase_of fsm.state;
    IsSound = IsSound;
    step-Legal = session_router-Legal;
  }
