-- ===== src/Fsm/Discovery/Timer.antt =====
-- The timer of the router's discovery.
use dlep.Base.{◌==◌, Bool, true, false, if◌then◌else◌, List, [], ◌∷◌, ◌≡◌, refl, arith}
use dlep.Core.Ipnet.{Ipnet}
use dlep.Core.Item.{Signal}
use dlep.Fsm.Events.{
  SocketAddr, OfferEndpoint, FsmEvent, recv_signal, timer_expired, app_start_discovery,
  app_shutdown, FsmAction, start_timer, cancel_timer, TimerKind,
}
use dlep.Fsm.Discovery.{offer_endpoints}
use dlep.Fsm.Discovery.Machines.{
  RouterDiscoveryState, idle, probing, offer_received, RouterDiscoveryConfig, RouterDiscoveryFsm,
  with_config, router_step, router_offer, report_offer, timer_discovery,
}

-- Whether the discovery timer runs, after an action of the runtime and after several.
abbrev pub arm : Bool → FsmAction → Bool
arm armed (start_timer id kind duration periodic) = if id == timer_discovery then true else armed
arm armed (cancel_timer id) = if id == timer_discovery then false else armed
arm armed _ = armed

abbrev pub arm_all : Bool → List FsmAction → Bool
arm_all armed [] = armed
arm_all armed (a ∷ as₁) = arm_all (arm armed a) as₁

abbrev pub is_probing : RouterDiscoveryState → Bool
is_probing idle = false
is_probing probing = true
is_probing offer_received = false

module _ ⦃ip : Ipnet⦄ where
  -- A run of the machine on a sequence of events, with the timer that its actions leave.
  abbrev pub run : Bool → RouterDiscoveryFsm → List FsmEvent → Bool × RouterDiscoveryFsm
  run armed fsm [] = (armed, fsm)
  run armed fsm (e ∷ es) =
      let (actions, next) = router_step fsm e in run (arm_all armed actions) next es

  report_keeps :
      (armed : Bool) (signal : Signal) (es : List OfferEndpoint)
      → arm_all armed (report_offer signal es) ≡ armed
  report_keeps armed signal [] = refl
  report_keeps armed signal (e ∷ es) = refl

  offer_keeps :
      (armed : Bool) (signal : Signal) (from : SocketAddr)
      → arm_all armed (router_offer signal from) ≡ armed
  unfolding router_offer
  offer_keeps armed signal from =
      ground (arith, report_keeps armed signal (offer_endpoints signal from))

  -- The timer runs in the state Probing and in no other.
  abbrev InStep : Bool → RouterDiscoveryFsm → Type 0
  InStep armed fsm = armed ≡ is_probing fsm.state

  step-InStep :
      (armed : Bool) (fsm : RouterDiscoveryFsm) (e : FsmEvent)
      → InStep armed fsm
      → InStep (arm_all armed (router_step fsm e).0) (router_step fsm e).1
  unfolding router_step
  step-InStep armed fsm app_start_discovery h = ground arith
  step-InStep armed fsm (timer_expired id TimerKind.discovery) h = ground arith
  step-InStep armed fsm (recv_signal signal from) h = ground (arith, offer_keeps armed signal from)
  step-InStep armed fsm (app_shutdown reason) h = ground arith
  step-InStep armed fsm e h = h

  run-InStep :
      (armed : Bool) (fsm : RouterDiscoveryFsm) (es : List FsmEvent)
      → InStep armed fsm
      → InStep (run armed fsm es).0 (run armed fsm es).1
  run-InStep armed fsm [] h = h
  run-InStep armed fsm (e ∷ es) h =
      run-InStep (arm_all armed (router_step fsm e).0) (router_step fsm e).1 es
        (step-InStep armed fsm e h)

  -- After any events of a new router discovery machine, the timer that its actions leave runs
  -- exactly if the machine is probing.
  pub armed_iff_probing :
      (config : RouterDiscoveryConfig) (es : List FsmEvent)
      → (run false (with_config config) es).0
        ≡ is_probing (run false (with_config config) es).1.state
  armed_iff_probing config es = run-InStep false (with_config config) es refl
