-- ===== src/Fsm/Session/Ending.antt =====
-- How a session machine comes to its end: by a shutdown and the deadline of the termination.
use dlep.Base.{List, [], ◌∷◌, ◌++◌, true, ◌≡◌}
use dlep.Core.Status.{StatusCode}
use dlep.Fsm.Events.{TimerId, TimerKind, FsmEvent, timer_expired, app_shutdown, FsmAction}
use dlep.Fsm.Session.{Run, ran, panicked}
use dlep.Fsm.Session.Lifecycle.{over, is_ending, Legal}
use dlep.Fsm.Session.Machine.{Ends, Machine, after, chain, run, ending_next}

-- A shutdown begins the end of any session, and the deadline of the termination completes it.
pub record Stops {F : Type 0} (m : Machine F) : Type 0 where
  pub shutdown :
      (fsm : F) (reason : StatusCode)
      → Ends (λ xs next. is_ending (m.phase next) ≡ true) (m.step fsm (app_shutdown reason))
  pub deadline :
      (fsm : F) (id : TimerId)
      → is_ending (m.phase fsm) ≡ true
      → Ends (λ xs next. m.phase next ≡ over) (m.step fsm (timer_expired id TimerKind.termination))

Ends-after :
    {F : Type 0} (P : F → Type 0) (xs : List FsmAction) (r : Run F)
    → Ends (λ ys last. P last) r
    → Ends (λ ys last. P last) (after xs r)
Ends-after P xs (ran ys last) h = h
Ends-after P xs panicked h = h

Ends-chain :
    {F : Type 0} (P : F → Type 0) (Q : List FsmAction → F → Type 0) (r : Run F) (k : F → Run F)
    → Ends Q r
    → ((xs : List FsmAction) (next : F) → Q xs next → Ends (λ ys last. P last) (k next))
    → Ends (λ ys last. P last) (chain r k)
Ends-chain P Q (ran xs next) k h f = Ends-after P xs (k next) (f xs next h)
Ends-chain P Q panicked k h f = h

Ends-both :
    {F : Type 0} (P Q : List FsmAction → F → Type 0) (r : Run F)
    → Ends P r
    → Ends Q r
    → Ends (λ xs last. P xs last × Q xs last) r
Ends-both P Q (ran xs last) h k = (h, k)
Ends-both P Q panicked h k = h

module _ {F : Type 0} (m : Machine F) (stops : Stops m) where
  -- An ending session, whatever happens before the deadline.
  ending_run :
      (fsm : F) (es : List FsmEvent) (id : TimerId)
      → m.IsSound fsm
      → is_ending (m.phase fsm) ≡ true
      → Ends
          (λ xs last. m.phase last ≡ over)
          (run m.step fsm (es ++ (timer_expired id TimerKind.termination ∷ [])))
  unfolding run
  ending_run fsm [] id s h =
      Ends-chain (λ f. m.phase f ≡ over) (λ xs f. m.phase f ≡ over) _ _ (stops.deadline fsm id h)
        λ xs next e. e
  ending_run fsm (e ∷ es) id s h =
      Ends-chain (λ f. m.phase f ≡ over) (λ xs f. Legal (m.phase fsm) xs (m.phase f) × m.IsSound f)
        (m.step fsm e) _ (m.step-Legal fsm e s)
        λ xs next (legal, k). ending_run next es id k (ending_next _ _ legal.forward h)

  shutdown_run :
      (fsm : F) (reason : StatusCode) (es : List FsmEvent) (id : TimerId)
      → m.IsSound fsm
      → Ends
          (λ xs last. m.phase last ≡ over)
          (run m.step fsm
            (app_shutdown reason ∷ (es ++ (timer_expired id TimerKind.termination ∷ []))))
  unfolding run
  shutdown_run fsm reason es id s =
      Ends-chain (λ f. m.phase f ≡ over)
        (λ xs f.
          (Legal (m.phase fsm) xs (m.phase f) × m.IsSound f) × (is_ending (m.phase f) ≡ true))
        (m.step fsm (app_shutdown reason)) _
        (Ends-both _ _ (m.step fsm (app_shutdown reason)) (m.step-Legal fsm (app_shutdown reason) s)
          (stops.shutdown fsm reason))
        λ xs next (good, h). ending_run next es id good.1 h

  before_run :
      (P : F → Type 0) (fsm : F) (before es : List FsmEvent)
      → ((f : F) → m.IsSound f → Ends (λ xs last. P last) (run m.step f es))
      → m.IsSound fsm
      → Ends (λ xs last. P last) (run m.step fsm (before ++ es))
  unfolding run
  before_run P fsm [] es h s = h fsm s
  before_run P fsm (e ∷ before) es h s =
      Ends-chain P (λ xs f. Legal (m.phase fsm) xs (m.phase f) × m.IsSound f) (m.step fsm e) _
        (m.step-Legal fsm e s) λ xs next (legal, k). before_run P next before es h k

  -- Whatever happened before, a shutdown and later the deadline of the termination end the session.
  pub shutdown_over :
      (fsm : F) (before es : List FsmEvent) (reason : StatusCode) (id : TimerId)
      → m.IsSound fsm
      → Ends
          (λ xs last. m.phase last ≡ over)
          (run m.step fsm (
            before
            ++ (app_shutdown reason ∷ (es ++ (timer_expired id TimerKind.termination ∷ [])))))
  shutdown_over fsm before es reason id s =
      before_run (λ f. m.phase f ≡ over) fsm before _ (λ f k. shutdown_run f reason es id k) s
