-- ===== src/Fsm/Session/Machine.antt =====
-- The interface of a session machine, which session_router.rs and session_modem.rs fill, and what
-- follows for any run of one.
use dlep.Base.{
  ℕ, ◌+◌, ◌≤◌, Bool, true, false, not, List, [], ◌∷◌, ◌++◌, ◌≡◌, refl, ◌∙◌, arith, Option, none,
  some, Result, ok, err, panic,
}
use dlep.Fsm.Events.{TimerId, FsmEvent, FsmAction}
use dlep.Fsm.Session.{Run, ran, panicked, expecting, expecting_ok}
use dlep.Fsm.Session.Lifecycle.{
  Phase, idle, initializing, is_over, is_begun, is_ending, may_follow, opens, ends, is_session_up,
  is_session_down, is_send, bit, count, arm_all, awaits, Legal,
}
use dlep.Fsm.Session.Actions.{count-append, arm_all-append}

-- A run ends without a panic, in actions and a machine with a property.
abbrev pub Ends : {F : Type 0} → (List FsmAction → F → Type 0) → Run F → Type 0
Ends P (ran actions fsm) = P actions fsm
Ends P panicked = ⊥

pub expecting-Ends :
    {A F : Type 0} (P : List FsmAction → F → Type 0) (o : Option A) (k : A → Run F)
    → (a : A) × (o ≡ some a)
    → ((a : A) → o ≡ some a → Ends P (k a))
    → Ends P (expecting o k)
expecting-Ends P none k (a, e) h = absurd (cc)
expecting-Ends P (some b) k (a, e) h = h b refl

pub expecting_ok-Ends :
    {E F : Type 0} (P : List FsmAction → F → Type 0) (m : Result E (Unit {0})) (r : Run F)
    → m ≡ ok tt
    → Ends P r
    → Ends P (expecting_ok m r)
expecting_ok-Ends P (ok u) r e h = h
expecting_ok-Ends P (err x) r e h = absurd (cc)
expecting_ok-Ends P panic r e h = absurd (cc)

pub Ends-map :
    {F : Type 0} (P Q : List FsmAction → F → Type 0) (r : Run F)
    → ((xs : List FsmAction) (fsm : F) → P xs fsm → Q xs fsm)
    → Ends P r
    → Ends Q r
Ends-map P Q (ran xs fsm) f h = f xs fsm h
Ends-map P Q panicked f h = h

pub record Machine (F : Type 0) : Type 1 where
  pub step : F → FsmEvent → Run F
  pub phase : F → Phase
  pub IsSound : F → Type 0
  -- From a sound machine a step does not panic, is a legal one, and leaves a sound machine.
  pub step-Legal :
      (fsm : F) (e : FsmEvent)
      → IsSound fsm
      → Ends (λ actions next. Legal (phase fsm) actions (phase next) × IsSound next) (step fsm e)

-- The actions come first.
abbrev pub after : {F : Type 0} → List FsmAction → Run F → Run F
after actions (ran more fsm) = ran (actions ++ more) fsm
after actions panicked = panicked

abbrev pub chain : {F : Type 0} → Run F → (F → Run F) → Run F
chain (ran actions fsm) k = after actions (k fsm)
chain panicked k = panicked

-- A machine takes events, one after the other.
unfoldable pub run : {F : Type 0} → (F → FsmEvent → Run F) → F → List FsmEvent → Run F
run step fsm [] = ran [] fsm
run step fsm (e ∷ es) = chain (step fsm e) λ next. run step next es

-- The session may still open.
abbrev pub may_open : Phase → Bool
may_open idle = true
may_open initializing = true
may_open p = false

-- What a run from `p` to `q` does: it opens the session once at most, and only if it may; it reports
-- the end once at most, and only at the end; exactly then, if the session had begun; every session
-- that it opens is alive or its end is reported; an ending session sends nothing and stays ending;
-- and the timer that `q` waits for is set.
pub record Course (p : Phase) (actions : List FsmAction) (q : Phase) : Type 0 where
  pub ups : count is_session_up actions + bit (may_open q) ≤ bit (may_open p)
  pub downs : count is_session_down actions ≤ bit (is_over q)
  pub reported : is_begun p ≡ true → count is_session_down actions ≡ bit (ends p q)
  pub closed : count is_session_up actions ≤ count is_session_down actions + bit (not (is_over q))
  pub silent : is_ending p ≡ true → (count is_send actions ≡ 0) × (is_ending q ≡ true)
  pub final : is_over p ≡ true → is_over q ≡ true
  pub timed :
      (id : TimerId) (armed : Bool)
      → (awaits p id ≡ true → armed ≡ true)
      → awaits q id ≡ true
      → arm_all id armed actions ≡ true

ups_chain :
    (p m q : Phase) (a b : ℕ)
    → may_follow p m ≡ true
    → a ≡ bit (opens p m)
    → b + bit (may_open q) ≤ bit (may_open m)
    → a + b + bit (may_open q) ≤ bit (may_open p)
ups_chain p m q a b f e h = ground arith

downs_chain :
    (p m q : Phase) (a b : ℕ)
    → a ≡ bit (ends p m)
    → b ≤ bit (is_over q)
    → (is_begun m ≡ true → b ≡ bit (ends m q))
    → (is_over m ≡ true → is_over q ≡ true)
    → a + b ≤ bit (is_over q)
downs_chain p m q a b e h k f = ground arith

reported_chain :
    (p m q : Phase) (a b : ℕ)
    → may_follow p m ≡ true
    → a ≡ bit (ends p m)
    → (is_begun m ≡ true → b ≡ bit (ends m q))
    → (is_over m ≡ true → is_over q ≡ true)
    → is_begun p ≡ true
    → a + b ≡ bit (ends p q)
reported_chain p m q a b f e k o g = ground arith

closed_chain :
    (p m q : Phase) (a b c d : ℕ)
    → a ≡ bit (opens p m)
    → c ≡ bit (ends p m)
    → b + bit (may_open q) ≤ bit (may_open m)
    → b ≤ d + bit (not (is_over q))
    → (is_begun m ≡ true → d ≡ bit (ends m q))
    → a + b ≤ c + d + bit (not (is_over q))
closed_chain p m q a b c d e f g h k = ground arith

final_chain :
    (p m q : Phase)
    → may_follow p m ≡ true
    → (is_over m ≡ true → is_over q ≡ true)
    → is_over p ≡ true
    → is_over q ≡ true
final_chain p m q f h e = ground arith

pub ending_next : (p m : Phase) → may_follow p m ≡ true → is_ending p ≡ true → is_ending m ≡ true
ending_next p m f e = ground arith

-- A step and a course after it.
Course-after :
    (p m q : Phase) (xs ys : List FsmAction) → Legal p xs m → Course m ys q → Course p (xs ++ ys) q
Course-after p m q xs ys s c = record {
  ups =
      rw (count-append is_session_up xs ys)
        (ups_chain p m q (count is_session_up xs) (count is_session_up ys) s.forward s.ups c.ups);
  downs = rw (count-append is_session_down xs ys) (
      downs_chain p m q (count is_session_down xs) (count is_session_down ys) s.downs c.downs
        c.reported c.final);
  reported = rw (count-append is_session_down xs ys) (
      reported_chain p m q (count is_session_down xs) (count is_session_down ys) s.forward s.downs
        c.reported c.final);
  closed =
      rw (count-append is_session_up xs ys, count-append is_session_down xs ys)
        (closed_chain p m q (count is_session_up xs) (count is_session_up ys)
          (count is_session_down xs) (count is_session_down ys) s.ups s.downs c.ups c.closed
          c.reported);
  silent = λ e.
      let rest = c.silent (ending_next p m s.forward e) in
      (count-append is_send xs ys ∙ (omega (arith, s.silent e, rest.0)), rest.1);
  final = final_chain p m q s.forward c.final;
  timed = λ id armed before waits.
      arm_all-append id armed xs ys
      ∙ c.timed id (arm_all id armed xs) (s.timed id armed before) waits;
}

Course-none : (p : Phase) → Course p [] p
Course-none p = record {
  ups = omega arith;
  downs = ground arith;
  reported = λ e. ground arith;
  closed = ground arith;
  silent = λ e. (refl, e);
  final = λ e. e;
  timed = λ id armed before waits. before waits;
}

module _ {F : Type 0} (m : Machine F) where
  abbrev Goes : F → List FsmAction → F → Type 0
  Goes fsm actions last = Course (m.phase fsm) actions (m.phase last) × m.IsSound last

  Goes-after :
      (fsm next : F) (xs : List FsmAction) (r : Run F)
      → Legal (m.phase fsm) xs (m.phase next)
      → Ends (Goes next) r
      → Ends (Goes fsm) (after xs r)
  Goes-after fsm next xs (ran ys last) s (c, k) =
      (Course-after (m.phase fsm) (m.phase next) (m.phase last) xs ys s c, k)
  Goes-after fsm next xs panicked s h = h

  Goes-chain :
      (fsm : F) (r : Run F) (k : F → Run F)
      → Ends (λ xs next. Legal (m.phase fsm) xs (m.phase next) × m.IsSound next) r
      → ((next : F) → m.IsSound next → Ends (Goes next) (k next))
      → Ends (Goes fsm) (chain r k)
  Goes-chain fsm (ran xs next) k (s, g) h = Goes-after fsm next xs (k next) s (h next g)
  Goes-chain fsm panicked k s h = s

  -- A run of a sound machine on any events does not panic, and follows the course of a session.
  pub run-Course :
      (fsm : F) (es : List FsmEvent)
      → m.IsSound fsm
      → Ends
          (λ xs last. Course (m.phase fsm) xs (m.phase last) × m.IsSound last)
          (run m.step fsm es)
  unfolding run
  run-Course fsm [] g = (Course-none (m.phase fsm), g)
  run-Course fsm (e ∷ es) g =
      Goes-chain fsm (m.step fsm e) (λ next. run m.step next es) (m.step-Legal fsm e g)
        λ next h. run-Course next es h
