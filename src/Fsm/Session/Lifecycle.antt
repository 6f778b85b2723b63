-- ===== src/Fsm/Session/Lifecycle.antt =====
-- The life of a session as its two machines share it: five phases, and what a step from one to
-- another may do. crates/dlep-fsm/src/session_router.rs and session_modem.rs are compared with it.
use dlep.Base.{ℕ, ◌+◌, ◌==◌, Bool, true, false, not, ◌&&◌, ◌||◌, List, [], ◌∷◌, ◌≡◌}
use dlep.Fsm.Events.{
  TimerId, FsmAction, send_message, start_timer, cancel_timer, emit, session_up, session_down,
}
use dlep.Fsm.Session.{timer_session_init, timer_termination, timer_heartbeat}

pub data Phase : Type 0 where
  idle initializing active closing over : Phase

abbrev pub is_over : Phase → Bool
is_over over = true
is_over _ = false

-- The session has begun, and a peer may be told of its end.
abbrev pub is_begun : Phase → Bool
is_begun idle = false
is_begun _ = true

abbrev pub is_ending : Phase → Bool
is_ending closing = true
is_ending over = true
is_ending _ = false

-- A session goes forward only, and opens only out of its initialization.
abbrev pub may_follow : Phase → Phase → Bool
may_follow idle active = false
may_follow idle q = true
may_follow initializing idle = false
may_follow initializing q = true
may_follow active idle = false
may_follow active initializing = false
may_follow active q = true
may_follow closing closing = true
may_follow closing over = true
may_follow closing q = false
may_follow over over = true
may_follow over q = false

-- Whether a step opens the session, and whether it ends one that had begun.
abbrev pub opens : Phase → Phase → Bool
opens initializing active = true
opens p q = false

abbrev pub ends : Phase → Phase → Bool
ends p q = is_begun p && not (is_over p) && is_over q

abbrev pub is_session_up : FsmAction → Bool
is_session_up (emit (session_up extensions)) = true
is_session_up a = false

abbrev pub is_session_down : FsmAction → Bool
is_session_down (emit (session_down reason)) = true
is_session_down a = false

abbrev pub is_send : FsmAction → Bool
is_send (send_message msg) = true
is_send a = false

abbrev pub bit : Bool → ℕ
bit true = 1
bit false = 0

abbrev pub count : (FsmAction → Bool) → List FsmAction → ℕ
count test [] = 0
count test (a ∷ actions) = bit (test a) + count test actions

-- Whether a timer is set, after actions of the runtime that start and cancel timers.
abbrev pub arm : TimerId → Bool → FsmAction → Bool
arm id armed (start_timer other kind duration periodic) = (other == id) || armed
arm id armed (cancel_timer other) = not (other == id) && armed
arm id armed a = armed

abbrev pub arm_all : TimerId → Bool → List FsmAction → Bool
arm_all id armed [] = armed
arm_all id armed (a ∷ actions) = arm_all id (arm id armed a) actions

-- Whether a phase waits for a timer: the deadline of the initialization, the period of the
-- heartbeats, the deadline of the termination.
abbrev pub awaits : Phase → TimerId → Bool
awaits initializing id = timer_session_init == id
awaits active id = timer_heartbeat == id
awaits closing id = timer_termination == id
awaits p id = false

-- What a step from `p` to `q` does: it goes forward; it reports the session's start exactly when it
-- opens the session, and its end exactly when it ends one that had begun; it sends nothing once the
-- session is ending; and a timer that `q` waits for is set, if one that `p` waited for was.
pub record Legal (p : Phase) (actions : List FsmAction) (q : Phase) : Type 0 where
  pub forward : may_follow p q ≡ true
  pub ups : count is_session_up actions ≡ bit (opens p q)
  pub downs : count is_session_down actions ≡ bit (ends p q)
  pub silent : is_ending p ≡ true → count is_send actions ≡ 0
  pub timed :
      (id : TimerId) (armed : Bool)
      → (awaits p id ≡ true → armed ≡ true)
      → awaits q id ≡ true
      → arm_all id armed actions ≡ true
