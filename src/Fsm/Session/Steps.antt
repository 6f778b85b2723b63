-- ===== src/Fsm/Session/Steps.antt =====
-- The steps that both session machines take, crates/dlep-fsm/src/session_router.rs and
-- session_modem.rs, whatever their states.
use dlep.Base.{Bool, true, false, List, [], ◌≡◌, refl, arith}
use dlep.Core.Status.{StatusCode}
use dlep.Core.Item.{DataItem}
use dlep.Fsm.Events.{CommandInfo, CommandError, FsmEvent, recv_message, FsmAction}
use dlep.Fsm.Common.{SessionConfig}
use dlep.Fsm.Session.{rejection, error_actions, shutdown_actions, missed_actions}
use dlep.Fsm.Session.Lifecycle.{
  Phase, is_ending, ends, is_session_up, is_session_down, is_send, bit, count, Legal,
}

abbrev pub is_message : FsmEvent → Bool
is_message (recv_message msg) = true
is_message e = false

-- Nothing is done.
pub idle-Legal : (p : Phase) → Legal p [] p
idle-Legal p = record {
  forward = ground arith;
  ups = ground arith;
  downs = ground arith;
  silent = λ e. refl;
  timed = λ id armed before waits. before waits;
}

pub shutdown-Legal :
    (config : SessionConfig) (reason : StatusCode)
    → Legal Phase.active (shutdown_actions config reason) Phase.closing
unfolding shutdown_actions
shutdown-Legal config reason = record {
  forward = refl;
  ups = refl;
  downs = refl;
  silent = λ h. absurd (cc);
  timed = λ id armed before waits. ground arith;
}

pub missed-Legal :
    (config : SessionConfig) (reason : StatusCode)
    → Legal Phase.active (missed_actions config reason) Phase.closing
unfolding missed_actions
missed-Legal config reason = record {
  forward = refl;
  ups = refl;
  downs = refl;
  silent = λ h. absurd (cc);
  timed = λ id armed before waits. ground arith;
}

pub rejected-Legal :
    (p : Phase) (command : CommandInfo) (reason : CommandError)
    → Legal p (rejection command reason) p
rejected-Legal p command reason = record {
  forward = ground arith;
  ups = ground arith;
  downs = ground arith;
  silent = λ h. refl;
  timed = λ id armed before waits. before waits;
}

-- A protocol error before the session ends.
pub error-Legal :
    (p : Phase) (config : SessionConfig) (item : DataItem)
    → is_ending p ≡ false
    → Legal p (error_actions config item) Phase.closing
unfolding error_actions
error-Legal p config item h = record {
  forward = ground arith;
  ups = ground arith;
  downs = ground arith;
  silent = λ e. absurd (ground arith);
  timed = λ id armed before waits. ground arith;
}

-- The end of the session.
pub over-Legal :
    (p : Phase) (actions : List FsmAction)
    → count is_session_up actions ≡ 0
    → count is_session_down actions ≡ bit (ends p Phase.over)
    → (is_ending p ≡ true → count is_send actions ≡ 0)
    → Legal p actions Phase.over
over-Legal p actions up down send = record {
  forward = ground arith;
  ups = ground arith;
  downs = down;
  silent = send;
  timed = λ id armed before waits. absurd (cc);
}
