-- ===== src/Fsm/Session/Actions.antt =====
-- Actions that leave the life of a session alone, which most handlers of session_router.rs and
-- session_modem.rs return.
use dlep.Base.{
  ◌+◌, Bool, true, false, not, if◌then◌else◌, List, [], ◌∷◌, ◌++◌, Option, none, some, All,
  All-append, ◌≡◌, refl, ap, ◌∙◌, subst, ==_iff, arith, if_rule, ltb, ◌*◌,
}
use dlep.Core.Ids.{ExtensionId, min_heartbeat_interval_ms}
use dlep.Core.Metrics.{Duration, from_millis}
use dlep.Fsm.Addresses.{DestinationAddrs, AddressChanges, addrs_empty, changes_empty}
use dlep.Fsm.Events.{
  TimerId, FsmAction, send_message, reset_heartbeat, emit, session_up, session_down,
}
use dlep.Fsm.Common.{heartbeat_reset_action, reset_action, exceeds_duration}
use dlep.Fsm.Session.{
  timer_heartbeat, reset_actions, into_list, when_found, first_addresses, changed_addresses,
}
use dlep.Fsm.Session.Lifecycle.{
  active, initializing, is_session_up, is_session_down, count, arm, arm_all, Legal,
}

abbrev pub is_ordinary : FsmAction → Bool
is_ordinary (send_message msg) = true
is_ordinary (reset_heartbeat id deadline) = true
is_ordinary (emit (session_up extensions)) = false
is_ordinary (emit (session_down reason)) = false
is_ordinary (emit e) = true
is_ordinary a = false

unfoldable pub Ordinary : List FsmAction → Type 0
Ordinary = All λ a. is_ordinary a ≡ true

pub Ordinary-cons :
    (a : FsmAction) (xs : List FsmAction) → is_ordinary a ≡ true → Ordinary xs → Ordinary (a ∷ xs)
unfolding Ordinary
Ordinary-cons a xs h k = (h, k)

pub Ordinary-append : (xs ys : List FsmAction) → Ordinary xs → Ordinary ys → Ordinary (xs ++ ys)
unfolding Ordinary
Ordinary-append = All-append λ a. is_ordinary a ≡ true

pub into_list-Ordinary :
    (o : Option FsmAction)
    → ((a : FsmAction) → o ≡ some a → is_ordinary a ≡ true)
    → Ordinary (into_list o)
unfolding Ordinary
into_list-Ordinary none h = tt
into_list-Ordinary (some a) h = (h a refl, tt)

reset_action-Ordinary : (id : TimerId) (d : Duration) → Ordinary (into_list (reset_action id d))
unfolding reset_action Ordinary
reset_action-Ordinary id d =
    if_rule (λ o. Ordinary (into_list o)) (ltb d (from_millis min_heartbeat_interval_ms)) {x = none}
      (λ _. tt)
      λ _.
        if_rule (λ o. Ordinary (into_list o)) (exceeds_duration (d * 2)) {x = none}
          {y = some (reset_heartbeat id (d * 2))} (λ _. tt) λ _. (refl, tt)

pub reset-Ordinary : (interval : Option Duration) → Ordinary (reset_actions interval)
unfolding reset_actions heartbeat_reset_action Ordinary
reset-Ordinary none = tt
reset-Ordinary (some d) = reset_action-Ordinary _ d

-- An action under a condition.
when-Ordinary :
    (b : Bool) (a : FsmAction) → is_ordinary a ≡ true → Ordinary (if b then a ∷ [] else [])
unfolding Ordinary
when-Ordinary true a h = (h, tt)
when-Ordinary false a h = tt

pub when_found-Ordinary :
    (b : Bool) (a : FsmAction) → is_ordinary a ≡ true → Ordinary (when_found b a)
unfolding when_found
when_found-Ordinary b a h = when-Ordinary b a h

pub first-Ordinary : (s : DestinationAddrs) → Ordinary (first_addresses s)
unfolding first_addresses
first-Ordinary s = when-Ordinary (not (addrs_empty s)) _ refl

pub changed-Ordinary :
    (c : AddressChanges) (s : DestinationAddrs) → Ordinary (changed_addresses c s)
unfolding changed_addresses
changed-Ordinary c s = when-Ordinary (not (changes_empty c)) _ refl

ordinary_parts :
    (a : FsmAction)
    → is_ordinary a ≡ true
    → (is_session_up a ≡ false)
      × (is_session_down a ≡ false)
      × ((id : TimerId) (armed : Bool) → arm id armed a ≡ armed)
ordinary_parts (send_message msg) h = (refl, refl, λ id armed. refl)
ordinary_parts (reset_heartbeat other deadline) h = (refl, refl, λ id armed. refl)
ordinary_parts (emit (session_up extensions)) h = absurd (cc)
ordinary_parts (emit (session_down reason)) h = absurd (cc)
ordinary_parts (emit e) h = (refl, refl, λ id armed. refl)
ordinary_parts a h = absurd (cc)

pub count-append :
    (test : FsmAction → Bool) (xs ys : List FsmAction)
    → count test (xs ++ ys) ≡ count test xs + count test ys
count-append test [] ys = omega arith
count-append test (x ∷ xs) ys = omega (arith, count-append test xs ys)

pub arm_all-append :
    (id : TimerId) (armed : Bool) (xs ys : List FsmAction)
    → arm_all id armed (xs ++ ys) ≡ arm_all id (arm_all id armed xs) ys
arm_all-append id armed [] ys = refl
arm_all-append id armed (x ∷ xs) ys = arm_all-append id (arm id armed x) xs ys

pub ups-Ordinary : (xs : List FsmAction) → Ordinary xs → count is_session_up xs ≡ 0
unfolding Ordinary
ups-Ordinary [] h = refl
ups-Ordinary (x ∷ xs) (hx, h) = rw ((ordinary_parts x hx).0) (omega (arith, ups-Ordinary xs h))

pub downs-Ordinary : (xs : List FsmAction) → Ordinary xs → count is_session_down xs ≡ 0
unfolding Ordinary
downs-Ordinary [] h = refl
downs-Ordinary (x ∷ xs) (hx, h) = rw ((ordinary_parts x hx).1) (omega (arith, downs-Ordinary xs h))

pub arm-Ordinary :
    (id : TimerId) (armed : Bool) (xs : List FsmAction) → Ordinary xs → arm_all id armed xs ≡ armed
unfolding Ordinary
arm-Ordinary id armed [] h = refl
arm-Ordinary id armed (x ∷ xs) (hx, h) =
    ap (λ b. arm_all id b xs) ((ordinary_parts x hx).2 id armed) ∙ arm-Ordinary id armed xs h

-- Ordinary actions in an active session leave it so.
pub Ordinary-Legal : (xs : List FsmAction) → Ordinary xs → Legal active xs active
Ordinary-Legal xs h = record {
  forward = refl;
  ups = ups-Ordinary xs h;
  downs = downs-Ordinary xs h;
  silent = λ e. absurd (cc);
  timed = λ id armed before waits. arm-Ordinary id armed xs h ∙ before waits;
}

-- The actions at the start of a session: some that start the heartbeats, and the session's event
-- among ordinary ones.
pub opening-Legal :
    (pre xs ys : List FsmAction) (extensions : List ExtensionId)
    → count is_session_up pre ≡ 0
    → count is_session_down pre ≡ 0
    → ((armed : Bool) → arm_all timer_heartbeat armed pre ≡ true)
    → Ordinary xs
    → Ordinary ys
    → Legal initializing (pre ++ (xs ++ (emit (session_up extensions) ∷ ys))) active
opening-Legal pre xs ys extensions up down start x y =
    let rest = emit (session_up extensions) ∷ ys in
    record {
      forward = refl;
      ups = omega (
        arith,
        count-append is_session_up pre (xs ++ rest),
        count-append is_session_up xs rest,
        ups-Ordinary xs x,
        ups-Ordinary ys y,
        up,
      );
      downs = omega (
        arith,
        count-append is_session_down pre (xs ++ rest),
        count-append is_session_down xs rest,
        downs-Ordinary xs x,
        downs-Ordinary ys y,
        down,
      );
      silent = λ e. absurd (cc);
      timed = λ id armed before waits.
          subst (λ k. arm_all k armed (pre ++ (xs ++ rest)) ≡ true)
            ((==_iff timer_heartbeat id).0 waits)
            (arm_all-append timer_heartbeat armed pre (xs ++ rest)
              ∙ ap (λ b. arm_all timer_heartbeat b (xs ++ rest)) (start armed)
              ∙ arm_all-append timer_heartbeat true xs rest
              ∙ ap (λ b. arm_all timer_heartbeat b ys) (arm-Ordinary timer_heartbeat true xs x)
              ∙ arm-Ordinary timer_heartbeat true ys y);
    }
