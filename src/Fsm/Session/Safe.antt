-- ===== src/Fsm/Session/Safe.antt =====
-- The checks of session_router.rs and session_modem.rs do not panic.
use dlep.Base.{
  Bool, true, false, if◌then◌else◌, Result, ok, err, panic, ◌>>◌, Meets, ◌≡◌, refl, sym, arith, inl,
  inr, if_rule, subst, List, [],
}
use dlep.Core.Ipnet.{Ipnet}
use dlep.Core.Mac.{mac_eq, MacAddressFormat}
use dlep.Core.Status.{StatusCode}
use dlep.Core.Item.{Message}
use dlep.Core.Ids.{ExtensionId}
use dlep.Core.Codec.Frame.{encode_message}
use dlep.Core.Codec.Frame.Written.{encode_message_lem}
use dlep.Fsm.Transaction.{TransactionTracker, session_busy, open_session}
use dlep.Fsm.Addresses.{DestinationAddrs, AddressChanges, validate, apply_strict, changes_empty}
use dlep.Fsm.Validation.{validate_message, validate_mac_format}
use dlep.Fsm.Validation.Decision.{Verdict, validate_message-Verdict}
use dlep.Fsm.Validation.Transactions.{validate_transaction, validate_destination}
use dlep.Fsm.Events.{CommandError, FsmAction}
use dlep.Fsm.Common.{
  or_invalid, Shared, validate_local_address_update, apply_local_address_update, act, send_update,
  sent, effective_changes,
}
use dlep.Fsm.Session.Actions.{Ordinary}

-- No panic.
abbrev pub Safe : {E : Type 0} → Result E (Unit {0}) → Type 0
Safe r = Meets (λ _. Unit {0}) r

pub Safe-chain : {E : Type 0} (m k : Result E (Unit {0})) → Safe m → Safe k → Safe (m >> k)
Safe-chain (ok u) k h g = g
Safe-chain (err e) k h g = tt
Safe-chain panic k h g = h

-- The second step may rely on the first.
pub Safe-then :
    {E : Type 0} (m k : Result E (Unit {0})) → Safe m → (m ≡ ok tt → Safe k) → Safe (m >> k)
Safe-then (ok u) k h g = g refl
Safe-then (err e) k h g = tt
Safe-then panic k h g = h

pub Safe-if :
    {E : Type 0} (b : Bool) (m k : Result E (Unit {0}))
    → Safe m
    → Safe k
    → Safe (if b then m else k)
Safe-if true m k h g = h
Safe-if false m k h g = g

module _ ⦃ip : Ipnet⦄ where
  pub encode-Safe : (msg : Message) → Safe (or_invalid (encode_message msg))
  encode-Safe msg =
      let P = λ (r : Result _ _). Safe (or_invalid r) in
      elim (encode_message_lem msg) [
        | inl (fits, p) ↦ subst P (sym p) tt
        | inr (x, p, bad) ↦ subst P (sym p) tt
      ]

  pub validate-Safe : (c : AddressChanges) → Safe (or_invalid (validate c))
  unfolding validate
  validate-Safe c = ground arith

  pub validate_local-Safe :
      (locals : DestinationAddrs) (c : AddressChanges)
      → Safe (validate_local_address_update locals c)
  unfolding validate_local_address_update
  validate_local-Safe locals c = Safe-chain _ _ (validate-Safe c) (encode-Safe _)

  Verdict-Safe :
      (msg : Message) (router initializing : Bool) (locals : List ExtensionId)
      (r : Result StatusCode (Unit {0}))
      → Verdict msg router initializing locals r
      → Safe r
  Verdict-Safe msg router initializing locals (ok u) v = tt
  Verdict-Safe msg router initializing locals (err e) v = tt
  Verdict-Safe msg router initializing locals panic v = v

  pub validate_message-Safe :
      (msg : Message) (router initializing : Bool) (locals : List ExtensionId)
      → Safe (validate_message msg router initializing locals)
  validate_message-Safe msg router initializing locals =
      Verdict-Safe msg router initializing locals _
        (validate_message-Verdict msg router initializing locals)

  pub apply_strict-Safe :
      (c : AddressChanges) (current : DestinationAddrs) → Safe (apply_strict c current).0
  unfolding apply_strict validate
  apply_strict-Safe c current = ground arith

pub validate_mac_format-Safe :
    (msg : Message) (format : MacAddressFormat) → Safe (validate_mac_format msg format)
unfolding validate_mac_format
validate_mac_format-Safe msg format = ground arith

pub validate_transaction-Safe :
    (msg : Message) (tx : TransactionTracker) (up : Bool) → Safe (validate_transaction msg tx up)
unfolding validate_transaction validate_destination
validate_transaction-Safe msg tx up = ground arith

-- A local update of addresses leaves the requests about destinations alone, and its actions the
-- life of the session.
abbrev pub Aside : Shared → Result CommandError (List FsmAction) × Shared → Type 0
Aside s (ok actions, t) = Ordinary actions × (t.tx.per_destination ≡ s.tx.per_destination)
Aside s (err reason, t) = ⊥
Aside s (panic, t) = ⊥

module _ ⦃ip : Ipnet⦄ where
  send_update-Aside :
      (s : Shared) (changes : AddressChanges)
      → session_busy s.tx ≡ false
      → Aside s (send_update s changes)
  unfolding send_update sent open_session session_busy Ordinary
  send_update-Aside s changes free = ground arith

  act-Aside :
      (s : Shared) (changes : AddressChanges) (r : Result CommandError (Unit {0}))
      → Safe r
      → (r ≡ ok tt → session_busy s.tx ≡ false)
      → Aside s (act s changes r)
  unfolding act Ordinary
  act-Aside s changes (err reason) h f = ((refl, tt), refl)
  act-Aside s changes panic h f = h
  act-Aside s changes (ok u) h f =
      if_rule (Aside s) (changes_empty (effective_changes s.locals changes)) {x = (ok [], s)}
        {y = send_update s changes} (λ _. (tt, refl)) (λ _. send_update-Aside s changes (f refl))

  pub local_update-Aside :
      (s : Shared) (changes : AddressChanges) → Aside s (apply_local_address_update s changes)
  unfolding apply_local_address_update
  local_update-Aside s changes =
      act-Aside s changes _
        (Safe-if (session_busy s.tx) _ _ tt (validate_local-Safe s.locals changes))
        (λ e. ground arith)
