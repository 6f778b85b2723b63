-- ===== src/Fsm/Transaction/Serial.antt =====
-- Sequences of calls of the tracker of transaction.rs, and how many requests of a scope they open and
-- release.
use dlep.Base.{
  ℕ, ◌+◌, Bool, Option, none, some, Result, ok, err, panic, List, [], ◌∷◌, ◌≡◌, refl, arith, get,
  get-insert, get-remove, if◌then◌else◌,
}
use dlep.Core.Mac.{MacAddress, mac_eq, eq_mac, eq_mac_iff}
use dlep.Fsm.Transaction.{
  RequestKind, PendingRequest, TransactionTracker, no_transactions, session_busy, destination_busy,
  open_session, close_session, open_destination, close_destination,
}

-- A call of one of the four methods that change the tracker.
pub data Operation : Type 0 where
  open_session_op : RequestKind → Operation
  close_session_op : Operation
  open_destination_op : MacAddress → RequestKind → Operation
  close_destination_op : MacAddress → Operation

abbrev succeeded : {A : Type 0} → Result PendingRequest A → ℕ
succeeded (ok a) = 1
succeeded (err e) = 0
succeeded panic = 0

abbrev released : Option PendingRequest → ℕ
released (some r) = 1
released none = 0

-- The tracker, and how many requests of a scope were opened and how many were released so far. The
-- scope is the session (`none`) or one destination.
pub record Account : Type 0 where
  pub tracker : TransactionTracker
  pub opened : ℕ
  pub closed : ℕ

abbrev counts_for : Option MacAddress → MacAddress → ℕ → ℕ
counts_for none m n = 0
counts_for (some k) m n = if eq_mac m k then n else 0

abbrev counts_session : Option MacAddress → ℕ → ℕ
counts_session none n = n
counts_session (some k) n = 0

pub perform : Option MacAddress → Account → Operation → Account
perform scope a (open_session_op kind) =
    let (r, tx) = open_session a.tracker kind in
    record a { tracker = tx; opened = a.opened + counts_session scope (succeeded r) }
perform scope a close_session_op =
    let (r, tx) = close_session a.tracker in
    record a { tracker = tx; closed = a.closed + counts_session scope (released r) }
perform scope a (open_destination_op m kind) =
    let (r, tx) = open_destination a.tracker m kind in
    record a { tracker = tx; opened = a.opened + counts_for scope m (succeeded r) }
perform scope a (close_destination_op m) =
    let (r, tx) = close_destination a.tracker m in
    record a { tracker = tx; closed = a.closed + counts_for scope m (released r) }

pub perform_all : Option MacAddress → Account → List Operation → Account
perform_all scope a [] = a
perform_all scope a (op ∷ ops) = perform_all scope (perform scope a op) ops

-- Whether a request is open in the scope.
abbrev pub busy : TransactionTracker → Option MacAddress → Bool
busy tx none = session_busy tx
busy tx (some m) = destination_busy tx m

abbrev pub IsBalanced : Option MacAddress → Account → Type 0
IsBalanced scope a = a.opened ≡ a.closed + (if busy a.tracker scope then 1 else 0)

perform-IsBalanced :
    (scope : Option MacAddress) (a : Account) (op : Operation)
    → IsBalanced scope a
    → IsBalanced scope (perform scope a op)
unfolding perform open_session close_session open_destination close_destination session_busy
    destination_busy
perform-IsBalanced none a (open_session_op kind) h = ground arith
perform-IsBalanced none a close_session_op h = ground arith
perform-IsBalanced none a (open_destination_op m kind) h = ground arith
perform-IsBalanced none a (close_destination_op m) h = ground arith
perform-IsBalanced (some k) a (open_session_op kind) h = ground arith
perform-IsBalanced (some k) a close_session_op h = ground arith
perform-IsBalanced (some k) a (open_destination_op m kind) h =
    ground
      (arith, get-insert a.tracker.per_destination m k (record { kind = kind }), eq_mac_iff m k)
perform-IsBalanced (some k) a (close_destination_op m) h =
    ground (arith, get-remove a.tracker.per_destination m k, eq_mac_iff m k)

abbrev pub fresh : Account
fresh = record { tracker = no_transactions; opened = 0; closed = 0 }

perform_all-IsBalanced :
    (scope : Option MacAddress) (a : Account) (ops : List Operation)
    → IsBalanced scope a
    → IsBalanced scope (perform_all scope a ops)
unfolding perform_all
perform_all-IsBalanced scope a [] h = h
perform_all-IsBalanced scope a (op ∷ ops) h =
    perform_all-IsBalanced scope (perform scope a op) ops (perform-IsBalanced scope a op h)

-- After any sequence of calls on a new tracker, successful opens and releases of a scope (the
-- session, or one destination) differ by one if a request is pending there, and by nothing
-- otherwise.
pub at_most_one :
    (scope : Option MacAddress) (ops : List Operation)
    → (perform_all scope fresh ops).opened
      ≡ (perform_all scope fresh ops).closed
        + (if busy (perform_all scope fresh ops).tracker scope then 1 else 0)
unfolding session_busy destination_busy get
at_most_one none ops = perform_all-IsBalanced none fresh ops refl
at_most_one (some k) ops = perform_all-IsBalanced (some k) fresh ops refl
