-- ===== src/Fsm/Transaction.antt =====
-- crates/dlep-fsm/src/transaction.rs. A method on `&mut self` returns its result and the tracker.
pub mod Serial
use dlep.Base.{
  Bool, Option, none, some, Result, ok, err, [], Map, get, insert, remove, contains_key,
}
use dlep.Core.Mac.{MacAddress, mac_eq}
use dlep.Core.Metrics.{is_some}

pub data RequestKind : Type 0 where
  session_update session_termination destination_up destination_announce : RequestKind
  destination_down link_characteristics : RequestKind

pub record PendingRequest : Type 0 where
  pub kind : RequestKind

pub record TransactionTracker : Type 0 where
  pub session_pending : Option PendingRequest
  pub per_destination : Map MacAddress PendingRequest

-- `TransactionTracker::default`.
abbrev pub no_transactions : TransactionTracker
no_transactions = record { session_pending = none; per_destination = [] }

unfoldable pub session_busy : TransactionTracker → Bool
session_busy tx = is_some tx.session_pending

unfoldable pub destination_busy : TransactionTracker → MacAddress → Bool
destination_busy tx mac = contains_key tx.per_destination mac

unfoldable pub open_session :
    TransactionTracker → RequestKind → Result PendingRequest (Unit {0}) × TransactionTracker
open_session tx kind = elim tx.session_pending [
  | some existing ↦ (err existing, tx)
  | none ↦ (ok tt, record tx { session_pending = some (record { kind = kind }) })
]

unfoldable pub close_session : TransactionTracker → Option PendingRequest × TransactionTracker
close_session tx = (tx.session_pending, record tx { session_pending = none })

unfoldable pub open_destination :
    TransactionTracker
    → MacAddress
    → RequestKind
    → Result PendingRequest (Unit {0}) × TransactionTracker
open_destination tx mac kind = elim (get tx.per_destination mac) [
  | some existing ↦ (err existing, tx)
  | none ↦ (
    ok tt,
    record tx { per_destination = insert tx.per_destination mac (record { kind = kind }) },
  )
]

unfoldable pub close_destination :
    TransactionTracker → MacAddress → Option PendingRequest × TransactionTracker
close_destination tx mac =
    (get tx.per_destination mac, record tx { per_destination = remove tx.per_destination mac })
