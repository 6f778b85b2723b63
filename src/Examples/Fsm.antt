-- ===== src/Examples/Fsm.antt =====
-- Validation, transactions and addresses.
use dlep.Base.{
  true, false, [], ◌∷◌, List, none, some, ok, err, ◌≡◌, refl, get, ◌+◌, if◌then◌else◌, distinct,
  contains, not, ◌&&◌,
}
use dlep.Core.Ipnet.Masked.{masked_laws}
use dlep.Core.Status.{unexpected_message}
use dlep.Core.Ids.{msg_destination_up, msg_destination_up_response, msg_session_update}
use dlep.Core.Mac.{mac_eq}
use dlep.Core.Item.{DataItem, Message, new_message}
use dlep.Fsm.Transaction.{
  RequestKind, TransactionTracker, no_transactions, destination_busy, open_destination,
  close_destination,
}
use dlep.Fsm.Transaction.Serial.{
  Operation, open_destination_op, close_destination_op, perform_all, fresh, busy, at_most_one,
}
use dlep.Fsm.Addresses.{
  DestinationAddrs, no_addrs, AddressChanges, apply_lenient, apply_strict, canonical_addrs,
  note_items, between, canonical, from_message, append_to,
}
use dlep.Fsm.Addresses.Apply.{
  v4, has, has-apply_lenient, IsDistinct, apply_lenient-IsDistinct, has-apply_between,
}
use dlep.Fsm.Addresses.Strict.{Strict, apply_strict-Strict}
use dlep.Fsm.Addresses.Batch.{from_message-append_to}
use dlep.Fsm.Validation.{validate_message}
use dlep.Fsm.Validation.Transactions.{
  validate_transaction, validate_destination, first_mac, response_kind, extract_destination_mac,
  is_kind,
}
use dlep.Fsm.Validation.Decision.{Verdict, validate_message-Verdict}
use dlep.Fsm.Validation.Requests.{open-validate_request, close-validate_response}
use dlep.Examples.Data.{example_net, init_message, host_net, mac}

validate_message-Verdict_example :
    Verdict init_message false true [] (validate_message init_message false true [])
validate_message-Verdict_example = validate_message-Verdict init_message false true []

-- Two Destination Up in a row, then a Destination Down: the second request is refused.
abbrev calls : List Operation
calls =
    open_destination_op mac RequestKind.destination_up
    ∷ open_destination_op mac RequestKind.destination_up
    ∷ close_destination_op mac
    ∷ open_destination_op mac RequestKind.destination_down
    ∷ []

at_most_one_example :
    (perform_all (some mac) fresh calls).opened
    ≡ (perform_all (some mac) fresh calls).closed
      + (if busy (perform_all (some mac) fresh calls).tracker (some mac) then 1 else 0)
at_most_one_example = at_most_one (some mac) calls

abbrev current : DestinationAddrs
current = record no_addrs { v4 = (10 ∷ 0 ∷ 0 ∷ 1 ∷ []) ∷ [] }

abbrev desired : DestinationAddrs
desired = record no_addrs { v4 = (10 ∷ 0 ∷ 0 ∷ 2 ∷ []) ∷ [] }

-- 10.1.2.3/16 is added, 10.0.0.1 removed.
abbrev change : AddressChanges
change = record {
  added = record no_addrs { v4_subnets = host_net ∷ [] };
  removed = record no_addrs { v4 = (10 ∷ 0 ∷ 0 ∷ 1 ∷ []) ∷ [] };
}

apply_strict-Strict_example : Strict (canonical change) current (apply_strict change current)
apply_strict-Strict_example = apply_strict-Strict masked_laws change current

has-apply_lenient_example : has (apply_lenient change current) (v4 (10 ∷ 0 ∷ 0 ∷ 1 ∷ [])) ≡ (
    if has (canonical change).added (v4 (10 ∷ 0 ∷ 0 ∷ 1 ∷ []))
    then (if has (canonical change).removed (v4 (10 ∷ 0 ∷ 0 ∷ 1 ∷ []))
        then has current (v4 (10 ∷ 0 ∷ 0 ∷ 1 ∷ []))
        else true)
    else has current (v4 (10 ∷ 0 ∷ 0 ∷ 1 ∷ []))
      && not (has (canonical change).removed (v4 (10 ∷ 0 ∷ 0 ∷ 1 ∷ []))))
has-apply_lenient_example = has-apply_lenient change current (v4 (10 ∷ 0 ∷ 0 ∷ 1 ∷ []))

current-IsDistinct : IsDistinct current
unfolding distinct contains
current-IsDistinct = (refl, refl, refl, refl)

apply_lenient-IsDistinct_example : IsDistinct (apply_lenient change current)
apply_lenient-IsDistinct_example = apply_lenient-IsDistinct change current current-IsDistinct

has-apply_between_example :
    has (apply_lenient (between current desired) current) (v4 (10 ∷ 0 ∷ 0 ∷ 2 ∷ []))
    ≡ has desired (v4 (10 ∷ 0 ∷ 0 ∷ 2 ∷ []))
unfolding canonical_addrs
has-apply_between_example = has-apply_between current desired (v4 (10 ∷ 0 ∷ 0 ∷ 2 ∷ [])) refl refl

from_message-append_to_example :
    from_message (append_to change (new_message msg_session_update)) ≡ canonical change
unfolding from_message note_items
from_message-append_to_example =
    from_message-append_to masked_laws change (new_message msg_session_update) refl

abbrev up_message : Message
up_message = record {
  message_type = msg_destination_up;
  data_items = DataItem.mac_address mac ∷ [];
}

abbrev up_response : Message
up_response = record {
  message_type = msg_destination_up_response;
  data_items = DataItem.mac_address mac ∷ DataItem.status 0 [] ∷ [];
}

abbrev up_pending : TransactionTracker
up_pending = record {
  session_pending = none;
  per_destination = (mac, record { kind = RequestKind.destination_up }) ∷ [];
}

open-validate_request_example :
    (open_destination no_transactions mac RequestKind.destination_up).0 ≡ ok tt
unfolding validate_transaction validate_destination extract_destination_mac first_mac response_kind
    contains get destination_busy
open-validate_request_example =
    open-validate_request up_message no_transactions false mac RequestKind.destination_up refl refl
      refl

close-validate_response_example :
    (validate_transaction up_response up_pending false ≡ ok tt
      → (close_destination up_pending mac).0 ≡ some (record { kind = RequestKind.destination_up }))
    × ((opened : RequestKind)
        → (open_destination up_pending mac opened).0 ≡ ok tt
        → validate_transaction up_response (open_destination up_pending mac opened).1 false
          ≡ (if is_kind opened RequestKind.destination_up then ok tt else err unexpected_message))
    × (validate_transaction up_response (close_destination up_pending mac).1 false
        ≡ err unexpected_message)
unfolding extract_destination_mac first_mac
close-validate_response_example =
    close-validate_response up_response up_pending false mac RequestKind.destination_up refl refl
      refl
