-- ===== src/Fsm/Validation/Requests.antt =====
-- `validate_transaction` of validation.rs, and the handlers behind it, which open and close
-- transactions.
use dlep.Base.{
  Bool, true, false, ◌==◌, Option, get-insert, get-remove, err, ap, ◌∙◌, refl, if◌then◌else◌, [],
  ◌∷◌, none, some, ok, ◌≡◌, arith, contains, get, nat_eq, Option-cases, inl, inr,
}
use dlep.Core.Ids.{
  MessageType, msg_session_update, msg_session_update_response, msg_destination_up,
  msg_session_termination_response, msg_destination_up_response, msg_destination_announce_response,
  msg_destination_down_response, msg_link_characteristics_response, msg_destination_announce,
  msg_destination_down, msg_link_characteristics_request,
}
use dlep.Core.Mac.{MacAddress, mac_eq}
use dlep.Core.Status.{unexpected_message}
use dlep.Core.Item.{Message}
use dlep.Fsm.Transaction.{
  RequestKind, PendingRequest, TransactionTracker, session_busy, destination_busy, open_session,
  close_session, open_destination, close_destination,
}
use dlep.Fsm.Validation.{one_of}
use dlep.Fsm.Validation.Transactions.{
  extract_destination_mac, response_kind, pending_is, is_kind, validate_destination,
  validate_transaction,
}

-- The messages that begin a transaction of a destination.
abbrev pub is_request : MessageType → Bool
is_request mt = one_of mt (
    msg_destination_up ∷ msg_destination_announce ∷ msg_destination_down
    ∷ msg_link_characteristics_request ∷ [])

pub validated_destination :
    (msg : Message) (tx : TransactionTracker) (up : Bool) (mac : MacAddress)
    → extract_destination_mac msg ≡ some mac
    → validate_transaction msg tx up ≡ ok tt
    → validate_destination msg.message_type mac tx up ≡ ok tt
unfolding validate_transaction
validated_destination msg tx up mac m v = ground arith

-- No request is a response.
pub request_kind : (mt : MessageType) → is_request mt ≡ true → response_kind mt ≡ none
unfolding response_kind contains
request_kind mt h = ground arith

pub not_busy :
    (mt : MessageType) (mac : MacAddress) (tx : TransactionTracker) (up : Bool)
    → is_request mt ≡ true
    → response_kind mt ≡ none
    → validate_destination mt mac tx up ≡ ok tt
    → get tx.per_destination mac ≡ none
unfolding validate_destination destination_busy
not_busy mt mac tx up r n v = elim (Option-cases (get tx.per_destination mac)) [
  | inl e ↦ e
  | inr (p, e) ↦ absurd (ground arith)
]

-- A request about a destination that transaction validation accepts can be opened: no transaction
-- of the destination is pending.
pub open-validate_request :
    (msg : Message) (tx : TransactionTracker) (up : Bool) (mac : MacAddress) (kind : RequestKind)
    → is_request msg.message_type ≡ true
    → extract_destination_mac msg ≡ some mac
    → validate_transaction msg tx up ≡ ok tt
    → (open_destination tx mac kind).0 ≡ ok tt
unfolding open_destination
open-validate_request msg tx up mac kind r m v =
    let d = validated_destination msg tx up mac m v in
    rw (open_destination, not_busy msg.message_type mac tx up r (request_kind msg.message_type r) d)

-- A response closes a request of the kind that the validation read off its type.
pub close_validated :
    (msg : Message) (tx : TransactionTracker) (up : Bool) (mac : MacAddress) (kind : RequestKind)
    → response_kind msg.message_type ≡ some kind
    → extract_destination_mac msg ≡ some mac
    → validate_transaction msg tx up ≡ ok tt
    → pending_is kind (close_destination tx mac).0 ≡ true
unfolding close_destination validate_destination
close_validated msg tx up mac kind r m v =
    let d = validated_destination msg tx up mac m v in ground arith

-- The message that answers a request, by the RFC's table of messages.
abbrev pub answer_to : RequestKind → MessageType
answer_to RequestKind.session_update = msg_session_update_response
answer_to RequestKind.session_termination = msg_session_termination_response
answer_to RequestKind.destination_up = msg_destination_up_response
answer_to RequestKind.destination_announce = msg_destination_announce_response
answer_to RequestKind.destination_down = msg_destination_down_response
answer_to RequestKind.link_characteristics = msg_link_characteristics_response

abbrev pub of_destination : RequestKind → Bool
of_destination RequestKind.session_update = false
of_destination RequestKind.session_termination = false
of_destination kind = true

response_kind-answer_to :
    (kind : RequestKind) → of_destination kind ≡ true → response_kind (answer_to kind) ≡ some kind
unfolding response_kind
response_kind-answer_to RequestKind.session_update h = absurd (ground arith)
response_kind-answer_to RequestKind.session_termination h = absurd (ground arith)
response_kind-answer_to RequestKind.destination_up h = refl
response_kind-answer_to RequestKind.destination_announce h = refl
response_kind-answer_to RequestKind.destination_down h = refl
response_kind-answer_to RequestKind.link_characteristics h = refl

is_kind-≡ : (a b : RequestKind) → is_kind a b ≡ true → a ≡ b
is_kind-≡ RequestKind.session_update RequestKind.session_update h = refl
is_kind-≡ RequestKind.session_termination RequestKind.session_termination h = refl
is_kind-≡ RequestKind.destination_up RequestKind.destination_up h = refl
is_kind-≡ RequestKind.destination_announce RequestKind.destination_announce h = refl
is_kind-≡ RequestKind.destination_down RequestKind.destination_down h = refl
is_kind-≡ RequestKind.link_characteristics RequestKind.link_characteristics h = refl
is_kind-≡ _ _ h = absurd (ground arith)

outside_session :
    (kind : RequestKind)
    → of_destination kind ≡ true
    → ((answer_to kind == msg_session_update) ≡ false)
      × ((answer_to kind == msg_session_update_response) ≡ false)
outside_session RequestKind.session_update h = absurd (ground arith)
outside_session RequestKind.session_termination h = absurd (ground arith)
outside_session RequestKind.destination_up h = (refl, refl)
outside_session RequestKind.destination_announce h = (refl, refl)
outside_session RequestKind.destination_down h = (refl, refl)
outside_session RequestKind.link_characteristics h = (refl, refl)

-- An answer about a destination is validated by the pending request of the destination.
validate_answer :
    (msg : Message) (tx : TransactionTracker) (up : Bool) (mac : MacAddress) (kind : RequestKind)
    → of_destination kind ≡ true
    → msg.message_type ≡ answer_to kind
    → extract_destination_mac msg ≡ some mac
    → validate_transaction msg tx up
      ≡ (if pending_is kind (get tx.per_destination mac) then ok tt else err unexpected_message)
unfolding validate_transaction validate_destination
validate_answer msg tx up mac kind d t m =
    ground (arith, response_kind-answer_to kind d, outside_session kind d)

pending_kind :
    (kind : RequestKind) (o : Option PendingRequest)
    → pending_is kind o ≡ true
    → o ≡ some (record { kind = kind })
pending_kind kind none h = absurd (ground arith)
pending_kind kind (some p) h = ap (λ k. some (record { kind = k })) (is_kind-≡ p.kind kind h)

-- A response that answers a kind of request about a destination (the RFC's table of messages) is
-- judged by what is pending there: if transaction validation accepts it, closing the destination
-- gives a pending request of exactly that kind; when a request has just been opened, it is
-- accepted if that is its kind and refused as an unexpected message otherwise; and it is refused
-- once the destination is closed.
pub close-validate_response :
    (msg : Message) (tx : TransactionTracker) (up : Bool) (mac : MacAddress) (kind : RequestKind)
    → of_destination kind ≡ true
    → msg.message_type ≡ answer_to kind
    → extract_destination_mac msg ≡ some mac
    → (validate_transaction msg tx up ≡ ok tt
        → (close_destination tx mac).0 ≡ some (record { kind = kind }))
      × ((opened : RequestKind)
          → (open_destination tx mac opened).0 ≡ ok tt
          → validate_transaction msg (open_destination tx mac opened).1 up
            ≡ (if is_kind opened kind then ok tt else err unexpected_message))
      × (validate_transaction msg (close_destination tx mac).1 up ≡ err unexpected_message)
unfolding close_destination open_destination
close-validate_response msg tx up mac kind d t m =
    let at = λ (tx : TransactionTracker). validate_answer msg tx up mac kind d t m in
    (
      λ v. pending_kind kind (get tx.per_destination mac) (ground (arith, at tx)),
      λ opened o.
          at (open_destination tx mac opened).1
          ∙ ground (
            arith,
            get-insert tx.per_destination mac mac (record { kind = opened }),
            mac_eq.beq_iff mac mac,
          ),
      at (close_destination tx mac).1
          ∙ ground (arith, get-remove tx.per_destination mac mac, mac_eq.beq_iff mac mac),
    )

-- A Session Update that transaction validation accepts can be opened in the session scope, and an
-- accepted response to one closes a pending Session Update.
pub validate_session_update :
    (msg : Message) (tx : TransactionTracker) (up : Bool)
    → validate_transaction msg tx up ≡ ok tt
    → (msg.message_type ≡ msg_session_update
        → (open_session tx RequestKind.session_update).0 ≡ ok tt)
      × (msg.message_type ≡ msg_session_update_response
          → pending_is RequestKind.session_update (close_session tx).0 ≡ true)
unfolding validate_transaction open_session close_session session_busy
validate_session_update msg tx up v = (λ e. ground arith, λ e. ground arith)
