-- ===== src/Fsm/Common/LocalAddresses.antt =====
-- Local changes of the session's addresses, and what the peer makes of them.
use dlep.Base.{
  true, false, not, ◌&&◌, List, [], ◌∷◌, ◌++◌, map, some, Result, ok, err, panic, ◌>>◌, Octets, ◌≡◌,
  refl, sym, ap, ◌∙◌, arith, Eq, retain, ◌⊎◌, inl, inr, if_rule, subst, octets_eq,
}
use dlep.Core.Ipnet.{Ipnet, IpnetLaws, trunc, net_eq}
use dlep.Core.Ids.{msg_session_update}
use dlep.Core.Item.{new_message}
use dlep.Core.Codec.Frame.{encode_message}
use dlep.Core.Codec.Frame.Written.{Sendable, encode_message_lem}
use dlep.Core.Error.{CodecResult}
use dlep.Core.Status.{StatusCode, invalid_data}
use dlep.Fsm.Transaction.{RequestKind, TransactionTracker, session_busy, open_session}
use dlep.Fsm.Addresses.{
  DestinationAddrs, AddressChanges, validate, apply_lenient, apply_strict, apply_set, push_new,
  between, canonical, canonical_addrs, append_to, from_message, note_items,
}
use dlep.Fsm.Addresses.Apply.{
  Address, has, IsCanonical, IsDistinct, apply_lenient-IsDistinct, map-retain, has-apply_difference,
  canonical-between,
}
use dlep.Fsm.Addresses.Between.{
  Differ, has-between, same_addresses, changes_empty-Differ, apply_strict-between,
}
use dlep.Fsm.Addresses.Strict.{canonical_addrs-idempotent}
use dlep.Fsm.Addresses.Batch.{from_message-append_to}
use dlep.Fsm.Events.{CommandError, busy, invalid_input, FsmAction, send_message}
use dlep.Fsm.Common.{
  Shared, effective_changes, update_message, reject, or_invalid, validate_local_address_update,
  sent, act, send_update, apply_local_address_update,
}

map-append : {A B : Type 0} (f : A → B) (xs ys : List A) → map f (xs ++ ys) ≡ map f xs ++ map f ys
map-append f [] ys = refl
map-append f (x ∷ xs) ys = ap (◌∷◌ (f x)) (map-append f xs ys)

module _ {A : Type 0} ⦃e : Eq A⦄ where
  map-push_new :
      (f : A → A) (remove current add : List A)
      → map f current ≡ current
      → map f add ≡ add
      → map f (push_new remove current add) ≡ push_new remove current add
  unfolding push_new
  map-push_new f remove current [] c a = c
  map-push_new f remove current (x ∷ add) c a = ground (
    arith,
    map-push_new f remove current add,
    map-push_new f remove (current ++ (x ∷ [])) add,
    map-append f current (x ∷ []),
  )

  map-apply_set :
      (f : A → A) (current add remove : List A)
      → map f current ≡ current
      → map f add ≡ add
      → map f (apply_set current add remove) ≡ apply_set current add remove
  unfolding apply_set
  map-apply_set f current add remove c a =
      map-push_new f remove (retain _ current) add (map-retain f _ current c) a

module _ ⦃ip : Ipnet⦄ where
  apply_lenient-IsCanonical :
      IpnetLaws ip
      → (c : AddressChanges) (current : DestinationAddrs) → IsCanonical current
      → IsCanonical (apply_lenient c current)
  unfolding apply_lenient canonical canonical_addrs
  apply_lenient-IsCanonical laws c current h i =
      let added = canonical_addrs-idempotent laws c.added in
      record (apply_lenient c current) {
        v4_subnets =
            map-apply_set (trunc ip.v4) current.v4_subnets (canonical c).added.v4_subnets
              (canonical c).removed.v4_subnets (λ j. (h j).v4_subnets) (λ j. (added j).v4_subnets)
              i;
        v6_subnets =
            map-apply_set (trunc ip.v6) current.v6_subnets (canonical c).added.v6_subnets
              (canonical c).removed.v6_subnets (λ j. (h j).v6_subnets) (λ j. (added j).v6_subnets)
              i;
      }

  carried :
      IpnetLaws ip
      → (c : AddressChanges)
      → from_message (append_to c (new_message msg_session_update)) ≡ canonical c
  unfolding from_message note_items
  carried laws c = from_message-append_to laws c (new_message msg_session_update) refl

  -- Under the documented laws of ipnet, when the local addresses are distinct and have their
  -- subnets in network form, the peer reads out of the update message exactly the addresses that
  -- are new as added, and exactly those that are gone as removed; if it holds the set as it was,
  -- it accepts the batch (apply_strict) and then has the members of the new local set.
  pub has-update_message :
      IpnetLaws ip
      → (locals : DestinationAddrs) (changes : AddressChanges) → IsCanonical locals
      → IsDistinct locals
      → let new = apply_lenient changes locals in
        let read = from_message (update_message locals changes) in
        ((apply_strict read locals).0 ≡ ok tt)
        × ((x : Address) → has (apply_strict read locals).1 x ≡ has new x)
        × ((x : Address) → has read.added x ≡ (has new x && not (has locals x)))
        × ((x : Address) → has read.removed x ≡ (has locals x && not (has new x)))
  unfolding update_message effective_changes
  has-update_message laws locals changes h d =
      let new = apply_lenient changes locals in
      let read = from_message (update_message locals changes) in
      let small =
        canonical-between locals new h (apply_lenient-IsCanonical laws changes locals h) in
      let same : read ≡ between locals new = carried laws (between locals new) ∙ small in
      let steady : canonical read ≡ between locals new = ap canonical same ∙ small in
      let accepted =
        apply_strict-between locals new read steady d (apply_lenient-IsDistinct changes locals d) in
      (
        ap (λ r. r.0) accepted,
        λ x.
            ap (λ r. has r.1 x) accepted
            ∙ has-apply_difference locals new (canonical read) x (ap canonical steady ∙ small),
        λ x. ap (λ c. has c.added x) same ∙ (has-between locals new x).0,
        λ x. ap (λ c. has c.removed x) same ∙ (has-between locals new x).1,
      )

  -- The changes are unambiguous, and the message with what they change can be encoded.
  abbrev pub IsFit : Shared → AddressChanges → Type 0
  IsFit s changes =
      (validate changes ≡ ok tt) × Sendable (update_message s.locals changes).data_items

  -- What a local update comes to: a rejection as busy; a rejection as invalid; nothing to do; or a
  -- Session Update, with its transaction and the changed addresses.
  abbrev pub Updated :
      Shared → AddressChanges → Result CommandError (List FsmAction) × Shared → Type 0
  Updated s changes (ok actions, t) =
      let new = apply_lenient changes s.locals in
      ((session_busy s.tx ≡ true) × (t ≡ s) × (actions ≡ reject busy))
      ⊎ ((session_busy s.tx ≡ false)
          × (¬ IsFit s changes)
          × (t ≡ s)
          × (actions ≡ reject invalid_input))
      ⊎ ((session_busy s.tx ≡ false)
          × IsFit s changes
          × ((x : Address) → has new x ≡ has s.locals x)
          × (t ≡ s)
          × (actions ≡ []))
      ⊎ ((session_busy s.tx ≡ false)
          × IsFit s changes
          × Differ new s.locals
          × (t.tx ≡ record s.tx {
            session_pending = some (record { kind = RequestKind.session_update });
          })
          × (t.locals ≡ new)
          × (actions ≡ send_message (update_message s.locals changes) ∷ []))
  Updated s changes (err reason, t) = ⊥
  Updated s changes (panic, t) = ⊥

  opened :
      (tx : TransactionTracker) (kind : RequestKind)
      → session_busy tx ≡ false
      → open_session tx kind
        ≡ (ok tt, record tx { session_pending = some (record { kind = kind }) })
  unfolding open_session session_busy
  opened tx kind free = ground arith

  send_update-Updated :
      (s : Shared) (changes : AddressChanges)
      → session_busy s.tx ≡ false
      → IsFit s changes
      → Differ (apply_lenient changes s.locals) s.locals
      → Updated s changes (send_update s changes)
  unfolding send_update sent
  send_update-Updated s changes free fit differ =
      subst (λ o. Updated s changes (sent s changes o))
        (sym (opened s.tx RequestKind.session_update free))
        (inr (inr (inr (free, fit, differ, refl, refl, refl))))

  -- What the checks in front of the update find.
  abbrev Checked : Shared → AddressChanges → Result CommandError (Unit {0}) → Type 0
  Checked s changes (ok u) = (session_busy s.tx ≡ false) × IsFit s changes
  Checked s changes (err reason) =
      ((session_busy s.tx ≡ true) × (reason ≡ busy))
      ⊎ ((session_busy s.tx ≡ false) × (¬ IsFit s changes) × (reason ≡ invalid_input))
  Checked s changes panic = ⊥

  validate_cases : (c : AddressChanges) → (validate c ≡ ok tt) ⊎ (validate c ≡ err invalid_data)
  unfolding validate
  validate_cases c =
      if_rule (λ (r : Result StatusCode (Unit {0})). (r ≡ ok tt) ⊎ (r ≡ err invalid_data)) _
        {x = ok tt} {y = err invalid_data} (λ _. inl refl) (λ _. inr refl)

  validate_local_address_update-Checked :
      (s : Shared) (changes : AddressChanges)
      → session_busy s.tx ≡ false
      → Checked s changes (validate_local_address_update s.locals changes)
  unfolding validate_local_address_update
  validate_local_address_update-Checked s changes free =
      let sending = encode_message (update_message s.locals changes) in
      let first = λ (r : Result StatusCode (Unit {0})).
        Checked s changes (or_invalid r >> or_invalid sending) in
      let second = λ (r : CodecResult Octets). Checked s changes (or_invalid r) in
      elim (validate_cases changes) [
        | inr e ↦ subst first (sym e) (inr (free, λ fit. ground arith, refl))
        | inl e ↦ subst first (sym e) (elim (encode_message_lem (update_message s.locals changes)) [
          | inl (fits, p) ↦ subst second (sym p) (free, (e, fits))
          | inr (x, p, bad) ↦ subst second (sym p) (inr (free, λ fit. bad fit.1, refl))
        ])
      ]

  after_checks :
      (s : Shared) (changes : AddressChanges) (r : Result CommandError (Unit {0}))
      → Checked s changes r
      → Updated s changes (act s changes r)
  unfolding act effective_changes
  after_checks s changes (err reason) (inl (taken, is)) = inl (taken, refl, ap reject is)
  after_checks s changes (err reason) (inr (free, unfit, is)) =
      inr (inl (free, unfit, refl, ap reject is))
  after_checks s changes (ok u) (free, fit) =
      let new = apply_lenient changes s.locals in
      if_rule (Updated s changes) _ {x = (ok [], s)} {y = send_update s changes}
        (λ empty. inr (inr (inl (free, fit, same_addresses s.locals new empty, refl, refl))))
        (λ effective.
          send_update-Updated s changes free fit (changes_empty-Differ s.locals new effective))
  after_checks s changes panic h = absurd h

  -- A local change of addresses never panics and comes to one of four things: in a busy session
  -- scope it is rejected as busy; in a free one it is rejected as invalid input exactly if the
  -- batch is ambiguous or the message with its effective changes cannot be encoded; otherwise it
  -- does nothing if the new set has the members of the old one, and if the sets differ in an
  -- address it opens a Session Update, takes over the new set and sends exactly that message; a
  -- rejection and doing nothing leave everything as it was.
  pub apply_local_address_update-Updated :
      (s : Shared) (changes : AddressChanges)
      → Updated s changes (apply_local_address_update s changes)
  unfolding apply_local_address_update
  apply_local_address_update-Updated s changes = after_checks s changes _ (
      if_rule (Checked s changes) (session_busy s.tx) (λ taken. inl (taken, refl))
        (λ free. validate_local_address_update-Checked s changes free))
