-- ===== src/Fsm/Discovery/Named.antt =====
-- The connection points of an offer are the endpoints that it names.
use dlep.Base.{
  ℕ, Octets, true, false, List, [], ◌∷◌, Option, none, some, ◌≡◌, refl, sym, ap, arith, All,
  contains, ◌↔◌, ◌⊎◌, inl, inr, subst, ◌∙◌,
}
use dlep.Core.Item.{DataItem}
use dlep.Fsm.Events.{SocketAddr, v4, v6, OfferEndpoint}
use dlep.Fsm.Discovery.{
  endpoint_eq, eq_endpoint_iff, port_or_default, or_source, endpoints_of, endpoint_of, scope_from,
  is_unicast_link_local, at_default_port,
}
use dlep.Fsm.Discovery.Candidates.{
  named_port, Scope, Names, Offers, is_point, source_at_854, Candidate, scope_from-Scope,
}

named_port_lem : (port : Option ℕ) → port_or_default port ≡ named_port port
named_port_lem none = refl
named_port_lem (some port) = refl

Scope-scope_from :
    (from : SocketAddr) (addr : Octets) (s : ℕ) → Scope from addr s → s ≡ scope_from from addr
unfolding scope_from is_unicast_link_local
Scope-scope_from (v4 ip port) addr s h = h
Scope-scope_from (v6 ip port flowinfo scope_id) [] s h = h
Scope-scope_from (v6 ip port flowinfo scope_id) (a ∷ []) s h = h
Scope-scope_from (v6 ip port flowinfo scope_id) (a ∷ b ∷ rest) s (on, off) = ground arith

-- Whether an endpoint is the one of an item.
abbrev Is : Option OfferEndpoint → OfferEndpoint → Type 0
Is none e = ⊥
Is (some f) e = f ≡ e

endpoint_of-Names :
    (from : SocketAddr) (item : DataItem) (e : OfferEndpoint)
    → Is (endpoint_of from item) e
    → Names from item e
unfolding endpoint_of
endpoint_of-Names from (DataItem.ipv4_connection_point flags addr port) e h =
    (sym (ap (λ f. f.addr) h) ∙ ap (v4 addr) (named_port_lem port), sym (ap (λ f. f.use_tls) h))
endpoint_of-Names from (DataItem.ipv6_connection_point flags addr port) e h = (
  scope_from from addr,
  (
    scope_from-Scope from addr,
    sym (ap (λ f. f.addr) h) ∙ ap (λ p. v6 addr p 0 (scope_from from addr)) (named_port_lem port),
    sym (ap (λ f. f.use_tls) h),
  ),
)
endpoint_of-Names from item e h = h

same_endpoint : (e f : OfferEndpoint) → e.addr ≡ f.addr → e.use_tls ≡ f.use_tls → e ≡ f
same_endpoint e f p q = λ i. record { addr = p i; use_tls = q i }

Names-endpoint_of :
    (from : SocketAddr) (item : DataItem) (e : OfferEndpoint)
    → Names from item e
    → Is (endpoint_of from item) e
unfolding endpoint_of
Names-endpoint_of from (DataItem.ipv4_connection_point flags addr port) e (a, t) =
    same_endpoint _ e (ap (v4 addr) (named_port_lem port) ∙ sym a) (sym t)
Names-endpoint_of from (DataItem.ipv6_connection_point flags addr port) e (s, (h, a, t)) =
    same_endpoint _ e
      (ap (λ p. v6 addr p 0 (scope_from from addr)) (named_port_lem port)
        ∙ ap (v6 addr (named_port port) 0) (sym (Scope-scope_from from addr s h))
        ∙ sym a)
      (sym t)
Names-endpoint_of from item e h = h

contains-first :
    (o : Option OfferEndpoint) (es : List OfferEndpoint) (e : OfferEndpoint)
    → (contains (elim o [ some f ↦ f ∷ es | none ↦ es ]) e ≡ true)
      ↔ (Is o e ⊎ (contains es e ≡ true))
unfolding contains
contains-first none es e = (λ h. inr h, λ h. elim h [ inl is ↦ absurd is | inr h ↦ h ])
contains-first (some f) es e =
    (λ h. ground (arith, eq_endpoint_iff f e), λ h. ground (arith, eq_endpoint_iff f e))

-- The endpoints of some items are those that the items name.
endpoints_of-Offers :
    (from : SocketAddr) (items : List DataItem) (e : OfferEndpoint)
    → (contains (endpoints_of from items) e ≡ true) ↔ Offers from items e
unfolding endpoints_of contains
endpoints_of-Offers from [] e = (λ h. ground arith, λ h. absurd h)
endpoints_of-Offers from (item ∷ items) e =
    let first = contains-first (endpoint_of from item) (endpoints_of from items) e in
    let rest = endpoints_of-Offers from items e in
    (
      λ h. elim (first.0 h) [
        | inl is ↦ inl (endpoint_of-Names from item e is)
        | inr h ↦ inr (rest.0 h)
      ],
      λ h. elim h [
        | inl named ↦ first.1 (inl (Names-endpoint_of from item e named))
        | inr h ↦ first.1 (inr (rest.1 h))
      ],
    )

no_endpoint :
    (from : SocketAddr) (item : DataItem) → (endpoint_of from item ≡ none) ↔ (is_point item ≡ false)
unfolding endpoint_of
no_endpoint from (DataItem.ipv4_connection_point flags addr port) =
    (λ h. ground arith, λ h. ground arith)
no_endpoint from (DataItem.ipv6_connection_point flags addr port) =
    (λ h. ground arith, λ h. ground arith)
no_endpoint from item = (λ h. refl, λ h. refl)

first_empty :
    (o : Option OfferEndpoint) (es : List OfferEndpoint)
    → (elim o [ some f ↦ f ∷ es | none ↦ es ] ≡ []) ↔ ((o ≡ none) × (es ≡ []))
first_empty none es = (λ h. (refl, h), λ h. h.1)
first_empty (some f) es = (λ h. ground arith, λ h. ground arith)

endpoints_of_empty :
    (from : SocketAddr) (items : List DataItem)
    → (endpoints_of from items ≡ []) ↔ All (λ item. is_point item ≡ false) items
unfolding endpoints_of
endpoints_of_empty from [] = (λ h. tt, λ h. refl)
endpoints_of_empty from (item ∷ items) =
    let first = first_empty (endpoint_of from item) (endpoints_of from items) in
    let rest = endpoints_of_empty from items in
    (
      λ h. ((no_endpoint from item).0 (first.0 h).0, rest.0 (first.0 h).1),
      λ (h, hs). first.1 ((no_endpoint from item).1 h, rest.1 hs),
    )

source_at_854_lem : (from : SocketAddr) → at_default_port from ≡ source_at_854 from
source_at_854_lem (v4 ip port) = refl
source_at_854_lem (v6 ip port flowinfo scope_id) = refl

only_source :
    (from : SocketAddr) (e : OfferEndpoint)
    → (contains (or_source from []) e ≡ true)
      ↔ ((e.addr ≡ source_at_854 from) × (e.use_tls ≡ false))
unfolding contains
only_source from e =
    let source : OfferEndpoint = record { addr = at_default_port from; use_tls = false } in
    let at = source_at_854_lem from in
    (
      λ h.
          let is : source ≡ e = ground (arith, eq_endpoint_iff source e) in
          (sym (ap (λ f. f.addr) is) ∙ at, sym (ap (λ f. f.use_tls) is)),
      λ (a, t).
          let is : source ≡ e = same_endpoint source e (at ∙ sym a) (sym t) in
          ground (arith, eq_endpoint_iff source e),
    )

source_or_some :
    (from : SocketAddr) (items : List DataItem) (es : List OfferEndpoint) (e : OfferEndpoint)
    → es ≡ endpoints_of from items
    → (contains (or_source from es) e ≡ true) ↔ Candidate from items e
unfolding contains
source_or_some from items [] e eq =
    let none_of = (endpoints_of_empty from items).0 (sym eq) in
    (
      λ h. let (a, t) = (only_source from e).0 h in inr (none_of, a, t),
      λ h. elim h [
        | inl offered ↦
            let there = (endpoints_of-Offers from items e).1 offered in
            let absent : contains [] e ≡ true = subst (λ es. contains es e ≡ true) (sym eq) there in
            ground arith
        | inr (none_named, a, t) ↦ (only_source from e).1 (a, t)
      ],
    )
source_or_some from items (f ∷ es) e eq =
    let named = endpoints_of-Offers from items e in
    (
      λ h. inl (named.0 (subst (λ es. contains es e ≡ true) eq h)),
      λ h. elim h [
        | inl offered ↦ subst (λ es. contains es e ≡ true) (sym eq) (named.1 offered)
        | inr (none_named, a, t) ↦
            let empty : f ∷ es ≡ [] = eq ∙ (endpoints_of_empty from items).1 none_named in
            ground arith
      ],
    )

pub or_source-Candidate :
    (from : SocketAddr) (items : List DataItem) (e : OfferEndpoint)
    → (contains (or_source from (endpoints_of from items)) e ≡ true) ↔ Candidate from items e
or_source-Candidate from items e = source_or_some from items (endpoints_of from items) e refl
