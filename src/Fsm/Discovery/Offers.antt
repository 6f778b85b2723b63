-- ===== src/Fsm/Discovery/Offers.antt =====
-- The endpoints of an offer: which they are, and their order.
use dlep.Base.{
  ℕ, ◌≤◌, leb, ◌&&◌, ◌||◌, List, [], ◌∷◌, ◌≡◌, refl, ap, ◌∙◌, arith, tests, contains, retain,
  contains-retain, All, Bool-cases, inl, inr, true, ◌↔◌,
}
use dlep.Core.Item.{Signal}
use dlep.Fsm.Discovery.Candidates.{
  MayFollow, IsOrdered, Apart, NoRepeat, CanReach, Candidate, is_usable-CanReach, rank-MayFollow,
}
use dlep.Fsm.Discovery.Named.{or_source-Candidate}
use dlep.Fsm.Events.{SocketAddr, OfferEndpoint}
use dlep.Fsm.Discovery.{
  endpoint_eq, eq_endpoint, eq_endpoint_iff, rank, is_usable, insert_by_rank, sort_by_rank,
  dedup_after, dedup, offer_endpoints, or_source, endpoints_of,
}

contains-insert_by_rank :
    (e : OfferEndpoint) (es : List OfferEndpoint) (a : OfferEndpoint)
    → contains (insert_by_rank e es) a ≡ (eq_endpoint e a || contains es a)
unfolding insert_by_rank contains
contains-insert_by_rank e [] a = refl
contains-insert_by_rank e (f ∷ es) a = ground (arith, contains-insert_by_rank e es a)

contains-sort_by_rank :
    (es : List OfferEndpoint) (a : OfferEndpoint) → contains (sort_by_rank es) a ≡ contains es a
unfolding sort_by_rank contains
contains-sort_by_rank [] a = refl
contains-sort_by_rank (e ∷ es) a =
    contains-insert_by_rank e (sort_by_rank es) a
    ∙ ap (λ b. eq_endpoint e a || b) (contains-sort_by_rank es a)

contains-dedup_after :
    (e : OfferEndpoint) (es : List OfferEndpoint) (a : OfferEndpoint)
    → (eq_endpoint e a || contains (dedup_after e es) a) ≡ (eq_endpoint e a || contains es a)
unfolding dedup_after contains
contains-dedup_after e [] a = refl
contains-dedup_after e (f ∷ es) a =
    ground (arith, contains-dedup_after e es a, contains-dedup_after f es a, eq_endpoint_iff e f)

contains-dedup :
    (es : List OfferEndpoint) (a : OfferEndpoint) → contains (dedup es) a ≡ contains es a
unfolding dedup contains
contains-dedup [] a = refl
contains-dedup (e ∷ es) a = contains-dedup_after e es a

-- No endpoint has a lower rank than one in front of it.
abbrev pub IsSorted : List OfferEndpoint → Type 0
IsSorted [] = Unit {0}
IsSorted (e ∷ es) = All (λ f. rank e ≤ rank f) es × IsSorted es

All-weaken :
    (m n : ℕ) (es : List OfferEndpoint)
    → m ≤ n
    → All (λ f. n ≤ rank f) es
    → All (λ f. m ≤ rank f) es
All-weaken m n [] le h = tt
All-weaken m n (e ∷ es) le (h, hs) = (omega arith, All-weaken m n es le hs)

All-insert_by_rank :
    (n : ℕ) (e : OfferEndpoint) (es : List OfferEndpoint)
    → n ≤ rank e
    → All (λ f. n ≤ rank f) es
    → All (λ f. n ≤ rank f) (insert_by_rank e es)
unfolding insert_by_rank
All-insert_by_rank n e [] h hs = (h, tt)
All-insert_by_rank n e (f ∷ es) h (hf, hs) = elim (Bool-cases (leb (rank e) (rank f))) [
  | inl le ↦ rw le (h, (hf, hs))
  | inr gt ↦ rw gt (hf, All-insert_by_rank n e es h hs)
]

insert_by_rank-IsSorted :
    (e : OfferEndpoint) (es : List OfferEndpoint) → IsSorted es → IsSorted (insert_by_rank e es)
unfolding insert_by_rank
insert_by_rank-IsSorted e [] h = (tt, tt)
insert_by_rank-IsSorted e (f ∷ es) (hf, hs) = elim (Bool-cases (leb (rank e) (rank f))) [
  | inl le ↦
      let below : rank e ≤ rank f = omega tests in
      rw le ((below, All-weaken (rank e) (rank f) es below hf), (hf, hs))
  | inr gt ↦
      rw gt (All-insert_by_rank (rank f) e es (ground arith) hf, insert_by_rank-IsSorted e es hs)
]

sort_by_rank-IsSorted : (es : List OfferEndpoint) → IsSorted (sort_by_rank es)
unfolding sort_by_rank
sort_by_rank-IsSorted [] = tt
sort_by_rank-IsSorted (e ∷ es) =
    insert_by_rank-IsSorted e (sort_by_rank es) (sort_by_rank-IsSorted es)

All-dedup_after :
    (n : ℕ) (e : OfferEndpoint) (es : List OfferEndpoint)
    → All (λ f. n ≤ rank f) es
    → All (λ f. n ≤ rank f) (dedup_after e es)
unfolding dedup_after
All-dedup_after n e [] h = tt
All-dedup_after n e (f ∷ es) (hf, hs) = elim (Bool-cases (eq_endpoint e f)) [
  | inl same ↦ rw same (All-dedup_after n e es hs)
  | inr other ↦ rw other (hf, All-dedup_after n f es hs)
]

dedup_after-IsSorted :
    (e : OfferEndpoint) (es : List OfferEndpoint) → IsSorted es → IsSorted (dedup_after e es)
unfolding dedup_after
dedup_after-IsSorted e [] h = tt
dedup_after-IsSorted e (f ∷ es) (hf, hs) = elim (Bool-cases (eq_endpoint e f)) [
  | inl same ↦ rw same (dedup_after-IsSorted e es hs)
  | inr other ↦ rw other (All-dedup_after (rank f) f es hf, dedup_after-IsSorted f es hs)
]

dedup-IsSorted : (es : List OfferEndpoint) → IsSorted es → IsSorted (dedup es)
unfolding dedup
dedup-IsSorted [] h = tt
dedup-IsSorted (e ∷ es) (he, hs) = (All-dedup_after (rank e) e es he, dedup_after-IsSorted e es hs)

dedup_after-NoRepeat :
    (e : OfferEndpoint) (es : List OfferEndpoint)
    → Apart e (dedup_after e es) × NoRepeat (dedup_after e es)
unfolding dedup_after
dedup_after-NoRepeat e [] = (tt, tt)
dedup_after-NoRepeat e (f ∷ es) = elim (Bool-cases (eq_endpoint e f)) [
  | inl same ↦ rw same (dedup_after-NoRepeat e es)
  | inr other ↦
      let apart : ¬ (e ≡ f) = λ h. ground (arith, eq_endpoint_iff e f) in
      rw other (apart, dedup_after-NoRepeat f es)
]

dedup-NoRepeat : (es : List OfferEndpoint) → NoRepeat (dedup es)
unfolding dedup
dedup-NoRepeat [] = tt
dedup-NoRepeat (e ∷ es) = dedup_after-NoRepeat e es

All-MayFollow :
    (e : OfferEndpoint) (es : List OfferEndpoint)
    → All (λ f. rank e ≤ rank f) es
    → All (MayFollow e) es
All-MayFollow e [] h = tt
All-MayFollow e (f ∷ es) (h, hs) = (rank-MayFollow e f h, All-MayFollow e es hs)

IsSorted-IsOrdered : (es : List OfferEndpoint) → IsSorted es → IsOrdered es
IsSorted-IsOrdered [] h = tt
IsSorted-IsOrdered (e ∷ es) (h, hs) = (All-MayFollow e es h, IsSorted-IsOrdered es hs)

contains-offer_endpoints :
    (sig : Signal) (from : SocketAddr) (e : OfferEndpoint)
    → contains (offer_endpoints sig from) e
      ≡ (is_usable e && contains (or_source from (endpoints_of from sig.data_items)) e)
unfolding offer_endpoints
contains-offer_endpoints sig from e =
    let candidates = or_source from (endpoints_of from sig.data_items) in
    let usable = retain is_usable candidates in
    contains-dedup (sort_by_rank usable) e
    ∙ contains-sort_by_rank usable e
    ∙ contains-retain is_usable candidates e

-- In the endpoints of an offer those with TLS come before those without, and among equals IPv6
-- before IPv4; none is the same as the one in front of it; and they are exactly the endpoints at
-- an address that a router can reach (not unspecified, not multicast, not at port 0) among those
-- that the connection points of the offer name, each with its flag for TLS, at port 854 if it
-- names none, and a link-local one on the link of the source, or the source itself at port 854 and
-- without TLS if the offer has no connection point.
pub offer_endpoints_lem :
    (sig : Signal) (from : SocketAddr)
    → IsOrdered (offer_endpoints sig from)
      × NoRepeat (offer_endpoints sig from)
      × ((e : OfferEndpoint)
          → (contains (offer_endpoints sig from) e ≡ true)
            ↔ (CanReach e.addr × Candidate from sig.data_items e))
unfolding offer_endpoints
offer_endpoints_lem sig from =
    let usable = retain is_usable (or_source from (endpoints_of from sig.data_items)) in
    (
      IsSorted-IsOrdered (offer_endpoints sig from)
          (dedup-IsSorted (sort_by_rank usable) (sort_by_rank-IsSorted usable)),
      dedup-NoRepeat (sort_by_rank usable),
      λ e.
          let reach = is_usable-CanReach e in
          let candidate = or_source-Candidate from sig.data_items e in
          let both = contains-offer_endpoints sig from e in
          (
            λ h. (reach.0 (ground arith), candidate.0 (ground arith)),
            λ h. (let u = reach.1 h.0 in let c = candidate.1 h.1 in ground arith),
          ),
    )
