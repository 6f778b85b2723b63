-- ===== src/Fsm/Discovery/Candidates.antt =====
-- What RFC 8175 says of the endpoints of an offer, apart from the code of
-- crates/dlep-fsm/src/discovery_common.rs: which are usable, which an offer names, which come first.
use dlep.Base.{
  ℕ, ◌≤◌, ◌/◌, Octets, Bool, true, false, List, [], ◌∷◌, Option, none, some, ◌≡◌, refl, arith, All,
  ◌↔◌, ◌⊎◌,
}
use dlep.Core.Item.{DataItem}
use dlep.Fsm.Events.{SocketAddr, v4, v6, OfferEndpoint}
use dlep.Fsm.Discovery.{endpoint_eq, rank, is_usable, all_zero, scope_from, is_unicast_link_local}

-- The first octet lies in a range.
abbrev pub BeginsIn : ℕ → ℕ → Octets → Type 0
BeginsIn low high [] = ⊥
BeginsIn low high (a ∷ ip) = (low ≤ a) × (a ≤ high)

-- An address that a router can connect to: not the unspecified one, 0.0.0.0 or ::, not a multicast
-- one, 224.0.0.0/4 or ff00::/8, and not at port 0.
abbrev pub CanReach : SocketAddr → Type 0
CanReach (v4 ip port) = ¬ All (λ o. o ≡ 0) ip × ¬ BeginsIn 224 239 ip × ¬ (port ≡ 0)
CanReach (v6 ip port flowinfo scope_id) =
    ¬ All (λ o. o ≡ 0) ip × ¬ BeginsIn 255 255 ip × ¬ (port ≡ 0)

-- Whether `f` may come behind `e`: TLS comes before none, and then IPv6 before IPv4.
abbrev pub is_v6 : SocketAddr → Bool
is_v6 (v4 ip port) = false
is_v6 (v6 ip port flowinfo scope_id) = true

abbrev pub MayFollow : OfferEndpoint → OfferEndpoint → Type 0
MayFollow e f =
    (f.use_tls ≡ true → e.use_tls ≡ true)
    × (e.use_tls ≡ f.use_tls → is_v6 f.addr ≡ true → is_v6 e.addr ≡ true)

abbrev pub IsOrdered : List OfferEndpoint → Type 0
IsOrdered [] = Unit {0}
IsOrdered (e ∷ es) = All (MayFollow e) es × IsOrdered es

-- No endpoint is the one in front of it.
abbrev pub Apart : OfferEndpoint → List OfferEndpoint → Type 0
Apart e [] = Unit {0}
Apart e (f ∷ es) = ¬ (e ≡ f)

abbrev pub NoRepeat : List OfferEndpoint → Type 0
NoRepeat [] = Unit {0}
NoRepeat (e ∷ es) = Apart e es × NoRepeat es

-- The port of a connection point, 854 if it has none.
abbrev pub named_port : Option ℕ → ℕ
named_port none = 854
named_port (some port) = port

-- A link-local address, fe80::/10, is on the link of the source.
abbrev pub Scope : SocketAddr → Octets → ℕ → Type 0
Scope (v6 ip port flowinfo scope_id) (a ∷ b ∷ rest) s =
    ((a ≡ 254) × (b / 64 ≡ 2) → s ≡ scope_id) × (¬ ((a ≡ 254) × (b / 64 ≡ 2)) → s ≡ 0)
Scope from addr s = s ≡ 0

-- The endpoint that an item names.
abbrev pub Names : SocketAddr → DataItem → OfferEndpoint → Type 0
Names from (DataItem.ipv4_connection_point flags addr port) e =
    (e.addr ≡ v4 addr (named_port port)) × (e.use_tls ≡ flags.use_tls)
Names from (DataItem.ipv6_connection_point flags addr port) e =
    (s : ℕ) × (Scope from addr s
      × (e.addr ≡ v6 addr (named_port port) 0 s)
      × (e.use_tls ≡ flags.use_tls))
Names from item e = ⊥

abbrev pub Offers : SocketAddr → List DataItem → OfferEndpoint → Type 0
Offers from [] e = ⊥
Offers from (item ∷ items) e = Names from item e ⊎ Offers from items e

abbrev pub is_point : DataItem → Bool
is_point (DataItem.ipv4_connection_point flags addr port) = true
is_point (DataItem.ipv6_connection_point flags addr port) = true
is_point item = false

-- The source of the offer, at port 854.
abbrev pub source_at_854 : SocketAddr → SocketAddr
source_at_854 (v4 ip port) = v4 ip 854
source_at_854 (v6 ip port flowinfo scope_id) = v6 ip 854 flowinfo scope_id

-- The endpoints of an offer: those that it names, or the source if it has no connection point.
abbrev pub Candidate : SocketAddr → List DataItem → OfferEndpoint → Type 0
Candidate from items e =
    Offers from items e
    ⊎ (All (λ item. is_point item ≡ false) items
        × (e.addr ≡ source_at_854 from)
        × (e.use_tls ≡ false))

all_zero-All : (ip : Octets) → (all_zero ip ≡ true) ↔ All (λ o. o ≡ 0) ip
unfolding all_zero
all_zero-All [] = (λ h. tt, λ h. refl)
all_zero-All (o ∷ ip) = (λ h. ground (arith, all_zero-All ip), λ h. ground (arith, all_zero-All ip))

reach :
    (addr : SocketAddr) (tls : Bool)
    → (is_usable (record { addr = addr; use_tls = tls }) ≡ true) ↔ CanReach addr
unfolding is_usable all_zero
reach (v4 [] port) tls = (λ h. ground arith, λ h. ground arith)
reach (v4 (a ∷ ip) port) tls =
    (λ h. ground (arith, all_zero-All (a ∷ ip)), λ h. ground (arith, all_zero-All (a ∷ ip)))
reach (v6 [] port flowinfo scope_id) tls = (λ h. ground arith, λ h. ground arith)
reach (v6 (a ∷ ip) port flowinfo scope_id) tls =
    (λ h. ground (arith, all_zero-All (a ∷ ip)), λ h. ground (arith, all_zero-All (a ∷ ip)))

pub is_usable-CanReach : (e : OfferEndpoint) → (is_usable e ≡ true) ↔ CanReach e.addr
is_usable-CanReach e = reach e.addr e.use_tls

pub rank-MayFollow : (e f : OfferEndpoint) → rank e ≤ rank f → MayFollow e f
unfolding rank
rank-MayFollow e f h = (λ t. ground arith, λ s t. ground arith)

pub scope_from-Scope : (from : SocketAddr) (addr : Octets) → Scope from addr (scope_from from addr)
unfolding scope_from is_unicast_link_local
scope_from-Scope (v4 ip port) addr = refl
scope_from-Scope (v6 ip port flowinfo scope_id) [] = refl
scope_from-Scope (v6 ip port flowinfo scope_id) (a ∷ []) = refl
scope_from-Scope (v6 ip port flowinfo scope_id) (a ∷ b ∷ rest) =
    (λ h. ground arith, λ h. ground arith)
