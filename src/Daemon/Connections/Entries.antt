-- ===== src/Daemon/Connections/Entries.antt =====
-- The entries of the history of connections.rs.
use dlep.Base.{
  ℕ, Bool, true, false, List, [], ◌∷◌, All, Option, none, some, Map, get, insert, remove,
  contains_key, retain_entries, contains, get-remove, ◌≡◌, arith,
}
use dlep.Fsm.Events.{SocketAddr}
use dlep.Fsm.Discovery.{addr_eq}
use dlep.Daemon.Connections.{PeerConnectionState, Settings, earliest, evictable}

-- The sessions that the history counts for a peer, and the trackers of it.
abbrev pub sessions : Option PeerConnectionState → ℕ
sessions none = 0
sessions (some s) = s.active_sessions

pub retained-All :
    (q : SocketAddr → Bool) (m : Map SocketAddr ℕ)
    → All (λ e. q e.0 ≡ true) (retain_entries (λ p since. q p) m)
unfolding retain_entries
retained-All q [] = tt
retained-All q ((p, at) ∷ m) = ground (arith, retained-All q m)

abbrev pub KnownIn : Map SocketAddr PeerConnectionState → SocketAddr × ℕ → Type 0
KnownIn states e = contains_key states e.0 ≡ true

pub known-All :
    (a b : Map SocketAddr PeerConnectionState) (m : Map SocketAddr ℕ)
    → ((p : SocketAddr) → contains_key a p ≡ true → contains_key b p ≡ true)
    → All (KnownIn a) m
    → All (KnownIn b) m
known-All a b [] f h = tt
known-All a b (e ∷ m) f h = (f e.0 h.0, known-All a b m f h.1)

pub insert-All :
    (states : Map SocketAddr PeerConnectionState) (m : Map SocketAddr ℕ) (p : SocketAddr) (at : ℕ)
    → contains_key states p ≡ true
    → All (KnownIn states) m
    → All (KnownIn states) (insert m p at)
unfolding insert
insert-All states [] p at k h = (k, tt)
insert-All states ((q, since) ∷ m) p at k h = ground (arith, insert-All states m p at k)

pub remove-All :
    (states : Map SocketAddr PeerConnectionState) (m : Map SocketAddr ℕ) (p : SocketAddr)
    → All (KnownIn states) m
    → All (KnownIn states) (remove m p)
unfolding remove
remove-All states [] p h = tt
remove-All states ((q, since) ∷ m) p h = ground (arith, remove-All states m p)

pub evicted-All :
    (states : Map SocketAddr PeerConnectionState) (m : Map SocketAddr ℕ) (p : SocketAddr)
    → All (KnownIn states) m
    → All (KnownIn (remove states p)) (remove m p)
unfolding remove
evicted-All states [] p h = tt
evicted-All states ((q, since) ∷ m) p h =
    ground (
      arith,
      evicted-All states m p,
      get-remove states p q,
      addr_eq.beq_iff q p,
      addr_eq.beq_iff p q,
    )

-- A discovered peer in the history without a session.
abbrev pub Idle : Settings → Map SocketAddr PeerConnectionState → SocketAddr × ℕ → Type 0
Idle c states e =
    (sessions (get states e.0) ≡ 0)
    × (contains c.pinned e.0 ≡ false)
    × (contains_key states e.0 ≡ true)

module _ (c : Settings) (states : Map SocketAddr PeerConnectionState) where
  abbrev pub AllIdle : Option (List (SocketAddr × ℕ)) → Type 0
  AllIdle none = ⊥
  AllIdle (some found) = All (Idle c states) found

  pub evictable-Idle :
      (m : Map SocketAddr ℕ) → All (KnownIn states) m → AllIdle (evictable c states m)
  unfolding evictable
  evictable-Idle [] h = tt
  evictable-Idle ((p, at) ∷ m) h = ground (arith, evictable-Idle m)

  abbrev pub OneIdle : Option (SocketAddr × ℕ) → Type 0
  OneIdle none = Unit {0}
  OneIdle (some e) = Idle c states e

  pub earliest-Idle :
      (found : List (SocketAddr × ℕ)) → All (Idle c states) found → OneIdle (earliest found)
  unfolding earliest
  earliest-Idle [] h = tt
  earliest-Idle (e ∷ found) h = ground (arith, earliest-Idle found)
