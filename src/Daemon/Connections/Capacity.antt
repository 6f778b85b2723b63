-- ===== src/Daemon/Connections/Capacity.antt =====
-- The history of connections.rs keeps within `max_discovered_peers`.
use dlep.Base.{
  ℕ, ◌+◌, ◌-◌, ◌==◌, ◌≤◌, Bool, true, false, ◌||◌, if◌then◌else◌, List, [], ◌∷◌, Option, none, some,
  Map, get, insert, remove, contains_key, retain_entries, contains, unique, ◌≡◌, refl, arith,
  if_rule,
}
use dlep.Fsm.Events.{SocketAddr}
use dlep.Fsm.Discovery.{addr_eq}
use dlep.Daemon.Connections.{
  PeerConnectionState, History, no_history, Settings, After, done, refused, panicked, or_default,
  is_retained, prune_locked, earliest, evictable, admit_peer, evict, discovered, is_full,
  admit_over, make_room, register_pruned, register, establish, established, disconnect, release,
  released,
}
use dlep.Daemon.Connections.Calls.{
  Call, registers, establishes, releases, prunes, after_call, call, calls, Settles, Holds,
  calls-Holds,
}
use dlep.Daemon.Connections.Entries.{AllIdle, evictable-Idle, OneIdle, earliest-Idle}
use dlep.Daemon.Connections.Accounts.{Sound, new-Sound, prune_locked-Sound, call-Settles}

module _ (c : Settings) where
  discovered-insert :
      (m : Map SocketAddr PeerConnectionState) (p : SocketAddr) (s : PeerConnectionState)
      → discovered c (insert m p s)
        ≡ (if contains_key m p || contains c.pinned p then discovered c m else discovered c m + 1)
  unfolding discovered insert get
  discovered-insert [] p s = ground arith
  discovered-insert ((q, r) ∷ m) p s = ground (arith, discovered-insert m p s, addr_eq.beq_iff q p)

  discovered-absent :
      (m : Map SocketAddr PeerConnectionState) (p : SocketAddr)
      → contains_key m p ≡ false
      → discovered c (remove m p) ≡ discovered c m
  unfolding discovered remove get
  discovered-absent [] p h = refl
  discovered-absent ((q, r) ∷ m) p h = ground (arith, discovered-absent m p)

  discovered-remove :
      (m : Map SocketAddr PeerConnectionState) (p : SocketAddr)
      → unique m ≡ true
      → contains_key m p ≡ true
      → contains c.pinned p ≡ false
      → discovered c (remove m p) + 1 ≡ discovered c m
  unfolding discovered remove get unique
  discovered-remove [] p u h n = absurd (cc)
  discovered-remove ((q, r) ∷ m) p u h n =
      ground (arith, discovered-remove m p, discovered-absent m p, addr_eq.beq_iff q p)

  discovered-retain :
      (keep : SocketAddr → PeerConnectionState → Bool) (m : Map SocketAddr PeerConnectionState)
      → discovered c (retain_entries keep m) ≤ discovered c m
  unfolding discovered retain_entries
  discovered-retain keep [] = omega arith
  discovered-retain keep ((q, r) ∷ m) = ground (arith, discovered-retain keep m)

  -- A history with no more discovered peers than the limit.
  abbrev pub Bounded : History → Type 0
  Bounded h = discovered c h.states ≤ c.limits.max_discovered_peers

  -- The same of what an operation leaves.
  abbrev BoundedAfter : After → Type 0
  BoundedAfter (done h) = Bounded h
  BoundedAfter (refused h) = Bounded h
  BoundedAfter panicked = Unit {0}

  prune-Bounded : (now : ℕ) (h : History) → Bounded h → Bounded (prune_locked c now h)
  unfolding prune_locked
  prune-Bounded now h b =
      omega (arith, discovered-retain (is_retained c h.inactive_since now) h.states)

  admit_peer-Bounded :
      (peer : SocketAddr) (now : ℕ) (h : History)
      → is_full c peer h ≡ false
      → Bounded h
      → Bounded (admit_peer peer now h)
  unfolding admit_peer is_full
  admit_peer-Bounded peer now h f b =
      let d = or_default (get h.states peer) in
      ground (
        arith,
        discovered-insert h.states peer (record d { active_sessions = d.active_sessions + 1 }),
      )

  admit_over-Bounded :
      (peer : SocketAddr) (now : ℕ) (h : History) (o : Option (SocketAddr × ℕ))
      → unique h.states ≡ true
      → OneIdle c h.states o
      → Bounded h
      → BoundedAfter (admit_over peer now h o)
  unfolding admit_over admit_peer evict
  admit_over-Bounded peer now h none u i b = b
  admit_over-Bounded peer now h (some (oldest, at)) u i b =
      let d = or_default (get (remove h.states oldest) peer) in
      ground (
        arith,
        discovered-insert (remove h.states oldest) peer
            (record d { active_sessions = d.active_sessions + 1 }),
        discovered-remove h.states oldest u i.2 i.1,
      )

  make_room-Bounded :
      (peer : SocketAddr) (now : ℕ) (h : History) (o : Option (List (SocketAddr × ℕ)))
      → unique h.states ≡ true
      → AllIdle c h.states o
      → Bounded h
      → BoundedAfter (make_room peer now h o)
  unfolding make_room
  make_room-Bounded peer now h none u i b = tt
  make_room-Bounded peer now h (some found) u i b =
      admit_over-Bounded peer now h (earliest found) u (earliest-Idle c h.states found i) b

  register_pruned-Bounded :
      (peer : SocketAddr) (now : ℕ) (h : History) (trackers : List SocketAddr)
      → Sound h trackers
      → Bounded h
      → BoundedAfter (register_pruned c peer now h)
  unfolding register_pruned
  register_pruned-Bounded peer now h trackers s b =
      if_rule BoundedAfter (is_full c peer h)
        {x = make_room peer now h (evictable c h.states h.inactive_since)}
        {y = done (admit_peer peer now h)}
        (λ _.
          make_room-Bounded peer now h (evictable c h.states h.inactive_since) s.once
            (evictable-Idle c h.states h.inactive_since s.listed) b)
        (λ f. admit_peer-Bounded peer now h (ground (arith, f)) b)

  established-Bounded :
      (peer : SocketAddr) (h : History) (o : Option PeerConnectionState)
      → get h.states peer ≡ o
      → Bounded h
      → BoundedAfter (established peer h o)
  unfolding established
  established-Bounded peer h none e b = tt
  established-Bounded peer h (some s) e b = ground (
    arith,
    e,
    discovered-insert h.states peer (record s { establishment_count = h.next_establishment + 1 }),
  )

  released-Bounded :
      (peer : SocketAddr) (at now : ℕ) (h : History) (o : Option PeerConnectionState)
      → get h.states peer ≡ o
      → Bounded h
      → BoundedAfter (released c peer at now h o)
  unfolding released disconnect
  released-Bounded peer at now h none e b = tt
  released-Bounded peer at now h (some s) e b =
      if_rule BoundedAfter (s.active_sessions == 0) {x = panicked} (λ _. tt)
        λ _. prune-Bounded now (disconnect peer at s h) (
          ground (
            arith,
            e,
            discovered-insert h.states peer (record s { active_sessions = s.active_sessions - 1 }),
          ))

  call-Bounded :
      (o : Call) (h : History) (trackers : List SocketAddr)
      → Sound h trackers
      → Bounded h
      → BoundedAfter (call c o h)
  unfolding call register establish release
  call-Bounded (registers peer now) h trackers s b =
      register_pruned-Bounded peer now (prune_locked c now h) trackers
        (prune_locked-Sound c now h trackers s) (prune-Bounded now h b)
  call-Bounded (establishes peer) h trackers s b = established-Bounded peer h _ refl b
  call-Bounded (releases peer at now) h trackers s b = released-Bounded peer at now h _ refl b
  call-Bounded (prunes now) h trackers s b = prune-Bounded now h b

  both :
      (before after : List SocketAddr) (r : After)
      → Settles Sound before after r
      → BoundedAfter r
      → Settles (λ h trackers. Sound h trackers × Bounded h) before after r
  both before after (done h) s b = (s, b)
  both before after (refused h) s b = (s, b)
  both before after panicked s b = s

-- Any calls of the connection registry, with each tracker used only while it lives and at any
-- times, never panic; after them the history counts for each peer exactly its live trackers, has
-- no time of inactivity of a peer that it does not hold, and holds at most the configured number
-- of discovered peers.
pub connection_history :
    (c : Settings) (os : List Call)
    → Holds (λ h trackers. Sound h trackers × Bounded c h) (calls c os (no_history, []))
unfolding discovered
connection_history c os =
    calls-Holds c (λ h trackers. Sound h trackers × Bounded c h)
      (λ o h trackers k live.
        both c trackers (after_call o trackers) (call c o h) (call-Settles c o h trackers k.0 live)
          (call-Bounded c o h trackers k.0 k.1))
      os (no_history, []) (new-Sound, omega arith)
