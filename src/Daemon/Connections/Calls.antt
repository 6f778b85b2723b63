-- ===== src/Daemon/Connections/Calls.antt =====
-- The calls that the tasks of crates/dlep-daemon make of connections.rs, in the order in which they
-- take the lock.
use dlep.Base.{
  ℕ, ◌+◌, Bool, true, if◌then◌else◌, List, [], ◌∷◌, Option, none, some, contains, ◌≟◌, ◌≡◌, if_rule,
}
use dlep.Fsm.Events.{SocketAddr}
use dlep.Fsm.Discovery.{addr_eq}
use dlep.Daemon.Connections.{
  History, Settings, After, done, refused, panicked, prune_locked, register, establish, release,
}

-- How many of the live trackers are of a peer.
unfoldable pub held : List SocketAddr → SocketAddr → ℕ
held [] p = 0
held (t ∷ ts) p = let rest = held ts p in if t ≟ p then rest + 1 else rest

-- The live trackers without one of a peer.
unfoldable pub take_out : SocketAddr → List SocketAddr → List SocketAddr
take_out p [] = []
take_out p (t ∷ ts) = let rest = take_out p ts in if t ≟ p then ts else t ∷ rest

-- The calls that the daemon makes: of a tracker only while it lives.
pub data Call : Type 0 where
  registers : (peer : SocketAddr) (now : ℕ) → Call
  establishes : (peer : SocketAddr) → Call
  releases : (peer : SocketAddr) (at now : ℕ) → Call
  prunes : (now : ℕ) → Call

-- The live trackers after a call that is done.
abbrev pub after_call : Call → List SocketAddr → List SocketAddr
after_call (registers peer now) trackers = peer ∷ trackers
after_call (establishes peer) trackers = trackers
after_call (releases peer at now) trackers = take_out peer trackers
after_call (prunes now) trackers = trackers

unfoldable pub call : Settings → Call → History → After
call c (registers peer now) h = register c peer now h
call c (establishes peer) h = establish peer h
call c (releases peer at now) h = release c peer at now h
call c (prunes now) h = done (prune_locked c now h)

abbrev pub is_live : Call → List SocketAddr → Bool
is_live (establishes peer) trackers = contains trackers peer
is_live (releases peer at now) trackers = contains trackers peer
is_live _ trackers = true

-- The history and the live trackers; a call of a tracker that does not live is not made.
abbrev pub settled : Call → List SocketAddr → After → Option (History × List SocketAddr)
settled o trackers (done h) = some (h, after_call o trackers)
settled o trackers (refused h) = some (h, trackers)
settled o trackers panicked = none

unfoldable pub calls :
    Settings → List Call → History × List SocketAddr → Option (History × List SocketAddr)
calls c [] s = some s
calls c (o ∷ os) (h, trackers) =
    if is_live o trackers
    then elim (settled o trackers (call c o h)) [ none ↦ none | some s ↦ calls c os s ]
    else calls c os (h, trackers)

-- A property of what a call leaves, and of what calls leave; a panic has none.
abbrev pub Settles :
    (History → List SocketAddr → Type 0) → (before after : List SocketAddr) → After → Type 0
Settles P before after (done h) = P h after
Settles P before after (refused h) = P h before
Settles P before after panicked = ⊥

abbrev pub Holds :
    (History → List SocketAddr → Type 0) → Option (History × List SocketAddr) → Type 0
Holds P none = ⊥
Holds P (some (h, trackers)) = P h trackers

module _ (c : Settings) (P : History → List SocketAddr → Type 0)
    (step : (o : Call) (h : History) (trackers : List SocketAddr)
      → P h trackers
      → is_live o trackers ≡ true
      → Settles P trackers (after_call o trackers) (call c o h)) where
  abbrev go_on : List Call → Option (History × List SocketAddr) → Option (History × List SocketAddr)
  go_on os none = none
  go_on os (some s) = calls c os s

  settled-Holds :
      (o : Call) (os : List Call) (trackers : List SocketAddr) (r : After)
      → ((s : History × List SocketAddr) → P s.0 s.1 → Holds P (calls c os s))
      → Settles P trackers (after_call o trackers) r
      → Holds P (go_on os (settled o trackers r))
  settled-Holds o os trackers (done h) f s = f (h, after_call o trackers) s
  settled-Holds o os trackers (refused h) f s = f (h, trackers) s
  settled-Holds o os trackers panicked f s = absurd s

  -- A property that each call of a live tracker keeps holds after all calls.
  pub calls-Holds :
      (os : List Call) (s : History × List SocketAddr) → P s.0 s.1 → Holds P (calls c os s)
  unfolding calls
  calls-Holds [] s k = k
  calls-Holds (o ∷ os) (h, trackers) k =
      if_rule (Holds P) (is_live o trackers)
        (λ live.
          settled-Holds o os trackers (call c o h) (calls-Holds os) (step o h trackers k live))
        (λ _. calls-Holds os (h, trackers) k)
