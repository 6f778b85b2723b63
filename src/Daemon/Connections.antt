-- ===== src/Daemon/Connections.antt =====
-- crates/dlep-daemon/src/connections.rs: the history of the connections to modems. A lock makes each
-- operation one step; the time that it reads is an argument, in nanoseconds.
pub mod Calls
pub mod Entries
pub mod Accounts
pub mod Capacity
use dlep.Base.{
  ℕ, ◌+◌, ◌-◌, ◌*◌, ◌==◌, Bool, true, false, not, ◌&&◌, ◌||◌, if◌then◌else◌, List, [], ◌∷◌, ◌++◌,
  Option, none, some, ltb, leb, Map, get, insert, remove, contains_key, retain_entries, contains,
  ◌≡◌, arith,
}
use dlep.Fsm.Events.{SocketAddr, v4, v6}
use dlep.Fsm.Discovery.{addr_eq}

pub record PeerConnectionState : Type 0 where
  pub active_sessions : ℕ
  pub establishment_count : ℕ

pub record RouterLimits : Type 0 where
  pub max_sessions : ℕ
  pub max_discovered_peers : ℕ
  pub peer_retention_secs : ℕ

pub record History : Type 0 where
  pub states : Map SocketAddr PeerConnectionState
  pub inactive_since : Map SocketAddr ℕ
  pub next_establishment : ℕ

-- `pinned` and `limits` of `ConnectionRegistry`.
pub record Settings : Type 0 where
  pub pinned : List SocketAddr
  pub limits : RouterLimits

-- `Default`.
abbrev pub no_history : History
no_history = record { states = []; inactive_since = []; next_establishment = 0 }

abbrev pub no_connection : PeerConnectionState
no_connection = record { active_sessions = 0; establishment_count = 0 }

abbrev pub nanos_per_sec : ℕ
nanos_per_sec = 1000000000

-- Whether an inactive peer stays: `duration_since` saturates.
abbrev pub is_recent : ℕ → ℕ → Option ℕ → Bool
is_recent secs now none = true
is_recent secs now (some since) = ltb (now - since) (secs * nanos_per_sec)

-- The closure of the first `retain` of `prune_locked`.
unfoldable pub is_retained :
    Settings → Map SocketAddr ℕ → ℕ → SocketAddr → PeerConnectionState → Bool
is_retained c inactive now peer state =
    contains c.pinned peer
    || ltb 0 state.active_sessions
    || is_recent c.limits.peer_retention_secs now (get inactive peer)

-- `prune_locked`, without whether it changed something, which only saves a notification.
unfoldable pub prune_locked : Settings → ℕ → History → History
prune_locked c now h =
    let states = retain_entries (is_retained c h.inactive_since now) h.states in
    record h {
      states = states;
      inactive_since = retain_entries (λ peer since. contains_key states peer) h.inactive_since;
    }

-- The order of `SocketAddr`, by the octets of the address, then the port.
unfoldable pub lex_lt : List ℕ → List ℕ → Bool
lex_lt [] [] = false
lex_lt [] (y ∷ ys) = true
lex_lt (x ∷ xs) [] = false
lex_lt (x ∷ xs) (y ∷ ys) = let rest = lex_lt xs ys in ltb x y || (x == y && rest)

abbrev pub order_key : SocketAddr → List ℕ
order_key (v4 a port) = 0 ∷ (a ++ (port ∷ []))
order_key (v6 a port flow scope) = 1 ∷ (a ++ (port ∷ flow ∷ scope ∷ []))

-- `min_by_key(|(p, at)| (**at, **p))`.
abbrev pub is_earlier : SocketAddr × ℕ → SocketAddr × ℕ → Bool
is_earlier (p, at) (q, since) = ltb at since || (at == since && lex_lt (order_key p) (order_key q))

unfoldable pub earliest : List (SocketAddr × ℕ) → Option (SocketAddr × ℕ)
earliest [] = none
earliest (x ∷ xs) = elim (earliest xs) [
  | none ↦ some x
  | some y ↦ if is_earlier y x then some y else some x
]

-- The entries behind `filter`; the index `history.states[*p]` panics, which is `none`.
unfoldable pub evictable :
    Settings
    → Map SocketAddr PeerConnectionState
    → Map SocketAddr ℕ
    → Option (List (SocketAddr × ℕ))
evictable c states [] = some []
evictable c states ((p, at) ∷ entries) =
    let rest = evictable c states entries in
    if contains c.pinned p then rest else elim (get states p) [
      | none ↦ none
      | some s ↦
          if s.active_sessions == 0
          then elim rest [ none ↦ none | some found ↦ some ((p, at) ∷ found) ]
          else rest
    ]

-- What an operation leaves; `refused` is `PeerHistoryFull`.
pub data After : Type 0 where
  done : (history : History) → After
  refused : (history : History) → After
  panicked : After

-- `entry(peer).or_default()`.
abbrev pub or_default : Option PeerConnectionState → PeerConnectionState
or_default none = no_connection
or_default (some s) = s

unfoldable pub admit_peer : SocketAddr → ℕ → History → History
admit_peer peer now h =
    let s = or_default (get h.states peer) in
    record h {
      inactive_since =
          if contains_key h.states peer then h.inactive_since else insert h.inactive_since peer now;
      states = insert h.states peer (record s { active_sessions = s.active_sessions + 1 });
    }

unfoldable pub evict : SocketAddr → History → History
evict peer h = record h {
  states = remove h.states peer;
  inactive_since = remove h.inactive_since peer;
}

-- `states.keys().filter(…).count()`.
unfoldable pub discovered : Settings → Map SocketAddr PeerConnectionState → ℕ
discovered c [] = 0
discovered c ((p, s) ∷ states) =
    let rest = discovered c states in if contains c.pinned p then rest else rest + 1

unfoldable pub is_full : Settings → SocketAddr → History → Bool
is_full c peer h =
    not (contains_key h.states peer)
    && not (contains c.pinned peer)
    && leb c.limits.max_discovered_peers (discovered c h.states)

unfoldable pub admit_over : SocketAddr → ℕ → History → Option (SocketAddr × ℕ) → After
admit_over peer now h none = refused h
admit_over peer now h (some (oldest, at)) = done (admit_peer peer now (evict oldest h))

unfoldable pub make_room : SocketAddr → ℕ → History → Option (List (SocketAddr × ℕ)) → After
make_room peer now h none = panicked
make_room peer now h (some entries) = admit_over peer now h (earliest entries)

-- `register` behind the pruning.
unfoldable pub register_pruned : Settings → SocketAddr → ℕ → History → After
register_pruned c peer now h =
    if is_full c peer h
    then make_room peer now h (evictable c h.states h.inactive_since)
    else done (admit_peer peer now h)

unfoldable pub register : Settings → SocketAddr → ℕ → History → After
register c peer now h = register_pruned c peer now (prune_locked c now h)

-- `ConnectionTracker::established`, with the `unwrap` of the peer's entry.
unfoldable pub established : SocketAddr → History → Option PeerConnectionState → After
established peer h none = panicked
established peer h (some s) = done (record {
  next_establishment = h.next_establishment + 1;
  states = insert h.states peer (record s { establishment_count = h.next_establishment + 1 });
  inactive_since = remove h.inactive_since peer;
})

unfoldable pub establish : SocketAddr → History → After
establish peer h = established peer h (get h.states peer)

-- The drop of a tracker before its pruning; a count below 0 is a panic.
unfoldable pub disconnect : SocketAddr → ℕ → PeerConnectionState → History → History
disconnect peer at s h = record h {
  states = insert h.states peer (record s { active_sessions = s.active_sessions - 1 });
  inactive_since =
      if (s.active_sessions - 1 == 0) && not (contains_key h.inactive_since peer)
      then insert h.inactive_since peer at
      else h.inactive_since;
}

-- `ConnectionTracker::drop`; `at` and `now` are the two readings of the clock.
unfoldable pub released :
    Settings → SocketAddr → (at now : ℕ) → History → Option PeerConnectionState → After
released c peer at now h none = panicked
released c peer at now h (some s) =
    if s.active_sessions == 0 then panicked else done (prune_locked c now (disconnect peer at s h))

unfoldable pub release : Settings → SocketAddr → (at now : ℕ) → History → After
release c peer at now h = released c peer at now h (get h.states peer)
