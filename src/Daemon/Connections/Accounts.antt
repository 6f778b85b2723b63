-- ===== src/Daemon/Connections/Accounts.antt =====
-- Every live tracker of connections.rs is counted in the history.
use dlep.Base.{
  ℕ, ◌+◌, ◌-◌, ◌==◌, ◌≤◌, true, false, not, ◌&&◌, if◌then◌else◌, List, [], ◌∷◌, All, Option, none,
  some, get, insert, remove, contains_key, contains, ◌≟◌, get-insert, get-remove,
  get-retain_entries, unique, unique-retain_entries, unique-insert, unique-remove, ◌≡◌, refl, arith,
  if_rule, sym, subst, inl, inr, Option-cases,
}
use dlep.Fsm.Events.{SocketAddr}
use dlep.Fsm.Discovery.{addr_eq}
use dlep.Daemon.Connections.{
  PeerConnectionState, History, no_history, Settings, panicked, or_default, is_retained,
  prune_locked, earliest, evictable, admit_peer, evict, is_full, admit_over, make_room,
  register_pruned, register, establish, established, disconnect, release, released,
}
use dlep.Daemon.Connections.Calls.{
  held, take_out, Call, registers, establishes, releases, prunes, after_call, call, is_live,
  Settles,
}
use dlep.Daemon.Connections.Entries.{
  sessions, retained-All, KnownIn, known-All, insert-All, remove-All, evicted-All, AllIdle,
  evictable-Idle, OneIdle, earliest-Idle,
}

-- Each live tracker is counted, and each time of inactivity is that of a peer in the history.
pub record Sound (h : History) (trackers : List SocketAddr) : Type 0 where
  pub once : unique h.states ≡ true
  pub counted : (p : SocketAddr) → sessions (get h.states p) ≡ held trackers p
  pub listed : All (λ e. contains_key h.states e.0 ≡ true) h.inactive_since

pruned_sessions :
    (c : Settings) (now : ℕ) (h : History) (p : SocketAddr)
    → unique h.states ≡ true
    → sessions (get ((prune_locked c now h).states) p) ≡ sessions (get h.states p)
unfolding prune_locked is_retained
pruned_sessions c now h p u =
    ground (arith, get-retain_entries (is_retained c h.inactive_since now) h.states p u)

pub prune_locked-Sound :
    (c : Settings) (now : ℕ) (h : History) (trackers : List SocketAddr)
    → Sound h trackers
    → Sound (prune_locked c now h) trackers
unfolding prune_locked
prune_locked-Sound c now h trackers s = record {
  once = unique-retain_entries (is_retained c h.inactive_since now) h.states s.once;
  counted = λ p. ground (arith, pruned_sessions c now h p s.once, s.counted p);
  listed = retained-All _ h.inactive_since;
}

admit_peer-Sound :
    (peer : SocketAddr) (now : ℕ) (h : History) (trackers : List SocketAddr)
    → Sound h trackers
    → Sound (admit_peer peer now h) (peer ∷ trackers)
unfolding admit_peer held
admit_peer-Sound peer now h trackers s =
    let d = or_default (get h.states peer) in
    let more = record d { active_sessions = d.active_sessions + 1 } in
    let states = insert h.states peer more in
    let grown =
      known-All h.states states h.inactive_since
        (λ p k. ground (arith, get-insert h.states peer p more)) s.listed in
    record {
      once = unique-insert h.states peer _ s.once;
      counted = λ p. ground (
        arith,
        get-insert h.states peer p more,
        s.counted p,
        s.counted peer,
        addr_eq.beq_iff peer p,
      );
      listed =
          if_rule (All (KnownIn states)) (contains_key h.states peer) (λ _. grown)
            λ _.
              insert-All states h.inactive_since peer now
                (ground (arith, get-insert h.states peer peer more, addr_eq.beq_iff peer peer))
                grown;
    }

evict-Sound :
    (peer : SocketAddr) (h : History) (trackers : List SocketAddr)
    → sessions (get h.states peer) ≡ 0
    → Sound h trackers
    → Sound (evict peer h) trackers
unfolding evict
evict-Sound peer h trackers z s = record {
  once = unique-remove h.states peer s.once;
  counted = λ p. ground (arith, s.counted p, get-remove h.states peer p, addr_eq.beq_iff peer p);
  listed = evicted-All h.states h.inactive_since peer s.listed;
}

admit_over-Settles :
    (c : Settings) (peer : SocketAddr) (now : ℕ) (h : History) (trackers : List SocketAddr)
    (o : Option (SocketAddr × ℕ))
    → OneIdle c h.states o
    → Sound h trackers
    → Settles Sound trackers (peer ∷ trackers) (admit_over peer now h o)
unfolding admit_over
admit_over-Settles c peer now h trackers none i s = s
admit_over-Settles c peer now h trackers (some (oldest, at)) i s =
    admit_peer-Sound peer now (evict oldest h) trackers (evict-Sound oldest h trackers i.0 s)

make_room-Settles :
    (c : Settings) (peer : SocketAddr) (now : ℕ) (h : History) (trackers : List SocketAddr)
    (o : Option (List (SocketAddr × ℕ)))
    → AllIdle c h.states o
    → Sound h trackers
    → Settles Sound trackers (peer ∷ trackers) (make_room peer now h o)
unfolding make_room
make_room-Settles c peer now h trackers none i s = i
make_room-Settles c peer now h trackers (some found) i s =
    admit_over-Settles c peer now h trackers (earliest found) (earliest-Idle c h.states found i) s

register_pruned-Settles :
    (c : Settings) (peer : SocketAddr) (now : ℕ) (h : History) (trackers : List SocketAddr)
    → Sound h trackers
    → Settles Sound trackers (peer ∷ trackers) (register_pruned c peer now h)
unfolding register_pruned
register_pruned-Settles c peer now h trackers s =
    if_rule (Settles Sound trackers (peer ∷ trackers)) (is_full c peer h)
      (λ _.
        make_room-Settles c peer now h trackers (evictable c h.states h.inactive_since)
          (evictable-Idle c h.states h.inactive_since s.listed) s)
      (λ _. admit_peer-Sound peer now h trackers s)

pub register-Settles :
    (c : Settings) (peer : SocketAddr) (now : ℕ) (h : History) (trackers : List SocketAddr)
    → Sound h trackers
    → Settles Sound trackers (peer ∷ trackers) (register c peer now h)
unfolding register
register-Settles c peer now h trackers s =
    register_pruned-Settles c peer now _ trackers (prune_locked-Sound c now h trackers s)

held-contains :
    (trackers : List SocketAddr) (p : SocketAddr) → contains trackers p ≡ true → 1 ≤ held trackers p
unfolding held contains
held-contains [] p h = absurd (cc)
held-contains (t ∷ ts) p h = ground (arith, held-contains ts p)

held-take_out :
    (trackers : List SocketAddr) (t p : SocketAddr)
    → contains trackers t ≡ true
    → held (take_out t trackers) p ≡ (if t ≟ p then held trackers p - 1 else held trackers p)
unfolding held take_out contains
held-take_out [] t p h = absurd (cc)
held-take_out (u ∷ us) t p h = ground (
  arith,
  held-take_out us t p,
  held-contains us t,
  addr_eq.beq_iff u t,
  addr_eq.beq_iff t p,
  addr_eq.beq_iff u p,
)

-- A held tracker has its peer in the history.
held_some :
    (h : History) (trackers : List SocketAddr) (peer : SocketAddr)
    → Sound h trackers
    → contains trackers peer ≡ true
    → (s : PeerConnectionState) × (get h.states peer ≡ some s) × (1 ≤ s.active_sessions)
held_some h trackers peer s k = elim (Option-cases (get h.states peer)) [
  | inl n ↦ absurd (ground (arith, n, s.counted peer, held-contains trackers peer k))
  | inr (d, e) ↦ (d, e, ground (arith, e, s.counted peer, held-contains trackers peer k))
]

pub establish-Settles :
    (peer : SocketAddr) (h : History) (trackers : List SocketAddr)
    → Sound h trackers
    → contains trackers peer ≡ true
    → Settles Sound trackers trackers (establish peer h)
unfolding establish established
establish-Settles peer h trackers s k =
    let (d, e, pos) = held_some h trackers peer s k in
    let fresh = record d { establishment_count = h.next_establishment + 1 } in
    subst (λ o. Settles Sound trackers trackers (established peer h o)) (sym e)
      (record {
        once = unique-insert h.states peer _ s.once;
        counted = λ p.
            ground
              (arith, get-insert h.states peer p fresh, s.counted p, e, addr_eq.beq_iff peer p);
        listed =
            known-All h.states (insert h.states peer fresh) (remove h.inactive_since peer)
              (λ p q. ground (arith, get-insert h.states peer p fresh))
              (remove-All h.states h.inactive_since peer s.listed);
      })

disconnect-Sound :
    (peer : SocketAddr) (at : ℕ) (d : PeerConnectionState) (h : History)
    (trackers : List SocketAddr)
    → get h.states peer ≡ some d
    → contains trackers peer ≡ true
    → Sound h trackers
    → Sound (disconnect peer at d h) (take_out peer trackers)
unfolding disconnect
disconnect-Sound peer at d h trackers e k s =
    let less = record d { active_sessions = d.active_sessions - 1 } in
    let states = insert h.states peer less in
    let grown =
      known-All h.states states h.inactive_since
        (λ p q. ground (arith, get-insert h.states peer p less)) s.listed in
    record {
      once = unique-insert h.states peer _ s.once;
      counted = λ p. ground (
        arith,
        get-insert h.states peer p less,
        s.counted p,
        e,
        held-take_out trackers peer p k,
        addr_eq.beq_iff peer p,
      );
      listed =
          if_rule (All (KnownIn states))
            ((d.active_sessions - 1 == 0) && not (contains_key h.inactive_since peer))
            (λ _.
              insert-All states h.inactive_since peer at
                (ground (arith, get-insert h.states peer peer less, addr_eq.beq_iff peer peer))
                grown)
            (λ _. grown);
    }

pub release-Settles :
    (c : Settings) (peer : SocketAddr) (at now : ℕ) (h : History) (trackers : List SocketAddr)
    → Sound h trackers
    → contains trackers peer ≡ true
    → Settles Sound trackers (take_out peer trackers) (release c peer at now h)
unfolding release released
release-Settles c peer at now h trackers s k =
    let (d, e, pos) = held_some h trackers peer s k in
    let more : (d.active_sessions == 0) ≡ false = ground arith in
    subst (λ o. Settles Sound trackers (take_out peer trackers) (released c peer at now h o))
      (sym e)
      (if_rule (Settles Sound trackers (take_out peer trackers)) (d.active_sessions == 0)
        {x = panicked} (λ z. absurd (ground (arith, more, z)))
        (λ _.
          prune_locked-Sound c now (disconnect peer at d h) (take_out peer trackers)
            (disconnect-Sound peer at d h trackers e k s)))

pub call-Settles :
    (c : Settings) (o : Call) (h : History) (trackers : List SocketAddr)
    → Sound h trackers
    → is_live o trackers ≡ true
    → Settles Sound trackers (after_call o trackers) (call c o h)
unfolding call
call-Settles c (registers peer now) h trackers s k = register-Settles c peer now h trackers s
call-Settles c (establishes peer) h trackers s k = establish-Settles peer h trackers s k
call-Settles c (releases peer at now) h trackers s k = release-Settles c peer at now h trackers s k
call-Settles c (prunes now) h trackers s k = prune_locked-Sound c now h trackers s

pub new-Sound : Sound no_history []
unfolding held unique get
new-Sound = record { once = refl; counted = λ p. refl; listed = tt }
