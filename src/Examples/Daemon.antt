-- ===== src/Examples/Daemon.antt =====
-- Runs of the connection history of crates/dlep-daemon/src/connections.rs.
use dlep.Base.{[], ◌∷◌, List}
use dlep.Fsm.Events.{SocketAddr, v4}
use dlep.Daemon.Connections.{Settings, no_history}
use dlep.Daemon.Connections.Calls.{Call, registers, establishes, releases, prunes, calls, Holds}
use dlep.Daemon.Connections.Accounts.{Sound}
use dlep.Daemon.Connections.Capacity.{Bounded, connection_history}

abbrev first : SocketAddr
first = v4 (192 ∷ 0 ∷ 2 ∷ 1 ∷ []) 854

abbrev second : SocketAddr
second = v4 (192 ∷ 0 ∷ 2 ∷ 2 ∷ []) 854

-- Room for one discovered peer.
abbrev narrow : Settings
narrow = record {
  pinned = [];
  limits = record { max_sessions = 4; max_discovered_peers = 1; peer_retention_secs = 300 };
}

-- The second peer is refused while the first one is connected, and takes its place later.
abbrev taking_turns : List Call
taking_turns =
    registers first 10
    ∷ establishes first
    ∷ registers second 20
    ∷ releases first 30 31
    ∷ registers second 40
    ∷ prunes 50
    ∷ []

connection_history_example :
    Holds
      (λ h trackers. Sound h trackers × Bounded narrow h)
      (calls narrow taking_turns (no_history, []))
connection_history_example = connection_history narrow taking_turns
