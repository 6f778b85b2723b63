-- ===== src/Core/Ipnet.antt =====
-- The crate `ipnet`, which is not part of the repository: its operations on networks are a
-- parameter of the model, and `NetLaws` states what its documentation promises of them. A network
-- is its address and its prefix length.
pub mod Masked
use dlep.Base.{
  ℕ, Octets, IsOctets, length, ◌≤◌, ◌<◌, ◌≡◌, ◌↔◌, arith, Option, none, some, Bool, true, ◌&&◌,
  ◌==◌, Eq, eq_octets, eq_octets_iff,
}

pub record IpNet : Type 0 where
  pub addr : Octets
  pub prefix_len : ℕ

-- `Ipv4Net::new`, which refuses a prefix that is too long, and `network`; so for `Ipv6Net`.
pub record NetOps : Type 0 where
  pub new : Octets → ℕ → Option IpNet
  pub network : IpNet → Octets

pub record Ipnet : Type 0 where
  pub v4 : NetOps
  pub v6 : NetOps

-- `trunc` is documented as the network with its address truncated to the prefix.
abbrev pub trunc : NetOps → IpNet → IpNet
trunc ops n = record { addr = ops.network n; prefix_len = n.prefix_len }

abbrev pub IsAddr : ℕ → Octets → Type 0
IsAddr octets a = (length a ≡ octets) × IsOctets a

pub record NetLaws (octets bits : ℕ) (ops : NetOps) : Type 0 where
  pub new_ok :
      (a : Octets) (p : ℕ) → p ≤ bits → ops.new a p ≡ some (record { addr = a; prefix_len = p })
  pub new_err : (a : Octets) (p : ℕ) → bits < p → ops.new a p ≡ none
  pub network_addr : (n : IpNet) → IsAddr octets n.addr → IsAddr octets (ops.network n)
  pub network_trunc : (n : IpNet) → ops.network (trunc ops n) ≡ ops.network n

pub record IpnetLaws (i : Ipnet) : Type 0 where
  pub v4 : NetLaws 4 32 i.v4
  pub v6 : NetLaws 16 128 i.v6

-- The derived `Eq`.
unfoldable pub eq_net : IpNet → IpNet → Bool
eq_net a b = eq_octets a.addr b.addr && (a.prefix_len == b.prefix_len)

pub eq_net_iff : (a b : IpNet) → (eq_net a b ≡ true) ↔ (a ≡ b)
unfolding eq_net
eq_net_iff a b = (
  λ h. ground (arith, eq_octets_iff a.addr b.addr),
  λ p. ground (arith, eq_octets_iff a.addr b.addr),
)

instance abbrev pub net_eq : Eq IpNet
net_eq = record { beq = eq_net; beq_iff = eq_net_iff }
