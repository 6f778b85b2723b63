-- ===== src/Core/Ipnet/Masked.antt =====
-- Operations on networks that meet `IpnetLaws`: the host bits are cleared octet by octet.
use dlep.Base.{
  ℕ, zero, suc, ◌-◌, ◌*◌, ◌/◌, ◌^◌, ◌≤◌, ◌<◌, Octets, IsOctets, length, ◌≡◌, refl, ap, ◌∙◌, arith,
  leb, le→leb, if◌then◌else◌, Option, none, some, [], ◌∷◌,
}
use dlep.Core.Ipnet.{IpNet, NetOps, Ipnet, NetLaws, IpnetLaws, IsAddr}

-- The leading `p` bits of an octet.
keep : ℕ → ℕ → ℕ
keep p o = o / 2 ^ (8 - p) * 2 ^ (8 - p)

keep-keep : (p o : ℕ) → keep p (keep p o) ≡ keep p o
unfolding keep
keep-keep zero o = omega arith
keep-keep (suc zero) o = omega arith
keep-keep (suc (suc zero)) o = omega arith
keep-keep (suc (suc (suc zero))) o = omega arith
keep-keep (suc (suc (suc (suc zero)))) o = omega arith
keep-keep (suc (suc (suc (suc (suc zero))))) o = omega arith
keep-keep (suc (suc (suc (suc (suc (suc zero)))))) o = omega arith
keep-keep (suc (suc (suc (suc (suc (suc (suc zero))))))) o = omega arith
keep-keep (suc (suc (suc (suc (suc (suc (suc (suc p)))))))) o =
    let whole : 8 - suc (suc (suc (suc (suc (suc (suc (suc p))))))) ≡ 0 = omega arith in
    rw whole (omega arith)

keep-le : (p o : ℕ) → keep p o ≤ o
unfolding keep
keep-le p o = grind arith

mask : ℕ → Octets → Octets
unfolding keep
mask p [] = []
mask p (o ∷ v) = keep p o ∷ mask (p - 8) v

mask-mask : (p : ℕ) (v : Octets) → mask p (mask p v) ≡ mask p v
unfolding mask
mask-mask p [] = refl
mask-mask p (o ∷ v) = λ i. keep-keep p o i ∷ mask-mask (p - 8) v i

mask_shape :
    (p : ℕ) (v : Octets) → IsOctets v → (length (mask p v) ≡ length v) × IsOctets (mask p v)
unfolding mask
mask_shape p [] h = (refl, tt)
mask_shape p (o ∷ v) h =
    let (len, rest) = mask_shape (p - 8) v (h.1) in (ap suc len, (omega (arith, keep-le p o), rest))

new_net : ℕ → Octets → ℕ → Option IpNet
new_net bits a p = if leb p bits then some (record { addr = a; prefix_len = p }) else none

unfoldable pub net_ops : ℕ → NetOps
unfolding mask new_net
net_ops bits = record { new = new_net bits; network = λ n. mask n.prefix_len n.addr }

new_net_err : (bits : ℕ) (a : Octets) (p : ℕ) → bits < p → new_net bits a p ≡ none
unfolding new_net
new_net_err bits a p h = ground arith

net_laws : (octets bits : ℕ) → NetLaws octets bits (net_ops bits)
unfolding net_ops
net_laws octets bits = record {
  new_ok = λ a p h. rw (new_net, le→leb p bits h);
  new_err = λ a p h. new_net_err bits a p h;
  network_addr = λ n h. addr n h;
  network_trunc = λ n. mask-mask n.prefix_len n.addr;
}
  where
    addr : (n : IpNet) → IsAddr octets n.addr → IsAddr octets (mask n.prefix_len n.addr)
    addr n h = let (len, rest) = mask_shape n.prefix_len n.addr (h.1) in (len ∙ h.0, rest)

abbrev pub masked : Ipnet
masked = record { v4 = net_ops 32; v6 = net_ops 128 }

pub masked_laws : IpnetLaws masked
masked_laws = record { v4 = net_laws 4 32; v6 = net_laws 16 128 }
