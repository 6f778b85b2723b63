-- ===== src/Core/Mac.antt =====
-- crates/dlep-core/src/mac.rs. The octet arrays `[u8; 6]` and `[u8; 8]` are octet strings, whose
-- lengths `IsMac` states.
use dlep.Base.{
  ℕ, Octets, IsOctets, length, ◌≡◌, ◌↔◌, ap, Bool, true, false, Eq, eq_octets, eq_octets_iff,
}

pub data MacAddressFormat : Type 0 where
  eui48 eui64 : MacAddressFormat

pub data MacAddress : Type 0 where
  eui48 : Octets → MacAddress
  eui64 : Octets → MacAddress

unfoldable pub as_bytes : MacAddress → Octets
as_bytes (MacAddress.eui48 o) = o
as_bytes (MacAddress.eui64 o) = o

-- `MacAddress::len`.
unfoldable pub mac_len : MacAddress → ℕ
mac_len (MacAddress.eui48 o) = 6
mac_len (MacAddress.eui64 o) = 8

unfoldable pub accepts : MacAddressFormat → MacAddress → Bool
accepts MacAddressFormat.eui48 (MacAddress.eui48 o) = true
accepts MacAddressFormat.eui64 (MacAddress.eui64 o) = true
accepts _ _ = false

-- What the array types guarantee.
abbrev pub IsMac : MacAddress → Type 0
IsMac (MacAddress.eui48 o) = (length o ≡ 6) × IsOctets o
IsMac (MacAddress.eui64 o) = (length o ≡ 8) × IsOctets o

-- The derived `Eq`.
unfoldable pub eq_mac : MacAddress → MacAddress → Bool
eq_mac (MacAddress.eui48 a) (MacAddress.eui48 b) = eq_octets a b
eq_mac (MacAddress.eui64 a) (MacAddress.eui64 b) = eq_octets a b
eq_mac _ _ = false

pub eq_mac_iff : (a b : MacAddress) → (eq_mac a b ≡ true) ↔ (a ≡ b)
unfolding eq_mac
eq_mac_iff (MacAddress.eui48 a) (MacAddress.eui48 b) =
    (λ h. ap MacAddress.eui48 ((eq_octets_iff a b).0 h), λ p. (eq_octets_iff a b).1 (cc))
eq_mac_iff (MacAddress.eui64 a) (MacAddress.eui64 b) =
    (λ h. ap MacAddress.eui64 ((eq_octets_iff a b).0 h), λ p. (eq_octets_iff a b).1 (cc))
eq_mac_iff (MacAddress.eui48 a) (MacAddress.eui64 b) = (λ h. cc, λ p. cc)
eq_mac_iff (MacAddress.eui64 a) (MacAddress.eui48 b) = (λ h. cc, λ p. cc)

instance abbrev pub mac_eq : Eq MacAddress
mac_eq = record { beq = eq_mac; beq_iff = eq_mac_iff }
