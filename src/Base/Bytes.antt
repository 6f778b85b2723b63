-- ===== src/Base/Bytes.antt =====
-- Octet strings, and `to_be_bytes` and `from_be_bytes` of Rust's unsigned integers.
use Prim.Native.Nat.{ℕ, zero, suc, ◌+◌, ◌*◌, ◌/◌, ◌%◌, ◌^◌, ◌<◌}
use mathlib.Core.Path.{◌≡◌, refl, ap, ◌∙◌}
use mathlib.Core.List.{List, [], ◌∷◌, ◌++◌}
use native.Mathlib.Omega.{arith}
use native.Mathlib.Nat.{pow-suc}
use dlep.Base.Lists.{length, All, length-append, All-append}

abbrev pub Octets : Type 0
Octets = List ℕ

abbrev pub IsByte : ℕ → Type 0
IsByte b = b < 256

abbrev pub IsOctets : Octets → Type 0
IsOctets v = All IsByte v

-- The low `k` octets of `n`, most significant first.
unfoldable pub to_be_bytes : ℕ → ℕ → Octets
to_be_bytes zero n = []
to_be_bytes (suc k) n = to_be_bytes k (n / 256) ++ (n % 256 ∷ [])

-- Horner's rule, from the most significant octet on.
unfoldable pub be_from : ℕ → Octets → ℕ
be_from acc [] = acc
be_from acc (b ∷ v) = be_from (acc * 256 + b) v

unfoldable pub from_be_bytes : Octets → ℕ
unfolding be_from
from_be_bytes v = be_from 0 v

be_from-snoc :
    (acc : ℕ) (v : Octets) (b : ℕ) → be_from acc (v ++ (b ∷ [])) ≡ be_from acc v * 256 + b
unfolding be_from
be_from-snoc acc [] b = refl
be_from-snoc acc (x ∷ v) b = be_from-snoc (acc * 256 + x) v b

pub length-to_be_bytes : (k n : ℕ) → length (to_be_bytes k n) ≡ k
unfolding to_be_bytes
length-to_be_bytes zero n = refl
length-to_be_bytes (suc k) n = omega (
  arith,
  length-append {0} (to_be_bytes k (n / 256)) (n % 256 ∷ []),
  length-to_be_bytes k (n / 256),
)

pub to_be_bytes-IsOctets : (k n : ℕ) → IsOctets (to_be_bytes k n)
unfolding to_be_bytes
to_be_bytes-IsOctets zero n = tt
to_be_bytes-IsOctets (suc k) n =
    All-append IsByte (to_be_bytes k (n / 256)) _ (to_be_bytes-IsOctets k (n / 256)) (omega arith)

be_from-to_be_bytes : (k n : ℕ) → n < 256 ^ k → be_from 0 (to_be_bytes k n) ≡ n
unfolding to_be_bytes be_from
be_from-to_be_bytes zero n h = omega arith
be_from-to_be_bytes (suc k) n h =
    be_from-snoc 0 (to_be_bytes k (n / 256)) (n % 256)
    ∙ omega (arith, be_from-to_be_bytes k (n / 256) (omega (arith, pow-suc 256 k)))

-- An integer that fits its width is read back.
pub from_be_bytes-to_be_bytes : (k n : ℕ) → n < 256 ^ k → from_be_bytes (to_be_bytes k n) ≡ n
unfolding from_be_bytes
from_be_bytes-to_be_bytes k n h = be_from-to_be_bytes k n h

be_from-lt : (v : Octets) (acc m : ℕ) → IsOctets v → acc < m → be_from acc v < m * 256 ^ length v
unfolding be_from
be_from-lt [] acc m h lt = omega arith
be_from-lt (b ∷ v) acc m (hb, h) lt = omega (
  arith,
  be_from-lt v (acc * 256 + b) (m * 256) h (omega arith),
  ap (λ (t : ℕ). m * t) (pow-suc 256 (length v)),
)

-- What is read from `n` octets fits `n` octets.
pub from_be_bytes-lt : (v : Octets) → IsOctets v → from_be_bytes v < 256 ^ length v
unfolding from_be_bytes
from_be_bytes-lt v h = omega (arith, be_from-lt v 0 1 h (omega arith))
