-- ===== src/Core/Codec/Decode/Sound.antt =====
-- The arms of `DataItem::decode` on any value field: status, peer type, connection points and
-- extensions.
use dlep.Base.{
  ℕ, zero, suc, ◌+◌, ◌≤◌, ◌<◌, Octets, IsByte, IsOctets, length, drop, from_be_bytes, ok, ltb, leb,
  [], ◌∷◌, ◌≡◌, refl, arith, Option, not, ◌&&◌, ◌==◌, inl, inr, length-take, length-drop, All-take,
  All-drop, Bool-cases, from_be_bytes-lt, length-to_be_bytes, Meets, Meets-bind, if_rule,
  if◌then◌else◌,
}
use dlep.Core.Ids.{DataItemType}
use dlep.Core.Error.{CodecResult, CodecError}
use dlep.Core.Ipnet.{Ipnet, IsAddr}
use dlep.Core.Item.{DataItem, ConnectionPointFlags, type_id_of}
use dlep.Core.Utf8.{is_utf8}
use dlep.Core.Codec.Raw.{index, slice, expect_exact}
use dlep.Core.Codec.Decode.{
  validate_flags, low_flag, text_after_first, optional_port, decode_status, decode_peer_type,
  connection_point,
}
use dlep.Core.Codec.Wire.{
  IsItem, InRange, value_octets, on_the_wire, IsText, IsPort, IsU16, port_octets,
}

pub index-Meets : (v : Octets) (i : ℕ) → IsOctets v → i < length v → Meets IsByte (index v i)
unfolding index
index-Meets [] i h lt = absurd (omega arith)
index-Meets (b ∷ v) zero h lt = h.0
index-Meets (b ∷ v) (suc i) h lt = index-Meets v i (h.1) (omega arith)

-- `n` octets of the string.
abbrev pub Part : ℕ → Octets → Type 0
Part n w = (length w ≡ n) × IsOctets w

pub slice-Meets :
    (v : Octets) (lo n : ℕ) → IsOctets v → lo + n ≤ length v → Meets (Part n) (slice v lo n)
unfolding slice
slice-Meets v lo n h le = elim (Bool-cases (leb (lo + n) (length v))) [
  | inl e ↦ rw e (
    length-take n (drop lo v) (omega (arith, length-drop {0} lo v)),
    All-take IsByte n (drop lo v) (All-drop IsByte lo v h),
  )
  | inr e ↦ absurd (ground arith)
]

abbrev pub Nothing : {A : Type 0} → A → Type 0
Nothing a = Unit {0}

pub validate_flags-Meets : (b : ℕ) → Meets Nothing (validate_flags b)
unfolding validate_flags
validate_flags-Meets b = ground arith

-- The length is as expected on the way on.
pub expect_exact-Meets :
    (kind : DataItemType) (n k : ℕ) → Meets (λ (u : Unit {0}). n ≡ k) (expect_exact kind n k)
unfolding expect_exact
expect_exact-Meets kind n k =
    if_rule (Meets (λ (u : Unit {0}). n ≡ k)) (n == k) (λ e. ground arith) (λ _. tt)

text_after_first-Meets :
    (b : ℕ) (t : Octets)
    → IsOctets (b ∷ t)
    → Meets (λ w. IsText w × (length w ≡ length t)) (text_after_first (b ∷ t))
unfolding text_after_first
text_after_first-Meets b t h =
    if_rule (Meets (λ w. IsText w × (length w ≡ length t))) (is_utf8 t) (λ e. ((h.1, e), refl))
      (λ _. tt)

pub from_two-IsU16 : (hi lo : ℕ) → IsByte hi → IsByte lo → IsU16 (from_be_bytes (hi ∷ lo ∷ []))
from_two-IsU16 hi lo a b = from_be_bytes-lt (hi ∷ lo ∷ []) (a, (b, tt))

module _ ⦃ip : Ipnet⦄ where
  -- What `DataItem::decode` promises of an item that it makes from type id `t` and `n` octets.
  abbrev pub IsDecoded : DataItemType → ℕ → DataItem → Type 0
  IsDecoded t n item =
      (type_id_of item ≡ t)
      × IsItem item
      × (InRange item × (length (value_octets item) ≡ n))
      × (on_the_wire item ≡ item)

  abbrev pub Sound : DataItemType → Octets → CodecResult DataItem → Type 0
  Sound t v r = Meets (IsDecoded t (length v)) r

  pub decode_status-Sound :
      (kind : DataItemType) (v : Octets)
      → IsOctets v
      → length v ≤ 65535
      → Sound 1 v (decode_status kind v)
  unfolding decode_status index
  decode_status-Sound kind [] h le = tt
  decode_status-Sound kind (c ∷ t) h le =
      if_rule (Meets {E = CodecError} (IsDecoded 1 (length (c ∷ t)))) (ltb (length (c ∷ t)) 1)
        (λ _. tt)
        λ _.
          Meets-bind _ (IsDecoded 1 (length (c ∷ t))) (text_after_first (c ∷ t))
            (λ w. ok (DataItem.status c w)) (text_after_first-Meets c t h)
            (λ w hw. (refl, (h.0, hw.0), (tt, omega arith), refl))

  pub decode_peer_type-Sound :
      (kind : DataItemType) (v : Octets)
      → IsOctets v
      → length v ≤ 65535
      → Sound 4 v (decode_peer_type kind v)
  unfolding decode_peer_type index
  decode_peer_type-Sound kind [] h le = tt
  decode_peer_type-Sound kind (c ∷ t) h le =
      if_rule (Meets {E = CodecError} (IsDecoded 4 (length (c ∷ t)))) (ltb (length (c ∷ t)) 1)
        (λ _. tt)
        λ _.
          Meets-bind _ (IsDecoded 4 (length (c ∷ t))) (validate_flags c) _ (validate_flags-Meets c)
            λ _ _.
              Meets-bind _ (IsDecoded 4 (length (c ∷ t))) (text_after_first (c ∷ t)) _
                (text_after_first-Meets c t h) λ w hw. (refl, hw.0, (tt, omega arith), refl)

  abbrev Port : ℕ → Option ℕ → Type 0
  Port k port = IsPort port × (length (port_octets port) ≡ k)

  -- A port is there if the value has length `n`.
  abbrev PortOf : Octets → ℕ → Option ℕ → Type 0
  PortOf v n = Port (if length v == n then 2 else 0)

  optional_port-Meets :
      (v : Octets) (n at : ℕ) → IsOctets v → at + 2 ≤ n → Meets (PortOf v n) (optional_port v n at)
  unfolding optional_port
  optional_port-Meets v n at h le = elim (Bool-cases (length v == n)) [
    | inr e ↦ rw e (tt, refl)
    | inl e ↦ rw e (
        Meets-bind IsByte (Port 2) (index v at) _ (index-Meets v at h (ground arith)) λ hi hh.
          Meets-bind IsByte (Port 2) (index v (at + 1)) _ (index-Meets v (at + 1) h (ground arith))
            λ lo hl.
              (from_two-IsU16 hi lo hh hl, length-to_be_bytes 2 (from_be_bytes (hi ∷ lo ∷ []))))
  ]

  pub connection_point-Sound :
      (n t : ℕ) (build : ConnectionPointFlags → Octets → Option ℕ → DataItem) (kind : DataItemType)
      (v : Octets)
      → ((flags : ConnectionPointFlags) (addr : Octets) (port : Option ℕ)
          → IsAddr n addr
          → IsPort port
          → length v ≡ n + 1 + length (port_octets port)
          → IsDecoded t (length v) (build flags addr port))
      → IsOctets v
      → Sound t v (connection_point n build kind v)
  unfolding connection_point
  connection_point-Sound n t build kind v make h =
      if_rule (Meets {E = CodecError} (IsDecoded t (length v)))
        (not (length v == n + 1) && not (length v == n + 3)) (λ _. tt)
        λ e.
          Meets-bind IsByte (IsDecoded t (length v)) (index v 0) _
            (index-Meets v 0 h (ground arith))
            λ byte hb.
              Meets-bind Nothing (IsDecoded t (length v)) (validate_flags byte) _
                (validate_flags-Meets byte)
                λ _ _.
                  Meets-bind (Part n) (IsDecoded t (length v)) (slice v 1 n) _
                    (slice-Meets v 1 n h (ground arith))
                    λ addr ha.
                      Meets-bind (PortOf v (n + 3)) (IsDecoded t (length v))
                        (optional_port v (n + 3) (n + 1)) _
                        (optional_port-Meets v (n + 3) (n + 1) h (omega arith))
                        λ port hp.
                          make (record { use_tls = low_flag byte }) addr port ha (hp.0)
                            (ground arith)
