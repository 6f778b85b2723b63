-- ===== src/Core/Codec/Slices.antt =====
-- How the reading helpers of codec.rs act on an octet string whose parts are known.
use dlep.Base.{
  ℕ, zero, suc, ◌+◌, ◌≤◌, ◌<◌, Octets, length, to_be_bytes, ok, [], ◌∷◌, ◌++◌, ◌≡◌, refl, sym, ap,
  ◌∙◌, arith, length-append, take-append, drop-append, take-length, length-to_be_bytes, le→leb,
  ==_iff, from_be_bytes-to_be_bytes, append_assoc, append-nil,
}
use dlep.Core.Ids.{DataItemType}
use dlep.Core.Codec.Raw.{index, slice, ensure_len, expect_exact, get_u16, split_to, decode_raw}
use dlep.Core.Codec.Wire.{tlv}

pub index-after : (a r : Octets) (x n : ℕ) → length a ≡ n → index (a ++ (x ∷ r)) n ≡ ok x
unfolding index
index-after [] r x zero h = refl
index-after [] r x (suc n) h = absurd (omega arith)
index-after (y ∷ a) r x zero h = absurd (omega arith)
index-after (y ∷ a) r x (suc n) h = index-after a r x n (omega arith)

-- Position `n + 1` behind a flag octet.
pub index-after_flag :
    (a r : Octets) (flag x n : ℕ) → length a ≡ n → index (flag ∷ (a ++ (x ∷ r))) (n + 1) ≡ ok x
index-after_flag a r flag x n h = index-after (flag ∷ a) r x (n + 1) (omega arith)

-- Position `n + 2` behind a flag octet.
pub index-after_two :
    (a : Octets) (flag x y n : ℕ)
    → length a ≡ n
    → index (flag ∷ (a ++ (x ∷ y ∷ []))) (n + 1 + 1) ≡ ok y
index-after_two a flag x y n h = rw (append_assoc (flag ∷ a) (x ∷ []) (y ∷ [])) at (
    index-after ((flag ∷ a) ++ (x ∷ [])) [] y (n + 1 + 1)
      (omega (arith, length-append {0} a (x ∷ []))))

pub slice_all : (v : Octets) (n : ℕ) → length v ≡ n → slice v 0 n ≡ ok v
unfolding slice
slice_all v n h = rw (← h, le→leb (0 + length v) (length v) (omega arith)) (rw take-length)

pub slice-after_flag :
    (a r : Octets) (flag n : ℕ) → length a ≡ n → slice (flag ∷ (a ++ r)) 1 n ≡ ok a
unfolding slice
slice-after_flag a r flag n h =
    rw (← h, le→leb (1 + length a) (suc (length (a ++ r))) (omega (arith, length-append {0} a r)))
      (rw take-append)

pub expect_exact_ok : (kind : DataItemType) (n k : ℕ) → n ≡ k → expect_exact kind n k ≡ ok tt
unfolding expect_exact
expect_exact_ok kind n k h = rw ((==_iff n k).1 h)

pub get_u16-to_be_bytes :
    (n : ℕ) (r : Octets) → n < 65536 → get_u16 (to_be_bytes 2 n ++ r) ≡ ok (n, r)
unfolding get_u16 to_be_bytes
get_u16-to_be_bytes n r h = ap (λ (k : ℕ). ok (k, r)) (from_be_bytes-to_be_bytes 2 n h)

pub ensure_len_ok : (have needed : ℕ) → needed ≤ have → ensure_len have needed ≡ ok tt
unfolding ensure_len
ensure_len_ok have needed h = ground arith

pub split_to-append : (v r : Octets) (n : ℕ) → length v ≡ n → split_to (v ++ r) n ≡ ok (v, r)
unfolding split_to
split_to-append v r n h =
    rw (← h, le→leb (length v) (length (v ++ r)) (omega (arith, length-append {0} v r)))
      (rw (take-append, drop-append))

pub split_to_all : (v : Octets) (n : ℕ) → length v ≡ n → split_to v n ≡ ok (v, [])
split_to_all v n h =
    ap (λ (w : Octets). split_to w n) (sym (append-nil v)) ∙ split_to-append v [] n h

-- Two 16-bit fields take four octets.
pub room : (a b : ℕ) (r : Octets) → 4 ≤ length (to_be_bytes 2 a ++ (to_be_bytes 2 b ++ r))
room a b r = omega (
  arith,
  length-append {0} (to_be_bytes 2 a) (to_be_bytes 2 b ++ r),
  length-append {0} (to_be_bytes 2 b) r,
  length-to_be_bytes 2 a,
  length-to_be_bytes 2 b,
)

-- `decode_raw` reads back one TLV, and leaves what follows it.
pub decode_raw-tlv :
    (t : DataItemType) (v r : Octets)
    → t < 65536
    → length v ≤ 65535
    → decode_raw (tlv t v ++ r) ≡ ok (record { type_id = t; value = v }, r)
unfolding decode_raw tlv
decode_raw-tlv t v r ht hv =
    let tail = v ++ r in
    let flat : tlv t v ++ r ≡ to_be_bytes 2 t ++ (to_be_bytes 2 (length v) ++ tail) =
      simp append_assoc in
    rw (
      flat,
      ensure_len_ok _ 4 (room t (length v) tail),
      get_u16-to_be_bytes t (to_be_bytes 2 (length v) ++ tail) ht,
      get_u16-to_be_bytes (length v) tail (omega arith),
      ensure_len_ok (length tail) (length v) (omega (arith, length-append {0} v r)),
      split_to-append v r (length v) refl,
    )
