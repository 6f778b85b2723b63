-- ===== src/Core/Codec/Raw.antt =====
-- The helpers of codec.rs and `RawDataItem`. A byte buffer (`Bytes`, `BytesMut`, `&[u8]`) is the
-- list of its octets.
use dlep.Base.{
  ℕ, ◌+◌, Octets, length, get_elem?, take, drop, from_be_bytes, ok, err, panic, ◌>>=◌, ◌>>◌,
  if◌then◌else◌, ltb, leb, ◌==◌, [], ◌∷◌, none, some,
}
use dlep.Core.Ids.{DataItemType}
use dlep.Core.Error.{CodecResult, Field, truncated, invalid_data_item_length, out_of_range, exact}
use dlep.Core.Item.{RawDataItem}

-- `v[i]`, which panics out of range.
unfoldable pub index : Octets → ℕ → CodecResult ℕ
index v i = elim (get_elem? v i) [ none ↦ panic | some b ↦ ok b ]

-- `v[lo..lo + n]`.
unfoldable pub slice : Octets → ℕ → ℕ → CodecResult Octets
slice v lo n = if leb (lo + n) (length v) then ok (take n (drop lo v)) else panic

unfoldable pub ensure_len : ℕ → ℕ → CodecResult (Unit {0})
ensure_len have needed = if ltb have needed then err (truncated needed have) else ok tt

unfoldable pub expect_exact : DataItemType → ℕ → ℕ → CodecResult (Unit {0})
expect_exact kind got expected =
    if got == expected then ok tt else err (invalid_data_item_length kind (exact expected) got)

-- `u16::try_from` refuses what does not fit.
unfoldable pub u16_length : Field → ℕ → CodecResult ℕ
u16_length field len = if leb len 65535 then ok len else err (out_of_range field len)

-- `Buf::get_u16` and `split_to`, which panic on a buffer that is too short.
unfoldable pub get_u16 : Octets → CodecResult (ℕ × Octets)
get_u16 (a ∷ b ∷ src) = ok (from_be_bytes (a ∷ b ∷ []), src)
get_u16 _ = panic

unfoldable pub split_to : Octets → ℕ → CodecResult (Octets × Octets)
split_to src n = if leb n (length src) then ok (take n src, drop n src) else panic

-- `RawDataItem::decode`: the item, and what is left of the buffer.
unfoldable pub decode_raw : Octets → CodecResult (RawDataItem × Octets)
decode_raw src = do
  ensure_len (length src) 4
  (type_id, src₁) ← get_u16 src
  (len, src₂) ← get_u16 src₁
  ensure_len (length src₂) len
  (value, rest) ← split_to src₂ len
  ok (record { type_id = type_id; value = value }, rest)
