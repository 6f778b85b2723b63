-- ===== src/Core/Codec/Decode/FixedSound.antt =====
-- The arms of `DataItem::decode` on any value field of a fixed length.
use dlep.Base.{
  ℕ, suc, ◌+◌, ◌%◌, ◌/◌, ◌^◌, ◌≤◌, ◌<◌, Octets, IsByte, IsOctets, length, All, to_be_bytes,
  from_be_bytes, ltb, leb, [], ◌∷◌, ◌≡◌, refl, ap, arith, Bool, not, ◌==◌, inl, inr, Bool-cases,
  from_be_bytes-lt, length-append, length-to_be_bytes, Meets, Meets-bind, if_rule,
}
use dlep.Core.Ids.{DataItemType}
use dlep.Core.Error.{CodecError, Field}
use dlep.Core.Ipnet.{Ipnet, IpNet, NetOps, NetLaws, IsAddr, trunc}
use dlep.Core.Item.{DataItem}
use dlep.Core.Mac.{as_bytes}
use dlep.Core.Codec.Raw.{index, slice, expect_exact}
use dlep.Core.Codec.Encode.{check_percent}
use dlep.Core.Codec.Decode.{
  validate_flags, low_flag, decode_heartbeat, read_ids, decode_extensions, decode_mac, address,
  truncated_net, attached_subnet, decode_u64, decode_percent, decode_percent_item, decode_mtu,
}
use dlep.Core.Codec.Wire.{IsU16, IsNet, id_octets}
use dlep.Core.Codec.Decode.Sound.{
  index-Meets, slice-Meets, Part, Nothing, validate_flags-Meets, expect_exact-Meets, from_two-IsU16,
  IsDecoded, Sound,
}
use dlep.Core.Metrics.{from_millis}

module _ ⦃ip : Ipnet⦄ where
  pub decode_heartbeat-Sound :
      (kind : DataItemType) (v : Octets) → IsOctets v → Sound 5 v (decode_heartbeat kind v)
  unfolding decode_heartbeat
  decode_heartbeat-Sound kind v h =
      Meets-bind _ (IsDecoded 5 (length v)) (expect_exact kind (length v) 4) _
        (expect_exact-Meets kind (length v) 4)
        λ _ e.
          Meets-bind (Part 4) (IsDecoded 5 (length v)) (slice v 0 4) _
            (slice-Meets v 0 4 h (omega arith))
            λ w hw.
              let ms = from_be_bytes w in
              let fits : ms < 2 ^ 32 = rw hw.0 at (from_be_bytes-lt w (hw.1)) in
              if_rule (Meets {E = CodecError} (IsDecoded 5 (length v))) (ltb ms 1000) (λ _. tt)
                λ big.
                  let exact : from_millis ms / 1_000_000 ≡ ms = omega arith in
                  (
                    refl,
                    tt,
                    (
                      rw exact (ground arith, ground arith),
                      omega (arith, length-to_be_bytes 4 (from_millis ms / 1_000_000)),
                    ),
                    ap (λ (k : ℕ). DataItem.heartbeat_interval (from_millis k)) exact,
                  )

  read_ids-Meets :
      (v : Octets)
      → IsOctets v
      → length v % 2 ≡ 0
      → Meets (λ ids. All IsU16 ids × (length (id_octets ids) ≡ length v)) (read_ids v)
  unfolding read_ids
  read_ids-Meets [] h e = (tt, refl)
  read_ids-Meets (a ∷ []) h e = absurd (omega arith)
  read_ids-Meets (a ∷ b ∷ v) h e =
      Meets-bind _ (λ ids. All IsU16 ids × (length (id_octets ids) ≡ suc (suc (length v))))
        (read_ids v) _ (read_ids-Meets v (h.1.1) (omega arith))
        λ ids hi.
          let n = from_be_bytes (a ∷ b ∷ []) in
          (
            (from_two-IsU16 a b (h.0) (h.1.0), hi.0),
            omega (
              arith,
              length-append {0} (to_be_bytes 2 n) (id_octets ids),
              length-to_be_bytes 2 n,
            ),
          )

  pub decode_extensions-Sound :
      (kind : DataItemType) (v : Octets)
      → IsOctets v
      → length v ≤ 65535
      → Sound 6 v (decode_extensions kind v)
  unfolding decode_extensions
  decode_extensions-Sound kind v h le =
      if_rule (Meets {E = CodecError} (IsDecoded 6 (length v))) (not (length v % 2 == 0)) (λ _. tt)
        λ e.
          Meets-bind _ (IsDecoded 6 (length v)) (read_ids v) _ (read_ids-Meets v h (ground arith))
            λ ids hi. (refl, hi.0, (tt, omega arith), refl)

  pub decode_mac-Sound :
      (kind : DataItemType) (v : Octets) → IsOctets v → Sound 7 v (decode_mac kind v)
  unfolding decode_mac as_bytes
  decode_mac-Sound kind v h =
      if_rule (Meets {E = CodecError} (IsDecoded 7 (length v))) (length v == 6)
        (λ e.
          Meets-bind (Part 6) (IsDecoded 7 (length v)) (slice v 0 6) _
            (slice-Meets v 0 6 h (ground arith)) λ w hw. (refl, hw, (tt, ground arith), refl))
        λ _.
          if_rule (Meets {E = CodecError} (IsDecoded 7 (length v))) (length v == 8)
            (λ e.
              Meets-bind (Part 8) (IsDecoded 7 (length v)) (slice v 0 8) _
                (slice-Meets v 0 8 h (ground arith)) λ w hw. (refl, hw, (tt, ground arith), refl))
            (λ _. tt)

  pub address-Sound :
      (n t : ℕ) (build : Bool → Octets → DataItem) (kind : DataItemType) (v : Octets)
      → ((add : Bool) (addr : Octets)
          → IsAddr n addr
          → length v ≡ n + 1
          → IsDecoded t (length v) (build add addr))
      → IsOctets v
      → Sound t v (address n build kind v)
  unfolding address
  address-Sound n t build kind v make h =
      Meets-bind _ (IsDecoded t (length v)) (expect_exact kind (length v) (n + 1)) _
        (expect_exact-Meets kind (length v) (n + 1))
        λ _ e.
          Meets-bind IsByte (IsDecoded t (length v)) (index v 0) _ (index-Meets v 0 h (omega arith))
            λ byte hb.
              Meets-bind Nothing (IsDecoded t (length v)) (validate_flags byte) _
                (validate_flags-Meets byte)
                λ _ _.
                  Meets-bind (Part n) (IsDecoded t (length v)) (slice v 1 n) _
                    (slice-Meets v 1 n h (omega arith)) λ addr ha. make (low_flag byte) addr ha e

  truncated_net-Meets :
      (n bits : ℕ) (ops : NetOps) (field : Field) (addr : Octets) (p : ℕ)
      → NetLaws n bits ops
      → IsAddr n addr
      → Meets (λ net. IsNet n bits net × (trunc ops net ≡ net)) (truncated_net ops field addr p)
  unfolding truncated_net
  truncated_net-Meets n bits ops field addr p laws ha = elim (Bool-cases (leb p bits)) [
    | inr e ↦ rw (laws.new_err addr p (ground arith), truncated_net) tt
    | inl e ↦
        let net : IpNet = record { addr = addr; prefix_len = p } in
        rw (laws.new_ok addr p (ground arith), truncated_net)
          (
            (laws.network_addr net ha, ground arith),
            ap (λ (a : Octets). record { addr = a; prefix_len = p }) (laws.network_trunc net),
          )
  ]

  pub attached_subnet-Sound :
      (n bits t : ℕ) (ops : NetOps) (field : Field) (build : Bool → IpNet → DataItem)
      (kind : DataItemType) (v : Octets)
      → NetLaws n bits ops
      → ((add : Bool) (net : IpNet)
          → IsNet n bits net
          → trunc ops net ≡ net
          → length v ≡ n + 2
          → IsDecoded t (length v) (build add net))
      → IsOctets v
      → Sound t v (attached_subnet n ops field build kind v)
  unfolding attached_subnet
  attached_subnet-Sound n bits t ops field build kind v laws make h =
      Meets-bind _ (IsDecoded t (length v)) (expect_exact kind (length v) (n + 2)) _
        (expect_exact-Meets kind (length v) (n + 2))
        λ _ e.
          Meets-bind IsByte (IsDecoded t (length v)) (index v 0) _ (index-Meets v 0 h (omega arith))
            λ byte hb.
              Meets-bind Nothing (IsDecoded t (length v)) (validate_flags byte) _
                (validate_flags-Meets byte)
                λ _ _.
                  Meets-bind (Part n) (IsDecoded t (length v)) (slice v 1 n) _
                    (slice-Meets v 1 n h (omega arith))
                    λ addr ha.
                      Meets-bind IsByte (IsDecoded t (length v)) (index v (n + 1)) _
                        (index-Meets v (n + 1) h (omega arith))
                        λ p hp.
                          Meets-bind _ (IsDecoded t (length v)) (truncated_net ops field addr p) _
                            (truncated_net-Meets n bits ops field addr p laws ha)
                            λ net hn. make (low_flag byte) net (hn.0) (hn.1) e

  pub decode_u64-Sound :
      (t : ℕ) (build : ℕ → DataItem) (kind : DataItemType) (v : Octets)
      → ((n : ℕ) → n < 2 ^ 64 → length v ≡ 8 → IsDecoded t (length v) (build n))
      → IsOctets v
      → Sound t v (decode_u64 build kind v)
  unfolding decode_u64
  decode_u64-Sound t build kind v make h =
      Meets-bind _ (IsDecoded t (length v)) (expect_exact kind (length v) 8) _
        (expect_exact-Meets kind (length v) 8)
        λ _ e.
          Meets-bind (Part 8) (IsDecoded t (length v)) (slice v 0 8) _
            (slice-Meets v 0 8 h (omega arith))
            λ w hw. make (from_be_bytes w) (rw hw.0 at (from_be_bytes-lt w (hw.1))) e

  pub decode_percent_item-Sound :
      (t : ℕ) (build : ℕ → DataItem) (field : Field) (kind : DataItemType) (v : Octets)
      → ((n : ℕ) → n ≤ 100 → length v ≡ 1 → IsDecoded t (length v) (build n))
      → IsOctets v
      → Sound t v (decode_percent_item build field kind v)
  unfolding decode_percent_item decode_percent expect_exact index check_percent
  decode_percent_item-Sound t build field kind [] make h = tt
  decode_percent_item-Sound t build field kind (b ∷ c ∷ v) make h = ground arith
  decode_percent_item-Sound t build field kind (b ∷ []) make h = elim (Bool-cases (ltb 100 b)) [
    | inl e ↦ rw e tt
    | inr e ↦ rw e (make b (ground arith) refl)
  ]

  pub decode_mtu-Sound :
      (kind : DataItemType) (v : Octets) → IsOctets v → Sound 20 v (decode_mtu kind v)
  unfolding decode_mtu
  decode_mtu-Sound kind v h =
      Meets-bind _ (IsDecoded 20 (length v)) (expect_exact kind (length v) 2) _
        (expect_exact-Meets kind (length v) 2)
        λ _ e.
          Meets-bind (Part 2) (IsDecoded 20 (length v)) (slice v 0 2) _
            (slice-Meets v 0 2 h (omega arith))
            λ w hw.
              let n = from_be_bytes w in
              (
                refl,
                rw hw.0 at (from_be_bytes-lt w (hw.1)),
                (tt, omega (arith, length-to_be_bytes 2 n)),
                refl,
              )
