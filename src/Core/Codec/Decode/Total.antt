-- ===== src/Core/Codec/Decode/Total.antt =====
-- `decode_item` on any raw item.
use dlep.Base.{
  ℕ, ◌^◌, ◌≤◌, ◌<◌, Octets, IsOctets, length, ◌≡◌, ◌≢◌, ◌⊎◌, to_be_bytes, refl, sym, subst, [], ◌∷◌,
  arith, ◌==◌, ==_iff, inl, inr, Meets, if_rule, if◌then◌else◌,
}
use dlep.Core.Metrics.{from_micros}
use dlep.Core.Error.{CodecError, CodecResult, Field}
use dlep.Core.Ipnet.{Ipnet, IpnetLaws}
use dlep.Core.Item.{RawDataItem, DataItem}
use dlep.Core.Codec.Decode.{
  decode_item, decode_metric, decode_ipv4_connection_point, decode_ipv6_connection_point,
  decode_ipv4_address, decode_ipv6_address, decode_ipv4_subnet, decode_ipv6_subnet,
}
use dlep.Core.Codec.Decode.Sound.{
  IsDecoded, Sound, decode_status-Sound, decode_peer_type-Sound, connection_point-Sound,
}
use dlep.Core.Codec.Decode.FixedSound.{
  decode_heartbeat-Sound, decode_extensions-Sound, decode_mac-Sound, address-Sound,
  attached_subnet-Sound, decode_u64-Sound, decode_percent_item-Sound, decode_mtu-Sound,
}
use dlep.Base.{length-append, length-to_be_bytes, ap}
use dlep.Core.Metrics.{as_micros}
use dlep.Core.Codec.Wire.{port_octets}
use dlep.Base.{◌∙◌}

module _ ⦃ip : Ipnet⦄ where
  -- One arm of the match, taken when the type id is `t`.
  arm :
      (kind t : ℕ) (v : Octets) (x y : CodecResult DataItem)
      → Sound t v x
      → (kind ≢ t → Sound kind v y)
      → Sound kind v (if kind == t then x else y)
  arm kind t v x y h k =
      if_rule (Meets {E = CodecError} (IsDecoded kind (length v))) (kind == t)
        (λ e. subst (λ n. Sound n v x) (sym ((==_iff kind t).0 e)) h) (λ e. k (λ p. ground arith))

  short : (n : ℕ) → length (to_be_bytes 8 n) ≡ 8
  short n = length-to_be_bytes 8 n

  latency_IsDecoded :
      (n us : ℕ) → us < 2 ^ 64 → n ≡ 8 → IsDecoded 16 n (DataItem.latency (from_micros us))
  latency_IsDecoded n us h e =
      let exact : as_micros (from_micros us) ≡ us = omega arith in
      (
        refl,
        tt,
        (omega arith, short (as_micros (from_micros us)) ∙ sym e),
        ap (λ (k : ℕ). DataItem.latency (from_micros k)) exact,
      )

  module _ (laws : IpnetLaws ip) where
    decode_metric-Sound :
        (raw : RawDataItem)
        → IsOctets raw.value
        → length raw.value ≤ 65535
        → 11 < raw.type_id ⊎ (raw.type_id ≡ 0)
        → raw.type_id < 65536
        → Sound raw.type_id raw.value (decode_metric raw.type_id raw)
    unfolding decode_metric
    decode_metric-Sound raw h le foreign u16 =
        let kind = raw.type_id in
        let v = raw.value in
        arm kind 12 v _ _
          (decode_u64-Sound 12 DataItem.max_data_rate_receive kind v
            (λ n hn e. (refl, hn, (tt, short n ∙ sym e), refl)) h)
          λ n12.
            arm kind 13 v _ _
              (decode_u64-Sound 13 DataItem.max_data_rate_transmit kind v
                (λ n hn e. (refl, hn, (tt, short n ∙ sym e), refl)) h)
              λ n13.
                arm kind 14 v _ _
                  (decode_u64-Sound 14 DataItem.current_data_rate_receive kind v
                    (λ n hn e. (refl, hn, (tt, short n ∙ sym e), refl)) h)
                  λ n14.
                    arm kind 15 v _ _
                      (decode_u64-Sound 15 DataItem.current_data_rate_transmit kind v
                        (λ n hn e. (refl, hn, (tt, short n ∙ sym e), refl)) h)
                      λ n15.
                        arm kind 16 v _ _
                          (decode_u64-Sound 16 (λ us. DataItem.latency (from_micros us)) kind v
                            (latency_IsDecoded (length v)) h)
                          λ n16.
                            arm kind 17 v _ _
                              (decode_percent_item-Sound 17 DataItem.resources Field.resources kind
                                v (λ n hn e. (refl, omega arith, (hn, sym e), refl)) h)
                              λ n17.
                                arm kind 18 v _ _
                                  (decode_percent_item-Sound 18
                                    DataItem.relative_link_quality_receive Field.rlq_receive kind v
                                    (λ n hn e. (refl, omega arith, (hn, sym e), refl)) h)
                                  λ n18.
                                    arm kind 19 v _ _
                                      (decode_percent_item-Sound 19
                                        DataItem.relative_link_quality_transmit Field.rlq_transmit
                                        kind v (λ n hn e. (refl, omega arith, (hn, sym e), refl)) h)
                                      λ n19. arm kind 20 v _ _ (decode_mtu-Sound kind v h) λ n20. (
                                        refl,
                                        (
                                          elim foreign [
                                            | inl big ↦ inr (omega arith)
                                            | inr z ↦ inl z
                                          ],
                                          u16,
                                          h,
                                        ),
                                        (tt, refl),
                                        refl,
                                      )

    -- Under the documented laws of ipnet, decoding a value field of at most 65535 octets never
    -- panics, and an item that it accepts has the type of the field, is within its Rust types, is
    -- as it appears on the wire and has a value field of the same length.
    pub decode_item-Sound :
        (raw : RawDataItem)
        → raw.type_id < 65536
        → IsOctets raw.value
        → length raw.value ≤ 65535
        → Sound raw.type_id raw.value (decode_item raw)
    unfolding decode_item decode_ipv4_connection_point decode_ipv6_connection_point
        decode_ipv4_address decode_ipv6_address decode_ipv4_subnet decode_ipv6_subnet
    decode_item-Sound raw u16 h le =
        let kind = raw.type_id in
        let v = raw.value in
        arm kind 1 v _ _ (decode_status-Sound kind v h le) λ n1.
          arm kind 2 v _ _
            (connection_point-Sound 4 2 DataItem.ipv4_connection_point kind v
              (λ f a p ha hp e.
                (refl, (ha, hp), (tt, omega (arith, length-append {0} a (port_octets p))), refl))
              h)
            λ n2.
              arm kind 3 v _ _
                (connection_point-Sound 16 3 DataItem.ipv6_connection_point kind v
                  (λ f a p ha hp e. (
                    refl,
                    (ha, hp),
                    (tt, omega (arith, length-append {0} a (port_octets p))),
                    refl,
                  ))
                  h)
                λ n3. arm kind 4 v _ _ (decode_peer_type-Sound kind v h le) λ n4.
                  arm kind 5 v _ _ (decode_heartbeat-Sound kind v h) λ n5.
                    arm kind 6 v _ _ (decode_extensions-Sound kind v h le) λ n6.
                      arm kind 7 v _ _ (decode_mac-Sound kind v h) λ n7.
                        arm kind 8 v _ _
                          (address-Sound 4 8 DataItem.ipv4_address kind v
                            (λ f a ha e. (refl, ha, (tt, omega arith), refl)) h)
                          λ n8.
                            arm kind 9 v _ _
                              (address-Sound 16 9 DataItem.ipv6_address kind v
                                (λ f a ha e. (refl, ha, (tt, omega arith), refl)) h)
                              λ n9.
                                arm kind 10 v _ _
                                  (attached_subnet-Sound 4 32 10 ip.v4 _
                                    DataItem.ipv4_attached_subnet kind v laws.v4
                                    (λ f n hn e l. (
                                      refl,
                                      hn,
                                      (
                                        tt,
                                        omega (
                                          arith,
                                          length-append {0} (ip.v4.network n) (n.prefix_len ∷ []),
                                          (laws.v4.network_addr n (hn.0)).0,
                                        ),
                                      ),
                                      ap (DataItem.ipv4_attached_subnet f) e,
                                    ))
                                    h)
                                  λ n10.
                                    arm kind 11 v _ _
                                      (attached_subnet-Sound 16 128 11 ip.v6 _
                                        DataItem.ipv6_attached_subnet kind v laws.v6
                                        (λ f n hn e l. (
                                          refl,
                                          hn,
                                          (
                                            tt,
                                            omega (
                                              arith,
                                              length-append {0} (ip.v6.network n)
                                                  (n.prefix_len ∷ []),
                                              (laws.v6.network_addr n (hn.0)).0,
                                            ),
                                          ),
                                          ap (DataItem.ipv6_attached_subnet f) e,
                                        ))
                                        h)
                                      λ n11. decode_metric-Sound raw h le (ground arith) u16
