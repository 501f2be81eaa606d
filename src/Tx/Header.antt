-- ===== src/Tx/Header.antt =====
-- The headers that afxdp_tx_send (src/afxdp/afxdp_tx.c) puts on a datagram.
use low_latency_trading_pipe.Base.{
  ℕ, ◌+◌, ◌*◌, ◌/◌, ◌%◌, ◌^◌, ◌≤◌, ◌<◌, ◌≡◌, ap, ap₂, ◌∙◌, List, [], ◌∷◌, ◌++◌, arith, length,
  AllBytes, put16,
}
use low_latency_trading_pipe.Wire.{le16, le32}
use low_latency_trading_pipe.Wire.Checksum.{word_sum}
use low_latency_trading_pipe.Checksum.{cksum_fold16, cksum_partial_simd, not16, ip_checksum}
use low_latency_trading_pipe.Checksum.Fold.{csum_replace2_lem, cksum_fold16_lem}
use low_latency_trading_pipe.Checksum.Lanes.{cksum_partial_lem, cksum_partial_simd_agrees}
use low_latency_trading_pipe.Tx.{
  Config, IpHeader, encode_ip, build_ip, patch_ip, htons, ip_hdr_len, udp_hdr_len, encode_udp,
  UdpHeader, patch_udp, pseudo_sum, max_payload,
}

-- The words of a header with a blank checksum, less the one of the length.
abbrev other_words : Config → ℕ
other_words cfg =
    0x45
    + (64 + 17 * 2 ^ 8)
    + (cfg.src_ip_be % 2 ^ 16 + cfg.src_ip_be / 2 ^ 16 % 2 ^ 16)
    + (cfg.dst_ip_be % 2 ^ 16 + cfg.dst_ip_be / 2 ^ 16 % 2 ^ 16)

abbrev blank_ip : Config → ℕ → IpHeader
blank_ip cfg tot_len = record {
  version_ihl = 0x45;
  tos = 0;
  tot_len = tot_len;
  id = 0;
  frag_off = 0;
  ttl = 64;
  protocol = 17;
  check = 0;
  saddr = cfg.src_ip_be;
  daddr = cfg.dst_ip_be;
}

blank_ip-words :
    (cfg : Config) (tot_len : ℕ)
    → tot_len < 2 ^ 16
    → word_sum (encode_ip (blank_ip cfg tot_len)) ≡ other_words cfg + tot_len
unfolding encode_ip word_sum
blank_ip-words cfg tot_len h = omega arith

blank_ip-AllBytes : (cfg : Config) (tot_len : ℕ) → AllBytes (encode_ip (blank_ip cfg tot_len))
unfolding encode_ip
blank_ip-AllBytes cfg tot_len = ground arith

blank_ip-checksum :
    (cfg : Config) (tot_len : ℕ)
    → tot_len < 2 ^ 16
    → ip_checksum (encode_ip (blank_ip cfg tot_len))
      ≡ not16 (cksum_fold16 (other_words cfg + tot_len))
unfolding ip_checksum
blank_ip-checksum cfg tot_len h =
    let p = encode_ip (blank_ip cfg tot_len) in
    let sum : cksum_partial_simd 0 p ≡ other_words cfg + tot_len =
      cksum_partial_simd_agrees 0 p (omega arith) (blank_ip-AllBytes cfg tot_len)
      ∙ cksum_partial_lem p 0 (omega arith)
      ∙ omega (arith, blank_ip-words cfg tot_len h) in
    ap (λ s. not16 (cksum_fold16 s)) sum

-- Patching the length and the checksum of the header of any payload, by the incremental update,
-- gives the header that is built for the new payload.
pub patch-build_ip :
    (cfg : Config) (old_len new_len : ℕ)
    → patch_ip (build_ip cfg old_len) new_len ≡ build_ip cfg new_len
unfolding patch_ip build_ip
patch-build_ip cfg old_len new_len =
    let old_tot = htons (ip_hdr_len + udp_hdr_len + old_len) in
    let new_tot = htons (ip_hdr_len + udp_hdr_len + new_len) in
    rw (
      blank_ip-checksum cfg old_tot (omega arith),
      blank_ip-checksum cfg new_tot (omega arith),
      csum_replace2_lem (other_words cfg) old_tot new_tot (omega arith) (omega arith) (omega arith)
          (omega arith),
    )

word_sum-bound : (p : List ℕ) → AllBytes p → 2 * word_sum p ≤ (length p + 1) * 65535
unfolding word_sum
word_sum-bound [] h = omega arith
word_sum-bound (b ∷ []) h = omega arith
word_sum-bound (b ∷ c ∷ rest) h = omega (arith, h.0, h.1.0, word_sum-bound rest h.1.1)

-- The words of a datagram under its UDP header.
udp-words :
    (u : UdpHeader) (payload : List ℕ)
    → u.source < 2 ^ 16
    → u.dest < 2 ^ 16
    → u.len < 2 ^ 16
    → u.check < 2 ^ 16
    → word_sum (encode_udp u ++ payload) ≡ u.source + u.dest + u.len + u.check + word_sum payload
unfolding encode_udp word_sum
udp-words u payload s d l c = omega arith

udp-AllBytes :
    (u : UdpHeader) (payload : List ℕ) → AllBytes payload → AllBytes (encode_udp u ++ payload)
unfolding encode_udp
udp-AllBytes u payload h = ground arith

-- The datagram with its checksum blank.
abbrev zeroed : UdpHeader → List ℕ → UdpHeader
zeroed u payload = record u { len = htons (udp_hdr_len + length payload); check = 0 }

-- The partial sum that the checksum folds.
abbrev udp_total : Config → UdpHeader → List ℕ → ℕ
udp_total cfg u payload =
    pseudo_sum cfg (htons (udp_hdr_len + length payload))
    + (u.source + u.dest + htons (udp_hdr_len + length payload) + word_sum payload)

udp_sum :
    (cfg : Config) (u : UdpHeader) (payload : List ℕ)
    → AllBytes payload
    → length payload ≤ max_payload
    → u.source < 2 ^ 16
    → u.dest < 2 ^ 16
    → (udp_total cfg u payload < 2 ^ 32)
      × cksum_partial_simd
          (pseudo_sum cfg (htons (udp_hdr_len + length payload)))
          (encode_udp (zeroed u payload) ++ payload)
        ≡ udp_total cfg u payload
udp_sum cfg u payload h l s d =
    let v = zeroed u payload in
    let p = encode_udp v ++ payload in
    let seed = pseudo_sum cfg v.len in
    let small : seed < 2 ^ 32 = omega arith in
    let bound : udp_total cfg u payload < 2 ^ 32 = omega (arith, word_sum-bound payload h) in
    (
      bound,
      cksum_partial_simd_agrees seed p small (udp-AllBytes v payload h)
          ∙ cksum_partial_lem p seed small
          ∙ omega (arith, bound, udp-words v payload s d (omega arith) (omega arith)),
    )

patch_udp-sum :
    (cfg : Config) (u : UdpHeader) (payload : List ℕ)
    → AllBytes payload
    → length payload ≤ max_payload
    → u.source < 2 ^ 16
    → u.dest < 2 ^ 16
    → (0 < (patch_udp cfg u payload).check)
      × ((pseudo_sum cfg (patch_udp cfg u payload).len
              + word_sum (encode_udp (patch_udp cfg u payload) ++ payload))
            % 65535
          ≡ 0)
unfolding patch_udp
patch_udp-sum cfg u payload h l s d =
    let facts = udp_sum cfg u payload h l s d in
    let t = udp_total cfg u payload in
    let check = not16 (
      cksum_fold16 (
        cksum_partial_simd (pseudo_sum cfg (htons (udp_hdr_len + length payload)))
          (encode_udp (zeroed u payload) ++ payload))) in
    let folded = cksum_fold16_lem t (omega arith) facts.0 in
    let same : cksum_fold16 (
          cksum_partial_simd (pseudo_sum cfg (htons (udp_hdr_len + length payload)))
            (encode_udp (zeroed u payload) ++ payload))
        ≡ cksum_fold16 t =
      ap cksum_fold16 facts.1 in
    let small : (patch_udp cfg u payload).check < 2 ^ 16 = ground arith in
    let words = udp-words (patch_udp cfg u payload) payload s d (omega arith) small in ground arith

-- The pseudo-header of RFC 768 as it stands in memory: the two addresses, a zero, the protocol 17, and
-- the length of the UDP header and the payload, the high byte first.
abbrev pub pseudo_header : Config → ℕ → List ℕ
pseudo_header cfg payload_len =
    le32 cfg.src_ip_be ++ (le32 cfg.dst_ip_be ++ (0 ∷ 17 ∷ put16 (8 + payload_len)))

pseudo_header-words :
    (cfg : Config) (payload_len : ℕ)
    → payload_len ≤ max_payload
    → word_sum (pseudo_header cfg payload_len) ≡ pseudo_sum cfg (htons (udp_hdr_len + payload_len))
unfolding word_sum
pseudo_header-words cfg payload_len l = omega (arith, l)

-- The pseudo-header has whole words.
pseudo_header-append :
    (cfg : Config) (payload_len : ℕ) (rest : List ℕ)
    → word_sum (pseudo_header cfg payload_len ++ rest)
      ≡ word_sum (pseudo_header cfg payload_len) + word_sum rest
unfolding word_sum
pseudo_header-append cfg payload_len rest = omega arith

-- For a payload of bytes that fits a frame and ports of 16 bits: the length in the UDP header of the
-- sent datagram is that of the header and the payload, its checksum is not zero, and the words of the
-- pseudo-header, the UDP header and the payload add up to a multiple of 65535, as a receiver tests.
pub patch_udp-verifies :
    (cfg : Config) (u : UdpHeader) (payload : List ℕ)
    → AllBytes payload
    → length payload ≤ max_payload
    → u.source < 2 ^ 16
    → u.dest < 2 ^ 16
    → let v = patch_udp cfg u payload in
      (le16 v.len ≡ put16 (8 + length payload))
      × (0 < v.check)
      × (word_sum (pseudo_header cfg (length payload) ++ (encode_udp v ++ payload)) % 65535 ≡ 0)
unfolding patch_udp
patch_udp-verifies cfg u payload h l s d =
    let (some_check, sum) = patch_udp-sum cfg u payload h l s d in
    let rest = encode_udp (patch_udp cfg u payload) ++ payload in
    (
      ap₂ (λ a b. a ∷ b ∷ []) (omega (arith, l)) (omega (arith, l)),
      some_check,
      omega (
        arith,
        sum,
        pseudo_header-append cfg (length payload) rest,
        pseudo_header-words cfg (length payload) l,
      ),
    )
