-- ===== src/Frame/Agree.antt =====
-- is_udp_feed of src/afxdp/xdp_filter.bpf.c against extract_feed_payload of
-- apps/client/udp_receiver.c.
use low_latency_trading_pipe.Base.{
  ℕ, zero, suc, ◌+◌, ◌-◌, ◌≤◌, ◌<◌, ◌≡◌, refl, sym, ap, ◌∙◌, inl, inr, Bool, true, false, ◌&&◌,
  Option, none, some, List, arith, dec_lt, ltb, if◌then◌else◌, lt→ltb, le-leb, le-ltb, if_same,
  Bool-cases, length, be16,
}
use low_latency_trading_pipe.Frame.{
  eth_size, is_vlan, strip_tags, extract_ip4, extract_ip6, extract_tagged, extract_raw_ip,
  extract_feed_payload, skip_tags, filter_ip4, filter_ip6, filter_tagged, is_udp_feed,
}

abbrev pub is_some {ℓ} : {A : Type ℓ} → Option A → Bool
is_some none = false
is_some (some x) = true

module _ (f : List ℕ) where
  -- More than so many VLAN tags in a row, the first one of the given type at the given offset.
  abbrev pub tagged_past : ℕ → ℕ → ℕ → Bool
  tagged_past zero proto off = is_vlan proto
  tagged_past (suc k) proto off = is_vlan proto && tagged_past k (be16 f (off + 2)) (off + 4)

  ip4_agree : (off : ℕ) → filter_ip4 f off ≡ is_some (extract_ip4 f off)
  unfolding filter_ip4 extract_ip4
  ip4_agree off = ground arith

  ip6_agree : (off : ℕ) → filter_ip6 f off ≡ is_some (extract_ip6 f off)
  unfolding filter_ip6 extract_ip6
  ip6_agree off = ground arith

  tagged_agree :
      (proto off : ℕ)
      → is_vlan proto ≡ false
      → filter_tagged f (some (proto, off)) ≡ is_some (extract_tagged f (some (proto, off)))
  unfolding filter_tagged extract_tagged
  tagged_agree proto off h = ground (arith, ip4_agree off, ip6_agree off)

  none_agree : filter_tagged f none ≡ is_some (extract_tagged f none)
  unfolding filter_tagged extract_tagged
  none_agree = refl

  -- One round of both loops.
  strip_round :
      (n proto off : ℕ)
      → (is_vlan proto ≡ false → strip_tags f (suc n) proto off ≡ some (proto, off))
        × (is_vlan proto ≡ true
            → ltb (length f) (off + 4) ≡ true
            → strip_tags f (suc n) proto off ≡ none)
        × (is_vlan proto ≡ true
            → ltb (length f) (off + 4) ≡ false
            → strip_tags f (suc n) proto off ≡ strip_tags f n (be16 f (off + 2)) (off + 4))
  unfolding strip_tags
  strip_round n proto off = (λ v. rw v, λ v r. rw (v, r), λ v r. rw (v, r))

  skip_round :
      (n proto off : ℕ)
      → (is_vlan proto ≡ false → skip_tags f (suc n) proto off ≡ some (proto, off))
        × (is_vlan proto ≡ true
            → ltb (length f) (off + 4) ≡ true
            → skip_tags f (suc n) proto off ≡ none)
        × (is_vlan proto ≡ true
            → ltb (length f) (off + 4) ≡ false
            → skip_tags f (suc n) proto off ≡ skip_tags f n (be16 f (off + 2)) (off + 4))
  unfolding skip_tags
  skip_round n proto off = (λ v. rw v, λ v r. rw (v, r), λ v r. rw (v, r))

  tags_agree :
      (k n proto off : ℕ)
      → k ≤ n
      → tagged_past k proto off ≡ false
      → filter_tagged f (skip_tags f k proto off)
        ≡ is_some (extract_tagged f (strip_tags f (suc n) proto off))
  tags_agree zero n proto off l h =
      rw ((strip_round n proto off).0 h) (unfold skip_tags in tagged_agree proto off h)
  tags_agree (suc k) zero proto off l h = absurd (omega arith)
  tags_agree (suc k) (suc n) proto off l h = elim (Bool-cases (is_vlan proto)) [
    | inr v ↦
        rw ((strip_round (suc n) proto off).0 v, (skip_round k proto off).0 v)
          (tagged_agree proto off v)
    | inl v ↦ elim (Bool-cases (ltb (length f) (off + 4))) [
      | inl r ↦
          rw ((strip_round (suc n) proto off).1 v r, (skip_round k proto off).1 v r) none_agree
      | inr r ↦
          rw ((strip_round (suc n) proto off).2 v r, (skip_round k proto off).2 v r)
            (tags_agree k n (be16 f (off + 2)) (off + 4) (omega arith) (rw v at h))
    ]
  ]

  deep_tags_dropped :
      (k proto off : ℕ)
      → tagged_past k proto off ≡ true
      → filter_tagged f (skip_tags f k proto off) ≡ false
  deep_tags_dropped zero proto off h = unfold skip_tags filter_tagged in rw h
  deep_tags_dropped (suc k) proto off h = elim (Bool-cases (is_vlan proto)) [
    | inr v ↦ absurd (let w : false ≡ true = rw v at h in cc)
    | inl v ↦ elim (Bool-cases (ltb (length f) (off + 4))) [
      | inl r ↦ rw ((skip_round k proto off).1 v r) (unfold filter_tagged in refl)
      | inr r ↦
          rw ((skip_round k proto off).2 v r)
            (deep_tags_dropped k (be16 f (off + 2)) (off + 4) (rw v at h))
    ]
  ]

  -- The parser finds no payload in a frame too short for an Ethernet header.
  pub extract_short : length f < eth_size → extract_feed_payload f ≡ none
  unfolding extract_feed_payload extract_raw_ip
  extract_short h = ground arith

  feed_short : length f < eth_size → is_udp_feed f ≡ false
  unfolding is_udp_feed
  feed_short h = rw (lt→ltb (length f) eth_size h)

  pub extract_long :
      eth_size ≤ length f
      → extract_feed_payload f
        ≡ extract_tagged f (strip_tags f (suc (length f - 1)) (be16 f 12) eth_size)
  unfolding extract_feed_payload
  extract_long h =
      let n : length f ≡ suc (length f - 1) = omega arith in
      rw (le-leb eth_size (length f) h)
        (ap (λ k. extract_tagged f (strip_tags f k (be16 f 12) eth_size)) n)

  feed_long :
      eth_size ≤ length f → is_udp_feed f ≡ filter_tagged f (skip_tags f 2 (be16 f 12) eth_size)
  unfolding is_udp_feed
  feed_long h = rw (le-ltb eth_size (length f) h)

  -- The filter passes a frame on exactly when the parser finds a payload in it, unless the frame has
  -- three or more VLAN tags: such a frame the filter leaves to the kernel.
  pub filter_agrees :
      is_udp_feed f
      ≡ (if tagged_past 2 (be16 f 12) eth_size then false else is_some (extract_feed_payload f))
  filter_agrees = elim (dec_lt (length f) eth_size) [
    | yes p ↦
        rw (feed_short p, extract_short p) (if_same (tagged_past 2 (be16 f 12) eth_size) false)
    | no p ↦
        let h : eth_size ≤ length f = omega arith in
        elim (Bool-cases (tagged_past 2 (be16 f 12) eth_size)) [
          | inl t ↦ rw t (feed_long h ∙ deep_tags_dropped 2 (be16 f 12) eth_size t)
          | inr t ↦ rw t (
              feed_long h
              ∙ tags_agree 2 (length f - 1) (be16 f 12) eth_size (omega arith) t
              ∙ ap is_some (sym (extract_long h)))
        ]
  ]
