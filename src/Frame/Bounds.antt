-- ===== src/Frame/Bounds.antt =====
-- Where extract_feed_payload (apps/client/udp_receiver.c) finds the payload.
use low_latency_trading_pipe.Base.{
  ℕ, zero, suc, ◌+◌, ◌-◌, ◌≤◌, ◌<◌, ◌≡◌, refl, sym, ◌∙◌, Option, none, some, List, arith, dec_lt,
  lt→ltb, length, be16,
}
use low_latency_trading_pipe.Frame.Agree.{extract_short, extract_long}
use low_latency_trading_pipe.Frame.{
  eth_size, strip_tags, extract_ip4, extract_ip6, extract_tagged, extract_feed_payload, udp_size,
  ip4_size, feed_port,
}

module _ (f : List ℕ) where
  -- More rounds than a fourth of the bytes change nothing.
  strip_tags_enough :
      (n m proto off : ℕ)
      → length f < off + n
      → length f < off + m
      → 0 < n
      → 0 < m
      → strip_tags f n proto off ≡ strip_tags f m proto off
  unfolding strip_tags
  strip_tags_enough zero m proto off h k p q = absurd (omega arith)
  strip_tags_enough (suc n) zero proto off h k p q = absurd (omega arith)
  strip_tags_enough (suc n) (suc m) proto off h k p q = elim (dec_lt (length f) (off + 4)) [
    | yes r ↦ rw (lt→ltb (length f) (off + 4) r)
    | no r ↦ rw (
        strip_tags_enough n m (be16 f (off + 2)) (off + 4) (omega arith) (omega arith) (omega arith)
          (omega arith))
  ]

  strip_tags-offset : (n proto off : ℕ) (p o : ℕ) → strip_tags f n proto off ≡ some (p, o) → off ≤ o
  unfolding strip_tags
  strip_tags-offset zero proto off p o e = cc
  strip_tags-offset (suc n) proto off p o e =
      ground (arith, strip_tags-offset n (be16 f (off + 2)) (off + 4) p o)

  ip4_bounds :
      (off : ℕ) {at len : ℕ}
      → extract_ip4 f off ≡ some (at, len)
      → (at + len ≡ length f) × (off + ip4_size + udp_size ≤ at) × (be16 f (at - 6) ≡ feed_port)
  unfolding extract_ip4
  ip4_bounds off e = ground arith

  ip6_bounds :
      (off : ℕ) {at len : ℕ}
      → extract_ip6 f off ≡ some (at, len)
      → (at + len ≡ length f) × (off + ip4_size + udp_size ≤ at) × (be16 f (at - 6) ≡ feed_port)
  unfolding extract_ip6
  ip6_bounds off e = ground arith

  tagged_bounds :
      (p off at len : ℕ)
      → extract_tagged f (some (p, off)) ≡ some (at, len)
      → (at + len ≡ length f) × (off + ip4_size + udp_size ≤ at) × (be16 f (at - 6) ≡ feed_port)
  unfolding extract_tagged
  tagged_bounds p off at len e =
      ground (arith, ip4_bounds off {at = at} {len = len}, ip6_bounds off {at = at} {len = len})

  tagged_none : (at len : ℕ) → extract_tagged f none ≡ some (at, len) → ⊥
  unfolding extract_tagged
  tagged_none at len e = cc

  -- In a frame that holds an Ethernet header, as many rounds of stripping tags as there are bytes
  -- are enough: more give the same.
  pub strip_tags_total :
      (m : ℕ)
      → eth_size ≤ length f
      → strip_tags f (length f + m) (be16 f 12) eth_size
        ≡ strip_tags f (length f) (be16 f 12) eth_size
  strip_tags_total m h =
      strip_tags_enough (length f + m) (length f) (be16 f 12) eth_size (omega arith) (omega arith)
        (omega arith) (omega arith)

  -- A payload that is found ends where the frame ends, and in front of it lie an Ethernet, an IP
  -- and a UDP header, with the feed's port in the last.
  pub extract_bounds :
      (at len : ℕ)
      → extract_feed_payload f ≡ some (at, len)
      → (at + len ≡ length f)
        × (eth_size + ip4_size + udp_size ≤ at)
        × (be16 f (at - 6) ≡ feed_port)
  extract_bounds at len e = elim (dec_lt (length f) eth_size) [
    | yes p ↦ absurd (let x = extract_short f p in cc)
    | no p ↦
        go (strip_tags f (suc (length f - 1)) (be16 f 12) eth_size) refl
          (sym (extract_long f (omega arith)) ∙ e)
  ]
    where
      go :
          (o : Option (ℕ × ℕ))
          → strip_tags f (suc (length f - 1)) (be16 f 12) eth_size ≡ o
          → extract_tagged f o ≡ some (at, len)
          → (at + len ≡ length f)
            × (eth_size + ip4_size + udp_size ≤ at)
            × (be16 f (at - 6) ≡ feed_port)
      go none q x = absurd (tagged_none at len x)
      go (some (p, off)) q x = omega (
        arith,
        tagged_bounds p off at len x,
        strip_tags-offset (suc (length f - 1)) (be16 f 12) eth_size p off q,
      )
