-- ===== src/Frame.antt =====
-- The two parsers of raw frames: extract_feed_payload of apps/client/udp_receiver.c and is_udp_feed
-- of src/afxdp/xdp_filter.bpf.c. A frame is the list of its bytes; the payload is given by its
-- offset and its length. The pointers that the C code tests for NULL are taken to be given.
pub mod Agree
pub mod Bounds
mod Tests
use low_latency_trading_pipe.Base.{
  ℕ, zero, suc, ◌+◌, ◌-◌, ◌*◌, ◌/◌, ◌%◌, Bool, false, ◌&&◌, ◌||◌, not, Option, none, some, List,
  ltb, leb, ◌==◌, if◌then◌else◌, length, byte, be16,
}

-- sizeof of ethhdr, iphdr, ipv6hdr and udphdr
abbrev pub eth_size : ℕ
eth_size = 14

abbrev pub ip4_size : ℕ
ip4_size = 20

abbrev pub ip6_size : ℕ
ip6_size = 40

abbrev pub udp_size : ℕ
udp_size = 8

-- ETH_P_IP, ETH_P_IPV6, IPPROTO_UDP and FEED_PORT
abbrev pub eth_p_ip : ℕ
eth_p_ip = 0x0800

abbrev pub eth_p_ipv6 : ℕ
eth_p_ipv6 = 0x86dd

abbrev pub ipproto_udp : ℕ
ipproto_udp = 17

abbrev pub feed_port : ℕ
feed_port = 5000

-- ETH_P_8021Q or ETH_P_8021AD
abbrev pub is_vlan : ℕ → Bool
is_vlan proto = proto == 0x8100 || proto == 0x88a8

-- The header length field of an IPv4 header: the low half of its first byte, in words of 4 bytes.
abbrev pub header_length : List ℕ → ℕ → ℕ
header_length f off = byte f off % 16 * 4

module _ (f : List ℕ) where
  -- `while` the type is that of a VLAN tag: four bytes further, or out of the frame. The first
  -- argument bounds the rounds.
  pub strip_tags : ℕ → ℕ → ℕ → Option (ℕ × ℕ)
  strip_tags zero proto off = none
  strip_tags (suc n) proto off =
      let rest =
        if ltb (length f) (off + 4) then none else strip_tags n (be16 f (off + 2)) (off + 4) in
      if is_vlan proto then rest else some (proto, off)

  -- The payload behind an IPv4 or an IPv6 header at an offset.
  pub extract_ip4 : ℕ → Option (ℕ × ℕ)
  extract_ip4 off =
      if ltb (length f) (off + ip4_size)
      then none
      else let ihl = header_length f off in
        if ltb ihl ip4_size || ltb (length f) (off + ihl + udp_size)
        then none
        else if not (byte f (off + 9) == ipproto_udp)
        then none
        else if not (be16 f (off + ihl + 2) == feed_port)
        then none
        else some (off + ihl + udp_size, length f - (off + ihl + udp_size))

  pub extract_ip6 : ℕ → Option (ℕ × ℕ)
  extract_ip6 off =
      if ltb (length f) (off + ip6_size + udp_size)
      then none
      else if not (byte f (off + 6) == ipproto_udp)
      then none
      else if not (be16 f (off + ip6_size + 2) == feed_port)
      then none
      else some (off + ip6_size + udp_size, length f - (off + ip6_size + udp_size))

  -- The branches for a frame with no Ethernet header, by the version in its first byte.
  pub extract_raw_ip : Option (ℕ × ℕ)
  extract_raw_ip =
      if leb ip4_size (length f) && byte f 0 / 16 == 4
      then extract_ip4 0
      else if leb ip6_size (length f) && byte f 0 / 16 == 6
      then extract_ip6 0
      else none

  pub extract_tagged : Option (ℕ × ℕ) → Option (ℕ × ℕ)
  extract_tagged none = none
  extract_tagged (some (proto, off)) =
      if proto == eth_p_ip
      then extract_ip4 off
      else if proto == eth_p_ipv6
      then extract_ip6 off
      else none

  -- Where the feed payload of a frame begins, and how long it is; `none` for the result -1.
  pub extract_feed_payload : Option (ℕ × ℕ)
  extract_feed_payload =
      if leb eth_size (length f)
      then extract_tagged (strip_tags (length f) (be16 f 12) eth_size)
      else extract_raw_ip

  -- The filter's loop over at most so many tags, unrolled by the compiler.
  pub skip_tags : ℕ → ℕ → ℕ → Option (ℕ × ℕ)
  skip_tags zero proto off = some (proto, off)
  skip_tags (suc n) proto off =
      let rest =
        if ltb (length f) (off + 4) then none else skip_tags n (be16 f (off + 2)) (off + 4) in
      if is_vlan proto then rest else some (proto, off)

  pub filter_ip4 : ℕ → Bool
  filter_ip4 off =
      if ltb (length f) (off + ip4_size)
      then false
      else if not (byte f (off + 9) == ipproto_udp)
      then false
      else let ihl = header_length f off in
        if ltb ihl ip4_size
        then false
        else if ltb (length f) (off + ihl)
        then false
        else if ltb (length f) (off + ihl + udp_size)
        then false
        else be16 f (off + ihl + 2) == feed_port

  pub filter_ip6 : ℕ → Bool
  filter_ip6 off =
      if ltb (length f) (off + ip6_size)
      then false
      else if not (byte f (off + 6) == ipproto_udp)
      then false
      else if ltb (length f) (off + ip6_size + udp_size)
      then false
      else be16 f (off + ip6_size + 2) == feed_port

  pub filter_tagged : Option (ℕ × ℕ) → Bool
  filter_tagged none = false
  filter_tagged (some (proto, off)) =
      if is_vlan proto
      then false
      else if proto == eth_p_ip
      then filter_ip4 off
      else if proto == eth_p_ipv6
      then filter_ip6 off
      else false

  -- Whether the filter sends a frame to the AF_XDP socket.
  pub is_udp_feed : Bool
  is_udp_feed =
      if ltb (length f) eth_size then false else filter_tagged (skip_tags 2 (be16 f 12) eth_size)
