-- ===== src/Tx.antt =====
-- src/afxdp/afxdp_tx.c, include/hft/afxdp/afxdp_tx.h: the pool of frames and the sending of one
-- datagram. What the kernel does is an argument: the frames it has completed, and whether its ring
-- has room for a descriptor. The wakeup of the kernel is left out.
pub mod Header
pub mod Pool
mod Tests
use low_latency_trading_pipe.Base.{
  ℕ, zero, suc, ◌+◌, ◌-◌, ◌*◌, ◌/◌, ◌%◌, ◌^◌, Bool, ◌||◌, Option, none, some, List, [], ◌∷◌, ◌++◌,
  ltb, leb, ◌==◌, if◌then◌else◌, length, update,
}
use low_latency_trading_pipe.Wire.{le16, le32}
use low_latency_trading_pipe.Checksum.{
  cksum_fold16, cksum_partial_simd, not16, ip_checksum, csum_replace2,
}

-- AFXDP_TX_NUM_FRAMES and AFXDP_TX_FRAME_SIZE, and the sizes of the headers
abbrev pub num_frames : ℕ
num_frames = 512

abbrev pub frame_size : ℕ
frame_size = 4096

abbrev pub ip_hdr_len : ℕ
ip_hdr_len = 20

abbrev pub udp_hdr_len : ℕ
udp_hdr_len = 8

abbrev pub hdr_total : ℕ
hdr_total = 14 + ip_hdr_len + udp_hdr_len

abbrev pub max_payload : ℕ
max_payload = frame_size - hdr_total

-- htons on a little-endian machine
abbrev pub htons : ℕ → ℕ
htons x = x % 2 ^ 8 * 2 ^ 8 + x / 2 ^ 8 % 2 ^ 8

pub record Config : Type 0 where
  pub src_ip_be : ℕ
  pub dst_ip_be : ℕ
  pub src_port : ℕ
  pub dst_port : ℕ

-- The fields as they are loaded from memory; `version_ihl` is the byte that holds both.
pub record IpHeader : Type 0 where
  pub version_ihl : ℕ
  pub tos : ℕ
  pub tot_len : ℕ
  pub id : ℕ
  pub frag_off : ℕ
  pub ttl : ℕ
  pub protocol : ℕ
  pub check : ℕ
  pub saddr : ℕ
  pub daddr : ℕ

pub record UdpHeader : Type 0 where
  pub source : ℕ
  pub dest : ℕ
  pub len : ℕ
  pub check : ℕ

-- The headers in memory.
unfoldable pub encode_ip : IpHeader → List ℕ
encode_ip h =
    h.version_ihl
    ∷ h.tos
    ∷ (le16 h.tot_len
        ++ (le16 h.id
            ++ (le16 h.frag_off
                ++ (h.ttl ∷ h.protocol ∷ (le16 h.check ++ (le32 h.saddr ++ le32 h.daddr))))))

unfoldable pub encode_udp : UdpHeader → List ℕ
encode_udp u = le16 u.source ++ (le16 u.dest ++ (le16 u.len ++ le16 u.check))

-- The IP part of build_template.
unfoldable pub build_ip : Config → ℕ → IpHeader
unfolding encode_ip ip_checksum
build_ip cfg payload_len = record blank { check = ip_checksum (encode_ip blank) }
  where
    blank : IpHeader
    blank = record {
      version_ihl = 4 * 16 + ip_hdr_len / 4;
      tos = 0;
      tot_len = htons (ip_hdr_len + udp_hdr_len + payload_len);
      id = 0;
      frag_off = 0;
      ttl = 64;
      protocol = 17;
      check = 0;
      saddr = cfg.src_ip_be;
      daddr = cfg.dst_ip_be;
    }

-- The UDP part of build_template.
unfoldable pub build_udp : Config → ℕ → UdpHeader
build_udp cfg payload_len = record {
  source = htons cfg.src_port;
  dest = htons cfg.dst_port;
  len = htons (udp_hdr_len + payload_len);
  check = 0;
}

-- The patch of the IP header for one datagram.
unfoldable pub patch_ip : IpHeader → ℕ → IpHeader
unfolding csum_replace2
patch_ip h payload_len =
    let new_ip_tot = htons (ip_hdr_len + udp_hdr_len + payload_len) in
    record h { tot_len = new_ip_tot; check = csum_replace2 h.check h.tot_len new_ip_tot }

-- The sum over the pseudo-header, with which the UDP checksum starts.
abbrev pub pseudo_sum : Config → ℕ → ℕ
pseudo_sum cfg new_udp_len =
    cfg.src_ip_be % 2 ^ 16
    + cfg.src_ip_be / 2 ^ 16 % 2 ^ 16
    + (cfg.dst_ip_be % 2 ^ 16 + cfg.dst_ip_be / 2 ^ 16 % 2 ^ 16)
    + htons 17
    + new_udp_len

-- The patch of the UDP header, with the checksum over the payload; a checksum of zero is sent as
-- 0xffff.
unfoldable pub patch_udp : Config → UdpHeader → List ℕ → UdpHeader
unfolding encode_udp cksum_partial_simd cksum_fold16
patch_udp cfg u payload = record zeroed { check = if check == 0 then 0xffff else check }
  where
    zeroed : UdpHeader
    zeroed = record u { len = htons (udp_hdr_len + length payload); check = 0 }

    check : ℕ
    check = not16 (
        cksum_fold16
          (cksum_partial_simd (pseudo_sum cfg zeroed.len) (encode_udp zeroed ++ payload)))

-- A frame of the region: its headers, less the constant Ethernet part, and the payload.
pub record Frame : Type 0 where
  pub ip : IpHeader
  pub udp : UdpHeader
  pub payload : List ℕ

-- The stack of free frames, its top first; the frames by their addresses; the descriptors handed
-- to the kernel, the newest first.
pub record Context : Type 0 where
  pub cfg : Config
  pub template_ip : IpHeader
  pub template_udp : UdpHeader
  pub free_frames : List ℕ
  pub frames : ℕ → Frame
  pub submitted : List (ℕ × ℕ)

-- The loop of afxdp_tx_init that fills the stack, from the last frame down to frame 1.
unfoldable pub fill_pool : ℕ → List ℕ → List ℕ
fill_pool zero stack = stack
fill_pool (suc i) stack = fill_pool i (suc i * frame_size ∷ stack)

unfoldable pub init : Config → (ℕ → Frame) → Context
unfolding fill_pool build_ip build_udp
init cfg frames = record {
  cfg = cfg;
  template_ip = build_ip cfg max_payload;
  template_udp = build_udp cfg max_payload;
  free_frames = fill_pool (num_frames - 1) [];
  frames = frames;
  submitted = [];
}

-- The address of a free frame, and the rest of the stack.
unfoldable pub alloc_frame : List ℕ → Option (ℕ × List ℕ)
alloc_frame [] = none
alloc_frame (addr ∷ rest) = some (addr, rest)

unfoldable pub release_frame : List ℕ → ℕ → List ℕ
release_frame stack addr = if leb num_frames (length stack) then stack else addr ∷ stack

-- The addresses that the completion ring holds are released.
unfoldable pub drain_completions : List ℕ → List ℕ → List ℕ
unfolding release_frame
drain_completions stack [] = stack
drain_completions stack (addr ∷ completed) = drain_completions (release_frame stack addr) completed

-- The outcomes of afxdp_tx_send: 0, and -1 with EINVAL, ENOSPC or EAGAIN.
pub data Outcome : Type 0 where
  sent : Outcome
  invalid : Outcome
  no_space : Outcome
  again : Outcome

-- The frame is filled, and its descriptor is pushed if the ring has room.
unfoldable pub fill_frame : Context → ℕ → List ℕ → Frame
unfolding patch_ip patch_udp
fill_frame c addr payload = record {
  ip = patch_ip c.template_ip (length payload);
  udp = patch_udp c.cfg c.template_udp payload;
  payload = payload;
}

unfoldable pub push_frame : Context → ℕ → List ℕ → Bool → Outcome × Context
unfolding fill_frame release_frame
push_frame c addr payload room =
    let filled = record c { frames = update c.frames addr (fill_frame c addr payload) } in
    if room
    then (sent, record filled { submitted = (addr, hdr_total + length payload) ∷ c.submitted })
    else (again, record filled { free_frames = release_frame c.free_frames addr })

unfoldable pub send : Context → List ℕ → Bool → List ℕ → Outcome × Context
unfolding alloc_frame drain_completions push_frame
send c completed room payload =
    if length payload == 0 || ltb max_payload (length payload)
    then (invalid, c)
    else (let drained = drain_completions c.free_frames completed in
        elim (alloc_frame drained) [
          | none ↦ (no_space, record c { free_frames = drained })
          | some a ↦ push_frame (record c { free_frames = a.1 }) a.0 payload room
        ])
