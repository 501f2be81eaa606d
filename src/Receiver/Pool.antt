-- ===== src/Receiver/Pool.antt =====
-- The reorder pool of apps/client/udp_receiver.c and the packet_ref of include/hft/itch/packet.h. A
-- pointer into a packet is a buffer with an offset.
pub mod Scan
pub mod Counts
use low_latency_trading_pipe.Base.{
  ℕ, zero, suc, ◌+◌, ◌^◌, Bool, true, ◌&&◌, not, Option, none, some, List, ltb, ◌==◌, if◌then◌else◌,
  length, take, u16, sub32, be16, be64,
}

pub record Span : Type 0 where
  pub buf : List ℕ
  pub off : ℕ

pub record PacketRef : Type 0 where
  pub dat : Span
  pub umem_addr : ℕ
  pub ts : ℕ
  pub len : ℕ

pub record Slot : Type 0 where
  pub ref : PacketRef
  pub start_seq : ℕ
  pub msg_count : ℕ
  pub payload_len : ℕ
  pub used : Bool
  pub bytes : List ℕ

-- REORDER_MAX
abbrev pub reorder_max : ℕ
reorder_max = 512

-- sizeof(bytes) of a slot.
abbrev pub slot_size : ℕ
slot_size = 1500

-- sizeof(mold_udp64_header): the session in 10 bytes, the sequence number in 8, the count in 2.
abbrev pub header_size : ℕ
header_size = 20

unfoldable pub header_session : List ℕ → List ℕ
header_session p = take 10 p

unfoldable pub header_seq : List ℕ → ℕ
header_seq p = be64 p 10

unfoldable pub header_count : List ℕ → ℕ
header_count p = be16 p 18

-- The high bit of umem_addr: set with the index in the low bits, and cleared off again.
abbrev pub reorder_addr_flag : ℕ
reorder_addr_flag = 2 ^ 63

-- A slot that holds a packet which waits for its turn.
abbrev pub is_pending : ℕ → Slot → Bool
is_pending expected sl = sl.used && not (ltb sl.start_seq expected)

module _ (pool : ℕ → Slot) where
  -- The loops run over the slots from an index on; the number is that of the slots left.
  pub alloc_from : ℕ → ℕ → Option ℕ
  alloc_from zero i = none
  alloc_from (suc k) i =
      let rest = alloc_from k (i + 1) in if not (pool i).used then some i else rest

  pub alloc_slot : Option ℕ
  unfolding alloc_from
  alloc_slot = alloc_from reorder_max 0

  pub find_from : ℕ → ℕ → ℕ → ℕ → Option ℕ
  find_from expected seq zero i = none
  find_from expected seq (suc k) i =
      let rest = find_from expected seq k (i + 1) in
      if is_pending expected (pool i) && (pool i).start_seq == seq then some i else rest

  pub find : ℕ → ℕ → Option ℕ
  unfolding find_from
  find expected seq = find_from expected seq reorder_max 0

  abbrev pub better : ℕ → Option ℕ → Option ℕ
  better i none = some i
  better i (some j) = if ltb (pool i).start_seq (pool j).start_seq then some i else some j

  -- The best slot so far is kept while none with a smaller number comes.
  pub find_min_from : ℕ → ℕ → ℕ → Option ℕ → Option ℕ
  find_min_from expected zero i best = best
  find_min_from expected (suc k) i best =
      find_min_from expected k (i + 1)
        (if is_pending expected (pool i) then better i best else best)

  pub find_min : ℕ → Option ℕ
  unfolding find_min_from
  find_min expected = find_min_from expected reorder_max 0 none

  pub count_from : ℕ → ℕ → ℕ → ℕ
  count_from expected zero i = 0
  count_from expected (suc k) i =
      let rest = count_from expected k (i + 1) in
      if is_pending expected (pool i) then suc rest else rest

  pub count : ℕ → ℕ
  unfolding count_from
  count expected = count_from expected reorder_max 0

-- A slot filled with a copy of a packet, and its packet_ref behind the header of the copy. The code does
-- not look whether the copy fits: write_slot notes where it does not.
unfoldable pub build_slot : ℕ → ℕ → ℕ → List ℕ → ℕ → Slot
build_slot idx seq msg_count payload now = record {
  ref = record {
    dat = record { buf = payload; off = header_size };
    umem_addr = reorder_addr_flag + idx;
    ts = now;
    len = sub32 (u16 (length payload)) header_size;
  };
  start_seq = seq;
  msg_count = msg_count;
  payload_len = u16 (length payload);
  used = true;
  bytes = payload;
}
