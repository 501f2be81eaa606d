-- ===== src/Receiver/Gap.antt =====
-- The state of the receiver and the handling of one packet (handle_payload of
-- apps/client/udp_receiver.c). The ring holds pointers: into the front of a UMEM frame, or to the
-- packet_ref of a slot of the pool.
pub mod Inv
pub mod Order
pub mod Rounds
pub mod Branches
pub mod Ahead
pub mod Handle
pub mod Pins
pub mod Frames
use low_latency_trading_pipe.Base.{
  ℕ, zero, suc, ◌+◌, ◌-◌, Bool, true, false, ◌||◌, not, Option, none, some, List, [], ◌∷◌, ◌++◌,
  ltb, ◌==◌, if◌then◌else◌, length, update, u64, sub32, sub64,
}
use low_latency_trading_pipe.Ring.{Ring, publish}
use low_latency_trading_pipe.Receiver.Pool.{
  PacketRef, Slot, slot_size, reorder_max, header_size, header_session, header_seq, header_count,
  alloc_slot, find, find_min, build_slot,
}

pub data RefPtr : Type 0 where
  frame_ref : ℕ → RefPtr
  slot_ref : ℕ → RefPtr

-- `requests` holds the retransmission requests sent, in order, as first number and count. `overrun` says
-- that a copy has run past the bytes of its slot, into the next slot: the memory of the code is then
-- not what the other fields say.
pub record Receiver : Type 0 where
  pub pool : ℕ → Slot
  pub frames : ℕ → PacketRef
  pub ring : Ring RefPtr
  pub session : Option (List ℕ)
  pub expected_seq : ℕ
  pub last_request_ns : ℕ
  pub rewinder_open : Bool
  pub dropped_packets : ℕ
  pub retrans_requests : ℕ
  pub retrans_filled : ℕ
  pub requests : List (ℕ × ℕ)
  pub overrun : Bool

-- RETRANSMIT_INTERVAL_NS
abbrev pub retransmit_interval_ns : ℕ
retransmit_interval_ns = 5000000

abbrev pub is_set : Option (List ℕ) → Bool
is_set none = false
is_set (some x) = true

unfoldable pub send_request : Receiver → ℕ → ℕ → ℕ → Receiver
send_request s start count now =
    if not s.rewinder_open || not (is_set s.session)
    then s
    else if count == 0
    then s
    else if ltb (sub64 now s.last_request_ns) retransmit_interval_ns
    then s
    else record s {
      last_request_ns = now;
      retrans_requests = u64 (s.retrans_requests + 1);
      requests = s.requests ++ ((start, count) ∷ []);
    }

-- The count of a request is a uint16_t; longer gaps are asked for in part.
abbrev pub clamp16 : ℕ → ℕ
clamp16 n = if ltb 0xffff n then 0xffff else n

unfoldable pub publish_ref : Receiver → RefPtr → Bool × Receiver
publish_ref s p = let (done, r) = publish s.ring p in (done, record s { ring = r })

-- The state after the slot whose turn it is was published.
unfoldable pub pass_slot : Receiver → ℕ → Receiver
pass_slot s i = record (publish_ref s (slot_ref i)).1 {
  expected_seq = u64 (s.expected_seq + (s.pool i).msg_count);
  retrans_filled = u64 (s.retrans_filled + 1);
}

-- Every slot whose turn has come is published, while the ring takes it; the first argument bounds the
-- rounds.
pub drain_rounds : ℕ → Receiver → Receiver
drain_rounds zero s = s
drain_rounds (suc n) s = elim (find s.pool s.expected_seq s.expected_seq) [
  | none ↦ s
  | some i ↦ elim (publish_ref s (slot_ref i)).0 [
    | false ↦ s
    | true ↦ drain_rounds n (pass_slot s i)
  ]
]

-- Each round but the last takes a pending slot out of the pool's pending ones.
unfoldable pub drain_pending : Receiver → Receiver
drain_pending s = drain_rounds (suc reorder_max) s

-- The first packet fixes the session and the number expected.
abbrev pub open_with : Option (List ℕ) → Receiver → List ℕ → Receiver
open_with (some x) s payload = s
open_with none s payload = record s {
  session = some (header_session payload);
  expected_seq = header_seq payload;
}

unfoldable pub open_session : Receiver → List ℕ → Receiver
open_session s payload = open_with s.session s payload

abbrev pub drop_one : Receiver → Receiver
drop_one s = record s { dropped_packets = u64 (s.dropped_packets + 1) }

-- A packet published, and the number that follows it expected.
unfoldable pub after_publish : Receiver → RefPtr → List ℕ → Receiver
after_publish s p payload = record (publish_ref s p).1 {
  expected_seq = u64 (s.expected_seq + header_count payload);
}

abbrev pub live_ref : List ℕ → ℕ → ℕ → PacketRef
live_ref payload addr now = record {
  dat = record { buf = payload; off = header_size };
  umem_addr = addr;
  ts = now;
  len = sub32 (length payload) header_size;
}

-- The packet_ref written into the front of the packet's own frame.
abbrev pub write_live : Receiver → List ℕ → ℕ → ℕ → Receiver
write_live s payload addr now = record s {
  frames = update s.frames addr (live_ref payload addr now);
}

-- In order, in a UMEM frame: published where it lies.
unfoldable pub publish_live : Receiver → List ℕ → ℕ → ℕ → Receiver × Option ℕ
publish_live s payload addr now =
    let t = write_live s payload addr now in
    if (publish_ref t (frame_ref addr)).0
    then (drain_pending (after_publish t (frame_ref addr) payload), none)
    else (drop_one t, some addr)

-- A slot of the pool filled with a packet, whatever its length.
abbrev pub write_slot : Receiver → ℕ → List ℕ → ℕ → Receiver
write_slot s idx payload now = record s {
  pool = update s.pool idx (build_slot idx (header_seq payload) (header_count payload) payload now);
  overrun = s.overrun || ltb slot_size (length payload);
}

-- `used` taken back.
abbrev pub free_slot : Receiver → ℕ → Receiver
free_slot s idx = record s { pool = update s.pool idx (record (s.pool idx) { used = false }) }

-- In order, from the rewinder: copied into a slot that is published at once.
unfoldable pub publish_copy : Receiver → List ℕ → Option ℕ → ℕ → Receiver × Option ℕ
publish_copy s payload umem now = elim (find s.pool s.expected_seq (header_seq payload)) [
  | some j ↦ (s, umem)
  | none ↦ elim (alloc_slot s.pool) [
    | none ↦ (drop_one s, umem)
    | some idx ↦
        let t = write_slot s idx payload now in
        if (publish_ref t (slot_ref idx)).0
        then (drain_pending (after_publish t (slot_ref idx) payload), umem)
        else (drop_one (free_slot t idx), umem)
  ]
]

-- No slot is free: skip to the smallest number that waits, if one does.
unfoldable pub skip_ahead : Receiver → Receiver
skip_ahead s = elim (find_min s.pool s.expected_seq) [
  | none ↦ drop_one s
  | some j ↦
      let start = (s.pool j).start_seq in
      if ltb s.expected_seq start
      then drain_pending (record s {
        dropped_packets = u64 (s.dropped_packets + (start - s.expected_seq));
        expected_seq = start;
      })
      else drop_one s
]

-- Ahead of its turn: kept in a slot, and the numbers before it are asked for.
unfoldable pub buffer_future : Receiver → List ℕ → Option ℕ → ℕ → Receiver × Option ℕ
buffer_future s payload umem now = elim (find s.pool s.expected_seq (header_seq payload)) [
  | some j ↦ (s, umem)
  | none ↦ elim (alloc_slot s.pool) [
    | none ↦ (skip_ahead s, umem)
    | some idx ↦ (
      send_request (write_slot s idx payload now) s.expected_seq
          (clamp16 (header_seq payload - s.expected_seq)) now,
      umem,
    )
  ]
]

-- One packet, out of a UMEM frame (`some addr`) or from the rewinder (`none`). The answer beside the
-- state is the frame to recycle, `none` where there is none or it is held until it is consumed.
pub in_order : Receiver → List ℕ → Option ℕ → ℕ → Receiver × Option ℕ
in_order s payload (some addr) now = publish_live s payload addr now
in_order s payload none now = publish_copy s payload none now

-- A packet of an open session: late, due, or ahead of its turn.
pub sequence : Receiver → List ℕ → Option ℕ → ℕ → Receiver × Option ℕ
sequence t payload umem now =
    if ltb (header_seq payload) t.expected_seq
    then (t, umem)
    else if header_seq payload == t.expected_seq
    then in_order t payload umem now
    else buffer_future t payload umem now

pub handle_payload : Receiver → List ℕ → Option ℕ → ℕ → Receiver × Option ℕ
handle_payload s payload umem now =
    if ltb (length payload) header_size
    then (s, umem)
    else if header_count payload == 0
    then (s, umem)
    else sequence (open_session s payload) payload umem now
