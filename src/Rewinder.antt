-- ===== src/Rewinder.antt =====
-- apps/server/rewinder.c: the ring of sent packets, the search in it, and the answer to a
-- retransmission request. The feed's writes and the rewinder's reads are taken one after the other.
pub mod Log
pub mod Replay
mod Tests
use low_latency_trading_pipe.Base.{
  ℕ, zero, suc, ◌+◌, ◌-◌, ◌*◌, ◌%◌, Bool, true, false, ◌&&◌, ◌||◌, not, Option, none, some, List,
  [], ◌∷◌, ltb, leb, ◌==◌, if◌then◌else◌, length, take, update, u32, u64, sub32, sub64, be16, be64,
}

pub record CachedPacket : Type 0 where
  pub start_seq : ℕ
  pub msg_count : ℕ
  pub session : List ℕ
  pub bytes : List ℕ

-- `len` is the length of `bytes`: the rest of the slot's buffer is never read.
pub record Cache : Type 0 where
  pub slots : ℕ → CachedPacket
  pub write_cursor : ℕ

-- REWINDER_CACHE_SLOTS, whose mask is the remainder; REWINDER_MAX_PACKET; REWINDER_MAX_REPLAY
abbrev pub cache_slots : ℕ
cache_slots = 64 * 1024

abbrev pub max_packet : ℕ
max_packet = 1500

abbrev pub max_replay : ℕ
max_replay = 16

abbrev pub empty_packet : CachedPacket
empty_packet = record { start_seq = 0; msg_count = 0; session = []; bytes = [] }

abbrev pub init : Cache
init = record { slots = λ i. empty_packet; write_cursor = 0 }

-- `packet_len` bytes of the packet are copied; a packet too long or with no messages is not cached.
unfoldable pub cache_packet : Cache → List ℕ → ℕ → ℕ → List ℕ → ℕ → Cache
cache_packet c session start_seq msg_count packet packet_len =
    if ltb max_packet packet_len || msg_count == 0 then c else record {
      slots = update c.slots (c.write_cursor % cache_slots) (record {
        start_seq = start_seq;
        msg_count = msg_count;
        session = session;
        bytes = take packet_len packet;
      });
      write_cursor = u32 (c.write_cursor + 1);
    }

-- The slot holds the message of a number.
abbrev pub covers : ℕ → CachedPacket → Bool
covers seq p =
    not (p.start_seq == 0) && (leb p.start_seq seq && ltb seq (u64 (p.start_seq + p.msg_count)))

-- Backwards from the cursor: the number of slots left to look at, and how far back the next is.
pub find_from : Cache → ℕ → ℕ → ℕ → Option CachedPacket
find_from c seq zero i = none
find_from c seq (suc k) i =
    let p = c.slots (sub32 c.write_cursor i % cache_slots) in
    let rest = find_from c seq k (i + 1) in if covers seq p then some p else rest

abbrev pub scan_max : Cache → ℕ
scan_max c = if ltb c.write_cursor cache_slots then c.write_cursor else cache_slots

pub find_packet : Cache → ℕ → Option CachedPacket
unfolding find_from
find_packet c seq = find_from c seq (scan_max c) 1

-- The loop over at most so many packets: what is sent back, in order.
pub replay : Cache → ℕ → ℕ → ℕ → List CachedPacket
replay c zero want_seq want_cnt = []
replay c (suc n) want_seq want_cnt = elim (want_cnt == 0) [
  | true ↦ []
  | false ↦ elim (find_packet c want_seq) [
    | none ↦ []
    | some p ↦
        let next_seq = u64 (p.start_seq + p.msg_count) in
        let covered = sub64 next_seq want_seq in
        let more = replay c n next_seq (if leb want_cnt covered then 0 else want_cnt - covered) in
        if leb next_seq want_seq then p ∷ [] else p ∷ more
  ]
]

-- A datagram of the size of a request: the number at byte 10, the count at byte 18.
unfoldable pub handle_request : Cache → List ℕ → List CachedPacket
handle_request c datagram =
    if not (length datagram == 20)
    then []
    else if be16 datagram 18 == 0
    then []
    else replay c max_replay (be64 datagram 10) (be16 datagram 18)
