-- ===== src/Feed.antt =====
-- apps/server/feed.c: bulk_feed, which packs the length-prefixed messages of a recorded file into
-- numbered packets, keeps each in the rewinder's cache, and sends it. The session, and the two
-- numbers of the modes that drop and duplicate packets, are parameters. The file is the list of what
-- its reads return from initial_file_offset on, where the code seeks to before the first of them; the
-- seek, and that its failure ends the feed before a packet is sent, are not modelled.
pub mod Pack
pub mod Stream
pub mod Sent
pub mod Timed
mod Tests
use low_latency_trading_pipe.Base.{
  ℕ, zero, suc, ◌+◌, ◌-◌, ◌%◌, ◌&&◌, ◌||◌, not, List, [], ◌∷◌, ◌++◌, ltb, ◌==◌, if◌then◌else◌,
  length, take, drop, u16, u64, be16, put16, put64,
}
use low_latency_trading_pipe.Rewinder
use low_latency_trading_pipe.Rewinder.{Cache, cache_packet}

-- PACKET_SIZE less the header, which is taken off twice: MAX_MSG_PAYLOAD.
abbrev pub packet_size : ℕ
packet_size = 1500 - 28 - 20

abbrev pub max_msg_payload : ℕ
max_msg_payload = packet_size - 20

-- A packet that was packed: its number, its count and its payload.
pub record Packet : Type 0 where
  pub seq : ℕ
  pub msg_count : ℕ
  pub payload : List ℕ

-- `packed` is the log of the packets, for the proofs; `sent` holds the datagrams, in order.
pub record Feed : Type 0 where
  pub seq : ℕ
  pub cache : Cache
  pub sent : List (List ℕ)
  pub packed : List Packet

abbrev pub init : Feed
init = record { seq = 1; cache = Rewinder.init; sent = []; packed = [] }

-- The inner loop: as many whole messages of the buffer as the payload has room for. The result is
-- the payload, the count and the rest of the buffer.
unfoldable pub pack : ℕ → List ℕ → ℕ → List ℕ → List ℕ × ℕ × List ℕ
pack zero payload msg_count b = (payload, msg_count, b)
pack (suc n) payload msg_count b =
    let msg_size = be16 b 0 in
    let more =
      pack n (payload ++ (put16 msg_size ++ take msg_size (drop 2 b))) (u16 (msg_count + 1))
        (drop (2 + msg_size) b) in
    if ltb (length b) 2
      || (ltb (length b) (2 + msg_size) || ltb max_msg_payload (length payload + 2 + msg_size))
    then (payload, msg_count, b)
    else more

module _ (session : List ℕ) (drop_every dup_every : ℕ) where
  abbrev pub packet_bytes : ℕ → ℕ → List ℕ → List ℕ
  packet_bytes seq msg_count payload = session ++ (put64 seq ++ (put16 msg_count ++ payload))

  -- How often a packet is sent: not at all if it is dropped, twice if it is duplicated.
  abbrev pub copies : ℕ → List ℕ → List (List ℕ)
  copies seq packet =
      if drop_every == 0 || not (seq % drop_every == 0)
      then (if ltb 0 dup_every && seq % dup_every == 0 then packet ∷ packet ∷ [] else packet ∷ [])
      else []

  -- One packet, cached also where it is dropped.
  unfoldable pub emit : Feed → List ℕ → ℕ → Feed
  emit s payload msg_count = record {
    seq = u64 (s.seq + msg_count);
    cache = cache_packet s.cache session s.seq msg_count packet (u16 (length packet));
    sent = s.sent ++ copies s.seq packet;
    packed = s.packed ++ (record { seq = s.seq; msg_count = msg_count; payload = payload } ∷ []);
  }
    where
      packet : List ℕ
      packet = packet_bytes s.seq msg_count payload

  -- The loop over the buffer, until no packet comes of it; the result holds the bytes left over.
  unfoldable pub fill : ℕ → Feed → List ℕ → Feed × List ℕ
  unfolding pack emit
  fill zero s b = (s, b)
  fill (suc n) s b =
      let r = pack (length b) [] 0 b in
      let more = fill n (emit s r.0 r.1) r.2 in
      if ltb (length b) 2 || r.1 == 0 then (s, b) else more

  -- The loop over the reads.
  unfoldable pub feed_reads : Feed → List ℕ → List (List ℕ) → Feed × List ℕ
  unfolding fill
  feed_reads s leftover [] = (s, leftover)
  feed_reads s leftover (chunk ∷ chunks) =
      let b = leftover ++ chunk in let r = fill (length b) s b in feed_reads r.0 r.1 chunks

  -- The end of the session is announced by a header with the count 0xffff.
  unfoldable pub end_of_session : Feed → Feed
  end_of_session s = record s { sent = s.sent ++ (packet_bytes s.seq 0xffff [] ∷ []) }

  unfoldable pub bulk_feed : List (List ℕ) → Feed
  unfolding feed_reads end_of_session
  bulk_feed chunks = end_of_session (feed_reads init [] chunks).0
