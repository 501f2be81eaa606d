-- ===== src/Receiver/Loop.antt =====
-- The main loop of udp_receiver_thread in apps/client/udp_receiver.c, in its parts: the replies of the
-- rewinder, a burst of frames, the idle turn, and the frames that the consumer is done with. What the
-- sockets and the kernel deliver are arguments.
pub mod Balance
use low_latency_trading_pipe.Base.{
  ℕ, zero, suc, ◌+◌, ◌-◌, ◌%◌, ◌&&◌, Option, none, some, List, [], ◌∷◌, ltb, leb, ◌==◌,
  if◌then◌else◌, length, take, drop, u32, sub32,
}
use low_latency_trading_pipe.Ring.{mask}
use low_latency_trading_pipe.Frame.{extract_feed_payload}
use low_latency_trading_pipe.Receiver.Pool.{
  PacketRef, header_size, header_count, reorder_max, reorder_addr_flag, count, find_min,
}
use low_latency_trading_pipe.Receiver.Gap.{
  RefPtr, frame_ref, slot_ref, Receiver, is_set, clamp16, send_request, free_slot, handle_payload,
}

-- struct afxdp_pkt: a frame of the region with its address.
pub record Descriptor : Type 0 where
  pub addr : ℕ
  pub bytes : List ℕ

-- The buffer of poll_rewinder, to which recvfrom cuts a datagram.
abbrev pub reply_size : ℕ
reply_size = 1600

-- The replies up to the first receive that gives nothing.
unfoldable pub poll_replies : Receiver → ℕ → List (List ℕ) → Receiver
poll_replies s now [] = s
poll_replies s now ([] ∷ replies) = s
poll_replies s now ((b ∷ bs) ∷ replies) =
    poll_replies (handle_payload s (take reply_size (b ∷ bs)) none now).0 now replies

unfoldable pub poll_rewinder : Receiver → ℕ → List (List ℕ) → Receiver
unfolding poll_replies
poll_rewinder s now replies = if s.rewinder_open then poll_replies s now replies else s

-- The outcome of a burst: the state, the addresses to give back, and the frames that the end of the
-- session leaves unread, with its own in front.
pub record Burst : Type 0 where
  pub after : Receiver
  pub drops : List ℕ
  pub unread : Option (List Descriptor)

abbrev pub give_back : Option ℕ → Burst → Burst
give_back none r = r
give_back (some addr) r = record r { drops = addr ∷ r.drops }

-- What a frame is: dropped with no packet in it, the end of the session, or a packet.
pub data Content : Type 0 where
  no_packet : Content
  end_of_session : Content
  packet : List ℕ → Content

unfoldable pub content_of : List ℕ → Content
content_of bytes = elim (extract_feed_payload bytes) [
  | none ↦ no_packet
  | some (off, len) ↦
      let payload = take len (drop off bytes) in
      if ltb (length payload) header_size
      then no_packet
      else if header_count payload == 0xffff
      then end_of_session
      else packet payload
]

-- The loop over the frames of a burst, which the end of the session breaks off.
unfoldable pub handle_burst : Receiver → ℕ → List Descriptor → Burst
unfolding content_of
handle_burst s now [] = record { after = s; drops = []; unread = none }
handle_burst s now (d ∷ ds) = elim (content_of d.bytes) [
  | no_packet ↦ give_back (some d.addr) (handle_burst s now ds)
  | end_of_session ↦ record { after = s; drops = d.addr ∷ []; unread = some ds }
  | packet payload ↦
      let r = handle_payload s payload (some d.addr) now in give_back r.1 (handle_burst r.0 now ds)
]

-- The turn with no frames: while packets wait for a gap, the rewinder is asked again.
unfoldable pub idle : Receiver → ℕ → Receiver
idle s now =
    if ltb 0 (count s.pool s.expected_seq) && is_set s.session
    then elim (find_min s.pool s.expected_seq) [
      | none ↦ s
      | some j ↦
          let start = (s.pool j).start_seq in
          if ltb s.expected_seq start
          then send_request s s.expected_seq (clamp16 (start - s.expected_seq)) now
          else s
    ]
    else s

-- The umem_addr that a pointer of the ring leads to.
abbrev pub ref_addr : Receiver → RefPtr → ℕ
ref_addr s (frame_ref a) = (s.frames a).umem_addr
ref_addr s (slot_ref i) = (s.pool i).ref.umem_addr

-- recycle_consumed_frames from a cursor on, over so many entries: a slot of the pool is freed, and
-- the address of a frame goes back to the kernel.
unfoldable pub recycle_entries : ℕ → Receiver → ℕ → Receiver × List ℕ
recycle_entries zero s i = (s, [])
recycle_entries (suc n) s i =
    let addr = ref_addr s (s.ring.slots (mask i)) in
    let slot = recycle_entries n (free_slot s (addr % reorder_max)) (u32 (i + 1)) in
    let frame = recycle_entries n s (u32 (i + 1)) in
    if leb reorder_addr_flag addr then slot else (frame.0, addr ∷ frame.1)

-- The entries between the receiver's cursor and the consumer's.
unfoldable pub recycle_consumed : Receiver → ℕ → Receiver × List ℕ
unfolding recycle_entries
recycle_consumed s recycle_read =
    recycle_entries (sub32 s.ring.next_read recycle_read) s recycle_read
