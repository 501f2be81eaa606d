-- ===== src/Receiver/Turn.antt =====
-- A turn of udp_receiver_thread (apps/client/udp_receiver.c) with the frames of src/afxdp: a burst is
-- received and handled, and the frames that are dropped go back.
pub mod Frames
mod Tests
use low_latency_trading_pipe.Base.{ℕ, true, Option, List, [], ◌∷◌, take}
use low_latency_trading_pipe.Rx
use low_latency_trading_pipe.Rx.{
  Packet, XdpDesc, Context, FillRing, Answer, recv_burst, recycle, done,
}
use low_latency_trading_pipe.Receiver.Gap.{Receiver}
use low_latency_trading_pipe.Receiver.Loop.{Descriptor, Burst, handle_burst}

-- RX_BURST_SIZE
abbrev pub rx_burst_size : ℕ
rx_burst_size = 128

abbrev pub descriptors : List Packet → List Descriptor
descriptors [] = []
descriptors (p ∷ ps) = record { addr = p.addr; bytes = take p.len p.bytes } ∷ descriptors ps

-- What a turn leaves: the frames, the state, and what the end of the session leaves unread.
pub record Turn : Type 0 where
  pub ctx : Context
  pub after : Receiver
  pub unread : Option (List Descriptor)

-- The frames that are dropped, if there are any.
unfoldable pub recycle_drops : FillRing → List ℕ → Context → Context
unfolding recycle
recycle_drops fq [] c = c
recycle_drops fq (a ∷ addrs) c = (recycle true fq (a ∷ addrs) c).1

-- `s` is the state when the burst is there and the rewinder has been polled, which touches no frame of
-- the region.
unfoldable pub burst_turn :
    FillRing → FillRing → (ℕ → List ℕ) → List XdpDesc → ℕ → Context → Receiver → Turn
unfolding recv_burst handle_burst recycle_drops
burst_turn fq fq' umem peeked now c s =
    let r = recv_burst true rx_burst_size fq umem peeked c in
    let b = handle_burst s now (descriptors r.0.1) in
    record { ctx = recycle_drops fq' b.drops r.1; after = b.after; unread = b.unread }
