-- ===== src/OrderSender/Turn.antt =====
-- A turn of order_sender_thread (apps/client/order_sender.c) over TCP: the ring of orders, the polling
-- of acknowledgements, the sample of the latency, and the order itself.
pub mod Live
use low_latency_trading_pipe.Base.{
  ℕ, ◌+◌, ◌%◌, Option, none, some, List, [], ◌∷◌, ◌==◌, if◌then◌else◌, u32,
}
use low_latency_trading_pipe.Ring.{Ring, consume}
use low_latency_trading_pipe.OrderSender.{Order, Sender, Answer, drain_acks, send_order}
use low_latency_trading_pipe.OrderSender.Latency.{Sampler, sample}

-- The thread: the ring, its sender, the samples, and the turns since it began.
pub record Thread : Type 0 where
  pub ring : Ring Order
  pub sender : Sender
  pub sampler : Sampler
  pub ack_poll_ticks : ℕ

-- What a turn meets: the acknowledgement bytes that a poll would find, the clock, and the answers of
-- the socket.
pub record World : Type 0 where
  pub acks : List ℕ
  pub now : ℕ
  pub answers : List Answer

-- ACK_POLL_MASK: each 64th turn polls.
unfoldable pub poll_acks : List ℕ → Thread → Thread
unfolding drain_acks
poll_acks acks t =
    let ticks = u32 (t.ack_poll_ticks + 1) in
    record t {
      ack_poll_ticks = ticks;
      sender = if ticks % 64 == 0 then drain_acks t.sender acks else t.sender;
    }

-- The order is taken from the ring when it has been sent.
abbrev pub commit : Thread → Ring Order → Option Sender → Option Thread
commit t ring none = none
commit t ring (some s) = some (record t { ring = ring; sender = s })

abbrev pub take_slot : World → Thread → Option (Order × Ring Order) → Option Thread
take_slot w t none = some t
take_slot w t (some (slot, ring)) =
    commit (record t { sampler = sample t.sampler slot w.now }) ring
      (send_order t.sender w.now (record slot { send_ns = w.now }) w.answers)

-- none: the socket's answers end before the order is sent.
unfoldable pub turn : World → Thread → Option Thread
unfolding poll_acks
turn w t = let p = poll_acks w.acks t in take_slot w p (consume p.ring)

unfoldable pub turns : List World → Thread → Option Thread
unfolding turn
turns [] t = some t
turns (w ∷ ws) t = elim (turn w t) [ none ↦ none | some t' ↦ turns ws t' ]
