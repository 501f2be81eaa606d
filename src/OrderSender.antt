-- ===== src/OrderSender.antt =====
-- apps/client/order_sender.c: order_sender_thread, here its TCP path. Bytes written on the present
-- connection are kept in `out`, those of connections that failed are dropped with them. What the
-- socket answers to each send is a list of events.
pub mod Latency
pub mod Session
pub mod Ends
pub mod Acks
pub mod Afxdp
pub mod Turn
mod Tests
use low_latency_trading_pipe.Base.{
  ℕ, ◌+◌, not, Option, none, some, List, [], ◌∷◌, ◌++◌, ltb, ◌==◌, if◌then◌else◌, length, take,
  drop, u64,
}
use low_latency_trading_pipe.Framing.{frames}
use low_latency_trading_pipe.Wire.{
  WireOrder, WireAck, msg_new, msg_cancel, msg_ack, ack_bad_csum, ack_seq_gap, ack_size,
  encode_order, decode_ack, stamp,
}

-- include/hft/engine/oms/order.h
pub record Order : Type 0 where
  pub order_id : ℕ
  pub ts : ℕ
  pub price : ℕ
  pub qty : ℕ
  pub stock_locate : ℕ
  pub side : ℕ
  pub parse_ns : ℕ
  pub send_ns : ℕ

pub record Sender : Type 0 where
  pub next_seq : ℕ
  pub acked_seq : ℕ
  pub bad_csum_count : ℕ
  pub seq_gap_count : ℕ
  pub carry : List ℕ
  pub out : List ℕ

-- A new thread, just connected.
abbrev pub init : Sender
init = record {
  next_seq = 1;
  acked_seq = 0;
  bad_csum_count = 0;
  seq_gap_count = 0;
  carry = [];
  out = [];
}

-- One acknowledgement out of the receive buffer.
unfoldable pub handle_ack : Sender → WireAck → Sender
handle_ack s a =
    let t = record s { acked_seq = if ltb s.acked_seq a.seq then a.seq else s.acked_seq } in
    if not (a.msg_type == msg_ack)
    then s
    else if a.flag == ack_bad_csum
    then record t { bad_csum_count = u64 (t.bad_csum_count + 1) }
    else if a.flag == ack_seq_gap
    then record t { seq_gap_count = u64 (t.seq_gap_count + 1) }
    else t

abbrev pub handle_ack_bytes : Sender → List ℕ → Sender
handle_ack_bytes s b = handle_ack s (decode_ack b)

-- What a receive brings goes behind the carried bytes; no bytes mean that recv gave nothing.
unfoldable pub drain_acks : Sender → List ℕ → Sender
drain_acks s [] = s
drain_acks s (c ∷ cs) =
    let b = s.carry ++ (c ∷ cs) in
    let (t, rest) = frames ack_size handle_ack_bytes (length b) s b in record t { carry = rest }

-- The message for an order of the ring: no quantity means a cancellation.
unfoldable pub build_message : ℕ → ℕ → Order → WireOrder
build_message next_seq send_ns slot = stamp (record {
  msg_type = if slot.qty == 0 then msg_cancel else msg_new;
  side = slot.side;
  symbol_id = slot.stock_locate;
  qty = slot.qty;
  price = slot.price;
  pad0 = 0;
  seq = next_seq;
  ts = send_ns;
  checksum = 0;
  pad1 = 0;
})

-- The answers of the socket: so many bytes taken; none just now, with the acknowledgement bytes that
-- are then drained; an error, after which the thread connects anew.
pub data Answer : Type 0 where
  wrote : ℕ → Answer
  again : List ℕ → Answer
  failed : Answer

-- A fresh connection numbers its messages from 1.
unfoldable pub reconnect : Sender → Sender
reconnect s = record s { next_seq = 1; acked_seq = 0; out = [] }

-- `while (remaining > 0) { send … }` on the bytes that remain: with no answer left it still waits.
pub send_loop : Sender → WireOrder → List ℕ → List Answer → Option (Sender × WireOrder)
send_loop s msg [] answers = some (s, msg)
send_loop s msg (b ∷ bs) [] = none
send_loop s msg (b ∷ bs) (wrote n ∷ answers) =
    send_loop (record s { out = s.out ++ take n (b ∷ bs) }) msg (drop n (b ∷ bs)) answers
send_loop s msg (b ∷ bs) (again acks ∷ answers) = send_loop (drain_acks s acks) msg (b ∷ bs) answers
send_loop s msg (b ∷ bs) (failed ∷ answers) =
    let renumbered = stamp (record msg { seq = 1; checksum = 0 }) in
    send_loop (reconnect s) renumbered (encode_order renumbered) answers

-- One order taken from the ring and sent; the counter moves when the last byte is written.
pub send_order : Sender → ℕ → Order → List Answer → Option Sender
send_order s send_ns slot answers =
    let msg = build_message s.next_seq send_ns slot in
    elim (send_loop s msg (encode_order msg) answers) [
      | none ↦ none
      | some (t, m) ↦ some (record t { next_seq = u64 (t.next_seq + 1) })
    ]
