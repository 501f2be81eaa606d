-- ===== src/OrderReceiver.antt =====
-- apps/server/order_receiver.c: the loop of handle_client over the orders of one connection.
-- `sent` holds the acknowledgements handed to send, in order; `reads` counts the readings of the
-- monotonic clock, a parameter.
pub mod Accept
pub mod Stream
mod Tests
use low_latency_trading_pipe.Base.{
  ℕ, ◌+◌, ◌%◌, not, List, [], ◌∷◌, ◌++◌, ltb, ◌==◌, if◌then◌else◌, u64, sub64,
}
use low_latency_trading_pipe.Framing.{receive_all}
use low_latency_trading_pipe.Wire.{
  WireOrder, WireAck, msg_ack, ack_ok, ack_bad_csum, ack_seq_gap, order_size, decode_order,
  checksum_holds,
}

pub record Session : Type 0 where
  pub order_count : ℕ
  pub logged_count : ℕ
  pub expected_seq : ℕ
  pub bad_csum : ℕ
  pub seq_gaps : ℕ
  pub sent : List WireAck
  pub reads : ℕ

abbrev pub init : Session
init = record {
  order_count = 0;
  logged_count = 0;
  expected_seq = 1;
  bad_csum = 0;
  seq_gaps = 0;
  sent = [];
  reads = 0;
}

module _ (mono_ns : ℕ → ℕ) where
  unfoldable pub send_ack : Session → ℕ → ℕ → Session
  send_ack s seq flag = record s { sent = s.sent ++ (ack ∷ []); reads = s.reads + 1 }
    where
      ack : WireAck
      ack = record {
        msg_type = msg_ack;
        flag = flag;
        pad0 = 0;
        pad1 = 0;
        seq = seq;
        recv_ts = mono_ns s.reads;
      }

  -- Every hundredth order is logged, with one reading of the clock.
  unfoldable pub log_sampled : Session → Session
  log_sampled s =
      if s.order_count % 100 == 0
      then record s { logged_count = u64 (s.logged_count + 1); reads = s.reads + 1 }
      else s

  -- An order that is not a duplicate: logged, acknowledged, counted.
  unfoldable pub take_order : Session → WireOrder → Session
  unfolding send_ack log_sampled
  take_order s o =
      let t = send_ack (log_sampled s) o.seq ack_ok in
      record t { order_count = u64 (t.order_count + 1); expected_seq = u64 (o.seq + 1) }

  -- A gap is reported, and the expectation jumps to the order's number.
  unfoldable pub note_gap : Session → WireOrder → Session
  unfolding send_ack
  note_gap s o =
      let t =
        send_ack (record s { seq_gaps = u64 (s.seq_gaps + 1) }) (sub64 s.expected_seq 1)
          ack_seq_gap in
      record t { expected_seq = o.seq }

  -- The body of the loop, on one order.
  pub process_order : Session → WireOrder → Session
  unfolding send_ack take_order note_gap
  process_order s o =
      if not (checksum_holds o)
      then send_ack (record s { bad_csum = u64 (s.bad_csum + 1) }) o.seq ack_bad_csum
      else if o.seq == s.expected_seq
      then take_order s o
      else if ltb s.expected_seq o.seq
      then take_order (note_gap s o) o
      else send_ack s (sub64 s.expected_seq 1) ack_ok

  pub process_all : Session → List WireOrder → Session
  process_all s [] = s
  process_all s (o ∷ os) = process_all (process_order s o) os

  -- The bytes of one order, copied out of the receive buffer.
  abbrev pub process_bytes : Session → List ℕ → Session
  process_bytes s b = process_order s (decode_order b)

  -- A connection: what the receives bring, with the partial order carried over between them.
  pub handle_client : List (List ℕ) → Session × List ℕ
  handle_client chunks = receive_all order_size process_bytes (init, []) chunks
