-- ===== src/OrderSender/Tests.antt =====
-- Tests of the sender: an order over a connection that fails once, pieces of acknowledgements, and
-- the latency samples.
use low_latency_trading_pipe.Base.{
  ℕ, ◌+◌, ◌-◌, ◌≡◌, refl, sym, true, false, some, List, [], ◌∷◌, ◌++◌, append-nil, arith, length,
  take, drop, replicate, u64,
}
use low_latency_trading_pipe.OrderSender.Turn.{Thread, World, turns}
use low_latency_trading_pipe.OrderSender.Turn.Live.{Sends, IsServed, Holds, turns_empty}
use low_latency_trading_pipe.Ring.Queue.{contents, used}
use low_latency_trading_pipe.Tx
use low_latency_trading_pipe.Tx.{Config, Frame, Context, build_ip, build_udp}
use low_latency_trading_pipe.Tx.Pool.{Completes, count, init-Owned}
use low_latency_trading_pipe.OrderSender.Afxdp.{Round, send_order_afxdp}
use low_latency_trading_pipe.OrderSender.Afxdp.Retry.{
  IsSubmitted, Opens, opened, closed, send_order_afxdp-IsSubmitted,
}
use low_latency_trading_pipe.Wire.{
  checksum_holds, WireAck, msg_ack, ack_ok, ack_size, encode_ack, encode_order,
}
use low_latency_trading_pipe.OrderReceiver.{handle_client}
use low_latency_trading_pipe.OrderSender.{
  build_message, Order, Sender, Answer, wrote, again, failed, init, handle_ack_bytes, drain_acks,
  reconnect, send_order,
}
use low_latency_trading_pipe.OrderSender.Session.{
  Carries, IsOrder, IsSynced, init-IsSynced, exchange_agrees,
}
use low_latency_trading_pipe.OrderSender.Ends.{send_order_delivers}
use low_latency_trading_pipe.Wire.Tests.{test_order, test_order-IsWireOrder, test_order-accepted}
use low_latency_trading_pipe.OrderSender.Acks.{reconnect-carry}
use low_latency_trading_pipe.OrderSender.Latency.{Sampler}

abbrev test_slot : Order
test_slot = record {
  order_id = 9;
  ts = 0;
  price = 2500;
  qty = 100;
  stock_locate = 7;
  side = b'S';
  parse_ns = 5;
  send_ns = 0;
}

test_slot-IsOrder : IsOrder test_slot
test_slot-IsOrder = record {
  qty_word = omega arith;
  price_word = omega arith;
  locate_word = omega arith;
  side_byte = omega arith;
}

abbrev test_ack : WireAck
test_ack = record { msg_type = msg_ack; flag = ack_ok; pad0 = 0; pad1 = 0; seq = 1; recv_ts = 3 }

-- What a socket did before it served.
abbrev test_before : List Answer
test_before = wrote 10 ∷ again (encode_ack test_ack) ∷ failed ∷ wrote 5 ∷ []

abbrev test_after : List Answer
test_after = replicate 36 (wrote 1)

send_order_delivers_example :
    (t : Sender) × (send_order init 5 test_slot (test_before ++ test_after) ≡ some t)
    × IsSynced t
    × Carries init test_slot 5 t
send_order_delivers_example =
    send_order_delivers init 5 test_slot test_before test_after init-IsSynced (omega arith)
      (omega arith) test_slot-IsOrder (ground arith) (omega arith)

-- A sender that has put one message on its connection.
abbrev sent_once : Sender
sent_once = record init { next_seq = 2; out = encode_order test_order }

sent_once-IsSynced : IsSynced sent_once
sent_once-IsSynced = (
  test_order ∷ [],
  sym (append-nil (encode_order test_order)),
  (test_order-accepted, refl, tt),
  (test_order-IsWireOrder, tt),
  refl,
)

exchange_agrees_example :
    let (r, rest) = handle_client (λ n. n) (encode_order test_order ∷ []) in
    (r.order_count + 1 ≡ 2)
    × (r.expected_seq ≡ 2)
    × (r.bad_csum ≡ 0)
    × (r.seq_gaps ≡ 0)
    × (rest ≡ [])
exchange_agrees_example =
    exchange_agrees (λ n. n) sent_once (encode_order test_order ∷ []) sent_once-IsSynced
      (omega arith) (append-nil (encode_order test_order))

-- Half of an acknowledgement is carried.
abbrev halfway : Sender
halfway = record init { carry = take 10 (encode_ack test_ack) }

abbrev test_chunks : List (List ℕ)
test_chunks = drop 10 (encode_ack test_ack) ∷ encode_ack test_ack ∷ []

reconnect-carry_example :
    let t = drain_acks (reconnect halfway) (encode_ack test_ack) in
    (t
      ≡ record (handle_ack_bytes
          (reconnect halfway)
          (halfway.carry ++ take (ack_size - 10) (encode_ack test_ack))) {
            carry = drop (ack_size - 10) (encode_ack test_ack);
          })
    × (length t.carry ≡ 10)
unfolding encode_ack
reconnect-carry_example = reconnect-carry halfway test_ack (omega arith) (omega arith)

-- Three samples taken.
abbrev test_sampler : Sampler
test_sampler = record { lat_ring = λ i. 100 - i; lat_count = 3; lat_window_start = 0 }

abbrev test_config : Config
test_config = record {
  src_ip_be = 0x0100007f;
  dst_ip_be = 0x0100007f;
  src_port = 49152;
  dst_port = 8080;
}

abbrev no_frames : ℕ → Frame
no_frames a = record { ip = build_ip test_config 0; udp = build_udp test_config 0; payload = [] }

-- A kernel that has no room at first.
abbrev test_rounds : List Round
test_rounds =
    record { completed = []; room = false; more = [] }
    ∷ record { completed = []; room = true; more = [] }
    ∷ []

nothing_done : Completes [] [] []
unfolding count
nothing_done = record { counts = λ a. omega arith; lengths = omega arith }

test_rounds-Opens : Opens [] test_rounds
test_rounds-Opens =
    closed [] [] [] _ _ nothing_done nothing_done
      (opened [] [] _ [] nothing_done (omega arith) refl)

abbrev test_context : Context
test_context = Tx.init test_config no_frames

send_order_afxdp-IsSubmitted_example :
    let msg = build_message 1 5 test_slot in
    (d : Context) × (send_order_afxdp init test_context 5 test_slot test_rounds
      ≡ some (true, record init { next_seq = u64 2 }, d))
    × IsSubmitted test_context (encode_order msg) d
    × (msg.seq ≡ 1)
    × (checksum_holds msg ≡ true)
send_order_afxdp-IsSubmitted_example =
    send_order_afxdp-IsSubmitted init test_context 5 test_slot [] test_rounds
      (init-Owned test_config no_frames) test_rounds-Opens

-- A ring with one order, and a turn whose connection fails once.
abbrev test_thread : Thread
test_thread = record {
  ring = record { next_write = 1; next_read = 0; slots = λ i. test_slot };
  sender = init;
  sampler = record { lat_ring = λ i. 0; lat_count = 0; lat_window_start = 0 };
  ack_poll_ticks = 63;
}

abbrev test_world : World
test_world = record { acks = encode_ack test_ack; now = 5; answers = test_before ++ test_after }

test_world-IsServed : IsServed test_world
test_world-IsServed = record {
  before = test_before;
  after = test_after;
  split = refl;
  serves = ground arith;
  enough = omega arith;
  clock = omega arith;
}

test_thread-Holds : Holds (contents test_thread.ring) test_thread
unfolding contents used
test_thread-Holds = record {
  queue = refl;
  ring = record { write_word = omega arith; read_word = omega arith; fits = omega arith };
  orders = (test_slot-IsOrder, tt);
  synced = init-IsSynced;
}

turns_empty_example :
    (t' : Thread) × (turns (test_world ∷ []) test_thread ≡ some t')
    × Holds [] t'
    × Sends (test_world ∷ []) (contents test_thread.ring) test_thread.sender t'.sender
unfolding contents used
turns_empty_example =
    turns_empty (test_world ∷ []) test_thread (test_world-IsServed, tt) test_thread-Holds
      (omega arith) (omega arith)
