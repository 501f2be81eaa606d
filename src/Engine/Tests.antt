-- ===== src/Engine/Tests.antt =====
-- Tests of the engine: a small order book, one symbol, and the strategy with simple prices.
use low_latency_trading_pipe.Base.{
  ℕ, ◌+◌, ◌-◌, ◌*◌, ◌/◌, ◌≤◌, ◌≡◌, refl, true, false, Option, none, some, List, [], ◌∷◌, arith, ltb,
  ◌==◌, if◌then◌else◌, above, ◌+ℤ◌, pos,
}
use low_latency_trading_pipe.Itch.Layout.{Header, IsMessage, Message, add_order, order_delete}
use low_latency_trading_pipe.Engine.Risk
use low_latency_trading_pipe.Engine.FillSim
use low_latency_trading_pipe.Engine.Risk.{
  Risk, Side, Signal, buy, check_and_fill, fill, init, inline_refill, is_ok, new_pos, run, sell,
  int32,
}
use low_latency_trading_pipe.Engine.Risk.Rate.{run_rate}
use low_latency_trading_pipe.Engine.Risk.Limits.{IsSettled, check_and_fill-IsSettled}
use low_latency_trading_pipe.Engine.Book
use low_latency_trading_pipe.Engine.Book.{AddCommand, Library, on_add, remember}
use low_latency_trading_pipe.Engine.Maker.{
  Desk, Doubles, Params, Shared, State, Top, cancel_blocked, consume_msg, quote_side, refill_bucket,
  refill_buckets,
}
use low_latency_trading_pipe.Engine.Maker.Event.{look_at_book, on_book_event, quote_book, requote}
use low_latency_trading_pipe.Engine.Maker.Bands.{Emits, is_side}
use low_latency_trading_pipe.Engine.Maker.Events.{on_book_event-Emits}
use low_latency_trading_pipe.Engine.Maker.Panic.{
  Input, IsSilent, book_event, filled, react_all, react_all-IsSilent,
}
use low_latency_trading_pipe.Engine.Oms.{Gate, engine_submit_quote, filled_slot, submit}
use low_latency_trading_pipe.Engine.Oms.Quotes.{IsGated, engine_submit_quote-IsGated}
use low_latency_trading_pipe.Engine.Dispatch.{
  Engine, apply_book, apply_event, apply_events, look, quote_shard, shard_for_locate, simulate,
  submit_all, trade_info, write_lut,
}
use low_latency_trading_pipe.Engine.Dispatch.Safe.{Grows, apply_events-Grows}
use low_latency_trading_pipe.Engine.Table.{hash, insert, insert_from, no_order}
use low_latency_trading_pipe.OrderSender.{Order}
use low_latency_trading_pipe.Itch.{Event, sse41}
use low_latency_trading_pipe.Ring.Queue.{IsValid}
use low_latency_trading_pipe.Ring.{publish}
use low_latency_trading_pipe.Engine.FillSim.{FillSim, RestingQuote, on_quote, set_quote}
use low_latency_trading_pipe.Engine.FillSim.Queue.{sum, trades_at_level, trades_at_level-sum}
use low_latency_trading_pipe.Engine.Packet.{packet_events}
use low_latency_trading_pipe.Engine.Packet.Split.{
  encode_all, events_at, packet_events-encode, payload_of,
}

-- An order book as the list of its orders, newest first; the best price of a side is that of its
-- newest order.
abbrev find_order : ℕ → List AddCommand → AddCommand
find_order id [] = record { px = 0; order_id = 0; quantity = pos 0; side = buy }
find_order id (o ∷ os) = if o.order_id == id then o else find_order id os

abbrev remove_order : ℕ → List AddCommand → List AddCommand
remove_order id [] = []
remove_order id (o ∷ os) = if o.order_id == id then os else o ∷ remove_order id os

abbrev best_of : Side → List AddCommand → Option (ℕ × ℕ)
best_of side [] = none
best_of side (o ∷ os) =
    if is_side side o.side then some (o.px, above o.quantity) else best_of side os

abbrev test_book : Library (List AddCommand) ℕ
test_book = record {
  process_add = λ add b. (some add.order_id, add ∷ b);
  process_cancel = λ h b. remove_order h b;
  get_side = λ b h. (find_order h b).side;
  get_price = λ b h. (find_order h b).px;
  to_quantity = int32;
  get_quantity = λ b h. (find_order h b).quantity;
  set_quantity = λ h n b. record (find_order h b) { quantity = n } ∷ remove_order h b;
  top = λ b. record { bid = best_of buy b; ask = best_of sell b };
  max_level = 100_000;
}

-- The prices stand one tick on either side of the last mean.
abbrev test_doubles : Doubles ℕ
test_doubles = record {
  observe = λ bb ba d. (bb + ba) / 2;
  soft_band = λ n. ltb 350 n;
  hard_band = λ n. ltb 500 n;
  panic_band = λ n. ltb 750 n;
  bid_px = λ bb ba inv soft d. d - 1;
  ask_px = λ bb ba inv soft d. d + 1;
  fill_pnl = λ fill inv d. d;
}

abbrev test_params : Params
test_params = record {
  quote_qty = 100;
  requote_threshold_ticks = 1;
  per_symbol_msgs_per_sec = 100;
  aggregate_msgs_per_sec = 1000;
  burst_msgs = 50;
}

abbrev no_order_slot : Order
no_order_slot = record {
  order_id = 0;
  ts = 0;
  price = 0;
  qty = 0;
  stock_locate = 0;
  side = 0;
  parse_ns = 0;
  send_ns = 0;
}

abbrev test_gate : Gate
test_gate = record {
  risk = Risk.init;
  oms = record {
    next_order_id = 1;
    ring = record { next_write = 0; next_read = 0; slots = λ i. no_order_slot };
  };
}

abbrev test_state : State ℕ
test_state = record {
  doubles = 0;
  panic = false;
  inventory = pos 0;
  resting_bid = 0;
  resting_ask = 0;
  tokens = 50;
  last_refill_ts = 0;
  total_quotes = 0;
  total_fills = 0;
  rate_limited = 0;
  skip_no_tob = 0;
  skip_crossed = 0;
  skip_bad_px = 0;
  skip_hard_band = 0;
  skip_panic = 0;
  quoted_both = 0;
}

abbrev test_shared : Shared
test_shared = record { agg_tokens = 50; last_agg_refill = 0; global_kill = false }

abbrev test_engine : Engine (List AddCommand) ℕ ℕ
test_engine = record {
  books = λ shard. record { book = []; live_orders = no_order };
  sims = λ shard. FillSim.init;
  states = λ shard. test_state;
  shared = test_shared;
  gate = test_gate;
}

-- A bid at 100.00 and an ask at 100.04 for the locate 13.
abbrev test_event : ℕ → ℕ → ℕ → Event
test_event id side price = record {
  ts = 1_000;
  order_id = id;
  aux = 0;
  price = price;
  qty = 300;
  stock_locate = 13;
  type = b'A';
  side = side;
}

abbrev test_events : List Event
test_events = test_event 7 b'B' 1_000_000 ∷ test_event 8 b'S' 1_000_400 ∷ []

test_ring-IsValid : IsValid test_gate.oms.ring
test_ring-IsValid = record { write_word = omega arith; read_word = omega arith; fits = omega arith }

apply_events-Grows_example :
    Grows test_gate (apply_events test_book test_params test_doubles test_events test_engine).1.gate
apply_events-Grows_example =
    apply_events-Grows test_book test_params test_doubles test_events test_engine test_ring-IsValid
      λ locate. omega arith

-- The two quotes of the strategy are on the ring.
events_quote :
    (apply_events test_book test_params test_doubles test_events
      test_engine).1.gate.oms.next_order_id
    ≡ 3
unfolding apply_events apply_event apply_book on_add Book.add_order remember insert insert_from hash
    shard_for_locate write_lut quote_shard look on_book_event refill_buckets refill_bucket
    look_at_book quote_book requote cancel_blocked quote_side consume_msg on_quote set_quote
    submit_all engine_submit_quote submit publish check_and_fill inline_refill is_ok new_pos fill
    ◌+ℤ◌ simulate trade_info
events_quote = refl

abbrev test_header : Header
test_header = record { stock_locate = 13; tracking_number = 0; timestamp = 1 }

abbrev test_messages : List Message
test_messages = add_order test_header 7 b'B' 300 0 1_000_000 ∷ order_delete test_header 7 ∷ []

packet_events-encode_example :
    packet_events sse41 (test_event 0 0 0) 5 (payload_of (encode_all test_messages))
    ≡ events_at 5 test_messages
unfolding IsMessage
packet_events-encode_example =
    packet_events-encode sse41 (test_event 0 0 0) 5 test_messages
      ((omega arith, omega arith, omega arith, omega arith), ((omega arith, omega arith), tt))

abbrev test_signals : List Signal
test_signals =
    record { stock_locate = 13; price = 9_999; qty = 100; side = buy; parse_ns = 1_000 }
    ∷ record { stock_locate = 13; price = 9_999; qty = 600; side = sell; parse_ns = 2_000 }
    ∷ []

abbrev primed_risk : Risk
primed_risk = record (Risk.init) { last_ns = 500 }

run_rate_example :
    (run primed_risk test_signals).0 * 1_000_000_000 ≤ 50 * 1_000_000_000 + 100 * (2_000 - 500)
run_rate_example =
    run_rate 2_000 primed_risk test_signals (omega arith) (omega arith, (omega arith, tt))
      (omega arith)

abbrev test_signal : Signal
test_signal = record { stock_locate = 13; price = 9_999; qty = 100; side = buy; parse_ns = 1_000 }

check_and_fill-IsSettled_example :
    IsSettled (inline_refill 1_000 primed_risk) test_signal (check_and_fill primed_risk test_signal)
check_and_fill-IsSettled_example = check_and_fill-IsSettled primed_risk test_signal

engine_submit_quote-IsGated_example :
    IsGated test_gate
      (filled_slot test_gate.oms 13 buy 9_999 100 1_000)
      (engine_submit_quote 13 buy 9_999 100 1_000 test_gate)
engine_submit_quote-IsGated_example =
    engine_submit_quote-IsGated 13 buy 9_999 100 1_000 test_gate test_ring-IsValid
      (λ locate. omega arith) (omega arith)

abbrev test_quote : RestingQuote
test_quote = record { px = 9_999; qty = 100; queue_ahead = 250 }

trades_at_level-sum_example :
    ((trades_at_level buy (200 ∷ 90 ∷ []) test_quote).0 ≡ 40)
    × ((trades_at_level buy (200 ∷ 90 ∷ []) test_quote).1.qty
          + (trades_at_level buy (200 ∷ 90 ∷ []) test_quote).0
        ≡ 100)
unfolding sum
trades_at_level-sum_example = trades_at_level-sum buy (200 ∷ 90 ∷ []) test_quote

abbrev test_desk : Desk ℕ
test_desk = record {
  state = record test_state { doubles = 9_999; inventory = pos 600 };
  shared = test_shared;
  fsim = FillSim.init;
  emitted = [];
}

abbrev test_top : Top
test_top = record { bid = some (9_998, 300); ask = some (10_002, 300) }

on_book_event-Emits_example :
    Emits true false
      (refill_buckets test_params 1_000 test_desk)
      (on_book_event test_params test_doubles test_top 1_000 test_desk)
on_book_event-Emits_example =
    on_book_event-Emits test_params test_doubles test_top 1_000 test_desk refl

abbrev stopped_desk : Desk ℕ
stopped_desk = record test_desk { state = record (test_desk.state) { panic = true } }

abbrev test_inputs : List Input
test_inputs =
    book_event test_top 1_000
    ∷ filled (record { side = sell; px = 10_000; qty = 100; ts = 2_000 })
    ∷ book_event test_top 3_000
    ∷ []

react_all-IsSilent_example :
    IsSilent stopped_desk (react_all test_params test_doubles stopped_desk test_inputs)
react_all-IsSilent_example =
    react_all-IsSilent test_params test_doubles stopped_desk test_inputs refl
