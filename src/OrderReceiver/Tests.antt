-- ===== src/OrderReceiver/Tests.antt =====
-- Tests of the exchange's side: one order of a client, cut into two receives.
use low_latency_trading_pipe.Base.{ℕ, ◌+◌, ◌≡◌, refl, List, [], ◌∷◌, arith, length, take, drop, u64}
use low_latency_trading_pipe.Framing.{concat}
use low_latency_trading_pipe.Wire.{WireOrder, encode_order}
use low_latency_trading_pipe.Wire.Tests.{test_order, test_order-IsWireOrder}
use low_latency_trading_pipe.OrderReceiver.{init, process_all, handle_client}
use low_latency_trading_pipe.OrderReceiver.Accept.{taken, next_expected, Rising, process_all_takes}
use low_latency_trading_pipe.OrderReceiver.Stream.{encode_all, handle_client-orders}

abbrev clock : ℕ → ℕ
clock n = 1000 + n

abbrev test_orders : List WireOrder
test_orders = test_order ∷ []

abbrev test_chunks : List (List ℕ)
test_chunks = take 10 (encode_order test_order) ∷ drop 10 (encode_order test_order) ∷ []

test_chunks-concat : concat test_chunks ≡ encode_all test_orders
unfolding encode_order
test_chunks-concat = refl

process_all_takes_example :
    let t = process_all clock init test_orders in
    let ts = taken 1 test_orders in
    Rising 1 ts × (t.order_count ≡ u64 (0 + length ts)) × (t.expected_seq ≡ next_expected 1 ts)
process_all_takes_example = process_all_takes clock init test_orders (omega arith, tt) (omega arith)

handle_client-orders_example :
    handle_client clock test_chunks ≡ (process_all clock init test_orders, [])
handle_client-orders_example =
    handle_client-orders clock test_orders test_chunks (test_order-IsWireOrder, tt)
      test_chunks-concat
