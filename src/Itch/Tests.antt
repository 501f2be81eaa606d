-- ===== src/Itch/Tests.antt =====
-- Tests of the decoding: a new order in both compiled forms.
use low_latency_trading_pipe.Base.{◌≡◌, some, [], ◌∷◌, ◌++◌, arith}
use low_latency_trading_pipe.Itch.{Event, sse41, dispatch}
use low_latency_trading_pipe.Itch.Layout.{
  Header, Message, add_order, encode_message, event_of, dispatch-encode_message, IsMessage,
}

abbrev test_header : Header
test_header = record { stock_locate = 7; tracking_number = 0; timestamp = 34200 }

abbrev test_message : Message
test_message = add_order test_header 1001 b'B' 100 0 2500

abbrev blank_event : Event
blank_event = record {
  ts = 77;
  order_id = 0;
  aux = 0;
  price = 0;
  qty = 0;
  stock_locate = 0;
  type = 0;
  side = 0;
}

dispatch-encode_message_example :
    dispatch sse41 (encode_message test_message ++ (255 ∷ [])) blank_event
    ≡ some (event_of 77 test_message)
dispatch-encode_message_example =
    dispatch-encode_message sse41 test_message (255 ∷ []) blank_event
      (unfold IsMessage in omega arith)
