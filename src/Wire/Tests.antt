-- ===== src/Wire/Tests.antt =====
-- Tests of the messages: a stamped order, damaged in its quantity.
use low_latency_trading_pipe.Base.{ℕ, ◌≡◌, refl, true, false, List, [], ◌∷◌, arith, set, AllBytes}
use low_latency_trading_pipe.Wire.{
  WireOrder, msg_new, encode_order, decode_order, wire_checksum, checksum_holds, checksum_loop,
  add_word,
}
use low_latency_trading_pipe.Wire.Codec.{IsWireOrder}
use low_latency_trading_pipe.Wire.Integrity.{damage_rejected}

abbrev pub test_order : WireOrder
test_order = record {
  msg_type = msg_new;
  side = b'B';
  symbol_id = 7;
  qty = 100;
  price = 2500;
  pad0 = 0;
  seq = 1;
  ts = 0;
  checksum = 45953;
  pad1 = 0;
}

pub test_order-IsWireOrder : IsWireOrder test_order
test_order-IsWireOrder = record {
  msg_type_byte = omega arith;
  side_byte = omega arith;
  symbol_id_word = omega arith;
  qty_word = omega arith;
  price_word = omega arith;
  pad0_word = omega arith;
  seq_word = omega arith;
  ts_word = omega arith;
  checksum_word = omega arith;
  pad1_word = omega arith;
}

pub test_order-accepted : checksum_holds test_order ≡ true
unfolding checksum_holds wire_checksum checksum_loop add_word encode_order
test_order-accepted = refl

abbrev test_bytes : List ℕ
test_bytes = 1 ∷ 255 ∷ 0 ∷ []

test_bytes-AllBytes : AllBytes test_bytes
test_bytes-AllBytes = ground arith

damage_rejected_example :
    checksum_holds (decode_order (set (encode_order test_order) 4 101)) ≡ false
unfolding encode_order
damage_rejected_example =
    damage_rejected test_order 4 101 test_order-IsWireOrder test_order-accepted (omega arith)
      (omega arith) (λ e. omega arith)
