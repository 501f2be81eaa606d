-- ===== src/Ring/Tests.antt =====
-- Tests of the ring: cursors about to wrap, one entry held.
use low_latency_trading_pipe.Base.{ℕ, ◌-◌, ◌^◌, ◌≡◌, arith}
use low_latency_trading_pipe.Ring.{Ring, publish, consume}
use low_latency_trading_pipe.Ring.Queue.{
  contents, IsValid, push, pop, view, AllValid, publish_refines, consume_refines,
}

abbrev wrapping_ring : Ring ℕ
wrapping_ring = record { next_write = 2 ^ 32 - 1; next_read = 2 ^ 32 - 2; slots = λ i. i }

wrapping_ring-IsValid : IsValid wrapping_ring
wrapping_ring-IsValid = record {
  write_word = omega arith;
  read_word = omega arith;
  fits = omega arith;
}

publish_refines_example :
    (((publish wrapping_ring 7).0, contents (publish wrapping_ring 7).1)
      ≡ push (contents wrapping_ring) 7)
    × IsValid (publish wrapping_ring 7).1
publish_refines_example = publish_refines wrapping_ring 7 wrapping_ring-IsValid

consume_refines_example :
    (view (consume wrapping_ring) ≡ pop (contents wrapping_ring)) × AllValid (consume wrapping_ring)
consume_refines_example = consume_refines wrapping_ring wrapping_ring-IsValid
