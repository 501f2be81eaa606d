-- ===== src/Engine/Table/Tests.antt =====
-- Tests of the table.
use low_latency_trading_pipe.Base.{◌*◌, ◌^◌, ◌≡◌, refl}
use low_latency_trading_pipe.Engine.Table.{round_up, slot_count}

-- A table size is rounded up to a power of two.
round_up_runs : (round_up 64 1 (2 * 2 ^ 18) ≡ slot_count) × (round_up 64 1 5 ≡ 8)
unfolding round_up
round_up_runs = (refl, refl)
