-- ===== src/Engine/Oms.antt =====
-- src/engine/oms/oms.cpp, and engine_submit_quote of apps/engine/dispatcher.cpp: how an order gets an
-- id and a place on the ring ORDER_TO_EXC.
pub mod Laws
pub mod Quotes
use low_latency_trading_pipe.Base.{
  ℕ, ◌+◌, Bool, false, not, leb, ◌==◌, if◌then◌else◌, u32, u64, sub32,
}
use low_latency_trading_pipe.Ring.{Ring, size, mask, publish}
use low_latency_trading_pipe.OrderSender.{Order}
use low_latency_trading_pipe.Engine.Risk.{Side, buy, sell, Signal, Risk, check_and_fill}

-- The ring and the counter of ids.
pub record Oms : Type 0 where
  pub next_order_id : ℕ
  pub ring : Ring Order

-- oms::Side as a byte
unfoldable pub side_code : Side → ℕ
side_code buy = 0x42
side_code sell = 0x53

-- The place at the write cursor with the fields that are stored; `ts` and `send_ns` stay as they were.
abbrev pub filled_slot : Oms → ℕ → Side → ℕ → ℕ → ℕ → Order
filled_slot o stock_locate side price qty parse_ns =
    record (o.ring.slots (mask o.ring.next_write)) {
      order_id = o.next_order_id;
      price = price;
      qty = qty;
      stock_locate = stock_locate;
      side = side_code side;
      parse_ns = parse_ns;
    }

-- The id of the order, or 0 on a full ring.
unfoldable pub submit : ℕ → Side → ℕ → ℕ → ℕ → Oms → ℕ × Oms
submit stock_locate side price qty parse_ns o =
    if leb size (sub32 o.ring.next_write o.ring.next_read) then (0, o) else (
      o.next_order_id,
      record {
        next_order_id = u64 (o.next_order_id + 1);
        ring = (publish o.ring (filled_slot o stock_locate side price qty parse_ns)).1;
      },
    )

-- What stands behind the strategy's submit function.
pub record Gate : Type 0 where
  pub risk : Risk
  pub oms : Oms

abbrev pub submitted : Risk → ℕ × Oms → Bool × Gate
submitted risk r = (not (r.0 == 0), record { risk = risk; oms = r.1 })

abbrev pub signal_of : ℕ → Side → ℕ → ℕ → ℕ → Signal
signal_of locate side px qty parse_ns = record {
  stock_locate = locate;
  price = u32 px;
  qty = u32 qty;
  side = side;
  parse_ns = parse_ns;
}

-- A quantity of 0 cancels, past the risk checks.
unfoldable pub engine_submit_quote : ℕ → Side → ℕ → ℕ → ℕ → Gate → Bool × Gate
unfolding submit check_and_fill
engine_submit_quote locate side px qty parse_ns g =
    let c = check_and_fill g.risk (signal_of locate side px qty parse_ns) in
    if qty == 0
    then submitted g.risk (submit locate side (u32 px) 0 parse_ns g.oms)
    else if not c.0
    then (false, record g { risk = c.1 })
    else submitted c.1 (submit locate side (u32 px) (u32 qty) parse_ns g.oms)
