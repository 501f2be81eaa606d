-- ===== src/Engine/Risk.antt =====
-- src/engine/risk/risk.cpp, include/hft/engine/risk/risk.hpp, include/hft/engine/strategy/signal.hpp:
-- the limits that an order passes. The bucket of tokens is taken from only while it is above 0 and
-- otherwise grows, so that its int64_t is a natural number here.
pub mod Limits
pub mod Rate
use low_latency_trading_pipe.Base.{
  ℕ, suc, ◌+◌, ◌-◌, ◌*◌, ◌/◌, ◌^◌, Bool, true, false, ◌&&◌, List, [], ◌∷◌, ltb, leb, ◌==◌,
  if◌then◌else◌, update, ℤ, ◌+ℤ◌, negate, leb_ℤ, u64, max_u64, pos, negsuc,
}

-- The defaults and the limits.
abbrev pub max_position_per_stock : ℕ
max_position_per_stock = 10000

abbrev pub max_order_qty : ℕ
max_order_qty = 500

abbrev pub max_order_notional : ℕ
max_order_notional = max_u64

abbrev pub max_daily_notional : ℕ
max_daily_notional = max_u64

abbrev pub max_orders_per_sec : ℕ
max_orders_per_sec = 100

abbrev pub order_burst : ℕ
order_burst = 50

-- oms::Side
pub data Side : Type 0 where
  buy : Side
  sell : Side

pub record Signal : Type 0 where
  pub stock_locate : ℕ
  pub price : ℕ
  pub qty : ℕ
  pub side : Side
  pub parse_ns : ℕ

-- The static variables; `last_ns` is `max_u64` until the first signal.
pub record Risk : Type 0 where
  pub tokens : ℕ
  pub last_ns : ℕ
  pub positions : ℕ → ℤ
  pub daily_notional : ℕ
  pub orders_per_sec : ℕ
  pub burst : ℕ

abbrev pub init : Risk
init = record {
  tokens = order_burst;
  last_ns = max_u64;
  positions = λ locate. pos 0;
  daily_notional = 0;
  orders_per_sec = max_orders_per_sec;
  burst = order_burst;
}

unfoldable pub set_limits : ℕ → ℕ → Risk → Risk
set_limits orders_per_sec burst r =
    let s = if ltb 0 orders_per_sec then record r { orders_per_sec = orders_per_sec } else r in
    if ltb 0 burst then record s { burst = burst; tokens = burst } else s

-- The tokens for the time since the last refill, in the uint64_t arithmetic of the code.
abbrev pub earned : Risk → ℕ → ℕ
earned r now_ns = u64 ((now_ns - r.last_ns) * r.orders_per_sec) / 1_000_000_000

unfoldable pub inline_refill : ℕ → Risk → Risk
inline_refill now_ns r =
    let want = r.tokens + earned r now_ns in
    if r.last_ns == max_u64
    then record r { last_ns = now_ns }
    else if leb now_ns r.last_ns
    then r
    else if earned r now_ns == 0
    then r
    else record r { last_ns = now_ns; tokens = if ltb r.burst want then r.burst else want }

-- The cast of a quantity to int32_t.
abbrev pub int32 : ℕ → ℤ
int32 qty = if ltb qty (2 ^ 31) then pos qty else negsuc (2 ^ 32 - suc qty)

abbrev pub delta : Signal → ℤ
delta s = elim s.side [ buy ↦ int32 s.qty | sell ↦ negate (int32 s.qty) ]

abbrev pub notional : Signal → ℕ
notional s = u64 (s.price * s.qty)

unfoldable pub new_pos : Risk → Signal → ℤ
new_pos r s = r.positions s.stock_locate +ℤ delta s

-- The test on the refilled state.
unfoldable pub is_ok : Risk → Signal → Bool
unfolding new_pos
is_ok r s =
    ltb 0 r.tokens
    && (leb s.qty max_order_qty
        && (leb (notional s) max_order_notional
            && (leb (u64 (r.daily_notional + notional s)) max_daily_notional
                && (leb_ℤ (new_pos r s) (pos max_position_per_stock)
                    && leb_ℤ (negate (pos max_position_per_stock)) (new_pos r s)))))

unfoldable pub fill : Risk → Signal → Risk
unfolding new_pos
fill r s = record r {
  tokens = r.tokens - 1;
  positions = update r.positions s.stock_locate (new_pos r s);
  daily_notional = u64 (r.daily_notional + notional s);
}

unfoldable pub check_and_fill : Risk → Signal → Bool × Risk
unfolding inline_refill is_ok fill
check_and_fill r s =
    let r' = inline_refill s.parse_ns r in if is_ok r' s then (true, fill r' s) else (false, r')

-- One signal after the other: how many were accepted, and the state.
unfoldable pub run : Risk → List Signal → ℕ × Risk
unfolding check_and_fill
run r [] = (0, r)
run r (s ∷ ss) =
    let c = check_and_fill r s in
    let rest = run c.1 ss in (if c.0 then suc rest.0 else rest.0, rest.1)
