-- ===== src/Engine/FillSim/Queue.antt =====
-- The queue before a quote in include/hft/engine/sim/fill_sim.hpp.
use low_latency_trading_pipe.Base.{ℕ, ◌+◌, ◌-◌, ◌≤◌, ◌<◌, ◌≡◌, false, List, [], ◌∷◌, arith}
use low_latency_trading_pipe.Engine.Risk.{Side, buy, sell}
use low_latency_trading_pipe.Engine.FillSim.{
  RestingQuote, match_trade, is_better, trade_at_level, least,
}

-- Trades at the quote's own price, one after the other: what is filled in all, and the quote left.
unfoldable pub trades_at_level : Side → List ℕ → RestingQuote → ℕ × RestingQuote
unfolding match_trade
trades_at_level side [] q = (0, q)
trades_at_level side (v ∷ vs) q =
    let r = match_trade side q.px v q in
    let rest = trades_at_level side vs r.1 in (r.0 + rest.0, rest.1)

unfoldable pub sum : List ℕ → ℕ
sum [] = 0
sum (v ∷ vs) = v + sum vs

same_price : (side : Side) (px : ℕ) → is_better side px px ≡ false
unfolding is_better
same_price buy px = ground arith
same_price sell px = ground arith

-- One trade at the level.
match_trade-level :
    (side : Side) (v : ℕ) (q : RestingQuote)
    → let r = match_trade side q.px v q in
      (r.0 ≡ least q.qty (v - q.queue_ahead))
      × (r.1.qty ≡ q.qty - r.0)
      × (r.1.px ≡ q.px)
      × (0 < r.1.qty → r.1.queue_ahead ≡ q.queue_ahead - v)
unfolding match_trade trade_at_level
match_trade-level side v q = rw (same_price side q.px, match_trade) (ground arith)

-- The arithmetic of a trade and those after it.
two_trades :
    (qty queue v vs first left queue' rest : ℕ)
    → first ≡ least qty (v - queue)
    → left ≡ qty - first
    → (0 < left → queue' ≡ queue - v)
    → rest ≡ least left (vs - queue')
    → first + rest ≡ least qty (v + vs - queue)
two_trades qty queue v vs first left queue' rest f l g r = ground arith

least-le : (x a b : ℕ) → x ≡ least a b → x ≤ a
least-le x a b h = ground arith

-- Of a quote, trades at its own price fill in all what they exceed the queue before it by, up to its
-- quantity, however the traded quantity is split, and leave the rest of the quote.
pub trades_at_level-sum :
    (side : Side) (vs : List ℕ) (q : RestingQuote)
    → ((trades_at_level side vs q).0 ≡ least q.qty (sum vs - q.queue_ahead))
      × ((trades_at_level side vs q).1.qty + (trades_at_level side vs q).0 ≡ q.qty)
unfolding trades_at_level sum
trades_at_level-sum side [] q = (ground arith, omega arith)
trades_at_level-sum side (v ∷ vs) q =
    let r = match_trade side q.px v q in
    let m = match_trade-level side v q in
    let rest = trades_at_level-sum side vs r.1 in
    (
      two_trades q.qty q.queue_ahead v (sum vs) r.0 r.1.qty r.1.queue_ahead
          (trades_at_level side vs r.1).0 m.0 m.1 m.3 rest.0,
      omega (arith, m.1, rest.1, least-le r.0 q.qty (v - q.queue_ahead) m.0),
    )
