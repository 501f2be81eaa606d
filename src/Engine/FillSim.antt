-- ===== src/Engine/FillSim.antt =====
-- include/hft/engine/sim/fill_sim.hpp: when a quote of ours would have been filled by the trades of
-- the feed. Quantities and prices are natural numbers: a quantity below 0 is refused as 0 is.
pub mod Queue
use low_latency_trading_pipe.Base.{ℕ, ◌-◌, Bool, ◌||◌, Option, none, some, ltb, ◌==◌, if◌then◌else◌}
use low_latency_trading_pipe.Engine.Risk.{Side, buy, sell}

pub record RestingQuote : Type 0 where
  pub px : ℕ
  pub qty : ℕ
  pub queue_ahead : ℕ

abbrev pub no_quote : RestingQuote
no_quote = record { px = 0; qty = 0; queue_ahead = 0 }

pub record Fill : Type 0 where
  pub side : Side
  pub px : ℕ
  pub qty : ℕ
  pub ts : ℕ

pub record FillSim : Type 0 where
  pub bid : RestingQuote
  pub ask : RestingQuote

abbrev pub init : FillSim
init = record { bid = no_quote; ask = no_quote }

-- The reference that `quote` gives, read and written.
unfoldable pub quote : Side → FillSim → RestingQuote
quote buy f = f.bid
quote sell f = f.ask

unfoldable pub set_quote : Side → RestingQuote → FillSim → FillSim
set_quote buy q f = record f { bid = q }
set_quote sell q f = record f { ask = q }

unfoldable pub on_quote : Side → ℕ → ℕ → ℕ → FillSim → FillSim
unfolding set_quote
on_quote side px qty queue_ahead =
    set_quote side (record { px = px; qty = qty; queue_ahead = queue_ahead })

unfoldable pub on_cancel : Side → FillSim → FillSim
unfolding set_quote
on_cancel side = set_quote side no_quote

-- std::min
abbrev pub least : ℕ → ℕ → ℕ
least a b = if ltb b a then b else a

unfoldable pub is_better : Side → ℕ → ℕ → Bool
is_better buy px trade_px = ltb trade_px px
is_better sell px trade_px = ltb px trade_px

-- A trade past our level takes the whole quote.
unfoldable pub sweep : RestingQuote → ℕ × RestingQuote
sweep q = (q.qty, record q { qty = 0; queue_ahead = 0 })

-- A trade at our level: what stands before us in the queue first.
unfoldable pub trade_at_level : ℕ → RestingQuote → ℕ × RestingQuote
trade_at_level trade_qty q =
    let eat = least q.queue_ahead trade_qty in
    let fill_qty = least q.qty (trade_qty - eat) in
    let left = q.qty - fill_qty in
    (fill_qty, record q { qty = left; queue_ahead = if left == 0 then 0 else q.queue_ahead - eat })

-- The quantity filled on one side, and the quote afterwards.
unfoldable pub match_trade : Side → ℕ → ℕ → RestingQuote → ℕ × RestingQuote
unfolding is_better sweep trade_at_level
match_trade side trade_px trade_qty q =
    if q.qty == 0 || trade_qty == 0
    then (0, q)
    else if is_better side q.px trade_px
    then sweep q
    else if q.px == trade_px
    then trade_at_level trade_qty q
    else (0, q)

unfoldable pub on_trade : Side → ℕ → ℕ → ℕ → FillSim → Option Fill × FillSim
unfolding match_trade quote set_quote
on_trade resting_side trade_px trade_qty ts f =
    let q = quote resting_side f in
    let r = match_trade resting_side trade_px trade_qty q in
    (
      if r.0 == 0
          then none
          else some (record { side = resting_side; px = q.px; qty = r.0; ts = ts }),
      set_quote resting_side r.1 f,
    )
