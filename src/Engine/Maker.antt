-- ===== src/Engine/Maker.antt =====
-- MarketMaker of include/hft/engine/strategy/mm_mean_reversion.hpp: the quoting for one symbol. The
-- computations on doubles are an argument, with the fields that they keep; prices below 0 are as 0,
-- which the code tests for together, and a burst below 0 is as 0. The quotes and cancels that are
-- emitted are a list, oldest first; what the submit function answers is not looked at by the code.
pub mod Event
pub mod Panic
pub mod Bands
pub mod Events
use low_latency_trading_pipe.Base.{
  ℕ, ◌+◌, ◌-◌, ◌*◌, ◌/◌, ◌^◌, Bool, ◌&&◌, ◌||◌, not, Option, List, [], ◌∷◌, ◌++◌, ltb, leb, ◌==◌,
  if◌then◌else◌, ℤ, u32, u64,
}
use low_latency_trading_pipe.Engine.Risk.{Side, buy, sell}
use low_latency_trading_pipe.Engine.FillSim.{Fill, FillSim, on_quote, on_cancel}

-- The parameters that are no doubles; a rate is its conversion to uint64_t.
pub record Params : Type 0 where
  pub quote_qty : ℕ
  pub requote_threshold_ticks : ℕ
  pub per_symbol_msgs_per_sec : ℕ
  pub aggregate_msgs_per_sec : ℕ
  pub burst_msgs : ℕ

-- What the code computes with doubles, on the fields `D` that hold doubles: the mean of a new
-- mid price, the bands of an absolute inventory, the prices, and the effect of a fill.
pub record Doubles (D : Type 0) : Type 0 where
  pub observe : ℕ → ℕ → D → D
  pub soft_band : ℕ → Bool
  pub hard_band : ℕ → Bool
  pub panic_band : ℕ → Bool
  pub bid_px : ℕ → ℕ → ℤ → Bool → D → ℕ
  pub ask_px : ℕ → ℕ → ℤ → Bool → D → ℕ
  pub fill_pnl : Fill → ℤ → D → D

-- The state of a symbol with the counters.
pub record State (D : Type 0) : Type 0 where
  pub doubles : D
  pub panic : Bool
  pub inventory : ℤ
  pub resting_bid : ℕ
  pub resting_ask : ℕ
  pub tokens : ℕ
  pub last_refill_ts : ℕ
  pub total_quotes : ℕ
  pub total_fills : ℕ
  pub rate_limited : ℕ
  pub skip_no_tob : ℕ
  pub skip_crossed : ℕ
  pub skip_bad_px : ℕ
  pub skip_hard_band : ℕ
  pub skip_panic : ℕ
  pub quoted_both : ℕ

-- The bucket that all symbols share.
pub record Shared : Type 0 where
  pub agg_tokens : ℕ
  pub last_agg_refill : ℕ
  pub global_kill : Bool

-- A call of the submit function: no quantity cancels.
pub record Request : Type 0 where
  pub side : Side
  pub px : ℕ
  pub qty : ℕ

-- What on_book_event works on: the symbol, the shared bucket, the simulation and what is emitted.
pub record Desk (D : Type 0) : Type 0 where
  pub state : State D
  pub shared : Shared
  pub fsim : FillSim
  pub emitted : List Request

-- The best prices of the book and the quantities there; none is an empty side.
pub record Top : Type 0 where
  pub bid : Option (ℕ × ℕ)
  pub ask : Option (ℕ × ℕ)

-- One bucket of refill_buckets: the tokens and the time of the last refill. The number to add is cast
-- to int32_t.
unfoldable pub refill_bucket : ℕ → ℕ → ℕ → ℕ × ℕ → ℕ × ℕ
refill_bucket rate burst ts (tokens, last) =
    let add = u32 (u64 ((ts - last) * rate) / 1_000_000_000) in
    let want = tokens + add in
    if last == 0
    then (tokens, ts)
    else if leb ts last
    then (tokens, last)
    else if add == 0 || leb (2 ^ 31) add
    then (tokens, last)
    else (if ltb burst want then burst else want, ts)

module _ {D : Type 0} where
  unfoldable pub refill_buckets : Params → ℕ → Desk D → Desk D
  unfolding refill_bucket
  refill_buckets p ts d =
      let own =
        refill_bucket p.per_symbol_msgs_per_sec p.burst_msgs ts
          (d.state.tokens, d.state.last_refill_ts) in
      let all =
        refill_bucket p.aggregate_msgs_per_sec p.burst_msgs ts
          (d.shared.agg_tokens, d.shared.last_agg_refill) in
      record d {
        state = record (d.state) { tokens = own.0; last_refill_ts = own.1 };
        shared = record (d.shared) { agg_tokens = all.0; last_agg_refill = all.1 };
      }

  -- try_consume_msg: whether a message may be sent, and the desk with a token less.
  abbrev pub may_send : Desk D → Bool
  may_send d = not (d.state.tokens == 0 || d.shared.agg_tokens == 0)

  unfoldable pub consume_msg : Desk D → Desk D
  consume_msg d = record d {
    state = record (d.state) { tokens = d.state.tokens - 1 };
    shared = record (d.shared) { agg_tokens = d.shared.agg_tokens - 1 };
  }

  abbrev pub resting : Side → State D → ℕ
  resting buy s = s.resting_bid
  resting sell s = s.resting_ask

  abbrev pub set_resting : Side → ℕ → State D → State D
  set_resting buy px s = record s { resting_bid = px }
  set_resting sell px s = record s { resting_ask = px }

  abbrev pub drop_side : Side → Desk D → Desk D
  drop_side side d =
      if resting side d.state == 0
      then d
      else record d { state = set_resting side 0 d.state; fsim = on_cancel side d.fsim }

  unfoldable pub flatten : Desk D → Desk D
  unfolding on_cancel
  flatten d = drop_side sell (drop_side buy d)

  abbrev pub note_panicked : Desk D → Desk D
  note_panicked d = record d {
    state = record (d.state) { skip_panic = u64 (d.state.skip_panic + 1) };
  }

  abbrev pub skip_panicked : Desk D → Desk D
  skip_panicked d = flatten (note_panicked d)

  -- A blocked side with a resting quote: its cancel, if a message may be sent.
  unfoldable pub cancel_blocked : Side → Bool → Desk D → Desk D
  unfolding consume_msg on_cancel
  cancel_blocked side blocked d =
      let px = resting side d.state in
      let c = consume_msg d in
      if blocked && (not (px == 0) && may_send d)
      then record c {
        state = set_resting side 0 c.state;
        fsim = on_cancel side c.fsim;
        emitted = c.emitted ++ (record { side = side; px = px; qty = 0 } ∷ []);
      }
      else d

  -- Whether a side is to be quoted again.
  abbrev pub requotes : Params → Side → ℕ → State D → Bool
  requotes p side px s =
      let old = resting side s in
      old == 0 || leb p.requote_threshold_ticks ((px - old) + (old - px))

  abbrev pub place : Params → Side → ℕ → ℕ → Desk D → Desk D
  place p side px queue_ahead c = record c {
    state = record (set_resting side px c.state) { total_quotes = u64 (c.state.total_quotes + 1) };
    fsim = on_quote side px p.quote_qty queue_ahead c.fsim;
    emitted = c.emitted ++ (record { side = side; px = px; qty = p.quote_qty } ∷ []);
  }

  abbrev pub note_limited : Desk D → Desk D
  note_limited d = record d {
    state = record (d.state) { rate_limited = u64 (d.state.rate_limited + 1) };
  }

  -- A side that is wanted and not blocked: the quote, or the note that the rate does not allow it.
  unfoldable pub quote_side : Params → Side → Bool → ℕ → ℕ → Desk D → Desk D
  unfolding consume_msg on_quote
  quote_side p side wanted px queue_ahead d =
      if not wanted
      then d
      else if may_send d
      then place p side px queue_ahead (consume_msg d)
      else note_limited d
