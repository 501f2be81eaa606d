-- ===== src/Engine/Maker/Event.antt =====
-- MarketMaker::on_book_event, on_fill and the switches of
-- include/hft/engine/strategy/mm_mean_reversion.hpp.
use low_latency_trading_pipe.Base.{
  ℕ, ◌+◌, Bool, true, false, ◌&&◌, ◌||◌, not, Option, none, some, leb, ◌==◌, if◌then◌else◌, ℤ,
  above, below, magnitude, ◌+ℤ◌, negate, u64, pos,
}
use low_latency_trading_pipe.Engine.Risk.{buy, sell}
use low_latency_trading_pipe.Engine.FillSim.{Fill}
use low_latency_trading_pipe.Engine.Maker.{
  Params, Doubles, State, Desk, Top, skip_panicked, cancel_blocked, flatten, refill_buckets,
  set_resting, quote_side, requotes,
}

abbrev pub is_long : ℤ → Bool
is_long inventory = not (above inventory == 0)

abbrev pub is_short : ℤ → Bool
is_short inventory = not (below inventory == 0)

abbrev pub queue_at : ℕ → ℕ × ℕ → ℕ
queue_at px (best, qty) = if px == best then qty else 0

-- What a fill adds to the inventory.
abbrev pub signed : Fill → ℤ
signed fill = elim fill.side [ buy ↦ pos fill.qty | sell ↦ negate (pos fill.qty) ]

module _ {D : Type 0} where
  -- The test at the head of on_book_event.
  abbrev pub is_stopped : Desk D → Bool
  is_stopped d = d.shared.global_kill || d.state.panic

  abbrev pub kill : State D → State D
  kill s = record s { panic = true }

  -- The panic band: the switch of the symbol, which only arming resets.
  abbrev pub enter_panic : Desk D → Desk D
  enter_panic d = skip_panicked (record d { state = kill d.state })

  abbrev pub note_blocked : Bool → Desk D → Desk D
  note_blocked blocked d =
      if blocked
      then record d {
        state = record (d.state) { skip_hard_band = u64 (d.state.skip_hard_band + 1) };
      }
      else d

  abbrev pub note_quoted : Desk D → Desk D
  note_quoted d =
      if d.state.resting_bid == 0 || d.state.resting_ask == 0
      then d
      else record d { state = record (d.state) { quoted_both = u64 (d.state.quoted_both + 1) } }

  -- From the prices on: the cancels of blocked sides, then the quotes. Whether a side is wanted was
  -- found before either.
  unfoldable pub requote : Params → Bool → ℕ × ℕ → ℕ × ℕ → ℕ → ℕ → Desk D → Desk D
  unfolding cancel_blocked quote_side
  requote p hard_band bb ba bid_px ask_px d =
      let block_buy = hard_band && is_long d.state.inventory in
      let block_sell = hard_band && is_short d.state.inventory in
      let want_buy = requotes p buy bid_px d.state && not block_buy in
      let want_sell = requotes p sell ask_px d.state && not block_sell in
      let noted = note_blocked (block_buy || block_sell) d in
      let cancelled = cancel_blocked sell block_sell (cancel_blocked buy block_buy noted) in
      let bid_done = quote_side p buy want_buy bid_px (queue_at bid_px bb) cancelled in
      note_quoted (quote_side p sell want_sell ask_px (queue_at ask_px ba) bid_done)

  -- With both sides of the book and the mean of the new mid price.
  unfoldable pub quote_book : Params → Doubles D → ℕ × ℕ → ℕ × ℕ → Desk D → Desk D
  unfolding requote flatten
  quote_book p f bb ba d =
      let inv = d.state.inventory in
      let abs_inv = magnitude inv in
      let soft = f.soft_band abs_inv in
      let bid_px = f.bid_px bb.0 ba.0 inv soft d.state.doubles in
      let ask_px = f.ask_px bb.0 ba.0 inv soft d.state.doubles in
      if f.panic_band abs_inv
      then enter_panic d
      else if bid_px == 0 || leb ask_px bid_px
      then record d { state = record (d.state) { skip_bad_px = u64 (d.state.skip_bad_px + 1) } }
      else requote p (f.hard_band abs_inv) bb ba bid_px ask_px d

  abbrev pub skip_tob : Desk D → Desk D
  skip_tob d = record d { state = record (d.state) { skip_no_tob = u64 (d.state.skip_no_tob + 1) } }

  abbrev pub observed : Doubles D → ℕ → ℕ → Desk D → Desk D
  observed f bb ba d = record d {
    state = record (d.state) { doubles = f.observe bb ba d.state.doubles };
  }

  unfoldable pub look_at_book :
      Params → Doubles D → Option (ℕ × ℕ) → Option (ℕ × ℕ) → Desk D → Desk D
  unfolding quote_book
  look_at_book p f none ask d = skip_tob d
  look_at_book p f (some bb) none d = skip_tob d
  look_at_book p f (some bb) (some ba) d =
      if leb ba.0 bb.0
      then record d { state = record (d.state) { skip_crossed = u64 (d.state.skip_crossed + 1) } }
      else quote_book p f bb ba (observed f bb.0 ba.0 d)

  unfoldable pub on_book_event : Params → Doubles D → Top → ℕ → Desk D → Desk D
  unfolding refill_buckets look_at_book flatten
  on_book_event p f top ts d =
      if is_stopped d
      then skip_panicked d
      else look_at_book p f top.bid top.ask (refill_buckets p ts d)

  unfoldable pub on_fill : Doubles D → Fill → State D → State D
  on_fill f fill s = record (set_resting fill.side 0 s) {
    doubles = f.fill_pnl fill s.inventory s.doubles;
    inventory = s.inventory +ℤ signed fill;
    total_fills = u64 (s.total_fills + 1);
  }

  abbrev pub arm : State D → State D
  arm s = record s { panic = false }
