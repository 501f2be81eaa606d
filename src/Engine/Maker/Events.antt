-- ===== src/Engine/Maker/Events.antt =====
-- The requests of one event of the book in include/hft/engine/strategy/mm_mean_reversion.hpp.
use low_latency_trading_pipe.Base.{
  ℕ, ◌≡◌, refl, inl, inr, Bool, true, false, ◌&&◌, ◌||◌, not, Option, none, some, arith, leb, ◌==◌,
  Bool-cases, magnitude,
}
use low_latency_trading_pipe.Engine.Risk.{Side, buy, sell}
use low_latency_trading_pipe.Engine.Maker.{
  note_panicked, Params, Doubles, Desk, Top, cancel_blocked, quote_side, drop_side, flatten,
  refill_buckets, resting, requotes,
}
use low_latency_trading_pipe.Engine.Maker.Event.{
  kill, enter_panic, is_stopped, is_long, is_short, requote, on_book_event, note_blocked,
  note_quoted, quote_book, look_at_book, observed, queue_at,
}
use low_latency_trading_pipe.Engine.Maker.Bands.{
  Emits, Emits-refl, Emits-trans, cancel_blocked-Emits, quote_side-Emits, is_allowed,
}

module _ {D : Type 0} where
  note_blocked-Emits : (b c blocked : Bool) (d : Desk D) → Emits b c d (note_blocked blocked d)
  note_blocked-Emits b c true d = Emits-refl b c refl refl refl
  note_blocked-Emits b c false d = Emits-refl b c refl refl refl

  note_quoted-Emits : (b c : Bool) (d : Desk D) → Emits b c d (note_quoted d)
  note_quoted-Emits b c d =
      elim (Bool-cases (d.state.resting_bid == 0 || d.state.resting_ask == 0)) [
        | inl e ↦ rw e (Emits-refl b c refl refl refl)
        | inr e ↦ rw e (Emits-refl b c refl refl refl)
      ]

  drop_side-Emits : (b c : Bool) (side : Side) (d : Desk D) → Emits b c d (drop_side side d)
  drop_side-Emits b c buy d = elim (Bool-cases (resting buy d.state == 0)) [
    | inl e ↦ rw e (Emits-refl b c refl refl refl)
    | inr e ↦ rw e (Emits-refl b c refl refl refl)
  ]
  drop_side-Emits b c sell d = elim (Bool-cases (resting sell d.state == 0)) [
    | inl e ↦ rw e (Emits-refl b c refl refl refl)
    | inr e ↦ rw e (Emits-refl b c refl refl refl)
  ]

  flatten-Emits : (b c : Bool) (d : Desk D) → Emits b c d (flatten d)
  unfolding flatten
  flatten-Emits b c d =
      Emits-trans (drop_side-Emits b c buy d) (drop_side-Emits b c sell (drop_side buy d))

  enter_panic-Emits : (b c : Bool) (d : Desk D) → Emits b c d (enter_panic d)
  enter_panic-Emits b c d =
      let noted = note_panicked (record d { state = kill d.state }) in
      let same : Emits b c d noted = Emits-refl b c refl refl refl in
      Emits-trans same (flatten-Emits b c noted)

  requote-Emits :
      (p : Params) (hard_band : Bool) (bb ba : ℕ × ℕ) (bid_px ask_px : ℕ) (d : Desk D)
      → Emits
          (hard_band && is_long d.state.inventory)
          (hard_band && is_short d.state.inventory)
          d
          (requote p hard_band bb ba bid_px ask_px d)
  unfolding requote
  requote-Emits p hard_band bb ba bid_px ask_px d =
      let b = hard_band && is_long d.state.inventory in
      let c = hard_band && is_short d.state.inventory in
      let noted = note_blocked (b || c) d in
      let cancelled = cancel_blocked sell c (cancel_blocked buy b noted) in
      let want_buy = requotes p buy bid_px d.state && not b in
      let want_sell = requotes p sell ask_px d.state && not c in
      let bid_done = quote_side p buy want_buy bid_px (queue_at bid_px bb) cancelled in
      let done = quote_side p sell want_sell ask_px (queue_at ask_px ba) bid_done in
      Emits-trans (note_blocked-Emits b c (b || c) d) (
        Emits-trans (cancel_blocked-Emits b c buy b noted) (
          Emits-trans (cancel_blocked-Emits b c sell c (cancel_blocked buy b noted)) (
            Emits-trans
              (quote_side-Emits b c p buy want_buy bid_px (queue_at bid_px bb) cancelled
                (wanted-buy b c p.quote_qty bid_px (requotes p buy bid_px d.state)))
              (Emits-trans
                (quote_side-Emits b c p sell want_sell ask_px (queue_at ask_px ba) bid_done
                  (wanted-sell b c p.quote_qty ask_px (requotes p sell ask_px d.state)))
                (note_quoted-Emits b c done)))))
    where
      wanted-buy :
          (b c : Bool) (qty px : ℕ) (again : Bool)
          → again && not b ≡ true
          → is_allowed b c (record { side = buy; px = px; qty = qty }) ≡ true
      wanted-buy b c qty px again h = ground arith

      wanted-sell :
          (b c : Bool) (qty px : ℕ) (again : Bool)
          → again && not c ≡ true
          → is_allowed b c (record { side = sell; px = px; qty = qty }) ≡ true
      wanted-sell b c qty px again h = ground arith

  -- The bands of a desk: whether buying, or selling, is blocked.
  abbrev pub blocks_buy : Doubles D → Desk D → Bool
  blocks_buy f d = f.hard_band (magnitude d.state.inventory) && is_long d.state.inventory

  abbrev pub blocks_sell : Doubles D → Desk D → Bool
  blocks_sell f d = f.hard_band (magnitude d.state.inventory) && is_short d.state.inventory

  quote_book-Emits :
      (p : Params) (f : Doubles D) (bb ba : ℕ × ℕ) (d : Desk D)
      → Emits (blocks_buy f d) (blocks_sell f d) d (quote_book p f bb ba d)
  unfolding quote_book
  quote_book-Emits p f bb ba d =
      let b = blocks_buy f d in
      let c = blocks_sell f d in
      let inv = d.state.inventory in
      let soft = f.soft_band (magnitude inv) in
      let bid_px = f.bid_px bb.0 ba.0 inv soft d.state.doubles in
      let ask_px = f.ask_px bb.0 ba.0 inv soft d.state.doubles in
      elim (Bool-cases (f.panic_band (magnitude inv))) [
        | inl e ↦ rw e (enter_panic-Emits b c d)
        | inr e ↦ elim (Bool-cases (bid_px == 0 || leb ask_px bid_px)) [
          | inl e' ↦ rw (e, e') (Emits-refl b c refl refl refl)
          | inr e' ↦
              rw (e, e') (requote-Emits p (f.hard_band (magnitude inv)) bb ba bid_px ask_px d)
        ]
      ]

  look_at_book-Emits :
      (p : Params) (f : Doubles D) (bid ask : Option (ℕ × ℕ)) (d : Desk D)
      → Emits (blocks_buy f d) (blocks_sell f d) d (look_at_book p f bid ask d)
  unfolding look_at_book
  look_at_book-Emits p f none ask d = Emits-refl _ _ refl refl refl
  look_at_book-Emits p f (some bb) none d = Emits-refl _ _ refl refl refl
  look_at_book-Emits p f (some bb) (some ba) d = elim (Bool-cases (leb ba.0 bb.0)) [
    | inl e ↦ rw e (Emits-refl _ _ refl refl refl)
    | inr e ↦
        let seen = observed f bb.0 ba.0 d in
        let same : Emits (blocks_buy f d) (blocks_sell f d) d seen =
          Emits-refl _ _ refl refl refl in
        rw e (Emits-trans same (quote_book-Emits p f bb ba seen))
  ]

  -- An event of the book at a desk that is not stopped emits requests, each for a token of the
  -- symbol's and of the shared bucket as they were refilled for it; while the inventory is in the hard
  -- band, none of them is a quote on the side that would make it larger.
  pub on_book_event-Emits :
      (p : Params) (f : Doubles D) (top : Top) (ts : ℕ) (d : Desk D)
      → is_stopped d ≡ false
      → Emits
          (blocks_buy f d)
          (blocks_sell f d)
          (refill_buckets p ts d)
          (on_book_event p f top ts d)
  unfolding on_book_event refill_buckets
  on_book_event-Emits p f top ts d h =
      rw h (look_at_book-Emits p f top.bid top.ask (refill_buckets p ts d))
