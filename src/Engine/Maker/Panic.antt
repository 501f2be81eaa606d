-- ===== src/Engine/Maker/Panic.antt =====
-- The panic and kill switches of include/hft/engine/strategy/mm_mean_reversion.hpp.
use low_latency_trading_pipe.Base.{
  ℕ, ◌≡◌, refl, ap₂, ◌∙◌, inl, inr, true, ◌||◌, List, [], ◌∷◌, arith, ◌==◌, Bool-cases,
}
use low_latency_trading_pipe.Engine.Risk.{Side, buy, sell}
use low_latency_trading_pipe.Engine.FillSim.{Fill}
use low_latency_trading_pipe.Engine.Maker.{
  Params, Doubles, State, Desk, Top, flatten, skip_panicked, drop_side, resting, set_resting,
  note_panicked,
}
use low_latency_trading_pipe.Engine.Maker.Event.{is_stopped, on_book_event, on_fill}

-- What comes to a desk: an event of the book, or a fill.
pub data Input : Type 0 where
  book_event : Top → ℕ → Input
  filled : Fill → Input

module _ {D : Type 0} where
  unfoldable pub react : Params → Doubles D → Desk D → Input → Desk D
  unfolding on_book_event on_fill
  react p f d (book_event top ts) = on_book_event p f top ts d
  react p f d (filled fill) = record d { state = on_fill f fill d.state }

  unfoldable pub react_all : Params → Doubles D → Desk D → List Input → Desk D
  unfolding react
  react_all p f d [] = d
  react_all p f d (i ∷ is) = react_all p f (react p f d i) is

  -- Between two desks: nothing was emitted, and each of the two switches is as it was.
  pub record IsSilent (d d' : Desk D) : Type 0 where
    pub emitted : d'.emitted ≡ d.emitted
    pub panic : d'.state.panic ≡ d.state.panic
    pub global : d'.shared.global_kill ≡ d.shared.global_kill

  IsSilent-trans : {d d' d'' : Desk D} → IsSilent d d' → IsSilent d' d'' → IsSilent d d''
  IsSilent-trans s s' = record {
    emitted = s'.emitted ∙ s.emitted;
    panic = s'.panic ∙ s.panic;
    global = s'.global ∙ s.global;
  }

  drop_side-IsSilent : (side : Side) (d : Desk D) → IsSilent d (drop_side side d)
  drop_side-IsSilent buy d = elim (Bool-cases (resting buy d.state == 0)) [
    | inl e ↦ rw e (record { emitted = refl; panic = refl; global = refl })
    | inr e ↦ rw e (record { emitted = refl; panic = refl; global = refl })
  ]
  drop_side-IsSilent sell d = elim (Bool-cases (resting sell d.state == 0)) [
    | inl e ↦ rw e (record { emitted = refl; panic = refl; global = refl })
    | inr e ↦ rw e (record { emitted = refl; panic = refl; global = refl })
  ]

  -- The quote of a dropped side is gone, and the other side's is as it was.
  drop_side-resting : (side : Side) (d : Desk D) → resting side (drop_side side d).state ≡ 0
  drop_side-resting buy d = elim (Bool-cases (resting buy d.state == 0)) [
    | inl e ↦ rw e (ground (arith, e))
    | inr e ↦ rw e refl
  ]
  drop_side-resting sell d = elim (Bool-cases (resting sell d.state == 0)) [
    | inl e ↦ rw e (ground (arith, e))
    | inr e ↦ rw e refl
  ]

  drop_sell-bid : (d : Desk D) → (drop_side sell d).state.resting_bid ≡ d.state.resting_bid
  drop_sell-bid d = elim (Bool-cases (resting sell d.state == 0)) [
    | inl e ↦ rw e refl
    | inr e ↦ rw e refl
  ]

  flatten-IsSilent : (d : Desk D) → IsSilent d (flatten d)
  unfolding flatten
  flatten-IsSilent d =
      IsSilent-trans (drop_side-IsSilent buy d) (drop_side-IsSilent sell (drop_side buy d))

  flatten-resting :
      (d : Desk D) → ((flatten d).state.resting_bid ≡ 0) × ((flatten d).state.resting_ask ≡ 0)
  unfolding flatten
  flatten-resting d = (
    drop_sell-bid (drop_side buy d) ∙ drop_side-resting buy d,
    drop_side-resting sell (drop_side buy d),
  )

  skip_panicked-IsSilent : (d : Desk D) → IsSilent d (skip_panicked d)
  skip_panicked-IsSilent d =
      IsSilent-trans (record { emitted = refl; panic = refl; global = refl })
        (flatten-IsSilent (note_panicked d))

  on_fill-panic : (f : Doubles D) (fill : Fill) (s : State D) → (on_fill f fill s).panic ≡ s.panic
  unfolding on_fill
  on_fill-panic f fill s = set_resting-panic fill.side
    where
      set_resting-panic : (side : Side) → (set_resting side 0 s).panic ≡ s.panic
      set_resting-panic buy = refl
      set_resting-panic sell = refl

  -- A stopped desk takes both its quotes back at an event of the book.
  pub on_book_event-stopped :
      (p : Params) (f : Doubles D) (top : Top) (ts : ℕ) (d : Desk D)
      → is_stopped d ≡ true
      → IsSilent d (on_book_event p f top ts d)
        × ((on_book_event p f top ts d).state.resting_bid ≡ 0)
        × ((on_book_event p f top ts d).state.resting_ask ≡ 0)
  unfolding on_book_event
  on_book_event-stopped p f top ts d h =
      let gone = flatten-resting (note_panicked d) in
      rw h (skip_panicked-IsSilent d, gone.0, gone.1)

  react-IsSilent :
      (p : Params) (f : Doubles D) (d : Desk D) (i : Input)
      → is_stopped d ≡ true
      → IsSilent d (react p f d i)
  unfolding react
  react-IsSilent p f d (book_event top ts) h = (on_book_event-stopped p f top ts d h).0
  react-IsSilent p f d (filled fill) h = record {
    emitted = refl;
    panic = on_fill-panic f fill d.state;
    global = refl;
  }

  -- While the symbol's panic switch or the global one is on, no events and fills make the desk emit
  -- anything, or change either switch.
  pub react_all-IsSilent :
      (p : Params) (f : Doubles D) (d : Desk D) (is : List Input)
      → is_stopped d ≡ true
      → IsSilent d (react_all p f d is)
  unfolding react_all
  react_all-IsSilent p f d [] h = record { emitted = refl; panic = refl; global = refl }
  react_all-IsSilent p f d (i ∷ is) h =
      let first = react-IsSilent p f d i h in
      IsSilent-trans first (
        react_all-IsSilent p f (react p f d i) is
          (ap₂ (λ a b. a || b) first.global first.panic ∙ h))
