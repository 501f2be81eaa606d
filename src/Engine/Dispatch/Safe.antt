-- ===== src/Engine/Dispatch/Safe.antt =====
-- What reaches the exchange of all that apps/engine/dispatcher.cpp does.
use low_latency_trading_pipe.Base.{
  ℕ, ◌≤◌, ◌≡◌, sym, ap, ◌∙◌, inl, inr, List, [], ◌∷◌, ◌++◌, append-nil, append_assoc, arith, leb,
  ◌==◌, leb→le, Bool-cases, get_or, u32,
}
use low_latency_trading_pipe.Ring.{size}
use low_latency_trading_pipe.Ring.Queue.{contents, used, IsValid}
use low_latency_trading_pipe.Itch.{Event}
use low_latency_trading_pipe.OrderSender.{Order}
use low_latency_trading_pipe.Engine.Risk.{Side, Risk, check_and_fill, max_order_qty}
use low_latency_trading_pipe.Engine.Risk.Limits.{
  InLimits, check_and_fill-InLimits, check_and_fill-IsSettled,
}
use low_latency_trading_pipe.Engine.Oms.{
  Oms, Gate, submitted, filled_slot, engine_submit_quote, signal_of,
}
use low_latency_trading_pipe.Engine.Oms.Laws.{IsSubmitted, submit-IsSubmitted}
use low_latency_trading_pipe.Engine.Maker.{Params, Doubles, Request}
use low_latency_trading_pipe.Engine.Book.{Library}
use low_latency_trading_pipe.Engine.Dispatch.{
  Engine, Change, ignored, stuck, changed, submit_all, trade_info, simulate, look, quote_shard,
  locates, shard_for_locate, not_in_universe, apply_book, apply_change, apply_event, apply_events,
}

abbrev pub AllSmall : List Order → Type 0
AllSmall [] = Unit
AllSmall (x ∷ xs) = (x.qty ≤ max_order_qty) × AllSmall xs

-- Between two states of the gate: orders of at most 500 shares came behind those of the ring, which is
-- valid, and the positions are within their limits.
pub record Grows (g g' : Gate) : Type 0 where
  pub valid : IsValid g'.oms.ring
  pub limits : InLimits g'.risk
  pub orders : List Order
  pub small : AllSmall orders
  pub placed : contents g'.oms.ring ≡ contents g.oms.ring ++ orders

Grows-refl : (g : Gate) → IsValid g.oms.ring → InLimits g.risk → Grows g g
Grows-refl g v i = record {
  valid = v;
  limits = i;
  orders = [];
  small = tt;
  placed = sym (append-nil (contents g.oms.ring));
}

AllSmall-append : (xs ys : List Order) → AllSmall xs → AllSmall ys → AllSmall (xs ++ ys)
AllSmall-append [] ys h g = g
AllSmall-append (x ∷ xs) ys h g = (h.0, AllSmall-append xs ys h.1 g)

Grows-trans : {g g' g'' : Gate} → Grows g g' → Grows g' g'' → Grows g g''
Grows-trans {g} h h' = record {
  valid = h'.valid;
  limits = h'.limits;
  orders = h.orders ++ h'.orders;
  small = AllSmall-append h.orders h'.orders h.small h'.small;
  placed =
      h'.placed
      ∙ ap (λ x. x ++ h'.orders) h.placed
      ∙ append_assoc (contents g.oms.ring) h.orders h'.orders;
}

-- One submission after the risk checks, or past them for a cancel.
submitted-Grows :
    (g : Gate) (x : Order) (risk : Risk) (r : ℕ × Oms)
    → InLimits risk
    → x.qty ≤ max_order_qty
    → IsSubmitted g.oms x r
    → Grows g (submitted risk r).1
submitted-Grows g x risk r i small o = elim (Bool-cases (leb size (used g.oms.ring))) [
  | inl e ↦
      let same : r ≡ (0, g.oms) = o.refused (leb→le size (used g.oms.ring) e) in
      record {
        valid = o.valid;
        limits = i;
        orders = [];
        small = tt;
        placed = ap (λ y. contents y.1.ring) same ∙ sym (append-nil (contents g.oms.ring));
      }
  | inr e ↦ record {
    valid = o.valid;
    limits = i;
    orders = x ∷ [];
    small = (small, tt);
    placed = (o.placed (ground arith)).1;
  }
]

-- A quote or a cancel at the gate.
engine_submit_quote-Grows :
    (locate : ℕ) (side : Side) (px qty parse_ns : ℕ) (g : Gate)
    → IsValid g.oms.ring
    → InLimits g.risk
    → Grows g (engine_submit_quote locate side px qty parse_ns g).1
unfolding engine_submit_quote
engine_submit_quote-Grows locate side px qty parse_ns g v i =
    let sig = signal_of locate side px qty parse_ns in
    let c = check_and_fill g.risk sig in
    let i' = check_and_fill-InLimits g.risk sig i in
    let settled = check_and_fill-IsSettled g.risk sig in
    let cancel = submit-IsSubmitted locate side (u32 px) 0 parse_ns g.oms v in
    let order = submit-IsSubmitted locate side (u32 px) (u32 qty) parse_ns g.oms v in
    elim (Bool-cases (qty == 0)) [
      | inl e ↦ rw e (
          submitted-Grows g (filled_slot g.oms locate side (u32 px) 0 parse_ns) g.risk _ i
            (omega arith) cancel)
      | inr e ↦ elim (Bool-cases c.0) [
        | inl e' ↦
            rw (e, e')
              (submitted-Grows g (filled_slot g.oms locate side (u32 px) (u32 qty) parse_ns) c.1 _
                i' (settled.quantity e') order)
        | inr e' ↦
            rw (e, e')
              (record {
                valid = v;
                limits = i';
                orders = [];
                small = tt;
                placed = sym (append-nil (contents g.oms.ring));
              })
      ]
    ]

submit_all-Grows :
    (locate ts : ℕ) (rs : List Request) (g : Gate)
    → IsValid g.oms.ring
    → InLimits g.risk
    → Grows g (submit_all locate ts rs g)
unfolding submit_all
submit_all-Grows locate ts [] g v i = Grows-refl g v i
submit_all-Grows locate ts (r ∷ rs) g v i =
    let first = engine_submit_quote-Grows locate r.side r.px r.qty ts g v i in
    let g' = (engine_submit_quote locate r.side r.px r.qty ts g).1 in
    Grows-trans first (submit_all-Grows locate ts rs g' first.valid first.limits)

module _ {B H D : Type 0} (lib : Library B H) (p : Params) (f : Doubles D) where
  apply_change-Grows :
      (shard : ℕ) (e : Event) (c : Change B H) (w : Engine B H D)
      → IsValid w.gate.oms.ring
      → InLimits w.gate.risk
      → Grows w.gate (apply_change lib p f shard e c w).1.gate
  unfolding quote_shard
  apply_change-Grows shard e ignored w v i = Grows-refl w.gate v i
  apply_change-Grows shard e stuck w v i = Grows-refl w.gate v i
  apply_change-Grows shard e (changed a) w v i =
      let info = trade_info lib p f e (w.books shard) in
      let traded = simulate lib p f info e (w.sims shard, w.states shard) in
      submit_all-Grows (get_or locates shard 0) e.ts (look lib p f e a traded w).emitted w.gate v i

  apply_event-Grows :
      (e : Event) (w : Engine B H D)
      → IsValid w.gate.oms.ring
      → InLimits w.gate.risk
      → Grows w.gate (apply_event lib p f e w).1.gate
  unfolding apply_event
  apply_event-Grows e w v i =
      let shard = shard_for_locate e.stock_locate in
      elim (Bool-cases (shard == not_in_universe)) [
        | inl h ↦ rw h (Grows-refl w.gate v i)
        | inr h ↦ rw h (apply_change-Grows shard e (apply_book lib p f e (w.books shard)) w v i)
      ]

  -- If the ring of orders is valid and the positions are within their limits, then whatever events
  -- the engine takes, with any books, doubles and parameters: the ring stays valid, every order that
  -- is put on it is of at most 500 shares and comes behind the others, and the positions stay within
  -- their limits.
  pub apply_events-Grows :
      (es : List Event) (w : Engine B H D)
      → IsValid w.gate.oms.ring
      → InLimits w.gate.risk
      → Grows w.gate (apply_events lib p f es w).1.gate
  unfolding apply_events
  apply_events-Grows [] w v i = Grows-refl w.gate v i
  apply_events-Grows (e ∷ es) w v i =
      let r = apply_event lib p f e w in
      let first = apply_event-Grows e w v i in
      elim (Bool-cases r.0) [
        | inl h ↦ rw h (Grows-trans first (apply_events-Grows es r.1 first.valid first.limits))
        | inr h ↦ rw h first
      ]
