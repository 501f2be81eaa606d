-- ===== src/Engine/Oms/Quotes.antt =====
-- engine_submit_quote of apps/engine/dispatcher.cpp: the risk checks before the ring.
use low_latency_trading_pipe.Base.{
  ℕ, ◌≤◌, ◌<◌, ◌≡◌, refl, subst, inl, inr, Bool, true, false, [], ◌∷◌, ◌++◌, arith, leb, ◌==◌,
  leb→le, Bool-cases, u32,
}
use low_latency_trading_pipe.Ring.{size}
use low_latency_trading_pipe.Ring.Queue.{contents, used, IsValid}
use low_latency_trading_pipe.OrderSender.{Order}
use low_latency_trading_pipe.Engine.Risk.{Side, Risk, check_and_fill, max_order_qty}
use low_latency_trading_pipe.Engine.Risk.Limits.{
  InLimits, check_and_fill-InLimits, check_and_fill-IsSettled,
}
use low_latency_trading_pipe.Engine.Oms.{
  Oms, Gate, submit, submitted, filled_slot, engine_submit_quote, signal_of,
}
use low_latency_trading_pipe.Engine.Oms.Laws.{IsSubmitted, submit-IsSubmitted}

-- What a quote leaves of a gate: the ring is valid, the positions are within their limits, and the
-- ring is as it was or, if and only if the answer is true, holds one order more, of at most 500 shares.
pub record IsGated (g : Gate) (x : Order) (r : Bool × Gate) : Type 0 where
  pub valid : IsValid r.1.oms.ring
  pub limits : InLimits r.1.risk
  pub small : r.0 ≡ true → x.qty ≤ max_order_qty
  pub placed : r.0 ≡ true → contents r.1.oms.ring ≡ contents g.oms.ring ++ (x ∷ [])
  pub refused : r.0 ≡ false → r.1.oms ≡ g.oms

submitted-IsGated :
    (g : Gate) (x : Order) (risk : Risk) (r : ℕ × Oms)
    → InLimits risk
    → x.qty ≤ max_order_qty
    → 0 < g.oms.next_order_id
    → IsSubmitted g.oms x r
    → IsGated g x (submitted risk r)
submitted-IsGated g x risk r i small id o = elim (Bool-cases (leb size (used g.oms.ring))) [
  | inl e ↦
      let same : r ≡ (0, g.oms) = o.refused (leb→le size (used g.oms.ring) e) in
      rw same (record {
        valid = subst (λ y. IsValid y.1.ring) same o.valid;
        limits = i;
        small = λ h. small;
        placed = λ h. absurd (cc h);
        refused = λ h. refl;
      })
  | inr e ↦
      let p = o.placed (ground arith) in
      let told : (r.0 == 0) ≡ false = ground (arith, p.0) in
      rw told (record {
        valid = o.valid;
        limits = i;
        small = λ h. small;
        placed = λ h. p.1;
        refused = λ h. absurd (cc h);
      })
]

-- If the ring is valid, the next id is not 0 and the positions are within their limits, then after a
-- quote the ring is valid and the positions are within their limits, whatever the answer. If the answer
-- is true, the ring holds one order more behind the others, of at most 500 shares, and otherwise the
-- ring and the next id are as they were.
pub engine_submit_quote-IsGated :
    (locate : ℕ) (side : Side) (px qty parse_ns : ℕ) (g : Gate)
    → IsValid g.oms.ring
    → InLimits g.risk
    → 0 < g.oms.next_order_id
    → IsGated g
        (filled_slot g.oms locate side (u32 px) (u32 qty) parse_ns)
        (engine_submit_quote locate side px qty parse_ns g)
unfolding engine_submit_quote
engine_submit_quote-IsGated locate side px qty parse_ns g v i id =
    let sig = signal_of locate side px qty parse_ns in
    let c = check_and_fill g.risk sig in
    let settled = check_and_fill-IsSettled g.risk sig in
    let i' = check_and_fill-InLimits g.risk sig i in
    let o = submit-IsSubmitted locate side (u32 px) (u32 qty) parse_ns g.oms v in
    let x = filled_slot g.oms locate side (u32 px) (u32 qty) parse_ns in
    elim (Bool-cases (qty == 0)) [
      | inl e ↦
          let zero_qty : qty ≡ 0 = ground arith in
          let o' =
            subst (λ n. IsSubmitted g.oms x (submit locate side (u32 px) (u32 n) parse_ns g.oms))
              zero_qty o in
          rw e (submitted-IsGated g x g.risk _ i (omega (arith, zero_qty)) id o')
      | inr e ↦ elim (Bool-cases c.0) [
        | inl e' ↦ rw (e, e') (submitted-IsGated g x c.1 _ i' (settled.quantity e') id o)
        | inr e' ↦
            rw (e, e')
              (record {
                valid = v;
                limits = i';
                small = λ h. absurd (cc h);
                placed = λ h. absurd (cc h);
                refused = λ h. refl;
              })
      ]
    ]

-- If the ring is full and the risk checks accept an order, then the answer is false and nothing is
-- put on the ring, but the checks have taken a token and moved the position all the same.
pub engine_submit_quote-charges :
    (locate : ℕ) (side : Side) (px qty parse_ns : ℕ) (g : Gate)
    → IsValid g.oms.ring
    → size ≤ used g.oms.ring
    → 0 < qty
    → (check_and_fill g.risk (signal_of locate side px qty parse_ns)).0 ≡ true
    → engine_submit_quote locate side px qty parse_ns g ≡ (
      false,
      record g { risk = (check_and_fill g.risk (signal_of locate side px qty parse_ns)).1 },
    )
unfolding engine_submit_quote
engine_submit_quote-charges locate side px qty parse_ns g v full shares ok =
    let o = submit-IsSubmitted locate side (u32 px) (u32 qty) parse_ns g.oms v in
    let counted : (qty == 0) ≡ false = ground arith in rw (counted, ok, o.refused full) refl
