-- ===== src/Engine/Risk/Limits.antt =====
-- The limits on quantity and position of src/engine/risk/risk.cpp.
use low_latency_trading_pipe.Base.{
  ℕ, zero, suc, ◌+◌, ◌≤◌, ◌<◌, ◌≡◌, refl, sym, ap, subst, ◌≢◌, ◌⊎◌, inl, inr, Bool, true, false,
  ◌&&◌, List, [], ◌∷◌, arith, ltb, leb, ◌==◌, Bool-cases, update_self, update_ne, ℤ, above, below,
  magnitude, ◌+ℤ◌, negate, leb_ℤ, +ℤ_balance, u64, pos, negsuc,
}
use low_latency_trading_pipe.Engine.Risk.{
  Signal, Risk, run, max_position_per_stock, inline_refill, is_ok, fill, check_and_fill, new_pos,
  max_order_qty, Side, int32, buy, sell, notional, max_daily_notional, max_order_notional,
}

-- Every position is within the limit.
abbrev pub InLimits : Risk → Type 0
InLimits r = (locate : ℕ) → magnitude (r.positions locate) ≤ max_position_per_stock

inline_refill-positions : (now_ns : ℕ) (r : Risk) → (inline_refill now_ns r).positions ≡ r.positions
unfolding inline_refill
inline_refill-positions now_ns r = ground arith

is_ok-new_pos :
    (r : Risk) (s : Signal) → is_ok r s ≡ true → magnitude (new_pos r s) ≤ max_position_per_stock
unfolding is_ok
is_ok-new_pos r s h = ground arith

is_ok-accepted :
    (r : Risk) (s : Signal) → is_ok r s ≡ true → (s.qty ≤ max_order_qty) × (0 < r.tokens)
unfolding is_ok
is_ok-accepted r s h = ground arith

-- The outcome of one signal whose refilled state is known.
fill-InLimits : (r : Risk) (s : Signal) → is_ok r s ≡ true → InLimits r → InLimits (fill r s)
unfolding fill
fill-InLimits r s e i locate = elim (Bool-cases (locate == s.stock_locate)) [
  | inl e' ↦ rw e' (is_ok-new_pos r s e)
  | inr e' ↦ rw e' (i locate)
]

pub check_and_fill-InLimits : (r : Risk) (s : Signal) → InLimits r → InLimits (check_and_fill r s).1
unfolding check_and_fill
check_and_fill-InLimits r s i =
    let r' = inline_refill s.parse_ns r in
    let i' : InLimits r' = rw (inline_refill-positions s.parse_ns r) i in
    elim (Bool-cases (is_ok r' s)) [ inl e ↦ rw e (fill-InLimits r' s e i') | inr e ↦ rw e i' ]

-- If every position is within 10000 shares, then after any signals, whatever was accepted of them,
-- every position still is.
pub run-InLimits : (r : Risk) (ss : List Signal) → InLimits r → InLimits (run r ss).1
unfolding run
run-InLimits r [] i = i
run-InLimits r (s ∷ ss) i = run-InLimits (check_and_fill r s).1 ss (check_and_fill-InLimits r s i)

-- The second position is the first with the shares bought, or without the shares sold.
abbrev pub Moved : Side → ℕ → ℤ → ℤ → Type 0
Moved buy qty p p' = above p' + below p ≡ below p' + above p + qty
Moved sell qty p p' = above p' + below p + qty ≡ below p' + above p

-- What a signal leaves of a state that has been refilled: an accepted one has at most 500 shares, takes
-- a token, and moves its own position by its shares, to one within the limit. A refused one changes
-- nothing, and there is a reason: no token, too many shares, or a position beyond the limit.
pub record IsSettled (before : Risk) (s : Signal) (r : Bool × Risk) : Type 0 where
  pub quantity : r.0 ≡ true → s.qty ≤ 500
  pub token : r.0 ≡ true → r.1.tokens + 1 ≡ before.tokens
  pub moved :
      r.0 ≡ true
      → Moved s.side s.qty (before.positions s.stock_locate) (r.1.positions s.stock_locate)
  pub limit : r.0 ≡ true → magnitude (r.1.positions s.stock_locate) ≤ 10000
  pub others :
      (locate : ℕ) → locate ≢ s.stock_locate → r.1.positions locate ≡ before.positions locate
  pub refused : r.0 ≡ false → r.1 ≡ before
  pub reason :
      r.0 ≡ false
      → (before.tokens ≡ 0)
        ⊎ ((500 < s.qty)
            ⊎ ((p : ℤ)
                → Moved s.side s.qty (before.positions s.stock_locate) p
                → 10000 < magnitude p))

-- The quantities that pass are positive as an int32_t.
small-int32 : (qty : ℕ) → qty ≤ 500 → int32 qty ≡ pos qty
small-int32 qty h = ground (arith, h)

buy-Moved : (p : ℤ) (qty : ℕ) → Moved buy qty p (p +ℤ pos qty)
buy-Moved p qty = omega (arith, +ℤ_balance p (pos qty))

sell-Moved : (p : ℤ) (qty : ℕ) → Moved sell qty p (p +ℤ negate (pos qty))
sell-Moved p zero = ground (arith, +ℤ_balance p (negate (pos zero)))
sell-Moved p (suc qty) = ground (arith, +ℤ_balance p (negate (pos (suc qty))))

new_pos-Moved :
    (r : Risk) (locate price qty parse_ns : ℕ) (side : Side)
    → qty ≤ 500
    → let s : Signal = record {
      stock_locate = locate;
      price = price;
      qty = qty;
      side = side;
      parse_ns = parse_ns;
    } in
      Moved side qty (r.positions locate) (new_pos r s)
unfolding new_pos
new_pos-Moved r locate price qty parse_ns buy h =
    subst (λ d. Moved buy qty (r.positions locate) (r.positions locate +ℤ d))
      (sym (small-int32 qty h)) (buy-Moved (r.positions locate) qty)
new_pos-Moved r locate price qty parse_ns sell h =
    subst (λ d. Moved sell qty (r.positions locate) (r.positions locate +ℤ negate d))
      (sym (small-int32 qty h)) (sell-Moved (r.positions locate) qty)

balance_magnitude :
    (q q' : ℤ) → above q + below q' ≡ below q + above q' → magnitude q ≡ magnitude q'
balance_magnitude (pos a) (pos b) h = omega (arith, h)
balance_magnitude (pos a) (negsuc b) h = absurd (omega (arith, h))
balance_magnitude (negsuc a) (pos b) h = absurd (omega (arith, h))
balance_magnitude (negsuc a) (negsuc b) h = omega (arith, h)

-- A position is moved to one place.
Moved-magnitude :
    (side : Side) (qty : ℕ) (p q q' : ℤ)
    → Moved side qty p q
    → Moved side qty p q'
    → magnitude q ≡ magnitude q'
Moved-magnitude buy qty p q q' h h' = balance_magnitude q q' (omega (arith, h, h'))
Moved-magnitude sell qty p q q' h h' = balance_magnitude q q' (omega (arith, h, h'))

beyond :
    (z : ℤ)
    → (leb_ℤ z (pos max_position_per_stock) && leb_ℤ (negate (pos max_position_per_stock)) z)
      ≡ false
    → 10000 < magnitude z
beyond (pos n) h = ground (arith, h)
beyond (negsuc n) h = ground (arith, h)

is_ok-refused :
    (r : Risk) (s : Signal)
    → is_ok r s ≡ false
    → (r.tokens ≡ 0) ⊎ ((500 < s.qty) ⊎ (10000 < magnitude (new_pos r s)))
unfolding is_ok
is_ok-refused r s h =
    let sum : leb (u64 (r.daily_notional + notional s)) max_daily_notional ≡ true = ground arith in
    let one : leb (notional s) max_order_notional ≡ true = ground arith in
    elim (Bool-cases (ltb 0 r.tokens)) [
      | inr a ↦ inl (ground (arith, a))
      | inl a ↦ elim (Bool-cases (leb s.qty max_order_qty)) [
        | inr b ↦ inr (inl (ground (arith, b)))
        | inl b ↦
            let far : (leb_ℤ (new_pos r s) (pos max_position_per_stock)
                  && leb_ℤ (negate (pos max_position_per_stock)) (new_pos r s))
                ≡ false =
              rw (a, b, one, sum) at h in
            inr (inr (beyond (new_pos r s) far))
      ]
    ]

-- A signal whose shares are few is moved by them; the others are refused anyway.
refused-reason :
    (r : Risk) (s : Signal)
    → is_ok r s ≡ false
    → (r.tokens ≡ 0)
      ⊎ ((500 < s.qty)
          ⊎ ((p : ℤ) → Moved s.side s.qty (r.positions s.stock_locate) p → 10000 < magnitude p))
refused-reason r s h = elim (is_ok-refused r s h) [
  | inl a ↦ inl a
  | inr (inl a) ↦ inr (inl a)
  | inr (inr a) ↦ elim (Bool-cases (leb s.qty 500)) [
    | inr b ↦ inr (inl (ground (arith, b)))
    | inl b ↦
        let m =
          new_pos-Moved r s.stock_locate s.price s.qty s.parse_ns s.side (ground (arith, b)) in
        inr (
          inr λ p m'. omega (
            arith,
            a,
            Moved-magnitude s.side s.qty (r.positions s.stock_locate) (new_pos r s) p m m',
          ))
  ]
]

filled-IsSettled : (r : Risk) (s : Signal) → is_ok r s ≡ true → IsSettled r s (true, fill r s)
unfolding fill
filled-IsSettled r s e =
    let (few, token) = is_ok-accepted r s e in
    let here = update_self r.positions s.stock_locate s.stock_locate (new_pos r s) refl in
    record {
      quantity = λ h. few;
      token = λ h. omega (arith, token);
      moved = λ h.
          subst (Moved s.side s.qty (r.positions s.stock_locate)) (sym here)
            (new_pos-Moved r s.stock_locate s.price s.qty s.parse_ns s.side few);
      limit = λ h. omega (arith, ap magnitude here, is_ok-new_pos r s e);
      others = λ locate d. update_ne r.positions s.stock_locate locate (new_pos r s) d;
      refused = λ h. absurd (cc h);
      reason = λ h. absurd (cc h);
    }

-- Against the state with its bucket refilled: an accepted signal has at most 500 shares, takes one
-- token, and adds its shares to the position of its stock, or takes them from it, to at most 10000 in
-- magnitude; the other positions stay. A refused signal changes nothing, and there was no token, or
-- it has more than 500 shares, or the position would be beyond 10000.
pub check_and_fill-IsSettled :
    (r : Risk) (s : Signal) → IsSettled (inline_refill s.parse_ns r) s (check_and_fill r s)
unfolding check_and_fill
check_and_fill-IsSettled r s =
    let r' = inline_refill s.parse_ns r in
    elim (Bool-cases (is_ok r' s)) [
      | inl e ↦ rw e (filled-IsSettled r' s e)
      | inr e ↦ rw e (record {
        quantity = λ h. absurd (cc h);
        token = λ h. absurd (cc h);
        moved = λ h. absurd (cc h);
        limit = λ h. absurd (cc h);
        others = λ locate d. refl;
        refused = λ h. refl;
        reason = λ h. refused-reason r' s e;
      })
    ]
