-- ===== src/Engine/Risk/Rate.antt =====
-- The rate that the bucket of src/engine/risk/risk.cpp lets through.
use native.Mathlib.Nat.{mul-add, mul_comm}
use low_latency_trading_pipe.Base.{
  ℕ, ◌+◌, ◌-◌, ◌*◌, ◌≤◌, ◌<◌, ◌≡◌, ap, ◌∙◌, inl, inr, Bool, false, List, [], ◌∷◌, arith, leb, ◌==◌,
  if◌then◌else◌, Bool-cases, max_u64,
}
use low_latency_trading_pipe.Engine.Risk.{
  Signal, Risk, inline_refill, earned, check_and_fill, run, is_ok, fill,
}

-- The signals carry times up to a bound.
abbrev pub AllBy : ℕ → List Signal → Type 0
AllBy t [] = Unit
AllBy t (s ∷ ss) = (s.parse_ns ≤ t) × AllBy t ss

-- What the bucket can still pay for up to a time, in billionths of an order.
abbrev pub budget : ℕ → Risk → ℕ
budget t r = r.tokens * 1_000_000_000 + r.orders_per_sec * (t - r.last_ns)

-- A bucket that was filled before, and what it becomes.
record Pays (t : ℕ) (r r' : Risk) (n : ℕ) : Type 0 where
  primed : r'.last_ns ≤ t
  spent : n * 1_000_000_000 + budget t r' ≤ budget t r

-- The time up to the bound is the time to a signal and the time from there on.
split_time :
    (rate last now t : ℕ)
    → last ≤ now
    → now ≤ t
    → rate * (t - last) ≡ (now - last) * rate + rate * (t - now)
split_time rate last now t h g =
    ap (λ x. rate * x) (the_sum)
    ∙ mul-add rate (now - last) (t - now)
    ∙ ap (λ x. x + rate * (t - now)) (mul_comm rate (now - last))
  where
    the_sum : t - last ≡ (now - last) + (t - now)
    the_sum = omega arith

-- A refill that adds what was earned, cut to the burst or not.
earned_lem :
    (t now_ns : ℕ) (r : Risk)
    → now_ns ≤ t
    → r.last_ns < now_ns
    → earned r now_ns * 1_000_000_000 + r.orders_per_sec * (t - now_ns)
      ≤ r.orders_per_sec * (t - r.last_ns)
earned_lem t now_ns r h g =
    omega (arith, split_time r.orders_per_sec r.last_ns now_ns t (omega arith) h)

inline_refill-Pays :
    (t now_ns : ℕ) (r : Risk)
    → t < max_u64
    → now_ns ≤ t
    → r.last_ns ≤ t
    → Pays t r (inline_refill now_ns r) 0
unfolding inline_refill
inline_refill-Pays t now_ns r b h p =
    let primed : r.last_ns == max_u64 ≡ false = ground arith in
    elim (Bool-cases (leb now_ns r.last_ns)) [
      | inl e ↦ rw (primed, e) (record { primed = p; spent = omega arith })
      | inr e ↦ elim (Bool-cases (earned r now_ns == 0)) [
        | inl e' ↦ rw (primed, e, e') (record { primed = p; spent = omega arith })
        | inr e' ↦
            rw (primed, e, e')
              (record {
                primed = h;
                spent = ground (arith, earned_lem t now_ns r h (ground arith));
              })
      ]
    ]

one_if : Bool → ℕ
one_if b = if b then 1 else 0

check_and_fill-Pays :
    (t : ℕ) (s : Signal) (r : Risk)
    → t < max_u64
    → s.parse_ns ≤ t
    → r.last_ns ≤ t
    → Pays t r (check_and_fill r s).1 (one_if (check_and_fill r s).0)
unfolding check_and_fill is_ok fill one_if
check_and_fill-Pays t s r b h p =
    let r' = inline_refill s.parse_ns r in
    let o = inline_refill-Pays t s.parse_ns r b h p in
    elim (Bool-cases (is_ok r' s)) [
      | inl e ↦
          let some_left : 0 < r'.tokens = ground arith in
          rw e (record { primed = o.primed; spent = omega (arith, o.spent, some_left) })
      | inr e ↦ rw e o
    ]

run-Pays :
    (t : ℕ) (r : Risk) (ss : List Signal)
    → t < max_u64
    → AllBy t ss
    → r.last_ns ≤ t
    → Pays t r (run r ss).1 (run r ss).0
unfolding run one_if
run-Pays t r [] b h p = record { primed = p; spent = omega arith }
run-Pays t r (s ∷ ss) b h p =
    let o = check_and_fill-Pays t s r b h.0 p in
    let o' = run-Pays t (check_and_fill r s).1 ss b h.1 o.primed in
    record { primed = o'.primed; spent = ground (arith, o.spent, o'.spent) }

-- If the bucket was filled at some time before `t`, and no signal is later than `t`, then of all the
-- signals no more are accepted than the tokens that the bucket held and those that the rate gives for
-- the time up to `t`; `t` is before the end of the 64-bit clock.
pub run_rate :
    (t : ℕ) (r : Risk) (ss : List Signal)
    → t < max_u64
    → AllBy t ss
    → r.last_ns ≤ t
    → (run r ss).0 * 1_000_000_000 ≤ r.tokens * 1_000_000_000 + r.orders_per_sec * (t - r.last_ns)
run_rate t r ss b h p = omega (arith, (run-Pays t r ss b h p).spent)
