-- ===== src/Engine/Maker/Bands.antt =====
-- What on_book_event of include/hft/engine/strategy/mm_mean_reversion.hpp may emit: by the hard band,
-- and by the tokens.
use low_latency_trading_pipe.Base.{
  ℕ, ◌+◌, ◌-◌, ◌<◌, ◌≡◌, refl, sym, ap, subst, ◌∙◌, inl, inr, Bool, true, false, ◌&&◌, ◌||◌, not,
  List, [], ◌∷◌, ◌++◌, append-nil, append_assoc, arith, ◌==◌, Bool-cases, length, length-append,
}
use low_latency_trading_pipe.Engine.Risk.{Side, buy, sell}
use low_latency_trading_pipe.Engine.Maker.{
  Params, State, Desk, Request, cancel_blocked, quote_side, may_send, consume_msg, set_resting,
  resting,
}

-- Whether a request quotes a side.
abbrev pub is_side : Side → Side → Bool
is_side buy buy = true
is_side buy sell = false
is_side sell buy = false
is_side sell sell = true

-- Cancels are always allowed, and quotes of a side that is not blocked.
abbrev pub is_allowed : Bool → Bool → Request → Bool
is_allowed block_buy block_sell r =
    r.qty == 0 || (is_side buy r.side && not block_buy || is_side sell r.side && not block_sell)

unfoldable pub all_allowed : Bool → Bool → List Request → Bool
all_allowed block_buy block_sell [] = true
all_allowed block_buy block_sell (r ∷ rs) =
    is_allowed block_buy block_sell r && all_allowed block_buy block_sell rs

all_allowed-append :
    (block_buy block_sell : Bool) (rs rs' : List Request)
    → all_allowed block_buy block_sell rs ≡ true
    → all_allowed block_buy block_sell rs' ≡ true
    → all_allowed block_buy block_sell (rs ++ rs') ≡ true
unfolding all_allowed
all_allowed-append b c [] rs' h h' = h'
all_allowed-append b c (r ∷ rs) rs' h h' = elim (Bool-cases (is_allowed b c r)) [
  | inl e ↦
      rw (e, all_allowed)
        (all_allowed-append b c rs rs' (subst (λ x. x && all_allowed b c rs ≡ true) e h) h')
  | inr e ↦ absurd (cc (subst (λ x. x && all_allowed b c rs ≡ true) e h))
]

module _ {D : Type 0} where
  -- New requests behind the old ones, all allowed, and a token of both buckets spent for each.
  pub record Emits (block_buy block_sell : Bool) (d d' : Desk D) : Type 0 where
    pub requests : List Request
    pub extends : d'.emitted ≡ d.emitted ++ requests
    pub allowed : all_allowed block_buy block_sell requests ≡ true
    pub spent : length requests + d'.state.tokens ≡ d.state.tokens
    pub spent_all : length requests + d'.shared.agg_tokens ≡ d.shared.agg_tokens

  pub Emits-refl :
      (b c : Bool) {d d' : Desk D}
      → d'.emitted ≡ d.emitted
      → d'.state.tokens ≡ d.state.tokens
      → d'.shared.agg_tokens ≡ d.shared.agg_tokens
      → Emits b c d d'
  unfolding all_allowed
  Emits-refl b c {d} e t a = record {
    requests = [];
    extends = e ∙ sym (append-nil d.emitted);
    allowed = refl;
    spent = omega (arith, t);
    spent_all = omega (arith, a);
  }

  pub Emits-trans :
      {b c : Bool} {d d' d'' : Desk D} → Emits b c d d' → Emits b c d' d'' → Emits b c d d''
  Emits-trans {b} {c} {d} m m' = record {
    requests = m.requests ++ m'.requests;
    extends =
        m'.extends
        ∙ ap (λ x. x ++ m'.requests) m.extends
        ∙ append_assoc d.emitted m.requests m'.requests;
    allowed = all_allowed-append b c m.requests m'.requests m.allowed m'.allowed;
    spent = omega (arith, m.spent, m'.spent, length-append m.requests m'.requests);
    spent_all = omega (arith, m.spent_all, m'.spent_all, length-append m.requests m'.requests);
  }

  set_resting-tokens :
      (side : Side) (px : ℕ) (s : State D) → (set_resting side px s).tokens ≡ s.tokens
  set_resting-tokens buy px s = refl
  set_resting-tokens sell px s = refl

  -- One request, for which a message may be sent.
  Emits-one :
      (b c : Bool) (r : Request) {d d' : Desk D}
      → may_send d ≡ true
      → is_allowed b c r ≡ true
      → d'.emitted ≡ d.emitted ++ (r ∷ [])
      → d'.state.tokens ≡ d.state.tokens - 1
      → d'.shared.agg_tokens ≡ d.shared.agg_tokens - 1
      → Emits b c d d'
  unfolding all_allowed
  Emits-one b c r {d} m al e t a =
      let left : (0 < d.state.tokens) × (0 < d.shared.agg_tokens) = ground arith in
      record {
        requests = r ∷ [];
        extends = e;
        allowed = rw (al, all_allowed) refl;
        spent = omega (arith, t, left.0);
        spent_all = omega (arith, a, left.1);
      }

  pub cancel_blocked-Emits :
      (b c : Bool) (side : Side) (blocked : Bool) (d : Desk D)
      → Emits b c d (cancel_blocked side blocked d)
  unfolding cancel_blocked consume_msg
  cancel_blocked-Emits b c side blocked d =
      let px = resting side d.state in
      elim (Bool-cases (blocked && (not (px == 0) && may_send d))) [
        | inl e ↦
            let m : may_send d ≡ true = ground (arith, e) in
            rw e (
              Emits-one b c (record { side = side; px = px; qty = 0 }) m refl refl
                (set_resting-tokens side 0 (consume_msg d).state) refl)
        | inr e ↦ rw e (Emits-refl b c refl refl refl)
      ]

  pub quote_side-Emits :
      (b c : Bool) (p : Params) (side : Side) (wanted : Bool) (px queue_ahead : ℕ) (d : Desk D)
      → (wanted ≡ true → is_allowed b c (record { side = side; px = px; qty = p.quote_qty }) ≡ true)
      → Emits b c d (quote_side p side wanted px queue_ahead d)
  unfolding quote_side consume_msg
  quote_side-Emits b c p side false px queue_ahead d h = Emits-refl b c refl refl refl
  quote_side-Emits b c p side true px queue_ahead d h = elim (Bool-cases (may_send d)) [
    | inl m ↦ rw m (
        Emits-one b c (record { side = side; px = px; qty = p.quote_qty }) m (h refl) refl
          (set_resting-tokens side px (consume_msg d).state) refl)
    | inr m ↦ rw m (Emits-refl b c refl refl refl)
  ]
