-- ===== src/OrderReceiver/Accept.antt =====
-- Which orders handle_client (apps/server/order_receiver.c) takes, and how it answers and counts.
use low_latency_trading_pipe.Base.{
  ℕ, ◌+◌, ◌^◌, ◌≤◌, ◌<◌, ◌≡◌, refl, subst, ◌∙◌, inl, inr, Bool, true, false, ◌&&◌, List, [], ◌∷◌,
  arith, leb, if◌then◌else◌, Bool-cases, length, length-append, u64, max_u64,
}
use low_latency_trading_pipe.Wire.{WireOrder, checksum_holds}
use low_latency_trading_pipe.OrderReceiver.{
  Session, send_ack, take_order, note_gap, log_sampled, process_order, process_all,
}

-- What the exchange promises: the orders that it takes are those with an intact checksum and a
-- number no smaller than one more than that of the order taken before.
pub fresh : ℕ → WireOrder → Bool
fresh expected o = checksum_holds o && leb expected o.seq

pub taken : ℕ → List WireOrder → List WireOrder
unfolding fresh
taken e [] = []
taken e (o ∷ os) =
    let kept = o ∷ taken (o.seq + 1) os in
    let passed = taken e os in if fresh e o then kept else passed

pub next_expected : ℕ → List WireOrder → ℕ
next_expected e [] = e
next_expected e (o ∷ os) = next_expected (o.seq + 1) os

-- The numbers are words, and the last of them is not used.
abbrev pub AllBelow : List WireOrder → Type 0
AllBelow [] = Unit {0}
AllBelow (o ∷ os) = (o.seq < max_u64) × AllBelow os

-- The numbers grow along the list, from the bound on.
abbrev pub Rising : ℕ → List WireOrder → Type 0
Rising e [] = Unit {0}
Rising e (o ∷ os) = (e ≤ o.seq) × Rising (o.seq + 1) os

taken-Rising : (e : ℕ) (os : List WireOrder) → Rising e (taken e os)
unfolding taken fresh
taken-Rising e [] = tt
taken-Rising e (o ∷ os) = ground (arith, taken-Rising e os, taken-Rising (o.seq + 1) os)

module _ (mono_ns : ℕ → ℕ) where
  process_fresh :
      (s : Session) (o : WireOrder)
      → fresh s.expected_seq o ≡ true
      → o.seq < max_u64
      → let t = process_order mono_ns s o in
        (t.expected_seq ≡ o.seq + 1) × (t.order_count ≡ u64 (s.order_count + 1))
  unfolding process_order fresh take_order note_gap send_ack log_sampled
  process_fresh s o f w = ground arith

  process_stale :
      (s : Session) (o : WireOrder)
      → fresh s.expected_seq o ≡ false
      → let t = process_order mono_ns s o in
        (t.expected_seq ≡ s.expected_seq) × (t.order_count ≡ s.order_count)
  unfolding process_order fresh send_ack
  process_stale s o f = ground arith

  -- Over any orders of a connection with numbers below 2^64 - 1, and a count of 64 bits, the
  -- exchange takes just those that are intact and not below the number expected: their numbers grow
  -- strictly, they are counted, and the number expected next follows the last of them.
  pub process_all_takes :
      (s : Session) (os : List WireOrder)
      → AllBelow os
      → s.order_count < 2 ^ 64
      → let t = process_all mono_ns s os in
        let ts = taken s.expected_seq os in
        Rising s.expected_seq ts
        × (t.order_count ≡ u64 (s.order_count + length ts))
        × (t.expected_seq ≡ next_expected s.expected_seq ts)
  unfolding process_all taken next_expected
  process_all_takes s [] h w = (tt, omega arith, refl)
  process_all_takes s (o ∷ os) h w = elim (Bool-cases (fresh s.expected_seq o)) [
    | inl f ↦
        let (e, c) = process_fresh s o f h.0 in
        let (r, n, x) = process_all_takes (process_order mono_ns s o) os h.1 (omega arith) in
        (
          rw f (unfold fresh in ground arith, subst (λ k. Rising k (taken k os)) e r),
          n ∙ (rw (f, e, c) (omega arith)),
          x ∙ (rw (f, e)),
        )
    | inr f ↦
        let (e, c) = process_stale s o f in
        let (r, n, x) = process_all_takes (process_order mono_ns s o) os h.1 (omega arith) in
        (rw f (subst (λ k. Rising k (taken k os)) e r), n ∙ (rw (f, e, c)), x ∙ (rw (f, e)))
  ]

  process-acks :
      (s : Session) (o : WireOrder)
      → let t = process_order mono_ns s o in
        u64 (length t.sent + s.seq_gaps) ≡ u64 (length s.sent + 1 + t.seq_gaps)
  unfolding process_order take_order note_gap send_ack log_sampled
  process-acks s o = grind (arith, length-append)

  -- Every order is answered by one acknowledgement, and every gap by one more, counted modulo 2^64.
  pub process_all-acks :
      (s : Session) (os : List WireOrder)
      → let t = process_all mono_ns s os in
        u64 (length t.sent + s.seq_gaps) ≡ u64 (length s.sent + length os + t.seq_gaps)
  unfolding process_all
  process_all-acks s [] = omega arith
  process_all-acks s (o ∷ os) =
      omega (arith, process-acks s o, process_all-acks (process_order mono_ns s o) os)
