-- ===== src/Receiver/Pool/Counts.antt =====
-- reorder_count of apps/client/udp_receiver.c: how many slots are pending.
use low_latency_trading_pipe.Base.{
  ℕ, zero, suc, ◌+◌, ◌≤◌, ◌<◌, ◌≡◌, ap, ◌∙◌, true, false, arith, ℕ_discrete,
}
use low_latency_trading_pipe.Receiver.Pool.{Slot, reorder_max, is_pending, count_from, count}

module _ (pool : ℕ → Slot) where
  count_from-bound : (e k i : ℕ) → count_from pool e k i ≤ k
  unfolding count_from
  count_from-bound e zero i = omega arith
  count_from-bound e (suc k) i = ground (arith, count_from-bound e k (i + 1))

  pub count-bound : (e : ℕ) → count pool e ≤ reorder_max
  unfolding count
  count-bound e = count_from-bound e reorder_max 0

  -- Expecting a later number leaves no more slots pending.
  count_from_later :
      (e later k i : ℕ) → e ≤ later → count_from pool later k i ≤ count_from pool e k i
  unfolding count_from
  count_from_later e later zero i h = omega arith
  count_from_later e later (suc k) i h = ground (arith, count_from_later e later k (i + 1) h)

  count_from-less :
      (e later k i j : ℕ)
      → i ≤ j
      → j < i + k
      → is_pending e (pool j) ≡ true
      → e ≤ later
      → is_pending later (pool j) ≡ false
      → suc (count_from pool later k i) ≤ count_from pool e k i
  unfolding count_from
  count_from-less e later zero i j l u p h q = absurd (omega arith)
  count_from-less e later (suc k) i j l u p h q = elim (ℕ_discrete i j) [
    | yes same ↦
        let p' : is_pending e (pool i) ≡ true = ap (λ x. is_pending e (pool x)) same ∙ p in
        let q' : is_pending later (pool i) ≡ false = ap (λ x. is_pending later (pool x)) same ∙ q in
        rw (p', q') (omega (arith, count_from_later e later k (i + 1) h))
    | no other ↦
        ground (arith, count_from-less e later k (i + 1) j (omega arith) (omega arith) p h q)
  ]

  -- One slot that no longer waits makes one less.
  pub count-less :
      (e later j : ℕ)
      → j < reorder_max
      → is_pending e (pool j) ≡ true
      → e ≤ later
      → is_pending later (pool j) ≡ false
      → suc (count pool later) ≤ count pool e
  unfolding count
  count-less e later j u p h q = count_from-less e later reorder_max 0 j (omega arith) u p h q
