-- ===== src/Receiver/Pool/Scan.antt =====
-- The scans over the reorder pool of apps/client/udp_receiver.c.
use low_latency_trading_pipe.Base.{
  ℕ, zero, suc, ◌+◌, ◌≤◌, ◌<◌, ◌≡◌, subst, ◌≢◌, inl, inr, true, false, Option, none, some, arith,
  ltb, if◌then◌else◌, Bool-cases,
}
use low_latency_trading_pipe.Receiver.Pool.{
  Slot, reorder_max, is_pending, alloc_from, alloc_slot, find_from, find, better, find_min_from,
  find_min,
}

module _ (pool : ℕ → Slot) where
  alloc_from-some :
      (k i j : ℕ) → alloc_from pool k i ≡ some j → (j < i + k) × ((pool j).used ≡ false)
  unfolding alloc_from
  alloc_from-some zero i j e = absurd (cc)
  alloc_from-some (suc k) i j e = ground (arith, alloc_from-some k (i + 1) j)

  -- An allocated slot is one of the pool, and free.
  pub alloc_slot-some :
      (j : ℕ) → alloc_slot pool ≡ some j → (j < reorder_max) × ((pool j).used ≡ false)
  unfolding alloc_slot
  alloc_slot-some j e = alloc_from-some reorder_max 0 j e

  alloc_from-none :
      (k i j : ℕ) → alloc_from pool k i ≡ none → i ≤ j → j < i + k → (pool j).used ≡ true
  unfolding alloc_from
  alloc_from-none zero i j e l h = absurd (omega arith)
  alloc_from-none (suc k) i j e l h = ground (arith, alloc_from-none k (i + 1) j)

  -- Where none is found, every slot is in use.
  pub alloc_slot-none : (j : ℕ) → alloc_slot pool ≡ none → j < reorder_max → (pool j).used ≡ true
  unfolding alloc_slot
  alloc_slot-none j e h = alloc_from-none reorder_max 0 j e (omega arith) (omega arith)

  find_from-some :
      (expected seq k i j : ℕ)
      → find_from pool expected seq k i ≡ some j
      → (j < i + k) × (is_pending expected (pool j) ≡ true) × ((pool j).start_seq ≡ seq)
  unfolding find_from
  find_from-some expected seq zero i j e = absurd (cc)
  find_from-some expected seq (suc k) i j e =
      ground (arith, find_from-some expected seq k (i + 1) j)

  pub find-some :
      (expected seq j : ℕ)
      → find pool expected seq ≡ some j
      → (j < reorder_max) × (is_pending expected (pool j) ≡ true) × ((pool j).start_seq ≡ seq)
  unfolding find
  find-some expected seq j e = find_from-some expected seq reorder_max 0 j e

  find_from-none :
      (expected seq k i j : ℕ)
      → find_from pool expected seq k i ≡ none
      → i ≤ j
      → j < i + k
      → is_pending expected (pool j) ≡ true
      → (pool j).start_seq ≢ seq
  unfolding find_from
  find_from-none expected seq zero i j e l h p = absurd (omega arith)
  find_from-none expected seq (suc k) i j e l h p =
      ground (arith, find_from-none expected seq k (i + 1) j)

  pub find-none :
      (expected seq j : ℕ)
      → find pool expected seq ≡ none
      → j < reorder_max
      → is_pending expected (pool j) ≡ true
      → (pool j).start_seq ≢ seq
  unfolding find
  find-none expected seq j e h p =
      find_from-none expected seq reorder_max 0 j e (omega arith) (omega arith) p

  abbrev IsBest : ℕ → ℕ → Option ℕ → Type 0
  IsBest expected bound none = Unit {0}
  IsBest expected bound (some j) = (j < bound) × (is_pending expected (pool j) ≡ true)

  find_min_from-IsBest :
      (expected bound k i : ℕ) (best : Option ℕ)
      → i + k ≤ bound
      → IsBest expected bound best
      → IsBest expected bound (find_min_from pool expected k i best)
  unfolding find_min_from
  find_min_from-IsBest expected bound zero i best l h = h
  find_min_from-IsBest expected bound (suc k) i best l h =
      find_min_from-IsBest expected bound k (i + 1) _ (omega arith) (step best h)
    where
      step :
          (b : Option ℕ)
          → IsBest expected bound b
          → IsBest expected bound (if is_pending expected (pool i) then better pool i b else b)
      step none h = elim (Bool-cases (is_pending expected (pool i))) [
        | inl e ↦ rw e (omega arith, e)
        | inr e ↦ rw e tt
      ]
      step (some j) h = elim (Bool-cases (is_pending expected (pool i))) [
        | inl e ↦ rw e (elim (Bool-cases (ltb (pool i).start_seq (pool j).start_seq)) [
          | inl q ↦ rw q (omega arith, e)
          | inr q ↦ rw q h
        ])
        | inr e ↦ rw e h
      ]

  pub find_min-some :
      (expected j : ℕ)
      → find_min pool expected ≡ some j
      → (j < reorder_max) × (is_pending expected (pool j) ≡ true)
  unfolding find_min
  find_min-some expected j e =
      subst (IsBest expected reorder_max) e
        (find_min_from-IsBest expected reorder_max reorder_max 0 none (omega arith) tt)
