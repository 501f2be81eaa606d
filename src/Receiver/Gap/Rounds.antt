-- ===== src/Receiver/Gap/Rounds.antt =====
-- The rounds of drain_pending in apps/client/udp_receiver.c: each takes a slot out of the pending ones.
use low_latency_trading_pipe.Base.{
  ℕ, zero, suc, ◌+◌, ◌≤◌, ◌≡◌, sym, ap, ◌∙◌, inl, inr, true, some, arith, mod-eq_of_lt, Bool-cases,
  Option-cases, set, u64,
}
use low_latency_trading_pipe.Receiver.Pool.{reorder_max, find, count}
use low_latency_trading_pipe.Receiver.Pool.Scan.{find-some}
use low_latency_trading_pipe.Receiver.Pool.Counts.{count-bound, count-less}
use low_latency_trading_pipe.Receiver.Gap.{
  slot_ref, Receiver, is_set, publish_ref, pass_slot, drain_rounds, drain_pending,
}
use low_latency_trading_pipe.Receiver.Gap.Inv.{Inv}
use low_latency_trading_pipe.Receiver.Gap.Order.{drain_none, drain_full, drain_next, pass_slot_lem}

-- What a published slot leaves: fewer slots are pending.
pass_slot-count :
    (s : Receiver) (i : ℕ)
    → Inv s
    → find s.pool s.expected_seq s.expected_seq ≡ some i
    → suc (count (pass_slot s i).pool (pass_slot s i).expected_seq) ≤ count s.pool s.expected_seq
unfolding pass_slot publish_ref
pass_slot-count s i v f =
    let (inside, waits, here) = find-some s.pool s.expected_seq s.expected_seq i f in
    let ok = v.slots i inside (ground arith) in
    let next : u64 (s.expected_seq + (s.pool i).msg_count) ≡ s.expected_seq + (s.pool i).msg_count =
      mod-eq_of_lt (omega (arith, ok.no_wrap, here)) in
    rw next (
      count-less s.pool s.expected_seq (s.expected_seq + (s.pool i).msg_count) i inside waits
        (omega arith) (ground (arith, here, ok.some_messages)))

pass_slot-session :
    (s : Receiver) (i : ℕ) → is_set s.session ≡ true → is_set (pass_slot s i).session ≡ true
unfolding pass_slot publish_ref
pass_slot-session s i e = e

drain_rounds_enough :
    (n m : ℕ) (s : Receiver)
    → Inv s
    → is_set s.session ≡ true
    → count s.pool s.expected_seq ≤ n
    → drain_rounds (suc (n + m)) s ≡ drain_rounds (suc n) s
drain_rounds_enough zero m s v set h =
    elim (Option-cases (find s.pool s.expected_seq s.expected_seq)) [
      | inl f ↦ drain_none (0 + m) s f ∙ sym (drain_none 0 s f)
      | inr (i, f) ↦ absurd (omega (arith, pass_slot-count s i v f, h))
    ]
drain_rounds_enough (suc n) m s v set h =
    elim (Option-cases (find s.pool s.expected_seq s.expected_seq)) [
      | inl f ↦ drain_none (suc n + m) s f ∙ sym (drain_none (suc n) s f)
      | inr (i, f) ↦ elim (Bool-cases (publish_ref s (slot_ref i)).0) [
        | inr d ↦ drain_full (suc n + m) s i f d ∙ sym (drain_full (suc n) s i f d)
        | inl d ↦
            let t = pass_slot s i in
            let shift : suc n + m ≡ suc (n + m) = omega arith in
            drain_next (suc n + m) s i f d
            ∙ ap (λ k. drain_rounds k t) shift
            ∙ drain_rounds_enough n m t (pass_slot_lem s i v set f d).inv
                (pass_slot-session s i set) (omega (arith, pass_slot-count s i v f, h))
            ∙ sym (drain_next (suc n) s i f d)
      ]
    ]

-- From a state with the invariant and an open session, the rounds allowed for publishing the pending
-- slots are enough: more give the same.
pub drain_pending_total :
    (m : ℕ) (s : Receiver)
    → Inv s
    → is_set s.session ≡ true
    → drain_rounds (suc (reorder_max + m)) s ≡ drain_pending s
unfolding drain_pending
drain_pending_total m s v set =
    drain_rounds_enough reorder_max m s v set (count-bound s.pool s.expected_seq)
