-- ===== src/Receiver/Gap/Ahead.antt =====
-- The branch of handle_payload for a packet ahead of its turn.
use low_latency_trading_pipe.Base.{
  ℕ, ◌+◌, ◌-◌, ◌^◌, ◌≤◌, ◌<◌, ◌≡◌, refl, sym, ◌≢◌, inl, inr, true, ◌||◌, not, Option, none, some,
  List, [], ◌∷◌, ◌++◌, append-nil, arith, ltb, ◌==◌, ltb→lt, Bool-cases, Option-cases, length, u64,
  sub64,
}
use low_latency_trading_pipe.Ring.Queue.{contents}
use low_latency_trading_pipe.Receiver.Pool.{header_seq, header_count, alloc_slot, find, find_min}
use low_latency_trading_pipe.Receiver.Pool.Scan.{find_min-some}
use low_latency_trading_pipe.Receiver.Gap.{
  Receiver, is_set, drain_pending, skip_ahead, buffer_future, send_request, write_slot,
  retransmit_interval_ns, slot_size,
}
use low_latency_trading_pipe.Receiver.Gap.Inv.{Inv, Chain-raise}
use low_latency_trading_pipe.Receiver.Gap.Order.{Extends, relabel, Extends-refl}
use low_latency_trading_pipe.Receiver.Gap.Branches.{then_drain, rebase, Extends-drop, written-Inv}

send_request_lem :
    (s : Receiver)
    → Inv s
    → (start count now : ℕ) → Extends s s.expected_seq (send_request s start count now)
unfolding send_request
send_request_lem s v start count now =
    elim (Bool-cases (not s.rewinder_open || not (is_set s.session))) [
      | inl a ↦ rw a (Extends-refl s v)
      | inr a ↦ elim (Bool-cases (count == 0)) [
        | inl b ↦ rw (a, b) (Extends-refl s v)
        | inr b ↦ elim (Bool-cases (ltb (sub64 now s.last_request_ns) retransmit_interval_ns)) [
          | inl c ↦ rw (a, b, c) (Extends-refl s v)
          | inr c ↦
              rw (a, b, c)
                (record {
                  fresh = [];
                  grown = sym (append-nil _);
                  tiles = refl;
                  inv =
                      relabel s now s.dropped_packets (u64 (s.retrans_requests + 1))
                        s.retrans_filled (s.requests ++ ((start, count) ∷ [])) v;
                })
        ]
      ]
    ]

module _ (s : Receiver) (payload : List ℕ) (umem : Option ℕ) (now : ℕ) (v : Inv s)
    (set : is_set s.session ≡ true) (some_messages : 0 < header_count payload)
    (room : header_seq payload + header_count payload < 2 ^ 64)
    (fits : length payload ≤ slot_size) where
  -- The state that a skip leaves for the drain.
  abbrev skipped : ℕ → Receiver
  skipped j = record s {
    dropped_packets = u64 (s.dropped_packets + ((s.pool j).start_seq - s.expected_seq));
    expected_seq = (s.pool j).start_seq;
  }

  skipped_lem :
      (j : ℕ)
      → find_min s.pool s.expected_seq ≡ some j
      → s.expected_seq < (s.pool j).start_seq
      → Extends s (s.pool j).start_seq (drain_pending (skipped j))
  skipped_lem j f l =
      let (inside, waits) = find_min-some s.pool s.expected_seq j f in
      let ok = v.slots j inside (ground arith) in
      then_drain s (skipped j) (s.pool j).start_seq
        (record {
          fresh = [];
          grown = sym (append-nil _);
          tiles = refl;
          inv = record {
            ring_valid = v.ring_valid;
            slots = v.slots;
            chain =
                Chain-raise _ _ _ (contents s.ring) 0 s.expected_seq (s.pool j).start_seq
                  (omega arith) v.chain;
            unset = λ e. absurd (cc);
            in_range = omega (arith, ok.no_wrap);
            intact = v.intact;
          };
        })
        set

  skip_ahead_lem : (e : ℕ) × (s.expected_seq ≤ e) × Extends s e (skip_ahead s)
  unfolding skip_ahead
  skip_ahead_lem = elim (Option-cases (find_min s.pool s.expected_seq)) [
    | inl f ↦ (s.expected_seq, omega arith, rw (f, skip_ahead) (Extends-drop s v))
    | inr (j, f) ↦ elim (Bool-cases (ltb s.expected_seq (s.pool j).start_seq)) [
      | inl l ↦
          let lt = ltb→lt s.expected_seq (s.pool j).start_seq l in
          ((s.pool j).start_seq, omega arith, rw (f, l, skip_ahead) (skipped_lem j f lt))
      | inr l ↦ (s.expected_seq, omega arith, rw (f, l, skip_ahead) (Extends-drop s v))
    ]
  ]

  pub buffer_future_lem :
      (e : ℕ) × (s.expected_seq ≤ e)
      × Extends s e (buffer_future s payload umem now).0
      × (e ≢ s.expected_seq → alloc_slot s.pool ≡ none)
  unfolding buffer_future
  buffer_future_lem = elim (Option-cases (find s.pool s.expected_seq (header_seq payload))) [
    | inr (j, f) ↦ (
      s.expected_seq,
      omega arith,
      rw (f, buffer_future) (Extends-refl s v),
      λ n. absurd (n refl),
    )
    | inl f ↦ elim (Option-cases (alloc_slot s.pool)) [
      | inl g ↦ let (e, l, x) = skip_ahead_lem in (e, l, rw (f, g, buffer_future) x, λ n. g)
      | inr (idx, g) ↦
          let t = write_slot s idx payload now in
          (
            s.expected_seq,
            omega arith,
            rw (f, g, buffer_future)
                (rebase s t _ s.expected_seq refl (
                  send_request_lem t
                    (written-Inv s payload umem now v set some_messages room fits idx g) _ _ now)),
            λ n. absurd (n refl),
          )
    ]
  ]
