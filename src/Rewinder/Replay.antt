-- ===== src/Rewinder/Replay.antt =====
-- The answer of apps/server/rewinder.c to a retransmission request.
use low_latency_trading_pipe.Base.{
  ℕ, zero, suc, ◌+◌, ◌-◌, ◌%◌, ◌^◌, ◌≤◌, ◌<◌, ◌≡◌, sym, subst, inl, inr, true, false, some, List,
  [], ◌∷◌, arith, mod-eq_of_lt, leb, ◌==◌, if◌then◌else◌, lt-leb, Bool-cases, some_inj, length, u64,
  sub32, sub64, be16, be64,
}
use low_latency_trading_pipe.Rewinder.{
  CachedPacket, Cache, covers, find_packet, replay, find_from, scan_max, cache_slots,
  handle_request, max_replay,
}

-- The packets, sent in this order, hold the messages from a number up to a goal with no gap.
unfoldable pub Reaches : List CachedPacket → ℕ → ℕ → Type 0
Reaches [] seq goal = goal ≤ seq
Reaches (p ∷ ps) seq goal =
    p.start_seq ≤ seq
    × seq < p.start_seq + p.msg_count
    × Reaches ps (p.start_seq + p.msg_count) goal

Reaches-mono :
    (ps : List CachedPacket) (seq goal wider : ℕ)
    → goal ≤ wider
    → Reaches ps seq wider
    → Reaches ps seq goal
unfolding Reaches
Reaches-mono [] seq goal wider h r = omega arith
Reaches-mono (p ∷ ps) seq goal wider h (a, b, r) =
    (a, b, Reaches-mono ps (p.start_seq + p.msg_count) goal wider h r)

-- A slot's messages have numbers of 64 bits.
unfoldable pub InRange : CachedPacket → Type 0
InRange p = p.start_seq + p.msg_count < 2 ^ 64

covers-bounds :
    (seq : ℕ) (p : CachedPacket)
    → InRange p
    → covers seq p ≡ true
    → p.start_seq ≤ seq × seq < p.start_seq + p.msg_count
unfolding InRange
covers-bounds seq p r h =
    let same : u64 (p.start_seq + p.msg_count) ≡ p.start_seq + p.msg_count = mod-eq_of_lt r in
    ground arith

find_from_sound :
    (c : Cache) (seq k i : ℕ) (p : CachedPacket)
    → ((j : ℕ) → InRange (c.slots j))
    → find_from c seq k i ≡ some p
    → InRange p × covers seq p ≡ true
unfolding find_from
find_from_sound c seq zero i p r h = absurd cc
find_from_sound c seq (suc k) i p r h =
    let q = c.slots (sub32 c.write_cursor i % cache_slots) in
    elim (Bool-cases (covers seq q)) [
      | inl e ↦
          let same : q ≡ p = some_inj (rw e at h) in
          subst (λ x. InRange x × covers seq x ≡ true) same
            (r (sub32 c.write_cursor i % cache_slots), e)
      | inr e ↦ find_from_sound c seq k (i + 1) p r (rw e at h)
    ]

find_packet_sound :
    (c : Cache) (seq : ℕ) (p : CachedPacket)
    → ((j : ℕ) → InRange (c.slots j))
    → find_packet c seq ≡ some p
    → InRange p × (p.start_seq ≤ seq × seq < p.start_seq + p.msg_count)
unfolding find_packet
find_packet_sound c seq p r h =
    let found = find_from_sound c seq (scan_max c) 1 p r h in
    (found.0, covers-bounds seq p found.0 found.1)

-- Each of `cnt` messages from `seq` on is in a packet of the cache.
unfoldable pub IsCached : Cache → ℕ → ℕ → Type 0
IsCached c seq cnt =
    (k : ℕ) → seq ≤ k → k < seq + cnt → (p : CachedPacket) × find_packet c k ≡ some p

replay_done : (c : Cache) (n seq cnt : ℕ) → (cnt == 0) ≡ true → replay c (suc n) seq cnt ≡ []
unfolding replay
replay_done c n seq cnt e = rw (e, replay)

-- One packet is sent, and the search goes on behind it.
replay_step :
    (c : Cache) (n seq cnt : ℕ) (p : CachedPacket)
    → (cnt == 0) ≡ false
    → find_packet c seq ≡ some p
    → p.start_seq + p.msg_count < 2 ^ 64
    → seq < p.start_seq + p.msg_count
    → replay c (suc n) seq cnt
      ≡ p
        ∷ replay c n (p.start_seq + p.msg_count) (
            if leb cnt (sub64 (p.start_seq + p.msg_count) seq)
            then 0
            else cnt - sub64 (p.start_seq + p.msg_count) seq)
unfolding replay
replay_step c n seq cnt p e found r h =
    rw (e, found, replay, mod-eq_of_lt r, lt-leb seq (p.start_seq + p.msg_count) h)

-- With as many steps as messages, the replay of cached messages sends them with no gap.
pub replay-Reaches :
    (c : Cache) (n seq cnt : ℕ)
    → ((j : ℕ) → InRange (c.slots j))
    → IsCached c seq cnt
    → cnt ≤ n
    → Reaches (replay c n seq cnt) seq (seq + cnt)
unfolding replay Reaches IsCached InRange
replay-Reaches c zero seq cnt r cached h = omega arith
replay-Reaches c (suc n) seq cnt r cached h = elim (Bool-cases (cnt == 0)) [
  | inl e ↦
      subst (λ ps. Reaches ps seq (seq + cnt)) (sym (replay_done c n seq cnt e)) (ground arith)
  | inr e ↦
      let (p, found) = cached seq (omega arith) (ground arith) in
      let (in_range, bounds) = find_packet_sound c seq p r found in
      let next = p.start_seq + p.msg_count in
      let rest = if leb cnt (sub64 next seq) then 0 else cnt - sub64 next seq in
      subst (λ ps. Reaches ps seq (seq + cnt))
        (sym (replay_step c n seq cnt p e found in_range bounds.1))
        (
          bounds.0,
          bounds.1,
          Reaches-mono (replay c n next rest) next (seq + cnt) (next + rest) (ground arith) (
              replay-Reaches c n next rest r (λ k a b. cached k (omega arith) (ground arith))
                (ground arith)),
        )
]

-- A request of 20 bytes for at most 16 messages that are all cached, where the slots' numbers end
-- below 2^64, is answered by packets that hold the messages asked for, in order and with no gap.
pub handle_request-Reaches :
    (c : Cache) (datagram : List ℕ)
    → length datagram ≡ 20
    → be16 datagram 18 ≤ max_replay
    → ((j : ℕ) → InRange (c.slots j))
    → IsCached c (be64 datagram 10) (be16 datagram 18)
    → Reaches (handle_request c datagram) (be64 datagram 10) (be64 datagram 10 + be16 datagram 18)
unfolding handle_request Reaches
handle_request-Reaches c datagram size few r cached = elim (Bool-cases (be16 datagram 18 == 0)) [
  | inl e ↦ rw (size, e) (ground arith)
  | inr e ↦
      rw (size, e) (replay-Reaches c max_replay (be64 datagram 10) (be16 datagram 18) r cached few)
]
