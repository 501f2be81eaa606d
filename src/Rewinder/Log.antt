-- ===== src/Rewinder/Log.antt =====
-- The cache of apps/server/rewinder.c seen as a list of packets, the newest first.
pub mod History
use low_latency_trading_pipe.Base.{
  ℕ, zero, suc, ◌+◌, ◌-◌, ◌%◌, ◌^◌, ◌≤◌, ◌<◌, ◌≡◌, refl, sym, ap, ap₂, ◌∙◌, inl, inr, false, ◌||◌,
  Option, none, some, List, [], ◌∷◌, arith, mod-eq_of_lt, ltb, ◌==◌, if◌then◌else◌, ltb→lt,
  Bool-cases, length, take, update, update_self, update_ne, sub32,
}
use low_latency_trading_pipe.Rewinder.{
  CachedPacket, Cache, cache_slots, covers, find_from, scan_max, find_packet, cache_packet,
  max_packet,
}

-- The specification: a list of packets, and the first of them that has a message.
pub first_covering : ℕ → List CachedPacket → Option CachedPacket
first_covering seq [] = none
first_covering seq (p ∷ ps) =
    let rest = first_covering seq ps in if covers seq p then some p else rest

pub log_push : CachedPacket → List CachedPacket → List CachedPacket
log_push p ps = take cache_slots (p ∷ ps)

-- The slots from `i` behind the cursor on.
abbrev pub recent : (ℕ → CachedPacket) → ℕ → ℕ → ℕ → List CachedPacket
recent f w zero i = []
recent f w (suc k) i = f (sub32 w i % cache_slots) ∷ recent f w k (i + 1)

pub log : Cache → List CachedPacket
log c = recent c.slots c.write_cursor (scan_max c) 1

find_from-first_covering :
    (c : Cache) (seq k i : ℕ)
    → find_from c seq k i ≡ first_covering seq (recent c.slots c.write_cursor k i)
unfolding find_from first_covering
find_from-first_covering c seq zero i = refl
find_from-first_covering c seq (suc k) i =
    ap
      (λ r.
        if covers seq (c.slots (sub32 c.write_cursor i % cache_slots))
        then some (c.slots (sub32 c.write_cursor i % cache_slots))
        else r)
      (find_from-first_covering c seq k (i + 1))

-- The search finds the newest packet of the log that has the message, if there is one, and nothing
-- if there is none.
pub find_packet_lem : (c : Cache) (seq : ℕ) → find_packet c seq ≡ first_covering seq (log c)
unfolding find_packet log
find_packet_lem c seq = find_from-first_covering c seq (scan_max c) 1

-- Behind a new packet the old ones stand one further back, as many as the ring keeps.
recent-update :
    (f : ℕ → CachedPacket) (p : CachedPacket) (w k i : ℕ)
    → 1 ≤ i
    → i + k ≤ cache_slots
    → i + k ≤ w + 1
    → w + 1 < 2 ^ 32
    → recent (update f (w % cache_slots) p) (w + 1) k (i + 1) ≡ recent f w k i
recent-update f p w zero i a b c d = refl
recent-update f p w (suc k) i a b c d =
    let same : sub32 (w + 1) (i + 1) ≡ sub32 w i = omega arith in
    ap₂ ◌∷◌
      (update_ne f (w % cache_slots) (sub32 (w + 1) (i + 1) % cache_slots) p (omega arith)
        ∙ ap (λ x. f (x % cache_slots)) same)
      (recent-update f p w k (i + 1) (omega arith) (omega arith) (omega arith) d)

take-recent :
    (f : ℕ → CachedPacket) (w n k i : ℕ) → n ≤ k → take n (recent f w k i) ≡ recent f w n i
take-recent f w zero k i h = refl
take-recent f w (suc n) zero i h = absurd (omega arith)
take-recent f w (suc n) (suc k) i h =
    ap (λ t. f (sub32 w i % cache_slots) ∷ t) (take-recent f w n k (i + 1) (omega arith))

length-recent : (f : ℕ → CachedPacket) (w k i : ℕ) → length (recent f w k i) ≡ k
length-recent f w zero i = refl
length-recent f w (suc k) i = ap suc (length-recent f w k (i + 1))

take-all : (n : ℕ) (xs : List CachedPacket) → length xs ≤ n → take n xs ≡ xs
take-all zero [] h = refl
take-all zero (x ∷ xs) h = absurd (omega arith)
take-all (suc n) [] h = refl
take-all (suc n) (x ∷ xs) h = ap (λ t. x ∷ t) (take-all n xs (omega arith))

-- How many of the old packets stay.
abbrev kept : ℕ → ℕ
kept w = if ltb w cache_slots then w else cache_slots - 1

take-kept :
    (f : ℕ → CachedPacket) (w : ℕ)
    → take (cache_slots - 1) (recent f w (if ltb w cache_slots then w else cache_slots) 1)
      ≡ recent f w (kept w) 1
take-kept f w = elim (Bool-cases (ltb w cache_slots)) [
  | inl e ↦ rw e (
      take-all (cache_slots - 1) (recent f w w 1)
        (omega (arith, length-recent f w w 1, ltb→lt w cache_slots e)))
  | inr e ↦ rw e (take-recent f w (cache_slots - 1) cache_slots 1 (omega arith))
]

log-pushed :
    (f : ℕ → CachedPacket) (p : CachedPacket) (w : ℕ)
    → w + 1 < 2 ^ 32
    → recent (update f (w % cache_slots) p) (w + 1) (suc (kept w)) 1 ≡ p ∷ recent f w (kept w) 1
log-pushed f p w d =
    ap₂ ◌∷◌ (update_self f (w % cache_slots) (sub32 (w + 1) 1 % cache_slots) p (omega arith))
      (recent-update f p w (kept w) 1 (omega arith) (ground arith) (ground arith) d)

-- Caching a packet of at most 1500 bytes that has messages pushes it on the log of the newest 65536
-- packets, while the write cursor stays below 2^32 - 1.
pub cache_packet_refines :
    (c : Cache) (session : List ℕ) (start_seq msg_count : ℕ) (packet : List ℕ) (packet_len : ℕ)
    → packet_len ≤ max_packet
    → 0 < msg_count
    → c.write_cursor + 1 < 2 ^ 32
    → log (cache_packet c session start_seq msg_count packet packet_len)
      ≡ log_push
          (record {
            start_seq = start_seq;
            msg_count = msg_count;
            session = session;
            bytes = take packet_len packet;
          })
          (log c)
unfolding log cache_packet log_push
cache_packet_refines c session start_seq msg_count packet packet_len l m d =
    let fits : (ltb max_packet packet_len || msg_count == 0) ≡ false = ground arith in
    let w = c.write_cursor in
    let p : CachedPacket = record {
      start_seq = start_seq;
      msg_count = msg_count;
      session = session;
      bytes = take packet_len packet;
    } in
    rw (fits, mod-eq_of_lt d)
      (ap (λ k. recent (update c.slots (w % cache_slots) p) (w + 1) k 1) (next_scan w)
        ∙ log-pushed c.slots p w d
        ∙ ap (λ t. p ∷ t) (sym (take-kept c.slots w)))
  where
    next_scan : (w : ℕ) → (if ltb (w + 1) cache_slots then w + 1 else cache_slots) ≡ suc (kept w)
    next_scan w = ground arith
