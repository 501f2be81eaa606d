-- ===== src/Rewinder/Log/History.antt =====
-- What find_packet of apps/server/rewinder.c finds after packets have been cached, one after the other.
use low_latency_trading_pipe.Base.{
  ℕ, zero, suc, ◌+◌, ◌^◌, ◌≤◌, ◌<◌, ◌≡◌, refl, sym, ap, subst, ◌∙◌, inl, inr, false, ◌||◌, Option,
  none, some, List, [], ◌∷◌, arith, ltb, ◌==◌, Bool-cases, length, take,
}
use low_latency_trading_pipe.Rewinder
use low_latency_trading_pipe.Rewinder.{
  CachedPacket, Cache, cache_slots, covers, find_packet, cache_packet, max_packet,
}
use low_latency_trading_pipe.Rewinder.Log.{
  log, log_push, first_covering, find_packet_lem, cache_packet_refines,
}

-- The cache after the packets of a list, the newest first.
unfoldable pub cache_all : List CachedPacket → Cache
unfolding cache_packet
cache_all [] = Rewinder.init
cache_all (p ∷ ps) =
    cache_packet (cache_all ps) p.session p.start_seq p.msg_count p.bytes (length p.bytes)

-- Packets with messages whose numbers begin above 0 and end below 2^64, and which fit a slot.
pub record IsCacheable (p : CachedPacket) : Type 0 where
  pub short : length p.bytes ≤ 1500
  pub some_messages : 0 < p.msg_count
  pub numbered : 0 < p.start_seq
  pub no_wrap : p.start_seq + p.msg_count < 2 ^ 64

abbrev pub AllCacheable : List CachedPacket → Type 0
AllCacheable [] = Unit
AllCacheable (p ∷ ps) = IsCacheable p × AllCacheable ps

-- A packet has the message of a number.
abbrev pub Has : ℕ → CachedPacket → Type 0
Has seq p = (p.start_seq ≤ seq) × (seq < p.start_seq + p.msg_count)

-- The answer to a search: a packet that has the message, with none in front of it that has, or nothing
-- where none has.
pub data Newest (seq : ℕ) : List CachedPacket → Option CachedPacket → Type 0 where
  nowhere : Newest seq [] none
  here : (p : CachedPacket) (ps : List CachedPacket) → Has seq p → Newest seq (p ∷ ps) (some p)
  behind :
      (p : CachedPacket) (ps : List CachedPacket) (found : Option CachedPacket)
      → ¬ Has seq p
      → Newest seq ps found
      → Newest seq (p ∷ ps) found

cache_all-write_cursor :
    (ps : List CachedPacket)
    → AllCacheable ps
    → length ps < 2 ^ 32
    → (cache_all ps).write_cursor ≡ length ps
unfolding cache_all cache_packet
cache_all-write_cursor [] a l = refl
cache_all-write_cursor (p ∷ ps) a l =
    let before = cache_all-write_cursor ps a.1 (omega (arith, l)) in
    let fits : (ltb max_packet (length p.bytes) || p.msg_count == 0) ≡ false =
      ground (arith, a.0.short, a.0.some_messages) in
    rw fits (omega (arith, before, l))

take_front :
    (n : ℕ) (p : CachedPacket) (xs : List CachedPacket) → take n (p ∷ take n xs) ≡ take n (p ∷ xs)
take_front zero p xs = refl
take_front (suc n) p xs = ap (λ t. p ∷ t) (take_shorter n xs)
  where
    take_shorter : (n : ℕ) (xs : List CachedPacket) → take n (take (suc n) xs) ≡ take n xs
    take_shorter zero xs = refl
    take_shorter (suc n) [] = refl
    take_shorter (suc n) (x ∷ xs) = ap (λ t. x ∷ t) (take_shorter n xs)

take-length : (b : List ℕ) → take (length b) b ≡ b
take-length [] = refl
take-length (x ∷ b) = ap (λ t. x ∷ t) (take-length b)

empty_log : log Rewinder.init ≡ []
unfolding log
empty_log = refl

cache_all-log :
    (ps : List CachedPacket)
    → AllCacheable ps
    → length ps < 2 ^ 32
    → log (cache_all ps) ≡ take cache_slots ps
unfolding cache_all log_push
cache_all-log [] a l = empty_log
cache_all-log (p ∷ ps) a l =
    let c = cache_all ps in
    let w = cache_all-write_cursor ps a.1 (omega (arith, l)) in
    let k =
      cache_packet_refines c p.session p.start_seq p.msg_count p.bytes (length p.bytes) a.0.short
        a.0.some_messages (omega (arith, w, l)) in
    k
    ∙ ap (λ b. take cache_slots (record p { bytes = b } ∷ log c)) (take-length p.bytes)
    ∙ ap (λ x. take cache_slots (p ∷ x)) (cache_all-log ps a.1 (omega (arith, l)))
    ∙ take_front cache_slots p ps

AllCacheable-take : (n : ℕ) (ps : List CachedPacket) → AllCacheable ps → AllCacheable (take n ps)
AllCacheable-take zero ps a = tt
AllCacheable-take (suc n) [] a = tt
AllCacheable-take (suc n) (p ∷ ps) a = (a.0, AllCacheable-take n ps a.1)

first_covering-Newest :
    (seq : ℕ) (ps : List CachedPacket) → AllCacheable ps → Newest seq ps (first_covering seq ps)
unfolding first_covering
first_covering-Newest seq [] a = nowhere
first_covering-Newest seq (p ∷ ps) a =
    let q = a.0 in
    elim (Bool-cases (covers seq p)) [
      | inl e ↦ rw e (here p ps (ground (arith, e, q.no_wrap), ground (arith, e, q.no_wrap)))
      | inr e ↦ rw e (
          behind p ps (first_covering seq ps)
            (λ h. ground (arith, e, q.no_wrap, q.numbered, h.0, h.1))
            (first_covering-Newest seq ps a.1))
    ]

-- After packets that each have a message at least, numbers above 0 and below 2^64, and at most 1500
-- bytes, fewer than 2^32 of them, have been cached: a search finds the newest of the last 65536 that
-- has the message of the number, and nothing if none of these has it.
pub find_packet-Newest :
    (ps : List CachedPacket) (seq : ℕ)
    → AllCacheable ps
    → length ps < 2 ^ 32
    → Newest seq (take 65536 ps) (find_packet (cache_all ps) seq)
find_packet-Newest ps seq a l =
    let logged = cache_all-log ps a l in
    subst (Newest seq (take cache_slots ps))
      (sym (find_packet_lem (cache_all ps) seq ∙ ap (first_covering seq) logged))
      (first_covering-Newest seq (take cache_slots ps) (AllCacheable-take cache_slots ps a))
