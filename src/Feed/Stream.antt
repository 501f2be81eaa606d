-- ===== src/Feed/Stream.antt =====
-- The packets of a whole run of bulk_feed (apps/server/feed.c), against the bytes of the file.
use low_latency_trading_pipe.Base.{
  ℕ, zero, suc, ◌+◌, ◌≤◌, ◌<◌, ◌≡◌, refl, sym, ap, subst, ◌∙◌, inl, inr, true, ◌||◌, List, [], ◌∷◌,
  ◌++◌, append-nil, append_assoc, arith, ltb, ◌==◌, Bool-cases, length, length-append, AllBytes,
  AllBytes-append, u64,
}
use low_latency_trading_pipe.Framing.{concat}
use low_latency_trading_pipe.Feed.{
  Packet, Feed, init, pack, emit, fill, feed_reads, end_of_session, bulk_feed,
}
use low_latency_trading_pipe.Feed.Pack.{Packed, stops, pack_buffer_lem}

-- The messages of packets, one payload behind the other.
abbrev pub payloads : List Packet → List ℕ
payloads [] = []
payloads (p ∷ ps) = p.payload ++ payloads ps

-- The packets are numbered from one number on up to another, each by the messages before it, and
-- each holds whole messages, as many as its count says and at least one.
abbrev pub Consecutive : ℕ → List Packet → ℕ → Type 0
Consecutive e [] last = e ≡ last
Consecutive e (p ∷ ps) last =
    (p.seq ≡ e)
    × (0 < p.msg_count)
    × Packed p.payload p.msg_count
    × Consecutive (u64 (e + p.msg_count)) ps last

pub payloads-append : (ps qs : List Packet) → payloads (ps ++ qs) ≡ payloads ps ++ payloads qs
payloads-append [] qs = refl
payloads-append (p ∷ ps) qs =
    ap (λ t. p.payload ++ t) (payloads-append ps qs)
    ∙ sym (append_assoc p.payload (payloads ps) (payloads qs))

pub Consecutive-snoc :
    (e : ℕ) (ps : List Packet) (p : Packet)
    → Consecutive e ps p.seq
    → 0 < p.msg_count
    → Packed p.payload p.msg_count
    → Consecutive e (ps ++ (p ∷ [])) (u64 (p.seq + p.msg_count))
Consecutive-snoc e [] p c some_messages k =
    (sym c, some_messages, k, ap (λ x. u64 (x + p.msg_count)) c)
Consecutive-snoc e (q ∷ ps) p c some_messages k =
    (c.0, c.1, c.2, Consecutive-snoc (u64 (e + q.msg_count)) ps p c.3 some_messages k)

AllBytes-split : (b c : List ℕ) → AllBytes (b ++ c) → AllBytes b × AllBytes c
AllBytes-split [] c h = (tt, h)
AllBytes-split (x ∷ b) c h = let r = AllBytes-split b c h.1 in ((h.0, r.0), r.1)

-- What a state has packed of the bytes `all`, with `rest` still in the buffer.
pub record Holds (s : Feed) (rest all : List ℕ) : Type 0 where
  pub whole : payloads s.packed ++ rest ≡ all
  pub numbered : Consecutive 1 s.packed s.seq
  pub bytes : AllBytes rest

module _ (session : List ℕ) (drop_every dup_every : ℕ) where
  emit-Holds :
      (s : Feed) (payload : List ℕ) (msg_count : ℕ) (rest all : List ℕ)
      → Holds s (payload ++ rest) all
      → 0 < msg_count
      → Packed payload msg_count
      → AllBytes rest
      → Holds (emit session drop_every dup_every s payload msg_count) rest all
  unfolding emit
  emit-Holds s payload msg_count rest all h some_messages k bytes =
      let p : Packet = record { seq = s.seq; msg_count = msg_count; payload = payload } in
      record {
        whole =
            ap (λ t. t ++ rest)
              (payloads-append s.packed (p ∷ [])
                ∙ ap (λ t. payloads s.packed ++ t) (append-nil payload))
            ∙ append_assoc (payloads s.packed) payload rest
            ∙ h.whole;
        numbered = Consecutive-snoc 1 s.packed p h.numbered some_messages k;
        bytes = bytes;
      }

  -- The loop over the buffer loses nothing, and stops only at a message that cannot be packed.
  fill_lem :
      (n : ℕ) (s : Feed) (b all : List ℕ)
      → Holds s b all
      → length b ≤ n
      → let r = fill session drop_every dup_every n s b in Holds r.0 r.1 all × (stops 0 r.1 ≡ true)
  unfolding fill stops
  fill_lem zero s b all h l = (h, ground arith)
  fill_lem (suc n) s b all h l =
      let (p, made) = pack_buffer_lem b h.bytes in
      let r = pack (length b) [] 0 b in
      elim (Bool-cases (ltb (length b) 2 || r.1 == 0)) [
        | inl e ↦ rw e (
          h,
          elim (Bool-cases (stops 0 b)) [ inl f ↦ f | inr f ↦ absurd (ground (arith, made f)) ],
        )
        | inr e ↦
            let full : 0 < r.1 = ground arith in
            rw e (
              fill_lem n (emit session drop_every dup_every s r.0 r.1) r.2 all
                (emit-Holds s r.0 r.1 r.2 all
                  (record {
                    whole = ap (λ t. payloads s.packed ++ t) p.whole ∙ h.whole;
                    numbered = h.numbered;
                    bytes = subst AllBytes (sym p.whole) h.bytes;
                  })
                  full p.packed p.bytes)
                (omega (arith, ap length p.whole, length-append r.0 r.2, p.packed.few, full)))
      ]

  -- The reads one after the other, with the bytes that each leaves.
  feed_reads_lem :
      (s : Feed) (leftover all : List ℕ) (chunks : List (List ℕ))
      → Holds s leftover all
      → stops 0 leftover ≡ true
      → AllBytes (concat chunks)
      → let r = feed_reads session drop_every dup_every s leftover chunks in
        Holds r.0 r.1 (all ++ concat chunks) × (stops 0 r.1 ≡ true)
  unfolding feed_reads
  feed_reads_lem s leftover all [] h e b =
      (subst (λ t. Holds s leftover t) (sym (append-nil all)) h, e)
  feed_reads_lem s leftover all (chunk ∷ chunks) h e b =
      let (first, later) = AllBytes-split chunk (concat chunks) b in
      let joined : Holds s (leftover ++ chunk) (all ++ chunk) = record {
        whole =
            sym (append_assoc (payloads s.packed) leftover chunk) ∙ ap (λ t. t ++ chunk) h.whole;
        numbered = h.numbered;
        bytes = AllBytes-append leftover chunk h.bytes first;
      } in
      let r =
        fill session drop_every dup_every (length (leftover ++ chunk)) s (leftover ++ chunk) in
      let (held, stuck) =
        fill_lem (length (leftover ++ chunk)) s (leftover ++ chunk) (all ++ chunk) joined
          (omega arith) in
      subst
        (λ t.
          let q = feed_reads session drop_every dup_every r.0 r.1 chunks in
          Holds q.0 q.1 t × (stops 0 q.1 ≡ true))
        (append_assoc all chunk (concat chunks))
        (feed_reads_lem r.0 r.1 (all ++ chunk) chunks held stuck later)

  -- For the bytes that the reads of a file give, however they are cut: the payloads of the packets are
  -- the front of them, in order, and what is left over begins with no message that is whole and fits a
  -- packet. The packets
  -- are numbered from 1 on by their messages, and each holds as many whole messages as it counts.
  pub bulk_feed-Consecutive :
      (chunks : List (List ℕ))
      → AllBytes (concat chunks)
      → let t = bulk_feed session drop_every dup_every chunks in
        (Consecutive 1 t.packed t.seq)
        × ((rest : List ℕ) × (payloads t.packed ++ rest ≡ concat chunks) × (stops 0 rest ≡ true))
  unfolding bulk_feed end_of_session stops
  bulk_feed-Consecutive chunks b =
      let r = feed_reads session drop_every dup_every init [] chunks in
      let (h, stuck) =
        feed_reads_lem init [] [] chunks (record { whole = refl; numbered = refl; bytes = tt })
          (ground arith) b in
      (h.numbered, (r.1, h.whole, stuck))
