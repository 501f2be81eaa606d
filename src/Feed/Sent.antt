-- ===== src/Feed/Sent.antt =====
-- The datagrams that bulk_feed (apps/server/feed.c) sends.
use low_latency_trading_pipe.Base.{
  ℕ, zero, suc, ◌≡◌, refl, sym, ap, ◌∙◌, inl, inr, ◌||◌, List, [], ◌∷◌, ◌++◌, append-nil,
  append_assoc, ltb, ◌==◌, Bool-cases, length,
}
use low_latency_trading_pipe.Feed.{
  Packet, Feed, init, pack, packet_bytes, copies, emit, fill, feed_reads, end_of_session, bulk_feed,
}

module _ (session : List ℕ) (drop_every dup_every : ℕ) where
  -- The datagrams of packets.
  abbrev pub sent_of : List Packet → List (List ℕ)
  sent_of [] = []
  sent_of (p ∷ ps) =
      copies session drop_every dup_every p.seq
        (packet_bytes session drop_every dup_every p.seq p.msg_count p.payload)
      ++ sent_of ps

  sent_of-append : (ps qs : List Packet) → sent_of (ps ++ qs) ≡ sent_of ps ++ sent_of qs
  sent_of-append [] qs = refl
  sent_of-append (p ∷ ps) qs =
      let c =
        copies session drop_every dup_every p.seq
          (packet_bytes session drop_every dup_every p.seq p.msg_count p.payload) in
      ap (λ t. c ++ t) (sent_of-append ps qs) ∙ sym (append_assoc c (sent_of ps) (sent_of qs))

  fill-sent :
      (n : ℕ) (s : Feed) (b : List ℕ)
      → s.sent ≡ sent_of s.packed
      → let t = (fill session drop_every dup_every n s b).0 in t.sent ≡ sent_of t.packed
  unfolding fill emit
  fill-sent zero s b h = h
  fill-sent (suc n) s b h =
      let r = pack (length b) [] 0 b in
      let p : Packet = record { seq = s.seq; msg_count = r.1; payload = r.0 } in
      let c =
        copies session drop_every dup_every s.seq
          (packet_bytes session drop_every dup_every s.seq r.1 r.0) in
      let next = fill-sent n (emit session drop_every dup_every s r.0 r.1) r.2 (
        ap (λ t. t ++ c) h
        ∙ ap (λ t. sent_of s.packed ++ t) (sym (append-nil c))
        ∙ sym (sent_of-append s.packed (p ∷ []))) in
      elim (Bool-cases (ltb (length b) 2 || r.1 == 0)) [ inl e ↦ rw e h | inr e ↦ rw e next ]

  feed_reads-sent :
      (s : Feed) (leftover : List ℕ) (chunks : List (List ℕ))
      → s.sent ≡ sent_of s.packed
      → let t = (feed_reads session drop_every dup_every s leftover chunks).0 in
        t.sent ≡ sent_of t.packed
  unfolding feed_reads
  feed_reads-sent s leftover [] h = h
  feed_reads-sent s leftover (chunk ∷ chunks) h =
      let b = leftover ++ chunk in
      let r = fill session drop_every dup_every (length b) s b in
      feed_reads-sent r.0 r.1 chunks (fill-sent (length b) s b h)

  -- The datagrams sent are those of the packets in order, each none, one or two times as the mode
  -- says, and then the end of the session with the number behind the last message.
  pub bulk_feed-sent :
      (chunks : List (List ℕ))
      → let t = bulk_feed session drop_every dup_every chunks in
        t.sent
        ≡ sent_of t.packed ++ (packet_bytes session drop_every dup_every t.seq 0xffff [] ∷ [])
  unfolding bulk_feed end_of_session
  bulk_feed-sent chunks =
      let t = (feed_reads session drop_every dup_every init [] chunks).0 in
      ap (λ u. u ++ (packet_bytes session drop_every dup_every t.seq 0xffff [] ∷ []))
        (feed_reads-sent init [] chunks refl)
