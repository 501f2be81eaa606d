-- ===== src/Feed/Timed/Groups.antt =====
-- The packets of timestamp_feed (apps/server/feed.c).
use low_latency_trading_pipe.Base.{
  ℕ, ◌+◌, ◌≤◌, ◌<◌, ◌≡◌, refl, sym, ap, subst, ◌∙◌, inl, inr, ◌&&◌, ◌||◌, not, List, [], ◌∷◌, ◌++◌,
  append-nil, append_assoc, arith, ltb, ◌==◌, Bool-cases, length, length-append, u16, put16,
}
use low_latency_trading_pipe.Feed.{Packet, emit, end_of_session, max_msg_payload}
use low_latency_trading_pipe.Feed.Pack.{Packed, Splits, no_messages, one_more}
use low_latency_trading_pipe.Feed.Timed.{
  Timed, Timespec, append_message, data_of, flush, flush_before, flush_last, messages_of,
  msg_timestamp, open_packet, start, take_message, take_messages, timestamp_feed,
}
use low_latency_trading_pipe.Feed.Timed.Messages.{Reads, file_messages-Reads}
use low_latency_trading_pipe.Engine.Packet.Split.{payload_of}
use low_latency_trading_pipe.Feed.Stream.{Consecutive, Consecutive-snoc, payloads, payloads-append}

-- A payload of messages that all have one time.
pub data OneTime (t : ℕ) : List ℕ → Type 0 where
  no_message : OneTime t []
  and_message :
      (p m : List ℕ) → OneTime t p → msg_timestamp m ≡ t → OneTime t (p ++ (put16 (length m) ++ m))

-- Each packet has one time.
abbrev pub AllOneTime : List Packet → Type 0
AllOneTime [] = Unit
AllOneTime (p ∷ ps) = ((t : ℕ) × OneTime t p.payload) × AllOneTime ps

-- Messages that fit a packet.
abbrev pub AllFit : List (List ℕ) → Type 0
AllFit [] = Unit
AllFit (m ∷ ms) = (2 + length m ≤ max_msg_payload) × AllFit ms

-- What the loop has packed of the messages, with `rest` still to come.
pub record Holds (s : Timed) (rest all : List (List ℕ)) : Type 0 where
  pub whole : payloads s.feed.packed ++ (s.payload ++ payload_of rest) ≡ payload_of all
  pub numbered : Consecutive 1 s.feed.packed s.feed.seq
  pub grouped : AllOneTime s.feed.packed
  pub pending : Packed s.payload s.msg_count
  pub one_time : OneTime s.current_packet_ts s.payload
  pub some_bytes : s.msg_count ≡ 0 → s.payload ≡ []

empty-Packed : Packed [] 0
empty-Packed = record { splits = no_messages; fits = omega arith; few = omega arith }

-- A message more in the packet.
append-Packed :
    (p m : List ℕ) (n : ℕ)
    → Packed p n
    → length p + 2 + length m ≤ max_msg_payload
    → Packed (p ++ (put16 (length m) ++ m)) (u16 (n + 1))
append-Packed p m n k f =
    let long : length (p ++ (put16 (length m) ++ m)) ≡ length p + (2 + length m) =
      omega (arith, length-append p (put16 (length m) ++ m)) in
    let counted : u16 (n + 1) ≡ n + 1 = omega (arith, k.few, k.fits) in
    record {
      splits =
          subst (λ x. Splits x (p ++ (put16 (length m) ++ m))) (sym counted)
            (one_more n p m k.splits (omega (arith, f)));
      fits = omega (arith, long, f);
      few = omega (arith, long, counted, k.few);
    }

append_message-Holds :
    (m : List ℕ) (s : Timed) (rest all : List (List ℕ))
    → Holds s (m ∷ rest) all
    → msg_timestamp m ≡ s.current_packet_ts
    → length s.payload + 2 + length m ≤ max_msg_payload
    → Holds (append_message m s) rest all
unfolding payload_of
append_message-Holds m s rest all h t f =
    let prefix = put16 (length m) in
    record {
      whole =
          ap (λ x. payloads s.feed.packed ++ x)
            (append_assoc s.payload (prefix ++ m) (payload_of rest)
              ∙ ap (λ x. s.payload ++ x) (append_assoc prefix m (payload_of rest)))
          ∙ h.whole;
      numbered = h.numbered;
      grouped = h.grouped;
      pending = append-Packed s.payload m s.msg_count h.pending f;
      one_time = and_message s.payload m h.one_time t;
      some_bytes = λ z. absurd (omega (arith, z, h.pending.few, h.pending.fits));
    }

AllOneTime-snoc :
    (ps : List Packet) (p : Packet) (t : ℕ)
    → AllOneTime ps
    → OneTime t p.payload
    → AllOneTime (ps ++ (p ∷ []))
AllOneTime-snoc [] p t h o = ((t, o), tt)
AllOneTime-snoc (q ∷ ps) p t h o = (h.0, AllOneTime-snoc ps p t h.1 o)

-- What has been packed when nothing is pending.
sent_all :
    (s : Timed) (all : List (List ℕ))
    → Holds s [] all
    → s.msg_count ≡ 0
    → (payloads s.feed.packed ≡ payload_of all)
      × AllOneTime s.feed.packed
      × Consecutive 1 s.feed.packed s.feed.seq
unfolding payload_of
sent_all s all h n =
    let packed = payloads s.feed.packed in
    (
      sym (ap (λ x. packed ++ (x ++ [])) (h.some_bytes n) ∙ append-nil packed) ∙ h.whole,
      h.grouped,
      h.numbered,
    )

module _ (session : List ℕ) (scale : ℕ → ℕ) (replay_start : Timespec) where
  -- A packet that goes out, before the time of the next is set.
  flush-Holds :
      (s : Timed) (rest all : List (List ℕ)) (ts : ℕ)
      → Holds s rest all
      → 0 < s.msg_count
      → Holds (record (flush session scale replay_start s) { current_packet_ts = ts }) rest all
  unfolding flush emit
  flush-Holds s rest all ts h n =
      let p : Packet = record { seq = s.feed.seq; msg_count = s.msg_count; payload = s.payload } in
      record {
        whole =
            ap (λ x. x ++ payload_of rest)
              (payloads-append s.feed.packed (p ∷ [])
                ∙ ap (λ x. payloads s.feed.packed ++ x) (append-nil s.payload))
            ∙ append_assoc (payloads s.feed.packed) s.payload (payload_of rest)
            ∙ h.whole;
        numbered = Consecutive-snoc 1 s.feed.packed p h.numbered n h.pending;
        grouped = AllOneTime-snoc s.feed.packed p s.current_packet_ts h.grouped h.one_time;
        pending = empty-Packed;
        one_time = no_message;
        some_bytes = λ z. refl;
      }

  -- What the message is appended to: its time is the packet's, and it fits.
  record IsOpen (m : List ℕ) (s : Timed) : Type 0 where
    time : msg_timestamp m ≡ s.current_packet_ts
    room : length s.payload + 2 + length m ≤ max_msg_payload

  -- The time of an empty packet may be set anew.
  retimed-OneTime : (p : List ℕ) (t : ℕ) → p ≡ [] → OneTime t p
  retimed-OneTime p t e = subst (OneTime t) (sym e) no_message

  -- A packet that is empty is opened at the message's time, and no other is changed.
  open_packet-Holds :
      (ts : ℕ) (s : Timed) (rest all : List (List ℕ))
      → Holds s rest all
      → Holds (open_packet ts s) rest all
        × (s.msg_count ≡ 0 → (open_packet ts s).current_packet_ts ≡ ts)
        × ((open_packet ts s).msg_count ≡ s.msg_count)
        × ((open_packet ts s).payload ≡ s.payload)
  unfolding open_packet
  open_packet-Holds ts s rest all h = elim (Bool-cases (s.msg_count == 0)) [
    | inl e ↦
        let o : OneTime ts s.payload =
          retimed-OneTime s.payload ts (h.some_bytes (ground (arith, e))) in
        elim (Bool-cases s.replay_started) [
          | inl r ↦
              rw (e, r)
                (
                  record {
                    whole = h.whole;
                    numbered = h.numbered;
                    grouped = h.grouped;
                    pending = h.pending;
                    one_time = o;
                    some_bytes = h.some_bytes;
                  },
                  λ z. refl,
                  refl,
                  refl,
                )
          | inr r ↦
              rw (e, r)
                (
                  record {
                    whole = h.whole;
                    numbered = h.numbered;
                    grouped = h.grouped;
                    pending = h.pending;
                    one_time = o;
                    some_bytes = h.some_bytes;
                  },
                  λ z. refl,
                  refl,
                  refl,
                )
        ]
    | inr e ↦ rw e (h, λ z. absurd (ground (arith, e, z)), refl, refl)
  ]

  -- After flush_before, the message has its packet.
  flush_before-Holds :
      (m : List ℕ) (s : Timed) (rest all : List (List ℕ))
      → Holds s rest all
      → (s.msg_count ≡ 0 → s.current_packet_ts ≡ msg_timestamp m)
      → 2 + length m ≤ max_msg_payload
      → Holds (flush_before session scale replay_start m s) rest all
        × IsOpen m (flush_before session scale replay_start m s)
  unfolding flush_before flush
  flush_before-Holds m s rest all h t f =
      let over = ltb max_msg_payload (length s.payload + 2 + length m) in
      elim (Bool-cases
        (ltb 0 s.msg_count && (not (msg_timestamp m == s.current_packet_ts) || over))) [
          | inl e ↦ rw e (
            flush-Holds s rest all (msg_timestamp m) h (ground (arith, e)),
            record { time = refl; room = f },
          )
          | inr e ↦ rw e (
            h,
            elim (Bool-cases (s.msg_count == 0)) [
              | inl z ↦
                  let z' : s.msg_count ≡ 0 = ground (arith, z) in
                  record { time = sym (t z'); room = omega (arith, ap length (h.some_bytes z'), f) }
              | inr z ↦ record { time = ground (arith, e, z); room = ground (arith, e, z) }
            ],
          )
        ]

  take_messages-Holds :
      (ms : List (List ℕ)) (s : Timed) (all : List (List ℕ))
      → Holds s ms all
      → AllFit ms
      → Holds (take_messages session scale replay_start ms s) [] all
  unfolding take_messages
  take_messages-Holds [] s all h f = h
  take_messages-Holds (m ∷ ms) s all h f =
      let (o, t, n, p) = open_packet-Holds (msg_timestamp m) s (m ∷ ms) all h in
      let s' = open_packet (msg_timestamp m) s in
      let (k, i) = flush_before-Holds m s' (m ∷ ms) all o (λ z. t (sym n ∙ z)) f.0 in
      take_messages-Holds ms (take_message session scale replay_start m s) all
        (append_message-Holds m (flush_before session scale replay_start m s') ms all k i.time
          i.room)
        f.1

  -- For messages that fit a packet: the packets carry them all, in order, each packet carries whole
  -- messages of one time, as many as it counts and at least one, and they are numbered from 1 on.
  pub take_messages-AllOneTime :
      (ms : List (List ℕ))
      → AllFit ms
      → let t =
          flush_last session scale replay_start
            (take_messages session scale replay_start ms start) in
        (payloads t.feed.packed ≡ payload_of ms)
        × AllOneTime t.feed.packed
        × Consecutive 1 t.feed.packed t.feed.seq
  unfolding flush_last flush take_messages payload_of
  take_messages-AllOneTime ms f =
      let s = take_messages session scale replay_start ms start in
      let h =
        take_messages-Holds ms start ms
          (record {
            whole = refl;
            numbered = refl;
            grouped = tt;
            pending = empty-Packed;
            one_time = no_message;
            some_bytes = λ z. refl;
          })
          f in
      elim (Bool-cases (ltb 0 s.msg_count)) [
        | inl e ↦ rw e (
            sent_all (flush session scale replay_start s) ms
              (flush-Holds s [] ms s.current_packet_ts h (ground (arith, e))) refl)
        | inr e ↦ rw e (sent_all s ms h (ground (arith, e)))
      ]

  -- For a file whose messages fit a packet: from the offset on at which the replay begins, which is 0
  -- for all but the bundled file, the loop reads as far as the file holds whole messages, and leaves
  -- out those of fewer than 11 bytes. The packets carry all that are read, in order. Each packet carries
  -- whole messages of one time, as many as it counts and at least one, and the packets are numbered
  -- from 1 on by their messages.
  pub timestamp_feed-AllOneTime :
      (file : List ℕ)
      → AllFit (messages_of file)
      → let t = timestamp_feed session scale replay_start file in
        Reads (data_of file) (messages_of file)
        × (payloads t.packed ≡ payload_of (messages_of file))
        × AllOneTime t.packed
        × Consecutive 1 t.packed t.seq
  unfolding timestamp_feed end_of_session messages_of
  timestamp_feed-AllOneTime file f =
      let (whole, grouped, numbered) = take_messages-AllOneTime (messages_of file) f in
      (
        file_messages-Reads (length (data_of file)) (data_of file) (omega arith),
        whole,
        grouped,
        numbered,
      )
