-- ===== src/Receiver/Gap/Handle.antt =====
-- handle_payload (apps/client/udp_receiver.c) as a whole: the invariant, and what is published.
use low_latency_trading_pipe.Base.{
  ℕ, ◌+◌, ◌^◌, ◌≤◌, ◌<◌, ◌≡◌, refl, ap, ◌≢◌, ◌⊎◌, inl, inr, true, false, Option, none, some, List,
  ◌++◌, arith, ltb, ◌==◌, ==_iff, Bool-cases, Option-cases, length, set,
}
use low_latency_trading_pipe.Ring.Queue.{contents}
use low_latency_trading_pipe.Receiver.Pool.{header_seq, header_count, alloc_slot}
use low_latency_trading_pipe.Receiver.Gap.{
  RefPtr, Receiver, is_set, in_order, open_session, header_session, open_with, sequence,
  handle_payload, header_size, slot_size,
}
use low_latency_trading_pipe.Receiver.Gap.Inv.{Inv, Chain-raise, All, Absent, RingTiles}
use low_latency_trading_pipe.Receiver.Gap.Order.{Extends, Extends-refl}
use low_latency_trading_pipe.Receiver.Gap.Branches.{rebase, publish_live_lem, publish_copy_lem}
use low_latency_trading_pipe.Receiver.Gap.Ahead.{buffer_future_lem}

-- A packet in a UMEM frame comes in a frame that the ring does not point at.
abbrev pub Unpinned : Option ℕ → List RefPtr → Type 0
Unpinned none ps = Unit {0}
Unpinned (some addr) ps = All (Absent addr) ps

-- What a packet adds to the ring: packets that cover the numbers from one on up to the number
-- expected next. They begin at the number expected before, unless the session begins with this
-- packet or no slot was free.
pub record Delivers (s t : Receiver) : Type 0 where
  pub fresh : List RefPtr
  pub grown : contents t.ring ≡ contents s.ring ++ fresh
  pub from : ℕ
  pub tiles : RingTiles t.pool t.frames fresh from t.expected_seq
  pub not_before : s.expected_seq ≤ from
  pub on_purpose : from ≢ s.expected_seq → (is_set s.session ≡ false) ⊎ (alloc_slot s.pool ≡ none)
  pub inv : Inv t

delivered :
    (s t u : Receiver) (e : ℕ)
    → t.ring ≡ s.ring
    → s.expected_seq ≤ e
    → (e ≢ s.expected_seq → (is_set s.session ≡ false) ⊎ (alloc_slot s.pool ≡ none))
    → Extends t e u
    → Delivers s u
delivered s t u e r l w a =
    let b = rebase s t u e r a in
    record {
      fresh = b.fresh;
      grown = b.grown;
      from = e;
      tiles = b.tiles;
      not_before = l;
      on_purpose = w;
      inv = b.inv;
    }

unmoved : (s : Receiver) → Inv s → Delivers s s
unmoved s v =
    delivered s s s s.expected_seq refl (omega arith) (λ n. absurd (n refl)) (Extends-refl s v)

in_order_lem :
    (t : Receiver) (payload : List ℕ) (umem : Option ℕ) (now : ℕ)
    → Inv t
    → is_set t.session ≡ true
    → Unpinned umem (contents t.ring)
    → 0 < header_count payload
    → header_seq payload ≡ t.expected_seq
    → header_seq payload + header_count payload < 2 ^ 64
    → length payload ≤ slot_size
    → Extends t t.expected_seq (in_order t payload umem now).0
unfolding in_order
in_order_lem t payload (some addr) now v set a some_messages here room fits =
    publish_live_lem t payload addr now v set a here room
in_order_lem t payload none now v set a some_messages here room fits =
    publish_copy_lem t payload none now v set some_messages room fits here

-- A session that is set stays; the first packet sets it and says what is expected.
open_session_cases :
    (s : Receiver) (payload : List ℕ)
    → ((is_set s.session ≡ true) × (open_session s payload ≡ s))
      ⊎ ((is_set s.session ≡ false)
          × (open_session s payload ≡ record s {
            session = some (header_session payload);
            expected_seq = header_seq payload;
          }))
unfolding open_session
open_session_cases s payload = elim (Option-cases s.session) [
  | inl e ↦ inr (ap is_set e, ap (λ x. open_with x s payload) e)
  | inr (x, e) ↦ inl (ap is_set e, ap (λ x. open_with x s payload) e)
]

opened-Inv :
    (s : Receiver) (payload : List ℕ)
    → Inv s
    → is_set s.session ≡ false
    → header_seq payload < 2 ^ 64
    → Inv (record s { session = some (header_session payload); expected_seq = header_seq payload })
opened-Inv s payload v unset w = record {
  ring_valid = v.ring_valid;
  slots = v.slots;
  chain =
      Chain-raise _ _ _ (contents s.ring) 0 s.expected_seq (header_seq payload)
        (omega (arith, v.unset unset)) v.chain;
  unset = λ e. absurd (cc);
  in_range = w;
  intact = v.intact;
}

-- The part of handle_payload behind the opening of the session.
sequence_lem :
    (t : Receiver) (payload : List ℕ) (umem : Option ℕ) (now : ℕ)
    → Inv t
    → is_set t.session ≡ true
    → Unpinned umem (contents t.ring)
    → 0 < header_count payload
    → header_seq payload + header_count payload < 2 ^ 64
    → length payload ≤ slot_size
    → (e : ℕ) × (t.expected_seq ≤ e)
      × Extends t e (sequence t payload umem now).0
      × (e ≢ t.expected_seq → alloc_slot t.pool ≡ none)
unfolding sequence
sequence_lem t payload umem now v set a some_messages room fits =
    elim (Bool-cases (ltb (header_seq payload) t.expected_seq)) [
      | inl late ↦ (t.expected_seq, omega arith, rw late (Extends-refl t v), λ n. absurd (n refl))
      | inr there ↦ elim (Bool-cases (header_seq payload == t.expected_seq)) [
        | inl now_due ↦ (
          t.expected_seq,
          omega arith,
          rw (there, now_due)
              (in_order_lem t payload umem now v set a some_messages ((==_iff _ _).0 now_due) room
                fits),
          λ n. absurd (n refl),
        )
        | inr ahead ↦
            let (e, l, x, w) = buffer_future_lem t payload umem now v set some_messages room fits in
            (e, l, rw (there, ahead) x, w)
      ]
    ]

-- From a state with the invariant, for any packet of at most 1500 bytes whose numbers end below 2^64,
-- live in a frame that the ring does not point at or from the rewinder: no copy runs past its slot, the invariant is kept, and what is added to
-- the ring covers a range of sequence numbers with no gap and no repetition up to the number
-- expected next. The range begins at the number expected before; it begins later only where this
-- packet opens the session or no slot of the reorder pool was free.
pub handle_payload-Delivers :
    (s : Receiver) (payload : List ℕ) (umem : Option ℕ) (now : ℕ)
    → Inv s
    → header_seq payload + header_count payload < 2 ^ 64
    → length payload ≤ 1500
    → Unpinned umem (contents s.ring)
    → Delivers s (handle_payload s payload umem now).0
unfolding handle_payload
handle_payload-Delivers s payload umem now v room fits a =
    elim (Bool-cases (ltb (length payload) header_size)) [
      | inl short ↦ rw short (unmoved s v)
      | inr long ↦ elim (Bool-cases (header_count payload == 0)) [
        | inl empty ↦ rw (long, empty) (unmoved s v)
        | inr full ↦
            let some_messages : 0 < header_count payload = ground arith in
            elim (open_session_cases s payload) [
              | inl (set, same) ↦
                  let (e, l, x, w) =
                    sequence_lem s payload umem now v set a some_messages room fits in
                  rw (long, full, same) (delivered s s _ e refl l (λ n. inr (w n)) x)
              | inr (unset, opened) ↦
                  let t : Receiver = record s {
                    session = some (header_session payload);
                    expected_seq = header_seq payload;
                  } in
                  let u = opened-Inv s payload v unset (omega arith) in
                  let (e, l, x, w) =
                    sequence_lem t payload umem now u refl a some_messages room fits in
                  rw (long, full, opened)
                    (delivered s t _ e refl (omega (arith, v.unset unset)) (λ n. inl unset) x)
            ]
      ]
    ]
