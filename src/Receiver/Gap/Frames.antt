-- ===== src/Receiver/Gap/Frames.antt =====
-- The UMEM frames through handle_payload (apps/client/udp_receiver.c).
use low_latency_trading_pipe.Base.{
  ℕ, ◌+◌, ◌-◌, ◌≤◌, ◌≡◌, refl, sym, ap, subst, ◌∙◌, inl, inr, ◌||◌, Option, none, some, List, [],
  arith, ltb, ◌==◌, if◌then◌else◌, Bool-cases, Option-cases, length, u64,
}
use low_latency_trading_pipe.Ring.Queue.{contents, IsValid}
use low_latency_trading_pipe.Receiver.Pool.{alloc_slot, find, header_seq}
use low_latency_trading_pipe.Receiver.Gap.{
  frame_ref, slot_ref, Receiver, publish_ref, drop_one, publish_live, publish_copy, send_request,
  write_slot, write_live, free_slot, skip_ahead, buffer_future, in_order, sequence, open_session,
  handle_payload, find_min, clamp16, open_with, header_size, header_count, slot_size,
}
use low_latency_trading_pipe.Receiver.Gap.Pins.{
  pins, Pinned, same_ring, drain_pending-Pinned, published-Pinned,
}

-- How often an address is given back.
abbrev pub returned : ℕ → Option ℕ → ℕ
returned a none = 0
returned a (some b) = if b == a then 1 else 0

-- After a packet that came in the frame `umem`: the ring points at each frame as often as before, and
-- once more at this frame unless it is given back.
pub record Accounts (s : Receiver) (umem : Option ℕ) (r : Receiver × Option ℕ) : Type 0 where
  pub valid : IsValid r.0.ring
  pub balance :
      (a : ℕ)
      → pins a (contents r.0.ring) + returned a r.1 ≡ pins a (contents s.ring) + returned a umem
  pub kept : r.0.overrun ≡ s.overrun

given_back : (s t : Receiver) (umem : Option ℕ) → Pinned s t [] → Accounts s umem (t, umem)
given_back s t umem h = record {
  valid = h.valid;
  balance = λ a. omega (arith, h.more a);
  kept = h.kept;
}

publish_live-Accounts :
    (s : Receiver) (payload : List ℕ) (addr now : ℕ)
    → IsValid s.ring
    → Accounts s (some addr) (publish_live s payload addr now)
unfolding publish_live
publish_live-Accounts s payload addr now v =
    let t = write_live s payload addr now in
    elim (Bool-cases (publish_ref t (frame_ref addr)).0) [
      | inl d ↦
          let h = published-Pinned t (frame_ref addr) payload v d in
          rw d (record { valid = h.valid; balance = λ a. ground (arith, h.more a); kept = h.kept })
      | inr d ↦ rw d (given_back s (drop_one t) (some addr) (same_ring s (drop_one t) refl refl v))
    ]

send_request-ring :
    (s : Receiver) (start count now : ℕ)
    → ((send_request s start count now).ring ≡ s.ring)
      × ((send_request s start count now).overrun ≡ s.overrun)
unfolding send_request
send_request-ring s start count now = ground arith

module _ (s : Receiver) (payload : List ℕ) (umem : Option ℕ) (now : ℕ) (v : IsValid s.ring)
    (fits : length payload ≤ slot_size) where
  fitting : (s.overrun || ltb slot_size (length payload)) ≡ s.overrun
  fitting = ground (arith, fits)

  publish_copy-Accounts : Accounts s umem (publish_copy s payload umem now)
  unfolding publish_copy
  publish_copy-Accounts = elim (Option-cases (find s.pool s.expected_seq (header_seq payload))) [
    | inr (j, f) ↦ rw (f, publish_copy) (given_back s s umem (same_ring s s refl refl v))
    | inl f ↦ elim (Option-cases (alloc_slot s.pool)) [
      | inl g ↦
          rw (f, g, publish_copy)
            (given_back s (drop_one s) umem (same_ring s (drop_one s) refl refl v))
      | inr (idx, g) ↦
          let t = write_slot s idx payload now in
          let u = drop_one (free_slot t idx) in
          elim (Bool-cases (publish_ref t (slot_ref idx)).0) [
            | inl d ↦
                let h = published-Pinned t (slot_ref idx) payload v d in
                rw (f, g, d, publish_copy)
                  (record {
                    valid = h.valid;
                    balance = λ a. omega (arith, h.more a);
                    kept = h.kept ∙ fitting;
                  })
            | inr d ↦
                rw (f, g, d, publish_copy) (given_back s u umem (same_ring s u refl fitting v))
          ]
    ]
  ]

  skip_ahead-Pinned : Pinned s (skip_ahead s) []
  unfolding skip_ahead
  skip_ahead-Pinned = elim (Option-cases (find_min s.pool s.expected_seq)) [
    | inl f ↦ rw (f, skip_ahead) (same_ring s (drop_one s) refl refl v)
    | inr (j, f) ↦ elim (Bool-cases (ltb s.expected_seq (s.pool j).start_seq)) [
      | inl l ↦
          let t : Receiver = record s {
            dropped_packets = u64 (s.dropped_packets + ((s.pool j).start_seq - s.expected_seq));
            expected_seq = (s.pool j).start_seq;
          } in
          let h = drain_pending-Pinned t v in
          rw (f, l, skip_ahead) (record { valid = h.valid; more = h.more; kept = h.kept })
      | inr l ↦ rw (f, l, skip_ahead) (same_ring s (drop_one s) refl refl v)
    ]
  ]

  buffer_future-Accounts : Accounts s umem (buffer_future s payload umem now)
  unfolding buffer_future
  buffer_future-Accounts = elim (Option-cases (find s.pool s.expected_seq (header_seq payload))) [
    | inr (j, f) ↦ rw (f, buffer_future) (given_back s s umem (same_ring s s refl refl v))
    | inl f ↦ elim (Option-cases (alloc_slot s.pool)) [
      | inl g ↦ rw (f, g, buffer_future) (given_back s (skip_ahead s) umem skip_ahead-Pinned)
      | inr (idx, g) ↦
          let t = write_slot s idx payload now in
          let missing = clamp16 (header_seq payload - s.expected_seq) in
          let u = send_request t s.expected_seq missing now in
          rw (f, g, buffer_future)
            (given_back s u umem (
              same_ring s u (send_request-ring t s.expected_seq missing now).0
                ((send_request-ring t s.expected_seq missing now).1 ∙ fitting) v))
    ]
  ]

in_order-Accounts :
    (s : Receiver) (payload : List ℕ) (umem : Option ℕ) (now : ℕ)
    → IsValid s.ring
    → length payload ≤ slot_size
    → Accounts s umem (in_order s payload umem now)
unfolding in_order
in_order-Accounts s payload (some addr) now v fits = publish_live-Accounts s payload addr now v
in_order-Accounts s payload none now v fits = publish_copy-Accounts s payload none now v fits

sequence-Accounts :
    (s : Receiver) (payload : List ℕ) (umem : Option ℕ) (now : ℕ)
    → IsValid s.ring
    → length payload ≤ slot_size
    → Accounts s umem (sequence s payload umem now)
unfolding sequence
sequence-Accounts s payload umem now v fits =
    elim (Bool-cases (ltb (header_seq payload) s.expected_seq)) [
      | inl late ↦ rw late (given_back s s umem (same_ring s s refl refl v))
      | inr there ↦ elim (Bool-cases (header_seq payload == s.expected_seq)) [
        | inl due ↦ rw (there, due) (in_order-Accounts s payload umem now v fits)
        | inr ahead ↦ rw (there, ahead) (buffer_future-Accounts s payload umem now v fits)
      ]
    ]

open_session-ring :
    (s : Receiver) (payload : List ℕ)
    → ((open_session s payload).ring ≡ s.ring) × ((open_session s payload).overrun ≡ s.overrun)
unfolding open_session
open_session-ring s payload = elim (Option-cases s.session) [
  | inl e ↦ (ap (λ x. (open_with x s payload).ring) e, ap (λ x. (open_with x s payload).overrun) e)
  | inr (x, e) ↦
      (ap (λ x. (open_with x s payload).ring) e, ap (λ x. (open_with x s payload).overrun) e)
]

-- On a valid ring, for a packet of at most 1500 bytes: no copy runs past its slot, and for every
-- address, the pointers of the ring to it and the return of it are afterwards as many as the pointers
-- before and the coming in of the packet there: a frame that comes in is given back or pointed at.
pub handle_payload-Accounts :
    (s : Receiver) (payload : List ℕ) (umem : Option ℕ) (now : ℕ)
    → IsValid s.ring
    → length payload ≤ 1500
    → Accounts s umem (handle_payload s payload umem now)
unfolding handle_payload
handle_payload-Accounts s payload umem now v fits =
    elim (Bool-cases (ltb (length payload) header_size)) [
      | inl short ↦ rw short (given_back s s umem (same_ring s s refl refl v))
      | inr long ↦ elim (Bool-cases (header_count payload == 0)) [
        | inl empty ↦ rw (long, empty) (given_back s s umem (same_ring s s refl refl v))
        | inr full ↦
            let t = open_session s payload in
            let (same, sound) = open_session-ring s payload in
            let h = sequence-Accounts t payload umem now (subst IsValid (sym same) v) fits in
            rw (long, full)
              (record {
                valid = h.valid;
                balance = λ a. h.balance a ∙ ap (λ r. pins a (contents r) + returned a umem) same;
                kept = h.kept ∙ sound;
              })
      ]
    ]
