-- ===== src/OrderSender/Afxdp/Retry.antt =====
-- The rounds of the AF_XDP path of apps/client/order_sender.c, with the frame pool.
use low_latency_trading_pipe.Base.{
  ℕ, ◌+◌, ◌-◌, ◌≤◌, ◌<◌, ◌≡◌, refl, ap, ◌∙◌, Bool, true, false, ◌||◌, Option, none, some, List, [],
  ◌∷◌, arith, ltb, leb, ◌==◌, length, update_self, u64,
}
use low_latency_trading_pipe.Wire.{checksum_holds}
use low_latency_trading_pipe.Wire.Codec.{length-encode_order}
use low_latency_trading_pipe.OrderSender.Session.{build_message_facts}
use low_latency_trading_pipe.Tx
use low_latency_trading_pipe.Tx.{
  Context, Outcome, sent, invalid, no_space, again, num_frames, max_payload, hdr_total, alloc_frame,
  drain_completions, push_frame, release_frame, fill_frame,
}
use low_latency_trading_pipe.Tx.Pool.{Owned, Completes, drain-Owned, count}
use low_latency_trading_pipe.OrderSender.Afxdp.{
  after_retry, Round, drain, judge, retry, send_order_afxdp, Outcome, build_message, Sender, Order,
  encode_order,
}

-- One datagram more is submitted, its frame holds the payload, and every frame is free or in flight.
pub record IsSubmitted (c : Context) (payload : List ℕ) (d : Context) : Type 0 where
  pub addr : ℕ
  pub in_flight : List ℕ
  pub submitted : d.submitted ≡ (addr, hdr_total + length payload) ∷ c.submitted
  pub held : (d.frames addr).payload ≡ payload
  pub owned : Owned d.free_frames (addr ∷ in_flight)

-- A round that sent nothing: why, and who has the frames.
record IsRefused (c : Context) (room : Bool) (left : List ℕ) (d : Context) : Type 0 where
  owned : Owned d.free_frames left
  submitted : d.submitted ≡ c.submitted
  full : room ≡ true → num_frames - 1 ≤ length left

abbrev Served : Context → List ℕ → Bool → List ℕ → Outcome × Context → Type 0
Served c payload room left (sent, d) = IsSubmitted c payload d
Served c payload room left (invalid, d) = ⊥
Served c payload room left (no_space, d) = IsRefused c room left d
Served c payload room left (again, d) = IsRefused c room left d

-- From the drained stack on.
serve :
    (c : Context) (drained left payload : List ℕ) (room : Bool)
    → Owned drained left
    → Served c payload room left (elim (alloc_frame drained) [
      | none ↦ (no_space, record c { free_frames = drained })
      | some a ↦ push_frame (record c { free_frames = a.1 }) a.0 payload room
    ])
unfolding alloc_frame push_frame release_frame fill_frame count
serve c [] left payload room o = record {
  owned = o;
  submitted = refl;
  full = λ h. omega (arith, o.total);
}
serve c (a ∷ free) left payload true o = record {
  addr = a;
  in_flight = left;
  submitted = refl;
  held = ap (λ f. f.payload) (update_self c.frames a a (fill_frame c a payload) refl);
  owned = record { once = λ x. ground (arith, o.once x); total = omega (arith, o.total) };
}
serve c (a ∷ free) left payload false o =
    let fits : leb num_frames (length free) ≡ false = ground (arith, o.total) in
    rw fits (record { owned = o; submitted = refl; full = λ h. ground (arith, h) })

send-Served :
    (c : Context) (in_flight left payload : List ℕ) (k : Round)
    → 0 < length payload
    → length payload ≤ max_payload
    → Owned c.free_frames in_flight
    → Completes in_flight k.completed left
    → Served c payload k.room left (Tx.send c k.completed k.room payload)
unfolding Tx.send
send-Served c in_flight left payload k p l o h =
    let valid : (length payload == 0 || ltb max_payload (length payload)) ≡ false =
      ground (arith, p, l) in
    rw valid (
      serve c (drain_completions c.free_frames k.completed) left payload k.room
        (drain-Owned c.free_frames in_flight k.completed left o h))

-- Rounds of a kernel that completes frames which are in flight, and at last has one of them completed
-- and room.
pub data Opens : List ℕ → List Round → Type 0 where
  opened :
      (in_flight left : List ℕ) (k : Round) (ks : List Round)
      → Completes in_flight k.completed left
      → length left < num_frames - 1
      → k.room ≡ true
      → Opens in_flight (k ∷ ks)
  closed :
      (in_flight left left' : List ℕ) (k : Round) (ks : List Round)
      → Completes in_flight k.completed left
      → Completes left k.more left'
      → Opens left' ks
      → Opens in_flight (k ∷ ks)

-- What a loop has come to.
abbrev Taken : Context → List ℕ → Option (Bool × Context) → Type 0
Taken c payload r = (d : Context) × (r ≡ some (true, d)) × IsSubmitted c payload d

-- A refused round in front.
refused-Taken :
    (c d : Context) (payload left left' more : List ℕ) (room : Bool)
    (later : Option (Bool × Context))
    → IsRefused c room left d
    → Completes left more left'
    → (Owned (drain d more).free_frames left' → Taken (drain d more) payload later)
    → Taken c payload later
refused-Taken c d payload left left' more room later v m f =
    let (e, r, w) = f (drain-Owned d.free_frames left more left' v.owned m) in
    (
      e,
      r,
      record {
        addr = w.addr;
        in_flight = w.in_flight;
        submitted = w.submitted ∙ ap (λ x. (w.addr, hdr_total + length payload) ∷ x) v.submitted;
        held = w.held;
        owned = w.owned;
      },
    )

-- The loop goes on with the drained frames, unless the round has sent.
judge-Taken :
    (c : Context) (payload left left' more : List ℕ) (room : Bool) (r : Outcome × Context)
    (later : Option (Bool × Context))
    → Served c payload room left r
    → Completes left more left'
    → (Owned (drain r.1 more).free_frames left' → Taken (drain r.1 more) payload later)
    → Taken c payload (judge r later)
judge-Taken c payload left left' more room (sent, d) later v m f = (d, refl, v)
judge-Taken c payload left left' more room (invalid, d) later v m f = elim v [ ]
judge-Taken c payload left left' more room (no_space, d) later v m f =
    refused-Taken c d payload left left' more room later v m f
judge-Taken c payload left left' more room (again, d) later v m f =
    refused-Taken c d payload left left' more room later v m f

-- A round with a free frame and room sends.
opened-Taken :
    (c : Context) (payload left : List ℕ) (room : Bool) (r : Outcome × Context)
    (later : Option (Bool × Context))
    → Served c payload room left r
    → length left < num_frames - 1
    → room ≡ true
    → Taken c payload (judge r later)
opened-Taken c payload left room (sent, d) later v l e = (d, refl, v)
opened-Taken c payload left room (invalid, d) later v l e = elim v [ ]
opened-Taken c payload left room (no_space, d) later v l e = absurd (omega (arith, l, v.full e))
opened-Taken c payload left room (again, d) later v l e = absurd (omega (arith, l, v.full e))

retry-Taken :
    (c : Context) (payload in_flight : List ℕ) (ks : List Round)
    → 0 < length payload
    → length payload ≤ max_payload
    → Owned c.free_frames in_flight
    → Opens in_flight ks
    → Taken c payload (retry c payload ks)
unfolding retry
retry-Taken c payload in_flight _ p l o (opened _ left k ks h few room) =
    let r = Tx.send c k.completed k.room payload in
    opened-Taken c payload left k.room r (retry (drain r.1 k.more) payload ks)
      (send-Served c in_flight left payload k p l o h) few room
retry-Taken c payload in_flight _ p l o (closed _ left left' k ks h m later) =
    let r = Tx.send c k.completed k.room payload in
    judge-Taken c payload left left' k.more k.room r (retry (drain r.1 k.more) payload ks)
      (send-Served c in_flight left payload k p l o h) m
      (λ owned. retry-Taken (drain r.1 k.more) payload left' ks p l owned later)

-- If each frame of the pool is either free or in flight, and the kernel completes only frames that are
-- in flight and at some round has completed enough of them for one to be free, with room for a
-- descriptor, then the loop ends with the order sent: one descriptor more is submitted, its frame
-- holds the message with the next number, which passes the receiver's test of the checksum, each
-- frame of the pool is again either free or in flight, and the number has moved on by one.
pub send_order_afxdp-IsSubmitted :
    (s : Sender) (c : Context) (send_ns : ℕ) (slot : Order) (in_flight : List ℕ) (ks : List Round)
    → Owned c.free_frames in_flight
    → Opens in_flight ks
    → let msg = build_message s.next_seq send_ns slot in
      (d : Context) × (send_order_afxdp s c send_ns slot ks
        ≡ some (true, record s { next_seq = u64 (s.next_seq + 1) }, d))
      × IsSubmitted c (encode_order msg) d
      × (msg.seq ≡ s.next_seq)
      × (checksum_holds msg ≡ true)
unfolding send_order_afxdp
send_order_afxdp-IsSubmitted s c send_ns slot in_flight ks o h =
    let msg = build_message s.next_seq send_ns slot in
    let long = length-encode_order msg in
    let facts = build_message_facts s.next_seq send_ns slot in
    let (d, e, v) =
      retry-Taken c (encode_order msg) in_flight ks (omega (arith, long)) (omega (arith, long)) o
        h in
    (d, ap (after_retry s) e, v, facts.0, facts.1)
