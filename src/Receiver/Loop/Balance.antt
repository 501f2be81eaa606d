-- ===== src/Receiver/Loop/Balance.antt =====
-- The UMEM frames of a burst in udp_receiver_thread (apps/client/udp_receiver.c).
use low_latency_trading_pipe.Base.{
  ℕ, suc, ◌+◌, ◌≤◌, ◌≡◌, refl, ap, subst, ◌∙◌, ◌⊎◌, inl, inr, Option, none, some, List, [], ◌∷◌,
  arith, ltb, ◌==◌, if◌then◌else◌, Bool-cases, Option-cases, length, take, drop, length-take,
  length-drop,
}
use low_latency_trading_pipe.Ring.Queue.{contents, IsValid}
use low_latency_trading_pipe.Frame.{extract_feed_payload}
use low_latency_trading_pipe.Receiver.Pool.{slot_size, header_size, header_count}
use low_latency_trading_pipe.Receiver.Gap.{Receiver, handle_payload}
use low_latency_trading_pipe.Receiver.Gap.Pins.{pins}
use low_latency_trading_pipe.Receiver.Gap.Frames.{returned, handle_payload-Accounts}
use low_latency_trading_pipe.Receiver.Loop.{
  Descriptor, Burst, Content, no_packet, end_of_session, packet, content_of, give_back,
  handle_burst,
}

-- How often a frame is among descriptors, and among addresses.
abbrev pub delivered : ℕ → List Descriptor → ℕ
delivered a [] = 0
delivered a (d ∷ ds) = if d.addr == a then suc (delivered a ds) else delivered a ds

abbrev pub dropped : ℕ → List ℕ → ℕ
dropped a [] = 0
dropped a (x ∷ xs) = if x == a then suc (dropped a xs) else dropped a xs

abbrev pub left_unread : ℕ → Option (List Descriptor) → ℕ
left_unread a none = 0
left_unread a (some ds) = delivered a ds

Content-cases :
    (c : Content)
    → (c ≡ no_packet) ⊎ ((c ≡ end_of_session) ⊎ ((payload : List ℕ) × (c ≡ packet payload)))
Content-cases no_packet = inl refl
Content-cases end_of_session = inr (inl refl)
Content-cases (packet payload) = inr (inr (payload, refl))

-- Packets that fit a slot.
abbrev pub Fits : Content → Type 0
Fits no_packet = Unit
Fits end_of_session = Unit
Fits (packet payload) = length payload ≤ 1500

-- So are those of any frame that is no longer than a slot.
pub content_of-Fits : (bytes : List ℕ) → length bytes ≤ slot_size → Fits (content_of bytes)
unfolding content_of
content_of-Fits bytes l = elim (Option-cases (extract_feed_payload bytes)) [
  | inl e ↦ rw (e, content_of) tt
  | inr ((off, len), e) ↦
      let payload = take len (drop off bytes) in
      let short : length payload ≤ slot_size =
        omega (arith, l, length-take len (drop off bytes), length-drop off bytes) in
      elim (Bool-cases (ltb (length payload) header_size)) [
        | inl a ↦ rw (e, a, content_of) tt
        | inr a ↦ elim (Bool-cases (header_count payload == 0xffff)) [
          | inl b ↦ rw (e, a, b, content_of) tt
          | inr b ↦ rw (e, a, b, content_of) short
        ]
      ]
]

abbrev pub AllFit : List Descriptor → Type 0
AllFit [] = Unit
AllFit (d ∷ ds) = Fits (content_of d.bytes) × AllFit ds

-- The balance of a burst's outcome against what was pinned and delivered before.
abbrev Balances : ℕ → ℕ → Burst → Type 0
Balances a total r =
    pins a (contents r.after.ring) + dropped a r.drops + left_unread a r.unread ≡ total

give_back-Balances :
    (a total : ℕ) (back : Option ℕ) (r : Burst)
    → Balances a total r
    → Balances a (returned a back + total) (give_back back r)
give_back-Balances a total none r h = omega arith
give_back-Balances a total (some addr) r h = ground arith

-- Of a burst of packets that fit a slot, on a valid ring, each frame is given back, or pointed at by the ring, or left unread
-- behind the end of the session, once for each time that it was delivered.
pub handle_burst_balance :
    (s : Receiver) (now : ℕ) (ds : List Descriptor)
    → IsValid s.ring
    → AllFit ds
    → (a : ℕ)
    → let r = handle_burst s now ds in
      pins a (contents r.after.ring) + dropped a r.drops + left_unread a r.unread
      ≡ pins a (contents s.ring) + delivered a ds
unfolding handle_burst
handle_burst_balance s now [] v fits a = omega arith
handle_burst_balance s now (d ∷ ds) v fits a = elim (Content-cases (content_of d.bytes)) [
  | inl e ↦
      rw (e, handle_burst)
        (give_back-Balances a (pins a (contents s.ring) + delivered a ds) (some d.addr)
            (handle_burst s now ds) (handle_burst_balance s now ds v fits.1 a)
          ∙ ground arith)
  | inr (inl e) ↦ rw (e, handle_burst) (ground arith)
  | inr (inr (payload, e)) ↦
      let r = handle_payload s payload (some d.addr) now in
      let h = handle_payload-Accounts s payload (some d.addr) now v (subst Fits e fits.0) in
      rw (e, handle_burst)
        (give_back-Balances a (pins a (contents r.0.ring) + delivered a ds) r.1
            (handle_burst r.0 now ds) (handle_burst_balance r.0 now ds h.valid fits.1 a)
          ∙ ground (arith, h.balance a))
]

give_back-after : (back : Option ℕ) (r : Burst) → (give_back back r).after ≡ r.after
give_back-after none r = refl
give_back-after (some addr) r = refl

-- No copy of the burst runs past its slot.
pub handle_burst-kept :
    (s : Receiver) (now : ℕ) (ds : List Descriptor)
    → IsValid s.ring
    → AllFit ds
    → (handle_burst s now ds).after.overrun ≡ s.overrun
unfolding handle_burst
handle_burst-kept s now [] v fits = refl
handle_burst-kept s now (d ∷ ds) v fits = elim (Content-cases (content_of d.bytes)) [
  | inl e ↦ rw (e, handle_burst) (handle_burst-kept s now ds v fits.1)
  | inr (inl e) ↦ rw (e, handle_burst) refl
  | inr (inr (payload, e)) ↦
      let r = handle_payload s payload (some d.addr) now in
      let h = handle_payload-Accounts s payload (some d.addr) now v (subst Fits e fits.0) in
      rw (e, handle_burst)
        (ap (λ t. t.overrun) (give_back-after r.1 (handle_burst r.0 now ds))
          ∙ handle_burst-kept r.0 now ds h.valid fits.1
          ∙ h.kept)
]
