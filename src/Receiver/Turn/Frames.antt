-- ===== src/Receiver/Turn/Frames.antt =====
-- Who holds the frames over the turns of udp_receiver_thread (apps/client/udp_receiver.c).
use low_latency_trading_pipe.Base.{
  ℕ, ◌+◌, ◌-◌, ◌<◌, ◌≡◌, refl, sym, ◌∙◌, true, Option, none, some, List, [], ◌∷◌, ◌++◌, arith, ◌==◌,
  if◌then◌else◌, length, length-append,
}
use low_latency_trading_pipe.Receiver.Turn.{burst_turn, descriptors, recycle_drops, rx_burst_size}
use low_latency_trading_pipe.Receiver.Loop.{Descriptor, handle_burst}
use low_latency_trading_pipe.Receiver.Loop.Balance.{
  AllFit, handle_burst-kept, delivered, dropped, handle_burst_balance, left_unread,
}
use low_latency_trading_pipe.Receiver.Gap.{Receiver, RefPtr, frame_ref, slot_ref}
use low_latency_trading_pipe.Receiver.Gap.Pins.{pins}
use low_latency_trading_pipe.Ring.Queue.{IsValid, contents}
use low_latency_trading_pipe.Rx.{Context, FillRing, Packet, XdpDesc, recv_burst, refill_fq}
use low_latency_trading_pipe.Rx.Pool.{count_frame, count_frame-append, IsModest, Owned}
use low_latency_trading_pipe.Rx.Run.{
  Delivers, addresses, desc_addresses, recv_burst-Owned, recycle-Owned,
}
use low_latency_trading_pipe.Tx.Pool.{count, count-append}

-- The first place where an address stands, taken out.
remove : ℕ → List ℕ → List ℕ
remove a [] = []
remove a (x ∷ xs) = let rest = x ∷ remove a xs in if x == a then xs else rest

length-remove : (a : ℕ) (xs : List ℕ) → 0 < count a xs → length (remove a xs) + 1 ≡ length xs
unfolding remove count
length-remove a [] h = absurd (omega arith)
length-remove a (x ∷ xs) h = ground (arith, length-remove a xs)

count-remove :
    (a b : ℕ) (xs : List ℕ) → count b (remove a xs) ≡ count b xs - (if a == b then 1 else 0)
unfolding remove count
count-remove a b [] = ground arith
count-remove a b (x ∷ xs) = ground (arith, count-remove a b xs)

-- Lists in which every address stands as often are as long.
length_by_count : (xs ys : List ℕ) → ((a : ℕ) → count a xs ≡ count a ys) → length xs ≡ length ys
unfolding count
length_by_count [] [] h = refl
length_by_count [] (y ∷ ys) h = absurd (ground (arith, h y))
length_by_count (x ∷ xs) ys h =
    let rest = length_by_count xs (remove x ys) (λ a. ground (arith, h a, count-remove x a ys)) in
    omega (arith, rest, length-remove x ys (ground (arith, h x)))

remove-frame :
    (a f : ℕ) (xs : List ℕ) → 0 < count a xs → count_frame f (a ∷ remove a xs) ≡ count_frame f xs
unfolding remove count count_frame
remove-frame a f [] h = absurd (omega arith)
remove-frame a f (x ∷ xs) h = ground (arith, remove-frame a f xs)

frame_cons :
    (x f : ℕ) (xs ys : List ℕ)
    → count_frame f xs ≡ count_frame f ys
    → count_frame f (x ∷ xs) ≡ count_frame f (x ∷ ys)
unfolding count_frame
frame_cons x f xs ys h = ground (arith, h)

-- Such lists have as many addresses in each frame, too.
frames_by_count :
    (f : ℕ) (xs ys : List ℕ)
    → ((a : ℕ) → count a xs ≡ count a ys)
    → count_frame f xs ≡ count_frame f ys
unfolding count
frames_by_count f [] [] h = refl
frames_by_count f [] (y ∷ ys) h = absurd (ground (arith, h y))
frames_by_count f (x ∷ xs) ys h =
    let rest = frames_by_count f xs (remove x ys) (λ a. ground (arith, h a, count-remove x a ys)) in
    frame_cons x f xs (remove x ys) rest ∙ remove-frame x f ys (ground (arith, h x))

-- The frames that pointers lead to.
abbrev pub pinned : List RefPtr → List ℕ
pinned [] = []
pinned (frame_ref a ∷ ps) = a ∷ pinned ps
pinned (slot_ref i ∷ ps) = pinned ps

pinned-count : (a : ℕ) (ps : List RefPtr) → count a (pinned ps) ≡ pins a ps
unfolding count
pinned-count a [] = refl
pinned-count a (frame_ref b ∷ ps) = ground (arith, pinned-count a ps)
pinned-count a (slot_ref i ∷ ps) = pinned-count a ps

dropped-count : (a : ℕ) (xs : List ℕ) → dropped a xs ≡ count a xs
unfolding count
dropped-count a [] = refl
dropped-count a (x ∷ xs) = ground (arith, dropped-count a xs)

delivered-count : (a : ℕ) (ps : List Packet) → delivered a (descriptors ps) ≡ count a (addresses ps)
unfolding count
delivered-count a [] = refl
delivered-count a (p ∷ ps) = ground (arith, delivered-count a ps)

-- The frames of a burst that the end of the session leaves.
abbrev pub unread_addresses : Option (List Descriptor) → List ℕ
unread_addresses none = []
unread_addresses (some []) = []
unread_addresses (some (d ∷ ds)) = d.addr ∷ unread_addresses (some ds)

unread-count :
    (a : ℕ) (u : Option (List Descriptor)) → left_unread a u ≡ count a (unread_addresses u)
unfolding count
unread-count a none = refl
unread-count a (some []) = refl
unread-count a (some (d ∷ ds)) = ground (arith, unread-count a (some ds))

recycle_drops-Owned :
    (fq : FillRing) (drops : List ℕ) (c : Context) (delivered held left : List ℕ)
    → IsModest fq
    → ((a : ℕ) → count a held ≡ count a drops + count a left)
    → Owned c delivered held
    → Owned (recycle_drops fq drops c) delivered left
unfolding recycle_drops count
recycle_drops-Owned fq [] c delivered held left m h o =
    let same : (a : ℕ) → count a held ≡ count a left = λ a. h a ∙ omega arith in
    let long = length_by_count held left same in
    record {
      once = λ f. omega (arith, o.once f, frames_by_count f held left same);
      lent = o.lent;
      total = omega (arith, o.total, long);
      lent_total = o.lent_total;
    }
recycle_drops-Owned fq (x ∷ drops) c delivered held left m h o =
    let same : (a : ℕ) → count a held ≡ count a ((x ∷ drops) ++ left) =
      λ a. h a ∙ sym (count-append a (x ∷ drops) left) in
    let long = length_by_count held ((x ∷ drops) ++ left) same in
    recycle-Owned fq (x ∷ drops) c delivered held left m
      (record {
        counts = λ f.
            frames_by_count f held ((x ∷ drops) ++ left) same
            ∙ count_frame-append f (x ∷ drops) left;
        lengths = omega (arith, long, length-append (x ∷ drops) left);
      })
      o

-- Let each frame of the region have exactly one address that is on the stack, or lent to the kernel, or
-- held: pointed at by the ring, or held besides. If the kernel delivers only frames that it was lent,
-- at whatever address in them, and the packets of the burst have at most 1500 bytes, then this holds
-- after a turn, with the frames that the end of the session leaves unread among those held, and no
-- copy has run past its slot.
pub burst_turn-Owned :
    (fq fq' : FillRing) (umem : ℕ → List ℕ) (peeked : List XdpDesc) (now : ℕ) (c : Context)
    (s : Receiver) (delivered besides : List ℕ)
    → IsModest fq
    → IsModest fq'
    → Delivers (refill_fq fq c).1.filled delivered (desc_addresses peeked)
    → IsValid s.ring
    → AllFit (descriptors (recv_burst true rx_burst_size fq umem peeked c).0.1)
    → Owned c delivered (besides ++ pinned (contents s.ring))
    → let t = burst_turn fq fq' umem peeked now c s in
      let got = addresses (recv_burst true rx_burst_size fq umem peeked c).0.1 in
      Owned t.ctx
        (got ++ delivered)
        (besides ++ (unread_addresses t.unread ++ pinned (contents t.after.ring)))
      × (t.after.overrun ≡ s.overrun)
unfolding burst_turn
burst_turn-Owned fq fq' umem peeked now c s delivered besides m m' d v fits o =
    let r = recv_burst true rx_burst_size fq umem peeked c in
    let b = handle_burst s now (descriptors r.0.1) in
    let got = addresses r.0.1 in
    let left = unread_addresses b.unread ++ pinned (contents b.after.ring) in
    let balance : (a : ℕ)
        → count a (got ++ (besides ++ pinned (contents s.ring)))
          ≡ count a b.drops + count a (besides ++ left) =
      λ a. omega (
        arith,
        handle_burst_balance s now (descriptors r.0.1) v fits a,
        delivered-count a r.0.1,
        dropped-count a b.drops,
        unread-count a b.unread,
        pinned-count a (contents s.ring),
        pinned-count a (contents b.after.ring),
        count-append a got (besides ++ pinned (contents s.ring)),
        count-append a besides (pinned (contents s.ring)),
        count-append a besides left,
        count-append a (unread_addresses b.unread) (pinned (contents b.after.ring)),
      ) in
    (
      recycle_drops-Owned fq' b.drops r.1 (got ++ delivered)
          (got ++ (besides ++ pinned (contents s.ring))) (besides ++ left) m' balance
          (recv_burst-Owned true rx_burst_size fq umem peeked c delivered
            (besides ++ pinned (contents s.ring)) m d o),
      handle_burst-kept s now (descriptors r.0.1) v fits,
    )
