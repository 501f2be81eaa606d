-- ===== src/Rx/Run.antt =====
-- Runs of the calls of src/afxdp/afxdp_receiver.c: bursts received and frames given back, in any order.
use low_latency_trading_pipe.Base.{
  ℕ, zero, suc, ◌+◌, ◌≤◌, ◌≡◌, refl, inl, inr, Bool, true, false, ◌||◌, not, List, [], ◌∷◌, ◌++◌,
  arith, ltb, leb, ◌==◌, if◌then◌else◌, Bool-cases, length, length-append,
}
use low_latency_trading_pipe.Rx.{
  num_frames, Packet, XdpDesc, Context, read_descs, recv_filled, recv_burst, free_all, Answer,
  FillRing, free_umem_frame, failed, refill_fq, done, as_status, recycle, init, init_stack,
}
use low_latency_trading_pipe.Rx.Pool.{
  count_frame, count_frame-append, GivesBack, Owned, IsModest, refill_fq-Owned, in_pool,
}

-- The addresses of the packets of a burst.
abbrev pub addresses : List Packet → List ℕ
addresses [] = []
addresses (p ∷ ps) = p.addr ∷ addresses ps

abbrev pub desc_addresses : List XdpDesc → List ℕ
desc_addresses [] = []
desc_addresses (d ∷ ds) = d.addr ∷ desc_addresses ds

-- The kernel delivers only frames that it was lent and has not delivered, each at some address in it.
pub record Delivers (filled delivered peeked : List ℕ) : Type 0 where
  pub fair : (a : ℕ) → count_frame a peeked + count_frame a delivered ≤ count_frame a filled
  pub fair_total : length peeked + length delivered ≤ length filled

Delivers-Owned :
    (c : Context) (delivered held peeked : List ℕ)
    → Delivers c.filled delivered peeked
    → Owned c delivered held
    → Owned c (peeked ++ delivered) (peeked ++ held)
Delivers-Owned c delivered held peeked d o = record {
  once = λ a.
      omega
        (arith, o.once a, count_frame-append a peeked held, count_frame-append a peeked delivered);
  lent = λ a. omega (arith, d.fair a, count_frame-append a peeked delivered);
  total = omega (arith, o.total, length-append peeked held, length-append peeked delivered);
  lent_total = omega (arith, d.fair_total, length-append peeked delivered);
}

read_descs-addresses :
    (umem : ℕ → List ℕ) (ds : List XdpDesc) → addresses (read_descs umem ds) ≡ desc_addresses ds
unfolding read_descs
read_descs-addresses umem [] = refl
read_descs-addresses umem (d ∷ ds) = rw (read_descs-addresses umem ds) refl

recv_filled-Owned :
    (umem : ℕ → List ℕ) (r : Answer × Context) (peeked : List XdpDesc) (delivered held : List ℕ)
    → Delivers r.1.filled delivered (desc_addresses peeked)
    → Owned r.1 delivered held
    → let got = addresses (recv_filled umem r peeked).0.1 in
      Owned (recv_filled umem r peeked).1 (got ++ delivered) (got ++ held)
unfolding recv_filled
recv_filled-Owned umem (failed e, c) peeked delivered held d o = o
recv_filled-Owned umem (done n, c) peeked delivered held d o =
    rw (read_descs-addresses umem peeked)
      (Delivers-Owned c delivered held (desc_addresses peeked) d o)

-- A burst: whatever comes of it, the frames of its packets are the receiver's.
pub recv_burst-Owned :
    (ready : Bool) (max_pkts : ℕ) (fq : FillRing) (umem : ℕ → List ℕ) (peeked : List XdpDesc)
    (c : Context) (delivered held : List ℕ)
    → IsModest fq
    → Delivers (refill_fq fq c).1.filled delivered (desc_addresses peeked)
    → Owned c delivered held
    → let r = recv_burst ready max_pkts fq umem peeked c in
      Owned r.1 (addresses r.0.1 ++ delivered) (addresses r.0.1 ++ held)
unfolding recv_burst
recv_burst-Owned ready max_pkts fq umem peeked c delivered held m d o =
    elim (Bool-cases (not ready || max_pkts == 0)) [
      | inl e ↦ rw e o
      | inr e ↦ rw e (
          recv_filled-Owned umem (refill_fq fq c) peeked delivered held d
            (refill_fq-Owned fq c delivered held m o))
    ]

-- Frames that the receiver holds fit on the stack.
free_all_lem :
    (stack addrs : List ℕ)
    → length stack + length addrs ≤ num_frames
    → (free_all stack addrs).0 ≡ true
      × ((a : ℕ)
          → count_frame a (free_all stack addrs).1 ≡ count_frame a stack + count_frame a addrs)
      × length (free_all stack addrs).1 ≡ length stack + length addrs
unfolding free_all free_umem_frame count_frame
free_all_lem stack [] h = (refl, (λ a. omega arith), omega arith)
free_all_lem stack (x ∷ addrs) h =
    let fits : leb num_frames (length stack) ≡ false = ground arith in
    let rest = free_all_lem (x ∷ stack) addrs (omega arith) in
    rw (fits, free_all, free_umem_frame)
      (rest.0, (λ a. ground (arith, rest.1 a)), omega (arith, rest.2))

-- The last step of afxdp_recycle, on the stack that it has refilled.
as_status-Owned :
    (r : Answer × Context) (delivered held : List ℕ)
    → Owned r.1 delivered held
    → Owned (as_status r).1 delivered held
as_status-Owned (failed e, c) delivered held o = o
as_status-Owned (done n, c) delivered held o = o

-- Frames that the receiver holds go back to the stack.
freed-Owned :
    (c : Context) (addrs delivered held left : List ℕ)
    → GivesBack held addrs left
    → Owned c delivered held
    → (free_all c.free_frames addrs).0 ≡ true
      × Owned (record c { free_frames = (free_all c.free_frames addrs).1 }) delivered left
freed-Owned c addrs delivered held left g o =
    let f = free_all_lem c.free_frames addrs (omega (arith, o.total, o.lent_total, g.lengths)) in
    (
      f.0,
      record {
        once = λ a. omega (arith, f.1 a, o.once a, g.counts a);
        lent = o.lent;
        total = omega (arith, f.2, o.total, g.lengths);
        lent_total = o.lent_total;
      },
    )

-- The frames that are given back: all of them, with every frame's owner known.
pub recycle-Owned :
    (fq : FillRing) (addrs : List ℕ) (c : Context) (delivered held left : List ℕ)
    → IsModest fq
    → GivesBack held addrs left
    → Owned c delivered held
    → Owned (recycle true fq addrs c).1 delivered left
unfolding recycle
recycle-Owned fq addrs c delivered held left m g o =
    let f = freed-Owned c addrs delivered held left g o in
    let c' = record c { free_frames = (free_all c.free_frames addrs).1 } in
    rw f.0 (
      as_status-Owned (refill_fq fq c') delivered left (refill_fq-Owned fq c' delivered left m f.1))

-- The state of a run: the context, and the addresses delivered and held so far.
pub record World : Type 0 where
  pub ctx : Context
  pub delivered : List ℕ
  pub held : List ℕ

abbrev pub after_burst : World → (Answer × List Packet) × Context → World
after_burst w r = record {
  ctx = r.1;
  delivered = addresses r.0.1 ++ w.delivered;
  held = addresses r.0.1 ++ w.held;
}

-- A burst, whatever the kernel answers, or the giving back of frames that the receiver holds.
pub data Step (w : World) : World → Type 0 where
  burst :
      (ready : Bool) (max_pkts : ℕ) (fq : FillRing) (umem : ℕ → List ℕ) (peeked : List XdpDesc)
      → IsModest fq
      → Delivers (refill_fq fq w.ctx).1.filled w.delivered (desc_addresses peeked)
      → Step w (after_burst w (recv_burst ready max_pkts fq umem peeked w.ctx))
  give_back :
      (fq : FillRing) (addrs left : List ℕ)
      → IsModest fq
      → GivesBack w.held addrs left
      → Step w (record w { ctx = (recycle true fq addrs w.ctx).1; held = left })

-- From the context that afxdp_init makes on.
pub data Reach : World → Type 0 where
  start : Reach (record { ctx = init; delivered = []; held = [] })
  next : {w w' : World} → Reach w → Step w w' → Reach w'

Step-Owned :
    {w w' : World} → Step w w' → Owned w.ctx w.delivered w.held → Owned w'.ctx w'.delivered w'.held
Step-Owned {w} (burst ready max_pkts fq umem peeked m d) o =
    recv_burst-Owned ready max_pkts fq umem peeked w.ctx w.delivered w.held m d o
Step-Owned {w} (give_back fq addrs left m g) o =
    recycle-Owned fq addrs w.ctx w.delivered w.held left m g o

init_stack-length : (n : ℕ) → length (init_stack n) ≡ n
unfolding init_stack
init_stack-length zero = refl
init_stack-length (suc n) = omega (arith, init_stack-length n)

init_stack-count : (n a : ℕ) → count_frame a (init_stack n) ≡ (if ltb a n then 1 else 0)
unfolding init_stack count_frame
init_stack-count zero a = ground arith
init_stack-count (suc n) a = ground (arith, init_stack-count n a)

init-Owned : Owned init [] []
unfolding count_frame in_pool
init-Owned = record {
  once = λ a. omega (arith, init_stack-count num_frames a);
  lent = λ a. omega arith;
  total = omega (arith, init_stack-length num_frames);
  lent_total = omega arith;
}

-- In each state that bursts and recycling reach from a new context, if the kernel delivers only frames
-- that it was lent, at whatever address in them, and the receiver gives back only what it holds: each
-- frame of the region has exactly one address that is on the stack, or lent to the kernel, or held by
-- the receiver, and no address outside the region is.
pub Reach-Owned : {w : World} → Reach w → Owned w.ctx w.delivered w.held
Reach-Owned start = init-Owned
Reach-Owned (next r st) = Step-Owned st (Reach-Owned r)
