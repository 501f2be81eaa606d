-- ===== src/Tx/Pool.antt =====
-- Who holds the frames of the pool of src/afxdp/afxdp_tx.c: the stack, or the kernel.
use low_latency_trading_pipe.Base.{
  ℕ, zero, suc, ◌+◌, ◌-◌, ◌*◌, ◌%◌, ◌≤◌, ◌≡◌, inl, inr, Bool, true, false, ◌&&◌, ◌||◌, none, some,
  List, [], ◌∷◌, ◌++◌, arith, ltb, leb, ◌==◌, if◌then◌else◌, Bool-cases, length,
}
use low_latency_trading_pipe.Tx.{
  Outcome, sent, invalid, no_space, again, num_frames, frame_size, release_frame, drain_completions,
  Context, alloc_frame, send, push_frame, max_payload, fill_pool, init, Config, Frame,
}

-- How often an address stands in a list.
unfoldable pub count : ℕ → List ℕ → ℕ
count a [] = 0
count a (x ∷ xs) = if x == a then suc (count a xs) else count a xs

pub count-append : (a : ℕ) (xs ys : List ℕ) → count a (xs ++ ys) ≡ count a xs + count a ys
unfolding count
count-append a [] ys = omega arith
count-append a (x ∷ xs) ys = ground (arith, count-append a xs ys)

-- Frames 1 to 511 are the pool; frame 0 is the template.
unfoldable pub in_pool : ℕ → ℕ
in_pool a = if a % frame_size == 0 && (ltb 0 a && ltb a (num_frames * frame_size)) then 1 else 0

-- The free frames and the frames in flight are together the pool, each address once.
pub record Owned (free in_flight : List ℕ) : Type 0 where
  pub once : (a : ℕ) → count a free + count a in_flight ≡ in_pool a
  pub total : length free + length in_flight ≡ num_frames - 1

-- The kernel has completed some of the frames in flight, in whatever order.
pub record Completes (in_flight completed left : List ℕ) : Type 0 where
  pub counts : (a : ℕ) → count a in_flight ≡ count a completed + count a left
  pub lengths : length in_flight ≡ length completed + length left

-- What is in flight after a send: an invalid payload leaves everything, and the frame of the
-- newest descriptor joins if it was sent.
unfoldable pub flown : Outcome → List (ℕ × ℕ) → List ℕ → List ℕ → List ℕ
flown sent [] in_flight left = left
flown sent (d ∷ submitted) in_flight left = d.0 ∷ left
flown invalid submitted in_flight left = in_flight
flown no_space submitted in_flight left = left
flown again submitted in_flight left = left

-- The stack has room for what it lent: every completed frame returns to it.
drain_lem :
    (free completed : List ℕ)
    → length free + length completed ≤ num_frames
    → ((a : ℕ) → count a (drain_completions free completed) ≡ count a free + count a completed)
      × length (drain_completions free completed) ≡ length free + length completed
unfolding drain_completions count release_frame
drain_lem free [] h = ((λ a. omega arith), omega arith)
drain_lem free (x ∷ completed) h =
    let fits : leb num_frames (length free) ≡ false = ground arith in
    let rest = drain_lem (x ∷ free) completed (omega arith) in
    rw fits ((λ a. ground (arith, rest.0 a)), omega (arith, rest.1))

-- After the completions are drained, the free frames and those still in flight are the pool.
pub drain-Owned :
    (free in_flight completed left : List ℕ)
    → Owned free in_flight
    → Completes in_flight completed left
    → Owned (drain_completions free completed) left
drain-Owned free in_flight completed left o c =
    let d = drain_lem free completed (omega (arith, o.total, c.lengths)) in
    record {
      once = λ a. omega (arith, d.0 a, o.once a, c.counts a);
      total = omega (arith, d.1, o.total, c.lengths);
    }

abbrev OwnedAfter : Outcome × Context → List ℕ → List ℕ → Type 0
OwnedAfter r in_flight left = Owned r.1.free_frames (flown r.0 r.1.submitted in_flight left)

-- From the drained stack on: a frame is taken, and is in flight or back on the stack.
serve_lem :
    (c : Context) (drained in_flight left payload : List ℕ) (room : Bool)
    → Owned drained left
    → OwnedAfter
        (elim (alloc_frame drained) [
          | none ↦ (no_space, record c { free_frames = drained })
          | some a ↦ push_frame (record c { free_frames = a.1 }) a.0 payload room
        ])
        in_flight
        left
unfolding alloc_frame push_frame release_frame flown count
serve_lem c [] in_flight left payload room o = o
serve_lem c (x ∷ free) in_flight left payload true o = record {
  once = λ a. ground (arith, o.once a);
  total = omega (arith, o.total);
}
serve_lem c (x ∷ free) in_flight left payload false o =
    let fits : leb num_frames (length free) ≡ false = ground (arith, o.total) in rw fits o

-- If each frame of the pool is either free or in flight, and never both, and the kernel completes
-- only frames that are in flight, then this holds after a send, on every outcome.
pub send-Owned :
    (c : Context) (in_flight completed left payload : List ℕ) (room : Bool)
    → Owned c.free_frames in_flight
    → Completes in_flight completed left
    → Owned (send c completed room payload).1.free_frames (
        flown
          (send c completed room payload).0
          (send c completed room payload).1.submitted
          in_flight
          left)
unfolding send flown
send-Owned c in_flight completed left payload room o d =
    elim (Bool-cases (length payload == 0 || ltb max_payload (length payload))) [
      | inl e ↦ rw e o
      | inr e ↦ rw e (
          serve_lem c (drain_completions c.free_frames completed) in_flight left payload room
            (drain-Owned c.free_frames in_flight completed left o d))
    ]

fill_pool-length : (n : ℕ) (stack : List ℕ) → length (fill_pool n stack) ≡ n + length stack
unfolding fill_pool
fill_pool-length zero stack = omega arith
fill_pool-length (suc n) stack = omega (arith, fill_pool-length n (suc n * frame_size ∷ stack))

fill_pool-count :
    (n a : ℕ) (stack : List ℕ)
    → count a (fill_pool n stack)
      ≡ count a stack
        + (if a % frame_size == 0 && (ltb 0 a && ltb a (suc n * frame_size)) then 1 else 0)
unfolding fill_pool count
fill_pool-count zero a stack = ground arith
fill_pool-count (suc n) a stack = ground (arith, fill_pool-count n a (suc n * frame_size ∷ stack))

-- A new pool owns all its frames, and none is in flight.
pub init-Owned : (cfg : Config) (frames : ℕ → Frame) → Owned (init cfg frames).free_frames []
unfolding init in_pool count
init-Owned cfg frames = record {
  once = λ a. omega (arith, fill_pool-count (num_frames - 1) a []);
  total = omega (arith, fill_pool-length (num_frames - 1) []);
}
