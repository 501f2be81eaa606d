-- ===== src/Feed/Timed/Messages.antt =====
-- The messages that timestamp_feed (apps/server/feed.c) finds in the file, and the times it waits for.
use low_latency_trading_pipe.Base.{
  ℕ, zero, suc, ◌+◌, ◌*◌, ◌%◌, ◌≤◌, ◌<◌, ◌≡◌, inl, inr, ◌||◌, List, [], ◌∷◌, arith, ltb, leb,
  Bool-cases, length, take, drop, length-drop, be16,
}
use low_latency_trading_pipe.Feed.Timed.{file_messages, Timespec, target}

-- What the loop reads of the bytes, from a position of the file on: it stops where no whole message
-- begins, and leaves out a message that is too short to hold a time.
pub data Reads : List ℕ → List (List ℕ) → Type 0 where
  no_length : (b : List ℕ) → length b < 2 → Reads b []
  cut_off : (b : List ℕ) → 2 ≤ length b → length b < 2 + be16 b 0 → Reads b []
  too_short :
      (b : List ℕ) (ms : List (List ℕ))
      → 2 + be16 b 0 ≤ length b
      → be16 b 0 < 11
      → Reads (drop (2 + be16 b 0) b) ms
      → Reads b ms
  a_message :
      (b : List ℕ) (ms : List (List ℕ))
      → 2 + be16 b 0 ≤ length b
      → 11 ≤ be16 b 0
      → Reads (drop (2 + be16 b 0) b) ms
      → Reads b (take (be16 b 0) (drop 2 b) ∷ ms)

-- As many rounds as there are bytes are enough.
pub file_messages-Reads : (n : ℕ) (b : List ℕ) → length b ≤ n → Reads b (file_messages n b)
unfolding file_messages
file_messages-Reads zero b l = no_length b (omega (arith, l))
file_messages-Reads (suc n) b l =
    let k = 2 + be16 b 0 in
    let rest = file_messages-Reads n (drop k b) in
    elim (Bool-cases (ltb (length b) 2 || ltb (length b) k)) [
      | inl e ↦ rw e (elim (Bool-cases (ltb (length b) 2)) [
        | inl s ↦ no_length b (ground (arith, s))
        | inr s ↦ cut_off b (ground (arith, s)) (ground (arith, s, e))
      ])
      | inr e ↦
          let whole : k ≤ length b = ground (arith, e) in
          let later = rest (omega (arith, length-drop k b, whole, l)) in
          elim (Bool-cases (ltb (be16 b 0) 11)) [
            | inl s ↦ rw (e, s) (too_short b _ whole (ground (arith, s)) later)
            | inr s ↦ rw (e, s) (a_message b _ whole (ground (arith, s)) later)
          ]
    ]

-- The target is the start and the delay in nanoseconds, with less than a second of them.
pub target_lem :
    (start : Timespec) (delta_ns : ℕ)
    → start.tv_nsec < 1_000_000_000
    → let t = target start delta_ns in
      (t.tv_nsec < 1_000_000_000)
      × (t.tv_sec * 1_000_000_000 + t.tv_nsec
          ≡ start.tv_sec * 1_000_000_000 + start.tv_nsec + delta_ns)
unfolding target
target_lem start delta_ns n =
    elim (Bool-cases (leb 1_000_000_000 (start.tv_nsec + delta_ns % 1_000_000_000))) [
      | inl e ↦ rw e (ground (arith, e), ground (arith, e))
      | inr e ↦ rw e (ground (arith, e), ground (arith, e))
    ]
