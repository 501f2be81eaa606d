-- ===== src/Feed/Tests.antt =====
-- Tests of the feed: two messages, the second cut by the reads.
use low_latency_trading_pipe.Base.{ℕ, ◌≡◌, refl, true, List, [], ◌∷◌, ◌++◌, arith, replicate}
use low_latency_trading_pipe.Framing.{concat}
use low_latency_trading_pipe.Feed.{bulk_feed}
use low_latency_trading_pipe.Feed.Pack.{stops}
use low_latency_trading_pipe.Feed.Stream.{Consecutive, bulk_feed-Consecutive, payloads}
use low_latency_trading_pipe.Feed.Timed.{
  Timespec, data_of, flush_last, messages_of, start, take_messages, timestamp_feed,
}
use low_latency_trading_pipe.Feed.Timed.Messages.{Reads}
use low_latency_trading_pipe.Feed.Timed.Groups.{AllFit, AllOneTime, timestamp_feed-AllOneTime}
use low_latency_trading_pipe.Engine.Packet.Split.{payload_of}

abbrev test_session : List ℕ
test_session = replicate 10 49

abbrev test_reads : List (List ℕ)
test_reads = (0 ∷ 2 ∷ 65 ∷ 66 ∷ 0 ∷ []) ∷ (1 ∷ 67 ∷ []) ∷ []

bulk_feed-Consecutive_example :
    let t = bulk_feed test_session 100 0 test_reads in
    (Consecutive 1 t.packed t.seq)
    × ((rest : List ℕ) × (payloads t.packed ++ rest ≡ concat test_reads) × (stops 0 rest ≡ true))
bulk_feed-Consecutive_example = bulk_feed-Consecutive test_session 100 0 test_reads (ground arith)

-- Two messages of different times behind each other, and one that is too short for a time.
abbrev test_file : List ℕ
test_file =
    0 ∷ 11 ∷ 65 ∷ replicate 9 0 ++ (1 ∷ 0 ∷ 1 ∷ 66 ∷ 0 ∷ 11 ∷ 65 ∷ replicate 9 0 ++ (2 ∷ []))

abbrev test_start : Timespec
test_start = record { tv_sec = 7; tv_nsec = 999_999_999 }

-- The second packet is a nanosecond later, in the next second.
test_waits :
    (flush_last test_session
      (λ d. d)
      test_start
      (take_messages test_session (λ d. d) test_start (messages_of test_file) start)).waits
    ≡ record { tv_sec = 7; tv_nsec = 999_999_999 } ∷ record { tv_sec = 8; tv_nsec = 0 } ∷ []
unfolding flush_last take_messages messages_of
test_waits = refl

test_file-AllFit : AllFit (messages_of test_file)
unfolding messages_of
test_file-AllFit = (omega arith, (omega arith, tt))

timestamp_feed-AllOneTime_example :
    let t = timestamp_feed test_session (λ d. d) test_start test_file in
    Reads (data_of test_file) (messages_of test_file)
    × (payloads t.packed ≡ payload_of (messages_of test_file))
    × AllOneTime t.packed
    × Consecutive 1 t.packed t.seq
timestamp_feed-AllOneTime_example =
    timestamp_feed-AllOneTime test_session (λ d. d) test_start test_file test_file-AllFit
