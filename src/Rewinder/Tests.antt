-- ===== src/Rewinder/Tests.antt =====
-- Tests of the cache: one packet with the messages 5 and 6, and a request for both.
use low_latency_trading_pipe.Base.{
  ℕ, ◌+◌, ◌≡◌, refl, List, [], ◌∷◌, ◌++◌, arith, take, replicate, update,
}
use low_latency_trading_pipe.Rewinder.{
  Cache, CachedPacket, cache_packet, empty_packet, find_from, find_packet, handle_request,
}
use low_latency_trading_pipe.Rewinder.Log.{cache_packet_refines, log, log_push}
use low_latency_trading_pipe.Rewinder.Log.History.{Newest, cache_all, find_packet-Newest}
use low_latency_trading_pipe.Rewinder.Replay.{InRange, IsCached, Reaches, handle_request-Reaches}

abbrev test_packet : CachedPacket
test_packet = record { start_seq = 5; msg_count = 2; session = replicate 10 49; bytes = 1 ∷ 2 ∷ [] }

abbrev test_cache : Cache
test_cache = record { slots = update (λ i. empty_packet) 0 test_packet; write_cursor = 1 }

cache_packet_refines_example :
    log (cache_packet test_cache (replicate 10 49) 7 1 (3 ∷ 4 ∷ []) 2)
    ≡ log_push
        (record {
          start_seq = 7;
          msg_count = 1;
          session = replicate 10 49;
          bytes = take 2 (3 ∷ 4 ∷ []);
        })
        (log test_cache)
cache_packet_refines_example =
    cache_packet_refines test_cache (replicate 10 49) 7 1 (3 ∷ 4 ∷ []) 2 (omega arith) (omega arith)
      (omega arith)

-- A second packet has the messages 6 and 7: a search for 6 finds it, and not the one before.
abbrev later_packet : CachedPacket
later_packet = record { start_seq = 6; msg_count = 2; session = replicate 10 49; bytes = 3 ∷ [] }

abbrev two_packets : List CachedPacket
two_packets = later_packet ∷ test_packet ∷ []

find_packet-Newest_example :
    Newest 6 (take 65536 two_packets) (find_packet (cache_all two_packets) 6)
find_packet-Newest_example =
    find_packet-Newest two_packets 6
      (
        record {
          short = omega arith;
          some_messages = omega arith;
          numbered = omega arith;
          no_wrap = omega arith;
        },
        (
          record {
            short = omega arith;
            some_messages = omega arith;
            numbered = omega arith;
            no_wrap = omega arith;
          },
          tt,
        ),
      )
      (omega arith)

-- The session, the number 5 and the count 2.
abbrev test_request : List ℕ
test_request = replicate 10 49 ++ (replicate 7 0 ++ (5 ∷ 0 ∷ 2 ∷ []))

test_cache-InRange : (j : ℕ) → InRange (test_cache.slots j)
unfolding InRange
test_cache-InRange j = ground arith

test_cache-IsCached : IsCached test_cache 5 2
unfolding IsCached find_packet find_from
test_cache-IsCached k low high = (test_packet, ground arith)

handle_request-Reaches_example : Reaches (handle_request test_cache test_request) 5 (5 + 2)
handle_request-Reaches_example =
    handle_request-Reaches test_cache test_request refl (omega arith) test_cache-InRange
      test_cache-IsCached
