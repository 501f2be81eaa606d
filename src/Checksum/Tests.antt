-- ===== src/Checksum/Tests.antt =====
-- Tests of the checksum: a buffer with one whole block of 32 bytes, and a sum to fold.
use low_latency_trading_pipe.Base.{ℕ, ◌≡◌, List, arith, replicate}
use low_latency_trading_pipe.Checksum.{cksum_partial, cksum_partial_simd}
use low_latency_trading_pipe.Checksum.Lanes.{cksum_partial_simd_agrees}

abbrev test_buffer : List ℕ
test_buffer = replicate 35 200

cksum_partial_simd_agrees_example : cksum_partial_simd 5 test_buffer ≡ cksum_partial 5 test_buffer
cksum_partial_simd_agrees_example =
    cksum_partial_simd_agrees 5 test_buffer (omega arith) (ground arith)
