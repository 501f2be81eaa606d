-- ===== src/Tx/Tests.antt =====
-- Tests of the sending: a new pool, one datagram out, then its completion.
use low_latency_trading_pipe.Base.{
  ℕ, ◌+◌, ◌%◌, ◌<◌, ◌≡◌, true, List, [], ◌∷◌, ◌++◌, arith, length, put16,
}
use low_latency_trading_pipe.Wire.{le16}
use low_latency_trading_pipe.Wire.Checksum.{word_sum}
use low_latency_trading_pipe.Tx.{
  Config, Frame, build_ip, build_udp, encode_udp, init, max_payload, patch_udp, send,
}
use low_latency_trading_pipe.Tx.Header.{patch_udp-verifies, pseudo_header}
use low_latency_trading_pipe.Tx.Pool.{Completes, Owned, count, flown, init-Owned, send-Owned}

abbrev test_config : Config
test_config = record {
  src_ip_be = 0x0100007f;
  dst_ip_be = 0x0100007f;
  src_port = 49152;
  dst_port = 8080;
}

abbrev no_frames : ℕ → Frame
no_frames a = record { ip = build_ip test_config 0; udp = build_udp test_config 0; payload = [] }

abbrev test_payload : List ℕ
test_payload = 1 ∷ 2 ∷ 3 ∷ []

patch_udp-verifies_example :
    let v = patch_udp test_config (build_udp test_config max_payload) test_payload in
    (le16 v.len ≡ put16 (8 + length test_payload))
    × (0 < v.check)
    × (word_sum (pseudo_header test_config (length test_payload) ++ (encode_udp v ++ test_payload))
          % 65535
        ≡ 0)
unfolding build_udp
patch_udp-verifies_example =
    patch_udp-verifies test_config (build_udp test_config max_payload) test_payload (ground arith)
      (omega arith) (omega arith) (omega arith)

nothing_completed : Completes [] [] []
unfolding count
nothing_completed = record { counts = λ a. omega arith; lengths = omega arith }

send-Owned_example :
    let c = init test_config no_frames in
    let r = send c [] true test_payload in Owned r.1.free_frames (flown r.0 r.1.submitted [] [])
send-Owned_example =
    send-Owned (init test_config no_frames) [] [] [] test_payload true
      (init-Owned test_config no_frames) nothing_completed
