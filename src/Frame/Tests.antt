-- ===== src/Frame/Tests.antt =====
-- Tests of the parsing: a frame with an IPv4 and a UDP header and two bytes of payload.
use low_latency_trading_pipe.Base.{
  ℕ, ◌+◌, ◌-◌, ◌≤◌, ◌≡◌, refl, false, List, [], ◌∷◌, ◌++◌, if◌then◌else◌, length, replicate, be16,
}
use low_latency_trading_pipe.Frame.{
  eth_size, ip4_size, udp_size, feed_port, strip_tags, extract_feed_payload, is_udp_feed,
  extract_tagged, extract_ip4,
}
use low_latency_trading_pipe.Frame.Agree.{tagged_past, is_some, filter_agrees}
use low_latency_trading_pipe.Frame.Bounds.{extract_bounds}

abbrev test_frame : List ℕ
test_frame =
    replicate 12 0
    ++ (8
        ∷ 0
        ∷ 0x45
        ∷ (replicate 8 0
            ++ (17 ∷ (replicate 12 0 ++ (0x13 ∷ 0x88 ∷ (replicate 4 0 ++ (1 ∷ 2 ∷ [])))))))

abbrev short_frame : List ℕ
short_frame = 0x45 ∷ 0 ∷ []

filter_agrees_example : is_udp_feed test_frame ≡ (
    if tagged_past test_frame 2 (be16 test_frame 12) eth_size
    then false
    else is_some (extract_feed_payload test_frame))
filter_agrees_example = filter_agrees test_frame

extract_bounds_example :
    (42 + 2 ≡ length test_frame)
    × (eth_size + ip4_size + udp_size ≤ 42)
    × (be16 test_frame (42 - 6) ≡ feed_port)
unfolding extract_feed_payload strip_tags extract_tagged extract_ip4
extract_bounds_example = extract_bounds test_frame 42 2 refl
