-- ===== src/Telemetry/Tests.antt =====
-- Tests of the control socket: two commands, the second cut by the reads.
use low_latency_trading_pipe.Engine.FillSim
use low_latency_trading_pipe.Base.{
  ℕ, ◌≡◌, refl, true, false, some, List, [], ◌∷◌, ◌++◌, arith, ltb, replicate, pos,
}
use low_latency_trading_pipe.Telemetry.{
  MarketMaker, apply_lines, control_client, kill_global_text, kill_symbol_text, same, split_lines,
}
use low_latency_trading_pipe.Telemetry.Stream.{control_client-lines}
use low_latency_trading_pipe.Telemetry.Switches.{desk_of, kill_global-IsSilent}
use low_latency_trading_pipe.Engine.Maker.{Doubles, Params, Top}
use low_latency_trading_pipe.Engine.Maker.Panic.{IsSilent, book_event, react_all}
use low_latency_trading_pipe.Engine.Dispatch.{shard_for_locate}

abbrev test_doubles : Doubles ℕ
test_doubles = record {
  observe = λ bb ba d. bb;
  soft_band = λ n. ltb 350 n;
  hard_band = λ n. ltb 500 n;
  panic_band = λ n. ltb 700 n;
  bid_px = λ bb ba i b d. bb;
  ask_px = λ bb ba i b d. ba;
  fill_pnl = λ fill i d. d;
}

abbrev test_params : Params
test_params = record {
  quote_qty = 100;
  requote_threshold_ticks = 1;
  per_symbol_msgs_per_sec = 100;
  aggregate_msgs_per_sec = 400;
  burst_msgs = 50;
}

abbrev test_market_maker : MarketMaker ℕ
test_market_maker = record {
  states = λ i. record {
    doubles = 0;
    panic = false;
    inventory = pos 0;
    resting_bid = 100;
    resting_ask = 102;
    tokens = 50;
    last_refill_ts = 0;
    total_quotes = 0;
    total_fills = 0;
    rate_limited = 0;
    skip_no_tob = 0;
    skip_crossed = 0;
    skip_bad_px = 0;
    skip_hard_band = 0;
    skip_panic = 0;
    quoted_both = 0;
  };
  shared = record { agg_tokens = 50; last_agg_refill = 0; global_kill = false };
}

-- "kill_symbol 13", "kill_global", and an unfinished line.
abbrev test_sent : List ℕ
test_sent = kill_symbol_text ++ (0x20 ∷ 0x31 ∷ 0x33 ∷ 0x0a ∷ kill_global_text ++ (0x0a ∷ 0x61 ∷ []))

abbrev test_client : MarketMaker ℕ
test_client = control_client (20 ∷ 9 ∷ []) [] test_sent test_market_maker

test_commands :
    (test_client.shared.global_kill ≡ true)
    × ((test_client.states 7).panic ≡ true)
    × ((test_client.states 6).panic ≡ false)
unfolding control_client shard_for_locate
test_commands = (refl, refl, refl)

abbrev test_top : Top
test_top = record { bid = some (100, 5); ask = some (102, 7) }

control_client-lines_example :
    control_client (replicate 40 20) [] test_sent test_market_maker
    ≡ apply_lines (split_lines test_sent).0 test_market_maker
unfolding split_lines
control_client-lines_example =
    control_client-lines (replicate 40 20) test_sent test_market_maker (ground arith) (omega arith)
      (ground arith) (ground arith)

kill_global-IsSilent_example :
    let d =
      desk_of
        (apply_lines ([] ++ (kill_global_text ∷ (0x61 ∷ []) ∷ [])) test_market_maker)
        7
        FillSim.init
        [] in
    IsSilent d (react_all test_params test_doubles d (book_event test_top 5 ∷ []))
unfolding same
kill_global-IsSilent_example =
    kill_global-IsSilent test_params test_doubles [] ((0x61 ∷ []) ∷ []) test_market_maker 7
      FillSim.init [] (book_event test_top 5 ∷ []) (refl, tt)
