-- ===== src/Receiver/Turn/Tests.antt =====
-- Tests of a turn of the receiver: one frame, with no packet in it.
use low_latency_trading_pipe.Base.{
  ◌+◌, ◌*◌, ◌≡◌, refl, true, false, List, [], ◌∷◌, ◌++◌, arith, replicate,
}
use low_latency_trading_pipe.Receiver.Tests.{test_receiver, test_receiver-Inv}
use low_latency_trading_pipe.Ring.Queue.{contents, used}
use low_latency_trading_pipe.Rx.{reserve_and_fill, fill_places}
use low_latency_trading_pipe.Rx
use low_latency_trading_pipe.Rx.{FillRing, XdpDesc, granted, refill_fq, init_stack, recv_burst}
use low_latency_trading_pipe.Rx.Pool.{count_frame, IsModest, Owned}
use low_latency_trading_pipe.Rx.Run.{Delivers, Reach-Owned, addresses, start}
use low_latency_trading_pipe.Receiver.Loop.Balance.{AllFit, content_of-Fits}
use low_latency_trading_pipe.Receiver.Turn.{descriptors, burst_turn, rx_burst_size}
use low_latency_trading_pipe.Receiver.Turn.Frames.{burst_turn-Owned, pinned, unread_addresses}

-- A fill ring that always has two places, of which it grants all that are asked for.
abbrev test_fill : FillRing
test_fill = record { nb_free = λ n. 2; reserve = λ n. granted n }

test_fill-IsModest : IsModest test_fill
test_fill-IsModest = record { modest = λ n m e. ground (arith, e) }

-- The kernel delivers behind a headroom of 256 bytes.
abbrev test_descs : List XdpDesc
test_descs = record { addr = 4095 * 4096 + 256; len = 60 } ∷ []

refill_fills : (refill_fq test_fill Rx.init).1.filled ≡ 4094 * 4096 ∷ 4095 * 4096 ∷ []
unfolding refill_fq reserve_and_fill fill_places init_stack
refill_fills = refl

test_descs-Delivers : Delivers (refill_fq test_fill Rx.init).1.filled [] ((4095 * 4096 + 256) ∷ [])
unfolding count_frame
test_descs-Delivers =
    rw refill_fills (record { fair = λ a. ground arith; fair_total = omega arith })

test_burst-AllFit : AllFit (
    descriptors
      (recv_burst true rx_burst_size test_fill (λ a. replicate 60 0) test_descs Rx.init).0.1)
unfolding recv_burst refill_fq reserve_and_fill fill_places init_stack
test_burst-AllFit = (content_of-Fits (replicate 60 0) (omega arith), tt)

burst_turn-Owned_example :
    let t =
      burst_turn test_fill test_fill (λ a. replicate 60 0) test_descs 9 Rx.init test_receiver in
    let got =
      addresses
        (recv_burst true rx_burst_size test_fill (λ a. replicate 60 0) test_descs Rx.init).0.1 in
    Owned t.ctx (got ++ []) ([] ++ (unread_addresses t.unread ++ pinned (contents t.after.ring)))
    × (t.after.overrun ≡ false)
unfolding contents used
burst_turn-Owned_example =
    burst_turn-Owned test_fill test_fill (λ a. replicate 60 0) test_descs 9 Rx.init test_receiver []
      [] test_fill-IsModest test_fill-IsModest test_descs-Delivers test_receiver-Inv.ring_valid
      test_burst-AllFit (Reach-Owned start)
