-- ===== src/OrderSender/Afxdp.antt =====
-- The AF_XDP path of order_sender_thread (apps/client/order_sender.c): a send that finds no frame or no
-- room is tried again until it is taken. What the kernel does in the meantime is an argument.
pub mod Retry
use low_latency_trading_pipe.Base.{
  ℕ, ◌+◌, Bool, true, false, Option, none, some, List, [], ◌∷◌, u64,
}
use low_latency_trading_pipe.Tx.{
  Context, Outcome, sent, invalid, no_space, again, drain_completions,
}
use low_latency_trading_pipe.Tx
use low_latency_trading_pipe.OrderSender.{Order, Sender, build_message, encode_order}

-- A round: the frames that are completed at the send, whether there is room for the descriptor, and
-- the frames that are completed at the drain behind it.
pub record Round : Type 0 where
  pub completed : List ℕ
  pub room : Bool
  pub more : List ℕ

abbrev pub drain : Context → List ℕ → Context
drain c completed = record c { free_frames = drain_completions c.free_frames completed }

-- What the errno of a round leads to: true is sent, and false an error that ends the thread.
abbrev pub judge : Outcome × Context → Option (Bool × Context) → Option (Bool × Context)
judge (sent, c) later = some (true, c)
judge (invalid, c) later = some (false, c)
judge (no_space, c) later = later
judge (again, c) later = later

-- The loop: with no round left it still spins.
unfoldable pub retry : Context → List ℕ → List Round → Option (Bool × Context)
unfolding Tx.send drain_completions
retry c payload [] = none
retry c payload (k ∷ ks) =
    let r = Tx.send c k.completed k.room payload in judge r (retry (drain r.1 k.more) payload ks)

-- What follows the loop: nothing is answered, so the number is all that moves.
abbrev pub after_retry : Sender → Option (Bool × Context) → Option (Bool × Sender × Context)
after_retry s none = none
after_retry s (some (false, d)) = some (false, s, d)
after_retry s (some (true, d)) = some (true, record s { next_seq = u64 (s.next_seq + 1) }, d)

-- An order over AF_XDP.
unfoldable pub send_order_afxdp :
    Sender → Context → ℕ → Order → List Round → Option (Bool × Sender × Context)
unfolding retry build_message
send_order_afxdp s c send_ns slot rounds =
    after_retry s (retry c (encode_order (build_message s.next_seq send_ns slot)) rounds)
