-- ===== src/OrderSender/Ends.antt =====
-- The rounds of the send loop of apps/client/order_sender.c.
use low_latency_trading_pipe.Base.{
  ℕ, suc, ◌+◌, ◌^◌, ◌≤◌, ◌<◌, ◌≡◌, refl, Option, some, List, [], ◌∷◌, ◌++◌, arith, length, take,
  drop, length-drop, u64, max_u64,
}
use low_latency_trading_pipe.Wire.{WireOrder, order_size, encode_order, stamp}
use low_latency_trading_pipe.Wire.Codec.{length-encode_order}
use low_latency_trading_pipe.OrderSender.{
  Order, Sender, Answer, wrote, again, failed, drain_acks, reconnect, build_message, send_loop,
  send_order,
}
use low_latency_trading_pipe.OrderSender.Session.{
  Carries, send_order-Carries, IsOrder, IsSynced, send_order-IsSynced,
}

-- Answers with no error among them, where each that takes bytes takes at least one.
abbrev pub Serves : List Answer → Type 0
Serves [] = Unit {0}
Serves (wrote n ∷ answers) = (0 < n) × Serves answers
Serves (again acks ∷ answers) = Serves answers
Serves (failed ∷ answers) = ⊥

abbrev pub writes : List Answer → ℕ
writes [] = 0
writes (wrote n ∷ answers) = suc (writes answers)
writes (again acks ∷ answers) = writes answers
writes (failed ∷ answers) = writes answers

abbrev Ends : Option (Sender × WireOrder) → Type 0
Ends r = (t : Sender) × (m : WireOrder) × (r ≡ some (t, m))

served-Ends :
    (s : Sender) (msg : WireOrder) (rest : List ℕ) (after : List Answer)
    → Serves after
    → length rest ≤ writes after
    → Ends (send_loop s msg rest after)
unfolding send_loop
served-Ends s msg [] after h k = (s, msg, refl)
served-Ends s msg (b ∷ bs) [] h k = absurd (omega arith)
served-Ends s msg (b ∷ bs) (wrote n ∷ after) h k =
    served-Ends (record s { out = s.out ++ take n (b ∷ bs) }) msg (drop n (b ∷ bs)) after h.1
      (omega (arith, length-drop n (b ∷ bs), h.0))
served-Ends s msg (b ∷ bs) (again acks ∷ after) h k =
    served-Ends (drain_acks s acks) msg (b ∷ bs) after h k
served-Ends s msg (b ∷ bs) (failed ∷ after) h k = absurd h

-- Whatever came before, at most one whole message is left to write.
send_loop-Ends :
    (s : Sender) (msg : WireOrder) (rest : List ℕ) (before after : List Answer)
    → length rest ≤ order_size
    → Serves after
    → order_size ≤ writes after
    → Ends (send_loop s msg rest (before ++ after))
unfolding send_loop
send_loop-Ends s msg rest [] after l h k = served-Ends s msg rest after h (omega arith)
send_loop-Ends s msg [] (a ∷ before) after l h k = (s, msg, refl)
send_loop-Ends s msg (b ∷ bs) (wrote n ∷ before) after l h k =
    send_loop-Ends (record s { out = s.out ++ take n (b ∷ bs) }) msg (drop n (b ∷ bs)) before after
      (omega (arith, length-drop n (b ∷ bs))) h k
send_loop-Ends s msg (b ∷ bs) (again acks ∷ before) after l h k =
    send_loop-Ends (drain_acks s acks) msg (b ∷ bs) before after l h k
send_loop-Ends s msg (b ∷ bs) (failed ∷ before) after l h k =
    let renumbered = stamp (record msg { seq = 1; checksum = 0 }) in
    send_loop-Ends (reconnect s) renumbered (encode_order renumbered) before after
      (omega (arith, length-encode_order renumbered)) h k

send_order_ends :
    (s : Sender) (now : ℕ) (slot : Order) (before after : List Answer)
    → Serves after
    → order_size ≤ writes after
    → (t : Sender) × (send_order s now slot (before ++ after) ≡ some t)
unfolding send_order
send_order_ends s now slot before after h k =
    let msg = build_message s.next_seq now slot in
    let (t, m, e) =
      send_loop-Ends s msg (encode_order msg) before after (omega (arith, length-encode_order msg))
        h k in
    (record t { next_seq = u64 (t.next_seq + 1) }, rw (e, send_order))

-- If the connection carries whole intact messages numbered from 1, the next number is below 2^64 -
-- 1, and an order with fields in their types is sent at a time of 64 bits, then, whatever the
-- socket answers and however often the connection is lost before, once it answers without an error
-- and takes bytes 36 times, at least one each time, the sending ends, and a message with the order's
-- fields and the time is on the connection: behind all that it carried before, with the number that
-- was next, or as number 1 of a new connection. It carries whole intact messages numbered from 1.
pub send_order_delivers :
    (s : Sender) (now : ℕ) (slot : Order) (before after : List Answer)
    → IsSynced s
    → s.next_seq < max_u64
    → now < 2 ^ 64
    → IsOrder slot
    → Serves after
    → order_size ≤ writes after
    → (t : Sender) × (send_order s now slot (before ++ after) ≡ some t)
      × IsSynced t
      × Carries s slot now t
send_order_delivers s now slot before after v room w o h k =
    let (t, e) = send_order_ends s now slot before after h k in
    (
      t,
      e,
      send_order-IsSynced s now slot (before ++ after) t v room w o e,
      send_order-Carries s now slot (before ++ after) t room w o e,
    )
