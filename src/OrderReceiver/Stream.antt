-- ===== src/OrderReceiver/Stream.antt =====
-- A connection of handle_client (apps/server/order_receiver.c) as a stream of bytes, and a client
-- that numbers its orders.
use low_latency_trading_pipe.Base.{
  ℕ, ◌+◌, ◌^◌, ◌≤◌, ◌<◌, ◌≡◌, refl, sym, ap, subst, ◌∙◌, true, List, [], ◌∷◌, ◌++◌, map, append-nil,
  append_assoc, map-append, arith, length, length-append, u64, max_u64,
}
use low_latency_trading_pipe.Framing.{drain, concat, receive_all-concat, drain_step, drain-nil}
use low_latency_trading_pipe.Wire.{
  WireOrder, WireAck, ack_ok, order_size, encode_order, checksum_holds,
}
use low_latency_trading_pipe.Wire.Codec.{
  IsWireOrder, decode-encode_order, length-encode_order, take-encode_order, drop-encode_order,
}
use low_latency_trading_pipe.OrderReceiver.{
  Session, init, send_ack, take_order, log_sampled, process_order, process_all, process_bytes,
  handle_client,
}

abbrev pub AllWireOrders : List WireOrder → Type 0
AllWireOrders [] = Unit {0}
AllWireOrders (o ∷ os) = IsWireOrder o × AllWireOrders os

abbrev pub encode_all : List WireOrder → List ℕ
encode_all [] = []
encode_all (o ∷ os) = encode_order o ++ encode_all os

-- Every order is intact, and the numbers are consecutive.
abbrev pub Numbered : ℕ → List WireOrder → Type 0
Numbered e [] = Unit {0}
Numbered e (o ∷ os) = (checksum_holds o ≡ true) × (o.seq ≡ e) × Numbered (e + 1) os

abbrev pub ack_view : WireAck → ℕ × ℕ
ack_view a = (a.flag, a.seq)

abbrev pub ok_acks : List WireOrder → List (ℕ × ℕ)
ok_acks [] = []
ok_acks (o ∷ os) = (ack_ok, o.seq) ∷ ok_acks os

module _ (mono_ns : ℕ → ℕ) where
  drain-encode_all :
      (s : Session) (os : List WireOrder)
      → AllWireOrders os
      → drain order_size (process_bytes mono_ns) s (encode_all os) ≡ (process_all mono_ns s os, [])
  unfolding process_all
  drain-encode_all s [] h = drain-nil order_size (process_bytes mono_ns) (omega arith) s
  drain-encode_all s (o ∷ os) h =
      drain_step order_size (process_bytes mono_ns) (omega arith) s
        (encode_order o ++ encode_all os)
        (omega (arith, length-append (encode_order o) (encode_all os), length-encode_order o))
      ∙ (rw
          (
            take-encode_order o (encode_all os),
            drop-encode_order o (encode_all os),
            decode-encode_order o h.0,
          )
          (drain-encode_all (process_order mono_ns s o) os h.1))

  -- However the bytes of orders with fields in their types are cut into receives, the session is
  -- the one that processes the orders one by one, and nothing is left over.
  pub handle_client-orders :
      (os : List WireOrder) (chunks : List (List ℕ))
      → AllWireOrders os
      → concat chunks ≡ encode_all os
      → handle_client mono_ns chunks ≡ (process_all mono_ns init os, [])
  unfolding handle_client
  handle_client-orders os chunks h e =
      receive_all-concat order_size (process_bytes mono_ns) (omega arith) init [] chunks
        (omega arith)
      ∙ ap (drain order_size (process_bytes mono_ns) init) e
      ∙ drain-encode_all init os h

  process_numbered :
      (s : Session) (o : WireOrder)
      → checksum_holds o ≡ true
      → o.seq ≡ s.expected_seq
      → o.seq < max_u64
      → let t = process_order mono_ns s o in
        (t.expected_seq ≡ s.expected_seq + 1)
        × (t.order_count ≡ u64 (s.order_count + 1))
        × (t.bad_csum ≡ s.bad_csum)
        × (t.seq_gaps ≡ s.seq_gaps)
        × (map ack_view t.sent ≡ map ack_view s.sent ++ ((ack_ok, o.seq) ∷ []))
  unfolding process_order take_order send_ack log_sampled
  process_numbered s o c e w = grind (arith, map-append)

  -- Intact orders numbered from the number expected on, up to at most 2^64 - 1, with a count of 64
  -- bits: each is taken and acknowledged with its own number, in order, and no gap and no damage is
  -- counted.
  pub process_all-Numbered :
      (s : Session) (os : List WireOrder)
      → Numbered s.expected_seq os
      → s.expected_seq + length os ≤ max_u64
      → s.order_count < 2 ^ 64
      → let t = process_all mono_ns s os in
        (t.expected_seq ≡ s.expected_seq + length os)
        × (t.order_count ≡ u64 (s.order_count + length os))
        × (t.bad_csum ≡ s.bad_csum)
        × (t.seq_gaps ≡ s.seq_gaps)
        × (map ack_view t.sent ≡ map ack_view s.sent ++ ok_acks os)
  unfolding process_all
  process_all-Numbered s [] h w k = (omega arith, omega arith, refl, refl, rw append-nil)
  process_all-Numbered s (o ∷ os) h w k =
      let (e, c, b, g, a) = process_numbered s o h.0 h.1 (omega arith) in
      let next = process_order mono_ns s o in
      let (e', c', b', g', a') =
        process_all-Numbered next os (subst (λ x. Numbered x os) (sym e) h.2) (omega arith)
          (omega arith) in
      (
        omega arith,
        omega arith,
        b' ∙ b,
        g' ∙ g,
        a'
            ∙ ap (λ t. t ++ ok_acks os) a
            ∙ append_assoc (map ack_view s.sent) ((ack_ok, o.seq) ∷ []) (ok_acks os),
      )
