-- ===== src/OrderSender/Session.antt =====
-- What the send loop of apps/client/order_sender.c puts on the present connection, and what the
-- exchange makes of it.
use low_latency_trading_pipe.Base.{
  ℕ, ◌+◌, ◌^◌, ◌≤◌, ◌<◌, ◌≡◌, refl, sym, ap, subst, ◌∙◌, ◌⊎◌, inl, inr, true, none, some, List, [],
  ◌∷◌, ◌++◌, append-nil, append_assoc, arith, ◌==◌, if◌then◌else◌, Option-cases, some_inj, length,
  take, drop, length-append, take-append-drop, u64, max_u64,
}
use low_latency_trading_pipe.Framing.{concat, frames_keep}
use low_latency_trading_pipe.Wire.{WireOrder, ack_size, encode_order, stamp, checksum_holds}
use low_latency_trading_pipe.Wire.Codec.{IsWireOrder}
use low_latency_trading_pipe.Wire.Integrity.{stamp-word, stamp_holds, seq-stamp}
use low_latency_trading_pipe.OrderReceiver
use low_latency_trading_pipe.OrderReceiver.{handle_client, process_all}
use low_latency_trading_pipe.OrderReceiver.Stream.{
  AllWireOrders, encode_all, Numbered, handle_client-orders, process_all-Numbered,
}
use low_latency_trading_pipe.OrderSender.{
  Order, Sender, Answer, wrote, again, failed, init, handle_ack, handle_ack_bytes, drain_acks,
  build_message, reconnect, send_loop, send_order, msg_cancel, msg_new,
}

handle_ack-out : (s : Sender) (b : List ℕ) → (handle_ack_bytes s b).out ≡ s.out
unfolding handle_ack
handle_ack-out s b = ground arith

handle_ack-seq : (s : Sender) (b : List ℕ) → (handle_ack_bytes s b).next_seq ≡ s.next_seq
unfolding handle_ack
handle_ack-seq s b = ground arith

pub drain_acks-keeps :
    (s : Sender) (b : List ℕ)
    → ((drain_acks s b).out ≡ s.out) × ((drain_acks s b).next_seq ≡ s.next_seq)
unfolding drain_acks
drain_acks-keeps s [] = (refl, refl)
drain_acks-keeps s (c ∷ cs) =
    let b = s.carry ++ (c ∷ cs) in
    (
      frames_keep ack_size handle_ack_bytes (λ t. t.out) handle_ack-out (length b) s b,
      frames_keep ack_size handle_ack_bytes (λ t. t.next_seq) handle_ack-seq (length b) s b,
    )

-- An order of the ring whose fields are within their types.
pub record IsOrder (o : Order) : Type 0 where
  pub qty_word : o.qty < 2 ^ 32
  pub price_word : o.price < 2 ^ 32
  pub locate_word : o.stock_locate < 2 ^ 16
  pub side_byte : o.side < 2 ^ 8

-- A message for an order: the kind by the quantity, the order's fields, the time of the sending, and a
-- checksum that holds.
pub record IsMessageOf (slot : Order) (now : ℕ) (m : WireOrder) : Type 0 where
  pub kind : m.msg_type ≡ (if slot.qty == 0 then msg_cancel else msg_new)
  pub side : m.side ≡ slot.side
  pub symbol : m.symbol_id ≡ slot.stock_locate
  pub qty : m.qty ≡ slot.qty
  pub price : m.price ≡ slot.price
  pub time : m.ts ≡ now
  pub intact : checksum_holds m ≡ true

-- From one sender to the next, the connection carries a message for the order more: behind what it
-- carried, with the number that was next, or as the first of a new connection.
pub record Carries (s : Sender) (slot : Order) (now : ℕ) (t : Sender) : Type 0 where
  pub message : WireOrder
  pub before : List ℕ
  pub start : ((before ≡ s.out) × (message.seq ≡ s.next_seq)) ⊎ ((before ≡ []) × (message.seq ≡ 1))
  pub carried : t.out ≡ before ++ encode_order message
  pub next : t.next_seq ≡ u64 (message.seq + 1)
  pub is_of : IsMessageOf slot now message

renumbered-IsMessageOf :
    (slot : Order) (now : ℕ) (m : WireOrder)
    → IsMessageOf slot now m
    → IsMessageOf slot now (stamp (record m { seq = 1; checksum = 0 }))
unfolding stamp
renumbered-IsMessageOf slot now m h = record {
  kind = h.kind;
  side = h.side;
  symbol = h.symbol;
  qty = h.qty;
  price = h.price;
  time = h.time;
  intact = stamp_holds (record m { seq = 1; checksum = 0 });
}

-- The message reached the connection as it was, or anew as the first of another connection.
abbrev Sent : Sender → WireOrder → List ℕ → Sender → WireOrder → Type 0
Sent s msg rest t m =
    ((t.out ≡ s.out ++ rest) × (t.next_seq ≡ s.next_seq) × (m ≡ msg))
    ⊎ ((t.out ≡ encode_order m)
        × (t.next_seq ≡ 1)
        × (m.seq ≡ 1)
        × (checksum_holds m ≡ true)
        × IsWireOrder m)

take-drop : (n : ℕ) (out bs : List ℕ) → (out ++ take n bs) ++ drop n bs ≡ out ++ bs
take-drop n out bs =
    append_assoc out (take n bs) (drop n bs) ∙ ap (λ t. out ++ t) (take-append-drop n bs)

send_loop_lem :
    (s : Sender) (msg : WireOrder) (rest : List ℕ) (answers : List Answer) (t : Sender)
    (m : WireOrder)
    → IsWireOrder msg
    → send_loop s msg rest answers ≡ some (t, m)
    → Sent s msg rest t m
unfolding send_loop reconnect
send_loop_lem s msg [] answers t m v e = inl (ground (arith, append-nil s.out))
send_loop_lem s msg (b ∷ bs) [] t m v e = cc
send_loop_lem s msg (b ∷ bs) (wrote n ∷ answers) t m v e =
    elim (send_loop_lem (record s { out = s.out ++ take n (b ∷ bs) }) msg (drop n (b ∷ bs)) answers
      t m v e) [ inl h ↦ inl (h.0 ∙ take-drop n s.out (b ∷ bs), h.1, h.2) | inr h ↦ inr h ]
send_loop_lem s msg (b ∷ bs) (again acks ∷ answers) t m v e =
    elim (send_loop_lem (drain_acks s acks) msg (b ∷ bs) answers t m v e) [
      | inl h ↦
          let (o, q) = drain_acks-keeps s acks in
          inl (h.0 ∙ ap (λ x. x ++ (b ∷ bs)) o, h.1 ∙ q, h.2)
      | inr h ↦ inr h
    ]
send_loop_lem s msg (b ∷ bs) (failed ∷ answers) t m v e =
    let first = stamp (record msg { seq = 1; checksum = 0 }) in
    let w : IsWireOrder first = stamp-word (record msg { seq = 1; checksum = 0 }) (omega arith) in
    elim (send_loop_lem (reconnect s) first (encode_order first) answers t m w e) [
      | inl h ↦ inr (
        h.0 ∙ ap encode_order (sym h.2),
        h.1,
        ap (λ x. x.seq) h.2 ∙ seq-stamp (record msg { seq = 1; checksum = 0 }),
        ap checksum_holds h.2 ∙ stamp_holds (record msg { seq = 1; checksum = 0 }),
        subst IsWireOrder (sym h.2) w,
      )
      | inr h ↦ inr h
    ]

-- The present connection carries whole intact messages numbered from 1, one for each number used.
abbrev pub IsSynced : Sender → Type 0
IsSynced s =
    (os : List WireOrder) × (s.out ≡ encode_all os)
    × Numbered 1 os
    × AllWireOrders os
    × (s.next_seq ≡ length os + 1)

-- A new sender has a connection with no messages and the next number 1.
pub init-IsSynced : IsSynced init
init-IsSynced = ([], refl, tt, tt, omega arith)

encode_all-append :
    (os ps : List WireOrder) → encode_all (os ++ ps) ≡ encode_all os ++ encode_all ps
encode_all-append [] ps = refl
encode_all-append (o ∷ os) ps =
    ap (λ t. encode_order o ++ t) (encode_all-append os ps)
    ∙ sym (append_assoc (encode_order o) (encode_all os) (encode_all ps))

Numbered-append :
    (e : ℕ) (os : List WireOrder) (o : WireOrder)
    → Numbered e os
    → checksum_holds o ≡ true
    → o.seq ≡ e + length os
    → Numbered e (os ++ (o ∷ []))
Numbered-append e [] o h c q = (c, omega arith, tt)
Numbered-append e (p ∷ os) o h c q = (h.0, h.1, Numbered-append (e + 1) os o h.2 c (omega arith))

AllWireOrders-append :
    (os : List WireOrder) (o : WireOrder)
    → AllWireOrders os
    → IsWireOrder o
    → AllWireOrders (os ++ (o ∷ []))
AllWireOrders-append [] o h v = (v, tt)
AllWireOrders-append (p ∷ os) o h v = (h.0, AllWireOrders-append os o h.1 v)

build_message-IsWireOrder :
    (seq now : ℕ) (o : Order)
    → seq < 2 ^ 64
    → now < 2 ^ 64
    → IsOrder o
    → IsWireOrder (build_message seq now o)
unfolding build_message
build_message-IsWireOrder seq now o s n v = stamp-word _ (ground arith)

pub build_message_facts :
    (seq now : ℕ) (o : Order)
    → ((build_message seq now o).seq ≡ seq) × (checksum_holds (build_message seq now o) ≡ true)
unfolding build_message
build_message_facts seq now o = (seq-stamp _, stamp_holds _)

built-IsMessageOf : (slot : Order) (now seq : ℕ) → IsMessageOf slot now (build_message seq now slot)
unfolding build_message stamp
built-IsMessageOf slot now seq = record {
  kind = refl;
  side = refl;
  symbol = refl;
  qty = refl;
  price = refl;
  time = refl;
  intact = (build_message_facts seq now slot).1;
}

finish-IsSynced :
    (s : Sender) (msg : WireOrder) (t : Sender) (m : WireOrder)
    → IsSynced s
    → s.next_seq < max_u64
    → IsWireOrder msg
    → msg.seq ≡ s.next_seq
    → checksum_holds msg ≡ true
    → Sent s msg (encode_order msg) t m
    → IsSynced (record t { next_seq = u64 (t.next_seq + 1) })
finish-IsSynced s msg t m (os, out, num, wire, next) room w q c (inl (o, n, e)) = (
  os ++ (msg ∷ []),
  o
      ∙ ap (λ x. x ++ encode_order msg) out
      ∙ ap (λ x. encode_all os ++ x) (sym (append-nil (encode_order msg)))
      ∙ sym (encode_all-append os (msg ∷ [])),
  Numbered-append 1 os msg num c (omega arith),
  AllWireOrders-append os msg wire w,
  omega (arith, length-append os (msg ∷ [])),
)
finish-IsSynced s msg t m sync room w q c (inr (o, n, one, good, v)) =
    (m ∷ [], o ∙ sym (append-nil (encode_order m)), (good, one, tt), (v, tt), omega arith)

-- If the connection carries whole intact messages numbered from 1, and an order with fields in
-- their types is sent at a time of 64 bits, with the next number below 2^64 - 1, then after the
-- order is written it carries such messages again, whatever the socket answered and however often
-- the connection was lost on the way.
pub send_order-IsSynced :
    (s : Sender) (now : ℕ) (slot : Order) (answers : List Answer) (t : Sender)
    → IsSynced s
    → s.next_seq < max_u64
    → now < 2 ^ 64
    → IsOrder slot
    → send_order s now slot answers ≡ some t
    → IsSynced t
unfolding send_order
send_order-IsSynced s now slot answers t sync room clock v e =
    let msg = build_message s.next_seq now slot in
    let w = build_message-IsWireOrder s.next_seq now slot (omega arith) clock v in
    elim (Option-cases (send_loop s msg (encode_order msg) answers)) [
      | inl waits ↦ absurd (let e' : none ≡ some t = rw (waits, send_order) at e in cc)
      | inr ((u, m), found) ↦
          let e' : some (record u { next_seq = u64 (u.next_seq + 1) }) ≡ some t =
            rw (found, send_order) at e in
          let (q, c) = build_message_facts s.next_seq now slot in
          subst IsSynced (some_inj e') (
            finish-IsSynced s msg u m sync room w q c
              (send_loop_lem s msg (encode_order msg) answers u m w found))
    ]

next_within :
    (s : Sender) (msg : WireOrder) (rest : List ℕ) (t : Sender) (m : WireOrder)
    → IsSynced s
    → Sent s msg rest t m
    → u64 (t.next_seq + 1) ≤ s.next_seq + 1
next_within s msg rest t m v (inl h) = omega (arith, h.1)
next_within s msg rest t m v (inr h) = omega (arith, h.1, v.4)

-- The number moves on by one at most: a new connection starts again.
pub send_order-next :
    (s : Sender) (now : ℕ) (slot : Order) (answers : List Answer) (t : Sender)
    → IsSynced s
    → s.next_seq < max_u64
    → now < 2 ^ 64
    → IsOrder slot
    → send_order s now slot answers ≡ some t
    → t.next_seq ≤ s.next_seq + 1
unfolding send_order
send_order-next s now slot answers t sync room clock v e =
    let msg = build_message s.next_seq now slot in
    let w = build_message-IsWireOrder s.next_seq now slot (omega arith) clock v in
    elim (Option-cases (send_loop s msg (encode_order msg) answers)) [
      | inl waits ↦ absurd (let e' : none ≡ some t = rw (waits, send_order) at e in cc)
      | inr ((u, m), found) ↦
          let e' : some (record u { next_seq = u64 (u.next_seq + 1) }) ≡ some t =
            rw (found, send_order) at e in
          subst (λ x. x.next_seq ≤ s.next_seq + 1) (some_inj e')
            (next_within s msg (encode_order msg) u m sync
              (send_loop_lem s msg (encode_order msg) answers u m w found))
    ]

-- What the send loop leaves is a message for the order.
send_loop-IsMessageOf :
    (slot : Order) (now : ℕ) (s : Sender) (msg : WireOrder) (rest : List ℕ) (answers : List Answer)
    (t : Sender) (m : WireOrder)
    → IsMessageOf slot now msg
    → send_loop s msg rest answers ≡ some (t, m)
    → IsMessageOf slot now m
unfolding send_loop
send_loop-IsMessageOf slot now s msg [] answers t m h e =
    subst (IsMessageOf slot now) (ap (λ x. x.1) (some_inj e)) h
send_loop-IsMessageOf slot now s msg (b ∷ bs) [] t m h e = absurd (cc)
send_loop-IsMessageOf slot now s msg (b ∷ bs) (wrote n ∷ answers) t m h e =
    send_loop-IsMessageOf slot now (record s { out = s.out ++ take n (b ∷ bs) }) msg
      (drop n (b ∷ bs)) answers t m h e
send_loop-IsMessageOf slot now s msg (b ∷ bs) (again acks ∷ answers) t m h e =
    send_loop-IsMessageOf slot now (drain_acks s acks) msg (b ∷ bs) answers t m h e
send_loop-IsMessageOf slot now s msg (b ∷ bs) (failed ∷ answers) t m h e =
    let renumbered = stamp (record msg { seq = 1; checksum = 0 }) in
    send_loop-IsMessageOf slot now (reconnect s) renumbered (encode_order renumbered) answers t m
      (renumbered-IsMessageOf slot now msg h) e

finish-Carries :
    (s : Sender) (slot : Order) (now : ℕ) (u : Sender) (m : WireOrder)
    → IsMessageOf slot now m
    → Sent s
        (build_message s.next_seq now slot)
        (encode_order (build_message s.next_seq now slot))
        u
        m
    → Carries s slot now (record u { next_seq = u64 (u.next_seq + 1) })
finish-Carries s slot now u m h (inl (out, next, same)) =
    let q = ap (λ x. x.seq) same ∙ (build_message_facts s.next_seq now slot).0 in
    record {
      message = m;
      before = s.out;
      start = inl (refl, q);
      carried = out ∙ ap (λ x. s.out ++ encode_order x) (sym same);
      next = ap (λ x. u64 (x + 1)) (next ∙ sym q);
      is_of = h;
    }
finish-Carries s slot now u m h (inr (out, next, one, _, _)) = record {
  message = m;
  before = [];
  start = inr (refl, one);
  carried = out;
  next = ap (λ x. u64 (x + 1)) (next ∙ sym one);
  is_of = h;
}

pub send_order-Carries :
    (s : Sender) (now : ℕ) (slot : Order) (answers : List Answer) (t : Sender)
    → s.next_seq < max_u64
    → now < 2 ^ 64
    → IsOrder slot
    → send_order s now slot answers ≡ some t
    → Carries s slot now t
unfolding send_order
send_order-Carries s now slot answers t room clock v e =
    let msg = build_message s.next_seq now slot in
    let w = build_message-IsWireOrder s.next_seq now slot (omega arith) clock v in
    elim (Option-cases (send_loop s msg (encode_order msg) answers)) [
      | inl waits ↦ absurd (let e' : none ≡ some t = rw (waits, send_order) at e in cc)
      | inr ((u, m), found) ↦
          let e' : some (record u { next_seq = u64 (u.next_seq + 1) }) ≡ some t =
            rw (found, send_order) at e in
          let h =
            send_loop-IsMessageOf slot now s msg (encode_order msg) answers u m
              (built-IsMessageOf slot now s.next_seq) found in
          subst (Carries s slot now) (some_inj e') (
            finish-Carries s slot now u m h
              (send_loop_lem s msg (encode_order msg) answers u m w found))
    ]

-- The exchange, reading what a synchronised sender has put on the connection in any pieces, takes
-- every message: its count is one less than the sender's next number, which is at most 2^64 - 1,
-- with no damage, no gap, and no bytes left over.
pub exchange_agrees :
    (mono_ns : ℕ → ℕ) (s : Sender) (chunks : List (List ℕ))
    → IsSynced s
    → s.next_seq ≤ max_u64
    → concat chunks ≡ s.out
    → let (r, rest) = handle_client mono_ns chunks in
      (r.order_count + 1 ≡ s.next_seq)
      × (r.expected_seq ≡ s.next_seq)
      × (r.bad_csum ≡ 0)
      × (r.seq_gaps ≡ 0)
      × (rest ≡ [])
exchange_agrees mono_ns s chunks (os, out, num, wire, next) room e =
    rw (handle_client-orders mono_ns os chunks wire (e ∙ out)) (
      let (x, c, b, g, _) =
        process_all-Numbered mono_ns OrderReceiver.init os num (omega arith) (omega arith) in
      (omega arith, omega arith, b, g, refl))
