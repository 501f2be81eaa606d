-- ===== src/OrderSender/Turn/Live.antt =====
-- The turns of order_sender_thread (apps/client/order_sender.c) empty the ring of orders.
use low_latency_trading_pipe.Base.{
  ℕ, zero, suc, ◌+◌, ◌%◌, ◌^◌, ◌≤◌, ◌<◌, ◌≡◌, refl, sym, ap, subst, ◌∙◌, inl, inr, Option, none,
  some, List, [], ◌∷◌, ◌++◌, arith, ◌==◌, Bool-cases, some_inj, length, drop, u32, max_u64,
}
use low_latency_trading_pipe.Wire.{order_size}
use low_latency_trading_pipe.Ring.{Ring, consume}
use low_latency_trading_pipe.Ring.Queue.{IsValid, contents, pop, view, AllValid, consume_refines}
use low_latency_trading_pipe.OrderSender.{Order, Answer, send_order, Sender}
use low_latency_trading_pipe.OrderSender.Session.{
  IsOrder, IsSynced, drain_acks-keeps, send_order-next, Carries,
}
use low_latency_trading_pipe.OrderSender.Ends.{Serves, writes, send_order_delivers}
use low_latency_trading_pipe.OrderSender.Turn.{
  Thread, World, poll_acks, take_slot, commit, turn, turns, sample,
}

-- A turn at a time of 64 bits, in which the socket serves in the end.
pub record IsServed (w : World) : Type 0 where
  pub before : List Answer
  pub after : List Answer
  pub split : w.answers ≡ before ++ after
  pub serves : Serves after
  pub enough : order_size ≤ writes after
  pub clock : w.now < 2 ^ 64

abbrev pub AllServed : List World → Type 0
AllServed [] = Unit
AllServed (w ∷ ws) = IsServed w × AllServed ws

abbrev pub AllOrders : List Order → Type 0
AllOrders [] = Unit
AllOrders (o ∷ os) = IsOrder o × AllOrders os

-- A thread with the orders of a queue before it.
pub record Holds (q : List Order) (t : Thread) : Type 0 where
  pub queue : contents t.ring ≡ q
  pub ring : IsValid t.ring
  pub orders : AllOrders q
  pub synced : IsSynced t.sender

poll_acks-Holds :
    (acks : List ℕ) (q : List Order) (t : Thread)
    → Holds q t
    → Holds q (poll_acks acks t)
      × ((poll_acks acks t).sender.next_seq ≡ t.sender.next_seq)
      × ((poll_acks acks t).sender.out ≡ t.sender.out)
unfolding poll_acks
poll_acks-Holds acks q t h =
    let (out, next) = drain_acks-keeps t.sender acks in
    let (os, o, num, wire, n) = h.synced in
    elim (Bool-cases (u32 (t.ack_poll_ticks + 1) % 64 == 0)) [
      | inl e ↦ rw e (
        record {
          queue = h.queue;
          ring = h.ring;
          orders = h.orders;
          synced = (os, out ∙ o, num, wire, next ∙ n);
        },
        next,
        out,
      )
      | inr e ↦ rw e (
        record { queue = h.queue; ring = h.ring; orders = h.orders; synced = h.synced },
        refl,
        refl,
      )
    ]

-- What a turn does with a queue of orders: the oldest is on the connection, and with none the connection
-- carries what it did.
abbrev pub Moves : Sender → ℕ → List Order → Sender → Type 0
Moves s now [] u = (u.out ≡ s.out) × (u.next_seq ≡ s.next_seq)
Moves s now (o ∷ os) u = Carries s o now u

-- What turns do with it, one after the other.
abbrev pub Sends : List World → List Order → Sender → Sender → Type 0
Sends [] q s u = u ≡ s
Sends (w ∷ ws) q s u = (x : Sender) × Moves s w.now q x × Sends ws (drop 1 q) x u

-- The order sent by a turn.
Taken : World → List Order → Thread → Option Thread → Type 0
Taken w q t r =
    (t' : Thread) × (r ≡ some t')
    × Holds (drop 1 q) t'
    × (t'.sender.next_seq ≤ t.sender.next_seq + 1)
    × Moves t.sender w.now q t'.sender

stamped-IsOrder : (slot : Order) (now : ℕ) → IsOrder slot → IsOrder (record slot { send_ns = now })
stamped-IsOrder slot now v = record {
  qty_word = v.qty_word;
  price_word = v.price_word;
  locate_word = v.locate_word;
  side_byte = v.side_byte;
}

popped_parts :
    (slot o : Order) (ring : Ring Order) (os : List Order)
    → view (some (slot, ring)) ≡ pop (o ∷ os)
    → (slot ≡ o) × (contents ring ≡ os)
unfolding pop
popped_parts slot o ring os e = let f = some_inj e in (ap (λ x. x.0) f, ap (λ x. x.1) f)

-- The time that is written into the slot is no field of the message's but its time.
stamped-Carries :
    (s : Sender) (o slot : Order) (now : ℕ) (u : Sender)
    → slot ≡ o
    → Carries s (record slot { send_ns = now }) now u
    → Carries s o now u
stamped-Carries s o slot now u e c =
    subst (λ x. Carries s x now u) e
      (record {
        message = c.message;
        before = c.before;
        start = c.start;
        carried = c.carried;
        next = c.next;
        is_of = record {
          kind = c.is_of.kind;
          side = c.is_of.side;
          symbol = c.is_of.symbol;
          qty = c.is_of.qty;
          price = c.is_of.price;
          time = c.is_of.time;
          intact = c.is_of.intact;
        };
      })

-- A poll of acknowledgements before changes neither the connection nor the number.
polled-Moves :
    (s p : Sender) (now : ℕ) (q : List Order) (u : Sender)
    → p.out ≡ s.out
    → p.next_seq ≡ s.next_seq
    → Moves p now q u
    → Moves s now q u
polled-Moves s p now [] u e n m = (m.0 ∙ e, m.1 ∙ n)
polled-Moves s p now (o ∷ os) u e n c = record {
  message = c.message;
  before = c.before;
  start = elim c.start [ inl h ↦ inl (h.0 ∙ e, h.1 ∙ n) | inr h ↦ inr h ];
  carried = c.carried;
  next = c.next;
  is_of = c.is_of;
}

take_slot-Taken :
    (w : World) (q : List Order) (t : Thread) (c : Option (Order × Ring Order))
    → IsServed w
    → Holds q t
    → t.sender.next_seq < max_u64
    → view c ≡ pop q
    → AllValid c
    → Taken w q t (take_slot w t c)
unfolding pop Taken
take_slot-Taken w [] t none s h room e v = (t, refl, h, omega arith, (refl, refl))
take_slot-Taken w (o ∷ os) t none s h room e v = absurd (cc)
take_slot-Taken w [] t (some (slot, ring)) s h room e v = absurd (cc)
take_slot-Taken w (o ∷ os) t (some (slot, ring)) s h room e v =
    let (popped, left) = popped_parts slot o ring os e in
    let stamped = record slot { send_ns = w.now } in
    let v' : IsOrder stamped = stamped-IsOrder slot w.now (subst IsOrder (sym popped) h.orders.0) in
    let (u, found, sync, carries) =
      send_order_delivers t.sender w.now stamped s.before s.after h.synced room s.clock v' s.serves
        s.enough in
    let sent = ap (send_order t.sender w.now stamped) s.split ∙ found in
    (
      record t { ring = ring; sender = u; sampler = sample t.sampler slot w.now },
      ap (commit (record t { sampler = sample t.sampler slot w.now }) ring) sent,
      record { queue = left; ring = v; orders = h.orders.1; synced = sync },
      send_order-next t.sender w.now stamped w.answers u h.synced room s.clock v' sent,
      stamped-Carries t.sender o slot w.now u popped carries,
    )

turn-Taken :
    (w : World) (q : List Order) (t : Thread)
    → IsServed w
    → Holds q t
    → t.sender.next_seq < max_u64
    → Taken w q t (turn w t)
unfolding turn Taken
turn-Taken w q t s h room =
    let p = poll_acks w.acks t in
    let (k, next, out) = poll_acks-Holds w.acks q t h in
    let (e, v) = consume_refines p.ring k.ring in
    let (t', r, k', n, moves) =
      take_slot-Taken w q p (consume p.ring) s k (omega (arith, next, room)) (e ∙ ap pop k.queue)
        v in
    (
      t',
      r,
      k',
      omega (arith, n, next),
      polled-Moves t.sender p.sender w.now q t'.sender out next moves,
    )

drop_one : {A : Type 0} (n : ℕ) (q : List A) → drop n (drop 1 q) ≡ drop (suc n) q
drop_one zero [] = refl
drop_one (suc n) [] = refl
drop_one n (x ∷ q) = refl

drop_all : {A : Type 0} (n : ℕ) (q : List A) → length q ≤ n → drop n q ≡ []
drop_all zero [] h = refl
drop_all (suc n) [] h = refl
drop_all zero (x ∷ q) h = absurd (omega (arith, h))
drop_all (suc n) (x ∷ q) h = drop_all n q (omega (arith, h))

next_turn :
    (w : World) (ws : List World) (t t' : Thread)
    → turn w t ≡ some t'
    → turns (w ∷ ws) t ≡ turns ws t'
unfolding turns
next_turn w ws t t' e = rw (e, turns) refl

turns-Taken :
    (ws : List World) (q : List Order) (t : Thread)
    → AllServed ws
    → Holds q t
    → t.sender.next_seq + length ws ≤ max_u64
    → (t' : Thread) × (turns ws t ≡ some t')
      × Holds (drop (length ws) q) t'
      × Sends ws q t.sender t'.sender
unfolding turns Taken
turns-Taken [] q t s h room = (t, refl, h, refl)
turns-Taken (w ∷ ws) q t s h room =
    let (t1, e, k, n, moves) = turn-Taken w q t s.0 h (omega (arith, room)) in
    let (t2, e', k', sends) = turns-Taken ws (drop 1 q) t1 s.1 k (omega (arith, room, n)) in
    (
      t2,
      next_turn w ws t t1 e ∙ e',
      subst (λ x. Holds x t2) (drop_one (length ws) q) k',
      (t1.sender, moves, sends),
    )

-- If the ring is valid and holds orders with fields in their types, the connection carries whole
-- intact messages numbered from 1, and the numbers stay below 2^64: after at least as many turns as
-- there are orders, in each of which the socket serves in the end, the ring is empty and still valid,
-- and the connection carries such messages again. Each turn in its order has put a message with the
-- fields of the oldest order that was left on the connection, behind what it carried or as the first
-- of a new one, and a turn with no order left has put nothing there.
pub turns_empty :
    (ws : List World) (t : Thread)
    → AllServed ws
    → Holds (contents t.ring) t
    → t.sender.next_seq + length ws ≤ max_u64
    → length (contents t.ring) ≤ length ws
    → (t' : Thread) × (turns ws t ≡ some t')
      × Holds [] t'
      × Sends ws (contents t.ring) t.sender t'.sender
turns_empty ws t s h room long =
    let (t', e, k, sends) = turns-Taken ws (contents t.ring) t s h room in
    (t', e, subst (λ q. Holds q t') (drop_all (length ws) (contents t.ring) long) k, sends)
