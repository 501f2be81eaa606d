-- ===== src/OrderSender/Acks.antt =====
-- drain_acks of apps/client/order_sender.c over a stream of acknowledgements, and across a
-- reconnect.
use low_latency_trading_pipe.Base.{
  ℕ, zero, suc, ◌-◌, ◌<◌, ◌≡◌, refl, sym, ap, ◌∙◌, inl, inr, List, [], ◌∷◌, ◌++◌, append-nil,
  append_assoc, arith, leb, Bool-cases, length, take, drop, length-append, length-drop,
  take-append_above, drop-append_above,
}
use low_latency_trading_pipe.Framing.{
  frames, drain, drain_step, concat, drain-append, drain-rest, drain_short,
}
use low_latency_trading_pipe.Wire.{WireAck, ack_size, encode_ack}
use low_latency_trading_pipe.Wire.Codec.{length-encode_ack}
use low_latency_trading_pipe.OrderSender.{
  Sender, handle_ack, handle_ack_bytes, drain_acks, reconnect,
}

abbrev pub drain_all : Sender → List (List ℕ) → Sender
drain_all s [] = s
drain_all s (c ∷ cs) = drain_all (drain_acks s c) cs

handle_ack-carry :
    (s : Sender) (c b : List ℕ)
    → handle_ack_bytes (record s { carry = c }) b ≡ record (handle_ack_bytes s b) { carry = c }
unfolding handle_ack
handle_ack-carry s c b = ground arith

frames-carry :
    (n : ℕ) (s : Sender) (c b : List ℕ)
    → frames ack_size handle_ack_bytes n (record s { carry = c }) b
      ≡ (let (t, rest) = frames ack_size handle_ack_bytes n s b in (record t { carry = c }, rest))
unfolding frames
frames-carry zero s c b = refl
frames-carry (suc n) s c b = elim (Bool-cases (leb ack_size (length b))) [
  | inl e ↦
      rw (e, handle_ack-carry s c (take ack_size b))
        (frames-carry n (handle_ack_bytes s (take ack_size b)) c (drop ack_size b))
  | inr e ↦ rw e
]

abbrev pub settle : Sender × List ℕ → Sender
settle (t, rest) = record t { carry = rest }

drain-carry :
    (s : Sender) (c b : List ℕ)
    → settle (drain ack_size handle_ack_bytes (record s { carry = c }) b)
      ≡ settle (drain ack_size handle_ack_bytes s b)
unfolding drain
drain-carry s c b = ap settle (frames-carry (length b) s c b)

drain_acks_lem :
    (s : Sender) (c : List ℕ)
    → length s.carry < ack_size
    → drain_acks s c ≡ settle (drain ack_size handle_ack_bytes s (s.carry ++ c))
unfolding drain_acks drain
drain_acks_lem s [] h =
    rw append-nil
      (sym (ap settle (drain_short ack_size handle_ack_bytes (omega arith) s s.carry h)))
drain_acks_lem s (x ∷ c) h = refl

-- With less than one acknowledgement carried, however the stream of acknowledgements is cut into
-- receives, the sender's counters are those of handling the carried bytes and the stream message by
-- message.
pub drain_all-concat :
    (s : Sender) (chunks : List (List ℕ))
    → length s.carry < ack_size
    → drain_all s chunks ≡ settle (drain ack_size handle_ack_bytes s (s.carry ++ concat chunks))
unfolding drain_acks
drain_all-concat s [] h = drain_acks_lem s [] h
drain_all-concat s (c ∷ cs) h =
    let D = drain ack_size handle_ack_bytes s (s.carry ++ c) in
    ap (λ t. drain_all t cs) (drain_acks_lem s c h)
    ∙ drain_all-concat (settle D) cs
        (drain-rest ack_size handle_ack_bytes (omega arith) s (s.carry ++ c))
    ∙ drain-carry D.0 D.1 (D.1 ++ concat cs)
    ∙ ap settle (
        sym (drain-append ack_size handle_ack_bytes (omega arith) s (s.carry ++ c) (concat cs))
        ∙ ap (drain ack_size handle_ack_bytes s) (append_assoc s.carry c (concat cs)))

-- With part of an acknowledgement carried over a reconnect, the next acknowledgement is read as the
-- old bytes with its own front behind them, and as many bytes stay carried.
pub reconnect-carry :
    (s : Sender) (a : WireAck)
    → 0 < length s.carry
    → length s.carry < ack_size
    → let t = drain_acks (reconnect s) (encode_ack a) in
      let k = length s.carry in
      (t ≡ record (handle_ack_bytes (reconnect s) (s.carry ++ take (ack_size - k) (encode_ack a))) {
        carry = drop (ack_size - k) (encode_ack a);
      })
      × (length t.carry ≡ k)
unfolding reconnect
reconnect-carry s a p h =
    let b = s.carry ++ encode_ack a in
    let t = reconnect s in
    let l = length-append s.carry (encode_ack a) in
    let n = length-encode_ack a in
    let cut : length (drop ack_size b) < ack_size = omega (arith, length-drop ack_size b) in
    let read : drain_acks t (encode_ack a)
        ≡ record (handle_ack_bytes t (take ack_size b)) { carry = drop ack_size b } =
      drain_acks_lem t (encode_ack a) h
      ∙ ap settle (
          drain_step ack_size handle_ack_bytes (omega arith) t b (omega arith)
          ∙ drain_short ack_size handle_ack_bytes (omega arith)
              (handle_ack_bytes t (take ack_size b)) (drop ack_size b) cut) in
    let front = take-append_above ack_size s.carry (encode_ack a) (omega arith) in
    let back = drop-append_above ack_size s.carry (encode_ack a) (omega arith) in
    (
      read ∙ (λ i. record (handle_ack_bytes t (front i)) { carry = back i }),
      ap (λ x. length x.carry) read ∙ omega (arith, length-drop ack_size b),
    )
