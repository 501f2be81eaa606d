-- ===== src/Engine/Packet/Split.antt =====
-- The packets of the feed (apps/server/feed.c) in the loop of apps/engine/dispatcher.cpp.
use low_latency_trading_pipe.Base.{
  ℕ, zero, suc, ◌+◌, ◌^◌, ◌≤◌, ◌<◌, ◌≡◌, refl, ap, ap₂, ◌∙◌, false, ◌||◌, List, [], ◌∷◌, ◌++◌,
  arith, ltb, length, drop, length-append, be16, put16,
}
use low_latency_trading_pipe.Itch.{Event, Isa}
use low_latency_trading_pipe.Itch.Layout.{
  add_order, add_order_mpid, order_modify, order_executed_price, order_cancel, order_delete,
  order_replace, Message, encode_message, event_of, IsMessage, message_size, length-encode_message,
  dispatch-encode_message,
}
use low_latency_trading_pipe.Engine.Packet.{messages, events_of, packet_events, stamped}

-- A payload of messages, each behind its length in two bytes.
unfoldable pub payload_of : List (List ℕ) → List ℕ
payload_of [] = []
payload_of (m ∷ ms) = put16 (length m) ++ (m ++ payload_of ms)

-- Messages whose length fits two bytes.
abbrev pub AllShort : List (List ℕ) → Type 0
AllShort [] = Unit
AllShort (m ∷ ms) = (length m < 2 ^ 16) × AllShort ms

-- Each message with the payload of those after it behind it.
unfoldable pub with_rest : List (List ℕ) → List (List ℕ)
unfolding payload_of
with_rest [] = []
with_rest (m ∷ ms) = (m ++ payload_of ms) ∷ with_rest ms

be16-put16 : (n : ℕ) (b : List ℕ) → n < 2 ^ 16 → be16 (put16 n ++ b) 0 ≡ n
be16-put16 n b h = omega arith

messages_round :
    (rounds : ℕ) (b : List ℕ)
    → 2 + be16 b 0 ≤ length b
    → messages (suc rounds) b ≡ drop 2 b ∷ messages rounds (drop (2 + be16 b 0) b)
unfolding messages
messages_round rounds b h =
    let goes : (ltb (length b) 2 || ltb (length b) (2 + be16 b 0)) ≡ false = ground arith in
    rw goes refl

drop-exact : (m rest : List ℕ) → drop (length m) (m ++ rest) ≡ rest
drop-exact [] rest = refl
drop-exact (x ∷ m) rest = drop-exact m rest

drop-message :
    (n : ℕ) (m rest : List ℕ) → n ≡ length m → drop (2 + n) (put16 (length m) ++ (m ++ rest)) ≡ rest
drop-message n m rest e =
    let two : 2 + n ≡ suc (suc (length m)) = omega (arith, e) in
    ap (λ k. drop k (put16 (length m) ++ (m ++ rest))) two ∙ drop-exact m rest

-- The loop takes a payload apart into exactly its messages.
messages-payload_of :
    (rounds : ℕ) (ms : List (List ℕ))
    → AllShort ms
    → length (payload_of ms) ≤ rounds
    → messages rounds (payload_of ms) ≡ with_rest ms
unfolding messages payload_of with_rest
messages-payload_of zero [] s h = refl
messages-payload_of (suc rounds) [] s h = refl
messages-payload_of zero (m ∷ ms) s h = absurd (omega (arith, h))
messages-payload_of (suc rounds) (m ∷ ms) s h =
    let rest = payload_of ms in
    let b = put16 (length m) ++ (m ++ rest) in
    let size : be16 b 0 ≡ length m = be16-put16 (length m) (m ++ rest) s.0 in
    let long : length b ≡ 2 + length m + length rest = omega (arith, length-append m rest) in
    messages_round rounds b (omega (arith, size, long))
    ∙ ap (λ x. (m ++ rest) ∷ x)
        (ap (messages rounds) (drop-message (be16 b 0) m rest size)
          ∙ messages-payload_of rounds ms s.1 (omega (arith, h, long)))

-- The bytes of order messages, and their events at the packet's time.
unfoldable pub encode_all : List Message → List (List ℕ)
encode_all [] = []
encode_all (m ∷ ms) = encode_message m ∷ encode_all ms

unfoldable pub events_at : ℕ → List Message → List Event
events_at ts [] = []
events_at ts (m ∷ ms) = event_of ts m ∷ events_at ts ms

abbrev pub AllMessages : List Message → Type 0
AllMessages [] = Unit
AllMessages (m ∷ ms) = IsMessage m × AllMessages ms

-- An order message is short, and its event takes the time of its packet.
message_facts :
    (m : Message) (ts ts' : ℕ)
    → (message_size m ≤ 40) × (record (event_of ts' m) { ts = ts } ≡ event_of ts m)
unfolding message_size event_of
message_facts (add_order h id side shares stock price) ts ts' = (omega arith, refl)
message_facts (add_order_mpid h id side shares stock price attribution) ts ts' = (omega arith, refl)
message_facts (order_modify h id shares match_number) ts ts' = (omega arith, refl)
message_facts (order_executed_price h id shares match_number printable price) ts ts' =
    (omega arith, refl)
message_facts (order_cancel h id shares) ts ts' = (omega arith, refl)
message_facts (order_delete h id) ts ts' = (omega arith, refl)
message_facts (order_replace h id new_id shares price) ts ts' = (omega arith, refl)

encode_all-short : (ms : List Message) → AllShort (encode_all ms)
unfolding encode_all
encode_all-short [] = tt
encode_all-short (m ∷ ms) =
    (omega (arith, length-encode_message m, (message_facts m 0 0).0), encode_all-short ms)

events_of-encode :
    (isa : Isa) (blank : Event) (ts : ℕ) (ms : List Message)
    → AllMessages ms
    → events_of isa blank ts (with_rest (encode_all ms)) ≡ events_at ts ms
unfolding events_of with_rest encode_all events_at stamped
events_of-encode isa blank ts [] v = refl
events_of-encode isa blank ts (m ∷ ms) v =
    rw (dispatch-encode_message isa m (payload_of (encode_all ms)) blank v.0, stamped)
      (ap₂ ◌∷◌ (message_facts m ts blank.ts).1 (events_of-encode isa blank ts ms v.1))

-- A packet of order messages whose fields fit their types, each behind its length, makes exactly
-- their events, in order and at the packet's time, in both compiled forms, whatever the uninitialised
-- events held.
pub packet_events-encode :
    (isa : Isa) (blank : Event) (ts : ℕ) (ms : List Message)
    → AllMessages ms
    → packet_events isa blank ts (payload_of (encode_all ms)) ≡ events_at ts ms
unfolding packet_events
packet_events-encode isa blank ts ms v =
    ap (events_of isa blank ts) (
      messages-payload_of (length (payload_of (encode_all ms))) (encode_all ms)
        (encode_all-short ms) (omega arith))
    ∙ events_of-encode isa blank ts ms v
