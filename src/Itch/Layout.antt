-- ===== src/Itch/Layout.antt =====
-- include/hft/itch/structs.h: the packed layouts of the order messages, in network byte order, and
-- the event that each stands for.
use low_latency_trading_pipe.Base.{
  ℕ, ◌^◌, ◌<◌, ◌≡◌, refl, ◌∙◌, some, List, ◌∷◌, ◌++◌, arith, length, put16, put32, put48, put64,
}
use low_latency_trading_pipe.Itch.{Isa, sse41, scalar, Event, dispatch}
use low_latency_trading_pipe.Itch.Agree.{dispatch_agrees}

-- itch_header_t without the type; the six bytes of the time are a number.
pub record Header : Type 0 where
  pub stock_locate : ℕ
  pub tracking_number : ℕ
  pub timestamp : ℕ

-- The order messages with their fields, the type's byte left out; the eight characters of a stock,
-- and the four of an attribution, are a number too.
pub data Message : Type 0 where
  add_order : Header → (order_reference_number side shares stock price : ℕ) → Message
  add_order_mpid :
      Header → (order_reference_number side shares stock price attribution : ℕ) → Message
  order_modify : Header → (order_reference_number executed_shares match_number : ℕ) → Message
  order_executed_price :
      Header
      → (order_reference_number executed_shares match_number printable execution_price : ℕ)
      → Message
  order_cancel : Header → (order_reference_number cancelled_shares : ℕ) → Message
  order_delete : Header → (order_reference_number : ℕ) → Message
  order_replace :
      Header
      → (original_order_reference_number new_order_reference_number shares price : ℕ) → Message

abbrev encode_header : ℕ → Header → List ℕ
encode_header message_type h =
    message_type ∷ (put16 h.stock_locate ++ (put16 h.tracking_number ++ put48 h.timestamp))

unfoldable pub encode_message : Message → List ℕ
encode_message (add_order h id side shares stock price) =
    encode_header b'A' h ++ (put64 id ++ (side ∷ (put32 shares ++ (put64 stock ++ put32 price))))
encode_message (add_order_mpid h id side shares stock price attribution) =
    encode_header b'F' h
    ++ (put64 id ++ (side ∷ (put32 shares ++ (put64 stock ++ (put32 price ++ put32 attribution)))))
encode_message (order_modify h id shares match_number) =
    encode_header b'E' h ++ (put64 id ++ (put32 shares ++ put64 match_number))
encode_message (order_executed_price h id shares match_number printable price) =
    encode_header b'C' h
    ++ (put64 id ++ (put32 shares ++ (put64 match_number ++ (printable ∷ put32 price))))
encode_message (order_cancel h id shares) = encode_header b'X' h ++ (put64 id ++ put32 shares)
encode_message (order_delete h id) = encode_header b'D' h ++ put64 id
encode_message (order_replace h id new_id shares price) =
    encode_header b'U' h ++ (put64 id ++ (put64 new_id ++ (put32 shares ++ put32 price)))

-- The event of a message, with the receive time that is already in it.
abbrev event : ℕ → ℕ → Header → ℕ → ℕ → ℕ → ℕ → ℕ → Event
event ts type h order_id aux price qty side = record {
  ts = ts;
  order_id = order_id;
  aux = aux;
  price = price;
  qty = qty;
  stock_locate = h.stock_locate;
  type = type;
  side = side;
}

unfoldable pub event_of : ℕ → Message → Event
event_of ts (add_order h id side shares stock price) = event ts b'A' h id 0 price shares side
event_of ts (add_order_mpid h id side shares stock price attribution) =
    event ts b'F' h id 0 price shares side
event_of ts (order_modify h id shares match_number) = event ts b'E' h id 0 0 shares 0
event_of ts (order_executed_price h id shares match_number printable price) =
    event ts b'C' h id 0 price shares 0
event_of ts (order_cancel h id shares) = event ts b'X' h id 0 0 shares 0
event_of ts (order_delete h id) = event ts b'D' h id 0 0 0 0
event_of ts (order_replace h id new_id shares price) = event ts b'U' h id new_id price shares 0

-- The fields that reach the event fit their types.
unfoldable pub IsMessage : Message → Type 0
IsMessage (add_order h id side shares stock price) =
    h.stock_locate < 2 ^ 16 × id < 2 ^ 64 × shares < 2 ^ 32 × price < 2 ^ 32
IsMessage (add_order_mpid h id side shares stock price attribution) =
    h.stock_locate < 2 ^ 16 × id < 2 ^ 64 × shares < 2 ^ 32 × price < 2 ^ 32
IsMessage (order_modify h id shares match_number) =
    h.stock_locate < 2 ^ 16 × id < 2 ^ 64 × shares < 2 ^ 32
IsMessage (order_executed_price h id shares match_number printable price) =
    h.stock_locate < 2 ^ 16 × id < 2 ^ 64 × shares < 2 ^ 32 × price < 2 ^ 32
IsMessage (order_cancel h id shares) = h.stock_locate < 2 ^ 16 × id < 2 ^ 64 × shares < 2 ^ 32
IsMessage (order_delete h id) = h.stock_locate < 2 ^ 16 × id < 2 ^ 64
IsMessage (order_replace h id new_id shares price) =
    h.stock_locate < 2 ^ 16 × id < 2 ^ 64 × new_id < 2 ^ 64 × shares < 2 ^ 32 × price < 2 ^ 32

-- The documented sizes.
unfoldable pub message_size : Message → ℕ
message_size (add_order h id side shares stock price) = 36
message_size (add_order_mpid h id side shares stock price attribution) = 40
message_size (order_modify h id shares match_number) = 31
message_size (order_executed_price h id shares match_number printable price) = 36
message_size (order_cancel h id shares) = 23
message_size (order_delete h id) = 19
message_size (order_replace h id new_id shares price) = 35

-- The packed structures have the sizes that their comments state.
pub length-encode_message : (m : Message) → length (encode_message m) ≡ message_size m
unfolding encode_message message_size
length-encode_message (add_order h id side shares stock price) = refl
length-encode_message (add_order_mpid h id side shares stock price attribution) = refl
length-encode_message (order_modify h id shares match_number) = refl
length-encode_message (order_executed_price h id shares match_number printable price) = refl
length-encode_message (order_cancel h id shares) = refl
length-encode_message (order_delete h id) = refl
length-encode_message (order_replace h id new_id shares price) = refl

scalar-encode :
    (m : Message) (rest : List ℕ) (out : Event)
    → IsMessage m
    → dispatch scalar (encode_message m ++ rest) out ≡ some (event_of out.ts m)
unfolding dispatch encode_message event_of IsMessage
scalar-encode (add_order h id side shares stock price) rest out v = ground arith
scalar-encode (add_order_mpid h id side shares stock price attribution) rest out v = ground arith
scalar-encode (order_modify h id shares match_number) rest out v = ground arith
scalar-encode (order_executed_price h id shares match_number printable price) rest out v =
    ground arith
scalar-encode (order_cancel h id shares) rest out v = ground arith
scalar-encode (order_delete h id) rest out v = ground arith
scalar-encode (order_replace h id new_id shares price) rest out v = ground arith

-- Dispatching an order message whose fields fit their types, whatever bytes follow it, gives the
-- event of its fields, in both compiled forms.
pub dispatch-encode_message :
    (isa : Isa) (m : Message) (rest : List ℕ) (out : Event)
    → IsMessage m
    → dispatch isa (encode_message m ++ rest) out ≡ some (event_of out.ts m)
dispatch-encode_message sse41 m rest out v =
    dispatch_agrees (encode_message m ++ rest) out ∙ scalar-encode m rest out v
dispatch-encode_message scalar m rest out v = scalar-encode m rest out v
