-- ===== src/Itch.antt =====
-- src/itch/itch_handler.c, include/hft/itch/itch_handler.h and include/hft/engine/events.h: the table
-- of handlers, and the handlers of the order messages in both their compiled forms, with the
-- shuffled 16-byte load (SSE4.1) and with the scalar reads.
pub mod Layout
pub mod Agree
mod Tests
use low_latency_trading_pipe.Base.{
  ℕ, ◌+◌, ◌%◌, Option, none, some, List, [], ◌∷◌, map, ltb, ◌==◌, if◌then◌else◌, replicate,
  tabulate, byte, be16, be32, be64,
}
use low_latency_trading_pipe.Wire.{get32, get64}

pub record Event : Type 0 where
  pub ts : ℕ
  pub order_id : ℕ
  pub aux : ℕ
  pub price : ℕ
  pub qty : ℕ
  pub stock_locate : ℕ
  pub type : ℕ
  pub side : ℕ

-- Whether HFT_HAVE_PSHUFB is defined.
pub data Isa : Type 0 where
  sse41 : Isa
  scalar : Isa

-- _mm_loadu_si128: sixteen bytes at an offset.
abbrev load128 : List ℕ → ℕ → List ℕ
load128 b i = tabulate 16 (λ j. byte b (i + j))

-- One lane of _mm_shuffle_epi8: zero if the mask's top bit is set, else the byte that its low four
-- bits name.
abbrev shuffle_lane : List ℕ → ℕ → ℕ
shuffle_lane v m = if ltb m 128 then byte v (m % 16) else 0

abbrev shuffle_epi8 : List ℕ → List ℕ → List ℕ
shuffle_epi8 v mask = map (shuffle_lane v) mask

-- The masks, with 255 for -1.
abbrev mask_af : List ℕ
mask_af = 10 ∷ 9 ∷ 8 ∷ 7 ∷ 6 ∷ 5 ∷ 4 ∷ 3 ∷ 15 ∷ 14 ∷ 13 ∷ 12 ∷ 11 ∷ 255 ∷ 255 ∷ 255 ∷ []

abbrev mask_ex : List ℕ
mask_ex = 10 ∷ 9 ∷ 8 ∷ 7 ∷ 6 ∷ 5 ∷ 4 ∷ 3 ∷ 14 ∷ 13 ∷ 12 ∷ 11 ∷ 255 ∷ 255 ∷ 255 ∷ 255 ∷ []

abbrev mask_d : List ℕ
mask_d = 7 ∷ 6 ∷ 5 ∷ 4 ∷ 3 ∷ 2 ∷ 1 ∷ 0 ∷ replicate 8 255

abbrev mask_u : List ℕ
mask_u = 7 ∷ 6 ∷ 5 ∷ 4 ∷ 3 ∷ 2 ∷ 1 ∷ 0 ∷ 15 ∷ 14 ∷ 13 ∷ 12 ∷ 11 ∷ 10 ∷ 9 ∷ 8 ∷ []

-- The reads of the order's number, quantity and side that the two forms do in their own way.
unfoldable pub unpack_af : Isa → List ℕ → Event → Event
unpack_af sse41 msg out =
    let s = shuffle_epi8 (load128 msg 8) mask_af in
    record out { order_id = get64 s 0; qty = get32 s 8; side = byte s 12 }
unpack_af scalar msg out = record out {
  order_id = be64 msg 11;
  qty = be32 msg 20;
  side = byte msg 19;
}

unfoldable pub unpack_ex : Isa → List ℕ → Event → Event
unpack_ex sse41 msg out =
    let s = shuffle_epi8 (load128 msg 8) mask_ex in
    record out { order_id = get64 s 0; qty = get32 s 8 }
unpack_ex scalar msg out = record out { order_id = be64 msg 11; qty = be32 msg 19 }

unfoldable pub unpack_d : Isa → List ℕ → Event → Event
unpack_d sse41 msg out =
    let s = shuffle_epi8 (load128 msg 11) mask_d in record out { order_id = get64 s 0 }
unpack_d scalar msg out = record out { order_id = be64 msg 11 }

-- The sixteen bytes stored at `order_id` fill `aux` behind it as well.
unfoldable pub unpack_u : Isa → List ℕ → Event → Event
unpack_u sse41 msg out =
    let s = shuffle_epi8 (load128 msg 11) mask_u in
    record out { order_id = get64 s 0; aux = get64 s 8 }
unpack_u scalar msg out = record out { order_id = be64 msg 11; aux = be64 msg 19 }

-- The handlers of the order messages: A and F, E, C, X, D, U.
unfoldable pub handle_add_order : Isa → List ℕ → Event → Event
unfolding unpack_af
handle_add_order isa msg out =
    unpack_af isa msg
      (record out { aux = 0; type = byte msg 0; stock_locate = be16 msg 1; price = be32 msg 32 })

unfoldable pub handle_order_modify : Isa → List ℕ → Event → Event
unfolding unpack_ex
handle_order_modify isa msg out =
    unpack_ex isa msg
      (record out { aux = 0; type = byte msg 0; stock_locate = be16 msg 1; price = 0; side = 0 })

unfoldable pub handle_order_executed_price : Isa → List ℕ → Event → Event
unfolding unpack_ex
handle_order_executed_price isa msg out =
    let e =
      unpack_ex isa msg
        (record out { aux = 0; type = byte msg 0; stock_locate = be16 msg 1; side = 0 }) in
    record e { price = be32 msg 32 }

unfoldable pub handle_order_delete : Isa → List ℕ → Event → Event
unfolding unpack_d
handle_order_delete isa msg out = unpack_d isa msg (record out {
  aux = 0;
  type = byte msg 0;
  stock_locate = be16 msg 1;
  qty = 0;
  price = 0;
  side = 0;
})

unfoldable pub handle_order_replace : Isa → List ℕ → Event → Event
unfolding unpack_u
handle_order_replace isa msg out = unpack_u isa msg (record out {
  type = byte msg 0;
  stock_locate = be16 msg 1;
  side = 0;
  qty = be32 msg 27;
  price = be32 msg 31;
})

-- The handlers that the table names.
pub data Handler : Type 0 where
  system_event : Handler
  stock_directory : Handler
  stock_trading_action : Handler
  reg_sho : Handler
  mkt_participant_pos : Handler
  mwcb_decline_level : Handler
  mwcb_status : Handler
  ipo_quoting_period_update : Handler
  luld_auction_collar : Handler
  operational_halt : Handler
  add_order : Handler
  add_order_mpid : Handler
  order_modify : Handler
  order_executed_price : Handler
  order_cancel : Handler
  order_delete : Handler
  order_replace : Handler
  non_cross_trade : Handler
  cross_trade : Handler
  broken_trade : Handler
  noii : Handler
  rpii : Handler
  dlcr : Handler

-- A call through the table's pointer: `none` is the return of -1, which leaves the event alone.
-- F has the layout of A, and X that of E.
unfoldable pub call : Isa → Handler → List ℕ → Event → Option Event
unfolding handle_add_order handle_order_modify handle_order_executed_price handle_order_delete
    handle_order_replace
call isa system_event msg out = none
call isa stock_directory msg out = none
call isa stock_trading_action msg out = none
call isa reg_sho msg out = none
call isa mkt_participant_pos msg out = none
call isa mwcb_decline_level msg out = none
call isa mwcb_status msg out = none
call isa ipo_quoting_period_update msg out = none
call isa luld_auction_collar msg out = none
call isa operational_halt msg out = none
call isa add_order msg out = some (handle_add_order isa msg out)
call isa add_order_mpid msg out = some (handle_add_order isa msg out)
call isa order_modify msg out = some (handle_order_modify isa msg out)
call isa order_executed_price msg out = some (handle_order_executed_price isa msg out)
call isa order_cancel msg out = some (handle_order_modify isa msg out)
call isa order_delete msg out = some (handle_order_delete isa msg out)
call isa order_replace msg out = some (handle_order_replace isa msg out)
call isa non_cross_trade msg out = none
call isa cross_trade msg out = none
call isa broken_trade msg out = none
call isa noii msg out = none
call isa rpii msg out = none
call isa dlcr msg out = none

-- dispatch_table: the handler of a message type, if it has one.
unfoldable pub dispatch_table : ℕ → Option Handler
dispatch_table t =
    if t == b'S'
    then some system_event
    else if t == b'R'
    then some stock_directory
    else if t == b'H'
    then some stock_trading_action
    else if t == b'Y'
    then some reg_sho
    else if t == b'L'
    then some mkt_participant_pos
    else if t == b'V'
    then some mwcb_decline_level
    else if t == b'W'
    then some mwcb_status
    else if t == b'K'
    then some ipo_quoting_period_update
    else if t == b'J'
    then some luld_auction_collar
    else if t == b'h'
    then some operational_halt
    else if t == b'A'
    then some add_order
    else if t == b'F'
    then some add_order_mpid
    else if t == b'E'
    then some order_modify
    else if t == b'C'
    then some order_executed_price
    else if t == b'X'
    then some order_cancel
    else if t == b'D'
    then some order_delete
    else if t == b'U'
    then some order_replace
    else if t == b'P'
    then some non_cross_trade
    else if t == b'Q'
    then some cross_trade
    else if t == b'B'
    then some broken_trade
    else if t == b'I'
    then some noii
    else if t == b'N'
    then some rpii
    else if t == b'O'
    then some dlcr
    else none

-- The entry of the first byte, called: no event for a type without an entry.
unfoldable pub dispatch : Isa → List ℕ → Event → Option Event
unfolding call dispatch_table
dispatch isa msg out = elim (dispatch_table (byte msg 0)) [
  | none ↦ none
  | some h ↦ call isa h msg out
]
