-- ===== src/Itch/Agree.antt =====
-- The two compiled forms of the handlers of src/itch/itch_handler.c against each other.
use low_latency_trading_pipe.Base.{ℕ, ◌≡◌, refl, Option, none, some, List, arith, byte}
use low_latency_trading_pipe.Itch.{
  sse41, scalar, Handler, Event, call, dispatch, dispatch_table, system_event, stock_directory,
  stock_trading_action, reg_sho, mkt_participant_pos, mwcb_decline_level, mwcb_status,
  ipo_quoting_period_update, luld_auction_collar, operational_halt, add_order, add_order_mpid,
  order_modify, order_executed_price, order_cancel, order_delete, order_replace, non_cross_trade,
  cross_trade, broken_trade, noii, rpii, dlcr,
}

-- Every handler has the same outcome in both compiled forms.
call_agrees :
    (h : Handler) (msg : List ℕ) (out : Event) → call sse41 h msg out ≡ call scalar h msg out
unfolding call
call_agrees system_event msg out = refl
call_agrees stock_directory msg out = refl
call_agrees stock_trading_action msg out = refl
call_agrees reg_sho msg out = refl
call_agrees mkt_participant_pos msg out = refl
call_agrees mwcb_decline_level msg out = refl
call_agrees mwcb_status msg out = refl
call_agrees ipo_quoting_period_update msg out = refl
call_agrees luld_auction_collar msg out = refl
call_agrees operational_halt msg out = refl
call_agrees add_order msg out = ground arith
call_agrees add_order_mpid msg out = ground arith
call_agrees order_modify msg out = ground arith
call_agrees order_executed_price msg out = ground arith
call_agrees order_cancel msg out = ground arith
call_agrees order_delete msg out = ground arith
call_agrees order_replace msg out = ground arith
call_agrees non_cross_trade msg out = refl
call_agrees cross_trade msg out = refl
call_agrees broken_trade msg out = refl
call_agrees noii msg out = refl
call_agrees rpii msg out = refl
call_agrees dlcr msg out = refl

-- Dispatching any message gives the same event, or none, in both compiled forms.
pub dispatch_agrees :
    (msg : List ℕ) (out : Event) → dispatch sse41 msg out ≡ dispatch scalar msg out
unfolding dispatch
dispatch_agrees msg out = go (dispatch_table (byte msg 0))
  where
    go :
        (o : Option Handler)
        → (elim o [ none ↦ none | some h ↦ call sse41 h msg out ])
          ≡ (elim o [ none ↦ none | some h ↦ call scalar h msg out ])
    go none = refl
    go (some h) = call_agrees h msg out
