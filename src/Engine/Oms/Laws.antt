-- ===== src/Engine/Oms/Laws.antt =====
-- What engine_submit_quote of apps/engine/dispatcher.cpp lets onto the ring.
use low_latency_trading_pipe.Base.{
  ℕ, ◌+◌, ◌≤◌, ◌<◌, ◌≡◌, refl, inl, inr, [], ◌∷◌, ◌++◌, arith, leb, Bool-cases, u64,
}
use low_latency_trading_pipe.Ring.{size}
use low_latency_trading_pipe.Ring.Queue.{contents, used, IsValid, publish_room, publish-IsValid}
use low_latency_trading_pipe.OrderSender.{Order}
use low_latency_trading_pipe.Engine.Risk.{Side}
use low_latency_trading_pipe.Engine.Oms.{Oms, submit, filled_slot}

-- On a valid ring an order with room gets the counter's id and stands last on the ring with its
-- fields; a full ring refuses it with 0 and nothing is changed.
pub record IsSubmitted (o : Oms) (x : Order) (r : ℕ × Oms) : Type 0 where
  pub valid : IsValid r.1.ring
  pub placed :
      used o.ring < size
      → (r.0 ≡ o.next_order_id)
        × (contents r.1.ring ≡ contents o.ring ++ (x ∷ []))
        × (r.1.next_order_id ≡ u64 (o.next_order_id + 1))
  pub refused : size ≤ used o.ring → r ≡ (0, o)

pub submit-IsSubmitted :
    (stock_locate : ℕ) (side : Side) (price qty parse_ns : ℕ) (o : Oms)
    → IsValid o.ring
    → IsSubmitted o
        (filled_slot o stock_locate side price qty parse_ns)
        (submit stock_locate side price qty parse_ns o)
unfolding submit used
submit-IsSubmitted stock_locate side price qty parse_ns o v =
    let x = filled_slot o stock_locate side price qty parse_ns in
    elim (Bool-cases (leb size (used o.ring))) [
      | inl full ↦
          rw full (record { valid = v; placed = λ h. absurd (ground arith); refused = λ h. refl })
      | inr room ↦ rw room (record {
        valid = publish-IsValid o.ring x v;
        placed = λ h. (refl, (publish_room o.ring x v h).1, refl);
        refused = λ h. absurd (ground arith);
      })
    ]
