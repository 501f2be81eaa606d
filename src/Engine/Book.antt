-- ===== src/Engine/Book.antt =====
-- ItchBookAdapter of include/hft/engine/itch_book_adapter.hpp: the book of a symbol from the events of
-- the feed. The order book is a library, whose calls are an argument, and so is the cast of shares to
-- its Quantity. That type is signed, as the code's test of a difference against 0 says.
pub mod Orders
pub mod Changes
mod Tests
use low_latency_trading_pipe.Base.{
  ℕ, ◌/◌, Bool, ◌&&◌, Option, none, some, ltb, ◌==◌, if◌then◌else◌, ℤ, ◌+ℤ◌, negate, is_above_zero,
}
use low_latency_trading_pipe.Engine.Risk.{Side, buy, sell}
use low_latency_trading_pipe.Engine.Table.{Table, find, insert, erase}
use low_latency_trading_pipe.Engine.Maker.{Top}

-- An AddCommand with its limit order.
pub record AddCommand : Type 0 where
  pub px : ℕ
  pub order_id : ℕ
  pub quantity : ℤ
  pub side : Side

-- The calls of the library, on a book `B` and handles `H` of its orders, the cast to its Quantity, and
-- its MAX_LEVEL. An order
-- that matches in full when it is added has no handle.
pub record Library (B H : Type 0) : Type 0 where
  pub process_add : AddCommand → B → Option H × B
  pub process_cancel : H → B → B
  pub get_side : B → H → Side
  pub get_price : B → H → ℕ
  pub to_quantity : ℕ → ℤ
  pub get_quantity : B → H → ℤ
  pub set_quantity : H → ℤ → B → B
  pub top : B → Top
  pub max_level : ℕ

pub record Adapter (B H : Type 0) : Type 0 where
  pub book : B
  pub live_orders : Table H

abbrev pub to_ticks : ℕ → ℕ
to_ticks itch_px = itch_px / 100

abbrev pub side_from_char : ℕ → Side
side_from_char c = if c == 0x42 then buy else sell

module _ {B H : Type 0} (lib : Library B H) where
  abbrev pub in_book_range : ℕ → Bool
  in_book_range px = ltb 0 px && ltb px lib.max_level

  -- The handle of a new order goes to the table; none says that the table's loop does not end.
  unfoldable pub remember : ℕ → Option H × B → Table H → Option (Adapter B H)
  remember ref (none, b) t = some (record { book = b; live_orders = t })
  remember ref (some h, b) t = elim (insert t ref h) [
    | none ↦ none
    | some t' ↦ some (record { book = b; live_orders = t' })
  ]

  -- The part that onAdd and onReplace share: an order in the range of the book is added.
  unfoldable pub add_order : ℕ → Side → ℕ → ℕ → Adapter B H → Option (Adapter B H)
  unfolding remember
  add_order ref side shares itch_px a =
      let px = to_ticks itch_px in
      let add : AddCommand = record {
        px = px;
        order_id = ref;
        quantity = lib.to_quantity shares;
        side = side;
      } in
      if in_book_range px then remember ref (lib.process_add add a.book) a.live_orders else some a

  unfoldable pub on_add : ℕ → ℕ → ℕ → ℕ → Adapter B H → Option (Adapter B H)
  unfolding add_order
  on_add ref buy_sell shares itch_px a = add_order ref (side_from_char buy_sell) shares itch_px a

  -- The order of a slot that was found, which has a handle.
  unfoldable pub erase_order : ℕ → Adapter B H → Adapter B H
  erase_order idx a = elim (a.live_orders idx).handle [
    | none ↦ a
    | some h ↦ record { book = lib.process_cancel h a.book; live_orders = erase a.live_orders idx }
  ]

  unfoldable pub decrement_or_erase : ℕ → ℤ → Adapter B H → Adapter B H
  unfolding erase_order
  decrement_or_erase idx delta a = elim (a.live_orders idx).handle [
    | none ↦ a
    | some h ↦
        let remaining = lib.get_quantity a.book h +ℤ negate delta in
        if is_above_zero remaining
        then record a { book = lib.set_quantity h remaining a.book }
        else erase_order idx a
  ]

  -- onCancelPartial, onExecute and onExecuteWithPrice, whose bodies are the same.
  unfoldable pub on_reduce : ℕ → ℕ → Adapter B H → Adapter B H
  unfolding decrement_or_erase
  on_reduce ref shares a = elim (find a.live_orders ref) [
    | none ↦ a
    | some idx ↦ decrement_or_erase idx (lib.to_quantity shares) a
  ]

  unfoldable pub on_delete : ℕ → Adapter B H → Adapter B H
  unfolding erase_order
  on_delete ref a = elim (find a.live_orders ref) [ none ↦ a | some idx ↦ erase_order idx a ]

  -- The side and the price of a live order.
  unfoldable pub peek : ℕ → Adapter B H → Option (Side × ℕ)
  peek ref a = elim (find a.live_orders ref) [
    | none ↦ none
    | some idx ↦ elim (a.live_orders idx).handle [
      | none ↦ none
      | some h ↦ some (lib.get_side a.book h, lib.get_price a.book h)
    ]
  ]

  -- A replacement keeps the side of the order that it replaces.
  unfoldable pub on_replace : ℕ → ℕ → ℕ → ℕ → Adapter B H → Option (Adapter B H)
  unfolding erase_order add_order
  on_replace old_ref new_ref shares itch_px a = elim (find a.live_orders old_ref) [
    | none ↦ some a
    | some idx ↦ elim (a.live_orders idx).handle [
      | none ↦ some a
      | some h ↦ add_order new_ref (lib.get_side a.book h) shares itch_px (erase_order idx a)
    ]
  ]
