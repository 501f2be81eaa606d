-- ===== src/Engine/Book/Changes.antt =====
-- Adding and replacing orders in include/hft/engine/itch_book_adapter.hpp.
use low_latency_trading_pipe.Base.{
  ℕ, ◌<◌, ◌≡◌, refl, sym, ap, subst, ◌∙◌, inl, inr, true, Option, none, some, ==_refl, Option-cases,
  some_inj,
}
use low_latency_trading_pipe.Engine.Table.{Table, slot_count, takes, find, erase}
use low_latency_trading_pipe.Engine.Table.Find.{find-Holds, find-lookup, find-none}
use low_latency_trading_pipe.Engine.Book.{
  Library, Adapter, erase_order, on_add, on_replace, side_from_char,
}
use low_latency_trading_pipe.Engine.Book.Orders.{
  with_key, Tracks, added, IsNew, add_order-Tracks, erase_order-Tracks, found_handle,
}

-- An erased slot takes any key.
erase-takes {ℓ} : {H : Type ℓ} (t : Table H) (idx key : ℕ) → takes key (erase t idx idx) ≡ true
unfolding erase
erase-takes t idx key = rw (==_refl idx) refl

module _ {B H : Type 0} (lib : Library B H) where
  -- If the reference is new and some slot of the table is free, then adding an order comes to an end,
  -- and the reference is tracked with the handle that the book gave, if the price is in its range; all
  -- others are as before.
  pub on_add-Tracks :
      (ref i buy_sell shares itch_px : ℕ) (a : Adapter B H) (m : ℕ → Option H)
      → Tracks lib a m
      → IsNew lib ref m
      → i < slot_count
      → takes ref (a.live_orders i) ≡ true
      → (a' : Adapter B H) × (on_add lib ref buy_sell shares itch_px a ≡ some a')
        × Tracks lib a'
            (with_key ref (added lib ref (side_from_char buy_sell) shares itch_px a.book) m)
  unfolding on_add
  on_add-Tracks ref i buy_sell shares itch_px a m t n g k =
      add_order-Tracks lib ref i (side_from_char buy_sell) shares itch_px a m t n g k

  -- If the old reference is tracked and the new one is new, or is the old one, then a replacement
  -- comes to an end: the old one is no longer tracked, and all others are as before. The new one is
  -- tracked with the handle that the book gives for an order on the same side, or not tracked where the
  -- price is out of range or the book keeps no order.
  pub on_replace-Tracks :
      (old_ref new_ref shares itch_px : ℕ) (h : H) (a : Adapter B H) (m : ℕ → Option H)
      → Tracks lib a m
      → m old_ref ≡ some h
      → IsNew lib new_ref (with_key old_ref none m)
      → (a' : Adapter B H) × (on_replace lib old_ref new_ref shares itch_px a ≡ some a')
        × Tracks lib a' (
            with_key new_ref
              (added lib new_ref
                (lib.get_side a.book h)
                shares
                itch_px
                (lib.process_cancel h a.book))
              (with_key old_ref none m))
  unfolding on_replace
  on_replace-Tracks old_ref new_ref shares itch_px h a m t e n =
      elim (Option-cases (find a.live_orders old_ref)) [
        | inl f ↦
            let gone = sym (find-none a.live_orders old_ref f) ∙ t.holds old_ref ∙ e in
            absurd (cc gone)
        | inr (idx, f) ↦
            let (h', g) = found_handle lib old_ref idx a f in
            let same : h' ≡ h =
              some_inj
                (sym g ∙ sym (find-lookup a.live_orders old_ref idx f) ∙ t.holds old_ref ∙ e) in
            let g' : (a.live_orders idx).handle ≡ some h = g ∙ ap some same in
            let (t', l, b) = erase_order-Tracks lib old_ref idx h a m t f g' in
            let free : takes new_ref ((erase_order lib idx a).live_orders idx) ≡ true =
              subst (λ (x : Table H). takes new_ref (x idx) ≡ true) (sym l)
                (erase-takes a.live_orders idx new_ref) in
            let (a', r, done) =
              add_order-Tracks lib new_ref idx (lib.get_side a.book h) shares itch_px
                (erase_order lib idx a) (with_key old_ref none m) t' n
                (find-Holds a.live_orders old_ref idx f).0 free in
            (
              a',
              rw (f, on_replace, g') r,
              subst
                  (λ x. Tracks lib a' (
                    with_key new_ref (added lib new_ref (lib.get_side a.book h) shares itch_px x)
                      (with_key old_ref none m)))
                  b done,
            )
      ]
