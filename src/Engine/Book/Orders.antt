-- ===== src/Engine/Book/Orders.antt =====
-- The live orders of include/hft/engine/itch_book_adapter.hpp, against a map from references to handles.
use low_latency_trading_pipe.Base.{
  ℕ, ◌<◌, ◌≡◌, refl, sym, ◌∙◌, ◌≢◌, inl, inr, Bool, true, Option, none, some, arith, ◌==◌,
  if◌then◌else◌, Bool-cases, Option-cases, ◌+ℤ◌, negate, is_above_zero,
}
use low_latency_trading_pipe.Engine.Risk.{Side}
use low_latency_trading_pipe.Engine.Table.{
  Table, slot_count, takes, tombstone, empty_key, find, lookup, erase,
}
use low_latency_trading_pipe.Engine.Table.Probe.{IsValid}
use low_latency_trading_pipe.Engine.Table.Find.{find-Holds, find-lookup, find-none}
use low_latency_trading_pipe.Engine.Table.Erase.{erase_refines}
use low_latency_trading_pipe.Engine.Table.Store.{IsFresh, insert_refines, insert_total}
use low_latency_trading_pipe.Engine.Book.{
  AddCommand, Library, Adapter, to_ticks, in_book_range, remember, add_order, erase_order,
  decrement_or_erase, on_reduce, on_delete,
}

-- A map with one key changed.
unfoldable pub with_key {ℓ} : {A : Type ℓ} → ℕ → A → (ℕ → A) → ℕ → A
with_key ref x m q = if q == ref then x else m q

module _ {B H : Type 0} (lib : Library B H) where
  -- The table of an adapter is valid, and holds what the map says.
  pub record Tracks (a : Adapter B H) (m : ℕ → Option H) : Type 0 where
    pub valid : IsValid a.live_orders
    pub holds : (q : ℕ) → lookup a.live_orders q ≡ m q

  -- The handle that adding an order brings to the table.
  unfoldable pub added : ℕ → Side → ℕ → ℕ → B → Option H
  added ref side shares itch_px b =
      let px = to_ticks itch_px in
      let add : AddCommand = record {
        px = px;
        order_id = ref;
        quantity = lib.to_quantity shares;
        side = side;
      } in
      if in_book_range lib px then (lib.process_add add b).0 else none

  remember-Tracks :
      (ref i : ℕ) (r : Option H × B) (t : Table H) (m : ℕ → Option H)
      → IsValid t
      → ((q : ℕ) → lookup t q ≡ m q)
      → IsFresh t ref
      → i < slot_count
      → takes ref (t i) ≡ true
      → (a : Adapter B H) × (remember lib ref r t ≡ some a) × Tracks a (with_key ref r.0 m)
  unfolding remember with_key
  remember-Tracks ref i (none, b) t m v l f g k = (
    record { book = b; live_orders = t },
    refl,
    record {
      valid = v;
      holds = λ q. elim (Bool-cases (q == ref)) [
        | inl e ↦ let same : q ≡ ref = ground arith in rw (e, same) f.absent
        | inr e ↦ rw e (l q)
      ];
    },
  )
  remember-Tracks ref i (some h, b) t m v l f g k =
      let (t', e) = insert_total t ref i h g k in
      let (v', l') = insert_refines t t' ref h v f e in
      (
        record { book = b; live_orders = t' },
        rw (remember, e) refl,
        record {
          valid = v';
          holds = λ q. elim (Bool-cases (q == ref)) [
            | inl p ↦ l' q ∙ rw p refl
            | inr p ↦ l' q ∙ rw p (l q)
          ];
        },
      )

  -- A reference that is not tracked may be added.
  unfoldable pub IsNew : ℕ → (ℕ → Option H) → Type 0
  IsNew ref m = (ref ≢ empty_key) × (ref ≢ tombstone) × (m ref ≡ none)

  pub add_order-Tracks :
      (ref i : ℕ) (side : Side) (shares itch_px : ℕ) (a : Adapter B H) (m : ℕ → Option H)
      → Tracks a m
      → IsNew ref m
      → i < slot_count
      → takes ref (a.live_orders i) ≡ true
      → (a' : Adapter B H) × (add_order lib ref side shares itch_px a ≡ some a')
        × Tracks a' (with_key ref (added ref side shares itch_px a.book) m)
  unfolding add_order added IsNew
  add_order-Tracks ref i side shares itch_px a m t n g k =
      let px = to_ticks itch_px in
      let add : AddCommand = record {
        px = px;
        order_id = ref;
        quantity = lib.to_quantity shares;
        side = side;
      } in
      let f : IsFresh a.live_orders ref = record {
        nonempty = n.0;
        no_tombstone = n.1;
        absent = t.holds ref ∙ n.2;
      } in
      elim (Bool-cases (in_book_range lib px)) [
        | inl e ↦ rw e (
            remember-Tracks ref i (lib.process_add add a.book) a.live_orders m t.valid t.holds f g
              k)
        | inr e ↦ rw e (remember-Tracks ref i (none, a.book) a.live_orders m t.valid t.holds f g k)
      ]

  -- A key that is not tracked may be left out.
  drop_untracked :
      (ref : ℕ) (a : Adapter B H) (m : ℕ → Option H)
      → Tracks a m
      → find a.live_orders ref ≡ none
      → Tracks a (with_key ref none m)
  unfolding with_key
  drop_untracked ref a m t e = record {
    valid = t.valid;
    holds = λ q. elim (Bool-cases (q == ref)) [
      | inl p ↦ let same : q ≡ ref = ground arith in rw (p, same) (find-none a.live_orders ref e)
      | inr p ↦ rw p (t.holds q)
    ];
  }

  pub erase_order-Tracks :
      (ref idx : ℕ) (h : H) (a : Adapter B H) (m : ℕ → Option H)
      → Tracks a m
      → find a.live_orders ref ≡ some idx
      → (a.live_orders idx).handle ≡ some h
      → Tracks (erase_order lib idx a) (with_key ref none m)
        × ((erase_order lib idx a).live_orders ≡ erase a.live_orders idx)
        × ((erase_order lib idx a).book ≡ lib.process_cancel h a.book)
  unfolding erase_order with_key
  erase_order-Tracks ref idx h a m t e g =
      let (v, l) = erase_refines a.live_orders ref idx t.valid e in
      rw (g, erase_order)
        (
          record {
            valid = v;
            holds = λ q.
                l q ∙ elim (Bool-cases (q == ref)) [ inl p ↦ rw p refl | inr p ↦ rw p (t.holds q) ];
          },
          refl,
          refl,
        )

  -- A slot that is found has a handle.
  pub found_handle :
      (ref idx : ℕ) (a : Adapter B H)
      → find a.live_orders ref ≡ some idx
      → (h : H) × ((a.live_orders idx).handle ≡ some h)
  found_handle ref idx a e = let g = find-Holds a.live_orders ref idx e in (g.1.0, g.1.1.1)

  -- After a deletion the reference is no longer tracked, and all others are as before.
  pub on_delete-Tracks :
      (ref : ℕ) (a : Adapter B H) (m : ℕ → Option H)
      → Tracks a m
      → Tracks (on_delete lib ref a) (with_key ref none m)
  unfolding on_delete
  on_delete-Tracks ref a m t = elim (Option-cases (find a.live_orders ref)) [
    | inl e ↦ rw (e, on_delete) (drop_untracked ref a m t e)
    | inr (idx, e) ↦
        let (h, g) = found_handle ref idx a e in
        rw (e, on_delete) (erase_order-Tracks ref idx h a m t e g).0
  ]

  -- Whether a reduction leaves shares of the order that is tracked under a reference.
  unfoldable pub remains : ℕ → ℕ → Adapter B H → (ℕ → Option H) → Bool
  remains ref shares a m = elim (m ref) [
    | none ↦ true
    | some h ↦ is_above_zero (lib.get_quantity a.book h +ℤ negate (lib.to_quantity shares))
  ]

  -- A reduction keeps the order if shares remain of it, and otherwise it is no longer tracked.
  pub on_reduce-Tracks :
      (ref shares : ℕ) (a : Adapter B H) (m : ℕ → Option H)
      → Tracks a m
      → Tracks
          (on_reduce lib ref shares a)
          (if remains ref shares a m then m else with_key ref none m)
  unfolding on_reduce decrement_or_erase remains
  on_reduce-Tracks ref shares a m t = elim (Option-cases (find a.live_orders ref)) [
    | inl e ↦
        let untracked : m ref ≡ none = sym (t.holds ref) ∙ find-none a.live_orders ref e in
        rw (e, on_reduce, untracked, remains) t
    | inr (idx, e) ↦
        let (h, g) = found_handle ref idx a e in
        let tracked : m ref ≡ some h =
          sym (t.holds ref) ∙ find-lookup a.live_orders ref idx e ∙ g in
        elim (Bool-cases
          (is_above_zero (lib.get_quantity a.book h +ℤ negate (lib.to_quantity shares)))) [
            | inl p ↦
                rw (e, on_reduce, g, decrement_or_erase, tracked, remains, p)
                  (record { valid = t.valid; holds = t.holds })
            | inr p ↦
                rw (e, on_reduce, g, decrement_or_erase, tracked, remains, p)
                  (erase_order-Tracks ref idx h a m t e g).0
          ]
  ]
