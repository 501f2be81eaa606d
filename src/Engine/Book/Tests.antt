-- ===== src/Engine/Book/Tests.antt =====
-- Tests of the table of live orders and of the book on it: one order, which is replaced.
use low_latency_trading_pipe.Base.{
  ℕ, ◌+◌, ◌≡◌, refl, ap, ◌∙◌, inl, inr, Option, none, some, arith, ◌==◌, if◌then◌else◌,
  Option-cases, update, pos,
}
use low_latency_trading_pipe.Engine.Risk.{buy, int32}
use low_latency_trading_pipe.Engine.Table.{
  Table, find, find_from, hash, insert, insert_from, lookup, no_order, start,
}
use low_latency_trading_pipe.Engine.Table.Probe.{IsValid, no_order-IsValid}
use low_latency_trading_pipe.Engine.Table.Find.{lookup-Holds}
use low_latency_trading_pipe.Engine.Table.Store.{IsFresh, insert_refines, insert_total}
use low_latency_trading_pipe.Engine.Book.{Adapter, Library, on_replace}
use low_latency_trading_pipe.Engine.Book.Orders.{IsNew, Tracks, added, with_key}
use low_latency_trading_pipe.Engine.Book.Changes.{on_replace-Tracks}

abbrev test_table : Table ℕ
test_table = update no_order (start 7) (record { key = 7; handle = some 1 })

abbrev empty_table : Table ℕ
empty_table = no_order

abbrev nothing : ℕ → Option ℕ
nothing q = none

empty_lookup : (q : ℕ) → lookup empty_table q ≡ nothing q
empty_lookup q = elim (Option-cases (lookup empty_table q)) [
  | inl e ↦ e
  | inr (h, e) ↦ let held = lookup-Holds empty_table q h e in absurd (cc held.2.1)
]

seven-IsFresh : IsFresh empty_table 7
seven-IsFresh = record {
  nonempty = λ e. absurd (omega (arith, e));
  no_tombstone = λ e. absurd (omega (arith, e));
  absent = empty_lookup 7;
}

seven_inserted : insert empty_table 7 1 ≡ some test_table
unfolding insert insert_from hash
seven_inserted = refl

seven_found : find test_table 7 ≡ some (start 7)
unfolding find find_from hash
seven_found = refl

insert_refines_example :
    IsValid test_table
    × ((q : ℕ) → lookup test_table q ≡ (if q == 7 then some 1 else lookup empty_table q))
insert_refines_example =
    insert_refines empty_table test_table 7 1 no_order-IsValid seven-IsFresh seven_inserted

insert_total_example : (t : Table ℕ) × (insert empty_table 7 1 ≡ some t)
insert_total_example = insert_total empty_table 7 0 1 (omega arith) refl

test_table-IsValid : IsValid test_table
test_table-IsValid =
    (insert_refines empty_table test_table 7 1 no_order-IsValid seven-IsFresh seven_inserted).0

-- A book that is only a number, whose orders all are bids for 300 shares.
abbrev test_library : Library ℕ ℕ
test_library = record {
  process_add = λ add b. (some (b + 1), b + 1);
  process_cancel = λ h b. b;
  get_side = λ b h. buy;
  get_price = λ b h. 9_999;
  to_quantity = int32;
  get_quantity = λ b h. pos 300;
  set_quantity = λ h n b. b;
  top = λ b. record { bid = none; ask = none };
  max_level = 100_000;
}

abbrev test_adapter : Adapter ℕ ℕ
test_adapter = record { book = 1; live_orders = test_table }

abbrev test_map : ℕ → Option ℕ
test_map = with_key 7 (some 1) nothing

test_adapter-Tracks : Tracks test_library test_adapter test_map
unfolding with_key
test_adapter-Tracks =
    let r =
      insert_refines empty_table test_table 7 1 no_order-IsValid seven-IsFresh seven_inserted in
    record {
      valid = r.0;
      holds = λ q. r.1 q ∙ ap (λ x. if q == 7 then some 1 else x) (empty_lookup q);
    }

on_replace-Tracks_example :
    (a : Adapter ℕ ℕ) × (on_replace test_library 7 8 200 999_900 test_adapter ≡ some a)
    × Tracks test_library a
        (with_key 8 (added test_library 8 buy 200 999_900 1) (with_key 7 none test_map))
unfolding IsNew with_key
on_replace-Tracks_example =
    on_replace-Tracks test_library 7 8 200 999_900 1 test_adapter test_map test_adapter-Tracks refl
      ((λ e. absurd (omega (arith, e))), (λ e. absurd (omega (arith, e))), refl)
