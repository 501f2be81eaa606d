-- ===== src/Engine/Table.antt =====
-- LiveOrderTable of include/hft/engine/itch_book_adapter.hpp: a hash table from order references to
-- handles with open addressing. The table has the size that every book of the dispatcher gives it,
-- twice kPoolPerBook; `&` with its mask is the remainder.
pub mod Probe
pub mod Find
pub mod Insert
pub mod Store
pub mod Erase
mod Tests
use Prim.Native.Nat.{bit_xor}
use low_latency_trading_pipe.Base.{
  ℕ, zero, suc, ◌+◌, ◌-◌, ◌*◌, ◌/◌, ◌%◌, ◌^◌, Bool, true, false, ◌&&◌, ◌||◌, Option, none, some,
  ltb, ◌==◌, if◌then◌else◌, update, u64,
}

-- kPoolPerBook of apps/engine/dispatcher.cpp, doubled
abbrev pub slot_count : ℕ
slot_count = 2 * 2 ^ 18

-- The rounding in the constructor, for as many doublings.
unfoldable pub round_up : ℕ → ℕ → ℕ → ℕ
round_up zero n cap = n
round_up (suc fuel) n cap = let rest = round_up fuel (2 * n) cap in if ltb n cap then rest else n

abbrev pub empty_key : ℕ
empty_key = 0

abbrev pub tombstone : ℕ
tombstone = 2 ^ 64 - 2

abbrev pub mask : ℕ → ℕ
mask i = i % slot_count

-- splitmix64
unfoldable pub hash : ℕ → ℕ
hash k =
    let a = u64 (bit_xor k (k / 2 ^ 30) * 0xbf58476d1ce4e5b9) in
    let b = u64 (bit_xor a (a / 2 ^ 27) * 0x94d049bb133111eb) in bit_xor b (b / 2 ^ 31)

abbrev pub start : ℕ → ℕ
start key = mask (hash key)

-- A handle is a pointer, or none.
pub record Slot {ℓ} (H : Type ℓ) : Type ℓ where
  pub key : ℕ
  pub handle : Option H

abbrev pub Table {ℓ} : Type ℓ → Type ℓ
Table H = ℕ → Slot H

module _ {ℓ} {H : Type ℓ} where
  abbrev pub no_order : Table H
  no_order i = record { key = empty_key; handle = none }

  abbrev pub is_some : Option H → Bool
  is_some none = false
  is_some (some h) = true

  -- The test for the key that is sought.
  abbrev pub hit : ℕ → Slot H → Bool
  hit key s = s.key == key && is_some s.handle

  -- The loop of find, for as many rounds.
  unfoldable pub find_from : ℕ → Table H → ℕ → ℕ → Option ℕ
  find_from zero t key i = none
  find_from (suc rounds) t key i =
      let rest = find_from rounds t key (mask (i + 1)) in
      if hit key (t i) then some i else if (t i).key == empty_key then none else rest

  unfoldable pub find : Table H → ℕ → Option ℕ
  unfolding find_from
  find t key = find_from slot_count t key (start key)

  abbrev pub takes : ℕ → Slot H → Bool
  takes key s = s.key == empty_key || (s.key == tombstone || s.key == key)

  -- The loop of insert has no bound: none says that the rounds were not enough.
  unfoldable pub insert_from : ℕ → Table H → ℕ → H → ℕ → Option (Table H)
  insert_from zero t key h i = none
  insert_from (suc rounds) t key h i =
      let rest = insert_from rounds t key h (mask (i + 1)) in
      if takes key (t i) then some (update t i (record { key = key; handle = some h })) else rest

  unfoldable pub insert : Table H → ℕ → H → Option (Table H)
  unfolding insert_from
  insert t key h = insert_from slot_count t key h (start key)

  unfoldable pub erase : Table H → ℕ → Table H
  erase t idx = update t idx (record { key = tombstone; handle = none })

  -- The handle under a key.
  unfoldable pub lookup : Table H → ℕ → Option H
  unfolding find
  lookup t key = elim (find t key) [ none ↦ none | some i ↦ (t i).handle ]
