-- ===== src/Engine/Table/Probe.antt =====
-- The order in which LiveOrderTable probes its slots, and what a valid table is.
use low_latency_trading_pipe.Base.{
  ℕ, ◌+◌, ◌-◌, ◌%◌, ◌<◌, ◌≡◌, refl, ◌≢◌, ◌⊎◌, inl, inr, some, arith, ◌==◌, Bool-cases, update,
}
use low_latency_trading_pipe.Engine.Table.{
  mask, slot_count, Table, no_order, start, empty_key, tombstone, Slot,
}

-- The slot after so many rounds, and the rounds to a slot.
abbrev pub probe : ℕ → ℕ → ℕ
probe key d = mask (start key + d)

abbrev pub distance : ℕ → ℕ → ℕ
distance key i = (i + slot_count - start key) % slot_count

pub probe-distance : (key i : ℕ) → i < slot_count → probe key (distance key i) ≡ i
probe-distance key i h = omega arith

pub distance-probe : (key d : ℕ) → d < slot_count → distance key (probe key d) ≡ d
distance-probe key d h = omega arith

module _ {ℓ} {H : Type ℓ} where
  -- The slot holds this handle for this key.
  abbrev pub Holds : Table H → ℕ → ℕ → H → Type ℓ
  Holds t i key h = ((t i).key ≡ key) × ((t i).handle ≡ some h)

  -- An order is stored once, under a key that is neither of the special ones, and no slot that is
  -- probed before its own is empty.
  pub record IsValid (t : Table H) : Type ℓ where
    pub real :
        (i : ℕ) (h : H) → (t i).handle ≡ some h → ((t i).key ≢ empty_key) × ((t i).key ≢ tombstone)
    pub once :
        (i j key : ℕ) (h h' : H)
        → i < slot_count
        → j < slot_count
        → Holds t i key h
        → Holds t j key h'
        → i ≡ j
    pub path :
        (i key : ℕ) (h : H)
        → i < slot_count
        → Holds t i key h
        → (d : ℕ) → d < distance key i
        → (t (probe key d)).key ≢ empty_key

  pub no_order-IsValid : IsValid no_order
  no_order-IsValid = record {
    real = λ i h e. absurd (cc e);
    once = λ i j key h h' g g' e e'. absurd (cc e.1);
    path = λ i key h g e d l. absurd (cc e.1);
  }

  -- A slot of a table in which one was written.
  pub written_cases :
      (t : Table H) (idx : ℕ) (s : Slot H) (i : ℕ)
      → ((i ≡ idx) × (update t idx s i ≡ s)) ⊎ ((i ≢ idx) × (update t idx s i ≡ t i))
  written_cases t idx s i = elim (Bool-cases (i == idx)) [
    | inl p ↦ inl (ground arith, rw p refl)
    | inr p ↦ inr (ground arith, rw p refl)
  ]
