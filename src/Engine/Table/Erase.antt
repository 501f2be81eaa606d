-- ===== src/Engine/Table/Erase.antt =====
-- erase of LiveOrderTable, against a finite map.
use low_latency_trading_pipe.Base.{
  ℕ, ◌≡◌, refl, sym, ap, subst, ◌∙◌, ◌≢◌, inl, inr, none, some, arith, ◌==◌, if◌then◌else◌,
  Bool-cases, Option-cases, update_ne,
}
use low_latency_trading_pipe.Engine.Table.{Slot, Table, erase, find, lookup, tombstone, empty_key}
use low_latency_trading_pipe.Engine.Table.Probe.{written_cases, probe, Holds, IsValid}
use low_latency_trading_pipe.Engine.Table.Find.{lookup-Holds, find-Holds, lookup_of_same}

module _ {ℓ} {H : Type ℓ} where
  abbrev erased : Slot H
  erased = record { key = tombstone; handle = none }

  -- What an erased table holds: what it held elsewhere.
  erase-Holds :
      (t : Table H) (idx i key : ℕ) (h : H)
      → Holds (erase t idx) i key h
      → (i ≢ idx) × Holds t i key h
  unfolding erase
  erase-Holds t idx i key h e = elim (written_cases t idx erased i) [
    | inl (p, w) ↦ absurd (cc (sym (ap (λ (s : Slot H). s.handle) w) ∙ e.1))
    | inr (p, w) ↦ (p, subst (λ (s : Slot H). (s.key ≡ key) × (s.handle ≡ some h)) w e)
  ]

  Holds-erase :
      (t : Table H) (idx i key : ℕ) (h : H)
      → i ≢ idx
      → Holds t i key h
      → Holds (erase t idx) i key h
  unfolding erase
  Holds-erase t idx i key h d e =
      subst (λ (s : Slot H). (s.key ≡ key) × (s.handle ≡ some h)) (sym (update_ne t idx i erased d))
        e

  -- No slot becomes empty.
  erase-nonempty :
      (t : Table H) (idx i : ℕ) → (t i).key ≢ empty_key → (erase t idx i).key ≢ empty_key
  unfolding erase
  erase-nonempty t idx i n z = elim (written_cases t idx erased i) [
    | inl (p, w) ↦ absurd (omega (arith, sym (ap (λ (s : Slot H). s.key) w) ∙ z))
    | inr (p, w) ↦ n (sym (ap (λ (s : Slot H). s.key) w) ∙ z)
  ]

  erase-IsValid : (t : Table H) (idx : ℕ) → IsValid t → IsValid (erase t idx)
  erase-IsValid t idx v = record {
    real = λ i h e.
        let before = erase-Holds t idx i (erase t idx i).key h (refl, e) in
        let r = v.real i h before.1.1 in (rw (← before.1.0) r.0, rw (← before.1.0) r.1);
    once = λ i j key h h' b b' e e'.
        v.once i j key h h' b b' (erase-Holds t idx i key h e).1 (erase-Holds t idx j key h' e').1;
    path = λ i key h b e d l.
        erase-nonempty t idx (probe key d) (v.path i key h b (erase-Holds t idx i key h e).1 d l);
  }

  erase-lookup_other :
      (t : Table H) (key idx q : ℕ)
      → IsValid t
      → find t key ≡ some idx
      → q ≢ key
      → lookup (erase t idx) q ≡ lookup t q
  erase-lookup_other t key idx q v f n =
      let found = find-Holds t key idx f in
      lookup_of_same t (erase t idx) q v (erase-IsValid t idx v)
        (λ i h b e. (
          i,
          b,
          Holds-erase t idx i q h (λ p. n (sym e.0 ∙ ap (λ x. (t x).key) p ∙ found.1.1.0)) e,
        ))
        (λ i h b e. (i, b, (erase-Holds t idx i q h e).1))

  erase-lookup_key :
      (t : Table H) (key idx : ℕ)
      → IsValid t
      → find t key ≡ some idx
      → lookup (erase t idx) key ≡ none
  erase-lookup_key t key idx v f = elim (Option-cases (lookup (erase t idx) key)) [
    | inl e ↦ e
    | inr (h, e) ↦
        let found = find-Holds t key idx f in
        let held = lookup-Holds (erase t idx) key h e in
        let before = erase-Holds t idx held.0 key h held.2 in
        absurd (before.0 (v.once held.0 idx key h found.1.0 held.1 found.0 before.1 found.1.1))
  ]

  -- In a valid table, erasing the slot that is found for a key makes the table valid without that key
  -- and with all others as they were.
  pub erase_refines :
      (t : Table H) (key idx : ℕ)
      → IsValid t
      → find t key ≡ some idx
      → IsValid (erase t idx)
        × ((q : ℕ) → lookup (erase t idx) q ≡ (if q == key then none else lookup t q))
  erase_refines t key idx v f = (
    erase-IsValid t idx v,
    λ q. elim (Bool-cases (q == key)) [
      | inl p ↦ let same : q ≡ key = ground arith in rw (p, same) (erase-lookup_key t key idx v f)
      | inr p ↦ rw p (erase-lookup_other t key idx q v f (ground arith))
    ],
  )
