-- ===== src/Engine/Table/Store.antt =====
-- insert of LiveOrderTable, against a finite map.
use low_latency_trading_pipe.Base.{
  ℕ, ◌≤◌, ◌<◌, ◌≡◌, refl, sym, ap, ap₂, subst, ◌∙◌, ◌≢◌, ◌⊎◌, inl, inr, true, false, none, some,
  arith, ◌==◌, if◌then◌else◌, Bool-cases, some_inj, update, update_self,
}
use low_latency_trading_pipe.Engine.Table.{
  Slot, Table, takes, insert_from, insert, lookup, start, slot_count, tombstone, empty_key,
}
use low_latency_trading_pipe.Engine.Table.Probe.{
  probe, distance, Holds, IsValid, written_cases, probe-distance, distance-probe,
}
use low_latency_trading_pipe.Engine.Table.Find.{Holds-lookup, lookup_of_same}
use low_latency_trading_pipe.Engine.Table.Insert.{stored, insert_from-IsWritten, insert_from_total}

module _ {ℓ} {H : Type ℓ} where
  -- A key that may be inserted: neither of the special ones, and not in the table.
  pub record IsFresh (t : Table H) (key : ℕ) : Type ℓ where
    pub nonempty : key ≢ empty_key
    pub no_tombstone : key ≢ tombstone
    pub absent : lookup t key ≡ none

  fresh-Holds :
      (t : Table H) (key i : ℕ) (h : H)
      → IsValid t
      → IsFresh t key
      → i < slot_count
      → Holds t i key h
      → 1 ≤ 0
  fresh-Holds t key i h v f b e = absurd (cc (sym f.absent ∙ (Holds-lookup t key i h v b e).1))

  module _ (t : Table H) (key : ℕ) (h : H) (idx : ℕ) (v : IsValid t) (f : IsFresh t key) where
    abbrev after : Table H
    after = update t idx (stored key h)

    -- A handle of the new table is the new one, or was there.
    after-Holds :
        (i k : ℕ) (h' : H)
        → Holds after i k h'
        → ((i ≡ idx) × (key ≡ k) × (h ≡ h')) ⊎ ((i ≢ idx) × Holds t i k h')
    after-Holds i k h' e = elim (written_cases t idx (stored key h) i) [
      | inl (p, w) ↦
          let e' = subst (λ (s : Slot H). (s.key ≡ k) × (s.handle ≡ some h')) w e in
          inl (p, e'.0, some_inj e'.1)
      | inr (p, w) ↦ inr (p, subst (λ (s : Slot H). (s.key ≡ k) × (s.handle ≡ some h')) w e)
    ]

    -- A slot that took the key held no handle.
    takes-Holds :
        (i k : ℕ) (h' : H) → i < slot_count → takes key (t i) ≡ true → Holds t i k h' → 1 ≤ 0
    takes-Holds i k h' b p e =
        let r = v.real i h' e.1 in
        let same : (t i).key ≡ key = ground (arith, r.0, r.1) in
        fresh-Holds t key i h' v f b (same, e.1)

    Holds-after :
        (i k : ℕ) (h' : H)
        → i < slot_count
        → takes key (t idx) ≡ true
        → Holds t i k h'
        → Holds after i k h'
    Holds-after i k h' b p e = elim (written_cases t idx (stored key h) i) [
      | inl (q, w) ↦
          absurd
            (omega (arith, takes-Holds i k h' b (subst (λ x. takes key (t x) ≡ true) (sym q) p) e))
      | inr (q, w) ↦ subst (λ (s : Slot H). (s.key ≡ k) × (s.handle ≡ some h')) (sym w) e
    ]

    after-nonempty : (i : ℕ) → (t i).key ≢ empty_key → (after i).key ≢ empty_key
    after-nonempty i n z = elim (written_cases t idx (stored key h) i) [
      | inl (p, w) ↦ f.nonempty (sym (ap (λ (s : Slot H). s.key) w) ∙ z)
      | inr (p, w) ↦ n (sym (ap (λ (s : Slot H). s.key) w) ∙ z)
    ]

    after-IsValid :
        (d : ℕ)
        → d < slot_count
        → idx ≡ probe key d
        → ((e : ℕ) → e < d → takes key (t (probe key e)) ≡ false)
        → IsValid after
    after-IsValid d l at passed = record {
      real = λ i h' e. elim (after-Holds i (after i).key h' (refl, e)) [
        | inl (p, k, q) ↦ (rw (← k) f.nonempty, rw (← k) f.no_tombstone)
        | inr (p, e') ↦ let r = v.real i h' e'.1 in (rw (← e'.0) r.0, rw (← e'.0) r.1)
      ];
      once = after_once;
      path = after_path;
    }
      where
        after_once :
            (i j k : ℕ) (h' h'' : H)
            → i < slot_count
            → j < slot_count
            → Holds after i k h'
            → Holds after j k h''
            → i ≡ j
        after_once i j k h' h'' b b' e e' = elim (after-Holds i k h' e) [
          | inl (p, q, _) ↦ elim (after-Holds j k h'' e') [
            | inl (p', _, _) ↦ p ∙ sym p'
            | inr (_, r') ↦
                absurd (omega (arith, fresh-Holds t key j h'' v f b' (r'.0 ∙ sym q, r'.1)))
          ]
          | inr (_, r) ↦ elim (after-Holds j k h'' e') [
            | inl (p', q', _) ↦
                absurd (omega (arith, fresh-Holds t key i h' v f b (r.0 ∙ sym q', r.1)))
            | inr (_, r') ↦ v.once i j k h' h'' b b' r r'
          ]
        ]

        after_path :
            (i k : ℕ) (h' : H)
            → i < slot_count
            → Holds after i k h'
            → (e : ℕ) → e < distance k i
            → (after (probe k e)).key ≢ empty_key
        after_path i k h' b o e g = elim (after-Holds i k h' o) [
          | inl (p, q, _) ↦
              let far : distance k i ≡ d = ap₂ distance (sym q) (p ∙ at) ∙ distance-probe key d l in
              let past = passed e (omega (arith, g, far)) in
              subst (λ x. (after (probe x e)).key ≢ empty_key) q
                (after-nonempty (probe key e) (ground (arith, past)))
          | inr (_, r) ↦ after-nonempty (probe k e) (v.path i k h' b r e g)
        ]

    after-lookup :
        takes key (t idx) ≡ true
        → idx < slot_count
        → IsValid after
        → (q : ℕ) → lookup after q ≡ (if q == key then some h else lookup t q)
    after-lookup p b v' q = elim (Bool-cases (q == key)) [
      | inl e ↦
          let same : key ≡ q = ground arith in
          let w = update_self t idx idx (stored key h) refl in
          let held : Holds after idx q h =
            subst (λ (s : Slot H). (s.key ≡ q) × (s.handle ≡ some h)) (sym w) (same, refl) in
          rw e (Holds-lookup after q idx h v' b held).1
      | inr e ↦ rw e (
          lookup_of_same t after q v v' (λ i h' b' o. (i, b', Holds-after i q h' b' p o))
            λ i h' b' o. elim (after-Holds i q h' o) [
              | inl (_, k, _) ↦ absurd (ground arith)
              | inr (_, o') ↦ (i, b', o')
            ])
    ]

  insert_eq :
      (t : Table H) (key : ℕ) (h : H) → insert t key h ≡ insert_from slot_count t key h (start key)
  unfolding insert
  insert_eq t key h = refl

  -- If inserting a fresh key into a valid table comes to an end, then the table is valid with the handle
  -- under that key, and with all other keys as they were.
  pub insert_refines :
      (t t' : Table H) (key : ℕ) (h : H)
      → IsValid t
      → IsFresh t key
      → insert t key h ≡ some t'
      → IsValid t' × ((q : ℕ) → lookup t' q ≡ (if q == key then some h else lookup t q))
  insert_refines t t' key h v f e =
      let (d, l, w) =
        insert_from-IsWritten slot_count t t' key h (start key) (omega arith)
          (sym (insert_eq t key h) ∙ e) in
      let idx = probe key d in
      let v' = after-IsValid t key h idx v f d l refl w.before in
      subst (λ x. IsValid x × ((q : ℕ) → lookup x q ≡ (if q == key then some h else lookup t q)))
        (sym w.written) (v', after-lookup t key h idx v f w.free (omega arith) v')

  -- If some slot is empty, or a tombstone, then the loop of insert ends.
  pub insert_total :
      (t : Table H) (key i : ℕ) (h : H)
      → i < slot_count
      → takes key (t i) ≡ true
      → (t' : Table H) × (insert t key h ≡ some t')
  insert_total t key i h b p =
      let at : i ≡ probe key (distance key i) = sym (probe-distance key i b) in
      let (t', e) =
        insert_from_total slot_count (distance key i) t key h (start key) (omega arith)
          (omega arith) (subst (λ x. takes key (t x) ≡ true) at p) in
      (t', insert_eq t key h ∙ e)
