-- ===== src/Engine/Table/Insert.antt =====
-- insert of LiveOrderTable, against a finite map.
use low_latency_trading_pipe.Base.{
  ℕ, zero, suc, ◌+◌, ◌<◌, ◌≡◌, refl, sym, ap, subst, ◌∙◌, ◌⊎◌, inl, inr, Bool, true, false, Option,
  some, arith, if◌then◌else◌, Bool-cases, some_inj, update,
}
use low_latency_trading_pipe.Engine.Table.{Slot, Table, takes, insert_from, mask, slot_count}

-- A round that gives a result gives its own or that of the rounds after it.
round_cases {ℓ} :
    {A : Type ℓ} (b : Bool) {x y : A} {rest : Option A}
    → (if b then some x else rest) ≡ some y
    → ((b ≡ true) × (x ≡ y)) ⊎ ((b ≡ false) × (rest ≡ some y))
round_cases true e = inl (refl, some_inj e)
round_cases false e = inr (refl, e)

module _ {ℓ} {H : Type ℓ} where
  abbrev pub stored : ℕ → H → Slot H
  stored key h = record { key = key; handle = some h }

  -- The first slot that takes the key, so many rounds on, and the table after it was written.
  pub record IsWritten (t t' : Table H) (key : ℕ) (h : H) (i d : ℕ) : Type ℓ where
    pub free : takes key (t (mask (i + d))) ≡ true
    pub before : (e : ℕ) → e < d → takes key (t (mask (i + e))) ≡ false
    pub written : t' ≡ update t (mask (i + d)) (stored key h)

  -- One round more in front, which was passed.
  further :
      (t t' : Table H) (key : ℕ) (h : H) (i d : ℕ)
      → takes key (t i) ≡ false
      → i < slot_count
      → IsWritten t t' key h (mask (i + 1)) d
      → IsWritten t t' key h i (suc d)
  further t t' key h i d p b w =
      let there : mask (mask (i + 1) + d) ≡ mask (i + suc d) = omega arith in
      record {
        free = subst (λ x. takes key (t x) ≡ true) there w.free;
        before = passed;
        written = w.written ∙ ap (λ x. update t x (stored key h)) there;
      }
    where
      passed : (e : ℕ) → e < suc d → takes key (t (mask (i + e))) ≡ false
      passed zero l =
          let here : i ≡ mask (i + 0) = omega arith in subst (λ x. takes key (t x) ≡ false) here p
      passed (suc e) l =
          let at : mask (mask (i + 1) + e) ≡ mask (i + suc e) = omega arith in
          subst (λ x. takes key (t x) ≡ false) at (w.before e (omega arith))

  pub insert_from-IsWritten :
      (rounds : ℕ) (t t' : Table H) (key : ℕ) (h : H) (i : ℕ)
      → i < slot_count
      → insert_from rounds t key h i ≡ some t'
      → (d : ℕ) × (d < rounds) × IsWritten t t' key h i d
  unfolding insert_from
  insert_from-IsWritten zero t t' key h i b e = absurd (cc e)
  insert_from-IsWritten (suc rounds) t t' key h i b e =
      let here : mask (i + 0) ≡ i = omega arith in
      elim (round_cases (takes key (t i)) e) [
        | inl (p, same) ↦ (
          0,
          omega arith,
          record {
            free = rw here p;
            before = λ k l. absurd (omega arith);
            written = sym same ∙ ap (λ x. update t x (stored key h)) (sym here);
          },
        )
        | inr (p, on) ↦
            let (d, l, w) =
              insert_from-IsWritten rounds t t' key h (mask (i + 1)) (omega arith) on in
            (suc d, omega arith, further t t' key h i d p b w)
      ]

  -- Some slot takes the key, so many rounds on: the rounds are enough.
  pub insert_from_total :
      (rounds d : ℕ) (t : Table H) (key : ℕ) (h : H) (i : ℕ)
      → d < rounds
      → i < slot_count
      → takes key (t (mask (i + d))) ≡ true
      → (t' : Table H) × (insert_from rounds t key h i ≡ some t')
  unfolding insert_from
  insert_from_total zero d t key h i l b p = absurd (omega arith)
  insert_from_total (suc rounds) zero t key h i l b p =
      let here : mask (i + 0) ≡ i = omega arith in
      let p' : takes key (t i) ≡ true = subst (λ x. takes key (t x) ≡ true) here p in
      (update t i (stored key h), rw p' refl)
  insert_from_total (suc rounds) (suc d) t key h i l b p =
      let there : mask (i + suc d) ≡ mask (mask (i + 1) + d) = omega arith in
      elim (Bool-cases (takes key (t i))) [
        | inl p' ↦ (update t i (stored key h), rw p' refl)
        | inr p' ↦
            let (t', e) =
              insert_from_total rounds d t key h (mask (i + 1)) (omega arith) (omega arith)
                (subst (λ x. takes key (t x) ≡ true) there p) in
            (t', rw p' e)
      ]
