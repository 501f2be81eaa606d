-- ===== src/Engine/Table/Find.antt =====
-- find of LiveOrderTable.
use low_latency_trading_pipe.Base.{
  ℕ, zero, suc, ◌+◌, ◌<◌, ◌≡◌, refl, sym, ap, subst, ◌∙◌, ◌⊎◌, inl, inr, Bool, true, false, Option,
  none, some, arith, ◌==◌, if◌then◌else◌, ==_refl, Bool-cases, Option-cases, some_inj,
}
use low_latency_trading_pipe.Engine.Table.{
  Table, empty_key, hit, find_from, find, mask, slot_count, lookup, start,
}
use low_latency_trading_pipe.Engine.Table.Probe.{
  probe, distance, Holds, IsValid, probe-distance, distance-probe,
}

-- A round of the loop that ends with an index found it there or later.
round_cases :
    (found ends : Bool) (i j : ℕ) (rest : Option ℕ)
    → (if found then some i else if ends then none else rest) ≡ some j
    → ((found ≡ true) × (i ≡ j)) ⊎ (rest ≡ some j)
round_cases true ends i j rest e = inl (refl, some_inj e)
round_cases false true i j rest e = absurd (cc e)
round_cases false false i j rest e = inr e

module _ {ℓ} {H : Type ℓ} where
  -- What is found has the key and a handle.
  find_from_sound :
      (rounds : ℕ) (t : Table H) (key i j : ℕ)
      → i < slot_count
      → find_from rounds t key i ≡ some j
      → (j < slot_count) × (hit key (t j) ≡ true)
  unfolding find_from
  find_from_sound zero t key i j h e = absurd (cc e)
  find_from_sound (suc rounds) t key i j h e =
      elim (round_cases (hit key (t i)) ((t i).key == empty_key) i j
        (find_from rounds t key (mask (i + 1))) e) [
          | inl (here, same) ↦ subst (λ x. (x < slot_count) × (hit key (t x) ≡ true)) same (h, here)
          | inr on ↦ find_from_sound rounds t key (mask (i + 1)) j (omega arith) on
        ]

  -- A slot that the search goes past.
  abbrev pub Passed : Table H → ℕ → ℕ → Type 0
  Passed t key j = ((t j).key == empty_key ≡ false) × (hit key (t j) ≡ false)

  abbrev PassedTo : ℕ → Table H → ℕ → ℕ → Type 0
  PassedTo d t key i = (e : ℕ) → e < d → Passed t key (mask (i + e))

  -- A hit at a distance is found in more rounds than that, if every slot before it is passed.
  find_from-hit :
      (rounds d : ℕ) (t : Table H) (key i : ℕ)
      → d < rounds
      → i < slot_count
      → hit key (t (mask (i + d))) ≡ true
      → PassedTo d t key i
      → find_from rounds t key i ≡ some (mask (i + d))
  unfolding find_from
  find_from-hit zero d t key i l b f p = absurd (omega arith)
  find_from-hit (suc rounds) zero t key i l b f p =
      let here : mask (i + 0) ≡ i = omega arith in
      let f' : hit key (t i) ≡ true = subst (λ x. hit key (t x) ≡ true) here f in rw (f', here) refl
  find_from-hit (suc rounds) (suc d) t key i l b f p =
      let here : mask (i + 0) ≡ i = omega arith in
      let first : Passed t key i = subst (λ x. Passed t key x) here (p 0 (omega arith)) in
      let there : mask (mask (i + 1) + d) ≡ mask (i + suc d) = omega arith in
      let rest =
        find_from-hit rounds d t key (mask (i + 1)) (omega arith) (omega arith)
          (subst (λ x. hit key (t x) ≡ true) (sym there) f)
          λ e h.
            let at : mask (i + suc e) ≡ mask (mask (i + 1) + e) = omega arith in
            subst (λ x. Passed t key x) at (p (suc e) (omega arith)) in
      rw (first.1, first.0) (rest ∙ ap some there)

  hit-Holds : (t : Table H) (key i : ℕ) → hit key (t i) ≡ true → (h : H) × Holds t i key h
  hit-Holds t key i e = held (t i).handle refl
    where
      held : (o : Option H) → (t i).handle ≡ o → (h : H) × Holds t i key h
      held none p = absurd (ground (arith, e, p))
      held (some h) p = (h, (ground (arith, e), p))

  Holds-hit : (t : Table H) (key i : ℕ) (h : H) → Holds t i key h → hit key (t i) ≡ true
  Holds-hit t key i h e = rw (e.1, e.0, ==_refl key) refl

  find_eq : (t : Table H) (key : ℕ) → find t key ≡ find_from slot_count t key (start key)
  unfolding find
  find_eq t key = refl

  pub find-lookup : (t : Table H) (key i : ℕ) → find t key ≡ some i → lookup t key ≡ (t i).handle
  unfolding lookup
  find-lookup t key i f = rw (lookup, f) refl

  pub find-none : (t : Table H) (key : ℕ) → find t key ≡ none → lookup t key ≡ none
  unfolding lookup
  find-none t key f = rw (lookup, f) refl

  -- In a valid table the slots before the one that holds a key are passed.
  Holds-passed :
      (t : Table H) (key i : ℕ) (h : H)
      → IsValid t
      → i < slot_count
      → Holds t i key h
      → PassedTo (distance key i) t key (start key)
  Holds-passed t key i h v b e d l =
      let j = probe key d in
      (
        elim (Bool-cases ((t j).key == empty_key)) [
          | inl p ↦ absurd (v.path i key h b e d l (ground arith))
          | inr p ↦ p
        ],
        elim (Bool-cases (hit key (t j))) [
          | inl p ↦
              let held = hit-Holds t key j p in
              let same : j ≡ i = v.once j i key held.0 h (omega arith) b held.1 e in
              let apart : d ≡ distance key i =
                sym (distance-probe key d (omega arith)) ∙ ap (λ x. distance key x) same in
              absurd (omega (arith, apart, l))
          | inr p ↦ p
        ],
      )

  -- In a valid table the handle that a slot holds for a key is the one looked up.
  pub Holds-lookup :
      (t : Table H) (key i : ℕ) (h : H)
      → IsValid t
      → i < slot_count
      → Holds t i key h
      → (find t key ≡ some i) × (lookup t key ≡ some h)
  Holds-lookup t key i h v b e =
      let at : probe key (distance key i) ≡ i = probe-distance key i b in
      let hits : hit key (t (probe key (distance key i))) ≡ true = rw at (Holds-hit t key i h e) in
      let found : find t key ≡ some i =
        find_eq t key
        ∙ find_from-hit slot_count (distance key i) t key (start key) (omega arith) (omega arith)
            hits (Holds-passed t key i h v b e)
        ∙ ap some at in
      (found, find-lookup t key i found ∙ e.1)

  -- What is found is held by its slot.
  pub find-Holds :
      (t : Table H) (key i : ℕ)
      → find t key ≡ some i
      → (i < slot_count) × ((h : H) × Holds t i key h)
  find-Holds t key i e =
      let s =
        find_from_sound slot_count t key (start key) i (omega arith) (sym (find_eq t key) ∙ e) in
      (s.0, hit-Holds t key i s.1)

  -- What is looked up is held by a slot.
  pub lookup-Holds :
      (t : Table H) (key : ℕ) (h : H)
      → lookup t key ≡ some h
      → (i : ℕ) × (i < slot_count) × Holds t i key h
  lookup-Holds t key h e = elim (Option-cases (find t key)) [
    | inl f ↦ absurd (cc (sym (find-none t key f) ∙ e))
    | inr (i, f) ↦
        let found = find-Holds t key i f in
        (i, found.0, (found.1.1.0, sym (find-lookup t key i f) ∙ e))
  ]

  -- Two tables that hold the same orders give the same when they are looked up.
  pub lookup_of_same :
      (t t' : Table H) (key : ℕ)
      → IsValid t
      → IsValid t'
      → ((i : ℕ) (h : H)
          → i < slot_count
          → Holds t i key h
          → (j : ℕ) × (j < slot_count) × Holds t' j key h)
      → ((i : ℕ) (h : H)
          → i < slot_count
          → Holds t' i key h
          → (j : ℕ) × (j < slot_count) × Holds t j key h)
      → lookup t' key ≡ lookup t key
  lookup_of_same t t' key v v' to from = elim (Option-cases (lookup t key)) [
    | inr (h, e) ↦
        let held = lookup-Holds t key h e in
        let moved = to held.0 h held.1 held.2 in
        (Holds-lookup t' key moved.0 h v' moved.1 moved.2).1 ∙ sym e
    | inl e ↦ elim (Option-cases (lookup t' key)) [
      | inl e' ↦ e' ∙ sym e
      | inr (h, e') ↦
          let held = lookup-Holds t' key h e' in
          let moved = from held.0 h held.1 held.2 in
          absurd (cc (sym e ∙ (Holds-lookup t key moved.0 h v moved.1 moved.2).1))
    ]
  ]
