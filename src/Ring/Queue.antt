-- ===== src/Ring/Queue.antt =====
-- The rings of include/hft/ring_buffers against a queue of at most `size` entries.
use low_latency_trading_pipe.Base.{
  ℕ, zero, suc, ◌+◌, ◌-◌, ◌^◌, ◌≤◌, ◌<◌, ◌≡◌, refl, sym, ap, ap₂, ◌∙◌, ◌≢◌, inl, inr, Bool, true,
  false, Option, none, some, List, [], ◌∷◌, ◌++◌, arith, leb, if◌then◌else◌, leb→le, Bool-cases,
  length, update, update_self, update_ne, u32, sub32,
}
use low_latency_trading_pipe.Ring.{Ring, size, mask, publish, consume}

module _ {ℓ} {A : Type ℓ} where
  -- The `n` entries from the cursor `i` on.
  abbrev pub window : (ℕ → A) → ℕ → ℕ → List A
  window f i zero = []
  window f i (suc n) = f (mask i) ∷ window f (u32 (i + 1)) n

  unfoldable pub used : Ring A → ℕ
  used r = sub32 r.next_write r.next_read

  -- What the ring holds, oldest first.
  unfoldable pub contents : Ring A → List A
  unfolding used
  contents r = window r.slots r.next_read (used r)

  pub length-window : (f : ℕ → A) (i n : ℕ) → length (window f i n) ≡ n
  length-window f i zero = refl
  length-window f i (suc n) = ap suc (length-window f (u32 (i + 1)) n)

  -- Writing just past a window extends it by what was written.
  window-update :
      (f : ℕ → A) (x : A) (i n w : ℕ)
      → n < size
      → i < 2 ^ 32
      → w ≡ u32 (i + n)
      → window (update f (mask w) x) i (suc n) ≡ window f i n ++ (x ∷ [])
  window-update f x i zero w h b e =
      ap (λ y. y ∷ []) (update_self f (mask w) (mask i) x (omega arith))
  window-update f x i (suc n) w h b e =
      ap₂ ◌∷◌ (update_ne f (mask w) (mask i) x (omega arith))
        (window-update f x (u32 (i + 1)) n w (omega arith) (omega arith) (omega arith))

  window_of_ne :
      (f : ℕ → A) (i n : ℕ) → n ≢ 0 → window f i n ≡ f (mask i) ∷ window f (u32 (i + 1)) (n - 1)
  window_of_ne f i zero h = absurd (h refl)
  window_of_ne f i (suc n) h = ap (λ k. window f i (suc k)) (omega arith)

-- The cursors are words, and no more than `size` entries lie between them.
pub record IsValid {ℓ} {A : Type ℓ} (r : Ring A) : Type 0 where
  pub write_word : r.next_write < 2 ^ 32
  pub read_word : r.next_read < 2 ^ 32
  pub fits : sub32 r.next_write r.next_read ≤ size

-- The queue that a ring implements.
unfoldable pub push {ℓ} : {A : Type ℓ} → List A → A → Bool × List A
push q x = if leb size (length q) then (false, q) else (true, q ++ (x ∷ []))

unfoldable pub pop {ℓ} : {A : Type ℓ} → List A → Option (A × List A)
pop [] = none
pop (x ∷ q) = some (x, q)

abbrev pub view {ℓ} : {A : Type ℓ} → Option (A × Ring A) → Option (A × List A)
view none = none
view (some (x, r)) = some (x, contents r)

abbrev pub AllValid {ℓ} : {A : Type ℓ} → Option (A × Ring A) → Type 0
AllValid none = Unit
AllValid (some (x, r)) = IsValid r

module _ {ℓ} {A : Type ℓ} where
  pub length-contents : (r : Ring A) → length (contents r) ≡ used r
  unfolding contents
  length-contents r = length-window r.slots r.next_read (used r)

  contents-of :
      (s : Ring A) {f : ℕ → A} {i n : ℕ}
      → s.slots ≡ f
      → s.next_read ≡ i
      → used s ≡ n
      → contents s ≡ window f i n
  unfolding contents
  contents-of s p q e j = window (p j) (q j) (e j)

  write_eq : (r : Ring A) → IsValid r → r.next_write ≡ u32 (r.next_read + used r)
  unfolding used
  write_eq r v = omega arith

  -- A full ring is left as it was.
  pub publish_full : (r : Ring A) (x : A) → size ≤ used r → publish r x ≡ (false, r)
  unfolding publish used
  publish_full r x h = ground arith

  publish_cursors :
      (r : Ring A) (x : A)
      → IsValid r
      → used r < size
      → ((publish r x).0 ≡ true)
        × ((publish r x).1.next_read ≡ r.next_read)
        × ((publish r x).1.slots ≡ update r.slots (mask r.next_write) x)
        × (used (publish r x).1 ≡ suc (used r))
        × IsValid (publish r x).1
  unfolding publish used
  publish_cursors r x v h = ground arith

  -- A ring with room takes the entry behind all that it holds.
  pub publish_room :
      (r : Ring A) (x : A)
      → IsValid r
      → used r < size
      → ((publish r x).0 ≡ true) × (contents (publish r x).1 ≡ contents r ++ (x ∷ []))
  unfolding contents
  publish_room r x v h =
      let (done, i, s, u, _) = publish_cursors r x v h in
      (
        done,
        contents-of (publish r x).1 s i u
            ∙ window-update r.slots x r.next_read (used r) r.next_write h v.read_word
                (omega (arith, write_eq r v)),
      )

  pub publish-IsValid : (r : Ring A) (x : A) → IsValid r → IsValid (publish r x).1
  unfolding publish
  publish-IsValid r x v = ground arith

  -- On a valid ring, publishing is pushing on a queue of at most 524288 entries, refused by both
  -- when it is full, and the ring stays valid.
  pub publish_refines :
      (r : Ring A) (x : A)
      → IsValid r
      → (((publish r x).0, contents (publish r x).1) ≡ push (contents r) x)
        × IsValid (publish r x).1
  unfolding push
  publish_refines r x v = elim (Bool-cases (leb size (used r))) [
    | inl full ↦ (
      rw (publish_full r x (leb→le size (used r) full), length-contents r, full),
      publish-IsValid r x v,
    )
    | inr room ↦
        let (done, extended) = publish_room r x v (ground arith) in
        (rw (done, extended, length-contents r, room), publish-IsValid r x v)
  ]

  -- On a valid ring, consuming is popping the oldest entry of the queue, and gives nothing when it
  -- is empty; the ring stays valid.
  pub consume_refines :
      (r : Ring A) → IsValid r → (view (consume r) ≡ pop (contents r)) × AllValid (consume r)
  unfolding consume contents pop used
  consume_refines r v = ground (arith, window_of_ne r.slots r.next_read (used r))

  pub publish_done :
      (r : Ring A) (x : A)
      → IsValid r
      → (publish r x).0 ≡ true
      → contents (publish r x).1 ≡ contents r ++ (x ∷ [])
  publish_done r x v e = elim (Bool-cases (leb size (used r))) [
    | inl full ↦
        let p = publish_full r x (leb→le size (used r) full) in
        let w : false ≡ true = sym (ap (λ q. q.0) p) ∙ e in absurd (cc)
    | inr room ↦ (publish_room r x v (ground arith)).1
  ]

  pub publish_refused : (r : Ring A) (x : A) → (publish r x).0 ≡ false → (publish r x).1 ≡ r
  unfolding publish
  publish_refused r x e = elim (Bool-cases (leb size (sub32 r.next_write r.next_read))) [
    | inl full ↦ rw full
    | inr room ↦ let w : true ≡ false = rw room at e in absurd (cc)
  ]
