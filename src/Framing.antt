-- ===== src/Framing.antt =====
-- The receive loops of apps/server/order_receiver.c (handle_client) and of apps/client/order_sender.c
-- (drain_acks): whole messages of a fixed size are handled out of a buffer, and what is left of it
-- is carried over to the front of the next receive.
use low_latency_trading_pipe.Base.{
  ℕ, zero, suc, ◌≤◌, ◌<◌, ◌≡◌, refl, sym, ap, ◌∙◌, inl, inr, List, [], ◌∷◌, ◌++◌, append-nil,
  append_assoc, arith, dec_lt, leb, if◌then◌else◌, le-leb, lt-leb, Bool-cases, length, take, drop,
  length-append, length-drop, take-append, drop-append,
}

-- The bytes of several receives, end to end.
abbrev pub concat {ℓ} : {A : Type ℓ} → List (List A) → List A
concat [] = []
concat (c ∷ cs) = c ++ concat cs

module _ {ℓ} {S : Type ℓ} (size : ℕ) (handle : S → List ℕ → S) where
  -- `while (offset + size <= total) { handle; offset += size; }`, on the bytes from the offset on;
  -- the first argument bounds the rounds.
  unfoldable pub frames : ℕ → S → List ℕ → S × List ℕ
  frames zero s b = (s, b)
  frames (suc n) s b =
      let rest = frames n (handle s (take size b)) (drop size b) in
      if leb size (length b) then rest else (s, b)

  -- As many rounds as there are bytes are enough.
  unfoldable pub drain : S → List ℕ → S × List ℕ
  drain s b = frames (length b) s b

  -- One receive: the new bytes stand behind the carried ones.
  unfoldable pub receive : S × List ℕ → List ℕ → S × List ℕ
  receive (s, carry) chunk = drain s (carry ++ chunk)

  unfoldable pub receive_all : S × List ℕ → List (List ℕ) → S × List ℕ
  receive_all c [] = c
  receive_all c (chunk ∷ chunks) = receive_all (receive c chunk) chunks

module _ {ℓ} {S : Type ℓ} (size : ℕ) (handle : S → List ℕ → S) (pos : 0 < size) where
  pub frames_short :
      (n : ℕ) (s : S) (b : List ℕ) → length b < size → frames size handle n s b ≡ (s, b)
  unfolding frames
  frames_short zero s b h = refl
  frames_short (suc n) s b h = rw (lt-leb (length b) size h)

  frames_step :
      (n : ℕ) (s : S) (b : List ℕ)
      → size ≤ length b
      → frames size handle (suc n) s b ≡ frames size handle n (handle s (take size b)) (drop size b)
  unfolding frames
  frames_step n s b h = rw (le-leb size (length b) h)

  -- More rounds than there are bytes change nothing.
  frames_enough :
      (n m : ℕ) (s : S) (b : List ℕ)
      → length b ≤ n
      → length b ≤ m
      → frames size handle n s b ≡ frames size handle m s b
  frames_enough zero zero s b h k = refl
  frames_enough zero (suc m) s b h k =
      frames_short zero s b (omega arith) ∙ sym (frames_short (suc m) s b (omega arith))
  frames_enough (suc n) zero s b h k =
      frames_short (suc n) s b (omega arith) ∙ sym (frames_short zero s b (omega arith))
  frames_enough (suc n) (suc m) s b h k = elim (dec_lt (length b) size) [
    | yes p ↦ frames_short (suc n) s b p ∙ sym (frames_short (suc m) s b p)
    | no p ↦
        frames_step n s b (omega arith)
        ∙ frames_enough n m (handle s (take size b)) (drop size b)
            (omega (arith, length-drop size b)) (omega (arith, length-drop size b))
        ∙ sym (frames_step m s b (omega arith))
  ]

  pub drain-nil : (s : S) → drain size handle s [] ≡ (s, [])
  unfolding drain
  drain-nil s = frames_short 0 s [] pos

  pub drain_short : (s : S) (b : List ℕ) → length b < size → drain size handle s b ≡ (s, b)
  unfolding drain
  drain_short s b h = frames_short (length b) s b h

  pub drain_step :
      (s : S) (b : List ℕ)
      → size ≤ length b
      → drain size handle s b ≡ drain size handle (handle s (take size b)) (drop size b)
  unfolding drain
  drain_step s b h =
      frames_enough (length b) (suc (length b)) s b (omega arith) (omega arith)
      ∙ frames_step (length b) s b h
      ∙ frames_enough (length b) (length (drop size b)) (handle s (take size b)) (drop size b)
          (omega (arith, length-drop size b)) (omega arith)

  frames-rest :
      (n : ℕ) (s : S) (b : List ℕ) → length b ≤ n → length (frames size handle n s b).1 < size
  frames-rest zero s b h = rw (frames_short zero s b (omega arith)) (omega arith)
  frames-rest (suc n) s b h = elim (dec_lt (length b) size) [
    | yes p ↦ rw (frames_short (suc n) s b p) p
    | no p ↦
        rw (frames_step n s b (omega arith))
          (frames-rest n (handle s (take size b)) (drop size b) (omega (arith, length-drop size b)))
  ]

  frames-append :
      (n : ℕ) (s : S) (b c : List ℕ)
      → length b ≤ n
      → let (t, rest) = frames size handle n s b in
        drain size handle s (b ++ c) ≡ drain size handle t (rest ++ c)
  frames-append zero s b c h = rw (frames_short zero s b (omega arith))
  frames-append (suc n) s b c h = elim (dec_lt (length b) size) [
    | yes p ↦ rw (frames_short (suc n) s b p)
    | no p ↦
        let l : size ≤ length b = omega arith in
        rw (frames_step n s b l) (
          drain_step s (b ++ c) (omega (arith, length-append b c))
          ∙ (rw (take-append size b c l, drop-append size b c l)
              (frames-append n (handle s (take size b)) (drop size b) c
                (omega (arith, length-drop size b)))))
  ]

  -- The loop ends with less than a message left.
  pub drain-rest : (s : S) (b : List ℕ) → length (drain size handle s b).1 < size
  unfolding drain
  drain-rest s b = frames-rest (length b) s b (omega arith)

  -- A buffer handled in two parts, the rest of the first before the second.
  pub drain-append :
      (s : S) (b c : List ℕ)
      → let (t, rest) = drain size handle s b in
        drain size handle s (b ++ c) ≡ drain size handle t (rest ++ c)
  unfolding drain
  drain-append s b c = frames-append (length b) s b c (omega arith)

  -- However the stream is cut into receives, its messages are handled alike.
  pub receive_all-concat :
      (s : S) (carry : List ℕ) (chunks : List (List ℕ))
      → length carry < size
      → receive_all size handle (s, carry) chunks ≡ drain size handle s (carry ++ concat chunks)
  unfolding receive_all receive
  receive_all-concat s carry [] h =
      rw append-nil (sym (unfold drain in frames_short (length carry) s carry h))
  receive_all-concat s carry (chunk ∷ chunks) h =
      let (t, rest) = drain size handle s (carry ++ chunk) in
      receive_all-concat t rest chunks (drain-rest s (carry ++ chunk))
      ∙ sym (drain-append s (carry ++ chunk) (concat chunks))
      ∙ ap (drain size handle s) (append_assoc carry chunk (concat chunks))

module _ {ℓ κ} {S : Type ℓ} {B : Type κ} (size : ℕ) (handle : S → List ℕ → S) where
  -- What no message changes, the loop leaves alone.
  pub frames_keep :
      (g : S → B)
      → ((s : S) (b : List ℕ) → g (handle s b) ≡ g s)
      → (n : ℕ) (s : S) (b : List ℕ) → g (frames size handle n s b).0 ≡ g s
  unfolding frames
  frames_keep g keep zero s b = refl
  frames_keep g keep (suc n) s b = elim (Bool-cases (leb size (length b))) [
    | inl e ↦
        rw e (frames_keep g keep n (handle s (take size b)) (drop size b) ∙ keep s (take size b))
    | inr e ↦ rw e
  ]
