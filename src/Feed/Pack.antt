-- ===== src/Feed/Pack.antt =====
-- The inner loop of bulk_feed (apps/server/feed.c): one packet made of the front of the buffer.
use low_latency_trading_pipe.Base.{
  ℕ, zero, suc, ◌+◌, ◌*◌, ◌^◌, ◌≤◌, ◌<◌, ◌≡◌, refl, sym, ap, ap₂, subst, ◌∙◌, inl, inr, Bool, true,
  false, ◌||◌, List, [], ◌∷◌, ◌++◌, append_assoc, arith, ltb, Bool-cases, length, take, drop,
  length-append, length-take, length-drop, take-append-drop, AllBytes, AllBytes-byte, u16, be16,
  put16,
}
use low_latency_trading_pipe.Feed.{max_msg_payload, pack}

-- A payload of so many messages, each behind its length in two bytes.
pub data Splits : ℕ → List ℕ → Type 0 where
  no_messages : Splits 0 []
  one_more :
      (n : ℕ) (p m : List ℕ)
      → Splits n p
      → length m < 2 ^ 16
      → Splits (n + 1) (p ++ (put16 (length m) ++ m))

-- A payload that the loop has packed so far, and the buffer that is left of it.
pub record Packed (payload : List ℕ) (msg_count : ℕ) : Type 0 where
  pub splits : Splits msg_count payload
  pub fits : length payload ≤ max_msg_payload
  pub few : 2 * msg_count ≤ length payload

-- What the loop makes of the bytes `b`, with so many messages packed before.
pub record PackedFrom (b : List ℕ) (before : ℕ) (payload : List ℕ) (msg_count : ℕ) (rest : List ℕ)
    : Type 0 where
  pub grown : before ≤ msg_count
  pub packed : Packed payload msg_count
  pub whole : payload ++ rest ≡ b
  pub bytes : AllBytes rest

AllBytes-drop : (n : ℕ) (p : List ℕ) → AllBytes p → AllBytes (drop n p)
AllBytes-drop zero p h = h
AllBytes-drop (suc n) [] h = h
AllBytes-drop (suc n) (x ∷ p) h = AllBytes-drop n p h.1

-- The length in front of a message is written back as it was read.
front : (b : List ℕ) → AllBytes b → 2 ≤ length b → b ≡ put16 (be16 b 0) ++ drop 2 b
front [] h l = absurd (omega arith)
front (x ∷ []) h l = absurd (omega arith)
front (x ∷ y ∷ b) h l =
    ap₂ (λ u v. u ∷ v ∷ b) (omega (arith, h.0, h.1.0)) (omega (arith, h.0, h.1.0))

drop-two : (n : ℕ) (b : List ℕ) → 2 ≤ length b → drop (2 + n) b ≡ drop n (drop 2 b)
drop-two n [] l = absurd (omega arith)
drop-two n (x ∷ []) l = absurd (omega arith)
drop-two n (x ∷ y ∷ b) l =
    let two : 2 + n ≡ suc (suc n) = omega arith in ap (λ k. drop k (x ∷ y ∷ b)) two

-- One message moved from the buffer to the payload.
moved :
    (payload b : List ℕ)
    → AllBytes b
    → 2 ≤ length b
    → (payload ++ (put16 (be16 b 0) ++ take (be16 b 0) (drop 2 b))) ++ drop (2 + be16 b 0) b
      ≡ payload ++ b
moved payload b h l =
    let n = be16 b 0 in
    append_assoc payload (put16 n ++ take n (drop 2 b)) (drop (2 + n) b)
    ∙ ap (λ t. payload ++ t)
        (ap (λ t. (put16 n ++ take n (drop 2 b)) ++ t) (drop-two n b l)
          ∙ ap (λ t. put16 n ++ t) (take-append-drop n (drop 2 b))
          ∙ sym (front b h l))

Packed-more :
    (payload b : List ℕ) (msg_count : ℕ)
    → Packed payload msg_count
    → 2 + be16 b 0 ≤ length b
    → be16 b 0 < 2 ^ 16
    → length payload + 2 + be16 b 0 ≤ max_msg_payload
    → Packed (payload ++ (put16 (be16 b 0) ++ take (be16 b 0) (drop 2 b))) (msg_count + 1)
Packed-more payload b msg_count p l w room =
    let n = be16 b 0 in
    let m = take n (drop 2 b) in
    let size : length m ≡ n = omega (arith, length-take n (drop 2 b), length-drop 2 b) in
    let total : length (payload ++ (put16 n ++ m)) ≡ length payload + 2 + n =
      omega (arith, length-append payload (put16 n ++ m), size) in
    record {
      splits =
          subst (λ k. Splits (msg_count + 1) (payload ++ (put16 k ++ m))) size
            (one_more msg_count payload m p.splits (omega (arith, size)));
      fits = omega (arith, total);
      few = omega (arith, total, p.few);
    }

-- Why the loop stops before the next message of the buffer.
unfoldable pub stops : ℕ → List ℕ → Bool
stops used b =
    ltb (length b) 2 || (ltb (length b) (2 + be16 b 0) || ltb max_msg_payload (used + 2 + be16 b 0))

abbrev longer : List ℕ → List ℕ → List ℕ
longer payload b = payload ++ (put16 (be16 b 0) ++ take (be16 b 0) (drop 2 b))

-- One turn of the loop that does not stop.
pack_turn :
    (n : ℕ) (payload : List ℕ) (msg_count : ℕ) (b : List ℕ)
    → AllBytes b
    → Packed payload msg_count
    → stops (length payload) b ≡ false
    → Packed (longer payload b) (msg_count + 1)
      × (longer payload b ++ drop (2 + be16 b 0) b ≡ payload ++ b)
      × (pack (suc n) payload msg_count b
          ≡ pack n (longer payload b) (msg_count + 1) (drop (2 + be16 b 0) b))
unfolding pack stops
pack_turn n payload msg_count b h p e =
    let size = be16 b 0 in
    let long : 2 + size ≤ length b = ground arith in
    let word : size < 2 ^ 16 = omega (arith, AllBytes-byte b 0 h, AllBytes-byte b 1 h) in
    let room : length payload + 2 + size ≤ max_msg_payload = ground arith in
    let count : u16 (msg_count + 1) ≡ msg_count + 1 = omega (arith, p.few, p.fits) in
    (
      Packed-more payload b msg_count p long word room,
      moved payload b h (omega (arith, long)),
      rw (e, count),
    )

pack_stop :
    (n : ℕ) (payload : List ℕ) (msg_count : ℕ) (b : List ℕ)
    → stops (length payload) b ≡ true
    → pack n payload msg_count b ≡ (payload, msg_count, b)
unfolding pack stops
pack_stop zero payload msg_count b e = refl
pack_stop (suc n) payload msg_count b e = rw e

-- The loop packs whole messages, no more than fit, and loses nothing.
pub pack_lem :
    (n : ℕ) (payload : List ℕ) (msg_count : ℕ) (b : List ℕ)
    → AllBytes b
    → Packed payload msg_count
    → let r = pack n payload msg_count b in PackedFrom (payload ++ b) msg_count r.0 r.1 r.2
unfolding pack
pack_lem zero payload msg_count b h p = record {
  grown = omega arith;
  packed = p;
  whole = refl;
  bytes = h;
}
pack_lem (suc n) payload msg_count b h p = elim (Bool-cases (stops (length payload) b)) [
  | inl e ↦
      subst (λ r. PackedFrom (payload ++ b) msg_count r.0 r.1 r.2)
        (sym (pack_stop (suc n) payload msg_count b e))
        (record { grown = omega arith; packed = p; whole = refl; bytes = h })
  | inr e ↦
      let (next, whole, same) = pack_turn n payload msg_count b h p e in
      let r =
        pack_lem n (longer payload b) (msg_count + 1) (drop (2 + be16 b 0) b)
          (AllBytes-drop (2 + be16 b 0) b h) next in
      subst (λ q. PackedFrom (payload ++ b) msg_count q.0 q.1 q.2) (sym same)
        (record {
          grown = omega (arith, r.grown);
          packed = r.packed;
          whole = r.whole ∙ whole;
          bytes = r.bytes;
        })
]

empty-Packed : Packed [] 0
empty-Packed = record { splits = no_messages; fits = omega arith; few = omega arith }

-- From a buffer a packet is made, unless the loop stops at its first message.
pub pack_buffer_lem :
    (b : List ℕ)
    → AllBytes b
    → let r = pack (length b) [] 0 b in PackedFrom b 0 r.0 r.1 r.2 × (stops 0 b ≡ false → 0 < r.1)
pack_buffer_lem [] h =
    (pack_lem 0 [] 0 [] h empty-Packed, λ e. absurd (unfold stops in ground arith))
pack_buffer_lem (x ∷ b) h = (
  pack_lem (suc (length b)) [] 0 (x ∷ b) h empty-Packed,
  λ e.
      let (next, _, same) = pack_turn (length b) [] 0 (x ∷ b) h empty-Packed e in
      let n = 2 + be16 (x ∷ b) 0 in
      let r =
        pack_lem (length b) (longer [] (x ∷ b)) (0 + 1) (drop n (x ∷ b)) (AllBytes-drop n (x ∷ b) h)
          next in
      subst (λ q. 0 < q.1) (sym same) (omega (arith, r.grown)),
)
