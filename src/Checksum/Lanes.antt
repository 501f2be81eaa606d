-- ===== src/Checksum/Lanes.antt =====
-- The AVX2 loop of cksum_partial_simd (include/hft/utils/checksum.h) against its plain loop.
use low_latency_trading_pipe.Base.{
  ℕ, zero, suc, ◌+◌, ◌*◌, ◌/◌, ◌%◌, ◌^◌, ◌≤◌, ◌<◌, ◌≡◌, refl, sym, ap, ◌∙◌, inl, inr, List, [], ◌∷◌,
  arith, leb, Bool-cases, length, drop, length-drop, AllBytes, AllBytes-byte, u32, byte,
}
use low_latency_trading_pipe.Wire.Checksum.{word_sum}
use low_latency_trading_pipe.Checksum.{
  cksum_partial, Lanes, add_block, add_blocks, reduce_lanes, cksum_partial_simd,
}

-- The plain loop is the sum of the words, on 32 bits.
pub cksum_partial_lem : (p : List ℕ) (s : ℕ) → s < 2 ^ 32 → cksum_partial s p ≡ u32 (s + word_sum p)
unfolding cksum_partial word_sum
cksum_partial_lem [] s h = omega arith
cksum_partial_lem (b ∷ []) s h = refl
cksum_partial_lem (b ∷ c ∷ rest) s h =
    omega (arith, cksum_partial_lem rest (u32 (s + (b + c * 2 ^ 8))) (omega arith))

-- The words of a block of so many bytes from an offset on.
abbrev words_at : ℕ → List ℕ → ℕ → ℕ
words_at zero p i = 0
words_at (suc n) p i = byte p i + byte p (i + 1) * 2 ^ 8 + words_at n p (i + 2)

word_sum-drop :
    (p : List ℕ) → 2 ≤ length p → word_sum p ≡ byte p 0 + byte p 1 * 2 ^ 8 + word_sum (drop 2 p)
unfolding word_sum
word_sum-drop [] h = absurd (omega arith)
word_sum-drop (b ∷ []) h = absurd (omega arith)
word_sum-drop (b ∷ c ∷ rest) h = refl

byte-drop : (i : ℕ) (p : List ℕ) (j : ℕ) → byte (drop i p) j ≡ byte p (i + j)
byte-drop zero p j = ap (λ k. byte p k) (omega arith)
byte-drop (suc i) [] j = refl
byte-drop (suc i) (x ∷ p) j =
    let shift : suc (i + j) ≡ suc i + j = omega arith in
    byte-drop i p j ∙ ap (λ k. byte (x ∷ p) k) shift

drop-drop : (i j : ℕ) (p : List ℕ) → drop j (drop i p) ≡ drop (i + j) p
drop-drop zero j p = ap (λ k. drop k p) (omega arith)
drop-drop (suc i) j [] = drop-nil j ∙ sym (drop-nil (suc i + j))
  where
    drop-nil : (n : ℕ) → drop {A = ℕ} n [] ≡ []
    drop-nil zero = refl
    drop-nil (suc n) = refl
drop-drop (suc i) j (x ∷ p) =
    let shift : suc (i + j) ≡ suc i + j = omega arith in
    drop-drop i j p ∙ ap (λ k. drop k (x ∷ p)) shift

word_sum-words_at :
    (n i : ℕ) (p : List ℕ)
    → i + 2 * n ≤ length p
    → word_sum (drop i p) ≡ words_at n p i + word_sum (drop (i + 2 * n) p)
word_sum-words_at zero i p h =
    let start : i ≡ i + 2 * 0 = omega arith in omega (arith, ap (λ k. word_sum (drop k p)) start)
word_sum-words_at (suc n) i p h =
    let first : i + 0 ≡ i = omega arith in
    let end : i + 2 + 2 * n ≡ i + 2 * suc n = omega arith in
    omega (
      arith,
      ap (λ k. byte p k) first,
      ap (λ k. word_sum (drop k p)) end,
      word_sum-drop (drop i p) (omega (arith, length-drop i p)),
      byte-drop i p 0,
      byte-drop i p 1,
      ap word_sum (drop-drop i 2 p),
      word_sum-words_at n (i + 2) p (omega arith),
    )

-- The two halves of a word are its two pairs of bytes.
halves :
    (a b c d : ℕ)
    → a < 256
    → b < 256
    → c < 256
    → d < 256
    → ((a + b * 2 ^ 8 + c * 2 ^ 16 + d * 2 ^ 24) % 2 ^ 16 ≡ a + b * 2 ^ 8)
      × (a + b * 2 ^ 8 + c * 2 ^ 16 + d * 2 ^ 24) / 2 ^ 16 ≡ c + d * 2 ^ 8
halves a b c d h k l m = omega arith

-- One lane after a block, modulo the wraps that the reduction takes off anyway.
add_block_lane :
    (acc : Lanes) (p : List ℕ) (i : ℕ)
    → AllBytes p
    → add_block acc p i ≡ u32 (acc i + words_at 2 p (4 * i))
add_block_lane acc p i h = omega (
  arith,
  halves (byte p (4 * i)) (byte p (4 * i + 1)) (byte p (4 * i + 2)) (byte p (4 * i + 3))
      (AllBytes-byte p (4 * i) h) (AllBytes-byte p (4 * i + 1) h) (AllBytes-byte p (4 * i + 2) h)
      (AllBytes-byte p (4 * i + 3) h),
  last,
)
  where
    last : byte p (4 * i + 3) ≡ byte p (4 * i + 2 + 1)
    last = ap (λ k. byte p k) (omega arith)

add_wrap : (a b : ℕ) → u32 (u32 a + u32 b) ≡ u32 (a + b)
add_wrap a b = omega arith

lane_total : Lanes → ℕ
lane_total acc = acc 0 + acc 4 + (acc 2 + acc 6) + (acc 1 + acc 5 + (acc 3 + acc 7))

reduce_lanes_lem : (acc : Lanes) → reduce_lanes acc ≡ u32 (lane_total acc)
unfolding lane_total
reduce_lanes_lem acc = rw (
  add_wrap (acc 0 + acc 4) (acc 2 + acc 6),
  add_wrap (acc 1 + acc 5) (acc 3 + acc 7),
  add_wrap (acc 0 + acc 4 + (acc 2 + acc 6)) (acc 1 + acc 5 + (acc 3 + acc 7)),
)

-- A block adds its sixteen words to the reduced lanes.
reduce_lanes-add_block :
    (acc : Lanes) (p : List ℕ)
    → AllBytes p
    → reduce_lanes (add_block acc p) ≡ u32 (lane_total acc + words_at 16 p 0)
unfolding lane_total
reduce_lanes-add_block acc p h =
    reduce_lanes_lem (add_block acc p)
    ∙ omega (
      arith,
      add_block_lane acc p 0 h,
      add_block_lane acc p 1 h,
      add_block_lane acc p 2 h,
      add_block_lane acc p 3 h,
      add_block_lane acc p 4 h,
      add_block_lane acc p 5 h,
      add_block_lane acc p 6 h,
      add_block_lane acc p 7 h,
    )

AllBytes-drop : (n : ℕ) (p : List ℕ) → AllBytes p → AllBytes (drop n p)
AllBytes-drop zero p h = h
AllBytes-drop (suc n) [] h = h
AllBytes-drop (suc n) (x ∷ p) h = AllBytes-drop n p h.1

-- What the lanes hold, with what is left to add, stays the same through the loop.
add_blocks_lem :
    (n : ℕ) (acc : Lanes) (p : List ℕ)
    → AllBytes p
    → 32 * n ≤ length p
    → u32 (reduce_lanes (add_blocks n acc p).0 + word_sum (add_blocks n acc p).1)
      ≡ u32 (reduce_lanes acc + word_sum p)
unfolding add_blocks
add_blocks_lem zero acc p h l = refl
add_blocks_lem (suc n) acc p h l =
    add_blocks_lem n (add_block acc p) (drop 32 p) (AllBytes-drop 32 p h)
      (omega (arith, length-drop 32 p))
    ∙ omega (
      arith,
      reduce_lanes_lem acc,
      reduce_lanes-add_block acc p h,
      word_sum-words_at 16 0 p (omega arith),
    )

-- For every buffer of bytes and seed of 32 bits, the sum with the AVX2 loop is the sum of the plain
-- loop.
pub cksum_partial_simd_agrees :
    (seed : ℕ) (p : List ℕ)
    → seed < 2 ^ 32
    → AllBytes p
    → cksum_partial_simd seed p ≡ cksum_partial seed p
unfolding cksum_partial_simd
cksum_partial_simd_agrees seed p s h = elim (Bool-cases (leb 32 (length p))) [
  | inl e ↦
      let n = length p / 32 in
      let left = (add_blocks n (λ i. 0) p).1 in
      let lanes = reduce_lanes (add_blocks n (λ i. 0) p).0 in
      rw e (
        cksum_partial_lem left (u32 (seed + lanes)) (omega arith)
        ∙ omega (arith, add_blocks_lem n (λ i. 0) p h (omega arith), cksum_partial_lem p seed s))
  | inr e ↦ rw e
]
