-- ===== src/Wire/Checksum.antt =====
-- wire_checksum of include/hft/protocol/wire.h against arithmetic modulo 65535.
use low_latency_trading_pipe.Base.{
  ℕ, zero, suc, ◌+◌, ◌*◌, ◌%◌, ◌^◌, ◌≤◌, ◌<◌, ◌≡◌, ◌≢◌, ◌⊎◌, inl, inr, List, [], ◌∷◌, arith, length,
  set, AllBytes, AllBytes-byte, AllBytes-set, byte,
}
use low_latency_trading_pipe.Wire.{add_word, checksum_loop, wire_checksum}

-- The 16-bit words of a buffer, added up with no carry folded.
unfoldable pub word_sum : List ℕ → ℕ
word_sum [] = 0
word_sum (b ∷ []) = b
word_sum (b ∷ c ∷ rest) = b + c * 2 ^ 8 + word_sum rest

add_word_lem :
    (s w : ℕ)
    → s ≤ 0xffff
    → w ≤ 0xffff
    → (add_word s w ≤ 0xffff) × (add_word s w % 65535 ≡ (s + w) % 65535)
unfolding add_word
add_word_lem s w hs hw = ground arith

loop_lem :
    (b : List ℕ) (s : ℕ)
    → s ≤ 0xffff
    → AllBytes b
    → (checksum_loop s b ≤ 0xffff) × (checksum_loop s b % 65535 ≡ (s + word_sum b) % 65535)
unfolding checksum_loop word_sum
loop_lem [] s hs h = omega arith
loop_lem (b ∷ []) s hs h = add_word_lem s b hs (omega arith)
loop_lem (b ∷ c ∷ rest) s hs h = omega (
  arith,
  add_word_lem s (b + c * 2 ^ 8) hs (omega arith),
  loop_lem rest (add_word s (b + c * 2 ^ 8)) (add_word_lem s (b + c * 2 ^ 8) hs (omega arith)).0
      h.1.1,
)

-- The checksum of a buffer of bytes is a 16-bit word, and with the words of the buffer it adds up
-- to a multiple of 65535.
pub wire_checksum_complements :
    (b : List ℕ)
    → AllBytes b
    → (wire_checksum b ≤ 0xffff) × ((wire_checksum b + word_sum b) % 65535 ≡ 0)
unfolding wire_checksum
wire_checksum_complements b h = omega (arith, loop_lem b 0 (omega arith) h)

-- How one byte weighs in the sum: 1 at an even place, 256 at an odd one.
word_sum-set :
    (b : List ℕ) (i x : ℕ)
    → i < length b
    → (word_sum (set b i x) + byte b i ≡ word_sum b + x)
      ⊎ (word_sum (set b i x) + byte b i * 256 ≡ word_sum b + x * 256)
unfolding word_sum
word_sum-set [] i x h = absurd (omega arith)
word_sum-set (b ∷ []) zero x h = inl (omega arith)
word_sum-set (b ∷ []) (suc i) x h = absurd (omega arith)
word_sum-set (b ∷ c ∷ rest) zero x h = inl (omega arith)
word_sum-set (b ∷ c ∷ rest) (suc zero) x h = inr (omega arith)
word_sum-set (b ∷ c ∷ rest) (suc (suc i)) x h = elim (word_sum-set rest i x (omega arith)) [
  | inl e ↦ inl (omega arith)
  | inr e ↦ inr (omega arith)
]

-- Changing one byte of a buffer of bytes to another byte changes the checksum.
pub wire_checksum_detects :
    (b : List ℕ) (i x : ℕ)
    → AllBytes b
    → i < length b
    → x < 256
    → x ≢ byte b i
    → wire_checksum (set b i x) ≢ wire_checksum b
wire_checksum_detects b i x h l hx d e = elim (word_sum-set b i x l) [
  | inl w ↦ omega (
    arith,
    AllBytes-byte b i h,
    wire_checksum_complements b h,
    wire_checksum_complements (set b i x) (AllBytes-set b i x h hx),
  )
  | inr w ↦ omega (
    arith,
    AllBytes-byte b i h,
    wire_checksum_complements b h,
    wire_checksum_complements (set b i x) (AllBytes-set b i x h hx),
  )
]
