-- ===== src/Checksum.antt =====
-- include/hft/utils/checksum.h: the internet checksum's partial sum, in the plain form and with the
-- AVX2 loop in front, and the fold; and, of src/afxdp/afxdp_tx.c, ip_checksum and csum_replace2.
pub mod Fold
pub mod Lanes
mod Tests
use low_latency_trading_pipe.Base.{
  ℕ, zero, suc, ◌+◌, ◌-◌, ◌*◌, ◌/◌, ◌%◌, ◌^◌, Option, none, some, List, [], ◌∷◌, leb, ◌==◌,
  if◌then◌else◌, length, drop, u32,
}
use low_latency_trading_pipe.Wire.{get32}

-- The loop over the words, and the odd byte at the end.
unfoldable pub cksum_partial : ℕ → List ℕ → ℕ
cksum_partial sum [] = sum
cksum_partial sum (b ∷ []) = u32 (sum + b)
cksum_partial sum (b ∷ c ∷ rest) = cksum_partial (u32 (sum + (b + c * 2 ^ 8))) rest

-- The accumulator: eight lanes of 32 bits.
abbrev pub Lanes : Type 0
Lanes = ℕ → ℕ

-- One turn of the AVX2 loop: the low and the high halves of the eight words of a block are added.
abbrev pub add_block : Lanes → List ℕ → Lanes
add_block acc p i = u32 (u32 (acc i + get32 p (4 * i) % 2 ^ 16) + get32 p (4 * i) / 2 ^ 16)

-- The loop, while there are 32 bytes, and what it leaves.
unfoldable pub add_blocks : ℕ → Lanes → List ℕ → Lanes × List ℕ
add_blocks zero acc p = (acc, p)
add_blocks (suc n) acc p = add_blocks n (add_block acc p) (drop 32 p)

-- The two halves are added, then the lanes of the half, by two and by one.
abbrev pub reduce_lanes : Lanes → ℕ
reduce_lanes acc = u32 (
    u32 (u32 (acc 0 + acc 4) + u32 (acc 2 + acc 6))
    + u32 (u32 (acc 1 + acc 5) + u32 (acc 3 + acc 7)))

-- With `__AVX2__`: a loop takes every whole block of 32 bytes, and the plain loop the rest.
unfoldable pub cksum_partial_simd : ℕ → List ℕ → ℕ
unfolding add_blocks cksum_partial
cksum_partial_simd seed p =
    if leb 32 (length p)
    then (let (acc, rest) = add_blocks (length p / 32) (λ i. 0) p in
        cksum_partial (u32 (seed + reduce_lanes acc)) rest)
    else cksum_partial seed p

-- cksum_fold16 with as many turns as the first argument allows.
unfoldable pub fold_loop : ℕ → ℕ → Option ℕ
fold_loop zero sum = none
fold_loop (suc n) sum =
    let rest = fold_loop n (sum % 2 ^ 16 + sum / 2 ^ 16) in
    if sum / 2 ^ 16 == 0 then some sum else rest

-- Two turns and the last test, which is enough for 32 bits.
unfoldable pub cksum_fold16 : ℕ → ℕ
unfolding fold_loop
cksum_fold16 sum = elim (fold_loop 3 sum) [ none ↦ 0 | some s ↦ s ]

-- `~x` on a uint16_t.
abbrev pub not16 : ℕ → ℕ
not16 x = 2 ^ 16 - 1 - x

unfoldable pub ip_checksum : List ℕ → ℕ
unfolding cksum_fold16 cksum_partial_simd
ip_checksum b = not16 (cksum_fold16 (cksum_partial_simd 0 b))

unfoldable pub csum_replace2 : ℕ → ℕ → ℕ → ℕ
unfolding cksum_fold16
csum_replace2 old_csum old_word new_word =
    not16 (cksum_fold16 (u32 (u32 (not16 old_csum + not16 old_word) + new_word)))
