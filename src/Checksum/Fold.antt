-- ===== src/Checksum/Fold.antt =====
-- cksum_fold16 and csum_replace2: the fold of a sum, its rounds and its remainder.
use low_latency_trading_pipe.Base.{ℕ, ◌+◌, ◌-◌, ◌%◌, ◌^◌, ◌<◌, ◌≡◌, some, arith, u32}
use low_latency_trading_pipe.Checksum.{fold_loop, cksum_fold16, csum_replace2, not16}

-- For a sum of 32 bits the fold has ended after two turns and the last test, and more turns change
-- nothing.
pub fold_loop_ends : (n sum : ℕ) → sum < 2 ^ 32 → fold_loop (n + 3) sum ≡ some (cksum_fold16 sum)
unfolding cksum_fold16 fold_loop
fold_loop_ends n sum h = ground arith

-- The folded sum of a sum that is not zero: the number from 1 to 0xffff with its remainder.
pub cksum_fold16_lem :
    (sum : ℕ)
    → 0 < sum
    → sum < 2 ^ 32
    → (0 < cksum_fold16 sum × cksum_fold16 sum < 2 ^ 16)
      × cksum_fold16 sum % (2 ^ 16 - 1) ≡ sum % (2 ^ 16 - 1)
unfolding cksum_fold16 fold_loop
cksum_fold16_lem sum h k = ground arith

-- The incremental update of a header's checksum, when one word of its sum is replaced, is the
-- checksum of the new sum.
pub csum_replace2_lem :
    (others old_word new_word : ℕ)
    → 0 < others
    → others < 2 ^ 31
    → old_word < 2 ^ 16
    → new_word < 2 ^ 16
    → csum_replace2 (not16 (cksum_fold16 (others + old_word))) old_word new_word
      ≡ not16 (cksum_fold16 (others + new_word))
unfolding csum_replace2
csum_replace2_lem others old_word new_word p b o n =
    let kept = cksum_fold16 (others + old_word) in
    let summed = u32 (u32 (not16 (not16 kept) + not16 old_word) + new_word) in
    let l = cksum_fold16_lem (others + old_word) (omega arith) (omega arith) in
    omega (
      arith,
      l,
      cksum_fold16_lem summed (omega (arith, l)) (omega (arith, l)),
      cksum_fold16_lem (others + new_word) (omega arith) (omega arith),
    )
