-- ===== src/Env/Tests.antt =====
-- Tests of the reading of numbers from the environment.
use low_latency_trading_pipe.Base.{◌-◌, ◌^◌, ◌≡◌, refl, [], ◌∷◌}
use low_latency_trading_pipe.Env.{strtoul, after_spaces, skip_spaces, read_signed, read_digits}

-- " -3" is 2^64 - 3, "12x" leaves "x", and "x" is not read.
strtoul_runs :
    (strtoul (0x20 ∷ 0x2d ∷ 0x33 ∷ []) ≡ (2 ^ 64 - 3, []))
    × (strtoul (0x31 ∷ 0x32 ∷ 0x78 ∷ []) ≡ (12, 0x78 ∷ []))
    × (strtoul (0x20 ∷ 0x78 ∷ []) ≡ (0, 0x20 ∷ 0x78 ∷ []))
unfolding strtoul after_spaces skip_spaces read_signed read_digits
strtoul_runs = (refl, refl, refl)
