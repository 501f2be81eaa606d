-- ===== src/Base/Words.antt =====
-- Machine words as native numbers with their wrap-around, and bytes read from a buffer.
use Prim.Native.Nat.{ℕ, ◌+◌, ◌-◌, ◌*◌, ◌/◌, ◌%◌, ◌^◌}
use mathlib.Core.List.{List, [], ◌∷◌}
use low_latency_trading_pipe.Base.Lists.{get_or}

abbrev pub u16 : ℕ → ℕ
u16 x = x % 2 ^ 16

abbrev pub u32 : ℕ → ℕ
u32 x = x % 2 ^ 32

abbrev pub u64 : ℕ → ℕ
u64 x = x % 2 ^ 64

-- Unsigned subtraction wraps; `-` on ℕ stops at 0, so the modulus is added first.
abbrev pub sub16 : ℕ → ℕ → ℕ
sub16 a b = (a + 2 ^ 16 - b) % 2 ^ 16

abbrev pub sub32 : ℕ → ℕ → ℕ
sub32 a b = (a + 2 ^ 32 - b) % 2 ^ 32

abbrev pub sub64 : ℕ → ℕ → ℕ
sub64 a b = (a + 2 ^ 64 - b) % 2 ^ 64

abbrev pub max_u64 : ℕ
max_u64 = 2 ^ 64 - 1

-- The byte at an offset of a buffer.
abbrev pub byte : List ℕ → ℕ → ℕ
byte b i = get_or b i 0

-- Big-endian reads at an offset.
abbrev pub be16 : List ℕ → ℕ → ℕ
be16 b i = byte b i * 256 + byte b (i + 1)

abbrev pub be32 : List ℕ → ℕ → ℕ
be32 b i = byte b i * 2 ^ 24 + byte b (i + 1) * 2 ^ 16 + byte b (i + 2) * 2 ^ 8 + byte b (i + 3)

abbrev pub be64 : List ℕ → ℕ → ℕ
be64 b i =
    byte b i * 2 ^ 56
    + byte b (i + 1) * 2 ^ 48
    + byte b (i + 2) * 2 ^ 40
    + byte b (i + 3) * 2 ^ 32
    + byte b (i + 4) * 2 ^ 24
    + byte b (i + 5) * 2 ^ 16
    + byte b (i + 6) * 2 ^ 8
    + byte b (i + 7)

-- The big-endian bytes of a field.
abbrev pub put16 : ℕ → List ℕ
put16 x = x / 2 ^ 8 % 256 ∷ x % 256 ∷ []

abbrev pub put32 : ℕ → List ℕ
put32 x = x / 2 ^ 24 % 256 ∷ x / 2 ^ 16 % 256 ∷ x / 2 ^ 8 % 256 ∷ x % 256 ∷ []

abbrev pub put48 : ℕ → List ℕ
put48 x =
    x / 2 ^ 40 % 256
    ∷ x / 2 ^ 32 % 256
    ∷ x / 2 ^ 24 % 256
    ∷ x / 2 ^ 16 % 256
    ∷ x / 2 ^ 8 % 256
    ∷ x % 256
    ∷ []

abbrev pub put64 : ℕ → List ℕ
put64 x =
    x / 2 ^ 56 % 256
    ∷ x / 2 ^ 48 % 256
    ∷ x / 2 ^ 40 % 256
    ∷ x / 2 ^ 32 % 256
    ∷ x / 2 ^ 24 % 256
    ∷ x / 2 ^ 16 % 256
    ∷ x / 2 ^ 8 % 256
    ∷ x % 256
    ∷ []
