-- ===== src/Env.antt =====
-- The reading of environment variables in src/afxdp/afxdp_receiver.c and apps/engine/dispatcher.cpp.
-- A variable is absent or the bytes of a C string; strtoul is the C library's, in base 10.
mod Tests
use low_latency_trading_pipe.Base.{
  ℕ, ◌+◌, ◌-◌, ◌*◌, ◌%◌, ◌^◌, ◌≡◌, refl, Bool, true, false, ◌&&◌, ◌||◌, not, Option, none, some,
  List, [], ◌∷◌, arith, ltb, leb, ◌==◌, if◌then◌else◌, length, minus, u32,
}

-- afxdp_env_flag_enabled
unfoldable pub flag_enabled : Option (List ℕ) → Bool
flag_enabled none = false
flag_enabled (some []) = false
flag_enabled (some (c ∷ [])) = not (c == 0x30)
flag_enabled (some (c ∷ d ∷ rest)) = true

abbrev pub is_digit : ℕ → Bool
is_digit c = leb 0x30 c && leb c 0x39

abbrev pub is_space : ℕ → Bool
is_space c = c == 0x20 || (leb 9 c && leb c 13)

-- The number of the digits at the front, on top of those read, and what follows.
unfoldable pub read_digits : ℕ → List ℕ → ℕ × List ℕ
read_digits n [] = (n, [])
read_digits n (c ∷ cs) =
    let rest = read_digits (n * 10 + (c - 0x30)) cs in if is_digit c then rest else (n, c ∷ cs)

unfoldable pub skip_spaces : List ℕ → List ℕ
skip_spaces [] = []
skip_spaces (c ∷ cs) = let rest = skip_spaces cs in if is_space c then rest else c ∷ cs

abbrev pub ulong_max : ℕ
ulong_max = 2 ^ 64 - 1

-- The value within an unsigned long: too large a number is the largest, and a minus sign wraps.
abbrev pub clamped : Bool → ℕ → ℕ
clamped minus n = if ltb ulong_max n then ulong_max else if minus then (2 ^ 64 - n) % 2 ^ 64 else n

-- The digits after the sign; with none, nothing of the whole text is read.
unfoldable pub read_signed : List ℕ → Bool → List ℕ → ℕ × List ℕ
unfolding read_digits
read_signed text minus [] = (0, text)
read_signed text minus (c ∷ cs) =
    let r = read_digits 0 (c ∷ cs) in if is_digit c then (clamped minus r.0, r.1) else (0, text)

unfoldable pub after_spaces : List ℕ → List ℕ → ℕ × List ℕ
unfolding read_signed
after_spaces text [] = (0, text)
after_spaces text (c ∷ cs) =
    if c == 0x2d
    then read_signed text true cs
    else if c == 0x2b
    then read_signed text false cs
    else read_signed text false (c ∷ cs)

-- The value, and the text from `end` on.
unfoldable pub strtoul : List ℕ → ℕ × List ℕ
unfolding after_spaces skip_spaces
strtoul text = after_spaces text (skip_spaces text)

-- env_u32_or_default
unfoldable pub u32_or_default : Option (List ℕ) → ℕ → ℕ
unfolding strtoul
u32_or_default none fallback = fallback
u32_or_default (some []) fallback = fallback
u32_or_default (some (c ∷ cs)) fallback =
    let r = strtoul (c ∷ cs) in if length r.1 == 0 then u32 r.0 else fallback

-- The period in start_deadman_if_enabled; without one the dead-man thread is not started.
unfoldable pub deadman_ms : Option (List ℕ) → Option ℕ
unfolding strtoul
deadman_ms none = none
deadman_ms (some []) = none
deadman_ms (some (c ∷ cs)) =
    let r = strtoul (c ∷ cs) in if length r.1 == 0 && not (r.0 == 0) then some r.0 else none

-- A text of digits, and the number that it writes.
unfoldable pub all_digits : List ℕ → Bool
all_digits [] = true
all_digits (c ∷ cs) = is_digit c && all_digits cs

unfoldable pub number : ℕ → List ℕ → ℕ
number n [] = n
number n (c ∷ cs) = number (n * 10 + (c - 0x30)) cs

read_digits_all :
    (n : ℕ) (cs : List ℕ) → all_digits cs ≡ true → read_digits n cs ≡ (number n cs, [])
unfolding read_digits all_digits number
read_digits_all n [] h = refl
read_digits_all n (c ∷ cs) h = ground (arith, read_digits_all (n * 10 + (c - 0x30)) cs)

pub strtoul_digits :
    (c : ℕ) (cs : List ℕ)
    → all_digits (c ∷ cs) ≡ true
    → strtoul (c ∷ cs)
      ≡ (if ltb ulong_max (number 0 (c ∷ cs)) then ulong_max else number 0 (c ∷ cs), [])
unfolding strtoul after_spaces skip_spaces read_signed all_digits
strtoul_digits c cs h = ground (arith, read_digits_all 0 (c ∷ cs) h)

-- A text of one or more digits is read as its number modulo 2^32, and as 2^32 - 1 if the number does
-- not fit 64 bits.
pub u32_or_default_digits :
    (c : ℕ) (cs : List ℕ) (fallback : ℕ)
    → all_digits (c ∷ cs) ≡ true
    → u32_or_default (some (c ∷ cs)) fallback
      ≡ (if ltb ulong_max (number 0 (c ∷ cs)) then 2 ^ 32 - 1 else u32 (number 0 (c ∷ cs)))
unfolding u32_or_default
u32_or_default_digits c cs fallback h = rw (strtoul_digits c cs h) (ground arith)
