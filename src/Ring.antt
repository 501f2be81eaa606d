-- ===== src/Ring.antt =====
-- The two single-producer single-consumer rings, PARSER_ENGINE and ORDER_TO_EXC
-- (include/hft/ring_buffers): both have 512 * 1024 places and uint32_t cursors that wrap.
pub mod Queue
mod Tests
use low_latency_trading_pipe.Base.{
  ℕ, ◌+◌, ◌*◌, ◌%◌, Bool, true, false, Option, none, some, leb, ◌==◌, if◌then◌else◌, update, u32,
  sub32,
}

abbrev pub size : ℕ
size = 512 * 1024

-- `i & (size - 1)`, for a size that is a power of two.
abbrev pub mask : ℕ → ℕ
mask i = i % size

pub record Ring {ℓ} (A : Type ℓ) : Type ℓ where
  pub next_write : ℕ
  pub next_read : ℕ
  pub slots : ℕ → A

-- The producer: a full ring refuses, otherwise the slot is written before the cursor is stored.
unfoldable pub publish {ℓ} : {A : Type ℓ} → Ring A → A → Bool × Ring A
publish r x = if leb size (sub32 r.next_write r.next_read) then (false, r) else (
  true,
  record r { next_write = u32 (r.next_write + 1); slots = update r.slots (mask r.next_write) x },
)

-- The consumer: it reads the slot at its cursor, then stores the cursor one further.
pub consume {ℓ} : {A : Type ℓ} → Ring A → Option (A × Ring A)
consume r =
    if r.next_read == r.next_write
    then none
    else some (r.slots (mask r.next_read), record r { next_read = u32 (r.next_read + 1) })
