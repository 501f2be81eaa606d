-- ===== src/Telemetry.antt =====
-- The control socket of src/telemetry/telemetry.cpp: the lines that a client sends, and the switches of
-- include/hft/engine/strategy/mm_mean_reversion.hpp that they set. A text is its bytes; the strategy
-- is there, since start sets it before the thread runs.
pub mod Stream
pub mod Switches
mod Tests
use low_latency_trading_pipe.Base.{
  ℕ, ◌-◌, Bool, true, false, ◌&&◌, ◌||◌, not, Option, none, some, List, [], ◌∷◌, ◌++◌, ltb, ◌==◌,
  if◌then◌else◌, length, take, drop, update,
}
use Prim.Native.Nat.{min}
use low_latency_trading_pipe.Env.{strtoul}
use low_latency_trading_pipe.Engine.Maker.{State, Shared, Params}
use low_latency_trading_pipe.Engine.Dispatch.{shard_for_locate, not_in_universe}

-- The states of the symbols, and what they share.
pub record MarketMaker (D : Type 0) : Type 0 where
  pub states : ℕ → State D
  pub shared : Shared

module _ {D : Type 0} where
  abbrev pub set_panic : Bool → ℕ → MarketMaker D → MarketMaker D
  set_panic b shard m = record m {
    states = update m.states shard (record (m.states shard) { panic = b });
  }

  abbrev pub arm : ℕ → MarketMaker D → MarketMaker D
  arm = set_panic false

  abbrev pub kill : ℕ → MarketMaker D → MarketMaker D
  kill = set_panic true

  abbrev pub kill_global : MarketMaker D → MarketMaker D
  kill_global m = record m { shared = record (m.shared) { global_kill = true } }

  abbrev pub arm_all : MarketMaker D → MarketMaker D
  arm_all m = record {
    states = λ i. record (m.states i) { panic = false };
    shared = record (m.shared) { global_kill = false };
  }

  -- set_params, as far as it is about the state: full buckets.
  abbrev pub set_params : Params → MarketMaker D → MarketMaker D
  set_params p m = record {
    states = λ i. record (m.states i) { tokens = p.burst_msgs };
    shared = record (m.shared) { agg_tokens = p.burst_msgs };
  }

-- The equality of string_view.
unfoldable pub same : List ℕ → List ℕ → Bool
same [] [] = true
same [] (y ∷ ys) = false
same (x ∷ xs) [] = false
same (x ∷ xs) (y ∷ ys) = x == y && same xs ys

-- find(' ') with the two substrings: none without a space.
unfoldable pub split_at_space : List ℕ → Option (List ℕ × List ℕ)
split_at_space [] = none
split_at_space (c ∷ cs) =
    let rest = split_at_space cs in if c == 0x20 then some ([], cs) else in_front rest
  where
    in_front : Option (List ℕ × List ℕ) → Option (List ℕ × List ℕ)
    in_front none = none
    in_front (some (op, arg)) = some (c ∷ op, arg)

-- "kill_global" and the other words.
abbrev pub kill_global_text : List ℕ
kill_global_text = 0x6b ∷ 0x69 ∷ 0x6c ∷ 0x6c ∷ 0x5f ∷ 0x67 ∷ 0x6c ∷ 0x6f ∷ 0x62 ∷ 0x61 ∷ 0x6c ∷ []

abbrev pub arm_all_text : List ℕ
arm_all_text = 0x61 ∷ 0x72 ∷ 0x6d ∷ 0x5f ∷ 0x61 ∷ 0x6c ∷ 0x6c ∷ []

abbrev pub kill_symbol_text : List ℕ
kill_symbol_text = 0x6b ∷ 0x69 ∷ 0x6c ∷ 0x6c ∷ 0x5f ∷ 0x73 ∷ 0x79 ∷ 0x6d ∷ 0x62 ∷ 0x6f ∷ 0x6c ∷ []

abbrev pub arm_symbol_text : List ℕ
arm_symbol_text = 0x61 ∷ 0x72 ∷ 0x6d ∷ 0x5f ∷ 0x73 ∷ 0x79 ∷ 0x6d ∷ 0x62 ∷ 0x6f ∷ 0x6c ∷ []

abbrev pub known_shard : ℕ → Option ℕ
known_shard shard = if shard == not_in_universe then none else some shard

-- The symbol that an argument names, if it is a number of the universe and nothing else.
unfoldable pub read_shard : List ℕ → Option ℕ
unfolding strtoul
read_shard arg =
    let r = strtoul arg in
    if length r.1 == length arg || (not (length r.1 == 0) || ltb 65535 r.0)
    then none
    else known_shard (shard_for_locate r.0)

module _ {D : Type 0} where
  unfoldable pub apply_symbol : List ℕ → Option ℕ → MarketMaker D → MarketMaker D
  unfolding same
  apply_symbol op none m = m
  apply_symbol op (some shard) m =
      if same op kill_symbol_text
      then kill shard m
      else if same op arm_symbol_text
      then arm shard m
      else m

  abbrev pub apply_words : Option (List ℕ × List ℕ) → MarketMaker D → MarketMaker D
  apply_words none m = m
  apply_words (some (op, arg)) m = apply_symbol op (read_shard arg) m

  unfoldable pub apply_command_line : List ℕ → MarketMaker D → MarketMaker D
  unfolding same split_at_space apply_symbol read_shard
  apply_command_line line m =
      if same line kill_global_text
      then kill_global m
      else if same line arm_all_text
      then arm_all m
      else apply_words (split_at_space line) m

  unfoldable pub apply_lines : List (List ℕ) → MarketMaker D → MarketMaker D
  unfolding apply_command_line
  apply_lines [] m = m
  apply_lines (l ∷ ls) m = apply_lines ls (apply_command_line l m)

-- A C string: the bytes before the first that is 0.
unfoldable pub c_string : List ℕ → List ℕ
c_string [] = []
c_string (c ∷ cs) = let rest = c_string cs in if c == 0 then [] else c ∷ rest

-- A byte in front of the lines: it joins the first, and a newline ends an empty line there.
abbrev pub join_byte : ℕ → List (List ℕ) → List ℕ → List (List ℕ) × List ℕ
join_byte c [] rest = ([], c ∷ rest)
join_byte c (l ∷ ls) rest = ((c ∷ l) ∷ ls, rest)

unfoldable pub put_byte : ℕ → List (List ℕ) × List ℕ → List (List ℕ) × List ℕ
put_byte c (ls, rest) = if c == 0x0a then ([] ∷ ls, rest) else join_byte c ls rest

-- The lines that strchr finds, without their newlines, and what is behind the last.
unfoldable pub split_lines : List ℕ → List (List ℕ) × List ℕ
unfolding put_byte
split_lines [] = ([], [])
split_lines (c ∷ cs) = put_byte c (split_lines cs)

-- sizeof(buf)
abbrev pub buffer_size : ℕ
buffer_size = 256

-- How many bytes a read returns when n have come.
abbrev pub read_size : ℕ → List ℕ → List ℕ → ℕ
read_size n buf sent = min n (min (buffer_size - length buf - 1) (length sent))

-- The loop over a client: each read takes what the client has sent in the meantime, `sizes`, as far as
-- there is room in the buffer; a read of no bytes ends it.
unfoldable pub control_client :
    {D : Type 0} → List ℕ → List ℕ → List ℕ → MarketMaker D → MarketMaker D
unfolding split_lines c_string apply_lines
control_client [] buf sent m = m
control_client (n ∷ sizes) buf sent m =
    let rc = read_size n buf sent in
    let r = split_lines (c_string (buf ++ take rc sent)) in
    let later = control_client sizes r.1 (drop rc sent) (apply_lines r.0 m) in
    if rc == 0 then m else later
