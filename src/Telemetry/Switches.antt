-- ===== src/Telemetry/Switches.antt =====
-- The switches that the commands of src/telemetry/telemetry.cpp set.
use low_latency_trading_pipe.Base.{
  ℕ, ◌≤◌, ◌≡◌, refl, ap, ◌∙◌, ◌≢◌, inl, inr, true, false, Option, none, some, List, [], ◌∷◌, ◌++◌,
  arith, Bool-cases,
}
use low_latency_trading_pipe.Env.{all_digits, number, strtoul_digits, strtoul}
use low_latency_trading_pipe.Engine.Maker.{Params, Doubles, Desk, Request}
use low_latency_trading_pipe.Engine.FillSim.{FillSim}
use low_latency_trading_pipe.Engine.Maker.Panic.{Input, IsSilent, react_all, react_all-IsSilent}
use low_latency_trading_pipe.Engine.Dispatch.{shard_for_locate, not_in_universe}
use low_latency_trading_pipe.Telemetry.{
  known_shard, MarketMaker, kill, same, kill_global_text, arm_all_text, kill_symbol_text,
  split_at_space, read_shard, apply_symbol, apply_words, apply_command_line, apply_lines,
}

-- No line is the given one.
abbrev pub NoneIs : List ℕ → List (List ℕ) → Type 0
NoneIs text [] = Unit
NoneIs text (l ∷ ls) = (same l text ≡ false) × NoneIs text ls

known_shard_lem : (shard : ℕ) → shard ≢ not_in_universe → known_shard shard ≡ some shard
known_shard_lem shard u = ground (arith, u)

-- A locate of the universe in digits is read as its symbol.
read_shard_digits :
    (c : ℕ) (cs : List ℕ)
    → all_digits (c ∷ cs) ≡ true
    → number 0 (c ∷ cs) ≤ 65535
    → shard_for_locate (number 0 (c ∷ cs)) ≢ not_in_universe
    → read_shard (c ∷ cs) ≡ some (shard_for_locate (number 0 (c ∷ cs)))
unfolding read_shard
read_shard_digits c cs d l u =
    let value : strtoul (c ∷ cs) ≡ (number 0 (c ∷ cs), []) =
      strtoul_digits c cs d ∙ ap (λ n. (n, [])) (ground (arith, l)) in
    let n = number 0 (c ∷ cs) in
    rw value (ground (arith, l) ∙ known_shard_lem (shard_for_locate n) u)

module _ {D : Type 0} where
  apply_symbol-global :
      (op : List ℕ) (shard : Option ℕ) (m : MarketMaker D)
      → (apply_symbol op shard m).shared ≡ m.shared
  unfolding apply_symbol
  apply_symbol-global op none m = refl
  apply_symbol-global op (some shard) m = ground arith

  apply_words-global :
      (words : Option (List ℕ × List ℕ)) (m : MarketMaker D)
      → (apply_words words m).shared ≡ m.shared
  apply_words-global none m = refl
  apply_words-global (some (op, arg)) m = apply_symbol-global op (read_shard arg) m

  -- A line other than arm_all leaves the global switch on.
  apply_command_line-global :
      (line : List ℕ) (m : MarketMaker D)
      → same line arm_all_text ≡ false
      → m.shared.global_kill ≡ true
      → (apply_command_line line m).shared.global_kill ≡ true
  unfolding apply_command_line
  apply_command_line-global line m n h = elim (Bool-cases (same line kill_global_text)) [
    | inl e ↦ rw e refl
    | inr e ↦ rw (e, n) (ap (λ s. s.global_kill) (apply_words-global (split_at_space line) m) ∙ h)
  ]

  apply_lines-global :
      (ls : List (List ℕ)) (m : MarketMaker D)
      → NoneIs arm_all_text ls
      → m.shared.global_kill ≡ true
      → (apply_lines ls m).shared.global_kill ≡ true
  unfolding apply_lines
  apply_lines-global [] m n h = h
  apply_lines-global (l ∷ ls) m n h =
      apply_lines-global ls (apply_command_line l m) n.1 (apply_command_line-global l m n.0 h)

  kill_global-stops :
      (ls ls' : List (List ℕ)) (m : MarketMaker D)
      → NoneIs arm_all_text ls'
      → (apply_lines (ls ++ (kill_global_text ∷ ls')) m).shared.global_kill ≡ true
  unfolding apply_lines apply_command_line
  kill_global-stops [] ls' m n =
      apply_lines-global ls' (apply_command_line kill_global_text m) n refl
  kill_global-stops (l ∷ ls) ls' m n = kill_global-stops ls ls' (apply_command_line l m) n

  -- The desk of a symbol, with its simulation and what has been emitted.
  abbrev pub desk_of : MarketMaker D → ℕ → FillSim → List Request → Desk D
  desk_of m shard fsim emitted = record {
    state = m.states shard;
    shared = m.shared;
    fsim = fsim;
    emitted = emitted;
  }

  -- After commands with kill_global among them and no arm_all behind it, no events and fills make the
  -- desk of any symbol emit anything, whatever the other commands are.
  pub kill_global-IsSilent :
      (p : Params) (f : Doubles D) (ls ls' : List (List ℕ)) (m : MarketMaker D) (shard : ℕ)
      (fsim : FillSim) (emitted : List Request) (is : List Input)
      → NoneIs arm_all_text ls'
      → let d = desk_of (apply_lines (ls ++ (kill_global_text ∷ ls')) m) shard fsim emitted in
        IsSilent d (react_all p f d is)
  kill_global-IsSilent p f ls ls' m shard fsim emitted is n =
      react_all-IsSilent p f
        (desk_of (apply_lines (ls ++ (kill_global_text ∷ ls')) m) shard fsim emitted) is
        (rw (kill_global-stops ls ls' m n) refl)

  -- The command with the number of a symbol, written in digits, sets that symbol's switch and nothing
  -- else.
  pub kill_symbol-kill :
      (c : ℕ) (cs : List ℕ) (m : MarketMaker D)
      → all_digits (c ∷ cs) ≡ true
      → number 0 (c ∷ cs) ≤ 65535
      → shard_for_locate (number 0 (c ∷ cs)) ≢ not_in_universe
      → apply_command_line (kill_symbol_text ++ (0x20 ∷ c ∷ cs)) m
        ≡ kill (shard_for_locate (number 0 (c ∷ cs))) m
  unfolding apply_command_line split_at_space same apply_symbol read_shard
  kill_symbol-kill c cs m d l u =
      ap (λ r. apply_symbol kill_symbol_text r m) (read_shard_digits c cs d l u)
