-- ===== src/Engine/Dispatch/Shards.antt =====
-- The table from locates to shards of include/hft/engine/universe.hpp.
use low_latency_trading_pipe.Base.{
  ℕ, ◌+◌, ◌≡◌, refl, ap, ◌∙◌, ◌≢◌, inl, inr, Bool, true, ◌&&◌, not, List, [], ◌∷◌, arith, ◌==◌,
  if◌then◌else◌, Bool-cases, update, update_self, update_ne,
}
use low_latency_trading_pipe.Engine.Dispatch.{locates, not_in_universe, write_lut, shard_for_locate}

-- Whether a list has an entry, and the entry's place.
unfoldable pub index_of : ℕ → List ℕ → ℕ → ℕ → ℕ
index_of locate [] i missing = missing
index_of locate (l ∷ ls) i missing =
    let rest = index_of locate ls (i + 1) missing in if locate == l then i else rest

-- No entry stands twice.
unfoldable pub absent : ℕ → List ℕ → Bool
absent x [] = true
absent x (y ∷ ys) = not (x == y) && absent x ys

unfoldable pub distinct : List ℕ → Bool
distinct [] = true
distinct (x ∷ xs) = absent x xs && distinct xs

write_lut_absent :
    (ls : List ℕ) (i : ℕ) (lut : ℕ → ℕ) (locate : ℕ)
    → absent locate ls ≡ true
    → write_lut ls i lut locate ≡ lut locate
unfolding write_lut absent
write_lut_absent [] i lut locate h = refl
write_lut_absent (l ∷ ls) i lut locate h =
    let apart : (locate ≢ l) × (absent locate ls ≡ true) = ground arith in
    write_lut_absent ls (i + 1) (update lut l i) locate apart.1 ∙ update_ne lut l locate i apart.0

write_lut_lem :
    (ls : List ℕ) (i : ℕ) (lut : ℕ → ℕ) (locate : ℕ)
    → distinct ls ≡ true
    → write_lut ls i lut locate ≡ index_of locate ls i (lut locate)
unfolding write_lut index_of distinct
write_lut_lem [] i lut locate h = refl
write_lut_lem (l ∷ ls) i lut locate h =
    let parts : (absent l ls ≡ true) × (distinct ls ≡ true) = ground arith in
    elim (Bool-cases (locate == l)) [
      | inl e ↦
          let same : locate ≡ l = ground arith in
          let gone : absent locate ls ≡ true = rw same parts.0 in
          rw e (
            write_lut_absent ls (i + 1) (update lut l i) locate gone
            ∙ update_self lut l locate i same)
      | inr e ↦ rw e (
          write_lut_lem ls (i + 1) (update lut l i) locate parts.1
          ∙ ap (index_of locate ls (i + 1)) (update_ne lut l locate i (ground arith)))
    ]

locates-distinct : distinct locates ≡ true
unfolding distinct absent
locates-distinct = refl

-- The shard of a locate is its place among the locates of the universe, and the value that stands
-- for none if it is not among them.
pub shard_for_locate-index :
    (locate : ℕ) → shard_for_locate locate ≡ index_of locate locates 0 not_in_universe
unfolding shard_for_locate
shard_for_locate-index locate =
    write_lut_lem locates 0 (λ l. not_in_universe) locate locates-distinct
