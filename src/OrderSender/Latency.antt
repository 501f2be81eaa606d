-- ===== src/OrderSender/Latency.antt =====
-- The latency sampler of apps/client/order_sender.c: the ring of samples, and the percentiles of a
-- snapshot.
use low_latency_trading_pipe.Base.{
  ℕ, zero, suc, ◌+◌, ◌-◌, ◌*◌, ◌/◌, ◌%◌, ◌^◌, ◌≤◌, ◌<◌, ◌≡◌, refl, ap, ap₂, ◌∙◌, ◌&&◌, not, Option,
  none, some, List, [], ◌∷◌, ◌++◌, arith, ℕ_discrete, ltb, leb, ◌==◌, if◌then◌else◌, length, get_or,
  update, update_self, update_ne, tabulate, u32, sub32,
}
use low_latency_trading_pipe.OrderSender.{Order}

-- LAT_RING_SZ; the mask of a power of two is the remainder.
abbrev pub lat_ring_size : ℕ
lat_ring_size = 4096

pub record Sampler : Type 0 where
  pub lat_ring : ℕ → ℕ
  pub lat_count : ℕ
  pub lat_window_start : ℕ

-- The time from parse to send, as a uint32_t that stops at its largest value; 0 where the parse time
-- is unknown or later.
pub latency : ℕ → ℕ → ℕ
latency parse_ns send_ns =
    if not (parse_ns == 0) && leb parse_ns send_ns
    then (if ltb (2 ^ 32 - 1) (send_ns - parse_ns) then 2 ^ 32 - 1 else send_ns - parse_ns)
    else 0

pub sample : Sampler → Order → ℕ → Sampler
unfolding latency
sample s slot send_ns = record s {
  lat_ring = update s.lat_ring (s.lat_count % lat_ring_size) (latency slot.parse_ns send_ns);
  lat_count = u32 (s.lat_count + 1);
}

-- The last n samples, oldest first.
pub last_samples : Sampler → ℕ → List ℕ
last_samples s n = tabulate n (λ i. s.lat_ring (u32 (sub32 s.lat_count n + i) % lat_ring_size))

-- qsort with u32_cmp.
pub insert : ℕ → List ℕ → List ℕ
insert x [] = x ∷ []
insert x (y ∷ ys) = let later = y ∷ insert x ys in if leb x y then x ∷ y ∷ ys else later

pub sort : List ℕ → List ℕ
unfolding insert
sort [] = []
sort (x ∷ xs) = insert x (sort xs)

pub record Percentiles : Type 0 where
  pub p50 : ℕ
  pub p90 : ℕ
  pub p99 : ℕ
  pub mx : ℕ
  pub count : ℕ

pub percentiles : List ℕ → ℕ → Percentiles
percentiles buf n = record {
  p50 = get_or buf (n * 50 / 100) 0;
  p90 = get_or buf (n * 90 / 100) 0;
  p99 = get_or buf (if leb 100 n then n * 99 / 100 else n - 1) 0;
  mx = get_or buf (n - 1) 0;
  count = n;
}

-- order_sender_lat_snapshot_ns: zeroes while there is no sample.
pub snapshot : Sampler → Percentiles
unfolding percentiles last_samples sort
snapshot s =
    let n = if ltb s.lat_count lat_ring_size then s.lat_count else lat_ring_size in
    if s.lat_count == 0
    then record { p50 = 0; p90 = 0; p99 = 0; mx = 0; count = 0 }
    else percentiles (sort (last_samples s n)) n

-- lat_print_and_reset: what it prints, if anything, and the window that it starts.
pub print_and_reset : Sampler → Option Percentiles × Sampler
unfolding percentiles last_samples sort
print_and_reset s =
    let total = sub32 s.lat_count s.lat_window_start in
    let n = if ltb total lat_ring_size then total else lat_ring_size in
    if total == 0 then (none, s) else (
      some (percentiles (sort (last_samples s n)) n),
      record s { lat_window_start = s.lat_count },
    )

-- Sorted, with no element below the bound.
abbrev SortedFrom : ℕ → List ℕ → Type 0
SortedFrom b [] = Unit {0}
SortedFrom b (x ∷ xs) = (b ≤ x) × SortedFrom x xs

insert-SortedFrom : (b x : ℕ) (ys : List ℕ) → b ≤ x → SortedFrom b ys → SortedFrom b (insert x ys)
unfolding insert
insert-SortedFrom b x [] h s = (h, tt)
insert-SortedFrom b x (y ∷ ys) h s = ground (arith, insert-SortedFrom y x ys)

sort-SortedFrom : (xs : List ℕ) → SortedFrom 0 (sort xs)
unfolding sort
sort-SortedFrom [] = tt
sort-SortedFrom (x ∷ xs) = insert-SortedFrom 0 x (sort xs) (omega arith) (sort-SortedFrom xs)

length-insert : (x : ℕ) (ys : List ℕ) → length (insert x ys) ≡ suc (length ys)
unfolding insert
length-insert x [] = refl
length-insert x (y ∷ ys) = ground (arith, length-insert x ys)

length-sort : (xs : List ℕ) → length (sort xs) ≡ length xs
unfolding sort
length-sort [] = refl
length-sort (x ∷ xs) = omega (arith, length-insert x (sort xs), length-sort xs)

length-tabulate : (n : ℕ) (f : ℕ → ℕ) → length (tabulate n f) ≡ n
length-tabulate zero f = refl
length-tabulate (suc n) f = ap suc (length-tabulate n (λ i. f (suc i)))

sorted_first : (b : ℕ) (xs : List ℕ) (i : ℕ) → SortedFrom b xs → i < length xs → b ≤ get_or xs i 0
sorted_first b [] i s h = absurd (omega arith)
sorted_first b (x ∷ xs) zero s h = s.0
sorted_first b (x ∷ xs) (suc i) s h = omega (arith, sorted_first x xs i s.1 (omega arith))

sorted_get :
    (b : ℕ) (xs : List ℕ) (i j : ℕ)
    → SortedFrom b xs
    → i ≤ j
    → j < length xs
    → get_or xs i 0 ≤ get_or xs j 0
sorted_get b [] i j s h k = absurd (omega arith)
sorted_get b (x ∷ xs) zero zero s h k = omega arith
sorted_get b (x ∷ xs) zero (suc j) s h k = sorted_first x xs j s.1 (omega arith)
sorted_get b (x ∷ xs) (suc i) zero s h k = absurd (omega arith)
sorted_get b (x ∷ xs) (suc i) (suc j) s h k = sorted_get x xs i j s.1 (omega arith) (omega arith)

abbrev pub IsOrdered : Percentiles → Type 0
IsOrdered p = (p.p50 ≤ p.p90) × (p.p90 ≤ p.p99) × (p.p99 ≤ p.mx)

percentiles-IsOrdered :
    (xs : List ℕ) (n : ℕ) → length xs ≡ n → 0 < n → IsOrdered (percentiles (sort xs) n)
unfolding percentiles
percentiles-IsOrdered xs n l h =
    let s = sort-SortedFrom xs in
    let k = length-sort xs in
    (
      sorted_get 0 (sort xs) (n * 50 / 100) (n * 90 / 100) s (omega arith) (omega arith),
      sorted_get 0 (sort xs) (n * 90 / 100) (if leb 100 n then n * 99 / 100 else n - 1) s
          (ground arith) (ground arith),
      sorted_get 0 (sort xs) (if leb 100 n then n * 99 / 100 else n - 1) (n - 1) s (ground arith)
          (omega arith),
    )

-- A snapshot counts at most 4096 samples and no more than were taken, and its percentiles are in
-- order; it counts none only if none was taken.
pub snapshot_lem :
    (s : Sampler)
    → IsOrdered (snapshot s)
      × ((snapshot s).count ≤ lat_ring_size)
      × ((snapshot s).count ≤ s.lat_count)
      × ((snapshot s).count ≡ 0 → s.lat_count ≡ 0)
unfolding snapshot percentiles
snapshot_lem s = elim (ℕ_discrete s.lat_count 0) [
  | yes e ↦ ground arith
  | no e ↦
      let n = if ltb s.lat_count lat_ring_size then s.lat_count else lat_ring_size in
      let p =
        percentiles-IsOrdered (last_samples s n) n
          (length-tabulate n (λ i. s.lat_ring (u32 (sub32 s.lat_count n + i) % lat_ring_size)))
          (ground arith) in
      ground (arith, p)
]

tabulate_snoc : (n : ℕ) (f : ℕ → ℕ) → tabulate (suc n) f ≡ tabulate n f ++ (f n ∷ [])
tabulate_snoc zero f = refl
tabulate_snoc (suc n) f = ap (λ t. f 0 ∷ t) (tabulate_snoc n (λ i. f (suc i)))

tabulate_ext : (n : ℕ) (f g : ℕ → ℕ) → ((i : ℕ) → i < n → f i ≡ g i) → tabulate n f ≡ tabulate n g
tabulate_ext zero f g h = refl
tabulate_ext (suc n) f g h =
    ap₂ ◌∷◌ (h 0 (omega arith)) (tabulate_ext n _ _ (λ i l. h (suc i) (omega arith)))

-- After a sample is taken, with a count of 32 bits, the last n + 1 samples are the last n of before
-- and the new one, for n below 4096.
pub last_samples-sample :
    (s : Sampler) (slot : Order) (send_ns n : ℕ)
    → n < lat_ring_size
    → s.lat_count < 2 ^ 32
    → last_samples (sample s slot send_ns) (suc n)
      ≡ last_samples s n ++ (latency slot.parse_ns send_ns ∷ [])
unfolding last_samples sample
last_samples-sample s slot send_ns n h w =
    let v = latency slot.parse_ns send_ns in
    let k = s.lat_count % lat_ring_size in
    tabulate_snoc n _
    ∙ ap₂ ◌++◌
        (tabulate_ext n _ _ (λ i l.
          let new : ℕ = u32 (sub32 (u32 (s.lat_count + 1)) (suc n) + i) % lat_ring_size in
          let old : ℕ = u32 (sub32 s.lat_count n + i) % lat_ring_size in
          let same : new ≡ old = omega arith in
          update_ne s.lat_ring k new v (omega arith) ∙ ap s.lat_ring same))
        (ap (λ y. y ∷ [])
          (update_self s.lat_ring k
            (u32 (sub32 (u32 (s.lat_count + 1)) (suc n) + n) % lat_ring_size) v (omega arith)))
