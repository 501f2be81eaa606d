-- ===== src/Rx/Pool.antt =====
-- Who holds the frames of src/afxdp/afxdp_receiver.c: the stack, the kernel, or the receiver.
use low_latency_trading_pipe.Base.{
  ℕ, zero, suc, ◌+◌, ◌/◌, ◌≤◌, ◌≡◌, refl, inl, inr, List, [], ◌∷◌, ◌++◌, arith, ltb, ◌==◌,
  if◌then◌else◌, Bool-cases, length,
}
use low_latency_trading_pipe.Rx.{
  num_frames, frame_size, Context, FillRing, fill_places, granted, alloc_umem_frame, to_fill,
  reserve_and_fill, refill_fq, Reserve, refused,
}

-- How many addresses of a list lie in a frame: the kernel takes any address of a frame for the frame,
-- and delivers one behind its headroom.
unfoldable pub count_frame : ℕ → List ℕ → ℕ
count_frame f [] = 0
count_frame f (x ∷ xs) = if x / frame_size == f then suc (count_frame f xs) else count_frame f xs

pub count_frame-append :
    (f : ℕ) (xs ys : List ℕ) → count_frame f (xs ++ ys) ≡ count_frame f xs + count_frame f ys
unfolding count_frame
count_frame-append f [] ys = omega arith
count_frame-append f (x ∷ xs) ys = ground (arith, count_frame-append f xs ys)

-- The frames of the region.
unfoldable pub in_pool : ℕ → ℕ
in_pool f = if ltb f num_frames then 1 else 0

-- The addresses that are held are those given back and those that are left, by their frames.
pub record GivesBack (held addrs left : List ℕ) : Type 0 where
  pub counts : (f : ℕ) → count_frame f held ≡ count_frame f addrs + count_frame f left
  pub lengths : length held ≡ length addrs + length left

-- Each frame has one address that is free, or lent to the kernel (filled and not yet delivered), or the
-- receiver's. The
-- filled and the delivered addresses are those of the whole run so far.
pub record Owned (c : Context) (delivered held : List ℕ) : Type 0 where
  pub once :
      (f : ℕ)
      → count_frame f c.free_frames + count_frame f c.filled + count_frame f held
        ≡ in_pool f + count_frame f delivered
  pub lent : (f : ℕ) → count_frame f delivered ≤ count_frame f c.filled
  pub total : length c.free_frames + length c.filled + length held ≡ num_frames + length delivered
  pub lent_total : length delivered ≤ length c.filled

-- The fill ring grants no more places than asked for.
pub record IsModest (fq : FillRing) : Type 0 where
  pub modest : (n m : ℕ) → fq.reserve n ≡ granted m → m ≤ n

-- Frames go from the stack to the fill ring, and nowhere else.
pub record Fills (c c' : Context) : Type 0 where
  pub moved :
      (f : ℕ)
      → count_frame f c'.free_frames + count_frame f c'.filled
        ≡ count_frame f c.free_frames + count_frame f c.filled
  pub grown : (f : ℕ) → count_frame f c.filled ≤ count_frame f c'.filled
  pub moved_total :
      length c'.free_frames + length c'.filled ≡ length c.free_frames + length c.filled
  pub grown_total : length c.filled ≤ length c'.filled

Fills-refl : (c : Context) → Fills c c
Fills-refl c = record {
  moved = λ a. refl;
  grown = λ a. omega arith;
  moved_total = refl;
  grown_total = omega arith;
}

abbrev at : List ℕ → List ℕ → Context
at stack filled = record { free_frames = stack; filled = filled }

fill_places-Fills :
    (n : ℕ) (stack filled : List ℕ)
    → n ≤ length stack
    → Fills (at stack filled) (fill_places n (at stack filled))
unfolding fill_places alloc_umem_frame count_frame
fill_places-Fills zero stack filled h = Fills-refl (at stack filled)
fill_places-Fills (suc n) [] filled h = absurd (omega arith)
fill_places-Fills (suc n) (x ∷ stack) filled h =
    let rest = fill_places-Fills n stack (x ∷ filled) (omega arith) in
    record {
      moved = λ a. ground (arith, rest.moved a);
      grown = λ a. ground (arith, rest.grown a);
      moved_total = omega (arith, rest.moved_total);
      grown_total = omega (arith, rest.grown_total);
    }

abbrev wanted_of : FillRing → Context → ℕ
wanted_of fq c = to_fill (fq.nb_free (length c.free_frames)) (length c.free_frames)

reserve_and_fill-Fills :
    (r : Reserve) (c : Context)
    → ((m : ℕ) → r ≡ granted m → m ≤ length c.free_frames)
    → Fills c (reserve_and_fill r c).1
unfolding reserve_and_fill
reserve_and_fill-Fills (refused e) c h = Fills-refl c
reserve_and_fill-Fills (granted n) c h = fill_places-Fills n c.free_frames c.filled (h n refl)

refill_fq-Fills : (fq : FillRing) (c : Context) → IsModest fq → Fills c (refill_fq fq c).1
unfolding refill_fq
refill_fq-Fills fq c m = elim (Bool-cases (length c.free_frames == 0)) [
  | inl e ↦ rw e (Fills-refl c)
  | inr e ↦ elim (Bool-cases (wanted_of fq c == 0)) [
    | inl e' ↦ rw (e, e') (Fills-refl c)
    | inr e' ↦
        rw (e, e')
          (reserve_and_fill-Fills (fq.reserve (wanted_of fq c)) c
            λ n g. ground (arith, m.modest (wanted_of fq c) n g))
  ]
]

-- Filling keeps every frame's owner known.
pub refill_fq-Owned :
    (fq : FillRing) (c : Context) (delivered held : List ℕ)
    → IsModest fq
    → Owned c delivered held
    → Owned (refill_fq fq c).1 delivered held
refill_fq-Owned fq c delivered held m o =
    let f = refill_fq-Fills fq c m in
    record {
      once = λ i. omega (arith, f.moved i, o.once i);
      lent = λ i. omega (arith, f.grown i, o.lent i);
      total = omega (arith, f.moved_total, o.total);
      lent_total = omega (arith, f.grown_total, o.lent_total);
    }
