-- ===== src/Receiver/Gap/Inv.antt =====
-- The invariant of the state of apps/client/udp_receiver.c between two packets, and the chains of
-- packets that the ring points at.
use low_latency_trading_pipe.Base.{
  ℕ, ◌+◌, ◌^◌, ◌≤◌, ◌<◌, ◌≡◌, refl, sym, ap, ap₂, subst, ◌∙◌, ◌≢◌, true, false, List, [], ◌∷◌, ◌++◌,
  arith, update, update_ne,
}
use low_latency_trading_pipe.Ring.Queue
use low_latency_trading_pipe.Ring.Queue.{contents}
use low_latency_trading_pipe.Receiver.Pool.{PacketRef, Slot, reorder_max, header_seq, header_count}
use low_latency_trading_pipe.Receiver.Gap.{RefPtr, frame_ref, slot_ref, Receiver, is_set}

module _ (seq cnt : RefPtr → ℕ) (Held : RefPtr → Type 0) where
  -- The packets lie between two numbers, each behind the one before it, and what is pointed at is
  -- held.
  abbrev pub Chain : List RefPtr → ℕ → ℕ → Type 0
  Chain [] lo hi = lo ≤ hi
  Chain (p ∷ ps) lo hi = (lo ≤ seq p) × Held p × Chain ps (seq p + cnt p) hi

  pub Chain-snoc :
      (ps : List RefPtr) (p : RefPtr) (lo hi hi' : ℕ)
      → Chain ps lo hi
      → Held p
      → hi ≤ seq p
      → seq p + cnt p ≤ hi'
      → Chain (ps ++ (p ∷ [])) lo hi'
  Chain-snoc [] p lo hi hi' c h l k = (omega arith, h, k)
  Chain-snoc (q ∷ ps) p lo hi hi' c h l k =
      (c.0, c.1, Chain-snoc ps p (seq q + cnt q) hi hi' c.2 h l k)

  pub Chain-raise : (ps : List RefPtr) (lo hi hi' : ℕ) → hi ≤ hi' → Chain ps lo hi → Chain ps lo hi'
  Chain-raise [] lo hi hi' l c = omega arith
  Chain-raise (q ∷ ps) lo hi hi' l c = (c.0, c.1, Chain-raise ps (seq q + cnt q) hi hi' l c.2)

module _ (seq cnt : RefPtr → ℕ) where
  -- The packets cover the numbers from one to another with no gap.
  abbrev pub Tiles : List RefPtr → ℕ → ℕ → Type 0
  Tiles [] lo hi = lo ≡ hi
  Tiles (p ∷ ps) lo hi = (seq p ≡ lo) × Tiles ps (lo + cnt p) hi

  pub Tiles-append :
      (ps qs : List RefPtr) (lo mid hi : ℕ)
      → Tiles ps lo mid
      → Tiles qs mid hi
      → Tiles (ps ++ qs) lo hi
  Tiles-append [] qs lo mid hi a b = subst (λ x. Tiles qs x hi) (sym a) b
  Tiles-append (p ∷ ps) qs lo mid hi a b = (a.0, Tiles-append ps qs (lo + cnt p) mid hi a.1 b)

abbrev pub All {ℓ} : {A : Type ℓ} → (A → Type 0) → List A → Type 0
All P [] = Unit {0}
All P (x ∷ xs) = P x × All P xs

pub All-of {ℓ} : {A : Type ℓ} (P : A → Type 0) (xs : List A) → ((x : A) → P x) → All P xs
All-of P [] h = tt
All-of P (x ∷ xs) h = (h x, All-of P xs h)

pub All-map {ℓ} :
    {A : Type ℓ} (P Q : A → Type 0) (xs : List A) → ((x : A) → P x → Q x) → All P xs → All Q xs
All-map P Q [] f h = tt
All-map P Q (x ∷ xs) f h = (f x h.0, All-map P Q xs f h.1)

-- A change of the store that the pointers of a chain do not see.
pub Chain-kept :
    (seq cnt : RefPtr → ℕ) (Held : RefPtr → Type 0) (seq' cnt' : RefPtr → ℕ)
    (Held' : RefPtr → Type 0) (ps : List RefPtr) (lo hi : ℕ)
    → All (λ p. Held p → (seq' p ≡ seq p) × (cnt' p ≡ cnt p) × Held' p) ps
    → Chain seq cnt Held ps lo hi
    → Chain seq' cnt' Held' ps lo hi
Chain-kept seq cnt Held seq' cnt' Held' [] lo hi h c = c
Chain-kept seq cnt Held seq' cnt' Held' (p ∷ ps) lo hi h c =
    let (s, n, k) = h.0 c.1 in
    (
      omega arith,
      k,
      Chain-kept seq cnt Held seq' cnt' Held' ps (seq' p + cnt' p) hi h.1
          (subst (λ x. Chain seq cnt Held ps x hi) (ap₂ ◌+◌ (sym s) (sym n)) c.2),
    )

module _ (pool : ℕ → Slot) (frames : ℕ → PacketRef) where
  abbrev pub deref : RefPtr → PacketRef
  deref (frame_ref a) = frames a
  deref (slot_ref i) = (pool i).ref

  -- The number and the count in the header of the packet that a pointer leads to.
  abbrev pub ptr_seq : RefPtr → ℕ
  ptr_seq p = header_seq (deref p).dat.buf

  abbrev pub ptr_count : RefPtr → ℕ
  ptr_count p = header_count (deref p).dat.buf

  -- A slot that is pointed at is in use.
  abbrev pub Held : RefPtr → Type 0
  Held (frame_ref a) = Unit {0}
  Held (slot_ref i) = (i < reorder_max) × ((pool i).used ≡ true)

  abbrev pub RingChain : List RefPtr → ℕ → ℕ → Type 0
  RingChain = Chain ptr_seq ptr_count Held

  abbrev pub RingTiles : List RefPtr → ℕ → ℕ → Type 0
  RingTiles = Tiles ptr_seq ptr_count

-- A slot says what its packet says, and the numbers stay below 2 ^ 64.
pub record SlotOk (sl : Slot) : Type 0 where
  pub seq_copied : header_seq sl.ref.dat.buf ≡ sl.start_seq
  pub count_copied : header_count sl.ref.dat.buf ≡ sl.msg_count
  pub some_messages : 0 < sl.msg_count
  pub no_wrap : sl.start_seq + sl.msg_count < 2 ^ 64

-- The state between two packets: no copy has run past its slot.
pub record Inv (s : Receiver) : Type 0 where
  pub ring_valid : Queue.IsValid s.ring
  pub slots : (i : ℕ) → i < reorder_max → (s.pool i).used ≡ true → SlotOk (s.pool i)
  pub chain : RingChain s.pool s.frames (contents s.ring) 0 s.expected_seq
  pub unset : is_set s.session ≡ false → s.expected_seq ≡ 0
  pub in_range : s.expected_seq < 2 ^ 64
  pub intact : s.overrun ≡ false

-- Writing a slot that is free changes no chain.
pub chain-update_slot :
    (pool : ℕ → Slot) (frames : ℕ → PacketRef) (idx : ℕ) (sl : Slot) (ps : List RefPtr) (lo hi : ℕ)
    → (pool idx).used ≡ false
    → RingChain pool frames ps lo hi
    → RingChain (update pool idx sl) frames ps lo hi
chain-update_slot pool frames idx sl ps lo hi free c =
    Chain-kept _ _ _ _ _ _ ps lo hi (All-of _ ps same) c
  where
    same :
        (p : RefPtr)
        → Held pool frames p
        → (ptr_seq (update pool idx sl) frames p ≡ ptr_seq pool frames p)
          × (ptr_count (update pool idx sl) frames p ≡ ptr_count pool frames p)
          × Held (update pool idx sl) frames p
    same (frame_ref a) h = (refl, refl, tt)
    same (slot_ref i) h =
        let ne : i ≢ idx =
          λ e. let w : true ≡ false = sym h.1 ∙ ap (λ k. (pool k).used) e ∙ free in cc in
        let u = update_ne pool idx i sl ne in
        (
          ap (λ x. header_seq x.ref.dat.buf) u,
          ap (λ x. header_count x.ref.dat.buf) u,
          (h.0, ap (λ x. x.used) u ∙ h.1),
        )

-- The frame is not pointed at.
abbrev pub Absent : ℕ → RefPtr → Type 0
Absent addr (frame_ref a) = a ≢ addr
Absent addr (slot_ref i) = Unit {0}

pub chain-update_frame :
    (pool : ℕ → Slot) (frames : ℕ → PacketRef) (addr : ℕ) (ref : PacketRef) (ps : List RefPtr)
    (lo hi : ℕ)
    → All (Absent addr) ps
    → RingChain pool frames ps lo hi
    → RingChain pool (update frames addr ref) ps lo hi
chain-update_frame pool frames addr ref ps lo hi h c =
    Chain-kept _ _ _ _ _ _ ps lo hi (All-map _ _ ps same h) c
  where
    same :
        (p : RefPtr)
        → Absent addr p
        → Held pool frames p
        → (ptr_seq pool (update frames addr ref) p ≡ ptr_seq pool frames p)
          × (ptr_count pool (update frames addr ref) p ≡ ptr_count pool frames p)
          × Held pool (update frames addr ref) p
    same (slot_ref i) n h = (refl, refl, h)
    same (frame_ref a) n h =
        let u = update_ne frames addr a ref n in
        (ap (λ x. header_seq x.dat.buf) u, ap (λ x. header_count x.dat.buf) u, tt)
