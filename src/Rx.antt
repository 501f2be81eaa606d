-- ===== src/Rx.antt =====
-- src/afxdp/afxdp_receiver.c, include/hft/afxdp/afxdp_receiver.h: the stack of free frames, the
-- filling of the kernel's ring, the receiving of a burst and the giving back of frames. What the
-- kernel's rings answer is an argument. The wakeup of the kernel is left out.
pub mod Pool
pub mod Run
pub mod Setup
mod Tests
use low_latency_trading_pipe.Base.{
  ℕ, zero, suc, ◌-◌, ◌*◌, ◌^◌, Bool, true, false, ◌||◌, not, Option, none, some, List, [], ◌∷◌, ltb,
  leb, ◌==◌, if◌then◌else◌, length,
}

-- AFXDP_NUM_FRAMES, AFXDP_FRAME_SIZE and INVALID_UMEM_FRAME
abbrev pub num_frames : ℕ
num_frames = 4096

abbrev pub frame_size : ℕ
frame_size = 4096

abbrev pub invalid_umem_frame : ℕ
invalid_umem_frame = 2 ^ 64 - 1

-- The errno of a call that gives -1.
abbrev pub enobufs : ℕ
enobufs = 105

abbrev pub einval : ℕ
einval = 22

-- The state that the calls change: the stack, newest first, and the addresses that were submitted
-- on the fill ring, newest first.
pub record Context : Type 0 where
  pub free_frames : List ℕ
  pub filled : List ℕ

-- The stack that afxdp_init makes: the last address is on top.
unfoldable pub init_stack : ℕ → List ℕ
init_stack zero = []
init_stack (suc n) = n * frame_size ∷ init_stack n

abbrev pub init : Context
init = record { free_frames = init_stack num_frames; filled = [] }

unfoldable pub alloc_umem_frame : List ℕ → ℕ × List ℕ
alloc_umem_frame [] = (invalid_umem_frame, [])
alloc_umem_frame (a ∷ stack) = (a, stack)

-- A full stack refuses.
unfoldable pub free_umem_frame : List ℕ → ℕ → Option (List ℕ)
free_umem_frame stack frame = if leb num_frames (length stack) then none else some (frame ∷ stack)

-- What reserving places on the fill ring gives: an error's number, or how many places.
pub data Reserve : Type 0 where
  refused : ℕ → Reserve
  granted : ℕ → Reserve

-- The fill ring, as the two calls of it see it.
pub record FillRing : Type 0 where
  pub nb_free : ℕ → ℕ
  pub reserve : ℕ → Reserve

-- An int that is -1 with errno, or not negative.
pub data Answer : Type 0 where
  failed : ℕ → Answer
  done : ℕ → Answer

-- The loop that writes so many addresses to the places reserved.
unfoldable pub fill_places : ℕ → Context → Context
unfolding alloc_umem_frame
fill_places zero c = c
fill_places (suc n) c =
    let a = alloc_umem_frame c.free_frames in
    fill_places n (record { free_frames = a.1; filled = a.0 ∷ c.filled })

unfoldable pub reserve_and_fill : Reserve → Context → Answer × Context
unfolding fill_places
reserve_and_fill (refused e) c = (failed e, c)
reserve_and_fill (granted n) c = (done n, fill_places n c)

abbrev pub to_fill : ℕ → ℕ → ℕ
to_fill free_slots free_frames = if ltb free_slots free_frames then free_slots else free_frames

unfoldable pub refill_fq : FillRing → Context → Answer × Context
unfolding reserve_and_fill
refill_fq fq c =
    let free_frames = length c.free_frames in
    let wanted = to_fill (fq.nb_free free_frames) free_frames in
    if free_frames == 0
    then (done 0, c)
    else if wanted == 0
    then (done 0, c)
    else reserve_and_fill (fq.reserve wanted) c

-- struct xdp_desc, and struct afxdp_pkt with the frame's contents in the place of its pointer.
pub record XdpDesc : Type 0 where
  pub addr : ℕ
  pub len : ℕ

pub record Packet : Type 0 where
  pub bytes : List ℕ
  pub len : ℕ
  pub addr : ℕ

-- One round of the loop of afxdp_recv_burst.
abbrev pub read_desc : (ℕ → List ℕ) → XdpDesc → Packet
read_desc umem desc = record { bytes = umem desc.addr; len = desc.len; addr = desc.addr }

unfoldable pub read_descs : (ℕ → List ℕ) → List XdpDesc → List Packet
read_descs umem [] = []
read_descs umem (desc ∷ descs) = read_desc umem desc ∷ read_descs umem descs

-- After the refill: the descriptors that the kernel has delivered are read, unless it failed.
unfoldable pub recv_filled :
    (ℕ → List ℕ) → Answer × Context → List XdpDesc → (Answer × List Packet) × Context
unfolding read_descs
recv_filled umem (failed e, c) peeked = ((failed e, []), c)
recv_filled umem (done n, c) peeked = ((done (length peeked), read_descs umem peeked), c)

-- `ready` says that neither pointer is null; a `max_pkts` below 0 is as 0. The descriptors are those
-- that peeking for at most `max_pkts` finds.
unfoldable pub recv_burst :
    Bool → ℕ → FillRing → (ℕ → List ℕ) → List XdpDesc → Context → (Answer × List Packet) × Context
unfolding recv_filled
recv_burst ready max_pkts fq umem peeked c =
    if not ready || max_pkts == 0
    then ((failed einval, []), c)
    else recv_filled umem (refill_fq fq c) peeked

-- The loop of afxdp_recycle: the stack, and whether every frame was taken back.
unfoldable pub free_all : List ℕ → List ℕ → Bool × List ℕ
unfolding free_umem_frame
free_all stack [] = (true, stack)
free_all stack (a ∷ addrs) = elim (free_umem_frame stack a) [
  | none ↦ (false, stack)
  | some stack' ↦ free_all stack' addrs
]

-- The last part of afxdp_recycle: any number of filled places counts as 0.
abbrev pub as_status : Answer × Context → Answer × Context
as_status (failed e, c) = (failed e, c)
as_status (done n, c) = (done 0, c)

-- `ready` says that the context is there, and the addresses if there are any.
unfoldable pub recycle : Bool → FillRing → List ℕ → Context → Answer × Context
unfolding free_all refill_fq
recycle ready fq addrs c =
    let freed = free_all c.free_frames addrs in
    let c' = record c { free_frames = freed.1 } in
    if not ready
    then (failed einval, c)
    else if freed.0
    then as_status (refill_fq fq c')
    else (failed enobufs, c')
