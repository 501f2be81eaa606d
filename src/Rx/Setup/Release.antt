-- ===== src/Rx/Setup/Release.antt =====
-- What afxdp_init in src/afxdp/afxdp_receiver.c holds on to when it fails.
use low_latency_trading_pipe.Base.{
  ℕ, ◌≡◌, refl, sym, ap, subst, ◌∙◌, ◌⊎◌, inl, inr, Bool, true, false, ◌&&◌, not, Option, none,
  some, [], arith, ◌==◌, if◌then◌else◌, Bool-cases,
}
use low_latency_trading_pipe.Rx.{Answer, done, failed, init, refill_fq}
use low_latency_trading_pipe.Rx.Setup.{
  CreateAnswers, FilterAnswers, Host, InitAnswers, Library, Mode, afxdp_init, close, create_any,
  create_native, create_skb, detach_stale, ebusy, finish, load_xdp_filter, mode_of, native,
  open_socket, skb, socket_create,
}
use low_latency_trading_pipe.Rx.Setup.Ladder.{all_sound, create_any-IsOutcome}

-- Nothing that the process acquired.
pub record IsReleased (h : Host) : Type 0 where
  pub context : h.allocated ≡ false
  pub memory : h.buffer ≡ false
  pub region : h.umem ≡ false
  pub program : h.xdp_prog ≡ false
  pub socket : h.xsk ≡ false

-- All that a receiver needs; the filter may be missing.
pub record IsOpen (h : Host) : Type 0 where
  pub context : h.allocated ≡ true
  pub memory : h.buffer ≡ true
  pub region : h.umem ≡ true
  pub socket : h.xsk ≡ true

-- What is left on the interface: nothing, or the program in native mode where native mode was tried
-- first.
pub data Left : Bool → Option Mode → Type 0 where
  cleared : (prefer_skb : Bool) → Left prefer_skb none
  native_stays : Left false (some native)

-- A detach takes away a program that is attached in the mode asked for, and no other.
pub record IsDetaching (lib : Library) : Type 0 where
  pub own : (mode : Mode) → lib.detach mode (some mode) ≡ none
  pub nothing : (mode : Mode) → lib.detach mode none ≡ none
  pub other : lib.detach skb (some native) ≡ some native

abbrev pub Settled : Bool → Answer × Host → Type 0
Settled prefer_skb (failed e, h) = IsReleased h × Left prefer_skb h.attached
Settled prefer_skb (done n, h) = IsOpen h

-- The interface while a socket is attempted: nothing is attached, or the program that was loaded.
abbrev Loaded : Bool → Host → Type 0
Loaded prefer_skb h =
    (h.attached ≡ none) ⊎ ((h.xdp_prog ≡ true) × (h.attached ≡ some (mode_of prefer_skb)))

close-Left :
    (lib : Library) (prefer_skb : Bool) (h : Host)
    → IsDetaching lib
    → Loaded prefer_skb h
    → Left prefer_skb (close lib h).attached
unfolding close mode_of
close-Left lib prefer_skb h d (inl e) =
    let e' : (close lib h).attached ≡ none = elim (Bool-cases h.xdp_prog) [
      | inl x ↦ rw x (ap (lib.detach skb) e ∙ d.nothing skb)
      | inr x ↦ rw x e
    ] in
    subst (Left prefer_skb) (sym e') (cleared prefer_skb)
close-Left lib true h d (inr (x, e)) =
    subst (Left true) (sym (rw x (ap (lib.detach skb) e ∙ d.own skb))) (cleared true)
close-Left lib false h d (inr (x, e)) =
    subst (Left false) (sym (rw x (ap (lib.detach skb) e ∙ d.other))) native_stays

-- What leaves the interface as it was, or clears it.
abbrev Preserves : Host → Host → Type 0
Preserves h h' = (prefer_skb : Bool) → Loaded prefer_skb h → Loaded prefer_skb h'

same_Preserves :
    (h h' : Host) → h'.xdp_prog ≡ h.xdp_prog → h'.attached ≡ h.attached → Preserves h h'
same_Preserves h h' x a prefer_skb (inl e) = inl (a ∙ e)
same_Preserves h h' x a prefer_skb (inr (l, e)) = inr (x ∙ l, a ∙ e)

socket_create-xdp_prog :
    (answers : ℕ → CreateAnswers) (mode : Mode) (zerocopy : Bool) (h : Host)
    → (socket_create answers mode zerocopy h).1.xdp_prog ≡ h.xdp_prog
unfolding socket_create
socket_create-xdp_prog answers mode zerocopy h = ground arith

socket_create-attached :
    (answers : ℕ → CreateAnswers) (mode : Mode) (zerocopy : Bool) (h : Host)
    → (socket_create answers mode zerocopy h).1.attached ≡ h.attached
unfolding socket_create
socket_create-attached answers mode zerocopy h = ground arith

socket_create-Preserves :
    (answers : ℕ → CreateAnswers) (mode : Mode) (zerocopy : Bool) (h : Host)
    → Preserves h (socket_create answers mode zerocopy h).1
socket_create-Preserves answers mode zerocopy h =
    same_Preserves h (socket_create answers mode zerocopy h).1
      (socket_create-xdp_prog answers mode zerocopy h)
      (socket_create-attached answers mode zerocopy h)

if_Preserves :
    (b : Bool) (h : Host) (r r' : ℕ × Host)
    → Preserves h r.1
    → Preserves h r'.1
    → Preserves h (if b then r else r').1
if_Preserves true h r r' k k' = k
if_Preserves false h r r' k k' = k'

create_skb-Preserves :
    (answers : ℕ → CreateAnswers) (h : Host) → Preserves h (create_skb answers h).1
unfolding create_skb
create_skb-Preserves answers h =
    let r = socket_create answers skb false h in
    if_Preserves (r.0 == ebusy) h _ _
      (λ p l. socket_create-Preserves answers skb false (detach_stale r.1) p (inl refl))
      (socket_create-Preserves answers skb false h)

create_native-Preserves :
    (answers : ℕ → CreateAnswers) (force_zerocopy : Bool) (h : Host)
    → Preserves h (create_native answers force_zerocopy h).1
unfolding create_native
create_native-Preserves answers force_zerocopy h =
    let r = socket_create answers native force_zerocopy h in
    let k = socket_create-Preserves answers native force_zerocopy h in
    if_Preserves (not (r.0 == 0) && force_zerocopy) h _ _
      (λ p l. socket_create-Preserves answers native false r.1 p (k p l)) k

create_any-Preserves :
    (answers : ℕ → CreateAnswers) (prefer_skb force_zerocopy : Bool) (h : Host)
    → Preserves h (create_any answers prefer_skb force_zerocopy h).1
unfolding create_any
create_any-Preserves answers prefer_skb force_zerocopy h =
    let r = if prefer_skb then create_skb answers h else create_native answers force_zerocopy h in
    let k =
      if_Preserves prefer_skb h _ _ (create_skb-Preserves answers h)
        (create_native-Preserves answers force_zerocopy h) in
    if_Preserves (r.0 == 0) h _ _ k (λ p l. create_skb-Preserves answers r.1 p (k p l))

load_xdp_filter-Loaded :
    (lib : Library) (a : FilterAnswers) (prefer_skb : Bool) (h : Host)
    → IsDetaching lib
    → h.attached ≡ none
    → Loaded prefer_skb (load_xdp_filter lib a prefer_skb h).1
unfolding load_xdp_filter
load_xdp_filter-Loaded lib a prefer_skb h d e = elim (Bool-cases a.opened) [
  | inr o ↦ rw o (inl e)
  | inl o ↦ elim (Bool-cases (a.attach == 0)) [
    | inr t ↦ rw o (rw t (inl e))
    | inl t ↦ elim (Bool-cases a.found_map) [
      | inr f ↦ rw o (rw t (rw f (inl (d.own (mode_of prefer_skb)))))
      | inl f ↦ rw o (rw t (rw f (inr (refl, refl))))
    ]
  ]
]

close-IsReleased : (lib : Library) (h : Host) → IsReleased (close lib h)
unfolding close
close-IsReleased lib h = record {
  context = refl;
  memory = refl;
  region = refl;
  program = refl;
  socket = refl;
}

-- What the attempts leave as it was.
record Keeps (h h' : Host) : Type 0 where
  context : h'.allocated ≡ h.allocated
  memory : h'.buffer ≡ h.buffer
  region : h'.umem ≡ h.umem

Keeps-trans : {h h' h'' : Host} → Keeps h h' → Keeps h' h'' → Keeps h h''
Keeps-trans k k' = record {
  context = k'.context ∙ k.context;
  memory = k'.memory ∙ k.memory;
  region = k'.region ∙ k.region;
}

socket_create-Keeps :
    (answers : ℕ → CreateAnswers) (mode : Mode) (zerocopy : Bool) (h : Host)
    → Keeps h (socket_create answers mode zerocopy h).1
unfolding socket_create
socket_create-Keeps answers mode zerocopy h = ground arith

if_Keeps :
    (b : Bool) {h : Host} (r r' : ℕ × Host)
    → Keeps h r.1
    → Keeps h r'.1
    → Keeps h (if b then r else r').1
if_Keeps true r r' k k' = k
if_Keeps false r r' k k' = k'

create_skb-Keeps : (answers : ℕ → CreateAnswers) (h : Host) → Keeps h (create_skb answers h).1
unfolding create_skb
create_skb-Keeps answers h =
    let r = socket_create answers skb false h in
    let k = socket_create-Keeps answers skb false h in
    let again = socket_create-Keeps answers skb false (detach_stale r.1) in
    let k' : Keeps h (detach_stale r.1) = record {
      context = k.context;
      memory = k.memory;
      region = k.region;
    } in
    if_Keeps (r.0 == ebusy) _ _ (Keeps-trans k' again) k

create_native-Keeps :
    (answers : ℕ → CreateAnswers) (force_zerocopy : Bool) (h : Host)
    → Keeps h (create_native answers force_zerocopy h).1
unfolding create_native
create_native-Keeps answers force_zerocopy h =
    let r = socket_create answers native force_zerocopy h in
    let k = socket_create-Keeps answers native force_zerocopy h in
    if_Keeps (not (r.0 == 0) && force_zerocopy) _ _
      (Keeps-trans k (socket_create-Keeps answers native false r.1)) k

create_any-Keeps :
    (answers : ℕ → CreateAnswers) (prefer_skb force_zerocopy : Bool) (h : Host)
    → Keeps h (create_any answers prefer_skb force_zerocopy h).1
unfolding create_any
create_any-Keeps answers prefer_skb force_zerocopy h =
    let r = if prefer_skb then create_skb answers h else create_native answers force_zerocopy h in
    let k =
      if_Keeps prefer_skb _ _ (create_skb-Keeps answers h)
        (create_native-Keeps answers force_zerocopy h) in
    if_Keeps (r.0 == 0) _ _ k (Keeps-trans k (create_skb-Keeps answers r.1))

load_xdp_filter-Keeps :
    (lib : Library) (a : FilterAnswers) (skb_flag : Bool) (h : Host)
    → Keeps h (load_xdp_filter lib a skb_flag h).1
unfolding load_xdp_filter
load_xdp_filter-Keeps lib a skb_flag h = ground arith

load_xdp_filter-attempts :
    (lib : Library) (a : FilterAnswers) (skb_flag : Bool) (h : Host)
    → (load_xdp_filter lib a skb_flag h).1.attempts ≡ h.attempts
unfolding load_xdp_filter
load_xdp_filter-attempts lib a skb_flag h = ground arith

close-Settled :
    (lib : Library) (prefer_skb : Bool) (h : Host)
    → IsDetaching lib
    → Loaded prefer_skb h
    → IsReleased (close lib h) × Left prefer_skb (close lib h).attached
close-Settled lib prefer_skb h d l = (close-IsReleased lib h, close-Left lib prefer_skb h d l)

finish-Settled :
    (lib : Library) (prefer_skb : Bool) (a : Answer) (h : Host)
    → IsDetaching lib
    → Loaded prefer_skb h
    → IsOpen h
    → Settled prefer_skb (finish lib a h)
unfolding finish
finish-Settled lib prefer_skb (failed e) h d l o = close-Settled lib prefer_skb h d l
finish-Settled lib prefer_skb (done n) h d l o = o

open_socket-Settled :
    (lib : Library) (a : InitAnswers) (force_zerocopy : Bool) (h : Host)
    → IsDetaching lib
    → h.attached ≡ none
    → h.allocated ≡ true
    → h.buffer ≡ true
    → h.umem ≡ true
    → h.attempts ≡ []
    → Settled a.prefer_skb (open_socket lib a force_zerocopy h)
unfolding open_socket all_sound
open_socket-Settled lib a force_zerocopy h d free al bu um at =
    let g = (load_xdp_filter lib a.filter a.prefer_skb h).1 in
    let kept =
      Keeps-trans (load_xdp_filter-Keeps lib a.filter a.prefer_skb h)
        (create_any-Keeps a.sockets a.prefer_skb force_zerocopy g) in
    let none_yet : g.attempts ≡ [] = load_xdp_filter-attempts lib a.filter a.prefer_skb h ∙ at in
    let o = create_any-IsOutcome a.sockets a.prefer_skb force_zerocopy g (rw none_yet refl) in
    let r = create_any a.sockets a.prefer_skb force_zerocopy g in
    let l =
      create_any-Preserves a.sockets a.prefer_skb force_zerocopy g a.prefer_skb
        (load_xdp_filter-Loaded lib a.filter a.prefer_skb h d free) in
    elim (Bool-cases (r.0 == 0)) [
      | inl e ↦ rw e (
          finish-Settled lib a.prefer_skb (refill_fq a.fill init).0 r.1 d l (record {
            context = kept.context ∙ al;
            memory = kept.memory ∙ bu;
            region = kept.region ∙ um;
            socket = o.opened ∙ e;
          }))
      | inr e ↦ rw e (close-Settled lib a.prefer_skb r.1 d l)
    ]

if_Settled :
    (p b : Bool) (r r' : Answer × Host)
    → Settled p r
    → Settled p r'
    → Settled p (if b then r else r')
if_Settled p true r r' t t' = t
if_Settled p false r r' t t' = t'

-- From a process that holds nothing and an interface without a program, with a library that detaches a
-- program in the mode in which it is attached and in no other: afxdp_init either succeeds and holds the
-- context, the memory, the region and an open socket, or it fails and holds no context, memory, region,
-- program handle or socket. After a failure no XDP program is left on the interface, except that the one
-- in native mode may be left there if SKB mode was not preferred.
pub afxdp_init-Settled :
    (lib : Library) (a : InitAnswers) (force_zerocopy : Bool) (h : Host)
    → IsDetaching lib
    → IsReleased h
    → h.attached ≡ none
    → h.attempts ≡ []
    → Settled a.prefer_skb (afxdp_init lib a force_zerocopy h)
unfolding afxdp_init
afxdp_init-Settled lib a force_zerocopy h d n free at =
    let allocated = record h { allocated = true } in
    let buffered = record allocated { buffer = true } in
    let p = a.prefer_skb in
    let untouched : IsReleased h × Left p h.attached = (n, subst (Left p) (sym free) (cleared p)) in
    if_Settled p (not a.named) _ _ untouched (
      if_Settled p (a.ifindex == 0) _ _ untouched (
        if_Settled p (not a.calloc) _ _ untouched (
          if_Settled p (not (a.memalign == 0)) _ _ (close-Settled lib p allocated d (inl free)) (
            if_Settled p (not (a.umem_create == 0)) _ _ (close-Settled lib p buffered d (inl free))
              (open_socket-Settled lib a force_zerocopy (record buffered { umem = true }) d free
                refl refl refl at)))))
