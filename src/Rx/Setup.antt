-- ===== src/Rx/Setup.antt =====
-- The set-up and tear-down in src/afxdp/afxdp_receiver.c: the XDP filter, the attempts to create the
-- socket, and what is released on an error. What the system's calls answer is an argument; an
-- error of theirs is its positive number, and 0 is success. The options for busy polling, the
-- resource limit and the messages to stderr change nothing that is modelled.
pub mod Release
pub mod Ladder
use low_latency_trading_pipe.Base.{
  ℕ, Bool, true, false, ◌&&◌, not, Option, none, some, List, ◌∷◌, ◌==◌, if◌then◌else◌, length,
}
use low_latency_trading_pipe.Rx.{Answer, FillRing, failed, refill_fq, done, init, einval}

-- The mode in which a program is attached.
pub data Mode : Type 0 where
  native : Mode
  skb : Mode

-- What a socket is asked for: the mode in xdp_flags, XDP_ZEROCOPY in bind_flags, and
-- XSK_LIBBPF_FLAGS__INHIBIT_PROG_LOAD.
pub record Attempt : Type 0 where
  pub mode : Mode
  pub zerocopy : Bool
  pub inhibit : Bool

-- What the process holds: whether the pointers of the context are set, and the context itself; what
-- is attached to the interface; the attempts so far, newest first.
pub record Host : Type 0 where
  pub allocated : Bool
  pub buffer : Bool
  pub umem : Bool
  pub xdp_prog : Bool
  pub xsk : Bool
  pub attached : Option Mode
  pub attempts : List Attempt

-- What the calls of libxdp and libbpf do to the interface: a detach of the program in a mode.
pub record Library : Type 0 where
  pub detach : Mode → Option Mode → Option Mode

-- The answers while the filter is loaded.
pub record FilterAnswers : Type 0 where
  pub opened : Bool
  pub attach : ℕ
  pub found_map : Bool

unfoldable pub mode_of : Bool → Mode
mode_of true = skb
mode_of false = native

-- Whether it returned 0, and what is held then.
unfoldable pub load_xdp_filter : Library → FilterAnswers → Bool → Host → Bool × Host
unfolding mode_of
load_xdp_filter lib a skb_flag h =
    let mode = mode_of skb_flag in
    if not a.opened
    then (false, h)
    else if not (a.attach == 0)
    then (false, h)
    else if not a.found_map
    then (false, record h { attached = lib.detach mode (some mode) })
    else (true, record h { xdp_prog = true; attached = some mode })

-- The answers to one attempt: the result of xsk_socket__create, and of the update of the map.
pub record CreateAnswers : Type 0 where
  pub create : ℕ
  pub map_updated : Bool

abbrev pub eperm : ℕ
eperm = 1

abbrev pub ebusy : ℕ
ebusy = 16

-- A socket that cannot be registered is deleted, and -1 is returned.
unfoldable pub socket_create : (ℕ → CreateAnswers) → Mode → Bool → Host → ℕ × Host
socket_create answers mode zerocopy h =
    let a = answers (length h.attempts) in
    let asked = record h {
      attempts = record { mode = mode; zerocopy = zerocopy; inhibit = h.xdp_prog } ∷ h.attempts;
    } in
    if not (a.create == 0)
    then (a.create, record asked { xsk = false })
    else if h.xdp_prog && not a.map_updated
    then (eperm, record asked { xsk = false })
    else (0, record asked { xsk = true })

-- Both calls of bpf_xdp_detach: nothing is left on the interface.
abbrev pub detach_stale : Host → Host
detach_stale h = record h { attached = none }

-- The block that stands twice in afxdp_init: SKB mode without zero copy, again after EBUSY.
unfoldable pub create_skb : (ℕ → CreateAnswers) → Host → ℕ × Host
unfolding socket_create
create_skb answers h =
    let r = socket_create answers skb false h in
    if r.0 == ebusy then socket_create answers skb false (detach_stale r.1) else r

-- Native mode, and without zero copy if that was asked for and failed.
unfoldable pub create_native : (ℕ → CreateAnswers) → Bool → Host → ℕ × Host
unfolding socket_create
create_native answers force_zerocopy h =
    let r = socket_create answers native force_zerocopy h in
    if not (r.0 == 0) && force_zerocopy then socket_create answers native false r.1 else r

-- The attempts up to the label `created`.
unfoldable pub create_any : (ℕ → CreateAnswers) → Bool → Bool → Host → ℕ × Host
unfolding create_skb create_native
create_any answers prefer_skb force_zerocopy h =
    let r = if prefer_skb then create_skb answers h else create_native answers force_zerocopy h in
    if r.0 == 0 then r else create_skb answers r.1

-- The tear-down: the program is detached in SKB mode.
unfoldable pub close : Library → Host → Host
close lib h = record h {
  allocated = false;
  buffer = false;
  umem = false;
  xdp_prog = false;
  xsk = false;
  attached = if h.xdp_prog then lib.detach skb h.attached else h.attached;
}

-- The other calls that afxdp_init makes, with the environment's HFT_AFXDP_PREFER_SKB.
pub record InitAnswers : Type 0 where
  pub named : Bool
  pub ifindex : ℕ
  pub calloc : Bool
  pub memalign : ℕ
  pub umem_create : ℕ
  pub prefer_skb : Bool
  pub filter : FilterAnswers
  pub sockets : ℕ → CreateAnswers
  pub fill : FillRing

abbrev pub enodev : ℕ
enodev = 19

abbrev pub enomem : ℕ
enomem = 12

-- The label `error`.
abbrev pub give_up : Library → ℕ → Host → Answer × Host
give_up lib e h = (failed e, close lib h)

-- From the label `created` on.
unfoldable pub finish : Library → Answer → Host → Answer × Host
unfolding close
finish lib (failed e) h = give_up lib e h
finish lib (done n) h = (done 0, h)

-- The filter, which may be missing, and the socket.
unfoldable pub open_socket : Library → InitAnswers → Bool → Host → Answer × Host
unfolding load_xdp_filter create_any finish close refill_fq
open_socket lib a force_zerocopy h =
    let r =
      create_any a.sockets a.prefer_skb force_zerocopy
        (load_xdp_filter lib a.filter a.prefer_skb h).1 in
    if r.0 == 0 then finish lib (refill_fq a.fill init).0 r.1 else give_up lib r.0 r.1

unfoldable pub afxdp_init : Library → InitAnswers → Bool → Host → Answer × Host
unfolding open_socket close
afxdp_init lib a force_zerocopy h =
    let allocated = record h { allocated = true } in
    let buffered = record allocated { buffer = true } in
    if not a.named
    then (failed einval, h)
    else if a.ifindex == 0
    then (failed enodev, h)
    else if not a.calloc
    then (failed enomem, h)
    else if not (a.memalign == 0)
    then give_up lib a.memalign allocated
    else if not (a.umem_create == 0)
    then give_up lib a.umem_create buffered
    else open_socket lib a force_zerocopy (record buffered { umem = true })
