-- ===== src/Rx/Tests.antt =====
-- Tests of the reception: a burst of one frame from a new context, and a set-up that falls back.
use low_latency_trading_pipe.Base.{
  ℕ, ◌+◌, ◌*◌, ◌≡◌, refl, true, false, Option, none, some, List, [], ◌∷◌, arith, ◌==◌,
  if◌then◌else◌,
}
use low_latency_trading_pipe.Rx.{
  Answer, Context, FillRing, Packet, XdpDesc, fill_places, granted, init, init_stack, recv_burst,
  refill_fq, reserve_and_fill,
}
use low_latency_trading_pipe.Rx.Pool.{IsModest, Owned, count_frame}
use low_latency_trading_pipe.Rx.Run.{Delivers, Reach-Owned, World, after_burst, burst, next, start}
use low_latency_trading_pipe.Rx.Setup.{
  CreateAnswers, Host, InitAnswers, Library, Mode, afxdp_init, create_any, create_native,
  create_skb, native, skb, socket_create,
}
use low_latency_trading_pipe.Rx.Setup.Ladder.{IsOutcome, all_sound, create_any-IsOutcome}
use low_latency_trading_pipe.Rx.Setup.Release.{IsDetaching, Settled, afxdp_init-Settled}

-- A fill ring with two places, which grants all that it is asked for.
abbrev test_ring : FillRing
test_ring = record { nb_free = λ n. 2; reserve = λ n. granted n }

test_ring-IsModest : IsModest test_ring
test_ring-IsModest = record { modest = λ n m e. ground (arith, e) }

abbrev top_frame : ℕ
top_frame = 4095 * 4096

-- The kernel delivers behind a headroom of 256 bytes.
abbrev test_descs : List XdpDesc
test_descs = record { addr = top_frame + 256; len = 60 } ∷ []

abbrev no_bytes : ℕ → List ℕ
no_bytes a = []

refill_fills : (refill_fq test_ring init).1.filled ≡ 4094 * 4096 ∷ top_frame ∷ []
unfolding refill_fq reserve_and_fill fill_places init_stack
refill_fills = refl

test_descs-Delivers : Delivers (refill_fq test_ring init).1.filled [] ((top_frame + 256) ∷ [])
unfolding count_frame
test_descs-Delivers =
    rw refill_fills (record { fair = λ a. ground arith; fair_total = omega arith })

abbrev first_burst : (Answer × List Packet) × Context
first_burst = recv_burst true 64 test_ring no_bytes test_descs init

abbrev new_world : World
new_world = record { ctx = init; delivered = []; held = [] }

Reach-Owned_example : let w = after_burst new_world first_burst in Owned w.ctx w.delivered w.held
Reach-Owned_example = Reach-Owned (
    next start (burst true 64 test_ring no_bytes test_descs test_ring-IsModest test_descs-Delivers))

-- What a process holds at first: nothing.
abbrev no_host : Host
no_host = record {
  allocated = false;
  buffer = false;
  umem = false;
  xdp_prog = false;
  xsk = false;
  attached = none;
  attempts = [];
}

abbrev test_detach : Mode → Option Mode → Option Mode
test_detach mode none = none
test_detach native (some native) = none
test_detach native (some skb) = some skb
test_detach skb (some native) = some native
test_detach skb (some skb) = none

abbrev test_library : Library
test_library = record { detach = test_detach }

test_library-IsDetaching : IsDetaching test_library
test_library-IsDetaching = record { own = own; nothing = λ mode. refl; other = refl }
  where
    own : (mode : Mode) → test_detach mode (some mode) ≡ none
    own native = refl
    own skb = refl

-- The second attempt succeeds.

abbrev test_sockets : ℕ → CreateAnswers
test_sockets n = record { create = if n == 1 then 0 else 95; map_updated = true }

abbrev test_answers : InitAnswers
test_answers = record {
  named = true;
  ifindex = 2;
  calloc = true;
  memalign = 0;
  umem_create = 0;
  prefer_skb = false;
  filter = record { opened = true; attach = 0; found_map = true };
  sockets = test_sockets;
  fill = test_ring;
}

create_any-IsOutcome_example : IsOutcome 0 4 (create_any test_sockets false true no_host)
unfolding all_sound
create_any-IsOutcome_example = create_any-IsOutcome test_sockets false true no_host refl

-- No attempt succeeds.
abbrev failing_answers : InitAnswers
failing_answers = record test_answers { sockets = λ n. record { create = 95; map_updated = false } }

afxdp_init-Settled_example : Settled false (afxdp_init test_library failing_answers true no_host)
afxdp_init-Settled_example =
    afxdp_init-Settled test_library failing_answers true no_host test_library-IsDetaching
      (record { context = refl; memory = refl; region = refl; program = refl; socket = refl }) refl
      refl

-- The second attempt, without zero copy, gives the socket.
create_any_runs :
    (create_any test_sockets false true no_host).1.attempts
    ≡ record { mode = native; zerocopy = false; inhibit = false }
      ∷ record { mode = native; zerocopy = true; inhibit = false }
      ∷ []
unfolding create_any create_native create_skb socket_create
create_any_runs = refl
