-- ===== src/Receiver/Tests.antt =====
-- Tests of the receiver: the first packet of a session, in a UMEM frame.
use low_latency_trading_pipe.Base.{
  ℕ, refl, true, false, none, some, List, [], ◌∷◌, ◌++◌, arith, replicate,
}
use low_latency_trading_pipe.Ring.Queue.{contents, used}
use low_latency_trading_pipe.Receiver.Pool.{PacketRef, Slot, header_seq, header_count}
use low_latency_trading_pipe.Receiver.Gap.{frame_ref, Receiver, handle_payload}
use low_latency_trading_pipe.Receiver.Gap.Inv.{Inv}
use low_latency_trading_pipe.Receiver.Gap.Frames.{Accounts, handle_payload-Accounts}
use low_latency_trading_pipe.Receiver.Loop.{Descriptor}
use low_latency_trading_pipe.Receiver.Gap.Handle.{Delivers, handle_payload-Delivers}

abbrev blank_ref : PacketRef
blank_ref = record { dat = record { buf = []; off = 0 }; umem_addr = 0; ts = 0; len = 0 }

abbrev blank_slot : Slot
blank_slot = record {
  ref = blank_ref;
  start_seq = 0;
  msg_count = 0;
  payload_len = 0;
  used = false;
  bytes = [];
}

abbrev pub test_receiver : Receiver
test_receiver = record {
  pool = λ i. blank_slot;
  frames = λ a. blank_ref;
  ring = record { next_write = 0; next_read = 0; slots = λ i. frame_ref 0 };
  session = none;
  expected_seq = 0;
  last_request_ns = 0;
  rewinder_open = true;
  dropped_packets = 0;
  retrans_requests = 0;
  retrans_filled = 0;
  requests = [];
  overrun = false;
}

pub test_receiver-Inv : Inv test_receiver
unfolding contents used
test_receiver-Inv = record {
  ring_valid = record { write_word = omega arith; read_word = omega arith; fits = omega arith };
  slots = λ i b u. absurd (cc);
  chain = omega arith;
  unset = λ e. refl;
  in_range = omega arith;
  intact = refl;
}

-- The number 1, one message of two bytes.
abbrev test_payload : List ℕ
test_payload = replicate 10 49 ++ (replicate 7 0 ++ (1 ∷ 0 ∷ 1 ∷ 7 ∷ 8 ∷ []))

handle_payload-Delivers_example :
    Delivers test_receiver (handle_payload test_receiver test_payload (some 4096) 9).0
unfolding contents used header_seq header_count
handle_payload-Delivers_example =
    handle_payload-Delivers test_receiver test_payload (some 4096) 9 test_receiver-Inv (omega arith)
      (omega arith) tt

handle_payload-Accounts_example :
    Accounts test_receiver (some 4096) (handle_payload test_receiver test_payload (some 4096) 9)
handle_payload-Accounts_example =
    handle_payload-Accounts test_receiver test_payload (some 4096) 9 test_receiver-Inv.ring_valid
      (omega arith)

-- A frame with the packet behind its Ethernet, IPv4 and UDP headers, and one with no packet.
abbrev test_burst : List Descriptor
test_burst =
    record {
      addr = 4096;
      bytes =
          replicate 12 0
          ++ (8
              ∷ 0
              ∷ 0x45
              ∷ (replicate 8 0
                  ++ (17 ∷ (replicate 12 0 ++ (0x13 ∷ 0x88 ∷ (replicate 4 0 ++ test_payload))))));
    }
    ∷ record { addr = 8192; bytes = replicate 14 0 }
    ∷ []

-- The same with an open session that expects the number 1.
abbrev open_receiver : Receiver
open_receiver = record test_receiver { session = some (replicate 10 49); expected_seq = 1 }

open_receiver-Inv : Inv open_receiver
unfolding contents used
open_receiver-Inv = record {
  ring_valid = test_receiver-Inv.ring_valid;
  slots = λ i b u. absurd (cc);
  chain = omega arith;
  unset = λ e. absurd (cc);
  in_range = omega arith;
  intact = refl;
}
