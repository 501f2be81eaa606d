-- ===== src/Lib.antt =====
-- Verification of the trading pipeline: an exchange server that replays recorded ITCH messages over
-- UDP and takes orders over TCP, and a client that receives the feed over AF_XDP, decodes it, and
-- sends orders.
--
-- The server's feed packs ITCH messages into numbered packets and keeps each in the rewinder's cache.
-- The client's receiver parses the frames that the XDP filter lets through, puts the packets in order,
-- asks the rewinder for what is missing, and publishes pointers to the packets on a ring. A dispatcher
-- decodes the messages into events, a strategy makes orders of them, and the order sender takes the
-- orders from a second ring and sends them. The server's order receiver checks and acknowledges them.
--
-- The modules, with the code that each is about:
--   Base           helpers: lists and words over the native numbers, Boolean tests.
--   Ring           both rings of include/hft/ring_buffers; publish is publish_ref of
--                  apps/client/udp_receiver.c, consume the read side of order_sender_thread. Queue is
--                  the refinement to a bounded first-in first-out queue.
--   Wire           include/hft/protocol/wire.h: wire_order and wire_ack as records, encode and decode
--                  for their packed bytes, wire_checksum with its loop. Checksum is about the sum,
--                  Codec about the layout, Integrity about stamping and damage.
--   Framing        the loop that cuts a received stream into fixed-size messages and carries the rest,
--                  as handle_client of apps/server/order_receiver.c and drain_acks of
--                  apps/client/order_sender.c both do.
--   OrderReceiver  handle_client: process_order is the body of its inner loop, send_ack the answer.
--                  Accept says which orders are taken, Stream what a whole connection does.
--   OrderSender    order_sender_thread, first its TCP path: build_message, send_loop with the socket's
--                  answers as a list, reconnect, drain_acks. Session is about what stands on the
--                  connection, Ends about termination, Acks about drain_acks, Latency about
--                  order_sender_lat_snapshot_ns and its ring of samples. Afxdp is the path over
--                  AF_XDP: retry is the loop of an order, Afxdp.Retry is about its end. Turn
--                  is a turn of the thread with the ring of orders, Turn.Live is about many of
--                  them.
--   Frame          extract_feed_payload of apps/client/udp_receiver.c and is_udp_feed of
--                  src/afxdp/xdp_filter.bpf.c.
--   Receiver       Pool is the reorder pool of apps/client/udp_receiver.c with reorder_find and its
--                  like; Gap is handle_payload and what it calls, a step from state to state. Gap.Inv
--                  is the invariant, Gap.Order and Gap.Rounds are about drain_pending, Gap.Branches and
--                  Gap.Ahead about the branches, Gap.Handle about the whole; Gap.Pins and
--                  Gap.Frames follow the frames. Loop has the parts of udp_receiver_thread:
--                  handle_burst, poll_rewinder, idle, recycle_consumed; Balance follows the frames
--                  of a burst. Turn joins a burst with Rx, and Turn.Frames says who holds the
--                  frames after it.
--   Feed           bulk_feed of apps/server/feed.c: pack is its inner loop, emit one packet, fill the
--                  loop over the buffer, feed_reads the loop over the reads. Pack is about one packet,
--                  Stream about all of them, Sent about what goes out. Timed is timestamp_feed:
--                  file_messages reads the file, take_message is the body of the loop, flush one
--                  packet; Timed.Messages is about the reading and the target times, Timed.Groups
--                  about the packets.
--   Telemetry      src/telemetry/telemetry.cpp: control_client is the loop of control_loop over a
--                  client, apply_command_line a command with the switches of the strategy that it
--                  sets. Stream is about the lines, Switches about the commands.
--   Rewinder       apps/server/rewinder.c: rewinder_cache_packet, find_packet, and the answer to one
--                  request. Log is about the cache as a list, Log.History about a search after packets
--                  were cached, Replay about the answer.
--   Itch           src/itch/itch_handler.c: the dispatch table and the handlers, with the SSE4.1 and
--                  the scalar reads. Layout is include/hft/itch/structs.h.
--   Checksum       include/hft/utils/checksum.h, and ip_checksum and csum_replace2 of
--                  src/afxdp/afxdp_tx.c. Lanes is about the AVX2 loop, Fold about the fold.
--   Tx             src/afxdp/afxdp_tx.c: the frame pool, the header template, afxdp_tx_send. Header is
--                  about the headers of a datagram, Pool about the frames.
--   Rx             src/afxdp/afxdp_receiver.c: the stack of free frames, afxdp_refill_fq, afxdp_recv_burst,
--                  afxdp_recycle. Pool says who holds each frame, Run follows any sequence of the calls.
--                  Setup is afxdp_init with the XDP filter and the attempts to create a socket, and
--                  afxdp_close; Ladder is about the attempts, Release about what is held afterwards.
--   Env            the reading of environment variables there and in apps/engine/dispatcher.cpp, with
--                  strtoul.
--   Engine         the C++ engine. Risk is src/engine/risk/risk.cpp (Limits, Rate), Oms
--                  src/engine/oms/oms.cpp with engine_submit_quote (Laws, Quotes), FillSim
--                  include/hft/engine/sim/fill_sim.hpp. Table and Book are LiveOrderTable and
--                  ItchBookAdapter of include/hft/engine/itch_book_adapter.hpp: Table.Probe, Find,
--                  Insert, Store and Erase refine the table to a map, Book.Orders and Book.Changes the
--                  handlers. Maker is MarketMaker of include/hft/engine/strategy/mm_mean_reversion.hpp:
--                  Event has on_book_event, Panic and Bands and Events are about what it emits.
--                  Packet and Dispatch are consume and apply_event of apps/engine/dispatcher.cpp with
--                  include/hft/engine/universe.hpp: Packet.Split is about the packets of the feed,
--                  Dispatch.Safe about what reaches the ring of orders.
-- Each component has a module Tests that runs its theorems on concrete values.
--
-- Numbers are natural numbers; where the code's type wraps, the remainder is written out (u16, u32,
-- u64, sub32 and their like), and subtraction modulo a power of two adds the modulus first. Memory is
-- little-endian. A buffer is the list of its bytes, a pointer into it an offset, a pointer to a
-- packet_ref the place that holds it (RefPtr). Static variables are the fields of a state that each
-- operation takes and returns.
--
-- Bounds: the loop that strips VLAN tags has as many rounds as the frame has bytes, and a round
-- takes four of them; drain_pending has one round more than there are slots, since each round but
-- the last takes one out of the pending ones; framing and packing have as many rounds as there are
-- bytes, and a round takes some; the replay has the code's own limit of 16; the fold of a checksum
-- has two turns and a last test, enough for 32 bits. The send loop runs over the answers of the
-- socket: with none left it is still waiting.
--
-- The table of live orders is probed for as many rounds as it has slots; its insert has no bound in
-- the code, and a table with no slot to take the key is a loop that does not end: the model then gives
-- none, and the engine stays where it is. A packet has as many rounds as bytes.
--
-- A slot of the reorder pool has 1500 bytes, into which the code copies any payload: the model records a
-- longer one as an overrun, after which nothing is promised.
--
-- The kernel is an argument: what recv and send return, what the completion ring holds, whether the
-- transmission ring has room, what the fill and receive rings answer, and the clock. So are libxdp and
-- libbpf, the order book library of the engine, and what the strategy computes with doubles. The two
-- sides of a ring, and the writer and the reader of the rewinder's cache, are taken one after the
-- other: memory orders are not modelled. Not modelled are the
-- clock and the order of the turns of the receiver's loop, the statistics of telemetry, the wire observer, the dead-man thread, the set-up of sockets, files and threads, and what is only printed.
pub mod Base
pub mod Ring
pub mod Wire
pub mod Framing
pub mod OrderReceiver
pub mod OrderSender
pub mod Frame
pub mod Receiver
pub mod Rewinder
pub mod Rx
pub mod Telemetry
pub mod Env
pub mod Engine
pub mod Itch
pub mod Checksum
pub mod Tx
pub mod Feed
