-- ===== src/Feed/Timed.antt =====
-- timestamp_feed of apps/server/feed.c: the messages of a file that is in memory, in packets of equal
-- times, each sent when its time has come. The division by the speed, on doubles, is an argument.
pub mod Messages
pub mod Groups
use low_latency_trading_pipe.Base.{
  ℕ, zero, suc, ◌+◌, ◌-◌, ◌*◌, ◌/◌, ◌%◌, ◌^◌, Bool, true, false, ◌&&◌, ◌||◌, not, List, [], ◌∷◌,
  ◌++◌, ltb, leb, ◌==◌, if◌then◌else◌, length, take, drop, u16, sub64, byte, be16, put16,
}
use low_latency_trading_pipe.Feed.{Feed, max_msg_payload, emit, end_of_session}
use low_latency_trading_pipe.Feed

-- ITCH_BUNDLED_FILE_SIZE and ITCH_BUNDLED_OPEN_OFFSET
abbrev pub itch_bundled_file_size : ℕ
itch_bundled_file_size = 12952050754

abbrev pub itch_bundled_open_offset : ℕ
itch_bundled_open_offset = 440787451

unfoldable pub initial_file_offset : ℕ → ℕ
initial_file_offset file_size =
    if file_size == itch_bundled_file_size then itch_bundled_open_offset else 0

-- The six bytes of a message's time.
abbrev pub msg_timestamp : List ℕ → ℕ
msg_timestamp msg =
    byte msg 5 * 2 ^ 40
    + byte msg 6 * 2 ^ 32
    + byte msg 7 * 2 ^ 24
    + byte msg 8 * 2 ^ 16
    + byte msg 9 * 2 ^ 8
    + byte msg 10

-- The whole messages from a position of the file on, less those that are too short for a time.
unfoldable pub file_messages : ℕ → List ℕ → List (List ℕ)
file_messages zero b = []
file_messages (suc rounds) b =
    let msg_size = be16 b 0 in
    let rest = file_messages rounds (drop (2 + msg_size) b) in
    if ltb (length b) 2 || ltb (length b) (2 + msg_size)
    then []
    else if ltb msg_size 11
    then rest
    else take msg_size (drop 2 b) ∷ rest

-- What the loop is over, and what it finds.
unfoldable pub data_of : List ℕ → List ℕ
unfolding initial_file_offset
data_of file = drop (initial_file_offset (length file)) file

unfoldable pub messages_of : List ℕ → List (List ℕ)
unfolding file_messages data_of
messages_of file = file_messages (length (data_of file)) (data_of file)

-- A time of the clock.
pub record Timespec : Type 0 where
  pub tv_sec : ℕ
  pub tv_nsec : ℕ

-- The time of a packet: so many nanoseconds after the start.
unfoldable pub target : Timespec → ℕ → Timespec
target start delta_ns =
    let tv_sec = start.tv_sec + delta_ns / 1_000_000_000 in
    let tv_nsec = start.tv_nsec + delta_ns % 1_000_000_000 in
    if leb 1_000_000_000 tv_nsec
    then record { tv_sec = tv_sec + 1; tv_nsec = tv_nsec - 1_000_000_000 }
    else record { tv_sec = tv_sec; tv_nsec = tv_nsec }

-- The local variables; `waits` holds the times that the sending has waited for, in order.
pub record Timed : Type 0 where
  pub feed : Feed
  pub payload : List ℕ
  pub msg_count : ℕ
  pub first_packet_ts : ℕ
  pub current_packet_ts : ℕ
  pub replay_started : Bool
  pub waits : List Timespec

abbrev pub start : Timed
start = record {
  feed = Feed.init;
  payload = [];
  msg_count = 0;
  first_packet_ts = 0;
  current_packet_ts = 0;
  replay_started = false;
  waits = [];
}

-- The first message of a packet sets its time, and the first of all the start.
unfoldable pub open_packet : ℕ → Timed → Timed
open_packet itch_ts s =
    if not (s.msg_count == 0)
    then s
    else if s.replay_started
    then record s { current_packet_ts = itch_ts }
    else record s { current_packet_ts = itch_ts; first_packet_ts = itch_ts; replay_started = true }

abbrev pub append_message : List ℕ → Timed → Timed
append_message msg s = record s {
  payload = s.payload ++ (put16 (length msg) ++ msg);
  msg_count = u16 (s.msg_count + 1);
}

module _ (session : List ℕ) (scale : ℕ → ℕ) (replay_start : Timespec) where
  -- flush_packet with the variables that are reset after it.
  unfoldable pub flush : Timed → Timed
  unfolding emit target
  flush s = record s {
    feed = emit session 0 0 s.feed s.payload s.msg_count;
    payload = [];
    msg_count = 0;
    waits =
        s.waits ++ (target replay_start (scale (sub64 s.current_packet_ts s.first_packet_ts)) ∷ []);
  }

  -- A packet goes out when the next message has another time, or no room in it.
  unfoldable pub flush_before : List ℕ → Timed → Timed
  unfolding flush
  flush_before msg s =
      let would_overflow = ltb max_msg_payload (length s.payload + 2 + length msg) in
      if ltb 0 s.msg_count && (not (msg_timestamp msg == s.current_packet_ts) || would_overflow)
      then record (flush s) { current_packet_ts = msg_timestamp msg }
      else s

  abbrev pub take_message : List ℕ → Timed → Timed
  take_message msg s = append_message msg (flush_before msg (open_packet (msg_timestamp msg) s))

  unfoldable pub take_messages : List (List ℕ) → Timed → Timed
  unfolding open_packet flush_before
  take_messages [] s = s
  take_messages (m ∷ ms) s = take_messages ms (take_message m s)

  -- The last packet, and the end of the session.
  unfoldable pub flush_last : Timed → Timed
  unfolding flush
  flush_last s = if ltb 0 s.msg_count then flush s else s

  unfoldable pub timestamp_feed : List ℕ → Feed
  unfolding take_messages flush_last messages_of end_of_session
  timestamp_feed file =
      end_of_session session 0 0 (flush_last (take_messages (messages_of file) start)).feed
