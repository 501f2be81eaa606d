-- ===== src/Engine/Dispatch.antt =====
-- apps/engine/dispatcher.cpp with include/hft/engine/universe.hpp: the events of the feed to the books,
-- the fill simulation and the strategy of their symbols, and the strategy's requests to the gate of
-- risk checks and ids.
pub mod Safe
pub mod Shards
use low_latency_trading_pipe.Base.{
  ℕ, ◌+◌, ◌-◌, ◌/◌, ◌%◌, ◌^◌, Bool, true, false, ◌&&◌, ◌||◌, not, Option, none, some, List, [], ◌∷◌,
  ◌==◌, if◌then◌else◌, get_or, update, u32, u64,
}
use low_latency_trading_pipe.Ring.{Ring, consume}
use low_latency_trading_pipe.Itch.{Event, Isa}
use low_latency_trading_pipe.Engine.Risk.{Side}
use low_latency_trading_pipe.Engine.Oms.{Gate, engine_submit_quote}
use low_latency_trading_pipe.Engine.FillSim.{Fill, FillSim, on_trade}
use low_latency_trading_pipe.Engine.Maker.{Params, Doubles, State, Shared, Desk, Request}
use low_latency_trading_pipe.Engine.Maker.Event.{on_book_event, on_fill}
use low_latency_trading_pipe.Engine.Book.{
  Library, Adapter, on_add, on_reduce, on_delete, on_replace, peek,
}
use low_latency_trading_pipe.Engine.Packet.{packet_events}

-- kLocates, and kNotInUniverse
abbrev pub locates : List ℕ
locates =
    6562 ∷ 7457 ∷ 7939 ∷ 347 ∷ 4321 ∷ 5294 ∷ 2741 ∷ 13 ∷ 7159 ∷ 2020 ∷ 8000 ∷ 7888 ∷ 8036 ∷ 8757
    ∷ 5336 ∷ []

abbrev pub not_in_universe : ℕ
not_in_universe = 2 ^ 16 - 1

-- The loop of build_shard_lut that writes the locates from a shard on.
unfoldable pub write_lut : List ℕ → ℕ → (ℕ → ℕ) → ℕ → ℕ
write_lut [] i lut = lut
write_lut (l ∷ ls) i lut = write_lut ls (i + 1) (update lut l i)

unfoldable pub shard_for_locate : ℕ → ℕ
unfolding write_lut
shard_for_locate locate = write_lut locates 0 (λ l. not_in_universe) locate

-- The symbols' books, simulations and states, what they share, and the gate to the exchange.
pub record Engine (B H D : Type 0) : Type 0 where
  pub books : ℕ → Adapter B H
  pub sims : ℕ → FillSim
  pub states : ℕ → State D
  pub shared : Shared
  pub gate : Gate

-- What consume keeps besides: the heartbeat counts for the dead-man thread.
pub record Loop (B H D : Type 0) : Type 0 where
  pub engine : Engine B H D
  pub idle_loops : ℕ
  pub heartbeat : ℕ

-- A turn with an empty ring: if the dead-man thread runs, each 1024th counts.
unfoldable pub idle_turn : {B H D : Type 0} → Bool → Loop B H D → Loop B H D
idle_turn enabled l =
    let idle_loops = u32 (l.idle_loops + 1) in
    if not enabled
    then l
    else if idle_loops % 0x400 == 0
    then record l { idle_loops = idle_loops; heartbeat = u64 (l.heartbeat + 1) }
    else record l { idle_loops = idle_loops }

-- What an event does to a book: nothing for another type; the loop of the table may not end.
pub data Change (B H : Type 0) : Type 0 where
  ignored : Change B H
  stuck : Change B H
  changed : Adapter B H → Change B H

abbrev pub change_of : {B H : Type 0} → Option (Adapter B H) → Change B H
change_of none = stuck
change_of (some a) = changed a

-- The requests of an event in turn, whose answers are not looked at.
unfoldable pub submit_all : ℕ → ℕ → List Request → Gate → Gate
unfolding engine_submit_quote
submit_all locate ts [] g = g
submit_all locate ts (r ∷ rs) g =
    submit_all locate ts rs (engine_submit_quote locate r.side r.px r.qty ts g).1

module _ {B H D : Type 0} (lib : Library B H) (p : Params) (f : Doubles D) where
  -- The switch of apply_event.
  unfoldable pub apply_book : Event → Adapter B H → Change B H
  unfolding on_add on_reduce on_delete on_replace
  apply_book e a =
      if e.type == b'A' || e.type == b'F'
      then change_of (on_add lib e.order_id e.side e.qty e.price a)
      else if e.type == b'X'
      then changed (on_reduce lib e.order_id e.qty a)
      else if e.type == b'D'
      then changed (on_delete lib e.order_id a)
      else if e.type == b'E' || e.type == b'C'
      then changed (on_reduce lib e.order_id e.qty a)
      else if e.type == b'U'
      then change_of (on_replace lib e.order_id e.aux e.qty e.price a)
      else ignored

  -- The side and the price of the order that an execution is of, looked up before the book changes.
  unfoldable pub trade_info : Event → Adapter B H → Option (Side × ℕ)
  unfolding peek
  trade_info e a = if e.type == b'E' || e.type == b'C' then peek lib e.order_id a else none

  abbrev pub trade_px : Event → ℕ → ℕ
  trade_px e px = if e.type == b'C' then e.price / 100 else px

  abbrev pub fill_state : Option Fill → State D → State D
  fill_state none s = s
  fill_state (some fill) s = on_fill f fill s

  -- The simulation and the state after a trade.
  unfoldable pub simulate : Option (Side × ℕ) → Event → FillSim × State D → FillSim × State D
  unfolding on_trade on_fill
  simulate none e (sim, s) = (sim, s)
  simulate (some (side, px)) e (sim, s) =
      let r = on_trade side (trade_px e px) e.qty e.ts sim in (r.1, fill_state r.0 s)

  -- The strategy looks at the book that has changed.
  unfoldable pub look : Event → Adapter B H → FillSim × State D → Engine B H D → Desk D
  unfolding on_book_event
  look e a (sim, s) w =
      on_book_event p f (lib.top a.book) e.ts
        (record { state = s; shared = w.shared; fsim = sim; emitted = [] })

  -- The last part: what the strategy has changed, and its requests.
  unfoldable pub quote_shard :
      ℕ → Event → Adapter B H → FillSim × State D → Engine B H D → Engine B H D
  unfolding look submit_all
  quote_shard shard e a x w =
      let desk = look e a x w in
      record {
        books = update w.books shard a;
        sims = update w.sims shard desk.fsim;
        states = update w.states shard desk.state;
        shared = desk.shared;
        gate = submit_all (get_or locates shard 0) e.ts desk.emitted w.gate;
      }

  abbrev pub apply_change : ℕ → Event → Change B H → Engine B H D → Bool × Engine B H D
  apply_change shard e ignored w = (true, w)
  apply_change shard e stuck w = (false, w)
  apply_change shard e (changed a) w =
      let info = trade_info e (w.books shard) in
      (true, quote_shard shard e a (simulate info e (w.sims shard, w.states shard)) w)

  -- The engine afterwards, and whether it goes on: a loop that does not end keeps it where it is.
  unfoldable pub apply_event : Event → Engine B H D → Bool × Engine B H D
  unfolding apply_book trade_info simulate quote_shard
  apply_event e w =
      let shard = shard_for_locate e.stock_locate in
      if shard == not_in_universe
      then (true, w)
      else apply_change shard e (apply_book e (w.books shard)) w

  unfoldable pub apply_events : List Event → Engine B H D → Bool × Engine B H D
  unfolding apply_event
  apply_events [] w = (true, w)
  apply_events (e ∷ es) w =
      let r = apply_event e w in let rest = apply_events es r.1 in if r.0 then rest else r

  -- A turn with a packet, whose time and bytes are given, and one without.
  unfoldable pub take_packet : Bool → Isa → Event → ℕ × List ℕ → Loop B H D → Bool × Loop B H D
  unfolding apply_events packet_events
  take_packet enabled isa blank (ts, payload) l =
      let r = apply_events (packet_events isa blank ts payload) l.engine in
      (
        r.0,
        record {
          engine = r.1;
          idle_loops = 0;
          heartbeat = if r.0 && enabled then u64 (l.heartbeat + 1) else l.heartbeat;
        },
      )

  -- One turn of the loop of consume. What an entry of the ring leads to is an argument.
  unfoldable pub consume_turn :
      {A : Type 0}
      → (A → ℕ × List ℕ)
      → Bool
      → Isa
      → Event
      → Ring A
      → Loop B H D
      → (Bool × Loop B H D) × Ring A
  unfolding take_packet idle_turn
  consume_turn deref enabled isa blank ring l = elim (consume ring) [
    | none ↦ ((true, idle_turn enabled l), ring)
    | some (entry, ring') ↦
        let r = take_packet enabled isa blank (deref entry) l in (r, if r.0 then ring' else ring)
  ]
