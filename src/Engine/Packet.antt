-- ===== src/Engine/Packet.antt =====
-- The loop over the messages of a packet in consume of apps/engine/dispatcher.cpp. The packet is what
-- is left of it from the loop's offset on. The uninitialised event of each round is an argument.
pub mod Split
use low_latency_trading_pipe.Base.{
  ℕ, zero, suc, ◌+◌, ◌||◌, Option, none, some, List, [], ◌∷◌, ltb, if◌then◌else◌, length, drop,
  be16,
}
use low_latency_trading_pipe.Itch.{Event, Isa, dispatch}

-- Each message from its type on, with all that follows it, for at most so many rounds.
unfoldable pub messages : ℕ → List ℕ → List (List ℕ)
messages zero b = []
messages (suc rounds) b =
    let msg_size = be16 b 0 in
    let rest = messages rounds (drop (2 + msg_size) b) in
    if ltb (length b) 2 || ltb (length b) (2 + msg_size) then [] else drop 2 b ∷ rest

-- The event of a message, stamped with the packet's time, in front of those after it.
unfoldable pub stamped : ℕ → Option Event → List Event → List Event
stamped ts none events = events
stamped ts (some e) events = record e { ts = ts } ∷ events

unfoldable pub events_of : Isa → Event → ℕ → List (List ℕ) → List Event
unfolding dispatch stamped
events_of isa blank ts [] = []
events_of isa blank ts (m ∷ ms) = stamped ts (dispatch isa m blank) (events_of isa blank ts ms)

-- The events that a packet makes, oldest first: as many rounds as bytes are enough.
unfoldable pub packet_events : Isa → Event → ℕ → List ℕ → List Event
unfolding messages events_of
packet_events isa blank ts payload = events_of isa blank ts (messages (length payload) payload)
