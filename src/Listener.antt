-- ===== src/Listener.antt =====
-- pkg/listener/listener.go: packets and lines reach the relay, the parser and the event queue.
pub mod Relayed
pub mod Delivery
pub mod Connection
pub mod Drain
use statsd_bridge.Prelude.{
  ℕ, ◌+◌, ◌-◌, Bool, true, false, Option, none, some, List, [], ◌∷◌, ◌++◌, ltb, ◌==◌, length, take,
  replicate, if◌then◌else◌, split, Bytes, ◌>>=◌,
}
use mathlib.Core.Option
use statsd_bridge.Event.Queue.{EventQueue, queue}
use statsd_bridge.Relay.{Relay, relay_line_now}

-- The interface Parser: the events of a line, and the parser's counters `P` after it. `none` is a
-- panic.
abbrev pub LineParser : Type 0 → Type 0 → Type 0
LineParser E P = Bytes → P → Option (List E × P)

module _ (E P : Type 0) where
  -- What the listeners count and write to; the event handler is an EventQueue. The channel of UDP
  -- packets has a positive capacity.
  pub record Listener : Type 0 where
    pub udp_packet_queue : List Bytes
    pub capacity : ℕ
    pub udp_packets : ℕ
    pub udp_packet_drops : ℕ
    pub unixgram_packets : ℕ
    pub lines_received : ℕ
    pub tcp_connections : ℕ
    pub tcp_errors : ℕ
    pub tcp_line_too_long : ℕ
    pub relay : Option Relay
    pub event_handler : EventQueue E
    pub counters : P

-- what ReadLine of a TCP connection answers: a line, the first part of one that is too long for the
-- buffer, io.EOF or another error
pub data Read : Type 0 where
  line prefix : Bytes → Read
  eof failed : Read

-- the relay, if there is one, behind a line; `none` while the line waits for room
unfoldable pub relayed : Bytes → Option Relay → Option (Option Relay)
unfolding relay_line_now
relayed l none = some none
relayed l (some r) =
    if ltb 0 (length l) then Option.map some (relay_line_now l r) else some (some r)

module _ {E P : Type 0} (parse : LineParser E P) where
  -- one round of the loop over the lines; `none` is a panic, or a line that waits for the relay
  unfoldable pub handle_line : Bytes → Listener E P → Option (Listener E P)
  unfolding relayed
  handle_line l s = do
    relay ← relayed l s.relay
    (events, counters) ← parse l s.counters
    some (record s {
      lines_received = s.lines_received + 1;
      relay = relay;
      event_handler = queue s.event_handler events;
      counters = counters;
    })

  unfoldable pub handle_lines : List Bytes → Listener E P → Option (Listener E P)
  unfolding handle_line
  handle_lines [] s = some s
  handle_lines (l ∷ ls) s = handle_line l s >>= handle_lines ls

  -- HandlePacket of the UDP listener
  unfoldable pub handle_packet : Bytes → Listener E P → Option (Listener E P)
  unfolding handle_lines
  handle_packet packet s = handle_lines (split 10 packet) s

  -- HandlePacket of the Unixgram listener
  unfoldable pub handle_unixgram : Bytes → Listener E P → Option (Listener E P)
  unfolding handle_lines
  handle_unixgram packet s =
      handle_lines (split 10 packet) (record s { unixgram_packets = s.unixgram_packets + 1 })

  -- EnqueueUdpPacket: the first n bytes are copied, and the packet is dropped if the channel is full.
  unfoldable pub enqueue_udp_packet : Bytes → ℕ → Listener E P → Listener E P
  enqueue_udp_packet packet n s =
      let copied = take n packet ++ replicate (n - length packet) 0 in
      let s' = record s { udp_packets = s.udp_packets + 1 } in
      if ltb (length s.udp_packet_queue) s.capacity
      then record s' { udp_packet_queue = s.udp_packet_queue ++ copied ∷ [] }
      else record s' { udp_packet_drops = s.udp_packet_drops + 1 }

  -- one round of ProcessUdpPacketQueue, which waits for a packet
  unfoldable pub process_udp_packet : Listener E P → Option (Listener E P)
  unfolding handle_packet
  process_udp_packet s = elim s.udp_packet_queue [
    | [] ↦ some s
    | packet ∷ rest ↦ handle_packet packet (record s { udp_packet_queue = rest })
  ]

  -- the loop of HandleConn over what the connection reads
  unfoldable pub handle_reads : List Read → Listener E P → Option (Listener E P)
  unfolding handle_line
  handle_reads [] s = some s
  handle_reads (line l ∷ reads) s = handle_line l s >>= handle_reads reads
  handle_reads (prefix l ∷ reads) s =
      some (record s { tcp_line_too_long = s.tcp_line_too_long + 1 })
  handle_reads (eof ∷ reads) s = some s
  handle_reads (failed ∷ reads) s = some (record s { tcp_errors = s.tcp_errors + 1 })

  -- HandleConn
  unfoldable pub handle_conn : List Read → Listener E P → Option (Listener E P)
  unfolding handle_reads
  handle_conn reads s = handle_reads reads (record s { tcp_connections = s.tcp_connections + 1 })
