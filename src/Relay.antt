-- ===== src/Relay.antt =====
-- pkg/relay/relay.go: lines are buffered into packets for another StatsD server.
pub mod Packets
use statsd_bridge.Prelude.{
  ℕ, suc, ◌+◌, ◌-◌, ◌%◌, ◌^◌, Bool, true, false, Option, none, some, List, [], ◌∷◌, ◌++◌, ltb, ◌==◌,
  length, Bytes, has_suffix, if◌then◌else◌,
}

-- The relay and the local state of its goroutine relayOutput. `sent` lists the buffers handed to
-- WriteToUDP, the oldest first; `running` is false once the goroutine has returned.
pub record Relay : Type 0 where
  pub buffer_channel : List Bytes
  pub packet_length : ℕ
  pub packets_total : ℕ
  pub long_lines_total : ℕ
  pub relayed_lines_total : ℕ
  pub buffer : Bytes
  pub sent : List Bytes
  pub running : Bool

-- NewRelay, once the target is resolved and the socket is open
unfoldable pub new_relay : ℕ → Relay
new_relay packet_length = record {
  buffer_channel = [];
  packet_length = packet_length;
  packets_total = 0;
  long_lines_total = 0;
  relayed_lines_total = 0;
  buffer = [];
  sent = [];
  running = true;
}

abbrev pub newline : Bytes
newline = 10 ∷ []

-- `r.packetLength - 1` on the 64-bit uint, which wraps around at 0
abbrev pub longest_line : ℕ → ℕ
longest_line packet_length = (packet_length + 2 ^ 64 - 1) % 2 ^ 64

unfoldable pub with_newline : Bytes → Bytes
with_newline l = if has_suffix l newline then l else l ++ newline

-- RelayLine, once there is room in its channel.
unfoldable pub relay_line : Bytes → Relay → Relay
relay_line l r =
    if length l == 0
    then r
    else if ltb (longest_line r.packet_length) (length l)
    then record r { long_lines_total = r.long_lines_total + 1 }
    else record r {
      relayed_lines_total = r.relayed_lines_total + 1;
      buffer_channel = r.buffer_channel ++ with_newline l ∷ [];
    }

-- RelayLine; `none` while it waits for room in the channel of 100 lines, which comes only if
-- relayOutput takes a line, and so never once that has returned.
unfoldable pub relay_line_now : Bytes → Relay → Option Relay
unfolding relay_line
relay_line_now l r =
    let r' = relay_line l r in if ltb 100 (length r'.buffer_channel) then none else some r'

-- sendPacket of the buffer; `written` tells whether WriteToUDP succeeds, and the result whether
-- sendPacket does.
unfoldable pub send_packet : Bool → Relay → Relay × Bool
send_packet written r =
    if length r.buffer == 0
    then (r, true)
    else (record r { sent = r.sent ++ r.buffer ∷ []; packets_total = r.packets_total + 1 }, written)

-- `buffer.Reset()` and `buffer.Write(b)` after a send; an error ends the goroutine.
unfoldable pub after_send : Relay × Bool → Bytes → Relay
after_send (r, true) b = record r { buffer = b }
after_send (r, false) b = record r { running = false }

-- the case of relayOutput for a tick
unfoldable pub tick : Bool → Relay → Relay
tick written r = if r.running then after_send (send_packet written r) [] else r

-- the case of relayOutput for a line `b` from the channel, on which `rest` is left
unfoldable pub receive_line : Bool → Bytes → List Bytes → Relay → Relay
receive_line written b rest r =
    let r' = record r { buffer_channel = rest } in
    if ltb r.packet_length (length b + length r.buffer)
    then after_send (send_packet written r') b
    else record r' { buffer = r.buffer ++ b }

unfoldable pub receive_from : Bool → List Bytes → Relay → Relay
receive_from written [] r = r
receive_from written (b ∷ rest) r = receive_line written b rest r

-- relayOutput takes the next line, if there is one and the goroutine still runs.
unfoldable pub receive : Bool → Relay → Relay
unfolding receive_from
receive written r = if r.running then receive_from written r.buffer_channel r else r
