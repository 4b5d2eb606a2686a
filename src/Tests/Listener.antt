-- ===== src/Tests/Listener.antt =====
-- A UDP listener with room for one packet, to which two packets come.
use statsd_bridge.Prelude.{
  ℕ, suc, split, ◌≡◌, refl, Option, some, none, List, [], ◌∷◌, ◌>>=◌, codes, Bytes, length, flatten,
  Returns, arith,
}
use statsd_bridge.Event.Queue.{empty_queue, queue, queue_one, flush_unlocked}
use statsd_bridge.Relay.{new_relay}
use statsd_bridge.Listener.{
  LineParser, Listener, enqueue_udp_packet, process_udp_packet, Read, line, prefix, handle_conn,
  handle_lines,
}
use statsd_bridge.Listener.Connection.{lines_before, end_of, closed, handle_conn-lines}
use statsd_bridge.Listener.Delivery.{
  Run, started, received, refused, processed, IsAccounted, Run-IsAccounted, parse_all,
}
use statsd_bridge.Listener.Drain.{process_packets, IsSent, process_packets-IsSent}

-- One event for each line, its length; the counter counts the lines.
abbrev lengths : LineParser ℕ ℕ
lengths l n = some (length l ∷ [], suc n)

abbrev idle : Listener ℕ ℕ
idle = record {
  udp_packet_queue = [];
  capacity = 1;
  udp_packets = 0;
  udp_packet_drops = 0;
  unixgram_packets = 0;
  lines_received = 0;
  tcp_connections = 0;
  tcp_errors = 0;
  tcp_line_too_long = 0;
  relay = some (new_relay 100);
  event_handler = empty_queue 2;
  counters = 0;
}

abbrev packet : Bytes
packet = 97 ∷ 10 ∷ 98 ∷ 99 ∷ []

abbrev waiting : Listener ℕ ℕ
waiting = enqueue_udp_packet lengths packet 4 (enqueue_udp_packet lengths packet 4 idle)

abbrev or_idle : Option (Listener ℕ ℕ) → Listener ℕ ℕ
or_idle none = idle
or_idle (some s) = s

abbrev done : Listener ℕ ℕ
done = or_idle (process_udp_packet lengths waiting)

done-Run : Run lengths idle (packet ∷ []) (packet ∷ []) done
unfolding enqueue_udp_packet process_udp_packet split empty_queue queue new_relay
done-Run =
    processed done packet []
      (refused packet 4 (ground arith) (received packet 4 (ground arith) (ground arith) started))
      refl refl

done_counts :
    (done.udp_packets ≡ 2)
    × (done.udp_packet_drops ≡ 1)
    × (done.lines_received ≡ 2)
    × (done.event_handler.sent ≡ (1 ∷ 2 ∷ []) ∷ [])
unfolding enqueue_udp_packet process_udp_packet split empty_queue queue queue_one flush_unlocked
    new_relay
done_counts = (refl, refl, refl, refl)

Run-IsAccounted_example : IsAccounted lengths idle (packet ∷ []) (packet ∷ []) done
unfolding new_relay
Run-IsAccounted_example =
    Run-IsAccounted lengths idle (packet ∷ []) (packet ∷ []) done
      (
        refl,
        refl,
        refl,
        refl,
        unfold flatten empty_queue in refl,
        (refl, ground arith, ground arith),
      )
      done-Run

-- Two lines, then one that is too long; what follows is not read.
abbrev reads : List Read
reads = line (codes "a") ∷ line (codes "bc") ∷ prefix (codes "d") ∷ line (codes "e") ∷ []

handle_conn-lines_example : handle_conn lengths reads idle ≡ (
    handle_lines lengths (lines_before reads) (record idle { tcp_connections = 1 }) >>= λ s'.
    some (closed lengths (end_of reads) s'))
handle_conn-lines_example = handle_conn-lines lengths reads idle

-- The two lines of the packet that waits.
process_packets-IsSent_example :
    Returns (IsSent lengths waiting (1 ∷ 2 ∷ [])) (process_packets lengths 1 waiting)
unfolding enqueue_udp_packet
process_packets-IsSent_example =
    process_packets-IsSent lengths waiting (1 ∷ 2 ∷ [], 2)
      (unfold enqueue_udp_packet new_relay split flatten in omega arith)
      (unfold enqueue_udp_packet parse_all split flatten in refl)
