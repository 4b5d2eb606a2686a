-- ===== src/Relay/Packets.antt =====
-- The packets of the relay: which lines they hold, and their length.
use statsd_bridge.Prelude.{
  ℕ, ◌+◌, ◌-◌, ◌≤◌, ◌<◌, ◌^◌, ◌≡◌, ◌⊎◌, refl, sym, ◌∙◌, Bool, true, false, inl, inr, List, [], ◌∷◌,
  ◌++◌, map, flatten, flatten-append, flatten-snoc, ltb→ge, append-nil, append_assoc, arith, ltb,
  ◌==◌, length, length-append, All, All-append, Bool-cases, if◌then◌else◌, Bytes,
}
use mathlib.Core.List.{map-append}
use statsd_bridge.Relay.{
  Relay, new_relay, with_newline, relay_line, send_packet, after_send, tick, receive_line,
  receive_from, receive, newline, longest_line,
}

-- The lines that may go on the channel: not empty, and one byte shorter than a packet at most.
abbrev pub accepted : ℕ → Bytes → List Bytes
accepted n l = if length l == 0 then [] else if ltb (length l) n then with_newline l ∷ [] else []

-- A run of the relay: `log` holds the accepted lines of the calls of RelayLine, in order. Ticks and
-- rounds of the goroutine come in between, and each write to the socket may fail.
pub data Run (n : ℕ) : List Bytes → Relay → Type 0 where
  created : Run n [] (new_relay n)
  line :
      {log : List Bytes} {r : Relay} (l : Bytes)
      → Run n log r
      → Run n (log ++ accepted n l) (relay_line l r)
  ticked :
      {log : List Bytes} {r : Relay} (written : Bool) → Run n log r → Run n log (tick written r)
  received :
      {log : List Bytes} {r : Relay} (written : Bool) → Run n log r → Run n log (receive written r)

-- Which lines the packets and the buffer consist of.
data Lines (log : List Bytes) (r : Relay) : Type 0 where
  live :
      (packets : List (List Bytes)) (current : List Bytes)
      → r.running ≡ true
      → r.sent ≡ map flatten packets
      → r.buffer ≡ flatten current
      → log ≡ flatten packets ++ (current ++ r.buffer_channel)
      → Lines log r
  dead :
      (packets : List (List Bytes)) (rest : List Bytes)
      → r.running ≡ false
      → r.sent ≡ map flatten packets
      → log ≡ flatten packets ++ rest
      → Lines log r

longest_line_lem : (n : ℕ) → 0 < n → n < 2 ^ 64 → longest_line n ≡ n - 1
longest_line_lem n h k = omega arith

-- What RelayLine does to the channel.
channel-relay_line :
    (n : ℕ) (l : Bytes) (r : Relay)
    → r.packet_length ≡ n
    → 0 < n
    → n < 2 ^ 64
    → (relay_line l r).buffer_channel ≡ r.buffer_channel ++ accepted n l
unfolding relay_line
channel-relay_line n l r e h k =
    rw (e, longest_line_lem n h k) (ground (arith, append-nil r.buffer_channel))

relay_line_keeps :
    (l : Bytes) (r : Relay)
    → ((relay_line l r).running ≡ r.running)
      × ((relay_line l r).sent ≡ r.sent)
      × ((relay_line l r).buffer ≡ r.buffer)
      × ((relay_line l r).packet_length ≡ r.packet_length)
      × ((relay_line l r).packets_total ≡ r.packets_total)
unfolding relay_line
relay_line_keeps l r = ground arith

Lines-relay_line :
    (n : ℕ) (l : Bytes) (log : List Bytes) (r : Relay)
    → r.packet_length ≡ n
    → 0 < n
    → n < 2 ^ 64
    → Lines log r
    → Lines (log ++ accepted n l) (relay_line l r)
Lines-relay_line n l log r e h k (live packets current run s b g) =
    let (run', s', b', _, _) = relay_line_keeps l r in
    live packets current (run' ∙ run) (s' ∙ s) (b' ∙ b)
      (rw (channel-relay_line n l r e h k, g) (simp append_assoc))
Lines-relay_line n l log r e h k (dead packets rest run s g) =
    let (run', s', _, _, _) = relay_line_keeps l r in
    dead packets (rest ++ accepted n l) (run' ∙ run) (s' ∙ s) (rw g (simp append_assoc))

map-flatten-snoc :
    (packets : List (List Bytes)) (current : List Bytes)
    → map flatten (packets ++ current ∷ []) ≡ map flatten packets ++ flatten current ∷ []
map-flatten-snoc packets current = map-append flatten packets (current ∷ [])

empty_of_length : (b : Bytes) → (length b == 0) ≡ true → b ≡ []
empty_of_length [] h = refl
empty_of_length (x ∷ b) h = ground arith

-- After a send and a reset the buffer holds the lines of `new`.
Lines-after_send :
    (written : Bool) (b : Bytes) (new : List Bytes) (r : Relay) (log : List Bytes)
    (packets : List (List Bytes)) (current : List Bytes)
    → r.running ≡ true
    → r.sent ≡ map flatten packets
    → r.buffer ≡ flatten current
    → log ≡ flatten packets ++ (current ++ (new ++ r.buffer_channel))
    → b ≡ flatten new
    → Lines log (after_send (send_packet written r) b)
unfolding after_send send_packet
Lines-after_send true b new r log packets current run s bu g e =
    elim (Bool-cases (length r.buffer == 0)) [
      | inl none_waits ↦ rw none_waits (
          live packets (current ++ new) run s
            (rw (flatten-append current new, ← bu, empty_of_length r.buffer none_waits) e)
            (rw g (simp append_assoc)))
      | inr some_wait ↦ rw some_wait (
          live (packets ++ current ∷ []) new run (rw (map-flatten-snoc packets current, s, bu)) e
            (rw (g, flatten-snoc packets current) (simp append_assoc)))
    ]
Lines-after_send false b new r log packets current run s bu g e =
    elim (Bool-cases (length r.buffer == 0)) [
      | inl none_waits ↦ rw none_waits (
          live packets (current ++ new) run s
            (rw (flatten-append current new, ← bu, empty_of_length r.buffer none_waits) e)
            (rw g (simp append_assoc)))
      | inr some_wait ↦ rw some_wait (
          dead (packets ++ current ∷ []) (new ++ r.buffer_channel) refl
            (rw (map-flatten-snoc packets current, s, bu))
            (rw (g, flatten-snoc packets current) (simp append_assoc)))
    ]

Lines-tick :
    (written : Bool) (log : List Bytes) (r : Relay) → Lines log r → Lines log (tick written r)
unfolding tick
Lines-tick written log r (live packets current run s b g) =
    simp run
      (Lines-after_send written [] [] r log packets current run s b g (unfold flatten in refl))
Lines-tick written log r (dead packets rest run s g) = simp run (dead packets rest run s g)

Lines-receive_line :
    (written : Bool) (b : Bytes) (waiting : List Bytes) (r : Relay) (log : List Bytes)
    (packets : List (List Bytes)) (current : List Bytes)
    → r.running ≡ true
    → r.sent ≡ map flatten packets
    → r.buffer ≡ flatten current
    → log ≡ flatten packets ++ (current ++ b ∷ waiting)
    → Lines log (receive_line written b waiting r)
unfolding receive_line
Lines-receive_line written b waiting r log packets current run s bu g =
    elim (Bool-cases (ltb r.packet_length (length b + length r.buffer))) [
      | inl full ↦ rw full (
          Lines-after_send written b (b ∷ []) (record r { buffer_channel = waiting }) log packets
            current run s bu g (sym (unfold flatten in append-nil b)))
      | inr fits ↦ rw fits (
          live packets (current ++ b ∷ []) run s (rw (flatten-snoc current b, bu))
            (rw g (simp append_assoc)))
    ]

Lines-receive_from :
    (written : Bool) (log waiting : List Bytes) (r : Relay)
    → r.running ≡ true
    → r.buffer_channel ≡ waiting
    → Lines log r
    → Lines log (receive_from written waiting r)
unfolding receive_from
Lines-receive_from written log [] r run e h = h
Lines-receive_from written log (b ∷ waiting) r run e (live packets current _ s bu g) =
    Lines-receive_line written b waiting r log packets current run s bu (rw (← e) g)
Lines-receive_from written log (b ∷ waiting) r run e (dead packets rest stopped s g) = cc

Lines-receive :
    (written : Bool) (log : List Bytes) (r : Relay) → Lines log r → Lines log (receive written r)
unfolding receive
Lines-receive written log r h = elim (Bool-cases r.running) [
  | inl run ↦ simp run (Lines-receive_from written log r.buffer_channel r run refl h)
  | inr stopped ↦ simp stopped h
]

-- The sizes that hold between the steps.
record Bounded (n : ℕ) (r : Relay) : Type 0 where
  length_is : r.packet_length ≡ n
  packets : All (λ p. (0 < length p) × (length p ≤ n)) r.sent
  waiting : length r.buffer ≤ n
  lines : All (λ (l : Bytes). length l ≤ n) r.buffer_channel
  counted : r.packets_total ≡ length r.sent

accepted_bound : (n : ℕ) (l : Bytes) → All (λ (x : Bytes). length x ≤ n) (accepted n l)
unfolding with_newline
accepted_bound n l = ground (arith, length-append l newline)

Bounded-relay_line :
    (n : ℕ) (l : Bytes) (r : Relay) → 0 < n → n < 2 ^ 64 → Bounded n r → Bounded n (relay_line l r)
Bounded-relay_line n l r h k v =
    let (_, s, b, p, t) = relay_line_keeps l r in
    record {
      length_is = p ∙ v.length_is;
      packets = rw s v.packets;
      waiting = rw b v.waiting;
      lines = rw (channel-relay_line n l r v.length_is h k) (
          All-append (λ (x : Bytes). length x ≤ n) r.buffer_channel (accepted n l) v.lines
            (accepted_bound n l));
      counted = rw (s, t) v.counted;
    }

abbrev IsPacket : ℕ → Bytes → Type 0
IsPacket n p = (0 < length p) × (length p ≤ n)

Bounded-send_packet :
    (n : ℕ) (written : Bool) (r : Relay) → Bounded n r → Bounded n (send_packet written r).0
unfolding send_packet
Bounded-send_packet n written r v = elim (Bool-cases (length r.buffer == 0)) [
  | inl none_waits ↦ rw none_waits v
  | inr some_wait ↦ rw some_wait (record {
    length_is = v.length_is;
    packets =
        All-append (IsPacket n) r.sent (r.buffer ∷ []) v.packets ((ground arith, v.waiting), tt);
    waiting = v.waiting;
    lines = v.lines;
    counted = omega (arith, v.counted, length-append r.sent (r.buffer ∷ []));
  })
]

Bounded-after_send :
    (n : ℕ) (b : Bytes) (s : Relay × Bool)
    → length b ≤ n
    → Bounded n s.0
    → Bounded n (after_send s b)
unfolding after_send
Bounded-after_send n b (r, true) h v = record {
  length_is = v.length_is;
  packets = v.packets;
  waiting = h;
  lines = v.lines;
  counted = v.counted;
}
Bounded-after_send n b (r, false) h v = record {
  length_is = v.length_is;
  packets = v.packets;
  waiting = v.waiting;
  lines = v.lines;
  counted = v.counted;
}

Bounded-tick : (n : ℕ) (written : Bool) (r : Relay) → Bounded n r → Bounded n (tick written r)
unfolding tick
Bounded-tick n written r v = elim (Bool-cases r.running) [
  | inl run ↦ simp run (
      Bounded-after_send n [] (send_packet written r) (omega arith)
        (Bounded-send_packet n written r v))
  | inr stopped ↦ simp stopped v
]

Bounded-receive_line :
    (n : ℕ) (written : Bool) (b : Bytes) (waiting : List Bytes) (r : Relay)
    → length b ≤ n
    → All (λ (l : Bytes). length l ≤ n) waiting
    → Bounded n r
    → Bounded n (receive_line written b waiting r)
unfolding receive_line
Bounded-receive_line n written b waiting r h rest v =
    let popped : Bounded n (record r { buffer_channel = waiting }) = record {
      length_is = v.length_is;
      packets = v.packets;
      waiting = v.waiting;
      lines = rest;
      counted = v.counted;
    } in
    elim (Bool-cases (ltb r.packet_length (length b + length r.buffer))) [
      | inl full ↦ rw full (
          Bounded-after_send n b (send_packet written (record r { buffer_channel = waiting })) h
            (Bounded-send_packet n written (record r { buffer_channel = waiting }) popped))
      | inr fits ↦ rw fits (record {
        length_is = v.length_is;
        packets = v.packets;
        waiting = omega (
          arith,
          length-append r.buffer b,
          ltb→ge r.packet_length (length b + length r.buffer) fits,
          v.length_is,
        );
        lines = rest;
        counted = v.counted;
      })
    ]

Bounded-receive_from :
    (n : ℕ) (written : Bool) (waiting : List Bytes) (r : Relay)
    → All (λ (l : Bytes). length l ≤ n) waiting
    → Bounded n r
    → Bounded n (receive_from written waiting r)
unfolding receive_from
Bounded-receive_from n written [] r h v = v
Bounded-receive_from n written (b ∷ waiting) r h v =
    Bounded-receive_line n written b waiting r h.0 h.1 v

Bounded-receive : (n : ℕ) (written : Bool) (r : Relay) → Bounded n r → Bounded n (receive written r)
unfolding receive
Bounded-receive n written r v = elim (Bool-cases r.running) [
  | inl run ↦ simp run (Bounded-receive_from n written r.buffer_channel r v.lines v)
  | inr stopped ↦ simp stopped v
]

-- Every invariant, along a run.
Run-invariants :
    {n : ℕ} {log : List Bytes} {r : Relay}
    → 0 < n
    → n < 2 ^ 64
    → Run n log r
    → Lines log r × Bounded n r
unfolding new_relay
Run-invariants h k created = (
  live [] [] refl refl (unfold flatten in refl) (unfold flatten in refl),
  record { length_is = refl; packets = tt; waiting = omega arith; lines = tt; counted = refl },
)
Run-invariants {n} h k (line {log} {r} l run) =
    let (ls, v) = Run-invariants h k run in
    (Lines-relay_line n l log r v.length_is h k ls, Bounded-relay_line n l r h k v)
Run-invariants {n} h k (ticked {log} {r} written run) =
    let (ls, v) = Run-invariants h k run in
    (Lines-tick written log r ls, Bounded-tick n written r v)
Run-invariants {n} h k (received {log} {r} written run) =
    let (ls, v) = Run-invariants h k run in
    (Lines-receive written log r ls, Bounded-receive n written r v)

-- Every packet that the relay sends has at least one byte and at most packetLength bytes, and
-- packets_total counts them, whatever the lines relayed and however ticks, lines and failures of
-- the socket interleave. The packet length is positive and fits 64 bits.
pub Run-packet_bounds :
    {n : ℕ} {log : List Bytes} {r : Relay}
    → 0 < n
    → n < 2 ^ 64
    → Run n log r
    → All (λ p. (0 < length p) × (length p ≤ n)) r.sent × (r.packets_total ≡ length r.sent)
Run-packet_bounds h k run = let (_, v) = Run-invariants h k run in (v.packets, v.counted)

-- Which lines have left, those that have not, and where these are while the goroutine runs.
abbrev pub Delivered : List Bytes → Relay → Type 0
Delivered log r =
    (packets : List (List Bytes)) × (rest : List Bytes) × (r.sent ≡ map flatten packets)
    × (log ≡ flatten packets ++ rest)
    × ((r.running ≡ false) ⊎ (flatten rest ≡ r.buffer ++ flatten r.buffer_channel))

Delivered-Lines : (log : List Bytes) (r : Relay) → Lines log r → Delivered log r
Delivered-Lines log r (live packets current run s b g) = (
  packets,
  current ++ r.buffer_channel,
  s,
  g,
  inr (rw (flatten-append current r.buffer_channel, b)),
)
Delivered-Lines log r (dead packets rest run s g) = (packets, rest, s, g, inl run)

-- The packets sent consist of whole accepted lines: they hold a first part of the accepted lines,
-- in order, none split, lost or repeated. While the goroutine runs, the other lines are those in
-- the buffer and on the channel. The packet length is positive and fits 64 bits.
pub Run-delivers_lines :
    {n : ℕ} {log : List Bytes} {r : Relay} → 0 < n → n < 2 ^ 64 → Run n log r → Delivered log r
Run-delivers_lines {log} {r} h k run = Delivered-Lines log r (Run-invariants h k run).0
