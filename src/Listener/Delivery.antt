-- ===== src/Listener/Delivery.antt =====
-- The UDP listener over runs: its channel, its counts and the way of the lines.
use statsd_bridge.Prelude.{
  ℕ, suc, Bool, true, false, ◌<◌, ◌+◌, ◌-◌, ◌≤◌, ◌≡◌, refl, sym, ap, ◌∙◌, inl, inr, Option, none,
  some, List, [], ◌∷◌, ◌++◌, append-nil, append_assoc, arith, length, length-append, flatten,
  flatten-snoc, map, split, Bytes, Option-cases, ltb, ◌>>=◌, take,
}
use mathlib.Core.Path.{subst}
use mathlib.Core.Option.{some-injective}
use mathlib.Core.List.{map-append}
use statsd_bridge.Event.Queue.{queue, flush, history}
use statsd_bridge.Event.Queue.Order.{history-queue, history-flush}
use mathlib.Core.Option
use statsd_bridge.Relay.{receive, tick}
use statsd_bridge.Relay.Packets
use statsd_bridge.Listener.Relayed.{
  relay_all, IsGiven, IsGiven-fresh, IsGiven-relay_all, IsGiven-step, IsFreshRelay, IsRelayed,
  IsGiven-IsRelayed,
}
use statsd_bridge.Listener.{
  LineParser, Listener, relayed, handle_line, handle_lines, handle_packet, enqueue_udp_packet,
  process_udp_packet,
}

module _ {E P : Type 0} (parse : LineParser E P) where
  -- the events of the lines, and the parser's counters after them
  unfoldable pub parse_all : List Bytes → P → Option (List E × P)
  parse_all [] p = some ([], p)
  parse_all (l ∷ ls) p = do
    (es, p') ← parse l p
    (more, p'') ← parse_all ls p'
    some (es ++ more, p'')

  -- After the lines the listener `s` has become `s'`.
  abbrev pub Delivered : List Bytes → Listener E P → Listener E P → Type 0
  Delivered ls s s' =
      (s'.lines_received ≡ s.lines_received + length ls)
      × (relay_all ls s.relay ≡ some s'.relay)
      × (s'.udp_packet_queue ≡ s.udp_packet_queue)
      × (s'.udp_packets ≡ s.udp_packets)
      × (s'.udp_packet_drops ≡ s.udp_packet_drops)
      × (s'.capacity ≡ s.capacity)
      × (es : List E) × (parse_all ls s.counters ≡ some (es, s'.counters))
      × (history s'.event_handler ≡ history s.event_handler ++ es)

  pub handle_lines-Delivered :
      (ls : List Bytes) (s s' : Listener E P)
      → handle_lines parse ls s ≡ some s'
      → Delivered ls s s'
  unfolding handle_lines handle_line parse_all relay_all
  handle_lines-Delivered [] s s' e = subst (Delivered [] s) (some-injective s s' e) (
    omega arith,
    refl,
    refl,
    refl,
    refl,
    refl,
    [],
    refl,
    sym (append-nil (history s.event_handler)),
  )
  handle_lines-Delivered (l ∷ ls) s s' e = elim (Option-cases (relayed l s.relay)) [
    | inl waits ↦ absurd (no_state (rw waits at e))
    | inr (o, room) ↦ elim (Option-cases (parse l s.counters)) [
      | inl panics ↦ absurd (no_state (rw (room, panics) at e))
      | inr ((es, p), there) ↦
          let s1 : Listener E P = record s {
            lines_received = s.lines_received + 1;
            relay = o;
            event_handler = queue s.event_handler es;
            counters = p;
          } in
          let (n, r, q, a, b, c, more, parsed, h) =
            handle_lines-Delivered ls s1 s' (rw (room, there) at e) in
          (
            omega arith,
            rw room r,
            q,
            a,
            b,
            c,
            es ++ more,
            rw (there, parsed) refl,
            h
                ∙ ap (λ (x : List E). x ++ more) (history-queue s.event_handler es)
                ∙ append_assoc (history s.event_handler) es more,
          )
    ]
  ]
    where
      no_state : none ≡ some s' → ⊥
      no_state e = ground arith

  pub parse_all-append :
      (ls ms : List Bytes) (p p' p'' : P) (es fs : List E)
      → parse_all ls p ≡ some (es, p')
      → parse_all ms p' ≡ some (fs, p'')
      → parse_all (ls ++ ms) p ≡ some (es ++ fs, p'')
  unfolding parse_all
  parse_all-append [] ms p p' p'' es fs e h =
      let pair : ([], p) ≡ (es, p') = some-injective ([], p) (es, p') e in
      rw (← ap (λ (x : List E × P). x.0) pair, ap (λ (x : List E × P). x.1) pair) h
  parse_all-append (l ∷ ls) ms p p' p'' es fs e h = elim (Option-cases (parse l p)) [
    | inl panics ↦ absurd (no_result (rw panics at e))
    | inr ((xs, p1), first) ↦ elim (Option-cases (parse_all ls p1)) [
      | inl panics ↦ absurd (no_result (rw (first, panics) at e))
      | inr ((ys, p2), others) ↦
          let made : List E × P = (xs ++ ys, p2) in
          let given : List E × P = (es, p') in
          let same : made ≡ given = some-injective made given (rw (first, others) at e) in
          let h' : parse_all ms p2 ≡ some (fs, p'') = rw (ap (λ (x : List E × P). x.1) same) h in
          let more = parse_all-append ls ms p1 p2 p'' ys fs others h' in
          rw (first, more, ← ap (λ (x : List E × P). x.0) same)
            (ap (λ (x : List E). some (x, p'')) (sym (append_assoc xs ys fs)))
    ]
  ]
    where
      no_result : ◌≡◌ {A = Option (List E × P)} none (some (es, p')) → ⊥
      no_result e = ground arith

  -- A UDP listener that starts as `s0`: packets arrive, of which the first n bytes are read, are taken
  -- from the channel and handled, while the timer of the event queue ticks and relayOutput works. The
  -- lists have the packets that found room in the channel and those handled, in order.
  pub data Run (s0 : Listener E P) : List Bytes → List Bytes → Listener E P → Type 0 where
    started : Run s0 [] [] s0
    received :
        {entered handled : List Bytes} {s : Listener E P} (packet : Bytes) (n : ℕ)
        → n ≤ length packet
        → length s.udp_packet_queue < s.capacity
        → Run s0 entered handled s
        → Run s0 (entered ++ take n packet ∷ []) handled (enqueue_udp_packet parse packet n s)
    refused :
        {entered handled : List Bytes} {s : Listener E P} (packet : Bytes) (n : ℕ)
        → s.capacity ≤ length s.udp_packet_queue
        → Run s0 entered handled s
        → Run s0 entered handled (enqueue_udp_packet parse packet n s)
    processed :
        {entered handled : List Bytes} {s : Listener E P} (s' : Listener E P) (packet : Bytes)
        (rest : List Bytes)
        → Run s0 entered handled s
        → s.udp_packet_queue ≡ packet ∷ rest
        → process_udp_packet parse s ≡ some s'
        → Run s0 entered (handled ++ packet ∷ []) s'
    ticked :
        {entered handled : List Bytes} {s : Listener E P}
        → Run s0 entered handled s
        → Run s0 entered handled (record s { event_handler = flush s.event_handler })
    relay_received :
        {entered handled : List Bytes} {s : Listener E P} (written : Bool)
        → Run s0 entered handled s
        → Run s0 entered handled (record s { relay = Option.map (receive written) s.relay })
    relay_ticked :
        {entered handled : List Bytes} {s : Listener E P} (written : Bool)
        → Run s0 entered handled s
        → Run s0 entered handled (record s { relay = Option.map (tick written) s.relay })

  abbrev pub lines_of : List Bytes → List Bytes
  lines_of packets = flatten (map (split 10) packets)

  lines_of-snoc :
      (packets : List Bytes) (packet : Bytes)
      → lines_of (packets ++ packet ∷ []) ≡ lines_of packets ++ split 10 packet
  lines_of-snoc packets packet =
      rw (map-append (split 10) packets (packet ∷ []))
        (flatten-snoc (map (split 10) packets) (split 10 packet))

  -- What a listener has done with the packets that have entered its channel.
  abbrev pub IsHandled : Listener E P → List Bytes → List Bytes → Listener E P → Type 0
  IsHandled s0 entered handled s =
      (handled ++ s.udp_packet_queue ≡ entered)
      × (s.udp_packets ≡ s.udp_packet_drops + length entered)
      × (length s.udp_packet_queue ≤ s.capacity)
      × (s.capacity ≡ s0.capacity)
      × (s.lines_received ≡ length (lines_of handled))
      × (parse_all (lines_of handled) s0.counters ≡ some (history s.event_handler, s.counters))

  abbrev pub IsAccounted : Listener E P → List Bytes → List Bytes → Listener E P → Type 0
  IsAccounted s0 entered handled s =
      IsHandled s0 entered handled s × IsRelayed (lines_of handled) s0.relay s.relay

  -- the same as the proof goes along
  abbrev IsRunning : Listener E P → List Bytes → List Bytes → Listener E P → Type 0
  IsRunning s0 entered handled s =
      IsHandled s0 entered handled s × IsGiven (lines_of handled) s0.relay s.relay

  -- A listener that has done nothing.
  abbrev pub IsFresh : Listener E P → Type 0
  IsFresh s0 =
      (s0.udp_packets ≡ 0)
      × (s0.udp_packet_drops ≡ 0)
      × (s0.udp_packet_queue ≡ [])
      × (s0.lines_received ≡ 0)
      × (history s0.event_handler ≡ [])
      × IsFreshRelay s0.relay

  whole : (n : ℕ) (packet : Bytes) → n ≤ length packet → n - length packet ≡ 0
  whole n packet h = omega arith

  IsRunning-received :
      (s0 s : Listener E P) (entered handled : List Bytes) (packet : Bytes) (n : ℕ)
      → n ≤ length packet
      → length s.udp_packet_queue < s.capacity
      → IsRunning s0 entered handled s
      → IsRunning s0 (entered ++ take n packet ∷ []) handled (enqueue_udp_packet parse packet n s)
  unfolding enqueue_udp_packet
  IsRunning-received s0 s entered handled packet n le free
        ((order, count, room, same, lines, events), relay) =
      let fits : ltb (length s.udp_packet_queue) s.capacity ≡ true = ground arith in
      rw (fits, whole n packet le, append-nil (take n packet))
        (
          (
            sym (append_assoc handled s.udp_packet_queue (take n packet ∷ []))
                ∙ ap (λ (ps : List Bytes). ps ++ take n packet ∷ []) order,
            rw (length-append entered (take n packet ∷ [])) (omega arith),
            rw (length-append s.udp_packet_queue (take n packet ∷ [])) (omega arith),
            same,
            lines,
            events,
          ),
          relay,
        )

  IsRunning-refused :
      (s0 s : Listener E P) (entered handled : List Bytes) (packet : Bytes) (n : ℕ)
      → s.capacity ≤ length s.udp_packet_queue
      → IsRunning s0 entered handled s
      → IsRunning s0 entered handled (enqueue_udp_packet parse packet n s)
  unfolding enqueue_udp_packet
  IsRunning-refused s0 s entered handled packet n full
        ((order, count, room, same, lines, events), relay) =
      let no_room : ltb (length s.udp_packet_queue) s.capacity ≡ false = ground arith in
      rw no_room ((order, omega arith, room, same, lines, events), relay)

  IsRunning-processed :
      (s0 s s' : Listener E P) (entered handled waiting : List Bytes) (packet : Bytes)
      → s.udp_packet_queue ≡ packet ∷ waiting
      → process_udp_packet parse s ≡ some s'
      → IsRunning s0 entered handled s
      → IsRunning s0 entered (handled ++ packet ∷ []) s'
  unfolding process_udp_packet handle_packet
  IsRunning-processed s0 s s' entered handled waiting packet q e
        ((order, count, room, same, lines, events), relay) =
      let s1 : Listener E P = record s { udp_packet_queue = waiting } in
      let e' : handle_lines parse (split 10 packet) s1 ≡ some s' = rw q at e in
      let (n, r, u, a, b, c, es, parsed, h) = handle_lines-Delivered (split 10 packet) s1 s' e' in
      let waits : length s.udp_packet_queue ≡ suc (length waiting) = ap length q in
      (
        (
          rw u (
              append_assoc handled (packet ∷ []) waiting
              ∙ ap (λ (ps : List Bytes). handled ++ ps) (sym q)
              ∙ order),
          rw (a, b) count,
          rw (u, c) (omega arith),
          c ∙ same,
          rw (lines_of-snoc handled packet, length-append (lines_of handled) (split 10 packet))
              (omega arith),
          rw (lines_of-snoc handled packet, h)
              (parse_all-append (lines_of handled) (split 10 packet) s0.counters s.counters
                s'.counters (history s.event_handler) es events parsed),
        ),
        subst (λ ls. IsGiven ls s0.relay s'.relay) (sym (lines_of-snoc handled packet))
            (IsGiven-relay_all (split 10 packet) (lines_of handled) s0.relay s.relay s'.relay r
              relay),
      )

  Run-IsRunning :
      (s0 : Listener E P) (entered handled : List Bytes) (s : Listener E P)
      → IsFresh s0
      → Run s0 entered handled s
      → IsRunning s0 entered handled s
  unfolding parse_all flatten flush
  Run-IsRunning s0 _ _ _ (a, b, c, d, e, f) started =
      ((c, rw (a, b) refl, rw c (omega arith), refl, d, rw e refl), IsGiven-fresh s0.relay f)
  Run-IsRunning s0 _ _ _ fresh (received {entered} {handled} {s} packet n le free run) =
      IsRunning-received s0 s entered handled packet n le free
        (Run-IsRunning s0 entered handled s fresh run)
  Run-IsRunning s0 _ _ _ fresh (refused {entered} {handled} {s} packet n full run) =
      IsRunning-refused s0 s entered handled packet n full
        (Run-IsRunning s0 entered handled s fresh run)
  Run-IsRunning s0 _ _ _ fresh (processed {entered} {handled} {s} s' packet rest run q e) =
      IsRunning-processed s0 s s' entered handled rest packet q e
        (Run-IsRunning s0 entered handled s fresh run)
  Run-IsRunning s0 _ _ _ fresh (ticked {entered} {handled} {s} run) =
      let ((order, count, room, same, lines, events), relay) =
        Run-IsRunning s0 entered handled s fresh run in
      ((order, count, room, same, lines, rw (history-flush s.event_handler) events), relay)
  Run-IsRunning s0 _ _ _ fresh (relay_received {entered} {handled} {s} written run) =
      let (h, relay) = Run-IsRunning s0 entered handled s fresh run in
      (
        h,
        IsGiven-step (receive written) (lines_of handled) s0.relay s.relay
            (λ n log r g. Packets.received written g) relay,
      )
  Run-IsRunning s0 _ _ _ fresh (relay_ticked {entered} {handled} {s} written run) =
      let (h, relay) = Run-IsRunning s0 entered handled s fresh run in
      (
        h,
        IsGiven-step (tick written) (lines_of handled) s0.relay s.relay
            (λ n log r g. Packets.ticked written g) relay,
      )

  -- From a UDP listener that has done nothing, with a new relay or none, over any interleaving of
  -- packets that arrive, packets that are handled, ticks of the event queue and steps of the relay
  -- between packets: what was read of each packet enters the channel if there is room, and else the
  -- packet is counted as dropped; the packets handled followed by those in the channel are the packets
  -- that entered, in order, and the channel holds no more than its capacity. Each line of the packets
  -- handled is counted and parsed, with its events on the event queue, in order; the relay has sent
  -- its accepted lines in order or still has them, unless its goroutine has returned. The packet
  -- length of the relay is positive and fits 64 bits.
  pub Run-IsAccounted :
      (s0 : Listener E P) (entered handled : List Bytes) (s : Listener E P)
      → IsFresh s0
      → Run s0 entered handled s
      → IsAccounted s0 entered handled s
  Run-IsAccounted s0 entered handled s fresh run =
      let (_, _, _, _, _, relay) = fresh in
      let (h, given) = Run-IsRunning s0 entered handled s fresh run in
      (h, IsGiven-IsRelayed (lines_of handled) s0.relay s.relay relay given)
