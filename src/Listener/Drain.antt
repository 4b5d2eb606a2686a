-- ===== src/Listener/Drain.antt =====
-- The UDP listener that works off the packets of its channel, and the tick of the event queue behind.
use statsd_bridge.Prelude.{
  ℕ, zero, suc, ◌+◌, ◌≡◌, refl, sym, ap, ◌∙◌, inl, inr, Option, none, some, List, [], ◌∷◌, ◌++◌,
  append-nil, append_assoc, arith, length, length-append, flatten, flatten-snoc, split, Bytes,
  Option-cases, ◌>>=◌, Returns, Returns-bind, Returns-mono,
}
use mathlib.Core.Option.{some-injective}
use statsd_bridge.Event.Queue.{queue, flush, flush_unlocked, history}
use statsd_bridge.Event.Queue.Order.{history-queue}
use statsd_bridge.Listener.{
  LineParser, Listener, handle_line, handle_lines, handle_packet, process_udp_packet,
}
use mathlib.Core.Path.{subst}
use statsd_bridge.Listener.Relayed.{HasRoom, relayed-HasRoom}
use statsd_bridge.Listener.Delivery.{parse_all, lines_of}

module _ {E P : Type 0} (parse : LineParser E P) where
  -- so many rounds of ProcessUdpPacketQueue
  unfoldable pub process_packets : ℕ → Listener E P → Option (Listener E P)
  unfolding process_udp_packet
  process_packets zero s = some s
  process_packets (suc n) s = process_udp_packet parse s >>= process_packets n

  -- The parser's counters and the events behind lines that parse; the channel stays as it is.
  abbrev Parsed : Listener E P → List E × P → Listener E P → Type 0
  Parsed s x s' =
      (s'.counters ≡ x.1)
      × (history s'.event_handler ≡ history s.event_handler ++ x.0)
      × (s'.udp_packet_queue ≡ s.udp_packet_queue)

  zero_left : (n : ℕ) → 0 + n ≡ n
  zero_left n = omega arith

  suc_left : (k n : ℕ) → suc k + n ≡ suc (k + n)
  suc_left k n = omega arith

  -- the same, with room for `n` lines left
  abbrev ParsedWithRoom : ℕ → Listener E P → List E × P → Listener E P → Type 0
  ParsedWithRoom n s x s' = Parsed s x s' × HasRoom n s'.relay

  handle_lines-Parsed :
      (ls : List Bytes) (n : ℕ) (s : Listener E P) (x : List E × P)
      → HasRoom (length ls + n) s.relay
      → parse_all parse ls s.counters ≡ some x
      → Returns (ParsedWithRoom n s x) (handle_lines parse ls s)
  unfolding handle_lines handle_line parse_all
  handle_lines-Parsed [] n s x room e =
      let same = some-injective ([], s.counters) x e in
      (
        (
          ap (λ (y : List E × P). y.1) same,
          sym (append-nil (history s.event_handler))
              ∙ ap (λ (y : List E × P). history s.event_handler ++ y.0) same,
          refl,
        ),
        subst (λ k. HasRoom k s.relay) (zero_left n) room,
      )
  handle_lines-Parsed (l ∷ ls) n s x room e = elim (Option-cases (parse l s.counters)) [
    | inl panics ↦ absurd (nothing_parsed (rw panics at e))
    | inr ((es, p), there) ↦ elim (Option-cases (parse_all parse ls p)) [
      | inl panics ↦ absurd (nothing_parsed (rw (there, panics) at e))
      | inr ((more, p'), others) ↦
          let (o, free, room') =
            relayed-HasRoom l (length ls + n) s.relay
              (subst (λ k. HasRoom k s.relay) (suc_left (length ls) n) room) in
          let s1 : Listener E P = record s {
            lines_received = s.lines_received + 1;
            relay = o;
            event_handler = queue s.event_handler es;
            counters = p;
          } in
          let same = some-injective (es ++ more, p') x (rw (there, others) at e) in
          rw (free, there)
            (Returns-mono (ParsedWithRoom n s1 (more, p')) (ParsedWithRoom n s x)
              (handle_lines parse ls s1)
              (λ s' ((c, h, q), left). (
                (
                  c ∙ ap (λ (y : List E × P). y.1) same,
                  h
                      ∙ ap (λ (y : List E). y ++ more) (history-queue s.event_handler es)
                      ∙ append_assoc (history s.event_handler) es more
                      ∙ ap (λ (y : List E × P). history s.event_handler ++ y.0) same,
                  q,
                ),
                left,
              ))
              (handle_lines-Parsed ls n s1 (more, p') room' others))
    ]
  ]
    where
      nothing_parsed : none ≡ some x → ⊥
      nothing_parsed e = ground arith

  parse_all-split :
      (ls ms : List Bytes) (p : P) (x : List E × P)
      → parse_all parse (ls ++ ms) p ≡ some x
      → (y : List E × P) × (z : List E × P) × (parse_all parse ls p ≡ some y)
        × (parse_all parse ms y.1 ≡ some z)
        × (x ≡ (y.0 ++ z.0, z.1))
  unfolding parse_all
  parse_all-split [] ms p x e = (([], p), x, refl, e, refl)
  parse_all-split (l ∷ ls) ms p x e = elim (Option-cases (parse l p)) [
    | inl panics ↦ absurd (nothing_parsed (rw panics at e))
    | inr ((es, p'), there) ↦ elim (Option-cases (parse_all parse (ls ++ ms) p')) [
      | inl panics ↦ absurd (nothing_parsed (rw (there, panics) at e))
      | inr (rest, others) ↦
          let (y, z, first, second, both) = parse_all-split ls ms p' rest others in
          let same = some-injective (es ++ rest.0, rest.1) x (rw (there, others) at e) in
          (
            (es ++ y.0, y.1),
            z,
            rw (there, first) refl,
            second,
            sym same ∙ rw both (ap (λ (q : List E). (q, z.1)) (sym (append_assoc es y.0 z.0))),
          )
    ]
  ]
    where
      nothing_parsed : none ≡ some x → ⊥
      nothing_parsed e = ground arith

  -- The channel is empty, and these events have gone to the event queue.
  abbrev IsWorkedOff : Listener E P → List E → Listener E P → Type 0
  IsWorkedOff s es s' =
      (s'.udp_packet_queue ≡ []) × (history s'.event_handler ≡ history s.event_handler ++ es)

  process_packets-IsWorkedOff :
      (packets : List Bytes) (s : Listener E P) (x : List E × P)
      → s.udp_packet_queue ≡ packets
      → HasRoom (length (lines_of parse packets)) s.relay
      → parse_all parse (lines_of parse packets) s.counters ≡ some x
      → Returns (IsWorkedOff s x.0) (process_packets (length packets) s)
  unfolding process_packets process_udp_packet handle_packet flatten parse_all
  process_packets-IsWorkedOff [] s x q room e =
      let same = some-injective ([], s.counters) x e in
      (
        q,
        sym (append-nil (history s.event_handler))
            ∙ ap (λ (y : List E × P). history s.event_handler ++ y.0) same,
      )
  process_packets-IsWorkedOff (packet ∷ rest) s x q room e =
      let (y, z, first, second, both) =
        parse_all-split (split 10 packet) (lines_of parse rest) s.counters x e in
      let s1 : Listener E P = record s { udp_packet_queue = rest } in
      rw q (
        Returns-bind (ParsedWithRoom (length (lines_of parse rest)) s1 y) (IsWorkedOff s x.0)
          (handle_lines parse (split 10 packet) s1) _
          (λ s2 ((c, h, left), room').
            Returns-mono (IsWorkedOff s2 z.0) (IsWorkedOff s x.0) (process_packets (length rest) s2)
              (λ s3 (empty, h'). (
                empty,
                h'
                    ∙ ap (λ (w : List E). w ++ z.0) h
                    ∙ append_assoc (history s.event_handler) y.0 z.0
                    ∙ ap (λ (w : List E × P). history s.event_handler ++ w.0) (sym both),
              ))
              (process_packets-IsWorkedOff rest s2 z left room' (rw c second)))
          (handle_lines-Parsed (split 10 packet) (length (lines_of parse rest)) s1 y
            (subst (λ n. HasRoom n s.relay) (length-append (split 10 packet) (lines_of parse rest))
              room)
            first))

  -- The channel is empty, and the tick that follows sends all that waits.
  abbrev pub IsSent : Listener E P → List E → Listener E P → Type 0
  IsSent s es s' =
      (s'.udp_packet_queue ≡ [])
      × ((flush s'.event_handler).q ≡ [])
      × (flatten (flush s'.event_handler).sent ≡ history s.event_handler ++ es)

  -- As many rounds of ProcessUdpPacketQueue as packets are in the channel return and leave it empty,
  -- and with the next tick of the event queue all events of the lines of these packets have been sent,
  -- in order, behind those that were sent or waited before. The parser
  -- reads the lines without a panic, and the channel of the relay, if there is one, has room for them.
  pub process_packets-IsSent :
      (s : Listener E P) (x : List E × P)
      → HasRoom (length (lines_of parse s.udp_packet_queue)) s.relay
      → parse_all parse (lines_of parse s.udp_packet_queue) s.counters ≡ some x
      → Returns (IsSent s x.0) (process_packets (length s.udp_packet_queue) s)
  unfolding flush flush_unlocked
  process_packets-IsSent s x room e =
      Returns-mono (IsWorkedOff s x.0) (IsSent s x.0)
        (process_packets (length s.udp_packet_queue) s)
        (λ s' (empty, h). (empty, refl, flatten-snoc s'.event_handler.sent s'.event_handler.q ∙ h))
        (process_packets-IsWorkedOff s.udp_packet_queue s x refl room e)
