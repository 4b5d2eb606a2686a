-- ===== src/Event/Queue/Order.antt =====
-- What the queue does with the events of its producers: their order, the size of the batches, and
-- the count of flushes, over any interleaving of Queue and Flush.
use mathlib.Core.Path.{subst}
use mathlib.Core.Option.{some-injective}
use statsd_bridge.Prelude.{
  pos, some, ℕ, ◌+◌, ◌<◌, ◌≡◌, ◌⊎◌, leb→le, refl, sym, ap, ◌∙◌, inl, inr, List, [], ◌∷◌, ◌++◌,
  flatten, append-nil, append_assoc, arith, leb, length, flatten-append, length-append, All,
  All-append, Bool-cases,
}
use statsd_bridge.Event.Queue.{
  EventQueue, new_event_queue, empty_queue, flush_unlocked, flush, queue_one, queue, history,
}

module _ {E : Type 0} where
  pub history-flush : (eq : EventQueue E) → history (flush_unlocked eq) ≡ history eq
  unfolding flush_unlocked
  history-flush eq =
      rw (append-nil (flatten (eq.sent ++ eq.q ∷ [])), flatten-append eq.sent (eq.q ∷ []))
        (unfold flatten in rw (append-nil eq.q))

  history-queue_one : (eq : EventQueue E) (e : E) → history (queue_one eq e) ≡ history eq ++ e ∷ []
  unfolding queue_one
  history-queue_one eq e = elim (Bool-cases (leb eq.flush_threshold (length (eq.q ++ e ∷ [])))) [
    | inl full ↦ rw full (
        history-flush (record eq { q = eq.q ++ e ∷ [] })
        ∙ sym (append_assoc (flatten eq.sent) eq.q (e ∷ [])))
    | inr room ↦ rw room (sym (append_assoc (flatten eq.sent) eq.q (e ∷ [])))
  ]

  -- Queue neither loses, repeats nor reorders an event: what was sent, followed by what waits, is
  -- what it was, followed by the new events.
  pub history-queue : (eq : EventQueue E) (es : List E) → history (queue eq es) ≡ history eq ++ es
  unfolding queue
  history-queue eq [] = sym (append-nil (history eq))
  history-queue eq (e ∷ es) =
      history-queue (queue_one eq e) es
      ∙ ap (λ (h : List E). h ++ es) (history-queue_one eq e)
      ∙ append_assoc (history eq) (e ∷ []) es

  -- Between calls fewer events wait than the threshold, or none where the threshold is 0.
  abbrev pub HasRoom : EventQueue E → Type 0
  HasRoom eq = (length eq.q ≡ 0) ⊎ (length eq.q < eq.flush_threshold)

  queue_one-HasRoom : (eq : EventQueue E) (e : E) → HasRoom (queue_one eq e)
  unfolding queue_one flush_unlocked
  queue_one-HasRoom eq e = ground arith

  threshold-queue_one :
      (eq : EventQueue E) (e : E) → (queue_one eq e).flush_threshold ≡ eq.flush_threshold
  unfolding queue_one flush_unlocked
  threshold-queue_one eq e = ground arith

  pub threshold-queue :
      (eq : EventQueue E) (es : List E) → (queue eq es).flush_threshold ≡ eq.flush_threshold
  unfolding queue
  threshold-queue eq [] = refl
  threshold-queue eq (e ∷ es) = threshold-queue (queue_one eq e) es ∙ threshold-queue_one eq e

  pub queue-HasRoom : (eq : EventQueue E) (es : List E) → HasRoom eq → HasRoom (queue eq es)
  unfolding queue
  queue-HasRoom eq [] h = h
  queue-HasRoom eq (e ∷ es) h = queue-HasRoom (queue_one eq e) es (queue_one-HasRoom eq e)

  -- The batches that one step sends: those of `new` behind those of `old`.
  abbrev pub Sends : (List E → Type 0) → EventQueue E → EventQueue E → Type 0
  Sends P old new =
      (batches : List (List E)) × (new.sent ≡ old.sent ++ batches)
      × All P batches
      × (new.events_flushed ≡ old.events_flushed + length batches)

  Sends-trans :
      (P : List E → Type 0) (a b c : EventQueue E) → Sends P a b → Sends P b c → Sends P a c
  Sends-trans P a b c (xs, ex, px, nx) (ys, ey, py, ny) = (
    xs ++ ys,
    rw (ey, ex) (append_assoc a.sent xs ys),
    All-append P xs ys px py,
    omega (arith, length-append xs ys),
  )

  abbrev IsFull : ℕ → List E → Type 0
  IsFull n batch = length batch ≡ n

  queue_one-Sends :
      (eq : EventQueue E) (e : E)
      → length eq.q < eq.flush_threshold
      → Sends (IsFull eq.flush_threshold) eq (queue_one eq e)
  unfolding queue_one flush_unlocked
  queue_one-Sends eq e h = elim (Bool-cases (leb eq.flush_threshold (length (eq.q ++ e ∷ [])))) [
    | inl full ↦ rw full (
      (eq.q ++ e ∷ []) ∷ [],
      refl,
      (
        ground (
          arith,
          length-append eq.q (e ∷ []),
          leb→le eq.flush_threshold (length (eq.q ++ e ∷ [])),
        ),
        tt,
      ),
      refl,
    )
    | inr room ↦ rw room ([], sym (append-nil eq.sent), tt, omega arith)
  ]

  queue_one-lt :
      (eq : EventQueue E) (e : E)
      → length eq.q < eq.flush_threshold
      → length (queue_one eq e).q < eq.flush_threshold
  unfolding queue_one flush_unlocked
  queue_one-lt eq e h = ground (arith, length-append eq.q (e ∷ []))

  -- Queue sends full batches only, one flush counted for each, behind those sent before.
  pub queue-Sends :
      (eq : EventQueue E) (es : List E) (n : ℕ)
      → eq.flush_threshold ≡ n
      → length eq.q < n
      → Sends (IsFull n) eq (queue eq es) × (length (queue eq es).q < n)
  unfolding queue
  queue-Sends eq [] n t h = (([], sym (append-nil eq.sent), tt, omega arith), h)
  queue-Sends eq (e ∷ es) n t h =
      let eq' = queue_one eq e in
      let t' : eq'.flush_threshold ≡ n = threshold-queue_one eq e ∙ t in
      let (rest, last) = queue-Sends eq' es n t' (rw (← t) (queue_one-lt eq e (rw t h))) in
      (
        Sends-trans (IsFull n) eq eq' (queue eq' es) (rw (← t) (queue_one-Sends eq e (rw t h)))
            rest,
        last,
      )

-- A run of the queue, which NewEventQueue has made: `log` holds the events of the calls of Queue so far, in the order in which
-- the mutex admitted them. Ticks call Flush in between.
pub data Run {E : Type 0} (threshold : ℕ) : List E → EventQueue E → Type 0 where
  created : {eq : EventQueue E} → new_event_queue (pos threshold) ≡ some eq → Run threshold [] eq
  queued :
      {log : List E} {eq : EventQueue E} (es : List E)
      → Run threshold log eq
      → Run threshold (log ++ es) (queue eq es)
  flushed : {log : List E} {eq : EventQueue E} → Run threshold log eq → Run threshold log (flush eq)

module _ {E : Type 0} where
  flushed_count-queue :
      (eq : EventQueue E) (es : List E)
      → eq.events_flushed ≡ length eq.sent
      → (queue eq es).events_flushed ≡ length (queue eq es).sent
  unfolding queue queue_one flush_unlocked
  flushed_count-queue eq [] h = h
  flushed_count-queue eq (e ∷ es) h =
      flushed_count-queue (queue_one eq e) es
        (ground (arith, length-append eq.sent ((eq.q ++ e ∷ []) ∷ [])))

  Run-history : {n : ℕ} {log : List E} {eq : EventQueue E} → Run n log eq → history eq ≡ log
  unfolding new_event_queue empty_queue flush flatten
  Run-history {n = n} (created {eq} e) =
      subst (λ (x : EventQueue E). history x ≡ []) (some-injective (empty_queue n) eq e) refl
  Run-history (queued {eq} es r) =
      history-queue eq es ∙ ap (λ (h : List E). h ++ es) (Run-history r)
  Run-history (flushed {eq} r) = history-flush eq ∙ Run-history r

  Run-counts :
      {n : ℕ} {log : List E} {eq : EventQueue E}
      → Run n log eq
      → (eq.events_flushed ≡ length eq.sent) × (eq.flush_threshold ≡ n) × HasRoom eq
  unfolding new_event_queue empty_queue flush flush_unlocked
  Run-counts {n = n} (created {eq} e) =
      subst
        (λ (x : EventQueue E).
          (x.events_flushed ≡ length x.sent) × (x.flush_threshold ≡ n) × HasRoom x)
        (some-injective (empty_queue n) eq e) (refl, refl, inl refl)
  Run-counts (queued {eq} es r) =
      let (c, t, room) = Run-counts r in
      (flushed_count-queue eq es c, threshold-queue eq es ∙ t, queue-HasRoom eq es room)
  Run-counts (flushed {eq} r) =
      let (c, t, room) = Run-counts r in
      (omega (arith, length-append eq.sent (eq.q ∷ [])), t, inl refl)

  -- From a new queue, over any interleaving of calls of Queue and of ticks that call Flush, the batches sent followed
  -- by the events that wait are the events queued, in order, with none lost or repeated. The count
  -- of flushes is the number of batches, and the queue is empty or holds fewer events than the
  -- threshold.
  pub Run-keeps_events :
      {n : ℕ} {log : List E} {eq : EventQueue E}
      → Run n log eq
      → (flatten eq.sent ++ eq.q ≡ log)
        × (eq.events_flushed ≡ length eq.sent)
        × ((length eq.q ≡ 0) ⊎ (length eq.q < n))
  Run-keeps_events r = let (c, t, room) = Run-counts r in (Run-history r, c, rw t at room)
