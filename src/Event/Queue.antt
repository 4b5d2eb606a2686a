-- ===== src/Event/Queue.antt =====
-- The event queue: what Queue, Flush and FlushUnlocked send on the channel.
pub mod Order
use statsd_bridge.Prelude.{
  ℕ, suc, ℤ, pos, negsuc, Option, none, some, ◌+◌, ◌≤◌, ◌<◌, ◌≡◌, refl, List, [], ◌∷◌, ◌++◌,
  flatten, append-nil, append_assoc, arith, leb, length, length-append, All, All-append,
  if◌then◌else◌,
}

-- `sent` lists the batches sent on the channel C so far, the oldest first. The mutex makes every
-- method one step. A full channel only delays a step.
pub record EventQueue (E : Type 0) : Type 0 where
  pub sent : List (List E)
  pub q : List E
  pub flush_threshold : ℕ
  pub events_flushed : ℕ

module _ {E : Type 0} where
  -- the queue with a threshold that is not negative, before anything is queued
  unfoldable pub empty_queue : ℕ → EventQueue E
  empty_queue threshold = record {
    sent = [];
    q = [];
    flush_threshold = threshold;
    events_flushed = 0;
  }

  -- NewEventQueue, but for the goroutine that calls Flush at each tick. `none` is the panic of make
  -- for a negative threshold.
  unfoldable pub new_event_queue : ℤ → Option (EventQueue E)
  unfolding empty_queue
  new_event_queue (pos threshold) = some (empty_queue threshold)
  new_event_queue (negsuc n) = none

  -- FlushUnlocked
  unfoldable pub flush_unlocked : EventQueue E → EventQueue E
  flush_unlocked eq = record eq {
    sent = eq.sent ++ eq.q ∷ [];
    q = [];
    events_flushed = eq.events_flushed + 1;
  }

  -- Flush
  unfoldable pub flush : EventQueue E → EventQueue E
  unfolding flush_unlocked
  flush eq = flush_unlocked eq

  -- one round of the loop of Queue
  unfoldable pub queue_one : EventQueue E → E → EventQueue E
  queue_one eq e =
      let eq' = record eq { q = eq.q ++ e ∷ [] } in
      if leb eq'.flush_threshold (length eq'.q) then flush_unlocked eq' else eq'

  -- Queue
  unfoldable pub queue : EventQueue E → List E → EventQueue E
  queue eq [] = eq
  queue eq (e ∷ es) = queue (queue_one eq e) es

  -- Len
  unfoldable pub len : EventQueue E → ℕ
  len eq = length eq.q

  -- What has gone through the queue or waits in it, in order.
  abbrev pub history : EventQueue E → List E
  history eq = flatten eq.sent ++ eq.q
