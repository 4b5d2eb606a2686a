-- ===== src/Tests.antt =====
-- Runs of the modelled code on concrete inputs, and the properties at them.
mod Line
mod Fsm
mod Mapper
mod Listener
mod Init
mod Main
mod Rules
mod Hashes
use statsd_bridge.Prelude.{
  ℕ, ◌+◌, ◌*◌, ◌<◌, ◌≤◌, ◌≡◌, ◌⊎◌, refl, true, false, inl, inr, none, some, List, [], ◌∷◌, ◌++◌,
  ltb, ◌==◌, ==_iff, length, flatten, lookup, insert, nat_eq, bytes_eq, has_suffix, trim_suffix,
  bytes_beq, Bytes, codes, pos, arith, All, ◌%◌,
}
use statsd_bridge.Prelude.Utf8.{valid_string, valid_from, decode}
use statsd_bridge.Float.{Float}
use statsd_bridge.Labels.{Labels, Heap, deref}
use statsd_bridge.Metrics.{MetricType, Client, counter_opts, histogram_opts, Metric}
use statsd_bridge.Event.Queue.{EventQueue, empty_queue, new_event_queue, queue, flush}
use statsd_bridge.Event.Queue.Order
use statsd_bridge.Event.Queue.Order.{Run-keeps_events}
use statsd_bridge.Relay.{
  Relay, new_relay, relay_line, receive, tick, receive_from, receive_line, send_packet, after_send,
  with_newline,
}
use statsd_bridge.Relay.Packets
use statsd_bridge.Relay.Packets.{accepted, Run-packet_bounds, Run-delivers_lines, Delivered}
use statsd_bridge.Registry.{
  Registry, new_registry, get, get_metric, store, store_metric, metric_conflicts, type_conflicts,
  word, remove_stale_metrics,
}
use statsd_bridge.Registry.RefCount.{count_refs}
use statsd_bridge.Registry.Expiry.{IsExpired}
use statsd_bridge.Registry.Conflicts.{type_of, IsPlain}
use statsd_bridge.Registry.Hash.{hash_labels}
use statsd_bridge.Registry.Getters.{
  get_or_make, got_or_made, with_vec, store_got, vec_or_new, refuses,
  check_histogram_name_collision, collides_at, sum_suffix, count_suffix,
}
use statsd_bridge.Escape.{escape_metric_name, is_name_char, is_digit}
use statsd_bridge.Escape.Correct.{metric_name_of, escape_metric_name-eq}
use statsd_bridge.Escape.Names.{
  IsMetricName, escape_metric_name-IsMetricName, escape_metric_name-fixed,
  escape_metric_name-panics,
}
use statsd_bridge.Config.{MatchType, ObserverType, MapperConfigDefaults, MetricMapping}
use statsd_bridge.Event
use statsd_bridge.Event.{Event, counter_event}
use statsd_bridge.Exporter.{Exporter, merge_labels, no_mapping}
use statsd_bridge.Exporter.Merge.{preferred, lookup-merge_labels}
use statsd_bridge.Registry.Run
use statsd_bridge.Registry.Run.{Run-ref_counts, Run-names_apart, Run-expiry_exact}

-- events as numbers, batches of two, and a tick in between
abbrev queue_log : List ℕ
queue_log = ([] ++ 1 ∷ 2 ∷ 3 ∷ []) ++ 4 ∷ []

abbrev queue_state : EventQueue ℕ
queue_state = queue (flush (queue (empty_queue 2) (1 ∷ 2 ∷ 3 ∷ []))) (4 ∷ [])

queue_made : new_event_queue {E = ℕ} (pos 2) ≡ some (empty_queue 2)
unfolding new_event_queue
queue_made = refl

Run-keeps_events_example :
    (flatten queue_state.sent ++ queue_state.q ≡ queue_log)
    × (queue_state.events_flushed ≡ length queue_state.sent)
    × ((length queue_state.q ≡ 0) ⊎ (length queue_state.q < 2))
Run-keeps_events_example = Run-keeps_events (
    Order.queued (4 ∷ [])
      (Order.flushed (Order.queued (1 ∷ 2 ∷ 3 ∷ []) (Order.created queue_made))))

-- Packets of at most 10 bytes: the second line does not fit behind the first, and the third is
-- too long.
abbrev relay_log : List Bytes
relay_log =
    (([] ++ accepted 10 (codes "abc:1|c")) ++ accepted 10 (codes "d:2|g"))
    ++ accepted 10 (codes "much_too_long:1|c")

abbrev relay_state : Relay
relay_state = tick true (
    receive true (
      receive true (
        relay_line (codes "much_too_long:1|c")
          (relay_line (codes "d:2|g") (relay_line (codes "abc:1|c") (new_relay 10))))))

relay-Run : Packets.Run 10 relay_log relay_state
relay-Run = Packets.ticked true (
    Packets.received true (
      Packets.received true (
        Packets.line (codes "much_too_long:1|c")
          (Packets.line (codes "d:2|g") (Packets.line (codes "abc:1|c") Packets.created)))))

relay_state-sent : relay_state.sent ≡ codes "abc:1|c\n" ∷ codes "d:2|g\n" ∷ []
unfolding tick receive receive_from receive_line relay_line new_relay send_packet after_send
    with_newline has_suffix
relay_state-sent = refl

Run-packet_bounds_example :
    All (λ (p : Bytes). (0 < length p) × (length p ≤ 10)) relay_state.sent
    × (relay_state.packets_total ≡ length relay_state.sent)
Run-packet_bounds_example = Run-packet_bounds (omega arith) (omega arith) relay-Run

Run-delivers_lines_example : Delivered relay_log relay_state
Run-delivers_lines_example = Run-delivers_lines (omega arith) (omega arith) relay-Run

-- numbers in place of floats
abbrev nat_float : Float
nat_float = record {
  Value = ℕ;
  zero = 0;
  one = 1;
  thousand = 1000;
  decimal = λ n k. n;
  parse = λ s. (length s, true);
  mul = ◌*◌;
  div = λ x y. x;
  lt = ltb;
  eq = ◌==◌;
  rounds = λ x. x;
}

-- A client library whose world counts the vectors and metrics made.
abbrev counting : Client nat_float
counting = record {
  World = ℕ;
  Vec = ℕ;
  Metric = ℕ;
  new_vec = λ opts names w. some (w + 1, w);
  register = λ vec w. (w, true);
  get_metric_with = λ vec labels w. some (w + 1, some w);
  delete = λ vec labels w. w;
  inc_metrics_count = λ t w. w;
  add = λ m v w. w;
  set = λ m v w. w;
  observe = λ m v w. w;
}

-- one event's labels, none of them
abbrev bare_heap : Heap
bare_heap = [] ∷ []

abbrev bare_names : ℕ → ℕ
bare_names h = (hash_labels []).0.names

abbrev first_registry : Registry counting
first_registry = new_registry counting 0

abbrev requests : Bytes
requests = codes "requests"

abbrev requests_metric : Metric counting
requests_metric = record {
  metric_type = MetricType.counter;
  vectors = (bare_names 0, record { holder = 0; ref_count = 1 }) ∷ [];
  metrics =
      (
        (hash_labels []).0.values,
        record {
          last_registered_at = 1;
          labels = 0;
          ttl = pos 5;
          metric = 1;
          vec_key = bare_names 0;
        },
      )
      ∷ [];
}

abbrev busy_registry : Registry counting
busy_registry = record { metrics = (requests, requests_metric) ∷ []; world = 2 }

get_or_make-requests :
    get_or_make counting bare_heap requests 0 MetricType.counter
      (counter_opts requests [])
      (pos 5)
      1
      first_registry
    ≡ some (busy_registry, some 1)
unfolding get_or_make get get_metric got_or_made with_vec store_got vec_or_new store store_metric
    refuses metric_conflicts type_conflicts check_histogram_name_collision collides_at lookup insert
    deref new_registry has_suffix trim_suffix
get_or_make-requests = refl

paired :
    (hash_labels (deref bare_heap 0)).0.names
    ≡ bare_names (hash_labels (deref bare_heap 0)).0.values
unfolding deref
paired = refl

busy-Run : Run.Run counting bare_names busy_registry
busy-Run =
    Run.asked bare_heap requests 0 MetricType.counter (counter_opts requests []) (pos 5) 1
      (busy_registry, some 1) paired get_or_make-requests (Run.created 0)

Run-ref_counts_example : 1 ≡ count_refs counting (bare_names 0) requests_metric.metrics % word
unfolding lookup bytes_beq
Run-ref_counts_example =
    Run-ref_counts counting bare_names requests requests_metric (bare_names 0)
      (record { holder = 0; ref_count = 1 }) busy-Run refl
      (ground (arith, ==_iff (bare_names 0) (bare_names 0)))

Run-expiry_exact_example :
    (r' : Registry counting) × (remove_stale_metrics counting bare_heap 100 busy_registry ≡ some r')
    × ((name : Bytes)
        → IsExpired counting 100 (lookup name busy_registry.metrics) (lookup name r'.metrics))
Run-expiry_exact_example = Run-expiry_exact counting bare_names bare_heap 100 busy-Run

abbrev latency : Bytes
latency = codes "latency"

abbrev latency_metric : Metric counting
latency_metric = record requests_metric { metric_type = MetricType.histogram }

abbrev latency_registry : Registry counting
latency_registry = record { metrics = (latency, latency_metric) ∷ []; world = 2 }

get_or_make-latency :
    get_or_make counting bare_heap latency 0 MetricType.histogram
      (histogram_opts latency [] [] 0 0)
      (pos 5)
      1
      first_registry
    ≡ some (latency_registry, some 1)
unfolding get_or_make get get_metric got_or_made with_vec store_got vec_or_new store store_metric
    refuses metric_conflicts type_conflicts lookup insert deref new_registry
get_or_make-latency = refl

Run-names_apart_example :
    ¬ IsPlain counting (type_of counting latency_registry (latency ++ sum_suffix))
unfolding lookup bytes_beq
Run-names_apart_example =
    Run-names_apart counting bare_names latency sum_suffix
      (Run.asked bare_heap latency 0 MetricType.histogram (histogram_opts latency [] [] 0 0) (pos 5)
        1 (latency_registry, some 1) paired get_or_make-latency (Run.created 0))
      (inr (inr refl))

-- "9-lives.ä", whose last letter has two bytes
abbrev odd_name : Bytes
odd_name = codes "9--lives." ++ 0xc3 ∷ 0xa4 ∷ []

odd_name-valid : valid_string odd_name ≡ true
unfolding valid_from decode
odd_name-valid = refl

escape_metric_name-eq_example : escape_metric_name odd_name ≡ some (metric_name_of odd_name)
escape_metric_name-eq_example = escape_metric_name-eq odd_name odd_name-valid

escape_metric_name-IsMetricName_example :
    (out : Bytes) × (escape_metric_name odd_name ≡ some out) × IsMetricName out
escape_metric_name-IsMetricName_example = escape_metric_name-IsMetricName odd_name odd_name-valid

escape_metric_name-fixed_example : escape_metric_name (codes "http_2xx") ≡ some (codes "http_2xx")
escape_metric_name-fixed_example = escape_metric_name-fixed (codes "http_2xx") (record {
  chars = unfold is_name_char in (refl, (refl, (refl, (refl, (refl, (refl, (refl, (refl, tt))))))));
  first = unfold is_digit in refl;
})

escape_metric_name-panics_example : escape_metric_name (0xff ∷ 0xff ∷ codes "x") ≡ none
escape_metric_name-panics_example = escape_metric_name-panics (codes "x")

-- the event says which host, the mapping another and the job
abbrev own_labels : Labels
own_labels = (codes "host", codes "a") ∷ []

abbrev mapped_labels : Labels
mapped_labels = (codes "job", codes "j") ∷ (codes "host", codes "b") ∷ []

lookup-merge_labels_example :
    lookup (codes "host") (merge_labels true mapped_labels own_labels)
    ≡ preferred true (lookup (codes "host") own_labels) (lookup (codes "host") mapped_labels)
lookup-merge_labels_example =
    lookup-merge_labels true mapped_labels own_labels (codes "host")
      (unfold lookup bytes_beq in (refl, (refl, tt)))

abbrev defaults : MapperConfigDefaults nat_float
defaults = record {
  observer_type = ObserverType.unset;
  match_type = MatchType.unset;
  glob_disable_ordering = false;
  ttl = pos 0;
  summary_options = record { quantiles = none; max_age = pos 0; age_buckets = 0; buf_cap = 0 };
  histogram_options = record {
    buckets = none;
    native_histogram_bucket_factor = 0;
    native_histogram_max_buckets = 0;
  };
}

-- a mapping to odd_name that scales by 3
abbrev odd_mapping : MetricMapping nat_float Unit
odd_mapping = record (no_mapping defaults) {
  name = odd_name;
  scale = record { set = true; val = 3 };
}

abbrev idle_exporter : Exporter counting
idle_exporter = record { registry = first_registry; heap = bare_heap; counts = [] }

abbrev odd_event : Event nat_float
odd_event = counter_event (record { metric_name = requests; value = 2; labels = 0 })
