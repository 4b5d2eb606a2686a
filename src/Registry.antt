-- ===== src/Registry.antt =====
-- pkg/registry/registry.go: the metrics by name, their label sets, and their expiry.
pub mod Hash
pub mod Hashes
pub mod RefCount
pub mod Expiry
pub mod Conflicts
pub mod Totality
pub mod Run
pub mod Getters
use statsd_bridge.Prelude.{
  ℕ, zero, suc, ◌+◌, ◌-◌, ◌%◌, ◌^◌, Bool, true, false, not, ◌&&◌, ◌||◌, Option, none, some, List,
  [], ◌∷◌, ◌++◌, ltb, ◌==◌, length, if◌then◌else◌, Map, lookup, insert, delete, nat_eq, bytes_eq,
  Bytes, codes, has_suffix, trim_suffix, ℤ, is_zero, added_before, ◌>>=◌,
}
use statsd_bridge.Float.{Float}
use statsd_bridge.Labels.{Labels, Ref, Heap, deref}
use statsd_bridge.Metrics.{
  MetricType, counter, gauge, summary, histogram, LabelHash, Client, Vector, RegisteredMetric,
  Metric,
}
use statsd_bridge.Metrics

unfoldable pub same_type : MetricType → MetricType → Bool
same_type counter counter = true
same_type gauge gauge = true
same_type summary summary = true
same_type histogram histogram = true
same_type _ _ = false

-- a uint64 counter
abbrev pub word : ℕ
word = 2 ^ 64

module _ {f : Float} (c : Client f) where
  pub record Registry : Type 0 where
    pub metrics : Map Bytes (Metric c)
    -- the state of the client library
    pub world : c.World

  -- NewRegistry
  unfoldable pub new_registry : c.World → Registry
  new_registry w = record { metrics = []; world = w }

  unfoldable pub type_conflicts : Option (Metric c) → MetricType → Bool
  type_conflicts none t = false
  type_conflicts (some m) t = not (same_type m.metric_type t)

  -- MetricConflicts
  unfoldable pub metric_conflicts : Registry → Bytes → MetricType → Bool
  unfolding type_conflicts same_type
  metric_conflicts r name t = type_conflicts (lookup name r.metrics) t

  abbrev pub metric_or_new : Option (Metric c) → MetricType → Metric c
  metric_or_new (some m) t = m
  metric_or_new none t = record { metric_type = t; vectors = []; metrics = [] }

  abbrev pub vector_or_new : Option (Vector c) → c.Vec → Vector c
  vector_or_new (some v) vh = v
  vector_or_new none vh = record { holder = vh; ref_count = 0 }

  -- the end of Store, by what is registered under the hash of the values
  unfoldable pub store_metric :
      Metric c
      → Vector c
      → Option (RegisteredMetric c)
      → LabelHash
      → Ref
      → c.Metric
      → ℤ
      → ℕ
      → Metric c
  store_metric m v none hash labels mh ttl now = record m {
    vectors = insert hash.names (record v { ref_count = (v.ref_count + 1) % word }) m.vectors;
    metrics =
        insert hash.values
          (record {
            last_registered_at = now;
            labels = labels;
            ttl = ttl;
            metric = mh;
            vec_key = hash.names;
          })
          m.metrics;
  }
  store_metric m v (some rm) hash labels mh ttl now = record m {
    vectors = insert hash.names v m.vectors;
    metrics = insert hash.values (record rm { last_registered_at = now; ttl = ttl }) m.metrics;
  }

  -- Store, at the time `now`
  unfoldable pub store :
      Bytes → LabelHash → Ref → c.Vec → c.Metric → MetricType → ℤ → ℕ → Registry → Registry
  unfolding store_metric
  store name hash labels vh mh t ttl now r =
      let m = metric_or_new (lookup name r.metrics) t in
      let v = vector_or_new (lookup hash.names m.vectors) vh in
      record r {
        metrics =
            insert name (store_metric m v (lookup hash.values m.metrics) hash labels mh ttl now)
              r.metrics;
      }

  -- What Get returns: the registry with the new time, the vector and the metric; nil is `none`.
  abbrev pub Found : Type 0
  Found = Registry × Option c.Vec × Option c.Metric

  -- the holder of a vector pointer that may be nil: the read through nil panics
  abbrev pub holder_of : Option (Vector c) → Option c.Vec
  holder_of none = none
  holder_of (some v) = some v.holder

  unfoldable pub get_registered :
      Bytes → LabelHash → ℕ → Registry → Metric c → Option (RegisteredMetric c) → Option Found
  get_registered name hash now r m none = some (r, holder_of (lookup hash.names m.vectors), none)
  get_registered name hash now r m (some rm) = do
    vh ← holder_of (lookup hash.names m.vectors)
    some (
      record r {
        metrics =
            insert name
              (record m {
                metrics = insert hash.values (record rm { last_registered_at = now }) m.metrics;
              })
              r.metrics;
      },
      some vh,
      some rm.metric,
    )

  unfoldable pub get_metric :
      Bytes → LabelHash → MetricType → ℕ → Registry → Option (Metric c) → Option Found
  unfolding get_registered same_type
  get_metric name hash t now r none = some (r, none, none)
  get_metric name hash t now r (some m) =
      if same_type m.metric_type t
      then get_registered name hash now r m (lookup hash.values m.metrics)
      else some (r, none, none)

  -- Get, at the time `now`; `none` is a nil pointer dereference.
  unfoldable pub get : Bytes → LabelHash → MetricType → ℕ → Registry → Option Found
  unfolding get_metric
  get name hash t now r = get_metric name hash t now r (lookup name r.metrics)

  -- RemoveStaleMetrics for one registered metric of `m`
  abbrev pub is_stale : ℕ → RegisteredMetric c → Bool
  is_stale now rm = not (is_zero rm.ttl) && added_before rm.last_registered_at rm.ttl now

  unfoldable pub delete_metric :
      Heap
      → ℕ
      → RegisteredMetric c
      → Option (Vector c)
      → Metric c × c.World
      → Option (Metric c × c.World)
  delete_metric h hash rm none s = none
  delete_metric h hash rm (some v) (m, w) = some (
    record m {
      vectors =
          insert rm.vec_key (record v { ref_count = (v.ref_count + word - 1) % word }) m.vectors;
      metrics = delete hash m.metrics;
    },
    c.delete v.holder (deref h rm.labels) w,
  )

  -- the inner loop, over the entries that the map had at its start
  unfoldable pub remove_stale :
      Heap → ℕ → List (ℕ × RegisteredMetric c) → Metric c × c.World → Option (Metric c × c.World)
  remove_stale h now [] s = some s
  remove_stale h now ((hash, rm) ∷ rest) s =
      if is_stale now rm
      then (delete_metric h hash rm (lookup rm.vec_key s.0.vectors) s >>= remove_stale h now rest)
      else remove_stale h now rest s

  -- the outer loop
  unfoldable pub remove_stale_all :
      Heap → ℕ → Map Bytes (Metric c) → c.World → Option (Map Bytes (Metric c) × c.World)
  remove_stale_all h now [] w = some ([], w)
  remove_stale_all h now ((name, m) ∷ rest) w = do
    (m', w') ← remove_stale h now m.metrics (m, w)
    (rest', w'') ← remove_stale_all h now rest w'
    some ((name, m') ∷ rest', w'')

  -- RemoveStaleMetrics, at the time `now`
  unfoldable pub remove_stale_metrics : Heap → ℕ → Registry → Option Registry
  remove_stale_metrics h now r = do
    (ms, w) ← remove_stale_all h now r.metrics r.world
    some (record { metrics = ms; world = w })
