-- ===== src/Metrics.antt =====
-- pkg/metrics/metrics.go, and the Prometheus client library as an interface.
use statsd_bridge.Prelude.{ℕ, Bool, Option, List, Bytes, Map, ℤ}
use statsd_bridge.Float.{Float}
use statsd_bridge.Labels.{Labels, Ref}
use statsd_bridge.Config.{MetricObjective}

pub data MetricType : Type 0 where
  counter gauge summary histogram : MetricType

pub record LabelHash : Type 0 where
  -- a hash over the label names
  pub names : ℕ
  -- a hash over the label names and the label values
  pub values : ℕ

module _ (f : Float) where
  -- CounterOpts, GaugeOpts, HistogramOpts and SummaryOpts
  pub data Opts : Type 0 where
    counter_opts : Bytes → Bytes → Opts
    gauge_opts : Bytes → Bytes → Opts
    histogram_opts : Bytes → Bytes → List f.Value → f.Value → ℕ → Opts
    summary_opts : Bytes → Bytes → List (MetricObjective f) → ℤ → ℕ → ℕ → Opts

  -- What the program calls of the client library. `World` is the library's state; a call that may
  -- fail returns `false` or `none` for a non-nil error. The two calls that make vectors and metrics
  -- may panic, which is `none`: NewSummaryVec does for a label called quantile, and GetMetricWith of a
  -- histogram for one called le.
  pub record Client : Type 1 where
    pub World : Type 0
    pub Vec : Type 0
    pub Metric : Type 0
    -- NewCounterVec and its kin, with the label names
    pub new_vec : Opts → List Bytes → World → Option (World × Vec)
    -- Registerer.Register(uncheckedCollector{vec})
    pub register : Vec → World → World × Bool
    -- vec.GetMetricWith(labels)
    pub get_metric_with : Vec → Labels → World → Option (World × Option Metric)
    -- vec.Delete(labels)
    pub delete : Vec → Labels → World → World
    -- metricsCount.WithLabelValues(...).Inc()
    pub inc_metrics_count : MetricType → World → World
    -- counter.Add(x) and gauge.Add(x), gauge.Set(x), observer.Observe(x)
    pub add : Metric → f.Value → World → World
    pub set : Metric → f.Value → World → World
    pub observe : Metric → f.Value → World → World

module _ {f : Float} (c : Client f) where
  pub record Vector : Type 0 where
    pub holder : c.Vec
    pub ref_count : ℕ

  pub record RegisteredMetric : Type 0 where
    pub last_registered_at : ℕ
    pub labels : Ref
    pub ttl : ℤ
    pub metric : c.Metric
    pub vec_key : ℕ

  pub record Metric : Type 0 where
    pub metric_type : MetricType
    -- by the hash of the label names
    pub vectors : Map ℕ Vector
    -- by the hash of the label names and values
    pub metrics : Map ℕ RegisteredMetric
