-- ===== src/Registry/Getters.antt =====
-- GetCounter, GetGauge, GetHistogram and GetSummary: the metric for a name and a label set, made
-- on demand unless its name conflicts with another.
use statsd_bridge.Prelude.{
  ℕ, Bool, ◌&&◌, ◌||◌, Option, none, some, List, [], ◌∷◌, ◌++◌, ltb, if◌then◌else◌, Bytes, codes,
  has_suffix, trim_suffix, ℤ, ◌>>=◌,
}
use statsd_bridge.Float.{Float}
use statsd_bridge.Labels.{Labels, Ref, Heap, deref}
use statsd_bridge.Config.{elements, MetricObjective, MapperConfigDefaults, MetricMapping}
use statsd_bridge.Metrics.{
  MetricType, counter, gauge, summary, histogram, LabelHash, Client, Opts, counter_opts, gauge_opts,
  histogram_opts, summary_opts,
}
use statsd_bridge.Registry.{Registry, metric_conflicts, store, get, Found}
use statsd_bridge.Registry.Hash.{hash_labels}

abbrev pub bucket_suffix : Bytes
bucket_suffix = codes "_bucket"

abbrev pub count_suffix : Bytes
count_suffix = codes "_count"

abbrev pub sum_suffix : Bytes
sum_suffix = codes "_sum"

-- a list of the mapping's own, if it has one
abbrev chosen_list {ℓ} : {A : Type ℓ} → List A → List A → List A
chosen_list default [] = default
chosen_list default (x ∷ xs) = x ∷ xs

unfoldable pub default_objectives : (f : Float) → List (MetricObjective f)
default_objectives f =
    (record { quantile = f.decimal 5 1; error = f.decimal 5 2 })
    ∷ (record { quantile = f.decimal 9 1; error = f.decimal 1 2 })
    ∷ (record { quantile = f.decimal 99 2; error = f.decimal 1 3 })
    ∷ []

module _ {f : Float} {Regex : Type 0} where
  -- the buckets, the bucket factor and the maximal number of buckets of a new histogram
  unfoldable pub histogram_settings :
      MapperConfigDefaults f → MetricMapping f Regex → List f.Value × f.Value × ℕ
  histogram_settings d mapping = elim mapping.histogram_options [
    | none ↦ (
      elements d.histogram_options.buckets,
      d.histogram_options.native_histogram_bucket_factor,
      d.histogram_options.native_histogram_max_buckets,
    )
    | some o ↦ (
      chosen_list (elements d.histogram_options.buckets) (elements o.buckets),
      if f.lt f.zero o.native_histogram_bucket_factor
          then o.native_histogram_bucket_factor
          else d.histogram_options.native_histogram_bucket_factor,
      if ltb 0 o.native_histogram_max_buckets
          then o.native_histogram_max_buckets
          else d.histogram_options.native_histogram_max_buckets,
    )
  ]

  -- The objectives, in the order in which they are assigned to the map, and the other options of a
  -- new summary.
  unfoldable pub summary_settings :
      MapperConfigDefaults f → MetricMapping f Regex → List (MetricObjective f) × ℤ × ℕ × ℕ
  unfolding default_objectives
  summary_settings d mapping = elim mapping.summary_options [
    | none ↦ (
      chosen_list (default_objectives f) (elements d.summary_options.quantiles),
      d.summary_options.max_age,
      d.summary_options.age_buckets,
      d.summary_options.buf_cap,
    )
    | some o ↦ (
      chosen_list (default_objectives f)
          (chosen_list (elements d.summary_options.quantiles) (elements o.quantiles)),
      o.max_age,
      o.age_buckets,
      o.buf_cap,
    )
  ]

module _ {f : Float} (c : Client f) where
  -- checkHistogramNameCollision: whether it returns an error
  unfoldable pub collides_at : Registry c → Bytes → Bytes → Bool
  collides_at r name suffix =
      has_suffix name suffix && metric_conflicts c r (trim_suffix name suffix) counter

  unfoldable pub check_histogram_name_collision : Registry c → Bytes → Bool
  unfolding collides_at
  check_histogram_name_collision r name =
      collides_at r name bucket_suffix
      || collides_at r name count_suffix
      || collides_at r name sum_suffix

  -- The tests before a metric of each type is made: whether the getter returns an error.
  unfoldable pub refuses : MetricType → Registry c → Bytes → Bool
  refuses counter r name =
      metric_conflicts c r name counter || check_histogram_name_collision r name
  refuses gauge r name = metric_conflicts c r name gauge || check_histogram_name_collision r name
  refuses histogram r name =
      metric_conflicts c r name histogram
      || metric_conflicts c r (name ++ sum_suffix) histogram
      || metric_conflicts c r (name ++ count_suffix) histogram
      || metric_conflicts c r (name ++ bucket_suffix) histogram
  refuses summary r name =
      metric_conflicts c r name summary
      || metric_conflicts c r (name ++ sum_suffix) summary
      || metric_conflicts c r (name ++ count_suffix) summary

  -- the vector that Get found, or a new one, where no vector is an error of Register; `none` is a
  -- panic
  unfoldable pub vec_or_new :
      Option c.Vec → MetricType → Opts f → List Bytes → c.World → Option (c.World × Option c.Vec)
  vec_or_new (some vec) t opts names w = some (w, some vec)
  vec_or_new none t opts names w = do
    (w', vec) ← c.new_vec opts names (c.inc_metrics_count t w)
    let (w'', registered) = c.register vec w'
    some (w'', if registered then some vec else none)

  -- A getter's result: the registry, and the metric or an error.
  abbrev pub Got : Type 0
  Got = Registry c × Option c.Metric

  unfoldable pub store_got :
      Bytes
      → LabelHash
      → Ref
      → c.Vec
      → MetricType
      → ℤ
      → ℕ
      → Registry c
      → c.World × Option c.Metric
      → Got
  store_got name hash ref vec t ttl now r (w, none) = (record r { world = w }, none)
  store_got name hash ref vec t ttl now r (w, some m) =
      (store c name hash ref vec m t ttl now (record r { world = w }), some m)

  unfoldable pub with_vec :
      Bytes
      → LabelHash
      → Labels
      → Ref
      → MetricType
      → ℤ
      → ℕ
      → Registry c
      → c.World × Option c.Vec
      → Option Got
  unfolding store_got
  with_vec name hash labels ref t ttl now r (w, none) = some (record r { world = w }, none)
  with_vec name hash labels ref t ttl now r (w, some vec) = do
    made ← c.get_metric_with vec labels w
    some (store_got name hash ref vec t ttl now r made)

  -- what follows Get in every getter
  unfoldable pub got_or_made :
      Bytes
      → LabelHash × List Bytes
      → Labels
      → Ref
      → MetricType
      → Opts f
      → ℤ
      → ℕ
      → Found c
      → Option Got
  unfolding with_vec
  got_or_made name (hash, names) labels ref t opts ttl now (r, vh, some m) = some (r, some m)
  got_or_made name (hash, names) labels ref t opts ttl now (r, vh, none) =
      if refuses t r name
      then some (r, none)
      else (vec_or_new vh t opts names r.world >>= with_vec name hash labels ref t ttl now r)

  -- The body that the four getters share; `none` is a nil pointer dereference or a panic of the
  -- client library.
  unfoldable pub get_or_make :
      Heap → Bytes → Ref → MetricType → Opts f → ℤ → ℕ → Registry c → Option Got
  unfolding got_or_made
  get_or_make h name ref t opts ttl now r = do
    let labels = deref h ref
    found ← get c name (hash_labels labels).0 t now r
    got_or_made name (hash_labels labels) labels ref t opts ttl now found

module _ {f : Float} (c : Client f) {Regex : Type 0} where
  -- GetCounter
  unfoldable pub get_counter :
      Heap → Bytes → Ref → Bytes → MetricMapping f Regex → ℕ → Registry c → Option (Got c)
  get_counter h name ref help mapping now r =
      get_or_make c h name ref counter (counter_opts name help) mapping.ttl now r

  -- GetGauge
  unfoldable pub get_gauge :
      Heap → Bytes → Ref → Bytes → MetricMapping f Regex → ℕ → Registry c → Option (Got c)
  get_gauge h name ref help mapping now r =
      get_or_make c h name ref gauge (gauge_opts name help) mapping.ttl now r

  -- GetHistogram
  unfoldable pub get_histogram :
      MapperConfigDefaults f
      → Heap
      → Bytes
      → Ref
      → Bytes
      → MetricMapping f Regex
      → ℕ
      → Registry c
      → Option (Got c)
  get_histogram d h name ref help mapping now r =
      let (buckets, factor, max_buckets) = histogram_settings d mapping in
      get_or_make c h name ref histogram (histogram_opts name help buckets factor max_buckets)
        mapping.ttl now r

  -- GetSummary
  unfoldable pub get_summary :
      MapperConfigDefaults f
      → Heap
      → Bytes
      → Ref
      → Bytes
      → MetricMapping f Regex
      → ℕ
      → Registry c
      → Option (Got c)
  get_summary d h name ref help mapping now r =
      let (objectives, max_age, age_buckets, buf_cap) = summary_settings d mapping in
      get_or_make c h name ref summary
        (summary_opts name help objectives max_age age_buckets buf_cap) mapping.ttl now r
