-- ===== src/Config.antt =====
-- The mapping configuration: pkg/mapper/{mapper,mapping,mapper_defaults,match,action,observer,
-- metric_type}.go. The string types with a fixed set of values are data types; the empty string is
-- `unset`. A slice that may be nil is an Option.
pub mod Decode
pub mod Texts
use statsd_bridge.Prelude.{ℕ, Bool, Option, none, some, List, [], Bytes, ℤ}
use statsd_bridge.Float.{Float}
use statsd_bridge.Event.{MetricType}
use statsd_bridge.Labels.{Labels}

-- the elements of a slice, of which a nil slice has none
abbrev pub elements {ℓ} : {A : Type ℓ} → Option (List A) → List A
elements none = []
elements (some xs) = xs

pub data MatchType : Type 0 where
  unset glob regex : MatchType

pub data ActionType : Type 0 where
  unset map drop : ActionType

pub data ObserverType : Type 0 where
  unset histogram summary : ObserverType

module _ (f : Float) where
  pub record MetricObjective : Type 0 where
    pub quantile : f.Value
    pub error : f.Value

  pub record SummaryOptions : Type 0 where
    pub quantiles : Option (List MetricObjective)
    pub max_age : ℤ
    pub age_buckets : ℕ
    pub buf_cap : ℕ

  pub record HistogramOptions : Type 0 where
    pub buckets : Option (List f.Value)
    pub native_histogram_bucket_factor : f.Value
    pub native_histogram_max_buckets : ℕ

  pub record MaybeFloat64 : Type 0 where
    pub set : Bool
    pub val : f.Value

  pub record MapperConfigDefaults : Type 0 where
    pub observer_type : ObserverType
    pub match_type : MatchType
    pub glob_disable_ordering : Bool
    pub ttl : ℤ
    pub summary_options : SummaryOptions
    pub histogram_options : HistogramOptions

-- TemplateFormatter
pub record TemplateFormatter : Type 0 where
  pub capture_indexes : List ℕ
  pub capture_count : ℕ
  pub fmt_string : Bytes

module _ (f : Float) (Regex : Type 0) where
  pub record MetricMapping : Type 0 where
    pub match : Bytes
    pub name : Bytes
    pub name_formatter : Option TemplateFormatter
    pub regex : Option Regex
    pub labels : Labels
    pub honor_labels : Bool
    pub label_keys : List Bytes
    pub label_formatters : List TemplateFormatter
    pub observer_type : ObserverType
    pub legacy_buckets : Option (List f.Value)
    pub legacy_quantiles : Option (List (MetricObjective f))
    pub match_type : MatchType
    pub help_text : Bytes
    pub action : ActionType
    pub match_metric_type : Option MetricType
    pub ttl : ℤ
    pub summary_options : Option (SummaryOptions f)
    pub histogram_options : Option (HistogramOptions f)
    pub scale : MaybeFloat64 f
