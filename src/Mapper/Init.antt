-- ===== src/Mapper/Init.antt =====
-- InitFromYAMLString of pkg/mapper/mapper.go, behind yaml.Unmarshal: defaults, checks, the machine of
-- the glob rules, and the new configuration in place of the old one. Of the logs only
-- the warnings before the lock are modelled, for which the logger has to be set.
use statsd_bridge.Prelude.{
  ℕ, suc, Bool, true, false, not, ◌&&◌, Option, none, some, List, [], ◌∷◌, length, ltb, ◌==◌, map,
  if◌then◌else◌, Bytes, codes, is_zero, is_positive, pos,
}
use statsd_bridge.Float.{Float}
use statsd_bridge.Labels.{Labels}
use statsd_bridge.Event.{MetricType}
use statsd_bridge.Config.{
  MatchType, ActionType, ObserverType, SummaryOptions, HistogramOptions, MapperConfigDefaults,
  MetricMapping,
}
use statsd_bridge.Fsm.{Fsm, new_fsm, add_state}
use statsd_bridge.Fsm.Template.{new_template_formatter}
use statsd_bridge.Registry.Getters.{default_objectives}
use statsd_bridge.Mapper.{type_name}
use statsd_bridge.Mapper.Outcome.{
  bad_yaml, invalid_label, no_name, invalid_name, invalid_match, invalid_regex, both_quantiles,
  both_buckets, histogram_and_summary_options, summary_and_histogram_options, Outcome, done, failed,
  panicked, ◌>>=◌, ◌>>◌, guard, warn,
}
use statsd_bridge.Mapper.Patterns.{is_metric_line, is_metric_name, is_label_name}

unfoldable pub is_some {ℓ} : {A : Type ℓ} → Option A → Bool
is_some none = false
is_some (some a) = true

-- string(matchMetricType), which is empty where none is set
unfoldable pub match_type_name : Option MetricType → Bytes
unfolding type_name
match_type_name none = []
match_type_name (some t) = type_name t

abbrev pub metric_types : List Bytes
metric_types = codes "counter" ∷ codes "gauge" ∷ codes "observer" ∷ []

-- the elements of a slice, or others where it has none
abbrev pub or_default {ℓ} : {A : Type ℓ} → Option (List A) → Option (List A) → Option (List A)
or_default none d = d
or_default (some []) d = d
or_default (some (x ∷ xs)) d = some (x ∷ xs)

abbrev pub with_match_type : MatchType → MatchType → MatchType
with_match_type MatchType.unset d = d
with_match_type MatchType.glob d = MatchType.glob
with_match_type MatchType.regex d = MatchType.regex

abbrev pub with_action : ActionType → ActionType
with_action ActionType.unset = ActionType.map
with_action ActionType.map = ActionType.map
with_action ActionType.drop = ActionType.drop

abbrev pub with_observer_type : ObserverType → ObserverType → ObserverType
with_observer_type ObserverType.unset d = d
with_observer_type ObserverType.histogram d = ObserverType.histogram
with_observer_type ObserverType.summary d = ObserverType.summary

module _ (f : Float) where
  -- prometheus.DefBuckets
  unfoldable pub default_buckets : List f.Value
  default_buckets =
      f.decimal 5 3
      ∷ f.decimal 1 2
      ∷ f.decimal 25 3
      ∷ f.decimal 5 2
      ∷ f.decimal 1 1
      ∷ f.decimal 25 2
      ∷ f.decimal 5 1
      ∷ f.decimal 1 0
      ∷ f.decimal 25 1
      ∷ f.decimal 5 0
      ∷ f.decimal 10 0
      ∷ []

  -- the defaults of the configuration
  unfoldable pub complete_defaults : MapperConfigDefaults f → MapperConfigDefaults f
  unfolding default_buckets default_objectives
  complete_defaults d = record d {
    match_type = with_match_type d.match_type MatchType.glob;
    summary_options = record d.summary_options {
      quantiles = or_default d.summary_options.quantiles (some (default_objectives f));
    };
    histogram_options = record d.histogram_options {
      buckets = or_default d.histogram_options.buckets (some default_buckets);
      native_histogram_bucket_factor =
          if f.eq d.histogram_options.native_histogram_bucket_factor f.zero
          then f.decimal 11 1
          else d.histogram_options.native_histogram_bucket_factor;
      native_histogram_max_buckets =
          if ltb 0 d.histogram_options.native_histogram_max_buckets
          then d.histogram_options.native_histogram_max_buckets
          else 256;
    };
  }

-- the part of the new mapper that the loop over the mappings changes
pub record Progress : Type 0 where
  pub fsm : Fsm ℕ
  pub do_fsm : Bool
  pub do_regex : Bool

-- the check of the labels
unfoldable pub check_labels : Labels → Outcome (Unit {0})
check_labels [] = done tt
check_labels ((k, v) ∷ rest) =
    let others = check_labels rest in if is_label_name k then others else failed (invalid_label k)

-- `compile` is regexp.Compile.
module _ (f : Float) (Regex : Type 0) (compile : Bytes → Option Regex) where
  -- the glob rule `i`
  unfoldable pub add_glob :
      ℕ → MetricMapping f Regex → Progress → Outcome (MetricMapping f Regex × Progress)
  unfolding match_type_name
  add_glob i m p = do
    guard (is_metric_line m.match) (invalid_match m.match)
    elim (add_state m.match (match_type_name m.match_metric_type) i p.fsm) [
      | none ↦ panicked
      | some (fsm, count) ↦ done (
        record m {
          name_formatter = some (new_template_formatter m.name count);
          label_keys = map (λ (kv : Bytes × Bytes). kv.0) m.labels;
          label_formatters =
              map (λ (kv : Bytes × Bytes). new_template_formatter kv.1 count) m.labels;
        },
        record p { fsm = fsm; do_fsm = true },
      )
    ]

  unfoldable pub add_regex :
      MetricMapping f Regex → Progress → Outcome (MetricMapping f Regex × Progress)
  add_regex m p = elim (compile m.match) [
    | none ↦ failed (invalid_regex m.match)
    | some regex ↦ done (record m { regex = some regex }, record p { do_regex = true })
  ]

  unfoldable pub add_rule :
      ℕ → MetricMapping f Regex → Progress → Outcome (MetricMapping f Regex × Progress)
  unfolding add_glob add_regex
  add_rule i m p = elim m.match_type [ MatchType.glob ↦ add_glob i m p | _ ↦ add_regex m p ]

  -- whether quantiles, or buckets, stand in both places
  unfoldable pub quantiles_twice : MetricMapping f Regex → Bool
  unfolding is_some
  quantiles_twice m = elim m.summary_options [
    | none ↦ false
    | some o ↦ is_some m.legacy_quantiles && is_some o.quantiles
  ]

  unfoldable pub buckets_twice : MetricMapping f Regex → Bool
  unfolding is_some
  buckets_twice m = elim m.histogram_options [
    | none ↦ false
    | some o ↦ is_some m.legacy_buckets && is_some o.buckets
  ]

  -- whether a warning is due for quantiles, or buckets, at the top level
  unfoldable pub warns_quantiles : MetricMapping f Regex → Bool
  unfolding is_some
  warns_quantiles m = elim m.summary_options [
    | none ↦ is_some m.legacy_quantiles
    | some o ↦ is_some m.legacy_quantiles && is_some o.quantiles
  ]

  unfoldable pub warns_buckets : MetricMapping f Regex → Bool
  unfolding is_some
  warns_buckets m = elim m.histogram_options [
    | none ↦ is_some m.legacy_buckets
    | some o ↦ is_some m.legacy_buckets && is_some o.buckets
  ]

  abbrev pub or_empty_histogram : Option (HistogramOptions f) → HistogramOptions f
  or_empty_histogram none = record {
    buckets = none;
    native_histogram_bucket_factor = f.zero;
    native_histogram_max_buckets = 0;
  }
  or_empty_histogram (some o) = o

  abbrev pub or_empty_summary : Option (SummaryOptions f) → SummaryOptions f
  or_empty_summary none = record { quantiles = none; max_age = pos 0; age_buckets = 0; buf_cap = 0 }
  or_empty_summary (some o) = o

  unfoldable pub complete_histogram :
      MapperConfigDefaults f → MetricMapping f Regex → Outcome (MetricMapping f Regex)
  unfolding is_some
  complete_histogram d m = do
    guard (not (is_some m.summary_options)) histogram_and_summary_options
    let o = or_empty_histogram m.histogram_options
    done (record m {
      histogram_options = some (record o {
        buckets = or_default (or_default m.legacy_buckets o.buckets) d.histogram_options.buckets;
      });
    })

  unfoldable pub complete_summary :
      MapperConfigDefaults f → MetricMapping f Regex → Outcome (MetricMapping f Regex)
  unfolding is_some
  complete_summary d m = do
    guard (not (is_some m.histogram_options)) summary_and_histogram_options
    let o = or_empty_summary m.summary_options
    done (record m {
      summary_options = some (record {
        quantiles =
            or_default (or_default m.legacy_quantiles o.quantiles) d.summary_options.quantiles;
        max_age = if is_zero o.max_age then d.summary_options.max_age else o.max_age;
        age_buckets = if o.age_buckets == 0 then d.summary_options.age_buckets else o.age_buckets;
        buf_cap = if o.buf_cap == 0 then d.summary_options.buf_cap else o.buf_cap;
      });
    })

  unfoldable pub complete_observer :
      MapperConfigDefaults f → MetricMapping f Regex → Outcome (MetricMapping f Regex)
  unfolding complete_histogram complete_summary
  complete_observer d m = elim m.observer_type [
    | ObserverType.unset ↦ done m
    | ObserverType.histogram ↦ complete_histogram d m
    | ObserverType.summary ↦ complete_summary d m
  ]

  -- from the default of the observer type on; `logger` says whether the logger is set
  unfoldable pub complete_options :
      Bool → MapperConfigDefaults f → MetricMapping f Regex → Outcome (MetricMapping f Regex)
  unfolding warns_quantiles warns_buckets quantiles_twice buckets_twice complete_observer
  complete_options logger d m0 = do
    let m = record m0 { observer_type = with_observer_type m0.observer_type d.observer_type }
    warn logger (warns_quantiles m)
    warn logger (warns_buckets m)
    guard (not (quantiles_twice m)) (both_quantiles m.match)
    guard (not (buckets_twice m)) (both_buckets m.match)
    m' ← complete_observer d m
    done (record m' { ttl = if is_zero m'.ttl && is_positive d.ttl then d.ttl else m'.ttl })

  -- one round of the loop over the mappings
  unfoldable pub init_mapping :
      Bool
      → MapperConfigDefaults f
      → ℕ
      → MetricMapping f Regex
      → Progress
      → Outcome (MetricMapping f Regex × Progress)
  unfolding check_labels add_rule complete_options
  init_mapping logger d i m0 p = do
    check_labels m0.labels
    guard (not (length m0.name == 0)) (no_name i)
    guard (is_metric_name m0.name) (invalid_name m0.name)
    let m = record m0 {
      match_type = with_match_type m0.match_type d.match_type;
      action = with_action m0.action;
    }
    (m', p') ← add_rule i m p
    m'' ← complete_options logger d m'
    done (m'', p')

  unfoldable pub init_mappings :
      Bool
      → MapperConfigDefaults f
      → ℕ
      → List (MetricMapping f Regex)
      → Progress
      → Outcome (List (MetricMapping f Regex) × Progress)
  unfolding init_mapping
  init_mappings logger d i [] p = done ([], p)
  init_mappings logger d i (m ∷ ms) p = do
    (m', p') ← init_mapping logger d i m p
    (ms', p'') ← init_mappings logger d (suc i) ms p'
    done (m' ∷ ms', p'')

  -- InitFromYAMLString up to the lock: the new defaults, mappings and machine, from what
  -- yaml.Unmarshal makes of the text
  unfoldable pub read_config :
      Bool
      → Option (MapperConfigDefaults f × List (MetricMapping f Regex))
      → Outcome (MapperConfigDefaults f × List (MetricMapping f Regex) × Progress)
  unfolding complete_defaults init_mappings
  read_config logger none = failed bad_yaml
  read_config logger (some (d0, ms)) = do
    let d = complete_defaults f d0
    (ms', p) ← init_mappings logger d 0 ms (record {
      fsm = new_fsm metric_types d.glob_disable_ordering;
      do_fsm = false;
      do_regex = false;
    })
    done (d, ms', p)
