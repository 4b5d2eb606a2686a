-- ===== src/Config/Decode.antt =====
-- The UnmarshalYAML methods of the configuration: pkg/mapper/{match,action,observer,metric_type,mapping,
-- mapper_defaults}.go. Their argument is what the function `unmarshal` gives; `none` is an error.
use statsd_bridge.Prelude.{
  Bool, true, ◌&&◌, Option, none, some, List, [], ◌∷◌, Bytes, codes, bytes_beq, if◌then◌else◌,
  length, ltb, ℤ, pos, ◌==◌, ◌>>=◌,
}
use statsd_bridge.Float.{Float}
use statsd_bridge.Event.{MetricType, counter, gauge, observer}
use statsd_bridge.Config.{
  MatchType, ActionType, ObserverType, MetricObjective, SummaryOptions, HistogramOptions,
  MaybeFloat64, MapperConfigDefaults, MetricMapping, elements,
}

-- the values of a type of strings
abbrev pub match_type_text : MatchType → Bytes
match_type_text MatchType.unset = []
match_type_text MatchType.glob = codes "glob"
match_type_text MatchType.regex = codes "regex"

abbrev pub action_type_text : ActionType → Bytes
action_type_text ActionType.unset = []
action_type_text ActionType.map = codes "map"
action_type_text ActionType.drop = codes "drop"

abbrev pub observer_type_text : ObserverType → Bytes
observer_type_text ObserverType.unset = []
observer_type_text ObserverType.histogram = codes "histogram"
observer_type_text ObserverType.summary = codes "summary"

abbrev pub timer_text : Bytes
timer_text = codes "timer"

-- the first pair with the text
unfoldable pub case_of : {A : Type 0} → List (Bytes × A) → Bytes → Option A
unfolding bytes_beq
case_of [] v = none
case_of ((text, a) ∷ cases) v =
    let others = case_of cases v in if bytes_beq v text then some a else others

-- the cases of the switch
abbrev pub match_type_cases : List (Bytes × MatchType)
match_type_cases =
    (codes "regex", MatchType.regex) ∷ (codes "glob", MatchType.glob) ∷ ([], MatchType.glob) ∷ []

unfoldable pub decode_match_type : Option Bytes → Option MatchType
unfolding case_of
decode_match_type parsed = do v ← parsed; case_of match_type_cases v

-- the cases of the switch
abbrev pub action_type_cases : List (Bytes × ActionType)
action_type_cases =
    (codes "drop", ActionType.drop) ∷ (codes "map", ActionType.map) ∷ ([], ActionType.map) ∷ []

unfoldable pub decode_action_type : Option Bytes → Option ActionType
unfolding case_of
decode_action_type parsed = do v ← parsed; case_of action_type_cases v

-- the cases of the switch
abbrev pub observer_type_cases : List (Bytes × ObserverType)
observer_type_cases =
    (codes "histogram", ObserverType.histogram)
    ∷ (codes "summary", ObserverType.summary)
    ∷ ([], ObserverType.summary)
    ∷ []

unfoldable pub decode_observer_type : Option Bytes → Option ObserverType
unfolding case_of
decode_observer_type parsed = do v ← parsed; case_of observer_type_cases v

-- the cases of the switch
abbrev pub metric_type_cases : List (Bytes × MetricType)
metric_type_cases =
    (codes "counter", counter)
    ∷ (codes "gauge", gauge)
    ∷ (codes "observer", observer)
    ∷ (timer_text, observer)
    ∷ []

unfoldable pub decode_metric_type : Option Bytes → Option MetricType
unfolding case_of
decode_metric_type parsed = do v ← parsed; case_of metric_type_cases v

abbrev pub or_timer_type : ObserverType → ObserverType → ObserverType
or_timer_type ObserverType.unset timer_type = timer_type
or_timer_type ObserverType.histogram timer_type = ObserverType.histogram
or_timer_type ObserverType.summary timer_type = ObserverType.summary

module _ (f : Float) where
  -- MaybeFloat64
  unfoldable pub decode_maybe_float : Option f.Value → Option (MaybeFloat64 f)
  decode_maybe_float parsed = do v ← parsed; some (record { set = true; val = v })

  unfoldable pub encode_maybe_float : MaybeFloat64 f → Option f.Value
  encode_maybe_float m = if m.set then some m.val else none

  -- mapperConfigDefaultsAlias
  pub record DefaultsAlias : Type 0 where
    pub observer_type : ObserverType
    pub timer_type : ObserverType
    pub buckets : Option (List f.Value)
    pub quantiles : Option (List (MetricObjective f))
    pub match_type : MatchType
    pub glob_disable_ordering : Bool
    pub ttl : ℤ
    pub summary_options : SummaryOptions f
    pub histogram_options : HistogramOptions f

  abbrev pub is_only_legacy {ℓ} : {A : Type ℓ} → Option (List A) → Option (List A) → Bool
  is_only_legacy options legacy = length (elements options) == 0 && ltb 0 (length (elements legacy))

  unfoldable pub summary_options_of : DefaultsAlias → SummaryOptions f
  summary_options_of tmp =
      if is_only_legacy tmp.summary_options.quantiles tmp.quantiles
      then record { quantiles = tmp.quantiles; max_age = pos 0; age_buckets = 0; buf_cap = 0 }
      else tmp.summary_options

  unfoldable pub histogram_options_of : DefaultsAlias → HistogramOptions f
  histogram_options_of tmp =
      if is_only_legacy tmp.histogram_options.buckets tmp.buckets
      then record {
        buckets = tmp.buckets;
        native_histogram_bucket_factor = f.zero;
        native_histogram_max_buckets = 0;
      }
      else tmp.histogram_options

  -- MapperConfigDefaults
  unfoldable pub decode_defaults : Option DefaultsAlias → Option (MapperConfigDefaults f)
  unfolding summary_options_of histogram_options_of
  decode_defaults parsed = do
    tmp ← parsed
    some (record {
      observer_type = or_timer_type tmp.observer_type tmp.timer_type;
      match_type = tmp.match_type;
      glob_disable_ordering = tmp.glob_disable_ordering;
      ttl = tmp.ttl;
      summary_options = summary_options_of tmp;
      histogram_options = histogram_options_of tmp;
    })

  module _ (Regex : Type 0) where
    -- MetricMappingAlias: the fields of the mapping and the deprecated one
    pub record MappingAlias : Type 0 where
      pub mapping : MetricMapping f Regex
      pub timer_type : ObserverType

    -- MetricMapping; the fields that have no key stay empty
    unfoldable pub decode_mapping : Option MappingAlias → Option (MetricMapping f Regex)
    decode_mapping parsed = do
      tmp ← parsed
      some (record tmp.mapping {
        name_formatter = none;
        regex = none;
        label_keys = [];
        label_formatters = [];
        observer_type = or_timer_type tmp.mapping.observer_type tmp.timer_type;
      })
