-- ===== src/Tests/Init.antt =====
-- Configurations: with two glob rules, and with an error.
use statsd_bridge.Prelude.{
  ◌≡◌, refl, true, false, Option, some, none, List, [], ◌∷◌, Bytes, codes, bytes_beq, Returns, pos,
}
use mathlib.Core.Option
use statsd_bridge.Config.{MatchType, ActionType, ObserverType, MetricMapping, MapperConfigDefaults}
use statsd_bridge.Fsm.{new_fsm, find, add_state, put}
use statsd_bridge.Mapper.Outcome.{InitError, invalid_label}
use statsd_bridge.Mapper.Init.{read_config}
use statsd_bridge.Mapper.Patterns.{is_label_name, is_metric_name, is_metric_line}
use statsd_bridge.Mapper.Ordered.{IsOrdered, init_from_yaml_string-IsOrdered}
use statsd_bridge.Mapper.Reload.{
  Current, cached, IsReloaded, init_from_yaml_string, init_from_yaml_string-IsReloaded,
}
use statsd_bridge.MapperCache.Laws.{rr_cache}
use statsd_bridge.Tests.{nat_float}
use statsd_bridge.Tests.Mapper.{matcher}

abbrev pub compile : Bytes → Option Bytes
compile text = some text

abbrev no_defaults : MapperConfigDefaults nat_float
no_defaults = record {
  observer_type = ObserverType.histogram;
  match_type = MatchType.unset;
  glob_disable_ordering = false;
  ttl = pos 5;
  summary_options = record { quantiles = none; max_age = pos 0; age_buckets = 0; buf_cap = 0 };
  histogram_options = record {
    buckets = none;
    native_histogram_bucket_factor = 0;
    native_histogram_max_buckets = 0;
  };
}

abbrev glob : Bytes → Bytes → MetricMapping nat_float Bytes
glob match name = record {
  match = match;
  name = name;
  name_formatter = none;
  regex = none;
  labels = (codes "host", codes "$2") ∷ [];
  honor_labels = false;
  label_keys = [];
  label_formatters = [];
  observer_type = ObserverType.unset;
  legacy_buckets = none;
  legacy_quantiles = none;
  match_type = MatchType.unset;
  help_text = [];
  action = ActionType.unset;
  match_metric_type = none;
  ttl = pos 0;
  summary_options = none;
  histogram_options = none;
  scale = record { set = false; val = 0 };
}

abbrev pub nothing_yet : Current nat_float matcher (rr_cache (λ n. n)) compile
nothing_yet = record {
  defaults = no_defaults;
  mapper = record { mappings = []; fsm = new_fsm [] false; do_fsm = false; do_regex = false };
  cache = cached (record { items = []; size = 1; evictions = 0 });
  logger = true;
}

abbrev pub parsed : MapperConfigDefaults nat_float × List (MetricMapping nat_float Bytes)
parsed = (no_defaults, glob (codes "a.*.*") (codes "x_$1") ∷ glob (codes "a.b") (codes "y") ∷ [])

init_from_yaml_string-IsReloaded_example :
    Returns (IsReloaded nat_float matcher (rr_cache (λ n. n)) compile (some parsed) nothing_yet) (
      init_from_yaml_string nat_float matcher (rr_cache (λ n. n)) compile (some parsed) nothing_yet)
init_from_yaml_string-IsReloaded_example =
    init_from_yaml_string-IsReloaded nat_float matcher (rr_cache (λ n. n)) compile (some parsed)
      nothing_yet (refl, tt)

abbrev error_of :
    Option (Option InitError × Current nat_float matcher (rr_cache (λ n. n)) compile)
    → Option (Option InitError)
error_of = Option.map (λ x. x.0)

-- There is no error.
init_two :
    error_of (
      init_from_yaml_string nat_float matcher (rr_cache (λ n. n)) compile (some parsed) nothing_yet)
    ≡ some none
unfolding init_from_yaml_string bytes_beq read_config is_label_name is_metric_name is_metric_line
    add_state new_fsm find put
init_two = refl

abbrev pub short_label : MapperConfigDefaults nat_float × List (MetricMapping nat_float Bytes)
short_label = (
  no_defaults,
  record (glob (codes "a.b") (codes "y")) { labels = (codes "h", codes "v") ∷ [] } ∷ [],
)

-- A label of one letter is refused.
init_short_label :
    error_of (
      init_from_yaml_string nat_float matcher
        (rr_cache (λ n. n))
        compile
        (some short_label)
        nothing_yet)
    ≡ some (some (invalid_label (codes "h")))
unfolding init_from_yaml_string bytes_beq read_config is_label_name is_metric_name is_metric_line
    add_state new_fsm find put
init_short_label = refl

init_from_yaml_string-IsOrdered_example :
    Returns (IsOrdered nat_float matcher (rr_cache (λ n. n)) compile) (
      init_from_yaml_string nat_float matcher (rr_cache (λ n. n)) compile (some parsed) nothing_yet)
init_from_yaml_string-IsOrdered_example =
    init_from_yaml_string-IsOrdered nat_float matcher (rr_cache (λ n. n)) compile no_defaults
      parsed.1 nothing_yet (refl, tt) refl
