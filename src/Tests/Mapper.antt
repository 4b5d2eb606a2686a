-- ===== src/Tests/Mapper.antt =====
-- The mapper with a cache for one item, and the bound of that cache.
use statsd_bridge.Prelude.{
  ℕ, ◌≡◌, refl, true, false, Option, some, none, List, [], ◌∷◌, Bytes, codes, bytes_beq, length,
  lookup, insert, ◌≤◌, arith, pos, if◌then◌else◌,
}
use statsd_bridge.Event.{counter, gauge}
use mathlib.Core.Option
use statsd_bridge.Config.{MatchType, ActionType, ObserverType, MetricMapping}
use statsd_bridge.Fsm.{new_fsm}
use statsd_bridge.Mapper.{Matcher, Mapper, CacheResult, get_mapping, take_over}
use statsd_bridge.Mapper.Cached.{Call, query, reload, answers, answers_cached}
use statsd_bridge.MapperCache.{RrCache, rr_add, rr_get, rr_reset}
use statsd_bridge.MapperCache.Laws.{rr_cache, rr_add-bound}
use statsd_bridge.Tests.{nat_float}

-- A regex is a text that is to be equal; a format is joined with its arguments.
abbrev pub matcher : Matcher
matcher = record {
  Regex = Bytes;
  Match = Bytes;
  find_submatch = λ regex metric. if bytes_beq regex metric then some metric else none;
  expand = λ regex template metric match. template;
  sprintf = λ format vs. format;
}

-- the rule that names the metric a
abbrev rule : MetricMapping nat_float Bytes
rule = record {
  match = codes "a";
  name = codes "x";
  name_formatter = none;
  regex = some (codes "a");
  labels = (codes "host", codes "h") ∷ [];
  honor_labels = false;
  label_keys = [];
  label_formatters = [];
  observer_type = ObserverType.unset;
  legacy_buckets = none;
  legacy_quantiles = none;
  match_type = MatchType.regex;
  help_text = [];
  action = ActionType.map;
  match_metric_type = none;
  ttl = pos 0;
  summary_options = none;
  histogram_options = none;
  scale = record { set = false; val = 0 };
}

abbrev names_of : List (CacheResult nat_float matcher) → List (Option Bytes)
names_of [] = []
names_of (r ∷ rs) = Option.map (λ m. m.name) r.mapping ∷ names_of rs

abbrev names : Option (List (CacheResult nat_float matcher)) → List (Option Bytes)
names none = []
names (some rs) = names_of rs

abbrev one_mapping : Mapper nat_float matcher
one_mapping = record {
  mappings = rule ∷ [];
  fsm = new_fsm (codes "counter" ∷ []) false;
  do_fsm = false;
  do_regex = true;
}

abbrev empty_config : Mapper nat_float matcher
empty_config = record one_mapping { mappings = []; do_regex = false }

abbrev one_item : RrCache (CacheResult nat_float matcher)
one_item = record { items = []; size = 1; evictions = 0 }

abbrev calls : List (Call nat_float matcher (rr_cache (λ n. n)))
calls =
    query (codes "a") counter
    ∷ query (codes "a") counter
    ∷ query (codes "b") gauge
    ∷ reload empty_config true
    ∷ query (codes "a") counter
    ∷ []

-- The second answer comes from the cache, and the last one from the new configuration.
answers_reloaded :
    names (answers nat_float matcher (rr_cache (λ n. n)) calls one_mapping (some one_item))
    ≡ some (codes "x") ∷ some (codes "x") ∷ none ∷ none ∷ []
unfolding answers rr_get rr_add rr_reset lookup insert bytes_beq get_mapping take_over
answers_reloaded = refl

answers_cached_example :
    answers nat_float matcher (rr_cache (λ n. n)) calls one_mapping (some one_item)
    ≡ answers nat_float matcher (rr_cache (λ n. n)) calls one_mapping none
answers_cached_example =
    answers_cached nat_float matcher (rr_cache (λ n. n)) calls one_mapping (some one_item)
      (unfold rr_get lookup in λ metric type r held. absurd (held_none r held))
  where
    held_none : (r : CacheResult nat_float matcher) → none ≡ some r → ⊥
    held_none r held = ground arith

abbrev full_cache : RrCache ℕ
full_cache = record { items = (codes "b", 2) ∷ []; size = 1; evictions = 0 }

rr_add-bound_example :
    length (rr_add (λ n. n) (codes "a") 3 full_cache).items
    ≤ (rr_add (λ n. n) (codes "a") 3 full_cache).size
rr_add-bound_example = rr_add-bound (λ n. n) (codes "a") 3 full_cache (omega arith)
