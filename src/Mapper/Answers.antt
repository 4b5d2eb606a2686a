-- ===== src/Mapper/Answers.antt =====
-- GetMapping behind InitFromYAMLString: the regex rules, the cache and the labels of the result.
use statsd_bridge.Prelude.{
  ◌≡◌, inl, inr, false, Option, none, some, List, [], ◌∷◌, ◌⊎◌, Bytes, Bool-cases, Returns,
  Returns-bind, Returns-mono, UniqueKeys, UniqueKeys-insert, bytes_eq,
}
use statsd_bridge.Float.{Float}
use statsd_bridge.Labels.{Labels}
use statsd_bridge.Event.{MetricType}
use statsd_bridge.Mapper.{
  miss, regex_match, try_mapping, regex_result, is_other_type, expand_labels, after_globs, remember,
  Matcher, Cache, Mapper, Mapping, CacheResult, glob_match, find_mapping, or_find, get_mapping,
  format_key,
}
use statsd_bridge.Mapper.Fills.{HasDistinct}
use statsd_bridge.Mapper.Lookup.{IsLoaded, IfDistinct, glob_match-Returns}

module _ (f : Float) (lib : Matcher) (compile : Bytes → Option lib.Regex) where
  expand_labels-UniqueKeys :
      (regex : lib.Regex) (metric : Bytes) (match : lib.Match) (templates labels : Labels)
      → UniqueKeys labels
      → UniqueKeys (expand_labels f lib regex metric match templates labels)
  unfolding expand_labels
  expand_labels-UniqueKeys regex metric match [] labels u = u
  expand_labels-UniqueKeys regex metric match ((label, template) ∷ rest) labels u =
      expand_labels-UniqueKeys regex metric match rest _ (UniqueKeys-insert label _ labels u)

  try_mapping-IfDistinct :
      (metric : Bytes) (type : MetricType) (v : Mapping f lib) (regex : Option lib.Regex)
      → IfDistinct f lib compile (try_mapping f lib metric type v regex)
  unfolding try_mapping regex_result
  try_mapping-IfDistinct metric type v none = tt
  try_mapping-IfDistinct metric type v (some regex) =
      elim (lib.find_submatch regex metric)
        as (λ o. IfDistinct f lib compile (regex_result f lib metric type v regex o)) [
          | none ↦ tt
          | some match ↦ elim (Bool-cases (is_other_type f lib v.match_metric_type type)) [
            | inl other ↦ rw other tt
            | inr fits ↦ rw fits (expand_labels-UniqueKeys regex metric match v.labels [] tt)
          ]
        ]

  regex_match-HasDistinct :
      (metric : Bytes) (type : MetricType) (vs : List (Mapping f lib))
      → HasDistinct f lib compile (regex_match f lib metric type vs)
  unfolding regex_match
  regex_match-HasDistinct metric type [] = tt
  regex_match-HasDistinct metric type (v ∷ vs) =
      elim (try_mapping f lib metric type v v.regex)
          as (λ o.
            IfDistinct f lib compile o
            → HasDistinct f lib compile
                (elim o [ some r ↦ r | none ↦ regex_match f lib metric type vs ])) [
                  | none ↦ λ d. regex_match-HasDistinct metric type vs
                  | some r ↦ λ d. d
                ]
        (try_mapping-IfDistinct metric type v v.regex)

  module _ (c : Cache (CacheResult f lib)) where
    abbrev pub GivesDistinct : CacheResult f lib × Option c.Store → Type 0
    GivesDistinct x = HasDistinct f lib compile x.0

    remember-GivesDistinct :
        (metric : Bytes) (type : MetricType) (r : CacheResult f lib) (s : Option c.Store)
        → HasDistinct f lib compile r
        → GivesDistinct (remember f lib c metric type r s)
    unfolding remember
    remember-GivesDistinct metric type r none d = d
    remember-GivesDistinct metric type r (some s) d = d

    after_globs-GivesDistinct :
        (metric : Bytes) (type : MetricType) (m : Mapper f lib) (s : Option c.Store)
        (found : Option (CacheResult f lib))
        → IfDistinct f lib compile found
        → GivesDistinct (after_globs f lib c metric type m s found)
    unfolding after_globs
    after_globs-GivesDistinct metric type m s (some r) d = remember-GivesDistinct metric type r s d
    after_globs-GivesDistinct metric type m s none d = elim (Bool-cases m.do_regex) [
      | inl on ↦
          rw on (
            remember-GivesDistinct metric type _ s (regex_match-HasDistinct metric type m.mappings))
      | inr off ↦ rw off (remember-GivesDistinct metric type (miss f lib) s tt)
    ]

    find_mapping-Returns :
        (metric : Bytes) (type : MetricType) (m : Mapper f lib) (s : Option c.Store)
        → (m.do_fsm ≡ false) ⊎ IsLoaded f lib compile m
        → Returns GivesDistinct (find_mapping f lib c metric type m s)
    unfolding find_mapping
    find_mapping-Returns metric type m s (inl off) =
        rw off
          (remember-GivesDistinct metric type _ s (regex_match-HasDistinct metric type m.mappings))
    find_mapping-Returns metric type m s (inr loaded) = elim (Bool-cases m.do_fsm) [
      | inr off ↦
          rw off (
            remember-GivesDistinct metric type _ s (regex_match-HasDistinct metric type m.mappings))
      | inl on ↦ rw on (
          Returns-bind (IfDistinct f lib compile) GivesDistinct (glob_match f lib metric type m) _
            (λ found d. after_globs-GivesDistinct metric type m s found d)
            (glob_match-Returns f lib compile metric type m loaded))
    ]

    or_find-Returns :
        (metric : Bytes) (type : MetricType) (m : Mapper f lib)
        (x : Option (CacheResult f lib) × c.Store)
        → (m.do_fsm ≡ false) ⊎ IsLoaded f lib compile m
        → Returns (λ r. Unit) (or_find f lib c metric type m x)
    unfolding or_find
    or_find-Returns metric type m (some r, s) h = tt
    or_find-Returns metric type m (none, s) h =
        Returns-mono GivesDistinct (λ r. Unit) (find_mapping f lib c metric type m (some s))
          (λ x _. tt) (find_mapping-Returns metric type m (some s) h)

    -- without a cache
    pub get_mapping-GivesDistinct :
        (metric : Bytes) (type : MetricType) (m : Mapper f lib)
        → (m.do_fsm ≡ false) ⊎ IsLoaded f lib compile m
        → Returns GivesDistinct (get_mapping f lib c metric type m none)
    unfolding get_mapping
    get_mapping-GivesDistinct metric type m h = find_mapping-Returns metric type m none h

    -- with whatever is in the cache
    pub get_mapping-Returns :
        (metric : Bytes) (type : MetricType) (m : Mapper f lib) (s : Option c.Store)
        → (m.do_fsm ≡ false) ⊎ IsLoaded f lib compile m
        → Returns (λ r. Unit) (get_mapping f lib c metric type m s)
    unfolding get_mapping
    get_mapping-Returns metric type m none h =
        Returns-mono GivesDistinct (λ r. Unit) (find_mapping f lib c metric type m none) (λ x _. tt)
          (find_mapping-Returns metric type m none h)
    get_mapping-Returns metric type m (some s) h =
        or_find-Returns metric type m (c.get (format_key metric type) s) h
