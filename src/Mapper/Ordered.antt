-- ===== src/Mapper/Ordered.antt =====
-- GetMapping of the machine behind InitFromYAMLString where the order of the rules is kept.
use statsd_bridge.Prelude.{
  ℕ, ◌≡◌, refl, sym, ap, ◌∙◌, Bool, true, false, Option, none, some, List, [], ◌∷◌, arith, Bytes,
  Returns, Returns-bind, ◌>>=◌, split,
}
use mathlib.Core.Path.{subst}
use statsd_bridge.Float.{Float}
use statsd_bridge.Event.{MetricType}
use statsd_bridge.Config.{MapperConfigDefaults, MetricMapping}
use statsd_bridge.Fsm.Needs.{test_if_need_backtracking}
use statsd_bridge.Fsm.Rules.{Rule}
use statsd_bridge.Fsm.Runs.{Built, Built-IsModel}
use statsd_bridge.Fsm.Search
use statsd_bridge.Fsm.Finds.{Answers, get_mapping-Answers}
use statsd_bridge.Mapper.{Matcher, Cache, Mapper, CacheResult, type_name, take_over}
use statsd_bridge.Mapper.Outcome.{InitError, done, failed, panicked}
use statsd_bridge.Mapper.Init.{Progress, metric_types, complete_defaults, read_config}
use statsd_bridge.Mapper.Safe.{Safe}
use statsd_bridge.Mapper.Ready.{glob_rules, has_rules}
use statsd_bridge.Mapper.Read.{IsConfig, read_config-IsConfig}
use statsd_bridge.Mapper.Lookup.{type_name-known}
use statsd_bridge.Mapper.Reload.{
  Current, IsUsable, IsNotNilPointer, store_of-IsNotNilPointer, glob_matches, install,
  init_from_yaml_string,
}

-- While the order is kept, backtracking is needed.
kept_needs :
    (matches : List Bytes) (disabled : Bool)
    → disabled ≡ false
    → test_if_need_backtracking matches disabled ≡ true
unfolding test_if_need_backtracking
kept_needs matches true e = absurd (ground arith)
kept_needs matches false e = refl

no_rules : (rules : List (Rule ℕ)) → has_rules rules ≡ false → rules ≡ []
unfolding has_rules
no_rules [] e = refl
no_rules (rule ∷ rules) e = absurd (ground arith)

module _ (f : Float) (lib : Matcher) (c : Cache (CacheResult f lib))
    (compile : Bytes → Option lib.Regex) where
  -- The machine answers for every metric what the glob rules of the mappings, in their order, say;
  -- where it is not in use, there are none.
  abbrev pub IsOrderedIf : Bool → Mapper f lib → Type 0
  IsOrderedIf false m = glob_rules f lib.Regex compile 0 m.mappings ≡ []
  IsOrderedIf true m =
      (metric : Bytes) (type : MetricType)
      → Returns
          (Answers metric_types (type_name type) (glob_rules f lib.Regex compile 0 m.mappings)
            (split b'.' metric))
          (Search.get_mapping metric (type_name type) m.fsm)

  abbrev pub IsOrdered : Option InitError × Current f lib c compile → Type 0
  IsOrdered (some e, m) = Unit
  IsOrdered (none, m) = IsOrderedIf m.mapper.do_fsm m.mapper

  -- the mapper under the lock, where the machine is used or not
  OrderedUnder :
      Bool
      → List (MetricMapping f lib.Regex)
      → Progress
      → Current f lib c compile
      → Option c.Store
      → Type 0
  OrderedUnder used ms p m store =
      let n : Mapper f lib = record {
        mappings = ms;
        fsm = p.fsm;
        do_fsm = used;
        do_regex = p.do_regex;
      } in
      let needed =
        test_if_need_backtracking (glob_matches f lib c compile ms) p.fsm.ordering_disabled in
      let m' = (take_over f lib c n needed m.mapper store).0 in IsOrderedIf m'.do_fsm m'

  install-IsOrdered :
      (d : MapperConfigDefaults f) (ms : List (MetricMapping f lib.Regex)) (p : Progress)
      (m : Current f lib c compile)
      → IsNotNilPointer m.cache
      → Built metric_types false (glob_rules f lib.Regex compile 0 ms) p.fsm
      → p.do_fsm ≡ has_rules (glob_rules f lib.Regex compile 0 ms)
      → Returns (λ m'. IsOrdered (none, m')) (install f lib c compile d ms p m)
  unfolding install take_over OrderedUnder
  install-IsOrdered d ms p m k b used =
      let (store, there) = store_of-IsNotNilPointer m.cache k in
      let rules = glob_rules f lib.Regex compile 0 ms in
      let (_, _, order, _) = Built-IsModel metric_types false rules p.fsm b in
      rw there (
        (elim p.do_fsm as (λ x. x ≡ has_rules rules → OrderedUnder x ms p m store) [
          | true ↦ λ e metric type.
              subst
                (λ needed.
                  Returns (Answers metric_types (type_name type) rules (split b'.' metric)) (
                    Search.get_mapping metric (type_name type)
                      (record p.fsm { backtracking_needed = needed })))
                (sym (kept_needs (glob_matches f lib c compile ms) p.fsm.ordering_disabled order))
                (get_mapping-Answers metric_types (type_name type) metric rules p.fsm b
                  (type_name-known type))
          | false ↦ λ e. no_rules rules (sym e)
        ])
          used)

  -- Given that its logger is set, that its cache is not a nil pointer, and that the methods of its
  -- cache return, InitFromYAMLString on a configuration that keeps the order of the rules does not
  -- panic. Unless it returns an error, the machine answers for each metric and metric type as the glob rules of the
  -- mappings say: nil where no fields to which the rules give a result match the metric's; else the
  -- result at fields that match, with what their stars stand for as the first captures, where no other
  -- fields that match and have a result belong to an earlier rule, each taken by its last rule. The
  -- machine is out of use only where there are no glob rules.
  pub init_from_yaml_string-IsOrdered :
      (d : MapperConfigDefaults f) (ms : List (MetricMapping f lib.Regex))
      (m : Current f lib c compile)
      → IsUsable f lib c compile m
      → d.glob_disable_ordering ≡ false
      → Returns IsOrdered (init_from_yaml_string f lib c compile (some (d, ms)) m)
  unfolding init_from_yaml_string complete_defaults
  init_from_yaml_string-IsOrdered d0 ms0 m (logger, k) kept =
      elim (read_config f lib.Regex compile m.logger (some (d0, ms0)))
          as (λ o.
            Safe (IsConfig f lib.Regex compile (some (d0, ms0))) o
            → Returns IsOrdered (elim o [
              | panicked ↦ none
              | failed e ↦ some (some e, m)
              | done (d, ms, p) ↦ install f lib c compile d ms p m >>= λ m'. some (none, m')
            ])) [
              | panicked ↦ λ h. absurd h
              | failed e ↦ λ h. tt
              | done (d, ms, p) ↦ λ (same, complete, ((b, used), ready, texts)).
                  Returns-bind (λ m'. IsOrdered (none, m')) IsOrdered
                    (install f lib c compile d ms p m) _ (λ m' ordered. ordered)
                    (install-IsOrdered d ms p m k
                      (subst
                        (λ disabled.
                          Built metric_types disabled (glob_rules f lib.Regex compile 0 ms) p.fsm)
                        (ap (λ (x : MapperConfigDefaults f). x.glob_disable_ordering) same ∙ kept)
                        b)
                      used)
            ]
        (subst
          (λ b.
            Safe (IsConfig f lib.Regex compile (some (d0, ms0)))
              (read_config f lib.Regex compile b (some (d0, ms0))))
          (sym logger) (read_config-IsConfig f lib.Regex compile (some (d0, ms0))))
