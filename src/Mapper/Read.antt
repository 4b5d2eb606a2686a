-- ===== src/Mapper/Read.antt =====
-- InitFromYAMLString up to the lock, with a logger: all rounds of the loop over the mappings.
use statsd_bridge.Prelude.{
  ℕ, suc, ◌+◌, ◌≡◌, refl, sym, ap, ◌∙◌, Bool, true, false, not, Option, none, some, List, [], ◌∷◌,
  ◌++◌, map, append_assoc, append-nil, arith, Bytes, length, length-append, All, ◌==◌,
}
use mathlib.Core.Path.{subst}
use statsd_bridge.Float.{Float}
use statsd_bridge.Labels.{Labels}
use statsd_bridge.Config.{MatchType, ActionType, MapperConfigDefaults, MetricMapping}
use statsd_bridge.Fsm.{new_fsm}
use statsd_bridge.Fsm.Rules.{Rule}
use statsd_bridge.Fsm.Runs.{created}
use statsd_bridge.Registry.Getters.{default_objectives}
use statsd_bridge.Mapper.Patterns.{is_metric_name, is_label_name}
use statsd_bridge.Mapper.Init.{
  Progress, metric_types, check_labels, add_rule, complete_options, complete_defaults,
  default_buckets, init_mapping, init_mappings, read_config, with_match_type, with_action,
}
use statsd_bridge.Mapper.Safe.{Safe, Safe-bind, Safe-guard}
use statsd_bridge.Mapper.Options.{
  NonEmpty, SameRule, Completed, complete_options-Completed, or_default-NonEmpty,
}
use statsd_bridge.Mapper.Ready.{
  IsMachine, has_rules, glob_rule, glob_rules, glob_rules-snoc, IsReady, IsReadyFor, IsChosen,
  Added, IsAddedRule, add_rule-Added, check_labels-All,
}

module _ (f : Float) (Regex : Type 0) (compile : Bytes → Option Regex) where
  -- Defaults with which every mapping can be completed.
  abbrev pub IsComplete : MapperConfigDefaults f → Type 0
  IsComplete d =
      ¬ (d.match_type ≡ MatchType.unset)
      × NonEmpty d.histogram_options.buckets
      × NonEmpty d.summary_options.quantiles

  with_match_type-set :
      (t d : MatchType) → ¬ (d ≡ MatchType.unset) → ¬ (with_match_type t d ≡ MatchType.unset)
  with_match_type-set MatchType.unset d h = h
  with_match_type-set MatchType.glob d h = λ e. ground arith
  with_match_type-set MatchType.regex d h = λ e. ground arith

  with_action-IsChosen : (a : ActionType) → IsChosen (with_action a)
  with_action-IsChosen ActionType.unset = tt
  with_action-IsChosen ActionType.map = tt
  with_action-IsChosen ActionType.drop = tt

  -- what tells a rule
  abbrev pub rule_texts : MetricMapping f Regex → Bytes × Bytes × Labels
  rule_texts v = (v.match, v.name, v.labels)

  abbrev IsNext :
      Bool → List (Rule ℕ) → ℕ → MetricMapping f Regex → MetricMapping f Regex × Progress → Type 0
  IsNext disabled rules i m x =
      Added f Regex compile disabled rules i x.0 x.1
      × IsReady f Regex compile x.0
      × (rule_texts x.0 ≡ rule_texts m)

  IsReadyFor-same :
      (t : MatchType) (v v' : MetricMapping f Regex)
      → SameRule f Regex compile v v'
      → IsReadyFor f Regex compile t v
      → IsReadyFor f Regex compile t v'
  IsReadyFor-same MatchType.unset v v' same h = h
  IsReadyFor-same MatchType.glob v v' (nf, lf, lk, ma, na, mt, ac, re, la, ty) h =
      rw (nf, lf, lk, ma) h
  IsReadyFor-same MatchType.regex v v' (nf, lf, lk, ma, na, mt, ac, re, la, ty) h = rw re h

  glob_rule-same :
      (t : MatchType) (i : ℕ) (v v' : MetricMapping f Regex)
      → SameRule f Regex compile v v'
      → glob_rule f Regex compile t i v' ≡ glob_rule f Regex compile t i v
  glob_rule-same MatchType.unset i v v' same = refl
  glob_rule-same MatchType.glob i v v' (nf, lf, lk, ma, na, mt, ac, re, la, ty) = rw (ma, ty) refl
  glob_rule-same MatchType.regex i v v' same = refl

  IsNext-Completed :
      (disabled : Bool) (rules : List (Rule ℕ)) (i : ℕ) (m v v' : MetricMapping f Regex)
      (p : Progress)
      → IsAddedRule f Regex compile disabled rules i m (v, p)
      → IsChosen m.action
      → is_metric_name m.name ≡ true
      → All (λ (kv : Bytes × Bytes). is_label_name kv.0 ≡ true) m.labels
      → Completed f Regex compile v v'
      → IsNext disabled rules i m (v', p)
  IsNext-Completed disabled rules i m v v' p (b, ready, (_, action, name, labels, match)) chosen
        good keys (same, fits) =
      let (nf, lf, lk, ma, na, mt, ac, re, la, ty) = same in
      (
        subst (λ t. IsMachine disabled (rules ++ glob_rule f Regex compile t i v') p) (sym mt)
            (subst (λ rs. IsMachine disabled (rules ++ rs) p)
              (sym (glob_rule-same v.match_type i v v' same)) b),
        (
          subst (λ t. IsReadyFor f Regex compile t v') (sym mt)
              (IsReadyFor-same v.match_type v v' same ready),
          subst IsChosen (sym (ac ∙ action)) chosen,
          ap is_metric_name (na ∙ name) ∙ good,
          subst (All (λ (kv : Bytes × Bytes). is_label_name kv.0 ≡ true)) (sym (la ∙ labels)) keys,
          fits,
        ),
        rw (ma, na, la, match, name, labels) refl,
      )

  init_mapping-IsNext :
      (disabled : Bool) (rules : List (Rule ℕ)) (d : MapperConfigDefaults f) (i : ℕ)
      (m : MetricMapping f Regex) (p : Progress)
      → IsComplete d
      → IsMachine disabled rules p
      → Safe (IsNext disabled rules i m) (init_mapping f Regex compile true d i m p)
  unfolding init_mapping
  init_mapping-IsNext disabled rules d i m0 p (set, h, s) b =
      let m : MetricMapping f Regex = record m0 {
        match_type = with_match_type m0.match_type d.match_type;
        action = with_action m0.action;
      } in
      Safe-bind _ (IsNext disabled rules i m0) (check_labels m0.labels) _
        (λ _ keys. Safe-guard (IsNext disabled rules i m0) (not (length m0.name == 0)) _ _ (λ _.
          Safe-guard (IsNext disabled rules i m0) (is_metric_name m0.name) _ _ (λ good.
            Safe-bind (IsAddedRule f Regex compile disabled rules i m) (IsNext disabled rules i m0)
              (add_rule f Regex compile i m p) _
              (λ (v, p') added.
                Safe-bind (Completed f Regex compile v) (IsNext disabled rules i m0)
                  (complete_options f Regex compile true d v) _
                  (λ v' completed.
                    IsNext-Completed disabled rules i m v v' p' added
                      (with_action-IsChosen m0.action) good keys completed)
                  (complete_options-Completed f Regex compile d v h s))
              (add_rule-Added f Regex compile disabled rules i m p b
                (with_match_type-set m0.match_type d.match_type set)))))
        (check_labels-All m0.labels)

  -- The mappings are ready, and the machine is that of their rules.
  abbrev pub IsRead :
      Bool → List (MetricMapping f Regex) → List (MetricMapping f Regex) × Progress → Type 0
  IsRead disabled ms x =
      IsMachine disabled (glob_rules f Regex compile 0 x.0) x.1
      × All (IsReady f Regex compile) x.0
      × (map rule_texts x.0 ≡ map rule_texts ms)

  -- The same behind `before` mappings that are done.
  abbrev IsReadBehind :
      Bool
      → List (MetricMapping f Regex)
      → List (MetricMapping f Regex)
      → List (MetricMapping f Regex) × Progress
      → Type 0
  IsReadBehind disabled before ms x =
      IsMachine disabled (glob_rules f Regex compile 0 (before ++ x.0)) x.1
      × All (IsReady f Regex compile) x.0
      × (map rule_texts x.0 ≡ map rule_texts ms)

  init_mappings-IsRead :
      (disabled : Bool) (d : MapperConfigDefaults f) (i : ℕ)
      (before ms : List (MetricMapping f Regex)) (p : Progress)
      → IsComplete d
      → i ≡ length before
      → IsMachine disabled (glob_rules f Regex compile 0 before) p
      → Safe (IsReadBehind disabled before ms) (init_mappings f Regex compile true d i ms p)
  unfolding init_mappings
  init_mappings-IsRead disabled d i before [] p c e b = (
    subst (λ ms. IsMachine disabled (glob_rules f Regex compile 0 ms) p) (sym (append-nil before))
        b,
    tt,
    refl,
  )
  init_mappings-IsRead disabled d i before (m ∷ ms) p c e b =
      let rules = glob_rules f Regex compile 0 before in
      Safe-bind (IsNext disabled rules i m) (IsReadBehind disabled before (m ∷ ms))
        (init_mapping f Regex compile true d i m p) _
        (λ (m', p') (b', ready, texts).
          Safe-bind (IsReadBehind disabled (before ++ m' ∷ []) ms)
            (IsReadBehind disabled before (m ∷ ms))
            (init_mappings f Regex compile true d (suc i) ms p') _
            (λ (ms', p'') (b'', others, more). (
              subst (λ xs. IsMachine disabled (glob_rules f Regex compile 0 xs) p'')
                  (append_assoc before (m' ∷ []) ms') b'',
              (ready, others),
              rw (texts, more) refl,
            ))
            (init_mappings-IsRead disabled d (suc i) (before ++ m' ∷ []) ms p' c
              (rw (length-append before (m' ∷ []), ← e) (omega arith))
              (subst (λ rs. IsMachine disabled rs p') (next m') b')))
        (init_mapping-IsNext disabled rules d i m p c b)
    where
      next :
          (m' : MetricMapping f Regex)
          → glob_rules f Regex compile 0 before ++ glob_rule f Regex compile m'.match_type i m'
            ≡ glob_rules f Regex compile 0 (before ++ m' ∷ [])
      next m' =
          let e' : i ≡ 0 + length before = omega arith in
          ap
            (λ j.
              glob_rules f Regex compile 0 before ++ glob_rule f Regex compile m'.match_type j m')
            e'
          ∙ sym (glob_rules-snoc f Regex compile 0 before m')

  complete_defaults-IsComplete : (d : MapperConfigDefaults f) → IsComplete (complete_defaults f d)
  unfolding complete_defaults default_buckets default_objectives
  complete_defaults-IsComplete d = (
    with_match_type-set d.match_type MatchType.glob (λ e. ground arith),
    or_default-NonEmpty d.histogram_options.buckets _ tt,
    or_default-NonEmpty d.summary_options.quantiles _ tt,
  )

  -- What InitFromYAMLString has before the lock.
  abbrev pub IsConfig :
      Option (MapperConfigDefaults f × List (MetricMapping f Regex))
      → MapperConfigDefaults f × List (MetricMapping f Regex) × Progress
      → Type 0
  IsConfig none x = ⊥
  IsConfig (some (d, ms)) x =
      (x.0 ≡ complete_defaults f d)
      × IsComplete x.0
      × IsRead x.0.glob_disable_ordering ms (x.1, x.2)

  pub read_config-IsConfig :
      (parsed : Option (MapperConfigDefaults f × List (MetricMapping f Regex)))
      → Safe (IsConfig parsed) (read_config f Regex compile true parsed)
  unfolding read_config glob_rules has_rules
  read_config-IsConfig none = tt
  read_config-IsConfig (some (d0, ms)) =
      let d = complete_defaults f d0 in
      let p : Progress = record {
        fsm = new_fsm metric_types d.glob_disable_ordering;
        do_fsm = false;
        do_regex = false;
      } in
      let c = complete_defaults-IsComplete d0 in
      Safe-bind (IsReadBehind d.glob_disable_ordering [] ms) (IsConfig (some (d0, ms)))
        (init_mappings f Regex compile true d 0 ms p) _ (λ x h. (refl, c, h))
        (init_mappings-IsRead d.glob_disable_ordering d 0 [] ms p c refl (created, refl))
