-- ===== src/Mapper/Ready.antt =====
-- InitFromYAMLString: the rules that it puts into the machine, and what holds of the mappings
-- behind it.
use statsd_bridge.Prelude.{
  ℕ, suc, ◌+◌, ◌≡◌, refl, sym, ap, ◌∙◌, inl, inr, Bool, true, false, Option, none, some, List, [],
  ◌∷◌, ◌++◌, append_assoc, append-nil, arith, Bytes, length, length-map, map, All, if◌then◌else◌,
  Returns-elim, Option-cases, bytes_beq, split,
}
use statsd_bridge.Float.{Float}
use statsd_bridge.Event.{MetricType, counter, gauge, observer}
use statsd_bridge.Config.{MatchType, ActionType, MetricMapping, TemplateFormatter}
use statsd_bridge.Fsm.{capture_count}
use statsd_bridge.Fsm.Template.{new_template_formatter}
use statsd_bridge.Fsm.Formats.{FitsCaptures, new_template_formatter-FitsCaptures}
use statsd_bridge.Fsm.Rules.{Rule, types_of, has_type, fields_of}
use statsd_bridge.Fsm.Runs.{Built}
use statsd_bridge.Fsm.Adds.{IsAdded, add_state-Returns, count_captures-has_type}
use statsd_bridge.Mapper.{type_name}
use statsd_bridge.Mapper.Patterns.{is_metric_line, is_metric_name, is_label_name}
use statsd_bridge.Mapper.Outcome.{failed, invalid_label}
use statsd_bridge.Mapper.Init.{
  Progress, metric_types, match_type_name, check_labels, add_glob, add_regex, add_rule,
}
use statsd_bridge.Mapper.Safe.{Safe, Safe-guard, Safe-mono}
use statsd_bridge.Mapper.Options.{FitsObserver}

abbrev pub FitsName : ℕ → Option TemplateFormatter → Type 0
FitsName count none = ⊥
FitsName count (some t) = FitsCaptures count t

abbrev pub IsChosen : ActionType → Type 0
IsChosen ActionType.unset = ⊥
IsChosen _ = Unit

new_template_formatters-FitsCaptures :
    (count : ℕ) (labels : List (Bytes × Bytes))
    → All
        (FitsCaptures count)
        (map (λ (kv : Bytes × Bytes). new_template_formatter kv.1 count) labels)
new_template_formatters-FitsCaptures count [] = tt
new_template_formatters-FitsCaptures count ((k, v) ∷ labels) =
    (new_template_formatter-FitsCaptures v count, new_template_formatters-FitsCaptures count labels)

pub check_labels-All :
    (labels : List (Bytes × Bytes))
    → Safe
        (λ _. All (λ (kv : Bytes × Bytes). is_label_name kv.0 ≡ true) labels)
        (check_labels labels)
unfolding check_labels
check_labels-All [] = tt
check_labels-All ((k, v) ∷ labels) =
    elim (is_label_name k)
        as (λ b.
          is_label_name k ≡ b
          → Safe (λ _. All (λ (kv : Bytes × Bytes). is_label_name kv.0 ≡ true) ((k, v) ∷ labels))
              (if b then check_labels labels else failed (invalid_label k))) [
                | true ↦ λ e.
                    Safe-mono _ _ (check_labels labels) (λ _ h. (e, h)) (check_labels-All labels)
                | false ↦ λ e. tt
              ]
      refl

match_type_name-types :
    (t : Option MetricType) (match : Bytes) (i : ℕ)
    → All
        (λ u. has_type u metric_types ≡ true)
        (types_of metric_types
          (record { match = match; match_metric_type = match_type_name t; rule_result = i }))
unfolding match_type_name types_of has_type type_name bytes_beq
match_type_name-types none match i = (refl, (refl, (refl, tt)))
match_type_name-types (some counter) match i = (refl, tt)
match_type_name-types (some gauge) match i = (refl, tt)
match_type_name-types (some observer) match i = (refl, tt)

unfoldable pub has_rules : List (Rule ℕ) → Bool
has_rules [] = false
has_rules (rule ∷ rules) = true

has_rules-snoc : (rules : List (Rule ℕ)) (rule : Rule ℕ) → has_rules (rules ++ rule ∷ []) ≡ true
unfolding has_rules
has_rules-snoc [] rule = refl
has_rules-snoc (x ∷ rules) rule = refl

-- The machine is that of the rules, and it is in use if there are any.
abbrev pub IsMachine : Bool → List (Rule ℕ) → Progress → Type 0
IsMachine disabled rules p = Built metric_types disabled rules p.fsm × (p.do_fsm ≡ has_rules rules)

module _ (f : Float) (Regex : Type 0) (compile : Bytes → Option Regex) where
  -- the rule that a mapping at the place `i` puts into the machine
  abbrev pub glob_rule : MatchType → ℕ → MetricMapping f Regex → List (Rule ℕ)
  glob_rule MatchType.glob i v =
      record {
        match = v.match;
        match_metric_type = match_type_name v.match_metric_type;
        rule_result = i;
      }
      ∷ []
  glob_rule _ i v = []

  -- the rules of mappings, from the place `i` on
  unfoldable pub glob_rules : ℕ → List (MetricMapping f Regex) → List (Rule ℕ)
  glob_rules i [] = []
  glob_rules i (v ∷ vs) = glob_rule v.match_type i v ++ glob_rules (suc i) vs

  pub glob_rules-snoc :
      (i : ℕ) (vs : List (MetricMapping f Regex)) (v : MetricMapping f Regex)
      → glob_rules i (vs ++ v ∷ []) ≡ glob_rules i vs ++ glob_rule v.match_type (i + length vs) v
  unfolding glob_rules
  glob_rules-snoc i [] v = append-nil _ ∙ ap (λ j. glob_rule v.match_type j v) (same i)
    where
      same : (i : ℕ) → i ≡ i + 0
      same i = omega arith
  glob_rules-snoc i (x ∷ vs) v =
      let e : suc i + length vs ≡ i + suc (length vs) = omega arith in
      ap (λ rules. glob_rule x.match_type i x ++ rules)
        (glob_rules-snoc (suc i) vs v
          ∙ ap (λ j. glob_rules (suc i) vs ++ glob_rule v.match_type j v) e)
      ∙ sym (append_assoc (glob_rule x.match_type i x) (glob_rules (suc i) vs) _)

  -- the mapping has what its match type needs
  abbrev pub IsReadyFor : MatchType → MetricMapping f Regex → Type 0
  IsReadyFor MatchType.unset v = ⊥
  IsReadyFor MatchType.glob v =
      let count = capture_count (split b'.' v.match) in
      (is_metric_line v.match ≡ true)
      × FitsName count v.name_formatter
      × All (FitsCaptures count) v.label_formatters
      × (length v.label_formatters ≡ length v.label_keys)
  IsReadyFor MatchType.regex v = (r : Regex) × (v.regex ≡ some r)

  abbrev pub IsReady : MetricMapping f Regex → Type 0
  IsReady v =
      IsReadyFor v.match_type v
      × IsChosen v.action
      × (is_metric_name v.name ≡ true)
      × All (λ (kv : Bytes × Bytes). is_label_name kv.0 ≡ true) v.labels
      × FitsObserver f Regex compile v.observer_type v.histogram_options v.summary_options

  -- the machine behind a mapping
  abbrev pub Added : Bool → List (Rule ℕ) → ℕ → MetricMapping f Regex → Progress → Type 0
  Added disabled rules i v p = IsMachine disabled (rules ++ glob_rule v.match_type i v) p

  -- the fields that the rule leaves alone
  abbrev pub SameNames : MetricMapping f Regex → MetricMapping f Regex → Type 0
  SameNames m v =
      (v.match_type ≡ m.match_type)
      × (v.action ≡ m.action)
      × (v.name ≡ m.name)
      × (v.labels ≡ m.labels)
      × (v.match ≡ m.match)

  abbrev pub IsAddedRule :
      Bool → List (Rule ℕ) → ℕ → MetricMapping f Regex → MetricMapping f Regex × Progress → Type 0
  IsAddedRule disabled rules i m x =
      Added disabled rules i x.0 x.1 × IsReadyFor x.0.match_type x.0 × SameNames m x.0

  -- a metric type of a rule, which has one at least
  some_type :
      (o : Option MetricType) (match : Bytes) (i : ℕ)
      → (type : Bytes) × (has_type type (
            types_of metric_types
              (record { match = match; match_metric_type = match_type_name o; rule_result = i }))
          ≡ true)
  unfolding match_type_name types_of has_type type_name bytes_beq
  some_type none match i = (type_name counter, refl)
  some_type (some counter) match i = (type_name counter, refl)
  some_type (some gauge) match i = (type_name gauge, refl)
  some_type (some observer) match i = (type_name observer, refl)

  add_glob-Added :
      (disabled : Bool) (rules : List (Rule ℕ)) (i : ℕ) (m : MetricMapping f Regex) (p : Progress)
      → IsMachine disabled rules p
      → m.match_type ≡ MatchType.glob
      → Safe (IsAddedRule disabled rules i m) (add_glob f Regex compile i m p)
  unfolding add_glob
  add_glob-Added disabled rules i m p (b, used) e =
      let rule : Rule ℕ = record {
        match = m.match;
        match_metric_type = match_type_name m.match_metric_type;
        rule_result = i;
      } in
      let ((fsm, count), made, (b', same)) =
        Returns-elim (IsAdded metric_types disabled rules rule) _ (
          add_state-Returns metric_types disabled rules rule p.fsm b
            (match_type_name-types m.match_metric_type m.match i)) in
      let (type, typed) = some_type m.match_metric_type m.match i in
      Safe-guard (IsAddedRule disabled rules i m) (is_metric_line m.match) _ _ (λ line.
        rw (made, e, same ∙ count_captures-has_type type _ (fields_of rule) typed)
          (
            (b', sym (has_rules-snoc rules rule)),
            (
              line,
              new_template_formatter-FitsCaptures m.name (capture_count (fields_of rule)),
              new_template_formatters-FitsCaptures (capture_count (fields_of rule)) m.labels,
              length-map m.labels _ ∙ sym (length-map m.labels _),
            ),
            (refl, refl, refl, refl, refl),
          ))

  add_regex-Added :
      (disabled : Bool) (rules : List (Rule ℕ)) (i : ℕ) (m : MetricMapping f Regex) (p : Progress)
      → IsMachine disabled rules p
      → m.match_type ≡ MatchType.regex
      → Safe (IsAddedRule disabled rules i m) (add_regex f Regex compile m p)
  unfolding add_regex
  add_regex-Added disabled rules i m p b e = elim (Option-cases (compile m.match)) [
    | inl bad ↦ rw (Safe, bad) tt
    | inr (r, good) ↦
        rw (Safe, good, e, append-nil rules) (b, (r, refl), (refl, refl, refl, refl, refl))
  ]

  pub add_rule-Added :
      (disabled : Bool) (rules : List (Rule ℕ)) (i : ℕ) (m : MetricMapping f Regex) (p : Progress)
      → IsMachine disabled rules p
      → ¬ (m.match_type ≡ MatchType.unset)
      → Safe (IsAddedRule disabled rules i m) (add_rule f Regex compile i m p)
  unfolding add_rule
  add_rule-Added disabled rules i m p b set =
      elim m.match_type
          as (λ t.
            m.match_type ≡ t
            → Safe (IsAddedRule disabled rules i m) (elim t [
              | MatchType.glob ↦ add_glob f Regex compile i m p
              | _ ↦ add_regex f Regex compile m p
            ])) [
              | MatchType.unset ↦ λ e. absurd (set e)
              | MatchType.glob ↦ λ e. add_glob-Added disabled rules i m p b e
              | MatchType.regex ↦ λ e. add_regex-Added disabled rules i m p b e
            ]
        refl
