-- ===== src/Mapper/Options.antt =====
-- The options that InitFromYAMLString leaves in a mapping: which of them are there, and which fields
-- it does not touch.
use statsd_bridge.Prelude.{true, not, Option, none, some, List, [], ◌∷◌, ◌≡◌, refl, Bytes, arith}
use statsd_bridge.Float.{Float}
use statsd_bridge.Config.{
  ObserverType, SummaryOptions, HistogramOptions, MapperConfigDefaults, MetricMapping,
}
use statsd_bridge.Mapper.Outcome.{done}
use statsd_bridge.Mapper.Init.{
  complete_histogram, complete_summary, complete_observer, complete_options, is_some, or_default,
  with_observer_type, quantiles_twice, buckets_twice,
}
use statsd_bridge.Mapper.Safe.{Safe, Safe-bind, Safe-guard}

-- a slice with an element
abbrev pub NonEmpty {ℓ} : {A : Type ℓ} → Option (List A) → Type 0
NonEmpty none = ⊥
NonEmpty (some []) = ⊥
NonEmpty (some (x ∷ xs)) = Unit

pub or_default-NonEmpty :
    {A : Type 0} (o d : Option (List A)) → NonEmpty d → NonEmpty (or_default o d)
or_default-NonEmpty none d h = h
or_default-NonEmpty (some []) d h = h
or_default-NonEmpty (some (x ∷ xs)) d h = tt

module _ (f : Float) (Regex : Type 0) (compile : Bytes → Option Regex) where
  -- The options fit the observer type: those of a histogram with buckets and none of a summary, or
  -- those of a summary with quantiles and none of a histogram.
  abbrev pub FitsObserver :
      ObserverType → Option (HistogramOptions f) → Option (SummaryOptions f) → Type 0
  FitsObserver ObserverType.unset h s = Unit
  FitsObserver ObserverType.histogram none s = ⊥
  FitsObserver ObserverType.histogram (some o) s = NonEmpty o.buckets × (s ≡ none)
  FitsObserver ObserverType.summary h none = ⊥
  FitsObserver ObserverType.summary h (some o) = NonEmpty o.quantiles × (h ≡ none)

  -- the fields that the options leave alone
  abbrev pub SameRule : MetricMapping f Regex → MetricMapping f Regex → Type 0
  SameRule m m' =
      (m'.name_formatter ≡ m.name_formatter)
      × (m'.label_formatters ≡ m.label_formatters)
      × (m'.label_keys ≡ m.label_keys)
      × (m'.match ≡ m.match)
      × (m'.name ≡ m.name)
      × (m'.match_type ≡ m.match_type)
      × (m'.action ≡ m.action)
      × (m'.regex ≡ m.regex)
      × (m'.labels ≡ m.labels)
      × (m'.match_metric_type ≡ m.match_metric_type)

  abbrev pub Completed : MetricMapping f Regex → MetricMapping f Regex → Type 0
  Completed m m' =
      SameRule m m' × FitsObserver m'.observer_type m'.histogram_options m'.summary_options

  not_some : {A : Type 0} (o : Option A) → not (is_some o) ≡ true → o ≡ none
  unfolding is_some
  not_some none h = refl
  not_some (some a) h = absurd (ground arith)

  complete_histogram-Completed :
      (d : MapperConfigDefaults f) (m : MetricMapping f Regex)
      → NonEmpty d.histogram_options.buckets
      → m.observer_type ≡ ObserverType.histogram
      → Safe (Completed m) (complete_histogram f Regex compile d m)
  unfolding complete_histogram
  complete_histogram-Completed d m h e =
      Safe-guard (Completed m) (not (is_some m.summary_options)) _ _ (λ free. (
        (refl, refl, refl, refl, refl, refl, refl, refl, refl, refl),
        rw (e, not_some m.summary_options free) (or_default-NonEmpty _ _ h, refl),
      ))

  complete_summary-Completed :
      (d : MapperConfigDefaults f) (m : MetricMapping f Regex)
      → NonEmpty d.summary_options.quantiles
      → m.observer_type ≡ ObserverType.summary
      → Safe (Completed m) (complete_summary f Regex compile d m)
  unfolding complete_summary
  complete_summary-Completed d m h e =
      Safe-guard (Completed m) (not (is_some m.histogram_options)) _ _ (λ free. (
        (refl, refl, refl, refl, refl, refl, refl, refl, refl, refl),
        rw (e, not_some m.histogram_options free) (or_default-NonEmpty _ _ h, refl),
      ))

  complete_observer-Completed :
      (d : MapperConfigDefaults f) (m : MetricMapping f Regex)
      → NonEmpty d.histogram_options.buckets
      → NonEmpty d.summary_options.quantiles
      → Safe (Completed m) (complete_observer f Regex compile d m)
  unfolding complete_observer
  complete_observer-Completed d m h s =
      elim m.observer_type
          as (λ t.
            m.observer_type ≡ t
            → Safe (Completed m) (elim t [
              | ObserverType.unset ↦ done m
              | ObserverType.histogram ↦ complete_histogram f Regex compile d m
              | ObserverType.summary ↦ complete_summary f Regex compile d m
            ])) [
              | ObserverType.unset ↦
                  λ e. ((refl, refl, refl, refl, refl, refl, refl, refl, refl, refl), rw e tt)
              | ObserverType.histogram ↦ λ e. complete_histogram-Completed d m h e
              | ObserverType.summary ↦ λ e. complete_summary-Completed d m s e
            ]
        refl

  pub complete_options-Completed :
      (d : MapperConfigDefaults f) (m : MetricMapping f Regex)
      → NonEmpty d.histogram_options.buckets
      → NonEmpty d.summary_options.quantiles
      → Safe (Completed m) (complete_options f Regex compile true d m)
  unfolding complete_options
  complete_options-Completed d m0 h s =
      let m = record m0 { observer_type = with_observer_type m0.observer_type d.observer_type } in
      Safe-guard (Completed m0) (not (quantiles_twice f Regex compile m)) _ _ (λ once.
        Safe-guard (Completed m0) (not (buckets_twice f Regex compile m)) _ _ (λ once'.
          Safe-bind (Completed m) (Completed m0) (complete_observer f Regex compile d m) _
            (λ m' completed. completed) (complete_observer-Completed d m h s)))
