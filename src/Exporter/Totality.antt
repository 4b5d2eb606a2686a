-- ===== src/Exporter/Totality.antt =====
-- pkg/exporter/exporter.go: when handleEvent returns, and which counters it increments.
use statsd_bridge.Prelude.{
  ℕ, ◌≡◌, true, false, Option, none, some, List, [], ◌∷◌, ◌++◌, ◌==◌, length, bytes_eq, Bytes,
}
use statsd_bridge.Float.{Float}
use statsd_bridge.Labels
use statsd_bridge.Labels.{Labels}
use statsd_bridge.Config.{ActionType, MapperConfigDefaults, MetricMapping}
use statsd_bridge.Event
use statsd_bridge.Event.{
  Event, MultiObserverEvent, counter_event, gauge_event, observer_event, multi_observer_event,
}
use statsd_bridge.Metrics.{Client, counter_opts, gauge_opts, histogram_opts, summary_opts}
use statsd_bridge.Registry.{Registry}
use statsd_bridge.Registry.Hash.{hash_labels}
use statsd_bridge.Registry.Getters.{histogram_settings, summary_settings, Got}
use statsd_bridge.Registry.Totality.{AllSound, IsAnswered}
use statsd_bridge.Exporter.{
  Count, Stat, action, unmapped, empty_metric_name, illegal_negative_counter, event, conflicting,
  Exporter, merge_labels, no_mapping, is_drop,
}

module _ {f : Float} where
  -- what an event is counted as
  abbrev pub stat_of : Event f → Stat
  stat_of (counter_event ev) = Stat.counter
  stat_of (gauge_event ev) = Stat.gauge
  stat_of (observer_event ev) = Stat.observer
  stat_of (multi_observer_event ev) = Stat.illegal

  abbrev pub IsCounter : Event f → Type 0
  IsCounter (counter_event ev) = Unit
  IsCounter _ = ⊥

  -- The last count of an event: one of the counters that say what became of it, with its type.
  abbrev pub IsEnd : Event f → Count → Type 0
  IsEnd ev illegal_negative_counter = IsCounter ev
  IsEnd ev (event stat) = stat ≡ stat_of ev
  IsEnd ev (conflicting stat _) = stat ≡ stat_of ev
  IsEnd ev _ = ⊥

module _ {f : Float} {Regex : Type 0} where
  -- The counts that an event adds, by the answer of the mapper.
  pub data Outcome (ev : Event f)
      : Option (MetricMapping f Regex × Labels) → List Count → Type 0 where
    dropped :
        {m : MetricMapping f Regex} {labels : Labels}
        → is_drop m.action ≡ true
        → Outcome ev (some (m, labels)) (action ActionType.drop ∷ [])
    nameless :
        {m : MetricMapping f Regex} {labels : Labels}
        → is_drop m.action ≡ false
        → (length m.name == 0) ≡ true
        → Outcome ev (some (m, labels)) (empty_metric_name ∷ [])
    mapped :
        {m : MetricMapping f Regex} {labels : Labels} {end : Count}
        → is_drop m.action ≡ false
        → IsEnd ev end
        → Outcome ev (some (m, labels)) (action m.action ∷ end ∷ [])
    not_mapped : {end : Count} → IsEnd ev end → Outcome ev none (unmapped ∷ end ∷ [])

  -- the name before the escape, and the labels, under which the event is booked
  abbrev pub name_for : Option (MetricMapping f Regex × Labels) → Event f → Bytes
  name_for none ev = Event.metric_name ev
  name_for (some (m, labels)) ev = m.name

  abbrev pub mapping_for :
      MapperConfigDefaults f → Option (MetricMapping f Regex × Labels) → MetricMapping f Regex
  mapping_for d none = no_mapping d
  mapping_for d (some (m, labels)) = m

  abbrev pub labels_for : Option (MetricMapping f Regex × Labels) → Labels → Labels
  labels_for none own = own
  labels_for (some (m, labels)) own = merge_labels m.honor_labels labels own

module _ {f : Float} (c : Client f) (names_of : ℕ → ℕ) where
  abbrev pub IsPaired : Labels → Type 0
  IsPaired labels = (hash_labels labels).0.names ≡ names_of (hash_labels labels).0.values

  -- The client library does not panic for metrics of these labels and of a mapping.
  abbrev pub AreAnswered :
      {Regex : Type 0} → MapperConfigDefaults f → MetricMapping f Regex → Labels → Type 0
  AreAnswered d mapping labels =
      (name help : Bytes)
      → IsAnswered c names_of labels (counter_opts name help)
        × IsAnswered c names_of labels (gauge_opts name help)
        × IsAnswered c names_of labels (
            let (buckets, factor, max_buckets) = histogram_settings d mapping in
            histogram_opts name help buckets factor max_buckets)
        × IsAnswered c names_of labels (
            let (objectives, max_age, age_buckets, buf_cap) = summary_settings d mapping in
            summary_opts name help objectives max_age age_buckets buf_cap)

  -- Both hashes of the labels belong together, and the client library does not panic.
  abbrev pub AreFit :
      {Regex : Type 0} → MapperConfigDefaults f → MetricMapping f Regex → Labels → Type 0
  AreFit d mapping labels = IsPaired labels × AreAnswered d mapping labels

  -- the counts `before` and one end
  abbrev Ended : Event f → List Count → Exporter c → Type 0
  Ended ev before b =
      AllSound c names_of b.registry
      × (end : Count) × IsEnd ev end
      × (b.counts ≡ before ++ end ∷ [])

  abbrev GotSound : Got c → Type 0
  GotSound got = AllSound c names_of got.0

  module _ {Regex : Type 0} (d : MapperConfigDefaults f) (now : ℕ) where
    -- the state after an event, with the counts it added
    abbrev pub Accounted :
        Event f → Option (MetricMapping f Regex × Labels) → Exporter c → Exporter c → Type 0
    Accounted ev answer b b' =
        AllSound c names_of b'.registry
        × (added : List Count) × Outcome ev answer added
        × (b'.counts ≡ b.counts ++ added)
