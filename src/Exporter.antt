-- ===== src/Exporter.antt =====
-- pkg/exporter/exporter.go: an event is mapped, labelled and booked in the registry.
pub mod Merge
pub mod Totality
use statsd_bridge.Prelude.{
  ℕ, ◌+◌, Bool, true, false, not, ◌&&◌, Option, none, some, List, [], ◌∷◌, ◌++◌, ◌==◌, length,
  if◌then◌else◌, Map, lookup, insert, bytes_eq, Bytes, codes, ℤ, pos, is_zero, ◌>>=◌,
}
use statsd_bridge.Float.{Float}
use statsd_bridge.Labels
use statsd_bridge.Labels.{Labels, Ref, Heap, deref}
use statsd_bridge.Config.{
  ActionType, ObserverType, MatchType, MaybeFloat64, MapperConfigDefaults, MetricMapping,
}
use statsd_bridge.Escape.{escape_metric_name}
use statsd_bridge.Event
use statsd_bridge.Event.{
  Event, Events, CounterEvent, GaugeEvent, ObserverEvent, MultiObserverEvent, counter_event,
  gauge_event, observer_event, multi_observer_event,
}
use statsd_bridge.Metrics.{Client}
use statsd_bridge.Registry.{Registry, remove_stale_metrics}
use statsd_bridge.Registry.Getters.{Got, get_counter, get_gauge, get_histogram, get_summary}

-- the label value of EventStats and of ConflictingEventStats
pub data Stat : Type 0 where
  counter gauge observer illegal : Stat

-- One increment of a counter of the exporter.
pub data Count : Type 0 where
  -- EventsActions
  action : ActionType → Count
  -- EventsUnmapped
  unmapped : Count
  -- ErrorEventStats
  empty_metric_name : Count
  illegal_negative_counter : Count
  -- EventStats
  event : Stat → Count
  -- ConflictingEventStats
  conflicting : Stat → Bytes → Count

abbrev pub default_help : Bytes
default_help = codes "Metric autogenerated by statsd_exporter."

module _ {f : Float} (c : Client f) where
  -- The exporter with the label maps of the events; `counts` lists the increments in order.
  pub record Exporter : Type 0 where
    pub registry : Registry c
    pub heap : Heap
    pub counts : List Count

  abbrev pub count : Count → Exporter → Exporter
  count e b = record b { counts = b.counts ++ e ∷ [] }

-- One round of the loop over the labels of the mapping, from `prometheusLabels[label]`: with
-- honor_labels a label of the event stays.
unfoldable pub merge_label : Bool → Bytes → Bytes → Labels → Option Bytes → Labels
merge_label honor label value own none = insert label value own
merge_label honor label value own (some _) = if honor then own else insert label value own

unfoldable pub merge_labels : Bool → Labels → Labels → Labels
merge_labels honor [] own = own
merge_labels honor ((label, value) ∷ rest) own =
    merge_labels honor rest (merge_label honor label value own (lookup label own))

module _ {f : Float} {Regex : Type 0} where
  -- the empty mapping, with the default TTL
  unfoldable pub no_mapping : MapperConfigDefaults f → MetricMapping f Regex
  no_mapping d = record {
    match = [];
    name = [];
    name_formatter = none;
    regex = none;
    labels = [];
    honor_labels = false;
    label_keys = [];
    label_formatters = [];
    observer_type = ObserverType.unset;
    legacy_buckets = none;
    legacy_quantiles = none;
    match_type = MatchType.unset;
    help_text = [];
    action = ActionType.unset;
    match_metric_type = none;
    ttl = if is_zero d.ttl then pos 0 else d.ttl;
    summary_options = none;
    histogram_options = none;
    scale = record { set = false; val = f.zero };
  }

  unfoldable pub help_of : MetricMapping f Regex → Bytes
  help_of mapping = if length mapping.help_text == 0 then default_help else mapping.help_text

  unfoldable pub scaled : MetricMapping f Regex → f.Value → f.Value
  scaled mapping v = if mapping.scale.set then f.mul v mapping.scale.val else v

unfoldable pub observer_type_of : {f : Float} → MapperConfigDefaults f → ObserverType → ObserverType
observer_type_of d ObserverType.unset = d.observer_type
observer_type_of d t = t

unfoldable pub is_drop : ActionType → Bool
is_drop ActionType.drop = true
is_drop _ = false

-- a kind of update that follows a successful getter
abbrev pub Update : {f : Float} → Client f → Type 0
Update c = c.Metric → c.World → c.World

module _ {f : Float} (c : Client f) where
  -- the error test behind each getter
  unfoldable pub book : Stat → Bytes → Update c → Exporter c → Got c → Exporter c
  book stat name update b (r, none) = count c (conflicting stat name) (record b { registry = r })
  book stat name update b (r, some m) =
      count c (event stat) (record b { registry = record r { world = update m r.world } })

module _ {f : Float} (c : Client f) {Regex : Type 0} (d : MapperConfigDefaults f) (now : ℕ) where
  -- the case of a counter event
  unfoldable pub handle_counter :
      MetricMapping f Regex → Bytes → f.Value → CounterEvent f → Exporter c → Option (Exporter c)
  handle_counter mapping name v ev b =
      if f.lt v f.zero then some (count c illegal_negative_counter b) else do
        got ← get_counter c b.heap name ev.labels (help_of mapping) mapping now b.registry
        some (book c counter name (λ m. c.add m v) b got)

  -- the case of a gauge event
  unfoldable pub handle_gauge :
      MetricMapping f Regex → Bytes → f.Value → GaugeEvent f → Exporter c → Option (Exporter c)
  handle_gauge mapping name v ev b = do
    got ← get_gauge c b.heap name ev.labels (help_of mapping) mapping now b.registry
    some (book c gauge name (λ m. if ev.relative then c.add m v else c.set m v) b got)

  unfoldable pub observe_as :
      ObserverType
      → MetricMapping f Regex
      → Bytes
      → f.Value
      → ObserverEvent f
      → Exporter c
      → Option (Exporter c)
  observe_as ObserverType.histogram mapping name v ev b = do
    got ← get_histogram c d b.heap name ev.labels (help_of mapping) mapping now b.registry
    some (book c observer name (λ m. c.observe m v) b got)
  observe_as _ mapping name v ev b = do
    got ← get_summary c d b.heap name ev.labels (help_of mapping) mapping now b.registry
    some (book c observer name (λ m. c.observe m v) b got)

  -- the case of an observer event
  unfoldable pub handle_observer :
      MetricMapping f Regex → Bytes → f.Value → ObserverEvent f → Exporter c → Option (Exporter c)
  handle_observer mapping name v ev b =
      observe_as (observer_type_of d mapping.observer_type) mapping name v ev b

  -- the switch over the type of the event
  unfoldable pub handle_type :
      MetricMapping f Regex → Bytes → f.Value → Event f → Exporter c → Option (Exporter c)
  handle_type mapping name v (counter_event ev) b = handle_counter mapping name v ev b
  handle_type mapping name v (gauge_event ev) b = handle_gauge mapping name v ev b
  handle_type mapping name v (observer_event ev) b = handle_observer mapping name v ev b
  handle_type mapping name v (multi_observer_event ev) b = some (count c (event illegal) b)

  -- from the name on: the value is read and scaled
  unfoldable pub handle_named :
      MetricMapping f Regex → Event f → Exporter c → Bytes → Option (Exporter c)
  handle_named mapping ev b name = do
    v ← Event.value ev
    handle_type mapping name (scaled mapping v) ev b

  -- an event with a mapping, whose action is not drop
  unfoldable pub handle_mapped :
      MetricMapping f Regex → Labels → Event f → Exporter c → Option (Exporter c)
  handle_mapped mapping labels ev b =
      if length mapping.name == 0 then some (count c empty_metric_name b) else do
        name ← escape_metric_name mapping.name
        let ref = Event.labels ev
        let merged = merge_labels mapping.honor_labels labels (deref b.heap ref)
        let b' = record b { heap = Labels.store b.heap ref merged }
        handle_named mapping ev (count c (action mapping.action) b') name

  -- an event with no mapping
  unfoldable pub handle_unmapped :
      MetricMapping f Regex → Event f → Exporter c → Option (Exporter c)
  handle_unmapped mapping ev b = do
    name ← escape_metric_name (Event.metric_name ev)
    handle_named mapping ev (count c unmapped b) name

  -- handleEvent, on the mapper's answer
  unfoldable pub handle_event :
      Option (MetricMapping f Regex × Labels) → Event f → Exporter c → Option (Exporter c)
  handle_event none ev b = handle_unmapped (no_mapping d) ev b
  handle_event (some (mapping, labels)) ev b =
      if is_drop mapping.action
      then some (count c (action ActionType.drop) b)
      else handle_mapped mapping labels ev b

module _ {f : Float} (c : Client f) (Regex : Type 0) (d : MapperConfigDefaults f) where
  -- what Listen selects: a tick of the clock, or a batch of events with the mapper's answers
  pub data Input : Type 0 where
    stale_tick : Input
    batch : List (Option (MetricMapping f Regex × Labels) × Event f) → Input

  unfoldable pub handle_events :
      ℕ
      → List (Option (MetricMapping f Regex × Labels) × Event f)
      → Exporter c
      → Option (Exporter c)
  handle_events now [] b = some b
  handle_events now ((answer, ev) ∷ events) b =
      handle_event c d now answer ev b >>= handle_events now events

  -- one round of the loop of Listen, at the time `now`
  unfoldable pub listen_step : ℕ → Input → Exporter c → Option (Exporter c)
  listen_step now stale_tick b = do
    r ← remove_stale_metrics c b.heap now b.registry
    some (record b { registry = r })
  listen_step now (batch events) b = handle_events now events b
