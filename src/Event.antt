-- ===== src/Event.antt =====
-- pkg/event/event.go: the kinds of event, and the expansion of an event with several values.
pub mod Queue
use statsd_bridge.Prelude.{
  ℕ, zero, suc, ◌≡◌, Bool, true, false, ◌&&◌, Option, none, some, List, [], ◌∷◌, ◌++◌, length,
  Bytes, ◌==◌, if◌then◌else◌,
}
use statsd_bridge.Labels.{Ref, Heap, deref, alloc, copy_labels}
use statsd_bridge.Float.{Float}

-- The constants of MetricType that an event returns.
pub data MetricType : Type 0 where
  counter gauge observer : MetricType

pub record CounterEvent (f : Float) : Type 0 where
  pub metric_name : Bytes
  pub value : f.Value
  pub labels : Ref

pub record GaugeEvent (f : Float) : Type 0 where
  pub metric_name : Bytes
  pub value : f.Value
  pub relative : Bool
  pub labels : Ref

pub record ObserverEvent (f : Float) : Type 0 where
  pub metric_name : Bytes
  pub value : f.Value
  pub labels : Ref

pub record MultiObserverEvent (f : Float) : Type 0 where
  pub metric_name : Bytes
  pub values : List f.Value
  pub labels : Ref
  pub sample_rate : f.Value

-- The interface Event, by its implementations.
pub data Event (f : Float) : Type 0 where
  counter_event : CounterEvent f → Event f
  gauge_event : GaugeEvent f → Event f
  observer_event : ObserverEvent f → Event f
  multi_observer_event : MultiObserverEvent f → Event f

abbrev pub Events : Float → Type 0
Events f = List (Event f)

unfoldable pub metric_name : {f : Float} → Event f → Bytes
metric_name (counter_event e) = e.metric_name
metric_name (gauge_event e) = e.metric_name
metric_name (observer_event e) = e.metric_name
metric_name (multi_observer_event e) = e.metric_name

first_value {ℓ} : {A : Type ℓ} → List A → Option A
first_value [] = none
first_value (v ∷ vs) = some v

-- Value(); `none` is the panic at an event with no values.
unfoldable pub value : {f : Float} → Event f → Option f.Value
unfolding first_value
value (counter_event e) = some e.value
value (gauge_event e) = some e.value
value (observer_event e) = some e.value
value (multi_observer_event e) = first_value e.values

unfoldable pub values : {f : Float} → Event f → List f.Value
values (counter_event e) = e.value ∷ []
values (gauge_event e) = e.value ∷ []
values (observer_event e) = e.value ∷ []
values (multi_observer_event e) = e.values

unfoldable pub labels : {f : Float} → Event f → Ref
labels (counter_event e) = e.labels
labels (gauge_event e) = e.labels
labels (observer_event e) = e.labels
labels (multi_observer_event e) = e.labels

unfoldable pub metric_type : {f : Float} → Event f → MetricType
metric_type (counter_event e) = counter
metric_type (gauge_event e) = gauge
metric_type (observer_event e) = observer
metric_type (multi_observer_event e) = observer

module _ (f : Float) where
  -- one observer event with a fresh copy of the labels
  unfoldable pub fresh_event : Heap → Bytes → f.Value → Ref → Heap × ObserverEvent f
  fresh_event h name v r =
      let (h', r') = alloc h (copy_labels (deref h r)) in
      (h', record { metric_name = name; value = v; labels = r' })

  -- the loop over m.OValues
  unfoldable pub expand_values : Heap → Bytes → Ref → List f.Value → Heap × List (ObserverEvent f)
  expand_values h name r [] = (h, [])
  expand_values h name r (v ∷ vs) =
      let (h', e) = fresh_event h name v r in
      let (h'', es) = expand_values h' name r vs in (h'', e ∷ es)

  -- the inner loop of the multiplication
  unfoldable pub copy_events : Heap → List (ObserverEvent f) → Heap × List (ObserverEvent f)
  copy_events h [] = (h, [])
  copy_events h (e ∷ es) =
      let (h', e') = fresh_event h e.metric_name e.value e.labels in
      let (h'', es') = copy_events h' es in (h'', e' ∷ es')

  -- the outer loop of the multiplication, by the rounds left
  unfoldable pub multiply : ℕ → Heap → List (ObserverEvent f) → Heap × List (ObserverEvent f)
  multiply zero h es = (h, [])
  multiply (suc n) h es =
      let (h', now) = copy_events h es in let (h'', later) = multiply n h' es in (h'', now ++ later)

  is_single : List f.Value → Bool
  is_single vs = length vs == 1

  -- Expand
  unfoldable pub expand : Heap → MultiObserverEvent f → Heap × List (ObserverEvent f)
  unfolding is_single
  expand h m =
      if is_single m.values && f.eq m.sample_rate f.zero
      then expand_values h m.metric_name m.labels m.values
      else let (h', es) = expand_values h m.metric_name m.labels m.values in
        if f.lt f.zero m.sample_rate && f.lt m.sample_rate f.one
        then multiply (f.rounds (f.div f.one m.sample_rate)) h' es
        else (h', es)
