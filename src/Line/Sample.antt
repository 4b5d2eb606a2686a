-- ===== src/Line/Sample.antt =====
-- One sample of a line: its value, its sampling factor, its tags, and the events that it makes.
pub mod Returns
use statsd_bridge.Prelude.{
  ℕ, zero, suc, ◌+◌, Bool, false, not, ◌||◌, Option, none, some, List, [], ◌∷◌, ◌++◌, ltb, ◌==◌,
  length, if◌then◌else◌, Bytes, codes, bytes_beq, split, ◌>>=◌,
}
use statsd_bridge.Float.{Float}
use statsd_bridge.Labels.{Ref}
use statsd_bridge.Event.{Event, Events, counter_event, gauge_event, observer_event}
use statsd_bridge.Line.Tags.{Parser, Tagged, parse_dogstatsd_tags}

-- the label values of sampleErrors
pub data SampleError : Type 0 where
  malformed_line mixed_tagging_styles not_enough_parts_after_colon : SampleError
  invalid_extended_aggregate_type malformed_component malformed_value : SampleError
  invalid_sample_factor illegal_event : SampleError

module _ (f : Float) where
  -- The line's labels, the counters and the events so far. `sample_errors` lists the increments.
  pub record Parsed : Type 0 where
    pub tagged : Tagged
    pub sample_errors : List SampleError
    pub samples_received : ℕ
    pub tags_received : ℕ
    pub events : Events f

  abbrev pub sample_error : SampleError → Parsed → Parsed
  sample_error e st = record st { sample_errors = st.sample_errors ++ e ∷ [] }

  -- buildEvent; `none` is an error
  unfoldable pub build_event : Bytes → Bytes → f.Value → Bool → Ref → Option (Event f)
  build_event stat_type metric value relative labels =
      if bytes_beq stat_type (codes "c")
      then some (counter_event (record { metric_name = metric; value = value; labels = labels }))
      else if bytes_beq stat_type (codes "g")
      then some (
          gauge_event
            (record { metric_name = metric; value = value; relative = relative; labels = labels }))
      else if bytes_beq stat_type (codes "ms")
      then some (
          observer_event
            (record { metric_name = metric; value = f.div value f.thousand; labels = labels }))
      else if bytes_beq stat_type (codes "h") || bytes_beq stat_type (codes "d")
      then some (observer_event (record { metric_name = metric; value = value; labels = labels }))
      else none

  -- the variables of one sample: its value and the number of its events
  pub record Scaled : Type 0 where
    pub value : f.Value
    pub multiply_events : ℕ

  is_observer_type : Bytes → Bool
  is_observer_type t =
      bytes_beq t (codes "ms") || bytes_beq t (codes "h") || bytes_beq t (codes "d")

  -- the component behind an @
  unfoldable pub sampling_factor : Bytes → Bytes → Scaled × Parsed → Scaled × Parsed
  unfolding is_observer_type
  sampling_factor stat_type factor (v, st) =
      let (parsed, fine) = f.parse factor in
      let st' = if fine then st else sample_error invalid_sample_factor st in
      let by = if f.eq parsed f.zero then f.one else parsed in
      if bytes_beq stat_type (codes "g")
      then (v, st')
      else if bytes_beq stat_type (codes "c")
      then (record v { value = f.div v.value by }, st')
      else if is_observer_type stat_type
      then (record v { multiply_events = f.rounds (f.div f.one by) }, st')
      else (v, st')

  with_tags : Scaled → Parsed → Tagged → Scaled × Parsed
  with_tags v st t = (v, record st { tagged = t })

  -- one component behind the type; none of them is empty here
  unfoldable pub component : Parser → Bytes → Bytes → Scaled × Parsed → Option (Scaled × Parsed)
  unfolding sampling_factor with_tags
  component p stat_type [] s = none
  component p stat_type (c ∷ rest) (v, st) =
      if c == b'@'
      then some (sampling_factor stat_type rest (v, st))
      else if c == b'#'
      then (parse_dogstatsd_tags p rest st.tagged >>= λ t. some (with_tags v st t))
      else some (v, sample_error invalid_sample_factor st)

  unfoldable pub components :
      Parser → Bytes → List Bytes → Scaled × Parsed → Option (Scaled × Parsed)
  components p stat_type [] s = some s
  components p stat_type (c ∷ cs) s = component p stat_type c s >>= components p stat_type cs

  any_empty : List Bytes → Bool
  any_empty [] = false
  any_empty (c ∷ cs) = length c == 0 || any_empty cs

  add_event : Option (Event f) → Parsed → Parsed
  add_event none st = sample_error illegal_event st
  add_event (some e) st = record st { events = st.events ++ e ∷ [] }

  -- the last loop, by the rounds left
  unfoldable pub add_events : ℕ → Option (Event f) → Parsed → Parsed
  unfolding add_event
  add_events zero e st = st
  add_events (suc n) e st = add_events n e (add_event e st)

  count_tags : Parsed → Parsed
  count_tags st =
      if length st.tagged.labels == 0
      then st
      else record st { tags_received = st.tags_received + 1 }

  finish_sample : Bytes → Bytes → Bool → Ref → Scaled × Parsed → Parsed
  unfolding add_events count_tags
  finish_sample stat_type metric relative ref (v, st) =
      add_events v.multiply_events (build_event stat_type metric v.value relative ref)
        (count_tags st)

  is_relative : Bytes → Bool
  is_relative [] = false
  is_relative (c ∷ s) = c == b'+' || c == b'-'

  typed_sample : Parser → Bytes → Ref → Bytes → Bytes → List Bytes → Parsed → Option Parsed
  unfolding any_empty finish_sample is_relative components component build_event
  typed_sample p metric ref value_str stat_type rest st =
      let (value, fine) = f.parse value_str in
      if not fine
      then some (sample_error malformed_value st)
      else if any_empty rest
      then some (sample_error malformed_component st)
      else do
        s ← components p stat_type rest (record { value = value; multiply_events = 1 }, st)
        some (finish_sample stat_type metric (is_relative value_str) ref s)

  by_components : Parser → Bytes → Ref → List Bytes → Parsed → Option Parsed
  unfolding typed_sample
  by_components p metric ref (value_str ∷ stat_type ∷ rest) st =
      if ltb 2 (length rest)
      then some (sample_error malformed_component st)
      else typed_sample p metric ref value_str stat_type rest st
  by_components p metric ref (value_str ∷ []) st = some (sample_error malformed_component st)
  by_components p metric ref [] st = some (sample_error malformed_component st)

  -- the body of the loop over the samples
  unfoldable pub sample_to_events : Parser → Bytes → Ref → Bytes → Parsed → Option Parsed
  unfolding by_components split
  sample_to_events p metric ref sample st =
      by_components p metric ref (split b'|' sample)
        (record st { samples_received = st.samples_received + 1 })
