-- ===== src/Line/Sample/Returns.antt =====
-- The loop body of LineToEvents on one sample of valid UTF-8.
use statsd_bridge.Prelude.{
  ℕ, zero, suc, ◌+◌, ◌≡◌, refl, sym, ◌∙◌, inl, inr, Bool, false, ◌||◌, ◌==◌, List, [], ◌∷◌, ◌++◌,
  append_assoc, append-nil, Option, none, some, arith, Bool-cases, length, All, All-append, Bytes,
  ltb, Returns, Returns-bind, Returns-mono, split, bytes_beq, codes, IfReturns,
}
use statsd_bridge.Prelude.Utf8.Parts.{IsUtf8, IsUtf8-parts, split-IsUtf8}
use statsd_bridge.Float.{Float}
use statsd_bridge.Labels.{Ref}
use statsd_bridge.Event
use statsd_bridge.Event.{Event, Events, counter_event, gauge_event, observer_event}
use statsd_bridge.Line.Tags.{Parser, parse_dogstatsd_tags}
use statsd_bridge.Line.Tags.Returns.{Done, parse_dogstatsd_tags-Returns}
use statsd_bridge.Line.Sample.{
  Parsed, Scaled, build_event, component, components, any_empty, add_event, add_events,
  finish_sample, typed_sample, by_components, sample_to_events, sampling_factor, count_tags,
  is_relative,
}

module _ (f : Float) (metric : Bytes) (ref : Ref) where
  -- An event of the metric, with a value and the line's label map.
  abbrev pub IsFit : Event f → Type 0
  IsFit ev =
      (Event.metric_name ev ≡ metric)
      × (Event.labels ev ≡ ref)
      × (v : f.Value) × (Event.value ev ≡ some v)

  -- The state after it has the events of before and then fit ones.
  abbrev pub Adds : Parsed f → Parsed f → Type 0
  Adds st st' = (added : Events f) × (st'.events ≡ st.events ++ added) × All IsFit added

  pub added_nothing :
      (events : Events f) → (added : Events f) × (events ≡ events ++ added) × All IsFit added
  added_nothing events = ([], sym (append-nil events), tt)

  pub Adds-none : (st st' : Parsed f) → st'.events ≡ st.events → Adds st st'
  Adds-none st st' e = ([], e ∙ sym (append-nil st.events), tt)

  pub Adds-trans : (a b c : Parsed f) → Adds a b → Adds b c → Adds a c
  Adds-trans a b c (xs, ex, px) (ys, ey, py) =
      (xs ++ ys, rw (ey, ex) (append_assoc a.events xs ys), All-append IsFit xs ys px py)

  build_event-IsFit :
      (stat_type : Bytes) (value : f.Value) (relative : Bool)
      → IfReturns IsFit (build_event f stat_type metric value relative ref)
  unfolding build_event Event.metric_name Event.labels Event.value
  build_event-IsFit stat_type value relative = elim (Bool-cases (bytes_beq stat_type (codes "c"))) [
    | inl h ↦ rw h (refl, refl, value, refl)
    | inr h1 ↦ rw h1 (elim (Bool-cases (bytes_beq stat_type (codes "g"))) [
      | inl h ↦ rw h (refl, refl, value, refl)
      | inr h2 ↦ rw h2 (elim (Bool-cases (bytes_beq stat_type (codes "ms"))) [
        | inl h ↦ rw h (refl, refl, f.div value f.thousand, refl)
        | inr h3 ↦
            rw h3
              (elim (Bool-cases
                (bytes_beq stat_type (codes "h") || bytes_beq stat_type (codes "d"))) [
                  | inl h ↦ rw h (refl, refl, value, refl)
                  | inr h4 ↦ rw h4 tt
                ])
      ])
    ])
  ]

  add_event-Adds :
      (o : Option (Event f)) (st : Parsed f) → IfReturns IsFit o → Adds st (add_event f o st)
  unfolding add_event
  add_event-Adds none st h = added_nothing st.events
  add_event-Adds (some e) st h = (e ∷ [], refl, (h, tt))

  add_events-Adds :
      (n : ℕ) (o : Option (Event f)) (st : Parsed f)
      → IfReturns IsFit o
      → Adds st (add_events f n o st)
  unfolding add_events
  add_events-Adds zero o st h = Adds-none st st refl
  add_events-Adds (suc n) o st h =
      Adds-trans st (add_event f o st) (add_events f n o (add_event f o st)) (add_event-Adds o st h)
        (add_events-Adds n o (add_event f o st) h)

  events-count_tags : (st : Parsed f) → (count_tags f st).events ≡ st.events
  unfolding count_tags
  events-count_tags st = ground arith

  finish_sample-Adds :
      (stat_type : Bytes) (relative : Bool) (v : Scaled f) (st : Parsed f)
      → Adds st (finish_sample f stat_type metric relative ref (v, st))
  unfolding finish_sample
  finish_sample-Adds stat_type relative v st =
      Adds-trans st (count_tags f st)
        (add_events f v.multiply_events (build_event f stat_type metric v.value relative ref)
          (count_tags f st))
        (Adds-none st (count_tags f st) (events-count_tags st))
        (add_events-Adds v.multiply_events (build_event f stat_type metric v.value relative ref)
          (count_tags f st) (build_event-IsFit stat_type v.value relative))

module _ (f : Float) where
  abbrev Keeps : Parsed f → Scaled f × Parsed f → Type 0
  Keeps st s = s.1.events ≡ st.events

  events-sampling_factor :
      (stat_type factor : Bytes) (v : Scaled f) (st : Parsed f)
      → Keeps st (sampling_factor f stat_type factor (v, st))
  unfolding sampling_factor
  events-sampling_factor stat_type factor v st = ground arith

  component-Returns :
      (p : Parser) (stat_type c : Bytes) (v : Scaled f) (st : Parsed f)
      → (length c == 0) ≡ false
      → IsUtf8 c
      → Returns (Keeps st) (component f p stat_type c (v, st))
  unfolding component
  component-Returns p stat_type [] v st h u = absurd (ground arith)
  component-Returns p stat_type (b ∷ rest) v st h u = elim (Bool-cases (b == b'@')) [
    | inl at ↦ rw at (events-sampling_factor stat_type rest v st)
    | inr h1 ↦ rw h1 (elim (Bool-cases (b == b'#')) [
      | inl tags ↦ rw tags (
          Returns-bind Done (Keeps st) (parse_dogstatsd_tags p rest st.tagged) _ (λ t _. refl)
            (parse_dogstatsd_tags-Returns p rest st.tagged
              (IsUtf8-parts [] b rest (ground arith) u).1))
      | inr h2 ↦ rw h2 refl
    ])
  ]

  components-Returns :
      (p : Parser) (stat_type : Bytes) (cs : List Bytes) (v : Scaled f) (st : Parsed f)
      → any_empty f cs ≡ false
      → All IsUtf8 cs
      → Returns (Keeps st) (components f p stat_type cs (v, st))
  unfolding components any_empty
  components-Returns p stat_type [] v st h u = refl
  components-Returns p stat_type (c ∷ cs) v st h u =
      Returns-bind (Keeps st) (Keeps st) (component f p stat_type c (v, st)) _
        (λ s e.
          Returns-mono (Keeps s.1) (Keeps st) _ (λ s' e'. e' ∙ e)
            (components-Returns p stat_type cs s.0 s.1 (ground arith) u.1))
        (component-Returns p stat_type c v st (ground arith) u.0)

module _ (f : Float) (p : Parser) (metric : Bytes) (ref : Ref) where
  typed_sample-Returns :
      (value_str stat_type : Bytes) (rest : List Bytes) (st : Parsed f)
      → All IsUtf8 rest
      → Returns (Adds f metric ref st) (typed_sample f p metric ref value_str stat_type rest st)
  unfolding typed_sample
  typed_sample-Returns value_str stat_type rest st u = elim (Bool-cases (f.parse value_str).1) [
    | inr bad ↦ rw bad (added_nothing f metric ref st.events)
    | inl fine ↦ rw fine (elim (Bool-cases (any_empty f rest)) [
      | inl gap ↦ rw gap (added_nothing f metric ref st.events)
      | inr full ↦ rw full (
          Returns-bind (Keeps f st) (Adds f metric ref st)
            (components f p stat_type rest (start_at value_str, st))
            (λ s. some (finish_sample f stat_type metric (is_relative f value_str) ref s))
            (λ s e.
              Adds-trans f metric ref st s.1
                (finish_sample f stat_type metric (is_relative f value_str) ref s)
                (Adds-none f metric ref st s.1 e)
                (finish_sample-Adds f metric ref stat_type (is_relative f value_str) s.0 s.1))
            (components-Returns f p stat_type rest (start_at value_str) st full u))
    ])
  ]
    where
      start_at : Bytes → Scaled f
      start_at s = record { value = (f.parse s).0; multiply_events = 1 }

  by_components-Returns :
      (parts : List Bytes) (st : Parsed f)
      → All IsUtf8 parts
      → Returns (Adds f metric ref st) (by_components f p metric ref parts st)
  unfolding by_components
  by_components-Returns [] st u = added_nothing f metric ref st.events
  by_components-Returns (value_str ∷ []) st u = added_nothing f metric ref st.events
  by_components-Returns (value_str ∷ stat_type ∷ rest) st u =
      elim (Bool-cases (ltb 2 (length rest))) [
        | inl long ↦ rw long (added_nothing f metric ref st.events)
        | inr fine ↦ rw fine (typed_sample-Returns value_str stat_type rest st u.1.1)
      ]

  pub sample_to_events-Returns :
      (sample : Bytes) (st : Parsed f)
      → IsUtf8 sample
      → Returns (Adds f metric ref st) (sample_to_events f p metric ref sample st)
  unfolding sample_to_events
  sample_to_events-Returns sample st u =
      by_components-Returns (split b'|' sample)
        (record st { samples_received = st.samples_received + 1 })
        (split-IsUtf8 b'|' sample (omega arith) u)
