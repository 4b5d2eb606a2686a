-- ===== src/Line/Parse/Returns.antt =====
-- LineToEvents on a whole line, and SignalFx brackets in the wrong order.
use statsd_bridge.Prelude.{
  ◌≡◌, refl, inl, inr, Bool, true, false, not, ◌&&◌, ◌||◌, ◌==◌, List, [], ◌∷◌, ◌++◌, Option, none,
  some, arith, Bool-cases, length, All, Bytes, Returns, Returns-bind, Returns-mono, Returns-elim,
  split, cut, codes, IfReturns, map, contains, contains_byte,
}
use mathlib.Core.Path.{subst}
use statsd_bridge.Prelude.Utf8.{valid_string, valid_from}
use statsd_bridge.Prelude.Utf8.Parts.{IsUtf8, IsUtf8-parts, IsUtf8-join, split-IsUtf8, cut-eq}
use statsd_bridge.Float.{Float}
use statsd_bridge.Labels.{Ref}
use statsd_bridge.Line.Tags.{Parser, Named, index_byte, parse_name_and_tags}
use statsd_bridge.Line.Tags.Brackets.{Misordered}
use statsd_bridge.Line.Tags.Returns.{
  NameIsUtf8, Misbracketed, parse_name_and_tags-Returns, parse_name_and_tags_panics,
}
use statsd_bridge.Line.Sample.{Parsed, sample_to_events}
use statsd_bridge.Line.Sample.Returns.{Adds, added_nothing, Adds-trans, sample_to_events-Returns}
use statsd_bridge.Line.Parse.{
  is_aggregate_type, type_part, samples_to_events, samples_of, from_samples, from_parts, from_name,
  from_elements, line_to_events,
}

module _ (f : Float) (p : Parser) (ref : Ref) where
  samples_to_events-Returns :
      (metric : Bytes) (samples : List Bytes) (st : Parsed f)
      → All IsUtf8 samples
      → Returns (Adds f metric ref st) (samples_to_events f p metric ref samples st)
  unfolding samples_to_events
  samples_to_events-Returns metric [] st u = added_nothing f metric ref st.events
  samples_to_events-Returns metric (s ∷ samples) st u =
      Returns-bind (Adds f metric ref st) (Adds f metric ref st)
        (sample_to_events f p metric ref s st) _
        (λ st' a.
          Returns-mono (Adds f metric ref st') (Adds f metric ref st)
            (samples_to_events f p metric ref samples st')
            (λ st'' b. Adds-trans f metric ref st st' st'' a b)
            (samples_to_events-Returns metric samples st' u.1))
        (sample_to_events-Returns f p metric ref s st u.0)

  joined-IsUtf8 :
      (suffix : Bytes) (values : List Bytes)
      → IsUtf8 suffix
      → All IsUtf8 values
      → All IsUtf8 (map (λ v. v ++ b'|' ∷ suffix) values)
  joined-IsUtf8 suffix [] u vs = tt
  joined-IsUtf8 suffix (v ∷ values) u vs =
      (IsUtf8-join v b'|' suffix (omega arith) vs.0 u, joined-IsUtf8 suffix values u vs.1)

  samples_of-IsUtf8 :
      (text values suffix : Bytes) (dogstatsd : Bool)
      → IsUtf8 text
      → IsUtf8 values
      → IsUtf8 suffix
      → IfReturns (All IsUtf8) (samples_of f text dogstatsd values suffix)
  unfolding samples_of
  samples_of-IsUtf8 text values suffix dogstatsd u v w =
      elim (Bool-cases (contains_byte b':' values)) [
        | inl several ↦
            rw several (elim (Bool-cases (is_aggregate_type (type_part (cut b'|' suffix) suffix))) [
              | inl aggregate ↦ rw aggregate (
                  joined-IsUtf8 suffix (split b':' values) w
                    (split-IsUtf8 b':' values (omega arith) v))
              | inr other ↦ rw other tt
            ])
        | inr one ↦ rw one (elim (Bool-cases dogstatsd) [
          | inl on ↦ rw on (u, tt)
          | inr off ↦ rw off (split-IsUtf8 b':' text (omega arith) u)
        ])
      ]

  from_samples-Returns :
      (metric : Bytes) (o : Option (List Bytes)) (st : Parsed f)
      → IfReturns (All IsUtf8) o
      → Returns (Adds f metric ref st) (from_samples f p metric ref o st)
  unfolding from_samples
  from_samples-Returns metric none st u = added_nothing f metric ref st.events
  from_samples-Returns metric (some samples) st u = samples_to_events-Returns metric samples st u

  from_parts-Returns :
      (metric text : Bytes) (dogstatsd : Bool) (o : Option (Bytes × Bytes)) (st : Parsed f)
      → cut b'|' text ≡ o
      → IsUtf8 text
      → Returns (Adds f metric ref st) (from_parts f p metric ref text dogstatsd o st)
  unfolding from_parts
  from_parts-Returns metric text dogstatsd none st e u = added_nothing f metric ref st.events
  from_parts-Returns metric text dogstatsd (some (values, suffix)) st e u =
      let (v, w) =
        IsUtf8-parts values b'|' suffix (omega arith)
          (subst IsUtf8 (cut-eq b'|' text values suffix e) u) in
      from_samples-Returns metric (samples_of f text dogstatsd values suffix) st
        (samples_of-IsUtf8 text values suffix dogstatsd u v w)

  -- The state after a line: its new events belong to one valid metric name.
  abbrev pub AddsLine : Parsed f → Parsed f → Type 0
  AddsLine st st' = (metric : Bytes) × IsUtf8 metric × Adds f metric ref st st'

  from_name-Returns :
      (text : Bytes) (st : Parsed f) (n : Named)
      → IsUtf8 text
      → IsUtf8 n.0
      → Returns (AddsLine st) (from_name f p ref text st n)
  unfolding from_name
  from_name-Returns text st (metric, tagged) u v =
      let dogstatsd = contains text (codes "|#") in
      elim (Bool-cases (dogstatsd && not (length tagged.labels == 0))) [
        | inl mixed ↦ rw mixed (metric, v, added_nothing f metric ref st.events)
        | inr fine ↦ rw fine (
            Returns-mono (Adds f metric ref (record st { tagged = tagged })) (AddsLine st) _
              (λ st' a. (metric, v, a))
              (from_parts-Returns metric text dogstatsd (cut b'|' text)
                (record st { tagged = tagged }) refl u))
      ]

  -- What stands before the first colon of a line.
  abbrev pub HasMisbracketedName : Option (Bytes × Bytes) → Type 0
  HasMisbracketedName none = ⊥
  HasMisbracketedName (some (name, text)) = Misbracketed p name

  from_elements-Returns :
      (line : Bytes) (o : Option (Bytes × Bytes)) (st : Parsed f)
      → cut b':' line ≡ o
      → ¬ HasMisbracketedName o
      → Returns (AddsLine st) (from_elements f p ref line o st)
  unfolding from_elements
  from_elements-Returns line none st e h =
      ([], unfold valid_from in refl, added_nothing f [] ref st.events)
  from_elements-Returns line (some (name, text)) st e h =
      elim (Bool-cases (length name == 0 || not (valid_string line))) [
        | inl bad ↦ rw bad ([], unfold valid_from in refl, added_nothing f [] ref st.events)
        | inr fine ↦
            let u : IsUtf8 line = ground arith in
            let (v, w) =
              IsUtf8-parts name b':' text (omega arith)
                (subst IsUtf8 (cut-eq b':' line name text e) u) in
            rw fine (
              Returns-bind NameIsUtf8 (AddsLine st) (parse_name_and_tags p name st.tagged) _
                (λ n x. from_name-Returns text st n w x)
                (parse_name_and_tags-Returns p name st.tagged v h))
      ]

  -- LineToEvents returns on every line, valid UTF-8 or not: it never panics, unless SignalFX parsing
  -- is on and in the part before the first colon the first ] stands before the first [. The events
  -- that it adds all have one and the same valid UTF-8 name, a value, and the line's label map.
  pub line_to_events-Returns :
      (line : Bytes) (st : Parsed f)
      → ¬ HasMisbracketedName (cut b':' line)
      → (st' : Parsed f) × (line_to_events f p ref line st ≡ some st') × AddsLine st st'
  unfolding line_to_events
  line_to_events-Returns line st h = elim (Bool-cases (length line == 0)) [
    | inl nothing ↦
        (st, rw nothing refl, ([], unfold valid_from in refl, added_nothing f [] ref st.events))
    | inr something ↦
        let (st', e, a) =
          Returns-elim (AddsLine st) (from_elements f p ref line (cut b':' line) st)
            (from_elements-Returns line (cut b':' line) st refl h) in
        (st', rw something e, a)
  ]

  from_elements_panics :
      (line : Bytes) (o : Option (Bytes × Bytes)) (st : Parsed f)
      → IsUtf8 line
      → HasMisbracketedName o
      → from_elements f p ref line o st ≡ none
  unfolding from_elements
  from_elements_panics line none st u h = absurd h
  from_elements_panics line (some (name, text)) st u (on, m) =
      let named : (length name == 0) ≡ false = not_empty name m in
      rw (named, u, parse_name_and_tags_panics p name st.tagged (on, m))
    where
      not_empty :
          (name : Bytes)
          → Misordered (index_byte b'[' name) (index_byte b']' name)
          → (length name == 0) ≡ false
      not_empty [] m = absurd (unfold index_byte in m)
      not_empty (c ∷ name) m = ground arith

  -- With SignalFX parsing on, LineToEvents panics on every valid UTF-8 line in which, before the
  -- first colon, the first ] stands before the first [.
  pub line_to_events_panics :
      (line : Bytes) (st : Parsed f)
      → IsUtf8 line
      → HasMisbracketedName (cut b':' line)
      → line_to_events f p ref line st ≡ none
  unfolding line_to_events
  line_to_events_panics line st u h = elim (Bool-cases (length line == 0)) [
    | inl nothing ↦ absurd (colon line nothing h)
    | inr something ↦ rw something (from_elements_panics line (cut b':' line) st u h)
  ]
    where
      colon : (line : Bytes) → (length line == 0) ≡ true → HasMisbracketedName (cut b':' line) → ⊥
      colon [] e h = unfold cut in h
      colon (c ∷ line) e h = ground arith
