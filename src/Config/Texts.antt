-- ===== src/Config/Texts.antt =====
-- The texts of match types, actions, observer types and metric types, against UnmarshalYAML.
use statsd_bridge.Prelude.{
  ◌≡◌, refl, sym, ap, ◌∙◌, ◌⊎◌, inl, inr, Option, none, some, List, [], ◌∷◌, Bytes, codes,
  bytes_beq, bytes_beq_iff, Bool-cases, arith,
}
use mathlib.Core.Option.{some-injective}
use statsd_bridge.Event.{MetricType, counter, gauge, observer}
use statsd_bridge.Config.{MatchType, ActionType, ObserverType}
use statsd_bridge.Config.Decode.{
  match_type_text, action_type_text, observer_type_text, timer_text, case_of, decode_match_type,
  decode_action_type, decode_observer_type, decode_metric_type, match_type_cases, action_type_cases,
  observer_type_cases, metric_type_cases,
}
use statsd_bridge.Mapper.{type_name}
use statsd_bridge.Mapper.Init.{with_match_type, with_action, with_observer_type}

-- the texts that a decoder takes for a value
abbrev IsCase : {A : Type 0} → List (Bytes × A) → Bytes → A → Type 0
IsCase [] v a = ⊥
IsCase ((text, b) ∷ cases) v a = ((v ≡ text) × (a ≡ b)) ⊎ IsCase cases v a

case_of-IsCase :
    {A : Type 0} (cases : List (Bytes × A)) (v : Bytes) (a : A)
    → case_of cases v ≡ some a
    → IsCase cases v a
unfolding case_of
case_of-IsCase [] v a e = absurd (ground arith)
case_of-IsCase ((text, b) ∷ cases) v a e = elim (Bool-cases (bytes_beq v text)) [
  | inl same ↦ inl ((bytes_beq_iff v text).0 same, some-injective a b (sym (rw same at e)))
  | inr other ↦ inr (case_of-IsCase cases v a (rw other at e))
]

-- What a decoder makes of the text `v`: a value with that text, or `default` for the text `other`; and
-- an error only where no value has the text.
abbrev pub IsDecoded : {A : Type 0} → (A → Bytes) → A → Bytes → Bytes → Option A → Type 0
IsDecoded {A = A} text default other v none = (a : A) → ¬ (v ≡ text a)
IsDecoded text default other v (some a) = (v ≡ text a) ⊎ ((v ≡ other) × (a ≡ default))

IsDecoded-cases :
    {A : Type 0} (text : A → Bytes) (default : A) (other v : Bytes) (decode : Bytes → Option A)
    → ((a : A) → decode v ≡ some a → (v ≡ text a) ⊎ ((v ≡ other) × (a ≡ default)))
    → ((a : A) → ¬ (decode (text a) ≡ none))
    → IsDecoded text default other v (decode v)
IsDecoded-cases text default other v decode h known =
    elim (decode v) as (λ o. decode v ≡ o → IsDecoded text default other v o) [
      | none ↦ λ e a same. known a (ap decode (sym same) ∙ e)
      | some a ↦ λ e. h a e
    ]
      refl

match_type_for :
    (v : Bytes) (a : MatchType)
    → IsCase match_type_cases v a
    → (v ≡ match_type_text a) ⊎ ((v ≡ []) × (a ≡ MatchType.glob))
match_type_for v a (inl (e, e')) = inl (e ∙ ap match_type_text (sym e'))
match_type_for v a (inr (inl (e, e'))) = inl (e ∙ ap match_type_text (sym e'))
match_type_for v a (inr (inr (inl same))) = inr same
match_type_for v a (inr (inr (inr gone))) = absurd gone

decode_match_type-known : (a : MatchType) → ¬ (decode_match_type (some (match_type_text a)) ≡ none)
unfolding decode_match_type case_of bytes_beq
decode_match_type-known MatchType.unset e = ground arith
decode_match_type-known MatchType.glob e = ground arith
decode_match_type-known MatchType.regex e = ground arith

decode_match_type-IsDecoded :
    (v : Bytes) → IsDecoded match_type_text MatchType.glob [] v (decode_match_type (some v))
unfolding decode_match_type
decode_match_type-IsDecoded v =
    IsDecoded-cases match_type_text MatchType.glob [] v (case_of match_type_cases)
      (λ a e. match_type_for v a (case_of-IsCase match_type_cases v a e)) decode_match_type-known

action_type_for :
    (v : Bytes) (a : ActionType)
    → IsCase action_type_cases v a
    → (v ≡ action_type_text a) ⊎ ((v ≡ []) × (a ≡ ActionType.map))
action_type_for v a (inl (e, e')) = inl (e ∙ ap action_type_text (sym e'))
action_type_for v a (inr (inl (e, e'))) = inl (e ∙ ap action_type_text (sym e'))
action_type_for v a (inr (inr (inl same))) = inr same
action_type_for v a (inr (inr (inr gone))) = absurd gone

decode_action_type-known :
    (a : ActionType) → ¬ (decode_action_type (some (action_type_text a)) ≡ none)
unfolding decode_action_type case_of bytes_beq
decode_action_type-known ActionType.unset e = ground arith
decode_action_type-known ActionType.map e = ground arith
decode_action_type-known ActionType.drop e = ground arith

decode_action_type-IsDecoded :
    (v : Bytes) → IsDecoded action_type_text ActionType.map [] v (decode_action_type (some v))
unfolding decode_action_type
decode_action_type-IsDecoded v =
    IsDecoded-cases action_type_text ActionType.map [] v (case_of action_type_cases)
      (λ a e. action_type_for v a (case_of-IsCase action_type_cases v a e)) decode_action_type-known

observer_type_for :
    (v : Bytes) (a : ObserverType)
    → IsCase observer_type_cases v a
    → (v ≡ observer_type_text a) ⊎ ((v ≡ []) × (a ≡ ObserverType.summary))
observer_type_for v a (inl (e, e')) = inl (e ∙ ap observer_type_text (sym e'))
observer_type_for v a (inr (inl (e, e'))) = inl (e ∙ ap observer_type_text (sym e'))
observer_type_for v a (inr (inr (inl same))) = inr same
observer_type_for v a (inr (inr (inr gone))) = absurd gone

decode_observer_type-known :
    (a : ObserverType) → ¬ (decode_observer_type (some (observer_type_text a)) ≡ none)
unfolding decode_observer_type case_of bytes_beq
decode_observer_type-known ObserverType.unset e = ground arith
decode_observer_type-known ObserverType.histogram e = ground arith
decode_observer_type-known ObserverType.summary e = ground arith

decode_observer_type-IsDecoded :
    (v : Bytes)
    → IsDecoded observer_type_text ObserverType.summary [] v (decode_observer_type (some v))
unfolding decode_observer_type
decode_observer_type-IsDecoded v =
    IsDecoded-cases observer_type_text ObserverType.summary [] v (case_of observer_type_cases)
      (λ a e. observer_type_for v a (case_of-IsCase observer_type_cases v a e))
      decode_observer_type-known

metric_type_for :
    (v : Bytes) (a : MetricType)
    → IsCase metric_type_cases v a
    → (v ≡ type_name a) ⊎ ((v ≡ timer_text) × (a ≡ observer))
unfolding type_name
metric_type_for v a (inl (e, e')) = inl (e ∙ ap type_name (sym e'))
metric_type_for v a (inr (inl (e, e'))) = inl (e ∙ ap type_name (sym e'))
metric_type_for v a (inr (inr (inl (e, e')))) = inl (e ∙ ap type_name (sym e'))
metric_type_for v a (inr (inr (inr (inl same)))) = inr same
metric_type_for v a (inr (inr (inr (inr gone)))) = absurd gone

decode_metric_type-known : (a : MetricType) → ¬ (decode_metric_type (some (type_name a)) ≡ none)
unfolding decode_metric_type case_of bytes_beq type_name
decode_metric_type-known counter e = ground arith
decode_metric_type-known gauge e = ground arith
decode_metric_type-known observer e = ground arith

decode_metric_type-IsDecoded :
    (v : Bytes) → IsDecoded type_name observer timer_text v (decode_metric_type (some v))
unfolding decode_metric_type
decode_metric_type-IsDecoded v =
    IsDecoded-cases type_name observer timer_text v (case_of metric_type_cases)
      (λ a e. metric_type_for v a (case_of-IsCase metric_type_cases v a e)) decode_metric_type-known

match_type_round :
    (x : MatchType)
    → decode_match_type (some (match_type_text x)) ≡ some (with_match_type x MatchType.glob)
unfolding decode_match_type case_of bytes_beq
match_type_round MatchType.unset = refl
match_type_round MatchType.glob = refl
match_type_round MatchType.regex = refl

action_type_round :
    (x : ActionType) → decode_action_type (some (action_type_text x)) ≡ some (with_action x)
unfolding decode_action_type case_of bytes_beq
action_type_round ActionType.unset = refl
action_type_round ActionType.map = refl
action_type_round ActionType.drop = refl

observer_type_round :
    (x : ObserverType)
    → decode_observer_type (some (observer_type_text x))
      ≡ some (with_observer_type x ObserverType.summary)
unfolding decode_observer_type case_of bytes_beq
observer_type_round ObserverType.unset = refl
observer_type_round ObserverType.histogram = refl
observer_type_round ObserverType.summary = refl

metric_type_round : (x : MetricType) → decode_metric_type (some (type_name x)) ≡ some (x)
unfolding decode_metric_type case_of bytes_beq type_name
metric_type_round counter = refl
metric_type_round gauge = refl
metric_type_round observer = refl

timer_round : decode_metric_type (some (codes "timer")) ≡ some observer
unfolding decode_metric_type case_of bytes_beq
timer_round = refl

-- The text of each match type, action, observer type and metric type is read as that value, the empty
-- text as glob, map and summary, and "timer" as observer. For any text `v` the four decoders give a value whose text it is, the
-- default of the empty text or of "timer", or an error if no value has that text.
pub decode-text :
    (m : MatchType) (a : ActionType) (o : ObserverType) (t : MetricType) (v : Bytes)
    → (decode_match_type (some (match_type_text m)) ≡ some (with_match_type m MatchType.glob))
      × (decode_action_type (some (action_type_text a)) ≡ some (with_action a))
      × (decode_observer_type (some (observer_type_text o))
          ≡ some (with_observer_type o ObserverType.summary))
      × (decode_metric_type (some (type_name t)) ≡ some t)
      × (decode_metric_type (some (codes "timer")) ≡ some observer)
      × IsDecoded match_type_text MatchType.glob [] v (decode_match_type (some v))
      × IsDecoded action_type_text ActionType.map [] v (decode_action_type (some v))
      × IsDecoded observer_type_text ObserverType.summary [] v (decode_observer_type (some v))
      × IsDecoded type_name observer timer_text v (decode_metric_type (some v))
decode-text m a o t v = (
  match_type_round m,
  action_type_round a,
  observer_type_round o,
  metric_type_round t,
  timer_round,
  decode_match_type-IsDecoded v,
  decode_action_type-IsDecoded v,
  decode_observer_type-IsDecoded v,
  decode_metric_type-IsDecoded v,
)
