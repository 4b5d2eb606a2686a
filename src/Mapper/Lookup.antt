-- ===== src/Mapper/Lookup.antt =====
-- GetMapping behind InitFromYAMLString: the rules of the machine and the mappings that they lead to.
use statsd_bridge.Prelude.{
  ℕ, suc, ◌≤◌, ◌≡◌, refl, sym, ap, ◌∙◌, inl, inr, Bool, true, Option, none, some, List, [], ◌∷◌,
  ◌++◌, append_assoc, arith, Bytes, length, length-append, All, All-append, ◌>>=◌, Option-cases,
  Bool-cases, Returns, Returns-bind, bytes_eq, split, bytes_beq, bytes_beq_iff,
}
use mathlib.Core.Path.{subst}
use mathlib.Core.Option.{some-injective}
use statsd_bridge.Float.{Float}
use statsd_bridge.Event.{MetricType, counter, gauge, observer}
use statsd_bridge.Config.{MatchType}
use statsd_bridge.Fsm.{Fsm, State, find, result}
use statsd_bridge.Fsm.Search
use statsd_bridge.Fsm.Search.{Found}
use statsd_bridge.Fsm.Walk.{Glob-length}
use statsd_bridge.Fsm.Grow.{entry}
use statsd_bridge.Fsm.Rules.{Rule, fields_of, meaning, types_of, has_type}
use statsd_bridge.Fsm.Runs.{Built, Built-IsModel}
use statsd_bridge.Fsm.Finds.{Built-has_state, Leads-Gives, split-length}
use statsd_bridge.Fsm.Sound.{IsMatch, IfMatch, get_mapping-IfMatch}
use statsd_bridge.Mapper.{
  Matcher, Mapper, Mapping, CacheResult, type_name, get_elem?, glob_match, glob_result,
}
use statsd_bridge.Mapper.Init.{metric_types}
use statsd_bridge.Mapper.Ready.{IsReady, IsReadyFor, glob_rule, glob_rules}
use statsd_bridge.Mapper.Fills.{HasDistinct, glob_result-Returns}

-- What a rule leaves at the end of its fields.
entry-end :
    {R : Type 0} (q p : List Bytes) (r r' : R) → entry q p r ≡ some (some r') → (p ≡ q) × (r ≡ r')
unfolding entry
entry-end [] [] r r' e = (refl, some-injective r r' (some-injective (some r) (some r') e))
entry-end [] (f ∷ p) r r' e = absurd (ground arith)
entry-end (g ∷ q) [] r r' e = absurd (ground arith)
entry-end {R = R} (g ∷ q) (f ∷ p) r r' e = elim (Bool-cases (bytes_beq f g)) [
  | inr other ↦ absurd (no_result (rw other at e))
  | inl same ↦
      let (fields, results) = entry-end q p r r' (rw same at e) in
      (rw ((bytes_beq_iff f g).0 same, fields) refl, results)
]
  where
    no_result : ◌≡◌ {A = Option (Option R)} none (some (some r')) → ⊥
    no_result e = ground arith

-- A result is that of a rule with these fields.
meaning-rule :
    {R : Type 0} (P : Rule R → Type 0) (types : List Bytes) (type : Bytes) (rules : List (Rule R))
    (q : List Bytes) (r : R)
    → All P rules
    → meaning types type rules q ≡ some (some r)
    → (rule : Rule R) × P rule × (fields_of rule ≡ q) × (rule.rule_result ≡ r)
unfolding meaning
meaning-rule P types type [] q r h e = absurd (ground arith)
meaning-rule {R = R} P types type (rule ∷ rules) q r (h, hs) e =
    elim (Bool-cases (has_type type (types_of types rule))) [
      | inr off ↦ meaning-rule P types type rules q r hs (rw off at e)
      | inl on ↦ elim (Option-cases (entry q (fields_of rule) rule.rule_result)) [
        | inl none_here ↦ meaning-rule P types type rules q r hs (rw (on, none_here) at e)
        | inr (x, here) ↦
            let (fields, results) =
              entry-end q (fields_of rule) rule.rule_result r (here ∙ rw (on, here) at e) in
            (rule, h, fields, results)
      ]
    ]

get_elem?-behind :
    {A : Type 0} (xs : List A) (y : A) (ys : List A) → get_elem? (xs ++ y ∷ ys) (length xs) ≡ some y
unfolding get_elem?
get_elem?-behind [] y ys = refl
get_elem?-behind (x ∷ xs) y ys = get_elem?-behind xs y ys

pub type_name-known : (type : MetricType) → has_type (type_name type) metric_types ≡ true
unfolding type_name has_type bytes_beq
type_name-known counter = refl
type_name-known gauge = refl
type_name-known observer = refl

module _ (f : Float) (lib : Matcher) (compile : Bytes → Option lib.Regex) where
  -- The rule leads to the place of its mapping, which is ready.
  abbrev IsInstalled : List (Mapping f lib) → Rule ℕ → Type 0
  IsInstalled ms rule =
      (v : Mapping f lib) × (get_elem? ms rule.rule_result ≡ some v)
      × IsReadyFor f lib.Regex compile MatchType.glob v
      × (v.match ≡ rule.match)

  glob_rule-IsInstalled :
      (t : MatchType) (before : List (Mapping f lib)) (v : Mapping f lib)
      (vs : List (Mapping f lib))
      → IsReadyFor f lib.Regex compile t v
      → All (IsInstalled (before ++ v ∷ vs)) (glob_rule f lib.Regex compile t (length before) v)
  glob_rule-IsInstalled MatchType.unset before v vs h = tt
  glob_rule-IsInstalled MatchType.regex before v vs h = tt
  glob_rule-IsInstalled MatchType.glob before v vs h =
      ((v, get_elem?-behind before v vs, h, refl), tt)

  glob_rules-IsInstalled :
      (n : ℕ) (before ms : List (Mapping f lib))
      → n ≡ length before
      → All (IsReady f lib.Regex compile) ms
      → All (IsInstalled (before ++ ms)) (glob_rules f lib.Regex compile n ms)
  unfolding glob_rules
  glob_rules-IsInstalled n before [] e h = tt
  glob_rules-IsInstalled n before (v ∷ vs) e ((h, _, _, _, _), hs) =
      All-append (IsInstalled (before ++ v ∷ vs)) (glob_rule f lib.Regex compile v.match_type n v) _
        (subst
          (λ i.
            All (IsInstalled (before ++ v ∷ vs)) (glob_rule f lib.Regex compile v.match_type i v))
          (sym e) (glob_rule-IsInstalled v.match_type before v vs h))
        (subst (λ ms. All (IsInstalled ms) (glob_rules f lib.Regex compile (suc n) vs))
          (append_assoc before (v ∷ []) vs)
          (glob_rules-IsInstalled (suc n) (before ++ v ∷ []) vs
            (rw (length-append before (v ∷ []), ← e) (omega arith)) hs))

  -- GetMapping with the machine of the mappings, which are ready.
  abbrev pub IsLoaded : Mapper f lib → Type 0
  IsLoaded m =
      (disabled : Bool) × (made : Fsm ℕ) × Built metric_types disabled
        (glob_rules f lib.Regex compile 0 m.mappings) made
      × (m.fsm.root ≡ made.root)
      × All (IsReady f lib.Regex compile) m.mappings

  -- the result for what the search finds
  abbrev pub IfDistinct : Option (CacheResult f lib) → Type 0
  IfDistinct none = Unit
  IfDistinct (some r) = HasDistinct f lib compile r

  found-Returns :
      (metric : Bytes) (type : MetricType) (m : Mapper f lib) (s : State ℕ) (found : Found ℕ)
      → IsLoaded m
      → find (type_name type) m.fsm.root ≡ some s
      → IsMatch s (split b'.' metric) found
      → (i : ℕ) → result found.final_state ≡ some i
      → Returns IfDistinct (do
        v ← get_elem? m.mappings i
        r ← glob_result f lib v found.final_captures
        some (some r))
  found-Returns metric type m s found (disabled, made, b, root, ready) there
        ((p, caps, r, g, leads, _), room) i e =
      let rules = glob_rules f lib.Regex compile 0 m.mappings in
      let (_, _, _, means) = Built-IsModel metric_types disabled rules made b in
      let h = means (type_name type) s (ap (find (type_name type)) (sym root) ∙ there) in
      let same = Glob-length p (split b'.' metric) caps g in
      let fields = split-length b'.' metric in
      let (gives, _) =
        Leads-Gives metric_types (type_name type) rules s found.final_state p r h (omega arith)
          leads in
      let (rule, (v, at, is_ready, match), way, number) =
        meaning-rule (IsInstalled m.mappings) metric_types (type_name type) rules p r
          (glob_rules-IsInstalled 0 [] m.mappings refl ready) gives in
      let place : rule.rule_result ≡ i = number ∙ some-injective r i (sym leads.1 ∙ e) in
      let size : length (split b'.' v.match) ≤ length found.final_captures =
        rw (match, way, same, room) (omega arith) in
      rw (← place, at)
        (Returns-bind (HasDistinct f lib compile) IfDistinct
          (glob_result f lib v found.final_captures) _ (λ r d. d)
          (glob_result-Returns f lib compile v found.final_captures is_ready size))

  pub glob_match-Returns :
      (metric : Bytes) (type : MetricType) (m : Mapper f lib)
      → IsLoaded m
      → Returns IfDistinct (glob_match f lib metric type m)
  unfolding glob_match
  glob_match-Returns metric type m loaded =
      let (disabled, made, b, root, ready) = loaded in
      let (s, there) =
        Built-has_state metric_types disabled _ made (type_name type) b (type_name-known type) in
      let start = ap (find (type_name type)) root ∙ there in
      Returns-bind (IfMatch s (split b'.' metric)) IfDistinct
        (Search.get_mapping metric (type_name type) m.fsm) _
        (λ found h. found_or_none s start found h)
        (get_mapping-IfMatch metric (type_name type) m.fsm s start)
    where
      found_or_none :
          (s : State ℕ)
          → find (type_name type) m.fsm.root ≡ some s
          → (found : Option (Found ℕ)) → IfMatch s (split b'.' metric) found
          → Returns IfDistinct (elim found [
            | none ↦ some none
            | some state ↦ elim (result state.final_state) [
              | none ↦ some none
              | some i ↦ do
                v ← get_elem? m.mappings i
                r ← glob_result f lib v state.final_captures
                some (some r)
            ]
          ])
      found_or_none s start none h = tt
      found_or_none s start (some state) h =
          elim (result state.final_state)
              as (λ x.
                result state.final_state ≡ x
                → Returns IfDistinct (elim x [
                  | none ↦ some none
                  | some i ↦ do
                    v ← get_elem? m.mappings i
                    r ← glob_result f lib v state.final_captures
                    some (some r)
                ])) [
                  | none ↦ λ e. tt
                  | some i ↦ λ e. found-Returns metric type m s state loaded start h i e
                ]
            refl
