-- ===== src/Mapper/Cached.antt =====
-- GetMapping with a cache, against GetMapping without one.
use statsd_bridge.Prelude.{
  ◌≡◌, refl, sym, ap, ◌∙◌, Bool, Option, none, some, List, [], ◌∷◌, ◌⊎◌, inl, inr, arith,
  Bool-cases, Option-cases, Bytes, ◌>>=◌,
}
use mathlib.Core.Path.{subst}
use statsd_bridge.Float.{Float}
use statsd_bridge.Event.{MetricType, counter, gauge, observer}
use statsd_bridge.Mapper.{
  Matcher, Cache, Mapper, CacheResult, miss, type_name, format_key, glob_match, regex_match,
  remember, after_globs, find_mapping, or_find, get_mapping, take_over,
}

-- The key tells the metric and the type.
format_key-injective :
    (a b : Bytes) (s t : MetricType) → format_key a s ≡ format_key b t → (a ≡ b) × (s ≡ t)
unfolding format_key type_name
format_key-injective a b counter counter e = ground arith
format_key-injective a b counter gauge e = absurd (ground arith)
format_key-injective a b counter observer e = absurd (ground arith)
format_key-injective a b gauge counter e = absurd (ground arith)
format_key-injective a b gauge gauge e = ground arith
format_key-injective a b gauge observer e = absurd (ground arith)
format_key-injective a b observer counter e = absurd (ground arith)
format_key-injective a b observer gauge e = absurd (ground arith)
format_key-injective a b observer observer e = ground arith

module _ (f : Float) (lib : Matcher) (c : Cache (CacheResult f lib)) where
  -- A cache, if there is one, answers with what the mapper finds without it.
  abbrev pub IsSound : Mapper f lib → Option c.Store → Type 0
  IsSound m none = Unit
  IsSound m (some s) =
      (metric : Bytes) (type : MetricType) (r : CacheResult f lib)
      → c.Holds s (format_key metric type) r
      → get_mapping f lib c metric type m none ≡ some (r, none)

  -- Both panic, or both give the same result, and the cache stays sound.
  abbrev pub Agrees :
      Mapper f lib
      → Option (CacheResult f lib × Option c.Store)
      → Option (CacheResult f lib × Option c.Store)
      → Type 0
  Agrees m without with_cache =
      ((without ≡ none) × (with_cache ≡ none))
      ⊎ ((r : CacheResult f lib) × (s : Option c.Store) × (without ≡ some (r, none))
          × (with_cache ≡ some (r, s))
          × IsSound m s)

  remember-Agrees :
      (metric : Bytes) (type : MetricType) (m : Mapper f lib) (r : CacheResult f lib)
      (s : Option c.Store)
      → get_mapping f lib c metric type m none ≡ some (r, none)
      → IsSound m s
      → IsSound m (remember f lib c metric type r s).1
  unfolding remember
  remember-Agrees metric type m r none e h = tt
  remember-Agrees metric type m r (some s) e h = λ metric' type' r' held.
      elim (c.add_keeps (format_key metric type) (format_key metric' type') r r' s held) [
        | inr before ↦ h metric' type' r' before
        | inl (key, same) ↦
            let (m_same, t_same) = format_key-injective metric metric' type type' key in
            rw (← m_same, ← t_same, ← same) e
      ]

  -- What is found does not depend on the cache, which only gets the result.
  find_mapping_lem :
      (metric : Bytes) (type : MetricType) (m : Mapper f lib) (s : Option c.Store)
      → ((find_mapping f lib c metric type m none ≡ none)
          × (find_mapping f lib c metric type m s ≡ none))
        ⊎ ((r : CacheResult f lib) × (find_mapping f lib c metric type m none ≡ some (r, none))
            × (find_mapping f lib c metric type m s ≡ some (remember f lib c metric type r s)))
  unfolding find_mapping remember after_globs
  find_mapping_lem metric type m s = elim (Bool-cases m.do_fsm) [
    | inr off ↦ rw off (inr (regex_match f lib metric type m.mappings, refl, refl))
    | inl on ↦ rw on (elim (Option-cases (glob_match f lib metric type m)) [
      | inl panics ↦ rw panics (inl (refl, refl))
      | inr (some r, e) ↦ rw e (inr (r, refl, refl))
      | inr (none, e) ↦ rw e (elim (Bool-cases m.do_regex) [
        | inl both ↦ rw both (inr (regex_match f lib metric type m.mappings, refl, refl))
        | inr globs ↦ rw globs (inr (miss f lib, refl, refl))
      ])
    ])
  ]

  find_mapping-Agrees :
      (metric : Bytes) (type : MetricType) (m : Mapper f lib) (s : Option c.Store)
      → IsSound m s
      → Agrees m (get_mapping f lib c metric type m none) (find_mapping f lib c metric type m s)
  unfolding get_mapping
  find_mapping-Agrees metric type m s h = elim (find_mapping_lem metric type m s) [
    | inl panics ↦ inl panics
    | inr (r, without, with_cache) ↦ inr (
      r,
      (remember f lib c metric type r s).1,
      without,
      with_cache ∙ ap some (remember_result r s),
      remember-Agrees metric type m r s without h,
    )
  ]
    where
      remember_result :
          (r : CacheResult f lib) (s : Option c.Store)
          → remember f lib c metric type r s ≡ (r, (remember f lib c metric type r s).1)
      remember_result r none = refl
      remember_result r (some s) = refl

  -- GetMapping with a sound cache answers as it does without one.
  pub get_mapping-Agrees :
      (metric : Bytes) (type : MetricType) (m : Mapper f lib) (s : Option c.Store)
      → IsSound m s
      → Agrees m (get_mapping f lib c metric type m none) (get_mapping f lib c metric type m s)
  unfolding get_mapping or_find
  get_mapping-Agrees metric type m none h = find_mapping-Agrees metric type m none h
  get_mapping-Agrees metric type m (some s) h = looked (c.get (format_key metric type) s) refl
    where
      kept :
          {o : Option (CacheResult f lib)} (s' : c.Store)
          → c.get (format_key metric type) s ≡ (o, s')
          → IsSound m (some s')
      kept s' e = λ metric' type' r' held. h metric' type' r' (
          c.get_keeps (format_key metric type) (format_key metric' type') r' s (
            subst
              (λ (a : Option (CacheResult f lib) × c.Store).
                c.Holds a.1 (format_key metric' type') r')
              (sym e) held))

      looked :
          (answer : Option (CacheResult f lib) × c.Store)
          → c.get (format_key metric type) s ≡ answer
          → Agrees m (get_mapping f lib c metric type m none) (or_find f lib c metric type m answer)
      looked (some r, s') e = inr (
        r,
        some s',
        h metric type r (c.get-Holds (format_key metric type) r s (ap (λ a. a.0) e)),
        refl,
        kept s' e,
      )
      looked (none, s') e = find_mapping-Agrees metric type m (some s') (kept s' e)

  -- A call of GetMapping, or the end of a reload with the answer of TestIfNeedBacktracking.
  pub data Call : Type 0 where
    query : Bytes → MetricType → Call
    reload : Mapper f lib → Bool → Call

  -- the results of the calls of GetMapping, in order
  unfoldable pub answers :
      List Call → Mapper f lib → Option c.Store → Option (List (CacheResult f lib))
  answers [] m s = some []
  answers (query metric type ∷ calls) m s = do
    (r, s') ← get_mapping f lib c metric type m s
    rs ← answers calls m s'
    some (r ∷ rs)
  answers (reload n needed ∷ calls) m s =
      let (m', s') = take_over f lib c n needed m s in answers calls m' s'

  -- Whatever the calls and the reloads between them, with a sound cache GetMapping answers them as
  -- without one, and panics at none that it does not panic at without one.
  pub answers_cached :
      (calls : List Call) (m : Mapper f lib) (s : Option c.Store)
      → IsSound m s
      → answers calls m s ≡ answers calls m none
  unfolding answers take_over
  answers_cached [] m s h = refl
  answers_cached (reload n needed ∷ calls) m none h = refl
  answers_cached (reload n needed ∷ calls) m (some s) h =
      answers_cached calls _ (some (c.reset s))
        (λ metric type r held. absurd (c.reset_empties (format_key metric type) r s held))
  answers_cached (query metric type ∷ calls) m s h = elim (get_mapping-Agrees metric type m s h) [
    | inl (without, with_cache) ↦ rw (without, with_cache) refl
    | inr (r, s', without, with_cache, h') ↦
        rw (without, with_cache, answers_cached calls m s' h') refl
  ]
