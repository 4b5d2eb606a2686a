-- ===== src/Mapper/Reload.antt =====
-- InitFromYAMLString as a whole: what a mapper has behind it, and GetMapping on it.
use statsd_bridge.Prelude.{
  ◌≡◌, refl, sym, inl, inr, Bool, true, false, Option, none, some, List, [], ◌∷◌, Bytes, map, All,
  ◌>>=◌, Returns, Returns-bind, Returns-mono, ◌⊎◌,
}
use mathlib.Core.Option
use mathlib.Core.Path.{subst}
use statsd_bridge.Float.{Float}
use statsd_bridge.Event.{MetricType}
use statsd_bridge.Config.{MatchType, MapperConfigDefaults, MetricMapping}
use statsd_bridge.Fsm.Needs.{test_if_need_backtracking}
use statsd_bridge.Mapper.{Matcher, Cache, Mapper, CacheResult, get_mapping, take_over}
use statsd_bridge.Mapper.Outcome.{InitError, done, failed, panicked}
use statsd_bridge.Mapper.Init.{complete_defaults, Progress, read_config, is_some}
use statsd_bridge.Mapper.Safe.{Safe}
use statsd_bridge.Mapper.Ready.{IsReady}
use statsd_bridge.Mapper.Lookup.{IsLoaded}
use statsd_bridge.Mapper.Answers.{GivesDistinct, get_mapping-Returns, get_mapping-GivesDistinct}
use statsd_bridge.Mapper.Read.{rule_texts, IsConfig, read_config-IsConfig}

-- A value of the interface MetricMapperCache: nil, a cache, or a nil pointer, such as getCache makes
-- for a negative size.
pub data CacheValue (S : Type 0) : Type 0 where
  no_cache nil_pointer : CacheValue S
  cached : S → CacheValue S

-- the cache behind the interface for a call of its methods; `none` is the panic for a nil pointer
abbrev pub store_of : {S : Type 0} → CacheValue S → Option (Option S)
store_of no_cache = some none
store_of nil_pointer = none
store_of (cached s) = some (some s)

abbrev pub value_of : {S : Type 0} → Option S → CacheValue S
value_of none = no_cache
value_of (some s) = cached s

abbrev pub IsNotNilPointer : {S : Type 0} → CacheValue S → Type 0
IsNotNilPointer no_cache = Unit
IsNotNilPointer nil_pointer = ⊥
IsNotNilPointer (cached s) = Unit

pub value_of-IsNotNilPointer : {S : Type 0} (s : Option S) → IsNotNilPointer (value_of s)
value_of-IsNotNilPointer none = tt
value_of-IsNotNilPointer (some s) = tt

pub store_of-IsNotNilPointer :
    {S : Type 0} (v : CacheValue S) → IsNotNilPointer v → (s : Option S) × (store_of v ≡ some s)
store_of-IsNotNilPointer no_cache h = (none, refl)
store_of-IsNotNilPointer nil_pointer h = absurd h
store_of-IsNotNilPointer (cached s) h = (some s, refl)

-- The methods of the cache that `c` stands for return.
module _ (f : Float) (lib : Matcher) (c : Cache (CacheResult f lib))
    (compile : Bytes → Option lib.Regex) where
  -- a MetricMapper with its defaults, its cache, and whether its logger is set
  pub record Current : Type 0 where
    pub defaults : MapperConfigDefaults f
    pub mapper : Mapper f lib
    pub cache : CacheValue c.Store
    pub logger : Bool

  abbrev glob_match_of : MatchType → Bytes → List Bytes → List Bytes
  glob_match_of MatchType.glob match more = match ∷ more
  glob_match_of _ match more = more

  -- the matches of the glob rules
  unfoldable pub glob_matches : List (MetricMapping f lib.Regex) → List Bytes
  glob_matches [] = []
  glob_matches (v ∷ vs) = glob_match_of v.match_type v.match (glob_matches vs)

  -- what InitFromYAMLString does under the lock; `none` is the panic of Reset on a nil pointer
  unfoldable pub install :
      MapperConfigDefaults f
      → List (MetricMapping f lib.Regex)
      → Progress
      → Current
      → Option Current
  unfolding glob_matches take_over
  install d ms p m = do
    store ← store_of m.cache
    let n : Mapper f lib = record {
      mappings = ms;
      fsm = p.fsm;
      do_fsm = p.do_fsm;
      do_regex = p.do_regex;
    }
    let needed = test_if_need_backtracking (glob_matches ms) p.fsm.ordering_disabled
    let (mapper, cache) = take_over f lib c n needed m.mapper store
    some (record { defaults = d; mapper = mapper; cache = value_of cache; logger = true })

  -- InitFromYAMLString: the error and the mapper behind it; `none` is a panic. The argument is what
  -- yaml.Unmarshal makes of the text.
  unfoldable pub init_from_yaml_string :
      Option (MapperConfigDefaults f × List (MetricMapping f lib.Regex))
      → Current
      → Option (Option InitError × Current)
  unfolding install
  init_from_yaml_string parsed m = elim (read_config f lib.Regex compile m.logger parsed) [
    | panicked ↦ none
    | failed e ↦ some (some e, m)
    | done (d, ms, p) ↦ install d ms p m >>= λ m'. some (none, m')
  ]

  -- InitFromFile, for what os.ReadFile and yaml.Unmarshal give; no text is the error of ReadFile
  unfoldable pub init_from_file :
      (Bytes → Option (MapperConfigDefaults f × List (MetricMapping f lib.Regex)))
      → Option Bytes
      → Current
      → Option (Option (Option InitError) × Current)
  unfolding init_from_yaml_string
  init_from_file unmarshal none m = some (some none, m)
  init_from_file unmarshal (some text) m = do
    (e, m') ← init_from_yaml_string (unmarshal text) m
    some (Option.map some e, m')

  -- UseCache
  unfoldable pub use_cache : CacheValue c.Store → Current → Current
  use_cache s m = record m { cache = s }

  -- GetMapping; `none` is a panic, also that of Get on a nil pointer
  unfoldable pub get_mapping_of :
      Bytes → MetricType → Current → Option (CacheResult f lib × Current)
  get_mapping_of metric type m = do
    store ← store_of m.cache
    (r, cache) ← get_mapping f lib c metric type m.mapper store
    some (r, record m { cache = value_of cache })

  -- The logger is set, and the cache is not a nil pointer.
  abbrev pub IsUsable : Current → Type 0
  IsUsable m = (m.logger ≡ true) × IsNotNilPointer m.cache

  -- GetMapping returns for every metric, with any cache, and without one its result has no label
  -- twice.
  abbrev pub CanAnswer : Mapper f lib → Type 0
  CanAnswer m =
      ((metric : Bytes) (type : MetricType) (s : Option c.Store)
        → Returns (λ r. Unit) (get_mapping f lib c metric type m s))
      × ((metric : Bytes) (type : MetricType)
          → Returns (GivesDistinct f lib compile c) (get_mapping f lib c metric type m none))

  pub can_answer : (m : Mapper f lib) → (m.do_fsm ≡ false) ⊎ IsLoaded f lib compile m → CanAnswer m
  can_answer m h = (
    λ metric type s. get_mapping-Returns f lib compile c metric type m s h,
    λ metric type. get_mapping-GivesDistinct f lib compile c metric type m h,
  )

  -- What InitFromYAMLString leaves: after an error the mapper as it was; else mappings that are
  -- ready, and GetMapping has an answer for every metric.
  abbrev pub IsReloaded :
      Option (MapperConfigDefaults f × List (MetricMapping f lib.Regex))
      → Current
      → Option InitError × Current
      → Type 0
  IsReloaded parsed m (some e, m') = m' ≡ m
  IsReloaded none m (none, m') = ⊥
  IsReloaded (some (d, ms)) m (none, m') =
      (m'.defaults ≡ complete_defaults f d)
      × (map (rule_texts f lib.Regex compile) m'.mapper.mappings
          ≡ map (rule_texts f lib.Regex compile) ms)
      × All (IsReady f lib.Regex compile) m'.mapper.mappings
      × CanAnswer m'.mapper
      × IsUsable m'

  -- the mapper under the lock, where the machine is used or not
  TakenOver :
      Bool
      → Option (MapperConfigDefaults f × List (MetricMapping f lib.Regex))
      → MapperConfigDefaults f
      → List (MetricMapping f lib.Regex)
      → Progress
      → Current
      → Option c.Store
      → Type 0
  TakenOver used parsed d ms p m store =
      let n : Mapper f lib = record {
        mappings = ms;
        fsm = p.fsm;
        do_fsm = used;
        do_regex = p.do_regex;
      } in
      let needed = test_if_need_backtracking (glob_matches ms) p.fsm.ordering_disabled in
      let (mapper, cache) = take_over f lib c n needed m.mapper store in
      IsReloaded parsed m
        (none, record { defaults = d; mapper = mapper; cache = value_of cache; logger = true })

  install-IsReloaded :
      (parsed : Option (MapperConfigDefaults f × List (MetricMapping f lib.Regex)))
      (d : MapperConfigDefaults f) (ms : List (MetricMapping f lib.Regex)) (p : Progress)
      (m : Current)
      → IsNotNilPointer m.cache
      → IsConfig f lib.Regex compile parsed (d, ms, p)
      → Returns (λ m'. IsReloaded parsed m (none, m')) (install d ms p m)
  unfolding install take_over TakenOver
  install-IsReloaded none d ms p m k h = absurd h
  install-IsReloaded (some (d0, ms0)) d ms p m k (same, complete, ((b, used), ready, texts)) =
      let (store, there) = store_of-IsNotNilPointer m.cache k in
      rw there (elim p.do_fsm as (λ used. TakenOver used (some (d0, ms0)) d ms p m store) [
        | true ↦ (
          same,
          texts,
          ready,
          can_answer (under true store) (inr (d.glob_disable_ordering, p.fsm, b, refl, ready)),
          (refl, value_of-IsNotNilPointer (Option.map c.reset store)),
        )
        | false ↦ (
          same,
          texts,
          ready,
          can_answer (under false store) (inl refl),
          (refl, value_of-IsNotNilPointer (Option.map c.reset store)),
        )
      ])
    where
      under : Bool → Option c.Store → Mapper f lib
      under used store =
          let n : Mapper f lib = record {
            mappings = ms;
            fsm = p.fsm;
            do_fsm = used;
            do_regex = p.do_regex;
          } in
          let needed = test_if_need_backtracking (glob_matches ms) p.fsm.ordering_disabled in
          (take_over f lib c n needed m.mapper store).0

  -- whether a configuration is refused, with a logger or without one
  abbrev pub is_refused :
      Bool → Option (MapperConfigDefaults f × List (MetricMapping f lib.Regex)) → Bool
  is_refused logger parsed = elim (read_config f lib.Regex compile logger parsed) [
    | panicked ↦ true
    | failed e ↦ true
    | done x ↦ false
  ]

  -- the same, with an error exactly if the configuration is refused
  pub init_from_yaml_string-Refuses :
      (parsed : Option (MapperConfigDefaults f × List (MetricMapping f lib.Regex))) (m : Current)
      → IsUsable m
      → Returns
          (λ x. IsReloaded parsed m x × (is_some x.0 ≡ is_refused m.logger parsed))
          (init_from_yaml_string parsed m)
  unfolding init_from_yaml_string is_some
  init_from_yaml_string-Refuses parsed m (logger, k) =
      elim (read_config f lib.Regex compile m.logger parsed)
          as (λ o.
            Safe (IsConfig f lib.Regex compile parsed) o
            → Returns
                (λ x.
                  IsReloaded parsed m x
                  × (is_some x.0 ≡ (elim o [ panicked ↦ true | failed e ↦ true | done x ↦ false ])))
                (elim o [
                  | panicked ↦ none
                  | failed e ↦ some (some e, m)
                  | done (d, ms, p) ↦ install d ms p m >>= λ m'. some (none, m')
                ])) [
                  | panicked ↦ λ h. absurd h
                  | failed e ↦ λ h. (refl, refl)
                  | done (d, ms, p) ↦ λ h.
                      Returns-bind (λ m'. IsReloaded parsed m (none, m'))
                        (λ x. IsReloaded parsed m x × (is_some x.0 ≡ false)) (install d ms p m) _
                        (λ m' reloaded. (reloaded, refl)) (install-IsReloaded parsed d ms p m k h)
                ]
        (subst
          (λ b.
            Safe (IsConfig f lib.Regex compile parsed) (read_config f lib.Regex compile b parsed))
          (sym logger) (read_config-IsConfig f lib.Regex compile parsed))

  -- Given that its logger is set, that its cache is not a nil pointer, and that the methods of its
  -- cache return, InitFromYAMLString does not panic. After an error the mapper is as it was. Without
  -- one it has the completed defaults and the rules of the text in their order; each mapping has what
  -- its match type needs, an action, a valid name, valid labels and options that fit its observer
  -- type, and GetMapping returns for every metric, whatever is in the cache; without a cache its
  -- result has no label twice. The logger and the cache are still such.
  pub init_from_yaml_string-IsReloaded :
      (parsed : Option (MapperConfigDefaults f × List (MetricMapping f lib.Regex))) (m : Current)
      → IsUsable m
      → Returns (IsReloaded parsed m) (init_from_yaml_string parsed m)
  init_from_yaml_string-IsReloaded parsed m usable =
      Returns-mono (λ x. IsReloaded parsed m x × (is_some x.0 ≡ is_refused m.logger parsed))
        (IsReloaded parsed m) (init_from_yaml_string parsed m) (λ x h. h.0)
        (init_from_yaml_string-Refuses parsed m usable)
