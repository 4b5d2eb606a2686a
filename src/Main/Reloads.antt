-- ===== src/Main/Reloads.antt =====
-- Reloads of the configuration in main.go, between lookups of mappings.
use statsd_bridge.Prelude.{
  ℕ, ◌+◌, ◌≡◌, refl, sym, ap, ◌∙◌, Bool, true, inl, inr, false, Option, none, some, List, [], ◌∷◌,
  Bytes, codes, length, ◌==◌, Returns, Returns-bind, Returns-mono, Bool-cases, if◌then◌else◌, arith,
  ◌>>=◌,
}
use mathlib.Core.Option
use mathlib.Core.Path.{subst}
use statsd_bridge.Mapper.Init.{is_some}
use statsd_bridge.Float.{Float}
use statsd_bridge.Event.{MetricType}
use statsd_bridge.Config.{MapperConfigDefaults, MetricMapping}
use statsd_bridge.Mapper.{Matcher, Cache, CacheResult, get_mapping}
use statsd_bridge.Mapper.Outcome.{InitError}
use statsd_bridge.Mapper.Reload.{
  Current, CanAnswer, can_answer, IsReloaded, IsUsable, is_refused, get_mapping_of,
  store_of-IsNotNilPointer, value_of-IsNotNilPointer, init_from_file, init_from_yaml_string,
  init_from_yaml_string-Refuses,
}
use statsd_bridge.Main.{
  Server, Method, is_change, count_load, reload_config, handle_reload, sighup_config_reloader,
}

-- What happens to the mapper: a signal or a request to reload, each with what the file has then, and
-- a lookup for an event. The lock of the mapper makes one of them follow the other.
pub data Step : Type 0 where
  signal : Option Bytes → Step
  request : Option Bytes → Method → Step
  query : Bytes → MetricType → Step

named : (b : ℕ) (name : Bytes) → (length (b ∷ name) == 0) ≡ false
named b name = ground arith

module _ (f : Float) (lib : Matcher) (c : Cache (CacheResult f lib))
    (compile : Bytes → Option lib.Regex)
    (unmarshal : Bytes → Option (MapperConfigDefaults f × List (MetricMapping f lib.Regex))) where
  abbrev S : Type 0
  S = Server f lib c compile unmarshal

  -- whether a load fails: the file cannot be read, or what stands in it is refused
  abbrev pub fails : Option Bytes → Bool
  fails none = true
  fails (some text) = is_refused f lib c compile true (unmarshal text)

  -- the loads that a step attempts, with a file and without one: those that fail, and the others
  abbrev pub loads : Bytes → Step → ℕ × ℕ
  loads [] e = (0, 0)
  loads (b ∷ name) (signal text) = if fails text then (1, 0) else (0, 1)
  loads (b ∷ name) (request text method) =
      if is_change method then (if fails text then (1, 0) else (0, 1)) else (0, 0)
  loads (b ∷ name) (query metric type) = (0, 0)

  abbrev pub all_loads : Bytes → List Step → ℕ × ℕ
  all_loads name [] = (0, 0)
  all_loads name (e ∷ es) =
      ((loads name e).0 + (all_loads name es).0, (loads name e).1 + (all_loads name es).1)

  -- the server behind a lookup, which may have changed the cache
  unfoldable pub look_up : Bytes → MetricType → S → Option S
  unfolding get_mapping_of
  look_up metric type s = do
    (r, mapper) ← get_mapping_of f lib c compile metric type s.mapper
    some (record s { mapper = mapper })

  unfoldable pub step : Bytes → Step → S → Option S
  unfolding sighup_config_reloader handle_reload look_up
  step name (signal text) s = sighup_config_reloader f lib c compile unmarshal name (text ∷ []) s
  step name (request text method) s = do
    (reply, s') ← handle_reload f lib c compile unmarshal name text method s
    some s'
  step name (query metric type) s = look_up metric type s

  unfoldable pub run : Bytes → List Step → S → Option S
  unfolding step
  run name [] s = some s
  run name (e ∷ es) s = step name e s >>= run name es

  -- GetMapping returns for every metric, and so does the next load.
  abbrev pub IsLive : Current f lib c compile → Type 0
  IsLive m = CanAnswer f lib c compile m.mapper × IsUsable f lib c compile m

  -- Behind some loads the mapper is live, and each load is counted as what it was.
  abbrev pub IsServing : ℕ × ℕ → S → S → Type 0
  IsServing n s s' =
      IsLive s'.mapper × (s'.failure ≡ s.failure + n.0) × (s'.success ≡ s.success + n.1)

  -- the load with its mapper behind it
  abbrev IsLoadOf : Option Bytes → Option (Option InitError) × Current f lib c compile → Type 0
  IsLoadOf text x = IsLive x.1 × (is_some x.0 ≡ fails text)

  init_from_file-IsLoadOf :
      (text : Option Bytes) (m : Current f lib c compile)
      → IsLive m
      → Returns (IsLoadOf text) (init_from_file f lib c compile unmarshal text m)
  unfolding init_from_file is_some
  init_from_file-IsLoadOf none m h = (h, refl)
  init_from_file-IsLoadOf (some text) m (h, usable) =
      Returns-bind
        (λ x.
          IsReloaded f lib c compile (unmarshal text) m x
          × (is_some x.0 ≡ is_refused f lib c compile m.logger (unmarshal text)))
        (IsLoadOf (some text)) (init_from_yaml_string f lib c compile (unmarshal text) m) _
        (λ (e, m') (r, refused). (
          live (unmarshal text) e m' r,
          is_some-map e
              ∙ refused
              ∙ ap (λ b. is_refused f lib c compile b (unmarshal text)) usable.0,
        ))
        (init_from_yaml_string-Refuses f lib c compile (unmarshal text) m usable)
    where
      is_some-map : (e : Option InitError) → is_some (Option.map some e) ≡ is_some e
      is_some-map none = refl
      is_some-map (some e) = refl

      live :
          (parsed : Option (MapperConfigDefaults f × List (MetricMapping f lib.Regex)))
          (e : Option InitError) (m' : Current f lib c compile)
          → IsReloaded f lib c compile parsed m (e, m')
          → IsLive m'
      live parsed (some e) m' same = subst IsLive (sym same) (h, usable)
      live none none m' gone = absurd gone
      live (some (d, ms)) none m' (_, _, _, holds, usable') = (holds, usable')

  abbrev counted : Option Bytes → ℕ × ℕ
  counted text = if fails text then (1, 0) else (0, 1)

  count_load-IsServing :
      (text : Option Bytes) (s : S) (e : Option (Option InitError)) (m : Current f lib c compile)
      → IsLoadOf text (e, m)
      → IsServing (counted text) s (count_load f lib c compile unmarshal s (e, m))
  unfolding count_load is_some
  count_load-IsServing text s (some e) m (h, failed) = rw (← failed) (h, refl, omega arith)
  count_load-IsServing text s none m (h, loaded) = rw (← loaded) (h, omega arith, refl)

  reload_config-IsServing :
      (text : Option Bytes) (s : S)
      → IsLive s.mapper
      → Returns (IsServing (counted text) s) (reload_config f lib c compile unmarshal text s)
  unfolding reload_config
  reload_config-IsServing text s h =
      Returns-bind (IsLoadOf text) (IsServing (counted text) s)
        (init_from_file f lib c compile unmarshal text s.mapper) _
        (λ (e, m) k. count_load-IsServing text s e m k) (init_from_file-IsLoadOf text s.mapper h)

  IsServing-same : (s : S) → IsLive s.mapper → IsServing (0, 0) s s
  IsServing-same s h = (h, omega arith, omega arith)

  look_up-IsServing :
      (metric : Bytes) (type : MetricType) (s : S)
      → IsLive s.mapper
      → Returns (IsServing (0, 0) s) (look_up metric type s)
  unfolding look_up get_mapping_of
  look_up-IsServing metric type s (h, (logger, k)) =
      let (store, there) = store_of-IsNotNilPointer s.mapper.cache k in
      rw there (
        Returns-bind (λ (x : CacheResult f lib × Current f lib c compile). IsLive x.1)
          (IsServing (0, 0) s) _ _ (λ x live. (live, omega arith, omega arith))
          (Returns-bind (λ x. Unit)
            (λ (x : CacheResult f lib × Current f lib c compile). IsLive x.1)
            (get_mapping f lib c metric type s.mapper.mapper store) _
            (λ x _. (h, (logger, value_of-IsNotNilPointer x.1))) (h.0 metric type store)))

  step-IsServing :
      (name : Bytes) (e : Step) (s : S)
      → IsLive s.mapper
      → Returns (IsServing (loads name e) s) (step name e s)
  unfolding step sighup_config_reloader handle_reload
  step-IsServing [] (signal text) s h = IsServing-same s h
  step-IsServing (b ∷ name) (signal text) s h = rw (named b name) (
      Returns-bind (IsServing (counted text) s) (IsServing (counted text) s)
        (reload_config f lib c compile unmarshal text s) _ (λ s' k. k)
        (reload_config-IsServing text s h))
  step-IsServing [] (request text method) s h = elim (Bool-cases (is_change method)) [
    | inl change ↦ rw change (IsServing-same s h)
    | inr no_change ↦ rw no_change (IsServing-same s h)
  ]
  step-IsServing (b ∷ name) (request text method) s h = elim (Bool-cases (is_change method)) [
    | inl change ↦
        rw (change, named b name)
          (Returns-bind (λ (x : Bytes × S). IsServing (counted text) s x.1)
            (IsServing (counted text) s)
            (reload_config f lib c compile unmarshal text s >>= λ s'.
              some (codes "Requesting reload", s'))
            _ (λ x k. k)
            (Returns-bind (IsServing (counted text) s)
              (λ (x : Bytes × S). IsServing (counted text) s x.1)
              (reload_config f lib c compile unmarshal text s) _ (λ s' k. k)
              (reload_config-IsServing text s h)))
    | inr no_change ↦ rw no_change (IsServing-same s h)
  ]
  step-IsServing [] (query metric type) s h = look_up-IsServing metric type s h
  step-IsServing (b ∷ name) (query metric type) s h = look_up-IsServing metric type s h

  run-IsLive :
      (name : Bytes) (es : List Step) (s : S)
      → IsLive s.mapper
      → Returns (IsServing (all_loads name es) s) (run name es s)
  unfolding run
  run-IsLive name [] s h = IsServing-same s h
  run-IsLive name (e ∷ es) s h =
      Returns-bind (IsServing (loads name e) s) (IsServing (all_loads name (e ∷ es)) s)
        (step name e s) (run name es)
        (λ s' (h', failed, loaded).
          Returns-mono (IsServing (all_loads name es) s') (IsServing (all_loads name (e ∷ es)) s)
            (run name es s') (λ s'' (h'', failed', loaded'). (h'', omega arith, omega arith))
            (run-IsLive name es s' h'))
        (step-IsServing name e s h)

  -- From a mapper without glob rules whose logger is set and whose cache is not a nil pointer, any
  -- sequence of signals, requests and lookups goes through without a panic, whatever stands in the
  -- file at each load, given that the methods of the cache return. Behind it GetMapping returns for
  -- every metric, and without a cache its result has no label twice. Each load is counted once: as a
  -- failure where the file cannot be read or its text is refused, else as a success.
  pub run-IsServing :
      (name : Bytes) (es : List Step) (s : S)
      → IsUsable f lib c compile s.mapper
      → s.mapper.mapper.do_fsm ≡ false
      → Returns (IsServing (all_loads name es) s) (run name es s)
  run-IsServing name es s usable off =
      run-IsLive name es s (can_answer f lib c compile s.mapper.mapper (inl off), usable)
