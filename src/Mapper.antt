-- ===== src/Mapper.antt =====
-- pkg/mapper/mapper.go and mapper_cache.go: the lookup of the mapping for a metric, with a cache in
-- front of it. The templates of pkg/mapper/fsm/formatter.go are filled in here.
pub mod Cached
pub mod Patterns
pub mod Outcome
pub mod Init
pub mod Safe
pub mod Options
pub mod Ready
pub mod Read
pub mod Reload
pub mod Fills
pub mod Lookup
pub mod Answers
pub mod Ordered
use statsd_bridge.Prelude.{
  ℕ, zero, suc, ◌+◌, ◌≡◌, Bool, true, false, not, Option, none, some, List, [], ◌∷◌, ◌++◌, ◌==◌,
  ◌⊎◌, if◌then◌else◌, insert, bytes_eq, Bytes, codes, ◌>>=◌,
}
use mathlib.Core.Option
use statsd_bridge.Float.{Float}
use statsd_bridge.Labels.{Labels}
use statsd_bridge.Event.{MetricType, counter, gauge, observer}
use statsd_bridge.Config.{MetricMapping, TemplateFormatter}
use statsd_bridge.Fsm.{Fsm, result}
use statsd_bridge.Fsm.Search
use statsd_bridge.Fsm.Search.{Found}

-- What the mapper uses of packages regexp and fmt.
pub record Matcher : Type 1 where
  pub Regex : Type 0
  pub Match : Type 0
  -- FindStringSubmatchIndex; `none` is the empty result
  pub find_submatch : Regex → Bytes → Option Match
  -- ExpandString of a template, for a source and its match
  pub expand : Regex → Bytes → Bytes → Match → Bytes
  -- fmt.Sprintf of string arguments
  pub sprintf : Bytes → List Bytes → Bytes

-- MetricMapperCache for results `V`: a cache that is there, and whose methods return; a nil pointer,
-- whose methods panic, is a value of its own in Mapper/Reload. `Holds` says what a cache may
-- answer; the laws are what the mapper relies on.
pub record Cache (V : Type 0) : Type 1 where
  pub Store : Type 0
  pub get : Bytes → Store → Option V × Store
  pub add : Bytes → V → Store → Store
  pub reset : Store → Store
  pub Holds : Store → Bytes → V → Type 0
  pub get-Holds : (k : Bytes) (v : V) (s : Store) → (get k s).0 ≡ some v → Holds s k v
  pub get_keeps : (k k' : Bytes) (v : V) (s : Store) → Holds (get k s).1 k' v → Holds s k' v
  pub add_keeps :
      (k k' : Bytes) (v v' : V) (s : Store)
      → Holds (add k v s) k' v'
      → ((k ≡ k') × (v ≡ v')) ⊎ Holds s k' v'
  pub reset_empties : (k : Bytes) (v : V) (s : Store) → ¬ Holds (reset s) k v

unfoldable pub get_elem? : {A : Type 0} → List A → ℕ → Option A
get_elem? [] i = none
get_elem? (x ∷ xs) zero = some x
get_elem? (x ∷ xs) (suc i) = get_elem? xs i

-- the string of a metric type
unfoldable pub type_name : MetricType → Bytes
type_name counter = codes "counter"
type_name gauge = codes "gauge"
type_name observer = codes "observer"

unfoldable pub format_key : Bytes → MetricType → Bytes
unfolding type_name
format_key metric type = type_name type ++ codes "." ++ metric

unfoldable pub same_type : MetricType → MetricType → Bool
same_type counter counter = true
same_type gauge gauge = true
same_type observer observer = true
same_type _ _ = false

module _ (f : Float) (lib : Matcher) where
  abbrev pub Mapping : Type 0
  Mapping = MetricMapping f lib.Regex

  -- MetricMapperCacheResult, which is also what GetMapping returns
  pub record CacheResult : Type 0 where
    pub mapping : Option Mapping
    pub matched : Bool
    pub labels : Labels

  -- MetricMapper without its cache. The results of the machine are pointers into the mappings: their
  -- places.
  pub record Mapper : Type 0 where
    pub mappings : List Mapping
    pub fsm : Fsm ℕ
    pub do_fsm : Bool
    pub do_regex : Bool

  abbrev pub miss : CacheResult
  miss = record { mapping = none; matched = false; labels = [] }

  -- the loop of Format; `none` is an index out of range
  unfoldable pub arguments : List ℕ → List Bytes → Option (List Bytes)
  unfolding get_elem?
  arguments [] captures = some []
  arguments (i ∷ indexes) captures = do
    v ← get_elem? captures i
    vs ← arguments indexes captures
    some (v ∷ vs)

  -- Format
  unfoldable pub format : TemplateFormatter → List Bytes → Option Bytes
  unfolding arguments
  format t captures =
      if t.capture_count == 0
      then some t.fmt_string
      else (arguments t.capture_indexes captures >>= λ vs. some (lib.sprintf t.fmt_string vs))

  unfoldable pub format_labels :
      List TemplateFormatter → List Bytes → List Bytes → Labels → Option Labels
  unfolding format
  format_labels [] keys captures labels = some labels
  format_labels (t ∷ ts) [] captures labels = none
  format_labels (t ∷ ts) (key ∷ keys) captures labels = do
    value ← format t captures
    format_labels ts keys captures (insert key value labels)

  -- the result for a final state of the machine
  unfoldable pub glob_result : Mapping → List Bytes → Option (CacheResult)
  unfolding format_labels
  glob_result v captures = do
    formatter ← v.name_formatter
    name ← format formatter captures
    labels ← format_labels v.label_formatters v.label_keys captures []
    some (record { mapping = some (record v { name = name }); matched = true; labels = labels })

  -- glob matching; a final state without a result, and no final state, is no match
  unfoldable pub glob_match : Bytes → MetricType → Mapper → Option (Option CacheResult)
  unfolding get_elem? type_name glob_result
  glob_match metric type m = do
    found ← Search.get_mapping metric (type_name type) m.fsm
    elim found [
      | none ↦ some none
      | some state ↦ elim (result state.final_state) [
        | none ↦ some none
        | some i ↦ do
          v ← get_elem? m.mappings i
          r ← glob_result v state.final_captures
          some (some r)
      ]
    ]

  unfoldable pub is_other_type : Option MetricType → MetricType → Bool
  unfolding same_type
  is_other_type none type = false
  is_other_type (some t) type = not (same_type t type)

  unfoldable pub expand_labels : lib.Regex → Bytes → lib.Match → Labels → Labels → Labels
  expand_labels regex metric matches [] labels = labels
  expand_labels regex metric matches ((label, value_expr) ∷ rest) labels =
      expand_labels regex metric matches rest
        (insert label (lib.expand regex value_expr metric matches) labels)

  -- what the loop finds for one mapping with a regex
  unfoldable pub regex_result :
      Bytes → MetricType → Mapping → lib.Regex → Option lib.Match → Option CacheResult
  unfolding is_other_type expand_labels
  regex_result metric type mapping regex none = none
  regex_result metric type mapping regex (some matches) =
      let mapping' = record mapping { name = lib.expand regex mapping.name metric matches } in
      if is_other_type mapping.match_metric_type type
      then none
      else some (record {
        mapping = some mapping';
        matched = true;
        labels = expand_labels regex metric matches mapping.labels [];
      })

  unfoldable pub try_mapping : Bytes → MetricType → Mapping → Option lib.Regex → Option CacheResult
  unfolding regex_result
  try_mapping metric type mapping none = none
  try_mapping metric type mapping (some regex) =
      regex_result metric type mapping regex (lib.find_submatch regex metric)

  -- regex matching
  unfoldable pub regex_match : Bytes → MetricType → List Mapping → CacheResult
  unfolding try_mapping
  regex_match metric type [] = miss
  regex_match metric type (mapping ∷ mappings) =
      elim (try_mapping metric type mapping mapping.regex) [
        | some r ↦ r
        | none ↦ regex_match metric type mappings
      ]

  module _ (c : Cache CacheResult) where
    -- the cache that is used, if one is
    unfoldable pub remember :
        Bytes → MetricType → CacheResult → Option c.Store → CacheResult × Option c.Store
    unfolding format_key
    remember metric type r none = (r, none)
    remember metric type r (some s) = (r, some (c.add (format_key metric type) r s))

    -- GetMapping behind the glob matching
    unfoldable pub after_globs :
        Bytes
        → MetricType
        → Mapper
        → Option c.Store
        → Option CacheResult
        → CacheResult × Option c.Store
    unfolding regex_match remember
    after_globs metric type m s (some r) = remember metric type r s
    after_globs metric type m s none =
        if m.do_regex
        then remember metric type (regex_match metric type m.mappings) s
        else remember metric type miss s

    -- GetMapping behind the look into the cache
    unfoldable pub find_mapping :
        Bytes → MetricType → Mapper → Option c.Store → Option (CacheResult × Option c.Store)
    unfolding glob_match after_globs
    find_mapping metric type m s =
        if m.do_fsm
        then (glob_match metric type m >>= λ found. some (after_globs metric type m s found))
        else some (remember metric type (regex_match metric type m.mappings) s)

    unfoldable pub or_find :
        Bytes
        → MetricType
        → Mapper
        → Option CacheResult × c.Store
        → Option (CacheResult × Option c.Store)
    unfolding find_mapping
    or_find metric type m (some r, s) = some (r, some s)
    or_find metric type m (none, s) = find_mapping metric type m (some s)

    -- GetMapping, with a cache that is not a nil pointer
    unfoldable pub get_mapping :
        Bytes → MetricType → Mapper → Option c.Store → Option (CacheResult × Option c.Store)
    unfolding or_find
    get_mapping metric type m none = find_mapping metric type m none
    get_mapping metric type m (some s) = or_find metric type m (c.get (format_key metric type) s)

    -- The end of InitFromYAMLString: the mapper `m` takes over the configuration `n`, and the cache
    -- is reset; `needed` is what TestIfNeedBacktracking answers. A cache that is a nil pointer is in
    -- Mapper/Reload.
    unfoldable pub take_over : Mapper → Bool → Mapper → Option c.Store → Mapper × Option c.Store
    take_over n needed m s = (
      if n.do_fsm
          then record n { fsm = record n.fsm { backtracking_needed = needed } }
          else record m { mappings = n.mappings; do_fsm = false },
      Option.map c.reset s,
    )
