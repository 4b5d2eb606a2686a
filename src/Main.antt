-- ===== src/Main.antt =====
-- main.go: the cache that getCache makes, the reloads of the configuration and the HTTP endpoints.
pub mod Caches
pub mod Reloads
pub mod Start
pub mod Starts
use statsd_bridge.Prelude.{
  ℕ, zero, suc, ◌+◌, Bool, true, false, not, ◌&&◌, ◌||◌, Option, none, some, List, [], ◌∷◌, Bytes,
  codes, bytes_beq, ℤ, pos, negsuc, ◌⊎◌, inl, inr, length, ◌==◌, if◌then◌else◌, is_zero, ◌>>=◌,
}
use statsd_bridge.Float.{Float}
use statsd_bridge.Config.{MapperConfigDefaults, MetricMapping}
use statsd_bridge.Mapper.{Matcher, Cache, CacheResult}
use statsd_bridge.Mapper.Outcome.{InitError}
use statsd_bridge.Mapper.Reload.{Current, init_from_file}
use statsd_bridge.MapperCache.{RrCache, new_rr_cache, rr_get, Lru, LruCache, new_lru_cache, lru_get}

-- A value of the interface MetricMapperCache that is not nil: its pointer may be nil.
pub data AnyCache {V : Type 0} (l : Lru V) : Type 0 where
  lru : Option (LruCache l) → AnyCache l
  random : Option (RrCache V) → AnyCache l

-- the error of getCache
pub data CacheError : Type 0 where
  unsupported : Bytes → CacheError

module _ {V : Type 0} (l : Lru V) where
  -- the switch on the type
  unfoldable pub cache_of_type : ℤ → Bytes → CacheError ⊎ Option (AnyCache l)
  unfolding new_lru_cache new_rr_cache bytes_beq
  cache_of_type size type =
      if bytes_beq type (codes "lru")
      then inr (some (lru (new_lru_cache l size)))
      else if bytes_beq type (codes "random")
      then inr (some (random (new_rr_cache size)))
      else inl (unsupported type)

  -- getCache; `none` is the interface nil
  unfoldable pub get_cache : ℤ → Bytes → CacheError ⊎ Option (AnyCache l)
  unfolding cache_of_type
  get_cache size type = if is_zero size then inr none else cache_of_type size type

  -- Get of the interface; `none` is the panic for a nil pointer
  unfoldable pub any_get : Bytes → AnyCache l → Option (Option V × AnyCache l)
  unfolding lru_get rr_get
  any_get k (lru none) = none
  any_get k (lru (some c)) = let (v, c') = lru_get l k c in some (v, lru (some c'))
  any_get k (random none) = none
  any_get k (random (some c)) = some (rr_get k c, random (some c))

pub data Method : Type 0 where
  get put post other : Method

abbrev pub is_change : Method → Bool
is_change get = false
is_change put = true
is_change post = true
is_change other = false

-- the handlers of /-/healthy and /-/ready
unfoldable pub handle_healthy : Method → Bytes
handle_healthy get = codes "Statsd Exporter is Healthy.\n"
handle_healthy _ = []

unfoldable pub handle_ready : Method → Bytes
handle_ready get = codes "Statsd Exporter is Ready.\n"
handle_ready _ = []

module _ (f : Float) (lib : Matcher) (c : Cache (CacheResult f lib))
    (compile : Bytes → Option lib.Regex)
    (unmarshal : Bytes → Option (MapperConfigDefaults f × List (MetricMapping f lib.Regex))) where
  -- the mapper with the counters of configLoads
  pub record Server : Type 0 where
    pub mapper : Current f lib c compile
    pub failure : ℕ
    pub success : ℕ

  unfoldable pub count_load : Server → Option (Option InitError) × Current f lib c compile → Server
  count_load s (some e, m) = record s { mapper = m; failure = s.failure + 1 }
  count_load s (none, m) = record s { mapper = m; success = s.success + 1 }

  -- reloadConfig, for what os.ReadFile gives; `none` is a panic
  unfoldable pub reload_config : Option Bytes → Server → Option Server
  unfolding init_from_file count_load
  reload_config text s = do
    r ← init_from_file f lib c compile unmarshal text s.mapper
    some (count_load s r)

  -- sighupConfigReloader: a round for each signal, with what the file has then
  unfoldable pub sighup_config_reloader : Bytes → List (Option Bytes) → Server → Option Server
  unfolding reload_config
  sighup_config_reloader file_name [] s = some s
  sighup_config_reloader file_name (text ∷ texts) s =
      let rest = sighup_config_reloader file_name texts in
      if length file_name == 0 then rest s else (reload_config text s >>= rest)

  -- the handler of /-/reload: what it writes, and the server
  unfoldable pub handle_reload : Bytes → Option Bytes → Method → Server → Option (Bytes × Server)
  unfolding reload_config
  handle_reload mapping_config text method s =
      if not (is_change method)
      then some ([], s)
      else if length mapping_config == 0
      then some (codes "Requesting reload", s)
      else (reload_config text s >>= λ s'. some (codes "Requesting reload", s'))
