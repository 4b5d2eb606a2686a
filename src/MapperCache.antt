-- ===== src/MapperCache.antt =====
-- pkg/mappercache: the cache with random replacement and the wrapper of the LRU cache. The gauge of
-- the length is not modelled; it is set by a goroutine of its own.
pub mod Laws
use statsd_bridge.Prelude.{
  ℕ, zero, suc, ◌+◌, ◌%◌, Bool, true, false, Option, none, some, List, [], ◌∷◌, ltb, length,
  if◌then◌else◌, Map, lookup, insert, delete, bytes_eq, Bytes, ℤ, pos, negsuc, is_positive, ◌⊎◌,
  ◌≡◌,
}

-- metricMapperRRCache. `evictions` counts the items evicted so far.
pub record RrCache (V : Type 0) : Type 0 where
  pub items : Map Bytes V
  pub size : ℕ
  pub evictions : ℕ

module _ {V : Type 0} where
  -- NewMetricMapperRRCache; nil is `none`.
  unfoldable pub new_rr_cache : ℤ → Option (RrCache V)
  new_rr_cache (pos zero) = none
  new_rr_cache (pos (suc n)) = some (record { items = []; size = suc n; evictions = 0 })
  new_rr_cache (negsuc n) = none

  unfoldable pub rr_get : Bytes → RrCache V → Option V
  rr_get k c = lookup k c.items

  -- the key at a place in the order of `range`
  unfoldable pub key_at : ℕ → Map Bytes V → Option Bytes
  key_at n [] = none
  key_at zero ((k, v) ∷ items) = some k
  key_at (suc n) ((k, v) ∷ items) = key_at n items

  -- the round of the loop that deletes one item
  unfoldable pub evict : Option Bytes → Map Bytes V → Map Bytes V
  evict none items = items
  evict (some k) items = delete k items

  -- Add. `pick` stands for the order in which the runtime ranges over the map: the n-th eviction
  -- takes the item at the place `pick n`, modulo the number of items.
  unfoldable pub rr_add : (ℕ → ℕ) → Bytes → V → RrCache V → RrCache V
  unfolding evict key_at
  rr_add pick k v c =
      let items = insert k v c.items in
      if ltb c.size (length items)
      then record c {
        items = evict (key_at (pick c.evictions % length items) items) items;
        evictions = c.evictions + 1;
      }
      else record c { items = items }

  -- Reset
  unfoldable pub rr_reset : RrCache V → RrCache V
  rr_reset c = record c { items = [] }

-- What the wrapper uses of github.com/golang/groupcache/lru.
pub record Lru (V : Type 0) : Type 1 where
  pub Store : Type 0
  -- New
  pub new : ℕ → Store
  pub get : Bytes → Store → Option V × Store
  pub add : Bytes → V → Store → Store
  pub clear : Store → Store

-- metricMapperLRUCache, with its counters of gets and hits
pub record LruCache {V : Type 0} (l : Lru V) : Type 0 where
  pub cache : l.Store
  pub gets_total : ℕ
  pub hits_total : ℕ

module _ {V : Type 0} (l : Lru V) where
  -- NewMetricMapperLRUCache; nil is `none`.
  unfoldable pub new_lru_cache : ℤ → Option (LruCache l)
  new_lru_cache (pos zero) = none
  new_lru_cache (pos (suc n)) =
      some (record { cache = l.new (suc n); gets_total = 0; hits_total = 0 })
  new_lru_cache (negsuc n) = none

  unfoldable pub counted : Option V × l.Store → LruCache l → Option V × LruCache l
  counted (some v, s) c =
      (some v, record c { cache = s; gets_total = c.gets_total + 1; hits_total = c.hits_total + 1 })
  counted (none, s) c = (none, record c { cache = s; gets_total = c.gets_total + 1 })

  -- Get
  unfoldable pub lru_get : Bytes → LruCache l → Option V × LruCache l
  unfolding counted
  lru_get k c = counted (l.get k c.cache) c

  -- Add
  unfoldable pub lru_add : Bytes → V → LruCache l → LruCache l
  lru_add k v c = record c { cache = l.add k v c.cache }

  -- Reset
  unfoldable pub lru_reset : LruCache l → LruCache l
  lru_reset c = record c { cache = l.clear c.cache }
