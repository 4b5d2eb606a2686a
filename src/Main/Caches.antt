-- ===== src/Main/Caches.antt =====
-- getCache of main.go: for which sizes the mapper can use the cache.
use statsd_bridge.Prelude.{
  ℕ, zero, suc, ◌<◌, [], ◌≡◌, refl, true, false, Option, none, some, Bytes, codes, bytes_beq,
  bytes_beq_iff, pos, negsuc, ◌⊎◌, inl, inr, Returns, Bool-cases, arith,
}
use statsd_bridge.MapperCache.{new_rr_cache, rr_get, Lru, new_lru_cache}
use statsd_bridge.Main.{
  AnyCache, lru, random, CacheError, unsupported, get_cache, cache_of_type, any_get,
}

module _ {V : Type 0} (l : Lru V) where
  -- A new cache of the type, which can be used and has room for `n` items.
  abbrev pub IsUsable : ℕ → Bytes → AnyCache l → Type 0
  IsUsable n type (lru none) = ⊥
  IsUsable n type (lru (some c)) = (type ≡ codes "lru") × (c.cache ≡ l.new n)
  IsUsable n type (random none) = ⊥
  IsUsable n type (random (some c)) = (type ≡ codes "random") × (c.size ≡ n) × (c.items ≡ [])

  abbrev pub IsGot : ℕ → Bytes → CacheError ⊎ Option (AnyCache l) → Type 0
  IsGot n type (inl (unsupported t)) =
      (t ≡ type) × ¬ (type ≡ codes "lru") × ¬ (type ≡ codes "random")
  IsGot n type (inr none) = n ≡ 0
  IsGot n type (inr (some cache)) =
      (0 < n) × IsUsable n type cache × ((k : Bytes) → Returns (λ r. Unit) (any_get l k cache))

  differs : (type name : Bytes) → bytes_beq type name ≡ false → ¬ (type ≡ name)
  differs type name e same = absurd (clash ((bytes_beq_iff type name).1 same))
    where
      clash : bytes_beq type name ≡ true → ⊥
      clash e' = ground arith

  -- getCache with a size that is not negative: for zero there is no cache; otherwise a new
  -- LRU cache of that size for the type "lru", a new cache with random replacement of that size for
  -- "random", on which Get returns for every key, or an error that carries the type for any other.
  pub get_cache-IsGot : (n : ℕ) (type : Bytes) → IsGot n type (get_cache l (pos n) type)
  unfolding get_cache cache_of_type new_lru_cache new_rr_cache any_get rr_get
  get_cache-IsGot zero type = refl
  get_cache-IsGot (suc n) type = elim (Bool-cases (bytes_beq type (codes "lru"))) [
    | inl is_lru ↦
        rw is_lru (ground arith, ((bytes_beq_iff type (codes "lru")).0 is_lru, refl), λ k. tt)
    | inr not_lru ↦ rw not_lru (elim (Bool-cases (bytes_beq type (codes "random"))) [
      | inl is_random ↦
          rw is_random
            (ground arith, ((bytes_beq_iff type (codes "random")).0 is_random, refl, refl), λ k. tt)
      | inr not_random ↦
          rw not_random
            (refl, differs type (codes "lru") not_lru, differs type (codes "random") not_random)
    ])
  ]

  -- The cache panics at every Get.
  abbrev pub IsBroken : CacheError ⊎ Option (AnyCache l) → Type 0
  IsBroken (inl e) = ⊥
  IsBroken (inr none) = ⊥
  IsBroken (inr (some cache)) = (k : Bytes) → any_get l k cache ≡ none

  -- getCache with a negative size and the type "lru" or "random": it returns no error and a cache that
  -- is not the interface nil, on which Get panics for every key.
  pub get_cache-IsBroken :
      (n : ℕ)
      → IsBroken (get_cache l (negsuc n) (codes "lru"))
        × IsBroken (get_cache l (negsuc n) (codes "random"))
  unfolding get_cache cache_of_type new_lru_cache new_rr_cache any_get bytes_beq
  get_cache-IsBroken n = (λ k. refl, λ k. refl)
