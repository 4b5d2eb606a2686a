-- ===== src/MapperCache/Laws.antt =====
-- Both caches as the mapper's interface, and the size of the one with random replacement.
use statsd_bridge.Prelude.{
  ℕ, zero, suc, ◌+◌, ◌%◌, ◌≤◌, ◌<◌, Option, none, some, [], ◌∷◌, ltb, length, arith, Map, lookup,
  insert, delete, lookup-insert, lookup-delete, bytes_eq, bytes_beq, bytes_beq_iff, Bytes, ◌⊎◌, inl,
  inr, ◌≡◌, refl, sym, ◌∙◌, Bool-cases,
}
use mathlib.Core.Path.{subst}
use mathlib.Core.Option.{some-injective}
use statsd_bridge.Mapper.{Cache}
use statsd_bridge.MapperCache.{
  RrCache, rr_get, evict, key_at, rr_add, rr_reset, Lru, LruCache, lru_get, lru_add, lru_reset,
  counted,
}

module _ {V : Type 0} where
  -- An eviction only takes an item away.
  evict_keeps :
      (o : Option Bytes) (k : Bytes) (v : V) (items : Map Bytes V)
      → lookup k (evict o items) ≡ some v
      → lookup k items ≡ some v
  unfolding evict
  evict_keeps none k v items e = e
  evict_keeps (some j) k v items e = ground (arith, lookup-delete j k items)

  length-delete_le : (k : Bytes) (items : Map Bytes V) → length (delete k items) ≤ length items
  unfolding delete
  length-delete_le k [] = omega arith
  length-delete_le k ((j, w) ∷ items) = elim (Bool-cases (bytes_beq j k)) [
    | inl same ↦ rw same (omega (arith, length-delete_le k items))
    | inr other ↦ rw other (omega (arith, length-delete_le k items))
  ]

  length-delete_at :
      (n : ℕ) (k : Bytes) (items : Map Bytes V)
      → key_at n items ≡ some k
      → length (delete k items) + 1 ≤ length items
  unfolding key_at delete
  length-delete_at n k [] e = absurd (ground arith)
  length-delete_at zero k ((j, w) ∷ items) e =
      rw ((bytes_beq_iff j k).1 (some-injective j k e)) (omega (arith, length-delete_le k items))
  length-delete_at (suc n) k ((j, w) ∷ items) e = elim (Bool-cases (bytes_beq j k)) [
    | inl same ↦ rw same (omega (arith, length-delete_le k items))
    | inr other ↦ rw other (omega (arith, length-delete_at n k items e))
  ]

  key_at-some :
      (n : ℕ) (items : Map Bytes V) → n < length items → (k : Bytes) × (key_at n items ≡ some k)
  unfolding key_at
  key_at-some n [] h = absurd (omega arith)
  key_at-some zero ((k, v) ∷ items) h = (k, refl)
  key_at-some (suc n) ((k, v) ∷ items) h = key_at-some n items (omega arith)

  length-evict :
      (n : ℕ) (items : Map Bytes V)
      → n < length items
      → length (evict (key_at n items) items) + 1 ≤ length items
  unfolding evict
  length-evict n items h = let (k, e) = key_at-some n items h in rw e (length-delete_at n k items e)

  length-insert :
      (k : Bytes) (v : V) (items : Map Bytes V) → length (insert k v items) ≤ length items + 1
  unfolding insert
  length-insert k v [] = omega arith
  length-insert k v ((j, w) ∷ items) = elim (Bool-cases (bytes_beq j k)) [
    | inl same ↦ rw same (omega arith)
    | inr other ↦ rw other (omega (arith, length-insert k v items))
  ]

  insert_keeps :
      (k k' : Bytes) (v v' : V) (items : Map Bytes V)
      → lookup k' (insert k v items) ≡ some v'
      → ((k ≡ k') × (v ≡ v')) ⊎ (lookup k' items ≡ some v')
  insert_keeps k k' v v' items e = elim (Bool-cases (bytes_beq k k')) [
    | inl same ↦ inl (
      (bytes_beq_iff k k').0 same,
      some-injective v v' (rw (lookup-insert k k' v items, same) at e),
    )
    | inr other ↦ inr (rw (lookup-insert k k' v items, other) at e)
  ]

  -- Add keeps the number of items within the size.
  pub rr_add-bound :
      (pick : ℕ → ℕ) (k : Bytes) (v : V) (c : RrCache V)
      → length c.items ≤ c.size
      → length (rr_add pick k v c).items ≤ (rr_add pick k v c).size
  unfolding rr_add
  rr_add-bound pick k v c h = elim (Bool-cases (ltb c.size (length (insert k v c.items)))) [
    | inr fits ↦ rw fits (ground arith)
    | inl full ↦
        let items = insert k v c.items in
        let n = pick c.evictions % length items in
        let less : n < length items = ground arith in
        rw full (omega (arith, length-evict n items less, length-insert k v c.items))
  ]

  pub rr_add_keeps :
      (pick : ℕ → ℕ) (k k' : Bytes) (v v' : V) (c : RrCache V)
      → rr_get k' (rr_add pick k v c) ≡ some v'
      → ((k ≡ k') × (v ≡ v')) ⊎ (rr_get k' c ≡ some v')
  unfolding rr_add rr_get
  rr_add_keeps pick k k' v v' c e = elim (Bool-cases (ltb c.size (length (insert k v c.items)))) [
    | inl full ↦
        insert_keeps k k' v v' c.items (evict_keeps _ k' v' (insert k v c.items) (rw full at e))
    | inr fits ↦ insert_keeps k k' v v' c.items (rw fits at e)
  ]

  pub rr_reset_empties : (k : Bytes) (v : V) (c : RrCache V) → ¬ (rr_get k (rr_reset c) ≡ some v)
  unfolding rr_get rr_reset lookup
  rr_reset_empties k v c e = ground arith

  -- The cache with random replacement, as the mapper uses it.
  abbrev pub rr_cache : (ℕ → ℕ) → Cache V
  rr_cache pick = record {
    Store = RrCache V;
    get = λ k c. (rr_get k c, c);
    add = rr_add pick;
    reset = rr_reset;
    Holds = λ c k v. rr_get k c ≡ some v;
    get-Holds = λ k v c e. e;
    get_keeps = λ k k' v c e. e;
    add_keeps = rr_add_keeps pick;
    reset_empties = rr_reset_empties;
  }

-- What the LRU cache of groupcache documents: it answers with what was added last, and with nothing
-- once it is cleared.
pub record IsLru {V : Type 0} (l : Lru V) : Type 1 where
  pub Holds : l.Store → Bytes → V → Type 0
  pub get-Holds : (k : Bytes) (v : V) (s : l.Store) → (l.get k s).0 ≡ some v → Holds s k v
  pub get_keeps : (k k' : Bytes) (v : V) (s : l.Store) → Holds (l.get k s).1 k' v → Holds s k' v
  pub add_keeps :
      (k k' : Bytes) (v v' : V) (s : l.Store)
      → Holds (l.add k v s) k' v'
      → ((k ≡ k') × (v ≡ v')) ⊎ Holds s k' v'
  pub clear_empties : (k : Bytes) (v : V) (s : l.Store) → ¬ Holds (l.clear s) k v

module _ {V : Type 0} (l : Lru V) where
  pub counted_lem :
      (answer : Option V × l.Store) (c : LruCache l)
      → ((counted l answer c).0 ≡ answer.0) × ((counted l answer c).1.cache ≡ answer.1)
  unfolding counted
  counted_lem (some v, s) c = (refl, refl)
  counted_lem (none, s) c = (refl, refl)

  -- The wrapper of the LRU cache, as the mapper uses it.
  unfoldable pub lru_cache : IsLru l → Cache V
  unfolding lru_get lru_add lru_reset counted
  lru_cache laws = record {
    Store = LruCache l;
    get = lru_get l;
    add = lru_add l;
    reset = lru_reset l;
    Holds = λ c k v. laws.Holds c.cache k v;
    get-Holds = λ k v c e. laws.get-Holds k v c.cache (get-Holds k v c e);
    get_keeps = λ k k' v c h. laws.get_keeps k k' v c.cache (get_keeps k k' v c h);
    add_keeps = λ k k' v v' c h. laws.add_keeps k k' v v' c.cache h;
    reset_empties = λ k v c h. laws.clear_empties k v c.cache h;
  }
    where
      get-Holds :
          (k : Bytes) (v : V) (c : LruCache l)
          → (lru_get l k c).0 ≡ some v
          → (l.get k c.cache).0 ≡ some v
      get-Holds k v c e = sym (counted_lem (l.get k c.cache) c).0 ∙ e

      get_keeps :
          (k k' : Bytes) (v : V) (c : LruCache l)
          → laws.Holds (lru_get l k c).1.cache k' v
          → laws.Holds (l.get k c.cache).1 k' v
      get_keeps k k' v c h = subst (λ s. laws.Holds s k' v) (counted_lem (l.get k c.cache) c).1 h
