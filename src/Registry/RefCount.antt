-- ===== src/Registry/RefCount.antt =====
-- The reference counts of the vectors, and the vectors that the metrics name.
use statsd_bridge.Prelude.{
  ℕ, ◌+◌, ◌-◌, ◌%◌, ◌<◌, ◌≡◌, refl, sym, ap, true, false, inl, inr, Option, none, some, [], ◌∷◌,
  arith, ==_iff, ◌==◌, Bool-cases, if◌then◌else◌, Map, lookup, insert, delete, nat_eq,
  lookup-insert, UniqueKeys, UniqueKeys-insert, UniqueKeys-delete, delete-absent, lookup_head, ℤ,
}
use native.Mathlib.Nat.{add-zero}
use statsd_bridge.Float.{Float}
use statsd_bridge.Labels.{Ref, Heap}
use statsd_bridge.Metrics.{LabelHash, Client, Vector, RegisteredMetric, Metric}
use statsd_bridge.Registry.{store_metric, vector_or_new, word}

module _ {f : Float} (c : Client f) where
  -- 1 for a metric under the vector `k`, and else 0
  abbrev pub refers : ℕ → RegisteredMetric c → ℕ
  refers k rm = if rm.vec_key == k then 1 else 0

  abbrev pub count_refs : ℕ → Map ℕ (RegisteredMetric c) → ℕ
  count_refs k [] = 0
  count_refs k ((hash, rm) ∷ ms) = refers k rm + count_refs k ms

  -- A vector's count is the number of metrics under it; a missing vector has none.
  abbrev pub Accounts : Option (Vector c) → ℕ → Type 0
  Accounts none n = n ≡ 0
  Accounts (some v) n = v.ref_count ≡ n % word

  pub record IsCounted (m : Metric c) : Type 0 where
    pub unique : UniqueKeys m.metrics
    pub accounts : (k : ℕ) → Accounts (lookup k m.vectors) (count_refs k m.metrics)

  count-insert_new :
      (k hash : ℕ) (rm : RegisteredMetric c) (ms : Map ℕ (RegisteredMetric c))
      → lookup hash ms ≡ none
      → count_refs k (insert hash rm ms) ≡ count_refs k ms + refers k rm
  unfolding insert lookup
  count-insert_new k hash rm [] h = omega arith
  count-insert_new k hash rm ((j, x) ∷ ms) h = elim (Bool-cases (j == hash)) [
    | inl same ↦ absurd (ground arith)
    | inr other ↦ rw other (omega (arith, count-insert_new k hash rm ms (rw other at h)))
  ]

  count-insert_same :
      (k hash : ℕ) (rm old : RegisteredMetric c) (ms : Map ℕ (RegisteredMetric c))
      → lookup hash ms ≡ some old
      → rm.vec_key ≡ old.vec_key
      → count_refs k (insert hash rm ms) ≡ count_refs k ms
  unfolding insert lookup
  count-insert_same k hash rm old [] h e = cc
  count-insert_same k hash rm old ((j, x) ∷ ms) h e = elim (Bool-cases (j == hash)) [
    | inl same ↦
        rw same
          (rw (e, ap (λ (r : RegisteredMetric c). r.vec_key) (lookup_head hash j old x ms same h)))
    | inr other ↦
        rw other
          (ap (λ (n : ℕ). refers k x + n) (count-insert_same k hash rm old ms (rw other at h) e))
  ]

  count-delete :
      (k hash : ℕ) (rm : RegisteredMetric c) (ms : Map ℕ (RegisteredMetric c))
      → UniqueKeys ms
      → lookup hash ms ≡ some rm
      → count_refs k (delete hash ms) + refers k rm ≡ count_refs k ms
  unfolding delete lookup
  count-delete k hash rm [] u h = cc
  count-delete k hash rm ((j, x) ∷ ms) u h = elim (Bool-cases (j == hash)) [
    | inl same ↦
        rw (same, delete-absent hash ms (rw ((==_iff j hash).0 same) at (u.0)))
          (rw (lookup_head hash j rm x ms same h) (omega arith))
    | inr other ↦ rw other (omega (arith, count-delete k hash rm ms u.1 (rw other at h)))
  ]

  count_pos :
      (hash : ℕ) (rm : RegisteredMetric c) (ms : Map ℕ (RegisteredMetric c))
      → UniqueKeys ms
      → lookup hash ms ≡ some rm
      → 0 < count_refs rm.vec_key ms
  count_pos hash rm ms u h = ground (arith, count-delete rm.vec_key hash rm ms u h)

  -- A registered metric has its vector, and the vector's count is not 0.
  pub has_vector :
      (hash : ℕ) (rm : RegisteredMetric c) (m : Metric c)
      → IsCounted m
      → lookup hash m.metrics ≡ some rm
      → (v : Vector c) × (lookup rm.vec_key m.vectors ≡ some v)
  has_vector hash rm m w h =
      found (lookup rm.vec_key m.vectors) (w.accounts rm.vec_key)
        (count_pos hash rm m.metrics w.unique h)
    where
      found : (o : Option (Vector c)) {n : ℕ} → Accounts o n → 0 < n → (v : Vector c) × (o ≡ some v)
      found none a p = absurd (omega arith)
      found (some v) a p = (v, refl)

  Accounts-succ :
      (o : Option (Vector c)) (vh : c.Vec) (n : ℕ)
      → Accounts o n
      → ((vector_or_new c o vh).ref_count + 1) % word ≡ (n + 1) % word
  Accounts-succ none vh n a = rw a
  Accounts-succ (some v) vh n a = omega arith

  Accounts-insert :
      (k names n : ℕ) (v : Vector c) (vs : Map ℕ (Vector c))
      → ((names == k) ≡ true → v.ref_count ≡ n % word)
      → ((names == k) ≡ false → Accounts (lookup k vs) n)
      → Accounts (lookup k (insert names v vs)) n
  Accounts-insert k names n v vs at_key elsewhere =
      rw (lookup-insert names k v vs) (elim (Bool-cases (names == k)) [
        | inl same ↦ rw same (at_key same)
        | inr other ↦ rw other (elsewhere other)
      ])

  Accounts-zero :
      (o : Option (Vector c)) (vh : c.Vec) (n : ℕ)
      → Accounts o n
      → (vector_or_new c o vh).ref_count ≡ n % word
  Accounts-zero none vh n a = rw a
  Accounts-zero (some v) vh n a = a

  pub store_metric-IsCounted :
      (m : Metric c) (o : Option (RegisteredMetric c)) (hash : LabelHash) (labels : Ref)
      (vh : c.Vec) (mh : c.Metric) (ttl : ℤ) (now : ℕ)
      → o ≡ lookup hash.values m.metrics
      → IsCounted m
      → IsCounted (
          store_metric c m
            (vector_or_new c (lookup hash.names m.vectors) vh)
            o
            hash
            labels
            mh
            ttl
            now)
  unfolding store_metric
  store_metric-IsCounted m none hash labels vh mh ttl now e w = record {
    unique = UniqueKeys-insert hash.values _ m.metrics w.unique;
    accounts = λ k.
        rw
          (count-insert_new k hash.values
            (record {
              last_registered_at = now;
              labels = labels;
              ttl = ttl;
              metric = mh;
              vec_key = hash.names;
            })
            m.metrics (sym e))
          (Accounts-insert k hash.names _ _ m.vectors
            (λ same.
              rw (same, (==_iff hash.names k).0 same)
                (Accounts-succ (lookup k m.vectors) vh (count_refs k m.metrics) (w.accounts k)))
            (λ other. rw other (rw add-zero (w.accounts k))));
  }
  store_metric-IsCounted m (some rm) hash labels vh mh ttl now e w = record {
    unique = UniqueKeys-insert hash.values _ m.metrics w.unique;
    accounts = λ k.
        rw
          (count-insert_same k hash.values (record rm { last_registered_at = now; ttl = ttl }) rm
            m.metrics (sym e) refl)
          (Accounts-insert k hash.names _ _ m.vectors
            (λ same.
              rw ((==_iff hash.names k).0 same)
                (Accounts-zero (lookup k m.vectors) vh (count_refs k m.metrics) (w.accounts k)))
            (λ other. w.accounts k));
  }

  -- A new time for a registered metric, as Get gives it.
  pub touch-IsCounted :
      (m : Metric c) (rm : RegisteredMetric c) (hash now : ℕ)
      → lookup hash m.metrics ≡ some rm
      → IsCounted m
      → IsCounted
          (record m { metrics = insert hash (record rm { last_registered_at = now }) m.metrics })
  touch-IsCounted m rm hash now h w = record {
    unique = UniqueKeys-insert hash _ m.metrics w.unique;
    accounts = λ k.
        rw (count-insert_same k hash (record rm { last_registered_at = now }) rm m.metrics h refl)
          (w.accounts k);
  }

  pub delete_metric-IsCounted :
      (h : Heap) (m : Metric c) (w : c.World) (hash : ℕ) (rm : RegisteredMetric c) (v : Vector c)
      → lookup hash m.metrics ≡ some rm
      → lookup rm.vec_key m.vectors ≡ some v
      → IsCounted m
      → IsCounted (record m {
        vectors =
            insert rm.vec_key (record v { ref_count = (v.ref_count + word - 1) % word }) m.vectors;
        metrics = delete hash m.metrics;
      })
  delete_metric-IsCounted h m w hash rm v found vector i = record {
    unique = UniqueKeys-delete hash m.metrics i.unique;
    accounts = λ k.
        let count = count-delete k hash rm m.metrics i.unique found in
        Accounts-insert k rm.vec_key _ _ m.vectors
          (λ same.
            let key = (==_iff rm.vec_key k).0 same in
            let held : v.ref_count ≡ count_refs k m.metrics % word =
              rw (← key) (rw vector at (i.accounts rm.vec_key)) in
            omega (arith, held, rw same at count))
          (λ other.
            let kept : count_refs k (delete hash m.metrics) ≡ count_refs k m.metrics =
              omega (arith, rw other at count) in
            rw kept (i.accounts k));
  }
