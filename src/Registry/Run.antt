-- ===== src/Registry/Run.antt =====
-- The registry over any sequence of calls: reference counts, types and names together.
use statsd_bridge.Prelude.{
  ℕ, ◌%◌, ◌++◌, ◌≡◌, ◌∙◌, refl, sym, ap, All-lookup, inl, inr, Option, none, some, List, [], ◌∷◌,
  Bool-cases, Map, lookup, nat_eq, bytes_eq, All, All-mono, All-delete, Bytes, ℤ, IfReturns,
  IfReturns-bind,
}
use mathlib.Core.Option.{some-injective}
use statsd_bridge.Float.{Float}
use statsd_bridge.Labels.{Ref, Heap, deref}
use statsd_bridge.Metrics.{MetricType, Client, Vector, RegisteredMetric, Metric, Opts}
use statsd_bridge.Registry.{
  Registry, new_registry, delete_metric, remove_stale, remove_stale_all, remove_stale_metrics,
  is_stale, word,
}
use statsd_bridge.Registry.Hash.{hash_labels}
use statsd_bridge.Registry.Getters.{get_or_make, Got}
use statsd_bridge.Registry.RefCount.{count_refs}
use statsd_bridge.Registry.Expiry.{AllCounted, IsExpired, remove_stale_metrics_lem}
use statsd_bridge.Registry.Totality.{IsKeyed, IsSoundAt, AllSound, get_or_make-IfSound}
use statsd_bridge.Registry.Conflicts.{
  type_of, type_of_metric, Exposes, IsPlain, NoCollision, NoCollision-same, TypesKept,
  get_or_make-TypesKept,
}

module _ {f : Float} (c : Client f) (P : ℕ × RegisteredMetric c → Type 0) where
  abbrev AllIn : Metric c × c.World → Type 0
  AllIn (m, w) = All P m.metrics

  abbrev AllInEach : Map Bytes (Metric c) → Type 0
  AllInEach ms = All (λ (p : Bytes × Metric c). All P p.1.metrics) ms

  -- Deletions keep what holds of every registered metric.
  delete_metric-All :
      (h : Heap) (hash : ℕ) (rm : RegisteredMetric c) (o : Option (Vector c))
      (s : Metric c × c.World)
      → AllIn s
      → IfReturns AllIn (delete_metric c h hash rm o s)
  unfolding delete_metric
  delete_metric-All h hash rm none s a = tt
  delete_metric-All h hash rm (some v) (m, w) a = All-delete P hash m.metrics a

  remove_stale-All :
      (h : Heap) (now : ℕ) (rest : List (ℕ × RegisteredMetric c)) (s : Metric c × c.World)
      → AllIn s
      → IfReturns AllIn (remove_stale c h now rest s)
  unfolding remove_stale
  remove_stale-All h now [] s a = a
  remove_stale-All h now ((hash, rm) ∷ rest) s a = elim (Bool-cases (is_stale c now rm)) [
    | inl stale ↦ rw stale (
        IfReturns-bind AllIn AllIn (delete_metric c h hash rm (lookup rm.vec_key s.0.vectors) s)
          (remove_stale c h now rest) (remove_stale-All h now rest)
          (delete_metric-All h hash rm (lookup rm.vec_key s.0.vectors) s a))
    | inr kept ↦ rw kept (remove_stale-All h now rest s a)
  ]

  abbrev AllAfter : Map Bytes (Metric c) × c.World → Type 0
  AllAfter (ms, w) = AllInEach ms

  remove_stale_all-All :
      (h : Heap) (now : ℕ) (ms : Map Bytes (Metric c)) (w : c.World)
      → AllInEach ms
      → IfReturns AllAfter (remove_stale_all c h now ms w)
  unfolding remove_stale_all
  remove_stale_all-All h now [] w a = tt
  remove_stale_all-All h now ((name, m) ∷ ms) w a =
      IfReturns-bind AllIn AllAfter (remove_stale c h now m.metrics (m, w)) _
        (λ s x.
          IfReturns-bind AllAfter AllAfter (remove_stale_all c h now ms s.1) _ (λ t y. (x, y))
            (remove_stale_all-All h now ms s.1 a.1))
        (remove_stale-All h now m.metrics (m, w) a.0)

  pub remove_stale_metrics-All :
      (h : Heap) (now : ℕ) (r : Registry c)
      → AllInEach r.metrics
      → IfReturns (λ (r' : Registry c). AllInEach r'.metrics) (remove_stale_metrics c h now r)
  unfolding remove_stale_metrics
  remove_stale_metrics-All h now r a =
      IfReturns-bind AllAfter (λ (r' : Registry c). AllInEach r'.metrics)
        (remove_stale_all c h now r.metrics r.world) _ (λ s x. x)
        (remove_stale_all-All h now r.metrics r.world a)

module _ {f : Float} (c : Client f) (names_of : ℕ → ℕ) where
  -- A run of the registry: getters for any names, label sets and types, and rounds of expiry. The
  -- two hashes of each label set belong together.
  pub data Run : Registry c → Type 0 where
    created : (w : c.World) → Run (new_registry c w)
    asked :
        {r : Registry c} (h : Heap) (name : Bytes) (ref : Ref) (t : MetricType) (opts : Opts f)
        (ttl : ℤ) (now : ℕ) (got : Got c)
        → (hash_labels (deref h ref)).0.names ≡ names_of (hash_labels (deref h ref)).0.values
        → get_or_make c h name ref t opts ttl now r ≡ some got
        → Run r
        → Run got.0
    expired :
        {r : Registry c} (h : Heap) (now : ℕ) (r' : Registry c)
        → remove_stale_metrics c h now r ≡ some r'
        → Run r
        → Run r'

  all_counted : (ms : Map Bytes (Metric c)) → All (IsSoundAt c names_of) ms → AllCounted c 0 ms
  all_counted ms = All-mono (IsSoundAt c names_of) _ ms (λ (name, m) s. s.counted)

  All-IsKeyed :
      (ms : Map Bytes (Metric c))
      → All (IsSoundAt c names_of) ms
      → All (λ (p : Bytes × Metric c). All (IsKeyed c names_of) p.1.metrics) ms
  All-IsKeyed ms = All-mono (IsSoundAt c names_of) _ ms (λ (name, m) s. s.keyed)

  All-sound :
      (ms : Map Bytes (Metric c))
      → AllCounted c 0 ms
      → All (λ (p : Bytes × Metric c). All (IsKeyed c names_of) p.1.metrics) ms
      → All (IsSoundAt c names_of) ms
  All-sound [] x y = tt
  All-sound ((name, m) ∷ ms) x y = (record { counted = x.0; keyed = y.0 }, All-sound ms x.1 y.1)

  IsExpired-type :
      (now : ℕ) (o o' : Option (Metric c))
      → IsExpired c now o o'
      → type_of_metric c o' ≡ type_of_metric c o
  IsExpired-type now none none x = refl
  IsExpired-type now (some m) (some m') x = ap some x.0
  IsExpired-type now none (some m') x = absurd x
  IsExpired-type now (some m) none x = absurd x

  expired_sound :
      (h : Heap) (now : ℕ) (r r' : Registry c)
      → remove_stale_metrics c h now r ≡ some r'
      → AllSound c names_of r × NoCollision c r
      → AllSound c names_of r' × NoCollision c r'
  expired_sound h now r r' e (a, ok) =
      let (x, ex, counted, names) = remove_stale_metrics_lem c now h r (all_counted r.metrics a) in
      let same : x ≡ r' = some-injective x r' (sym ex ∙ e) in
      let keyed =
        rw e at
          (remove_stale_metrics-All c (IsKeyed c names_of) h now r (All-IsKeyed r.metrics a)) in
      (
        All-sound r'.metrics (rw same at counted) keyed,
        NoCollision-same c r r'
            (λ n.
              rw (← same) (IsExpired-type now (lookup n r.metrics) (lookup n x.metrics) (names n)))
            ok,
      )

  asked_sound :
      (h : Heap) (name : Bytes) (ref : Ref) (t : MetricType) (opts : Opts f) (ttl : ℤ) (now : ℕ)
      (r : Registry c) (got : Got c)
      → (hash_labels (deref h ref)).0.names ≡ names_of (hash_labels (deref h ref)).0.values
      → get_or_make c h name ref t opts ttl now r ≡ some got
      → AllSound c names_of r × NoCollision c r
      → AllSound c names_of got.0 × NoCollision c got.0
  asked_sound h name ref t opts ttl now r got k e (a, ok) =
      let kept : TypesKept c r got.0 =
        rw e at (get_or_make-TypesKept c h name ref t opts ttl now r) in
      (get_or_make-IfSound c names_of h name ref t opts ttl now r got k a e, kept.apart ok)

  Run-sound : {r : Registry c} → Run r → AllSound c names_of r × NoCollision c r
  unfolding new_registry lookup
  Run-sound (created w) = (tt, λ n suffix x p. x)
  Run-sound (asked {r} h name ref t opts ttl now got k e run) =
      asked_sound h name ref t opts ttl now r got k e (Run-sound run)
  Run-sound (expired {r} h now r' e run) = expired_sound h now r r' e (Run-sound run)

  -- In a registry that calls with label sets whose two hashes belong together and rounds of expiry have
  -- made, every vector's reference count is the
  -- number of registered metrics under the vector, modulo 2^64.
  pub Run-ref_counts :
      {r : Registry c} (name : Bytes) (m : Metric c) (k : ℕ) (v : Vector c)
      → Run r
      → lookup name r.metrics ≡ some m
      → lookup k m.vectors ≡ some v
      → v.ref_count ≡ count_refs c k m.metrics % word
  Run-ref_counts {r} name m k v run at_name at_key =
      let s = All-lookup (IsSoundAt c names_of) name m r.metrics (Run-sound run).0 at_name in
      rw at_key at (s.counted.accounts k)

  -- In a registry that calls with label sets whose two hashes belong together and rounds of expiry have
  -- made, no counter or gauge has the name under
  -- which a histogram (_bucket, _count, _sum) or a summary (_count, _sum) exposes its samples.
  pub Run-names_apart :
      {r : Registry c} (n suffix : Bytes)
      → Run r
      → Exposes c (type_of c r n) suffix
      → ¬ IsPlain c (type_of c r (n ++ suffix))
  Run-names_apart n suffix run x p = (Run-sound run).1 n suffix x p

  -- RemoveStaleMetrics returns in every registry that calls and rounds of expiry have made. Names
  -- and types stay. Under each name exactly those registered metrics are gone whose TTL is not 0
  -- and ends before now, counted from their last registration; the others are unchanged.
  pub Run-expiry_exact :
      {r : Registry c} (h : Heap) (now : ℕ)
      → Run r
      → (r' : Registry c) × (remove_stale_metrics c h now r ≡ some r')
        × ((name : Bytes) → IsExpired c now (lookup name r.metrics) (lookup name r'.metrics))
  Run-expiry_exact {r} h now run =
      let (r', e, _, x) =
        remove_stale_metrics_lem c now h r (all_counted r.metrics (Run-sound run).0) in
      (r', e, x)
