-- ===== src/Registry/Totality.antt =====
-- The getters: when they return, and what they do to the reference counts.
use statsd_bridge.Prelude.{
  ℕ, ◌≡◌, ◌∙◌, refl, sym, inl, inr, Option, none, some, List, Bool-cases, lookup, insert, nat_eq,
  bytes_eq, Returns, Returns-bind, IfReturns, IfReturns-then, All, All-insert, All-lookup, Bytes, ℤ,
}
use mathlib.Core.Path.{subst}
use statsd_bridge.Float.{Float}
use statsd_bridge.Labels.{Labels, Ref, Heap, deref}
use statsd_bridge.Metrics.{MetricType, LabelHash, Client, Vector, RegisteredMetric, Metric, Opts}
use statsd_bridge.Registry.{
  Registry, store, store_metric, get, get_metric, get_registered, same_type, metric_or_new, Found,
  holder_of,
}
use statsd_bridge.Registry.Hash.{hash_labels}
use statsd_bridge.Registry.Getters.{
  get_or_make, got_or_made, with_vec, store_got, refuses, vec_or_new, Got,
}
use statsd_bridge.Registry.RefCount.{IsCounted, has_vector, store_metric-IsCounted, touch-IsCounted}

-- `names_of` gives the name hash that belongs to a value hash, as it can where the 64-bit hashes of
-- the label sets in use do not collide.
module _ {f : Float} (c : Client f) (names_of : ℕ → ℕ) where
  abbrev pub IsKeyed : ℕ × RegisteredMetric c → Type 0
  IsKeyed (hash, rm) = rm.vec_key ≡ names_of hash

  pub record IsSound (m : Metric c) : Type 0 where
    pub counted : IsCounted c m
    pub keyed : All IsKeyed m.metrics

  abbrev pub IsSoundAt : Bytes × Metric c → Type 0
  IsSoundAt (name, m) = IsSound m

  abbrev pub AllSound : Registry c → Type 0
  AllSound r = All IsSoundAt r.metrics

  touch-IsSound :
      (m : Metric c) (rm : RegisteredMetric c) (hash now : ℕ)
      → lookup hash m.metrics ≡ some rm
      → IsSound m
      → IsSound
          (record m { metrics = insert hash (record rm { last_registered_at = now }) m.metrics })
  touch-IsSound m rm hash now e s = record {
    counted = touch-IsCounted c m rm hash now e s.counted;
    keyed =
        All-insert IsKeyed hash (record rm { last_registered_at = now }) m.metrics s.keyed
          (All-lookup IsKeyed hash rm m.metrics s.keyed e);
  }

  -- Get on a metric of the right type
  get_registered-AllSound :
      (name : Bytes) (hash : LabelHash) (now : ℕ) (r : Registry c) (m : Metric c)
      (o : Option (RegisteredMetric c))
      → o ≡ lookup hash.values m.metrics
      → hash.names ≡ names_of hash.values
      → AllSound r
      → IsSound m
      → (found : Found c) × (get_registered c name hash now r m o ≡ some found) × AllSound found.0
  unfolding get_registered
  get_registered-AllSound name hash now r m none e k a s =
      ((r, holder_of c (lookup hash.names m.vectors), none), refl, a)
  get_registered-AllSound name hash now r m (some rm) e k a s =
      let (v, vector) = has_vector c hash.values rm m s.counted (sym e) in
      let same : rm.vec_key ≡ hash.names =
        All-lookup IsKeyed hash.values rm m.metrics s.keyed (sym e) ∙ sym k in
      (
        (
          record r {
            metrics =
                insert name
                  (record m {
                    metrics = insert hash.values (record rm { last_registered_at = now }) m.metrics;
                  })
                  r.metrics;
          },
          some v.holder,
          some rm.metric,
        ),
        rw (rw same at vector),
        All-insert IsSoundAt name _ r.metrics a (touch-IsSound m rm hash.values now (sym e) s),
      )

  get_metric-AllSound :
      (name : Bytes) (hash : LabelHash) (t : MetricType) (now : ℕ) (r : Registry c)
      (o : Option (Metric c))
      → o ≡ lookup name r.metrics
      → hash.names ≡ names_of hash.values
      → AllSound r
      → (found : Found c) × (get_metric c name hash t now r o ≡ some found) × AllSound found.0
  unfolding get_metric
  get_metric-AllSound name hash t now r none e k a = ((r, none, none), refl, a)
  get_metric-AllSound name hash t now r (some m) e k a =
      elim (Bool-cases (same_type m.metric_type t)) [
        | inl same ↦ rw same (
            get_registered-AllSound name hash now r m (lookup hash.values m.metrics) refl k a
              (All-lookup IsSoundAt name m r.metrics a (sym e)))
        | inr other ↦ rw other ((r, none, none), refl, a)
      ]

  -- Store, whatever the vector and the metric handed to it
  IsSound-new :
      (o : Option (Metric c)) (t : MetricType) (name : Bytes) (r : Registry c)
      → o ≡ lookup name r.metrics
      → AllSound r
      → IsSound (metric_or_new c o t)
  unfolding lookup
  IsSound-new none t name r e a = record {
    counted = record { unique = tt; accounts = λ k. refl };
    keyed = tt;
  }
  IsSound-new (some m) t name r e a = All-lookup IsSoundAt name m r.metrics a (sym e)

  IsKeyed-store_metric :
      (m : Metric c) (v : Vector c) (o : Option (RegisteredMetric c)) (hash : LabelHash)
      (labels : Ref) (mh : c.Metric) (ttl : ℤ) (now : ℕ)
      → o ≡ lookup hash.values m.metrics
      → hash.names ≡ names_of hash.values
      → All IsKeyed m.metrics
      → All IsKeyed (store_metric c m v o hash labels mh ttl now).metrics
  unfolding store_metric
  IsKeyed-store_metric m v none hash labels mh ttl now e k a =
      All-insert IsKeyed hash.values _ m.metrics a k
  IsKeyed-store_metric m v (some rm) hash labels mh ttl now e k a =
      All-insert IsKeyed hash.values _ m.metrics a
        (All-lookup IsKeyed hash.values rm m.metrics a (sym e))

  pub store-AllSound :
      (name : Bytes) (hash : LabelHash) (labels : Ref) (vh : c.Vec) (mh : c.Metric) (t : MetricType)
      (ttl : ℤ) (now : ℕ) (r : Registry c)
      → hash.names ≡ names_of hash.values
      → AllSound r
      → AllSound (store c name hash labels vh mh t ttl now r)
  unfolding store
  store-AllSound name hash labels vh mh t ttl now r k a =
      let m = metric_or_new c (lookup name r.metrics) t in
      let s : IsSound m = IsSound-new (lookup name r.metrics) t name r refl a in
      All-insert IsSoundAt name _ r.metrics a (record {
        counted =
            store_metric-IsCounted c m (lookup hash.values m.metrics) hash labels vh mh ttl now refl
              s.counted;
        keyed =
            IsKeyed-store_metric m _ (lookup hash.values m.metrics) hash labels mh ttl now refl k
              s.keyed;
      })

  store_got-AllSound :
      (name : Bytes) (hash : LabelHash) (ref : Ref) (vec : c.Vec) (t : MetricType) (ttl : ℤ)
      (now : ℕ) (r : Registry c) (made : c.World × Option c.Metric)
      → hash.names ≡ names_of hash.values
      → AllSound r
      → AllSound (store_got c name hash ref vec t ttl now r made).0
  unfolding store_got
  store_got-AllSound name hash ref vec t ttl now r (w, none) k a = a
  store_got-AllSound name hash ref vec t ttl now r (w, some m) k a =
      store-AllSound name hash ref vec m t ttl now (record r { world = w }) k a

  GotSound : Got c → Type 0
  GotSound got = AllSound got.0

  with_vec-AllSound :
      (name : Bytes) (hash : LabelHash) (labels : Labels) (ref : Ref) (t : MetricType) (ttl : ℤ)
      (now : ℕ) (r : Registry c) (made : c.World × Option c.Vec)
      → hash.names ≡ names_of hash.values
      → AllSound r
      → IfReturns GotSound (with_vec c name hash labels ref t ttl now r made)
  unfolding with_vec GotSound
  with_vec-AllSound name hash labels ref t ttl now r (w, none) k a = a
  with_vec-AllSound name hash labels ref t ttl now r (w, some vec) k a =
      IfReturns-then GotSound (c.get_metric_with vec labels w) _
        (λ made. store_got-AllSound name hash ref vec t ttl now r made k a)

  got_or_made-AllSound :
      (name : Bytes) (hash : LabelHash × List Bytes) (labels : Labels) (ref : Ref) (t : MetricType)
      (opts : Opts f) (ttl : ℤ) (now : ℕ) (found : Found c)
      → hash.0.names ≡ names_of hash.0.values
      → AllSound found.0
      → IfReturns GotSound (got_or_made c name hash labels ref t opts ttl now found)
  unfolding got_or_made GotSound
  got_or_made-AllSound name (hash, names) labels ref t opts ttl now (r, vh, some m) k a = a
  got_or_made-AllSound name (hash, names) labels ref t opts ttl now (r, vh, none) k a =
      elim (Bool-cases (refuses c t r name)) [
        | inl refused ↦ rw refused a
        | inr allowed ↦ rw allowed (
            IfReturns-then GotSound (vec_or_new c vh t opts names r.world) _
              (λ made. with_vec-AllSound name hash labels ref t ttl now r made k a))
      ]

  -- The client library does not panic for these labels and options.
  abbrev pub IsAnswered : Labels → Opts f → Type 0
  IsAnswered labels opts =
      ((w : c.World) → Returns (λ x. Unit) (c.new_vec opts (hash_labels labels).1 w))
      × ((vec : c.Vec) (w : c.World) → Returns (λ x. Unit) (c.get_metric_with vec labels w))

  with_vec-Returns :
      (name : Bytes) (hash : LabelHash) (labels : Labels) (ref : Ref) (t : MetricType) (ttl : ℤ)
      (now : ℕ) (r : Registry c) (made : c.World × Option c.Vec)
      → ((vec : c.Vec) (w : c.World) → Returns (λ x. Unit) (c.get_metric_with vec labels w))
      → Returns (λ got. Unit) (with_vec c name hash labels ref t ttl now r made)
  unfolding with_vec
  with_vec-Returns name hash labels ref t ttl now r (w, none) h = tt
  with_vec-Returns name hash labels ref t ttl now r (w, some vec) h =
      Returns-bind (λ x. Unit) (λ got. Unit) (c.get_metric_with vec labels w) _ (λ made x. tt)
        (h vec w)

  vec_or_new-Returns :
      (vh : Option c.Vec) (t : MetricType) (opts : Opts f) (names : List Bytes) (w : c.World)
      → ((w : c.World) → Returns (λ x. Unit) (c.new_vec opts names w))
      → Returns (λ x. Unit) (vec_or_new c vh t opts names w)
  unfolding vec_or_new
  vec_or_new-Returns none t opts names w h =
      Returns-bind (λ x. Unit) (λ x. Unit) (c.new_vec opts names (c.inc_metrics_count t w)) _
        (λ made x. tt) (h (c.inc_metrics_count t w))
  vec_or_new-Returns (some vec) t opts names w h = tt

  got_or_made-Returns :
      (name : Bytes) (labels : Labels) (ref : Ref) (t : MetricType) (opts : Opts f) (ttl : ℤ)
      (now : ℕ) (found : Found c)
      → IsAnswered labels opts
      → Returns
          (λ got. Unit)
          (got_or_made c name (hash_labels labels) labels ref t opts ttl now found)
  unfolding got_or_made
  got_or_made-Returns name labels ref t opts ttl now (r, vh, some m) h = tt
  got_or_made-Returns name labels ref t opts ttl now (r, vh, none) (made, metric) =
      elim (Bool-cases (refuses c t r name)) [
        | inl refused ↦ rw refused tt
        | inr allowed ↦ rw allowed (
            Returns-bind (λ x. Unit) (λ got. Unit)
              (vec_or_new c vh t opts (hash_labels labels).1 r.world) _
              (λ x _. with_vec-Returns name (hash_labels labels).0 labels ref t ttl now r x metric)
              (vec_or_new-Returns vh t opts (hash_labels labels).1 r.world made))
      ]

  Returns-both :
      {A : Type 0} (P : A → Type 0) (o : Option A)
      → Returns (λ a. Unit) o
      → IfReturns P o
      → (a : A) × (o ≡ some a) × P a
  Returns-both P none h k = absurd h
  Returns-both P (some a) h k = (a, refl, k)

  -- What the body of the four getters gives keeps the reference counts right, whatever the client
  -- library answers. They are right before, and the two hashes of the label set belong together.
  pub get_or_make-IfSound :
      (h : Heap) (name : Bytes) (ref : Ref) (t : MetricType) (opts : Opts f) (ttl : ℤ) (now : ℕ)
      (r : Registry c) (got : Got c)
      → (hash_labels (deref h ref)).0.names ≡ names_of (hash_labels (deref h ref)).0.values
      → AllSound r
      → get_or_make c h name ref t opts ttl now r ≡ some got
      → AllSound got.0
  unfolding get_or_make get GotSound
  get_or_make-IfSound h name ref t opts ttl now r got k a given =
      let hash = hash_labels (deref h ref) in
      let (found, e, a') =
        get_metric-AllSound name hash.0 t now r (lookup name r.metrics) refl k a in
      subst (IfReturns GotSound) (rw e at given)
        (got_or_made-AllSound name hash (deref h ref) ref t opts ttl now found k a')

  -- The body of the four getters returns for every name, label set and type for which the client
  -- library does not panic: no nil vector is followed. It keeps the reference counts right. The counts
  -- are right before, and the two hashes of the label set belong together.
  pub get_or_make-AllSound :
      (h : Heap) (name : Bytes) (ref : Ref) (t : MetricType) (opts : Opts f) (ttl : ℤ) (now : ℕ)
      (r : Registry c)
      → (hash_labels (deref h ref)).0.names ≡ names_of (hash_labels (deref h ref)).0.values
      → IsAnswered (deref h ref) opts
      → AllSound r
      → (got : Got c) × (get_or_make c h name ref t opts ttl now r ≡ some got) × AllSound got.0
  unfolding get_or_make get GotSound
  get_or_make-AllSound h name ref t opts ttl now r k answered a =
      let hash = hash_labels (deref h ref) in
      let (found, e, a') =
        get_metric-AllSound name hash.0 t now r (lookup name r.metrics) refl k a in
      rw e (
        Returns-both GotSound (got_or_made c name hash (deref h ref) ref t opts ttl now found)
          (got_or_made-Returns name (deref h ref) ref t opts ttl now found answered)
          (got_or_made-AllSound name hash (deref h ref) ref t opts ttl now found k a'))
