-- ===== src/Registry/Conflicts.antt =====
-- The types of the metrics, and the names under which histograms and summaries expose samples.
use statsd_bridge.Prelude.{
  ℕ, ◌<◌, ◌≡◌, ◌⊎◌, ◌∙◌, refl, sym, ap, false, not, inl, inr, Option, none, some, List, ◌++◌, arith,
  Bool-cases, Option-cases, if◌then◌else◌, lookup, insert, lookup-insert, Bytes, bytes_beq,
  bytes_beq_iff, bytes_eq, nat_eq, has_suffix-append, trim_suffix-append, length, length-append, ℤ,
  IfReturns, IfReturns-then, IfReturns-mono, IfReturns-bind,
}
use mathlib.Core.Path.{subst}
use statsd_bridge.Float.{Float}
use statsd_bridge.Labels.{Labels, Ref, Heap, deref}
use statsd_bridge.Metrics.{
  MetricType, counter, gauge, summary, histogram, LabelHash, Client, Vector, RegisteredMetric,
  Metric, Opts,
}
use statsd_bridge.Registry.{
  Registry, store, store_metric, get, get_metric, get_registered, same_type, metric_or_new, Found,
  metric_conflicts,
}
use statsd_bridge.Registry.Hash.{hash_labels}
use statsd_bridge.Registry.Getters.{
  get_or_make, got_or_made, with_vec, store_got, refuses, vec_or_new, Got, collides_at,
  check_histogram_name_collision, bucket_suffix, count_suffix, sum_suffix,
}

module _ {f : Float} (c : Client f) where
  abbrev pub type_of_metric : Option (Metric c) → Option MetricType
  type_of_metric none = none
  type_of_metric (some m) = some m.metric_type

  -- The type under a name.
  abbrev pub type_of : Registry c → Bytes → Option MetricType
  type_of r name = type_of_metric (lookup name r.metrics)

  type_of-insert :
      (r : Registry c) (name n : Bytes) (m : Metric c)
      → type_of_metric (lookup n (insert name m r.metrics))
        ≡ (if bytes_beq name n then some m.metric_type else type_of r n)
  type_of-insert r name n m = rw (lookup-insert name n m r.metrics) (ground arith)

  type_of-insert_same :
      (r : Registry c) (name n : Bytes) (m m' : Metric c)
      → lookup name r.metrics ≡ some m
      → m'.metric_type ≡ m.metric_type
      → type_of_metric (lookup n (insert name m' r.metrics)) ≡ type_of r n
  type_of-insert_same r name n m m' e t =
      type_of-insert r name n m' ∙ elim (Bool-cases (bytes_beq name n)) [
        | inl same ↦ rw (same, t) (rw (← (bytes_beq_iff name n).0 same, e))
        | inr other ↦ rw other
      ]

  abbrev KeepsTypes : Registry c → Found c → Type 0
  KeepsTypes r found = (n : Bytes) → type_of found.0 n ≡ type_of r n

  type-get_registered :
      (name : Bytes) (hash : LabelHash) (now : ℕ) (r : Registry c) (m : Metric c)
      (o : Option (RegisteredMetric c))
      → lookup name r.metrics ≡ some m
      → IfReturns (KeepsTypes r) (get_registered c name hash now r m o)
  unfolding get_registered
  type-get_registered name hash now r m none e = λ n. refl
  type-get_registered name hash now r m (some rm) e =
      elim (Option-cases (lookup hash.names m.vectors)) [
        | inl nil ↦ rw nil tt
        | inr (v, vector) ↦ rw vector (λ n. type_of-insert_same r name n m _ e refl)
      ]

  type-get_metric :
      (name : Bytes) (hash : LabelHash) (t : MetricType) (now : ℕ) (r : Registry c)
      (o : Option (Metric c))
      → lookup name r.metrics ≡ o
      → IfReturns (KeepsTypes r) (get_metric c name hash t now r o)
  unfolding get_metric
  type-get_metric name hash t now r none e = λ n. refl
  type-get_metric name hash t now r (some m) e = elim (Bool-cases (same_type m.metric_type t)) [
    | inl same ↦ rw same (type-get_registered name hash now r m (lookup hash.values m.metrics) e)
    | inr other ↦ rw other (λ n. refl)
  ]

  metric_type-store_metric :
      (m : Metric c) (v : Vector c) (o : Option (RegisteredMetric c)) (hash : LabelHash)
      (labels : Ref) (mh : c.Metric) (ttl : ℤ) (now : ℕ)
      → (store_metric c m v o hash labels mh ttl now).metric_type ≡ m.metric_type
  unfolding store_metric
  metric_type-store_metric m v none hash labels mh ttl now = refl
  metric_type-store_metric m v (some rm) hash labels mh ttl now = refl

  -- the type under a name after Store: the one it had, or the new one
  abbrev type_or : Option MetricType → MetricType → Option MetricType
  type_or none t = some t
  type_or (some t') t = some t'

  type_or_new :
      (o : Option (Metric c)) (t : MetricType)
      → some (metric_or_new c o t).metric_type ≡ type_or (type_of_metric o) t
  type_or_new none t = refl
  type_or_new (some m) t = refl

  type-store :
      (name : Bytes) (hash : LabelHash) (labels : Ref) (vh : c.Vec) (mh : c.Metric) (t : MetricType)
      (ttl : ℤ) (now : ℕ) (r : Registry c) (n : Bytes)
      → type_of (store c name hash labels vh mh t ttl now r) n
        ≡ (if bytes_beq name n then type_or (type_of r name) t else type_of r n)
  unfolding store
  type-store name hash labels vh mh t ttl now r n =
      type_of-insert r name n _ ∙ rw (metric_type-store_metric, type_or_new)

  -- A name that does not conflict is free, or has the type asked for.
  free_or_same :
      (r : Registry c) (name : Bytes) (t : MetricType)
      → metric_conflicts c r name t ≡ false
      → (type_of r name ≡ none) ⊎ (type_of r name ≡ some t)
  unfolding metric_conflicts
  free_or_same r name t h = elim (Option-cases (lookup name r.metrics)) [
    | inl free ↦ inl (rw free)
    | inr (m, e) ↦ inr (rw e (same_type_eq m.metric_type t (rw e at h)))
  ]
    where
      same_type_eq : (a b : MetricType) → not (same_type a b) ≡ false → some a ≡ some b
      same_type_eq counter counter e = refl
      same_type_eq gauge gauge e = refl
      same_type_eq summary summary e = refl
      same_type_eq histogram histogram e = refl
      same_type_eq _ _ e = cc

  -- The suffixes of the samples that a metric of a type exposes beside its name.
  abbrev pub Exposes : Option MetricType → Bytes → Type 0
  Exposes (some histogram) suffix =
      (suffix ≡ bucket_suffix) ⊎ (suffix ≡ count_suffix) ⊎ (suffix ≡ sum_suffix)
  Exposes (some summary) suffix = (suffix ≡ count_suffix) ⊎ (suffix ≡ sum_suffix)
  Exposes _ suffix = ⊥

  abbrev pub IsPlain : Option MetricType → Type 0
  IsPlain (some counter) = Unit
  IsPlain (some gauge) = Unit
  IsPlain _ = ⊥

  -- No counter or gauge has the name of another metric's samples.
  abbrev pub NoCollision : Registry c → Type 0
  NoCollision r =
      (n suffix : Bytes) → Exposes (type_of r n) suffix → IsPlain (type_of r (n ++ suffix)) → ⊥

  pub NoCollision-same :
      (r r' : Registry c)
      → ((n : Bytes) → type_of r' n ≡ type_of r n)
      → NoCollision r
      → NoCollision r'
  NoCollision-same r r' e h n suffix x p =
      h n suffix (subst (λ o. Exposes o suffix) (e n) x) (subst IsPlain (e (n ++ suffix)) p)

  -- `r'` has one more name, of a type that was not refused.
  abbrev IsAdded : Registry c → Bytes → MetricType → Registry c → Type 0
  IsAdded r name t r' =
      (refuses c t r name ≡ false)
      × ((n : Bytes) → type_of r' n ≡ (if bytes_beq name n then some t else type_of r n))

  longer :
      (n suffix : Bytes) (t : Option MetricType)
      → Exposes t suffix
      → bytes_beq n (n ++ suffix) ≡ false
  longer n suffix t x = elim (Bool-cases (bytes_beq n (n ++ suffix))) [
    | inl same ↦ absurd (
        omega (
          arith,
          ap (λ (b : Bytes). length b) ((bytes_beq_iff n (n ++ suffix)).0 same),
          length-append n suffix,
          suffix_pos suffix t x,
        ))
    | inr other ↦ other
  ]
    where
      suffix_pos : (s : Bytes) (o : Option MetricType) → Exposes o s → 0 < length s
      suffix_pos s (some histogram) e = ground (arith)
      suffix_pos s (some summary) e = ground (arith)
      suffix_pos s _ e = absurd e

  not_plain_after :
      (r : Registry c) (n : Bytes) (t : MetricType)
      → ¬ IsPlain (some t)
      → metric_conflicts c r n t ≡ false
      → ¬ IsPlain (type_of r n)
  not_plain_after r n t np h p = elim (free_or_same r n t h) [
    | inl free ↦ rw free at p
    | inr same ↦ np (rw same at p)
  ]

  -- the new metric's own samples
  own_samples :
      (r : Registry c) (name suffix : Bytes) (t : MetricType)
      → refuses c t r name ≡ false
      → Exposes (some t) suffix
      → ¬ IsPlain (type_of r (name ++ suffix))
  unfolding refuses
  own_samples r name suffix histogram h (inl e) p =
      not_plain_after r (name ++ suffix) histogram (λ x. x) (rw e (ground arith)) p
  own_samples r name suffix histogram h (inr (inl e)) p =
      not_plain_after r (name ++ suffix) histogram (λ x. x) (rw e (ground arith)) p
  own_samples r name suffix histogram h (inr (inr e)) p =
      not_plain_after r (name ++ suffix) histogram (λ x. x) (rw e (ground arith)) p
  own_samples r name suffix summary h (inl e) p =
      not_plain_after r (name ++ suffix) summary (λ x. x) (rw e (ground arith)) p
  own_samples r name suffix summary h (inr e) p =
      not_plain_after r (name ++ suffix) summary (λ x. x) (rw e (ground arith)) p
  own_samples r name suffix counter h x p = x
  own_samples r name suffix gauge h x p = x

  base_is_free :
      (r : Registry c) (n suffix : Bytes)
      → collides_at c r (n ++ suffix) suffix ≡ false
      → metric_conflicts c r n counter ≡ false
  unfolding collides_at
  base_is_free r n suffix h = rw (has_suffix-append n suffix, trim_suffix-append n suffix) at h

  not_exposed :
      (r : Registry c) (n suffix : Bytes)
      → metric_conflicts c r n counter ≡ false
      → ¬ Exposes (type_of r n) suffix
  not_exposed r n suffix h x = elim (free_or_same r n counter h) [
    | inl free ↦ rw free at x
    | inr same ↦ rw same at x
  ]

  one_of_three :
      (t : Option MetricType) (suffix : Bytes)
      → Exposes t suffix
      → (suffix ≡ bucket_suffix) ⊎ (suffix ≡ count_suffix) ⊎ (suffix ≡ sum_suffix)
  one_of_three (some histogram) suffix x = x
  one_of_three (some summary) suffix x = inr x
  one_of_three _ suffix x = absurd x

  checked :
      (r : Registry c) (name : Bytes) (t : MetricType)
      → IsPlain (some t)
      → refuses c t r name ≡ false
      → check_histogram_name_collision c r name ≡ false
  unfolding refuses
  checked r name counter p h = ground arith
  checked r name gauge p h = ground arith
  checked r name _ p h = absurd p

  checked_suffix :
      (r : Registry c) (name suffix : Bytes)
      → (suffix ≡ bucket_suffix) ⊎ (suffix ≡ count_suffix) ⊎ (suffix ≡ sum_suffix)
      → check_histogram_name_collision c r name ≡ false
      → collides_at c r name suffix ≡ false
  unfolding check_histogram_name_collision
  checked_suffix r name suffix (inl e) h = rw e (ground arith)
  checked_suffix r name suffix (inr (inl e)) h = rw e (ground arith)
  checked_suffix r name suffix (inr (inr e)) h = rw e (ground arith)

  -- a new counter or gauge at another metric's samples
  others_samples :
      (r : Registry c) (n suffix : Bytes) (t : MetricType)
      → refuses c t r (n ++ suffix) ≡ false
      → IsPlain (some t)
      → ¬ Exposes (type_of r n) suffix
  others_samples r n suffix t h p x =
      not_exposed r n suffix
        (base_is_free r n suffix (
          checked_suffix r (n ++ suffix) suffix (one_of_three (type_of r n) suffix x)
            (checked r (n ++ suffix) t p h)))
        x

  NoCollision-added :
      (r r' : Registry c) (name : Bytes) (t : MetricType)
      → IsAdded r name t r'
      → NoCollision r
      → NoCollision r'
  NoCollision-added r r' name t (h, e) ok n suffix x p = elim (Bool-cases (bytes_beq name n)) [
    | inl same ↦
        let x' : Exposes (some t) suffix = rw (e n, same) at x in
        let at_name = (bytes_beq_iff name n).0 same in
        own_samples r name suffix t h x' (
          rw (longer name suffix (some t) x') at (rw (e (name ++ suffix)) at (rw (← at_name) at p)))
    | inr other ↦
        let x' : Exposes (type_of r n) suffix = rw (e n, other) at x in
        elim (Bool-cases (bytes_beq name (n ++ suffix))) [
          | inl same ↦
              others_samples r n suffix t (rw (← (bytes_beq_iff name (n ++ suffix)).0 same) h)
                (rw (e (n ++ suffix), same) at p) x'
          | inr different ↦ ok n suffix x' (rw (e (n ++ suffix), different) at p)
        ]
  ]

  -- What the part of a getter behind Get does to the types.
  abbrev TypeStep : Registry c → Bytes → MetricType → Registry c → Type 0
  TypeStep r name t r' = ((n : Bytes) → type_of r' n ≡ type_of r n) ⊎ IsAdded r name t r'

  not_refused :
      (r : Registry c) (name : Bytes) (t : MetricType)
      → refuses c t r name ≡ false
      → metric_conflicts c r name t ≡ false
  unfolding refuses
  not_refused r name counter h = ground arith
  not_refused r name gauge h = ground arith
  not_refused r name summary h = ground arith
  not_refused r name histogram h = ground arith

  type_or_same :
      (r : Registry c) (name : Bytes) (t : MetricType)
      → refuses c t r name ≡ false
      → type_or (type_of r name) t ≡ some t
  type_or_same r name t h = elim (free_or_same r name t (not_refused r name t h)) [
    | inl free ↦ rw free
    | inr same ↦ rw same
  ]

  TypeStep-store_got :
      (name : Bytes) (hash : LabelHash) (ref : Ref) (vec : c.Vec) (t : MetricType) (ttl : ℤ)
      (now : ℕ) (r : Registry c) (made : c.World × Option c.Metric)
      → refuses c t r name ≡ false
      → TypeStep r name t (store_got c name hash ref vec t ttl now r made).0
  unfolding store_got
  TypeStep-store_got name hash ref vec t ttl now r (w, none) h = inl (λ n. refl)
  TypeStep-store_got name hash ref vec t ttl now r (w, some m) h = inr (
    h,
    λ n.
        type-store name hash ref vec m t ttl now (record r { world = w }) n
        ∙ rw (type_or_same r name t h),
  )

  GotStep : Registry c → Bytes → MetricType → Got c → Type 0
  GotStep r name t got = TypeStep r name t got.0

  TypeStep-with_vec :
      (name : Bytes) (hash : LabelHash) (labels : Labels) (ref : Ref) (t : MetricType) (ttl : ℤ)
      (now : ℕ) (r : Registry c) (made : c.World × Option c.Vec)
      → refuses c t r name ≡ false
      → IfReturns (GotStep r name t) (with_vec c name hash labels ref t ttl now r made)
  unfolding with_vec GotStep
  TypeStep-with_vec name hash labels ref t ttl now r (w, none) h = inl (λ n. refl)
  TypeStep-with_vec name hash labels ref t ttl now r (w, some vec) h =
      IfReturns-then (GotStep r name t) (c.get_metric_with vec labels w) _
        (λ made. TypeStep-store_got name hash ref vec t ttl now r made h)

  TypeStep-got_or_made :
      (name : Bytes) (hash : LabelHash × List Bytes) (labels : Labels) (ref : Ref) (t : MetricType)
      (opts : Opts f) (ttl : ℤ) (now : ℕ) (found : Found c)
      → IfReturns (GotStep found.0 name t) (got_or_made c name hash labels ref t opts ttl now found)
  unfolding got_or_made GotStep
  TypeStep-got_or_made name (hash, names) labels ref t opts ttl now (r, vh, some m) =
      inl (λ n. refl)
  TypeStep-got_or_made name (hash, names) labels ref t opts ttl now (r, vh, none) =
      elim (Bool-cases (refuses c t r name)) [
        | inl refused ↦ rw refused (inl (λ n. refl))
        | inr allowed ↦ rw allowed (
            IfReturns-then (GotStep r name t) (vec_or_new c vh t opts names r.world) _
              (λ made. TypeStep-with_vec name hash labels ref t ttl now r made allowed))
      ]

  NoCollision-TypeStep :
      (r r' : Registry c) (name : Bytes) (t : MetricType)
      → TypeStep r name t r'
      → NoCollision r
      → NoCollision r'
  NoCollision-TypeStep r r' name t (inl e) h = NoCollision-same r r' e h
  NoCollision-TypeStep r r' name t (inr a) h = NoCollision-added r r' name t a h

  grown-TypeStep :
      (r r' : Registry c) (name n : Bytes) (t t' : MetricType)
      → TypeStep r name t r'
      → type_of r n ≡ some t'
      → type_of r' n ≡ some t'
  grown-TypeStep r r' name n t t' (inl e) h = e n ∙ h
  grown-TypeStep r r' name n t t' (inr (a, e)) h = e n ∙ elim (Bool-cases (bytes_beq name n)) [
    | inl same ↦ rw same (sym (type_or_same r name t a) ∙ rw ((bytes_beq_iff name n).0 same, h))
    | inr other ↦ rw other h
  ]

  -- What a getter does to the types, from the registry before to the one after.
  pub record TypesKept (r r' : Registry c) : Type 0 where
    pub stable : (n : Bytes) (t : MetricType) → type_of r n ≡ some t → type_of r' n ≡ some t
    pub apart : NoCollision r → NoCollision r'

  -- A getter never changes the type of a registered name. And it keeps the names apart: if no
  -- counter or gauge had the name under which a histogram (_bucket, _count, _sum) or a summary
  -- (_count, _sum) exposes samples, none has it after the call.
  pub get_or_make-TypesKept :
      (h : Heap) (name : Bytes) (ref : Ref) (t : MetricType) (opts : Opts f) (ttl : ℤ) (now : ℕ)
      (r : Registry c)
      → IfReturns (λ (got : Got c). TypesKept r got.0) (get_or_make c h name ref t opts ttl now r)
  unfolding get_or_make get GotStep
  get_or_make-TypesKept h name ref t opts ttl now r =
      let labels = deref h ref in
      IfReturns-bind (KeepsTypes r) (λ (got : Got c). TypesKept r got.0)
        (get_metric c name (hash_labels labels).0 t now r (lookup name r.metrics)) _
        (λ found same.
          IfReturns-mono (GotStep found.0 name t) (λ (got : Got c). TypesKept r got.0)
            (got_or_made c name (hash_labels labels) labels ref t opts ttl now found)
            (λ got step. record {
              stable = λ n t' e. grown-TypeStep found.0 got.0 name n t t' step (same n ∙ e);
              apart = λ ok.
                  NoCollision-TypeStep found.0 got.0 name t step
                    (NoCollision-same r found.0 same ok);
            })
            (TypeStep-got_or_made name (hash_labels labels) labels ref t opts ttl now found))
        (type-get_metric name (hash_labels labels).0 t now r (lookup name r.metrics) refl)
