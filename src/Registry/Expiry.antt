-- ===== src/Registry/Expiry.antt =====
-- RemoveStaleMetrics: when it returns, and which metrics it removes.
use statsd_bridge.Prelude.{
  ℕ, zero, suc, ◌+◌, ◌-◌, ◌%◌, ◌<◌, ◌&&◌, not, ℤ, pos, negsuc, is_zero, added_before, ◌≡◌, ◌∙◌,
  refl, true, false, inl, inr, Option, none, some, [], ◌∷◌, arith, ==_iff, ◌==◌, Bool-cases,
  if◌then◌else◌, Map, lookup, insert, delete, nat_eq, bytes_eq, bytes_beq, lookup-delete,
  UniqueKeys, All, Bytes,
}
use statsd_bridge.Float.{Float}
use statsd_bridge.Labels.{Heap, deref}
use statsd_bridge.Metrics.{Client, RegisteredMetric, Metric}
use statsd_bridge.Registry.{
  Registry, delete_metric, remove_stale, remove_stale_all, remove_stale_metrics, is_stale, word,
}
use statsd_bridge.Registry.RefCount.{IsCounted, has_vector, delete_metric-IsCounted}

module _ {f : Float} (c : Client f) (now : ℕ) where
  -- what the code leaves of an entry
  abbrev fresh : Option (RegisteredMetric c) → Option (RegisteredMetric c)
  fresh none = none
  fresh (some rm) = if is_stale c now rm then none else some rm

  -- A TTL that is not 0, in nanoseconds since the registration at `t`, ends before now.
  abbrev pub IsOver : ℤ → ℕ → Type 0
  IsOver (pos zero) t = ⊥
  IsOver (pos (suc n)) t = t + suc n < now
  IsOver (negsuc n) t = t < now + suc n

  -- What may be left of an entry: nothing if its TTL is over, else the entry itself.
  abbrev pub IsFresh : Option (RegisteredMetric c) → Option (RegisteredMetric c) → Type 0
  IsFresh none none = Unit
  IsFresh (some rm) none = IsOver rm.ttl rm.last_registered_at
  IsFresh (some rm) (some rm') = (rm' ≡ rm) × ¬ IsOver rm.ttl rm.last_registered_at
  IsFresh _ _ = ⊥

  IsOver-is_stale :
      (ttl : ℤ) (t : ℕ)
      → ((not (is_zero ttl) && added_before t ttl now ≡ true) → IsOver ttl t)
        × ((not (is_zero ttl) && added_before t ttl now ≡ false) → ¬ IsOver ttl t)
  IsOver-is_stale (pos zero) t = (λ e. absurd (ground arith), λ e x. x)
  IsOver-is_stale (pos (suc n)) t = (λ e. ground arith, λ e x. absurd (ground arith))
  IsOver-is_stale (negsuc n) t = (λ e. ground arith, λ e x. absurd (ground arith))

  fresh-IsFresh : (o : Option (RegisteredMetric c)) → IsFresh o (fresh o)
  fresh-IsFresh none = tt
  fresh-IsFresh (some rm) =
      let (over, kept) = IsOver-is_stale rm.ttl rm.last_registered_at in
      elim (Bool-cases (is_stale c now rm)) [
        | inl stale ↦ rw stale (over stale)
        | inr other ↦ rw other (refl, kept other)
      ]

  -- what the loop leaves under a key, by what the rest of the loop sees there
  abbrev after_rest :
      Option (RegisteredMetric c) → Option (RegisteredMetric c) → Option (RegisteredMetric c)
  after_rest none current = current
  after_rest (some rm) current = fresh (some rm)

  abbrev IsHeld : Map ℕ (RegisteredMetric c) → ℕ × RegisteredMetric c → Type 0
  IsHeld ms (hash, rm) = lookup hash ms ≡ some rm

  IsHeld-delete :
      (hash : ℕ) (ms rest : Map ℕ (RegisteredMetric c))
      → lookup hash rest ≡ none
      → All (IsHeld ms) rest
      → All (IsHeld (delete hash ms)) rest
  unfolding lookup
  IsHeld-delete hash ms [] h a = tt
  IsHeld-delete hash ms ((j, rm) ∷ rest) h a =
      (ground (arith, lookup-delete hash j ms, a.0), IsHeld-delete hash ms rest (ground arith) a.1)

  after_rest-stale :
      (hash j : ℕ) (rm : RegisteredMetric c) (rest ms : Map ℕ (RegisteredMetric c))
      → is_stale c now rm ≡ true
      → lookup j rest ≡ none
      → after_rest (lookup hash rest) (lookup hash (delete j ms))
        ≡ after_rest (lookup hash ((j, rm) ∷ rest)) (lookup hash ms)
  unfolding lookup
  after_rest-stale hash j rm rest ms stale h = elim (Bool-cases (j == hash)) [
    | inl same ↦ rw (same, stale) (rw (lookup-delete j hash ms, same, ← (==_iff j hash).0 same, h))
    | inr other ↦ rw other (rw (lookup-delete j hash ms, other))
  ]

  after_rest-kept :
      (hash j : ℕ) (rm : RegisteredMetric c) (rest ms : Map ℕ (RegisteredMetric c))
      → is_stale c now rm ≡ false
      → lookup j rest ≡ none
      → lookup j ms ≡ some rm
      → after_rest (lookup hash rest) (lookup hash ms)
        ≡ after_rest (lookup hash ((j, rm) ∷ rest)) (lookup hash ms)
  unfolding lookup
  after_rest-kept hash j rm rest ms kept h held = elim (Bool-cases (j == hash)) [
    | inl same ↦ rw (same, kept) (rw (← (==_iff j hash).0 same, h, held))
    | inr other ↦ rw other
  ]

  remove_stale_lem :
      (h : Heap) (rest : Map ℕ (RegisteredMetric c)) (m : Metric c) (w : c.World)
      → UniqueKeys rest
      → All (IsHeld m.metrics) rest
      → IsCounted c m
      → (m' : Metric c) × (w' : c.World) × (remove_stale c h now rest (m, w) ≡ some (m', w'))
        × IsCounted c m'
        × (m'.metric_type ≡ m.metric_type)
        × ((hash : ℕ)
            → lookup hash m'.metrics ≡ after_rest (lookup hash rest) (lookup hash m.metrics))
  unfolding remove_stale delete_metric lookup
  remove_stale_lem h [] m w u held i = (m, w, refl, i, refl, λ hash. refl)
  remove_stale_lem h ((j, rm) ∷ rest) m w u held i = elim (Bool-cases (is_stale c now rm)) [
    | inl stale ↦
        let (v, vector) = has_vector c j rm m i held.0 in
        let m1 : Metric c = record m {
          vectors =
              insert rm.vec_key (record v { ref_count = (v.ref_count + word - 1) % word })
                m.vectors;
          metrics = delete j m.metrics;
        } in
        let w1 = c.delete v.holder (deref h rm.labels) w in
        let (m', w', e, i', t, l) =
          remove_stale_lem h rest m1 w1 u.1 (IsHeld-delete j m.metrics rest u.0 held.1)
            (delete_metric-IsCounted c h m w j rm v held.0 vector i) in
        (
          m',
          w',
          rw (stale, vector) e,
          i',
          t,
          λ hash. l hash ∙ after_rest-stale hash j rm rest m.metrics stale u.0,
        )
    | inr kept ↦
        let (m', w', e, i', t, l) = remove_stale_lem h rest m w u.1 held.1 i in
        (
          m',
          w',
          rw kept e,
          i',
          t,
          λ hash. l hash ∙ after_rest-kept hash j rm rest m.metrics kept u.0 held.0,
        )
  ]

  IsHeld-self :
      (ms rest : Map ℕ (RegisteredMetric c))
      → UniqueKeys rest
      → ((hash : ℕ) (rm : RegisteredMetric c)
          → lookup hash rest ≡ some rm
          → lookup hash ms ≡ some rm)
      → All (IsHeld ms) rest
  unfolding lookup
  IsHeld-self ms [] u h = tt
  IsHeld-self ms ((j, rm) ∷ rest) u h =
      (h j rm (ground arith), IsHeld-self ms rest u.1 (λ hash x e. h hash x (ground (arith, u.0))))

  after_rest_all : (o : Option (RegisteredMetric c)) → after_rest o o ≡ fresh o
  after_rest_all none = refl
  after_rest_all (some rm) = refl

  abbrev pub AllCounted : Map Bytes (Metric c) → Type 0
  AllCounted ms = All (λ (p : Bytes × Metric c). IsCounted c p.1) ms

  -- What the round makes of the metrics under one name.
  abbrev pub IsExpired : Option (Metric c) → Option (Metric c) → Type 0
  IsExpired none none = Unit
  IsExpired (some m) (some m') =
      (m'.metric_type ≡ m.metric_type)
      × ((hash : ℕ) → IsFresh (lookup hash m.metrics) (lookup hash m'.metrics))
  IsExpired _ _ = ⊥

  remove_stale_all_lem :
      (h : Heap) (ms : Map Bytes (Metric c)) (w : c.World)
      → AllCounted ms
      → (ms' : Map Bytes (Metric c)) × (w' : c.World) × (remove_stale_all c h now ms w
          ≡ some (ms', w'))
        × AllCounted ms'
        × ((name : Bytes) → IsExpired (lookup name ms) (lookup name ms'))
  unfolding remove_stale_all lookup
  remove_stale_all_lem h [] w a = ([], w, refl, tt, λ name. tt)
  remove_stale_all_lem h ((name, m) ∷ ms) w a =
      let (m', w1, e, i, t, l) =
        remove_stale_lem h m.metrics m w a.0.unique
          (IsHeld-self m.metrics m.metrics a.0.unique (λ hash rm x. x)) a.0 in
      let (ms', w2, e', a', x) = remove_stale_all_lem h ms w1 a.1 in
      (
        (name, m') ∷ ms',
        w2,
        rw (e, e'),
        (i, a'),
        λ other. elim (Bool-cases (bytes_beq name other)) [
          | inl same ↦ rw same (
            t,
            λ hash.
                rw (l hash ∙ after_rest_all (lookup hash m.metrics))
                  (fresh-IsFresh (lookup hash m.metrics)),
          )
          | inr different ↦ rw different (x other)
        ],
      )

  -- RemoveStaleMetrics returns, whatever labels are deleted from the vectors: no nil vector is
  -- followed. Names and types stay. Under each name exactly those registered metrics are gone whose
  -- TTL is not 0 and has passed since their last registration; the others are unchanged, and the
  -- reference counts are right again. They must be right before.
  pub remove_stale_metrics_lem :
      (h : Heap) (r : Registry c)
      → AllCounted r.metrics
      → (r' : Registry c) × (remove_stale_metrics c h now r ≡ some r')
        × AllCounted r'.metrics
        × ((name : Bytes) → IsExpired (lookup name r.metrics) (lookup name r'.metrics))
  unfolding remove_stale_metrics
  remove_stale_metrics_lem h r a =
      let (ms, w, e, a', x) = remove_stale_all_lem h r.metrics r.world a in
      (record { metrics = ms; world = w }, rw e, a', x)
