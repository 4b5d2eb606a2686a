-- ===== src/Mapper/Fills.antt =====
-- Format of pkg/mapper/fsm/formatter.go and the result that GetMapping makes for a glob rule.
use statsd_bridge.Prelude.{
  ℕ, zero, suc, ◌<◌, ◌≤◌, ◌≡◌, inl, inr, true, Option, none, some, List, [], ◌∷◌, arith, Bytes,
  length, All, All-mono, ◌>>=◌, ◌==◌, bytes_beq, Bool-cases, Returns, Returns-bind, UniqueKeys,
  UniqueKeys-insert, insert, bytes_eq, split, length,
}
use statsd_bridge.Float.{Float}
use statsd_bridge.Labels.{Labels}
use statsd_bridge.Config.{MatchType, TemplateFormatter}
use statsd_bridge.Fsm.{capture_count, star}
use statsd_bridge.Fsm.Formats.{FitsCaptures}
use statsd_bridge.Mapper.{
  Matcher, Mapping, CacheResult, get_elem?, arguments, format, format_labels, glob_result,
}
use statsd_bridge.Mapper.Ready.{IsReadyFor, FitsName}

pub get_elem?-some :
    {A : Type 0} (xs : List A) (i : ℕ) → i < length xs → Returns (λ x. Unit) (get_elem? xs i)
unfolding get_elem?
get_elem?-some [] i h = absurd (omega arith)
get_elem?-some (x ∷ xs) zero h = tt
get_elem?-some (x ∷ xs) (suc i) h = get_elem?-some xs i (omega arith)

-- A rule has no more stars than fields.
capture_count-le : (fields : List Bytes) → capture_count fields ≤ length fields
unfolding capture_count
capture_count-le [] = omega arith
capture_count-le (f ∷ fields) =
    let more = capture_count-le fields in
    elim (Bool-cases (bytes_beq f star)) [ inl e ↦ rw e (omega arith) | inr e ↦ rw e (omega arith) ]

module _ (f : Float) (lib : Matcher) (compile : Bytes → Option lib.Regex) where
  arguments-Returns :
      (indexes : List ℕ) (captures : List Bytes)
      → All (λ i. i < length captures) indexes
      → Returns (λ vs. Unit) (arguments f lib indexes captures)
  unfolding arguments
  arguments-Returns [] captures h = tt
  arguments-Returns (i ∷ indexes) captures (h, hs) =
      Returns-bind (λ v. Unit) (λ vs. Unit) (get_elem? captures i) _
        (λ v _.
          Returns-bind (λ vs. Unit) (λ vs. Unit) (arguments f lib indexes captures) _ (λ vs _. tt)
            (arguments-Returns indexes captures hs))
        (get_elem?-some captures i h)

  format-Returns :
      (t : TemplateFormatter) (captures : List Bytes)
      → FitsCaptures (length captures) t
      → Returns (λ v. Unit) (format f lib t captures)
  unfolding format
  format-Returns t captures h = elim (Bool-cases (t.capture_count == 0)) [
    | inl e ↦ rw e tt
    | inr e ↦ rw e (
        Returns-bind (λ vs. Unit) (λ v. Unit) (arguments f lib t.capture_indexes captures) _
          (λ vs _. tt) (arguments-Returns t.capture_indexes captures h))
  ]

  format_labels-Returns :
      (ts : List TemplateFormatter) (keys captures : List Bytes) (labels : Labels)
      → All (FitsCaptures (length captures)) ts
      → length ts ≡ length keys
      → UniqueKeys labels
      → Returns UniqueKeys (format_labels f lib ts keys captures labels)
  unfolding format_labels
  format_labels-Returns [] keys captures labels h e u = u
  format_labels-Returns (t ∷ ts) [] captures labels h e u = absurd (omega arith)
  format_labels-Returns (t ∷ ts) (key ∷ keys) captures labels (h, hs) e u =
      Returns-bind (λ v. Unit) UniqueKeys (format f lib t captures) _
        (λ v _.
          format_labels-Returns ts keys captures (insert key v labels) hs (omega arith)
            (UniqueKeys-insert key v labels u))
        (format-Returns t captures h)

  -- the captures of a match have room for the indexes of the rule
  FitsCaptures-mono :
      (n n' : ℕ) (t : TemplateFormatter) → n ≤ n' → FitsCaptures n t → FitsCaptures n' t
  FitsCaptures-mono n n' t h k =
      All-mono (λ i. i < n) (λ i. i < n') t.capture_indexes (λ i lt. omega arith) k

  -- No label stands twice in the result.
  abbrev pub HasDistinct : CacheResult f lib → Type 0
  HasDistinct r = UniqueKeys r.labels

  -- The result for a glob rule that is ready, with a place in the captures for each field.
  pub glob_result-Returns :
      (v : Mapping f lib) (captures : List Bytes)
      → IsReadyFor f lib.Regex compile MatchType.glob v
      → length (split b'.' v.match) ≤ length captures
      → Returns HasDistinct (glob_result f lib v captures)
  unfolding glob_result
  glob_result-Returns v captures (line, name, labels, same) room =
      let fields = split b'.' v.match in
      let le = capture_count-le fields in
      let h : capture_count fields ≤ length captures = omega arith in
      elim v.name_formatter
          as (λ o.
            FitsName (capture_count fields) o
            → Returns HasDistinct (
                o >>= λ formatter. format f lib formatter captures >>= λ name.
                format_labels f lib v.label_formatters v.label_keys captures [] >>= λ labels.
                some (result_of name labels))) [
                  | none ↦ λ k. absurd k
                  | some t ↦ λ k.
                      Returns-bind (λ v. Unit) HasDistinct (format f lib t captures) _
                        (λ name' _.
                          Returns-bind UniqueKeys HasDistinct
                            (format_labels f lib v.label_formatters v.label_keys captures []) _
                            (λ ls d. d)
                            (format_labels-Returns v.label_formatters v.label_keys captures []
                              (All-mono _ _ v.label_formatters
                                (λ t'. FitsCaptures-mono _ (length captures) t' h) labels)
                              same tt))
                        (format-Returns t captures (FitsCaptures-mono _ (length captures) t h k))
                ]
        name
    where
      result_of : Bytes → Labels → CacheResult f lib
      result_of name labels = record {
        mapping = some (record v { name = name });
        matched = true;
        labels = labels;
      }
