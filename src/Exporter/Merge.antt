-- ===== src/Exporter/Merge.antt =====
-- pkg/exporter/exporter.go: the labels that an event has after the loop over the mapping's labels.
use statsd_bridge.Prelude.{
  ◌≡◌, ◌∙◌, ap, refl, Bool, true, false, Option, none, some, [], ◌∷◌, arith, lookup, bytes_eq,
  bytes_beq, bytes_beq_iff, Bytes, Bool-cases, inl, inr, lookup-insert, UniqueKeys, if◌then◌else◌,
  sym,
}
use mathlib.Core.Path.{subst}
use statsd_bridge.Labels.{Labels}
use statsd_bridge.Exporter.{merge_label, merge_labels}

-- The value of a label, from the event's and the mapping's value.
unfoldable pub preferred : Bool → Option Bytes → Option Bytes → Option Bytes
preferred honor none mapped = mapped
preferred honor (some v) none = some v
preferred honor (some v) (some w) = if honor then some v else some w

preferred-none : (honor : Bool) (o : Option Bytes) → preferred honor o none ≡ o
unfolding preferred
preferred-none honor none = refl
preferred-none honor (some v) = refl

lookup-merge_label_same :
    (honor : Bool) (j w : Bytes) (own : Labels) (o : Option Bytes)
    → o ≡ lookup j own
    → lookup j (merge_label honor j w own o) ≡ preferred honor o (some w)
unfolding merge_label preferred
lookup-merge_label_same honor j w own none e =
    ground (arith, lookup-insert j j w own, bytes_beq_iff j j)
lookup-merge_label_same honor j w own (some v) e =
    ground (arith, e, lookup-insert j j w own, bytes_beq_iff j j)

lookup-merge_label_other :
    (honor : Bool) (j w : Bytes) (own : Labels) (k : Bytes) (o : Option Bytes)
    → bytes_beq j k ≡ false
    → lookup k (merge_label honor j w own o) ≡ lookup k own
unfolding merge_label
lookup-merge_label_other honor j w own k none other = ground (arith, lookup-insert j k w own)
lookup-merge_label_other honor j w own k (some v) other = ground (arith, lookup-insert j k w own)

-- The round for a label j, then the rest of the mapping's labels.
lookup-merge_label :
    (honor : Bool) (j w : Bytes) (own : Labels) (k : Bytes) (rest : Option Bytes)
    → (bytes_beq j k ≡ true → rest ≡ none)
    → preferred honor (lookup k (merge_label honor j w own (lookup j own))) rest
      ≡ preferred honor (lookup k own) (if bytes_beq j k then some w else rest)
lookup-merge_label honor j w own k rest absent = elim (Bool-cases (bytes_beq j k)) [
  | inl same ↦ rw same (
      rw (absent same) (
        preferred-none honor _
        ∙ subst
            (λ (x : Bytes).
              lookup x (merge_label honor j w own (lookup j own))
              ≡ preferred honor (lookup x own) (some w))
            ((bytes_beq_iff j k).0 same)
            (lookup-merge_label_same honor j w own (lookup j own) refl)))
  | inr other ↦ rw other (
      ap (λ (o : Option Bytes). preferred honor o rest)
        (lookup-merge_label_other honor j w own k (lookup j own) other))
]

-- After the merge a label has the mapping's value, or the event's where the mapping gives none or
-- honor_labels is set and the event has the label. The mapping gives no label twice.
pub lookup-merge_labels :
    (honor : Bool) (mapped own : Labels) (label : Bytes)
    → UniqueKeys mapped
    → lookup label (merge_labels honor mapped own)
      ≡ preferred honor (lookup label own) (lookup label mapped)
unfolding merge_labels lookup
lookup-merge_labels honor [] own label unique = sym (preferred-none honor (lookup label own))
lookup-merge_labels honor ((j, w) ∷ mapped) own label unique =
    lookup-merge_labels honor mapped (merge_label honor j w own (lookup j own)) label unique.1
    ∙ lookup-merge_label honor j w own label (lookup label mapped) (λ same.
      subst (λ (x : Bytes). lookup x mapped ≡ none) ((bytes_beq_iff j label).0 same) unique.0)
