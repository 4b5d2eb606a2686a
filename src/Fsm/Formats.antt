-- ===== src/Fsm/Formats.antt =====
-- NewTemplateFormatter: the indexes that it makes for a number of captures.
use statsd_bridge.Prelude.{
  ℕ, zero, suc, ◌<◌, ◌≡◌, refl, Option, none, some, List, [], ◌∷◌, ◌++◌, arith, All, All-append,
  Bytes, ℤ, pos, negsuc, atoi, codes,
}
use statsd_bridge.Config.{TemplateFormatter}
use statsd_bridge.Fsm.Template.{
  capture_index, format_matches, formatter_of, new_template_formatter, replace, find_all,
}

-- The indexes of the formatter are indexes of the captures.
abbrev pub FitsCaptures : ℕ → TemplateFormatter → Type 0
FitsCaptures count t = All (λ i. i < count) t.capture_indexes

capture_index-lt : (count i : ℕ) (z : Option ℤ) → capture_index count z ≡ some i → i < count
unfolding capture_index
capture_index-lt count i none e = absurd (ground arith)
capture_index-lt count i (some (negsuc n)) e = absurd (ground arith)
capture_index-lt count i (some (pos zero)) e = absurd (ground arith)
capture_index-lt count i (some (pos (suc n))) e = ground arith

format_matches-All :
    (count : ℕ) (ms : List (Bytes × Bytes)) (indexes : List ℕ) (value : Bytes)
    → All (λ i. i < count) indexes
    → All (λ i. i < count) (format_matches count ms indexes value).0
unfolding format_matches
format_matches-All count [] indexes value h = h
format_matches-All count ((matched, name) ∷ rest) indexes value h =
    let step : Option ℕ → List ℕ × Bytes = λ o. elim o [
      | none ↦ format_matches count rest indexes (replace matched [] value)
      | some i ↦ format_matches count rest (indexes ++ i ∷ []) (replace matched (codes "%s") value)
    ] in
    elim (capture_index count (atoi name))
        as (λ o. capture_index count (atoi name) ≡ o → All (λ i. i < count) (step o).0) [
          | none ↦ λ e. format_matches-All count rest indexes (replace matched [] value) h
          | some i ↦ λ e.
              format_matches-All count rest (indexes ++ i ∷ []) (replace matched (codes "%s") value)
                (All-append (λ j. j < count) indexes (i ∷ []) h
                  (capture_index-lt count i (atoi name) e, tt))
        ]
      refl

formatter_of-FitsCaptures :
    (count : ℕ) (ms : List (Bytes × Bytes)) (template : Bytes)
    → FitsCaptures count (formatter_of count ms template)
unfolding formatter_of
formatter_of-FitsCaptures count [] template = tt
formatter_of-FitsCaptures count (m ∷ ms) template = format_matches-All count (m ∷ ms) [] template tt

pub new_template_formatter-FitsCaptures :
    (template : Bytes) (count : ℕ) → FitsCaptures count (new_template_formatter template count)
unfolding new_template_formatter
new_template_formatter-FitsCaptures template count =
    formatter_of-FitsCaptures count (find_all 0 template) template
