-- ===== src/Fsm/Template.antt =====
-- pkg/mapper/fsm/formatter.go: NewTemplateFormatter, with the pattern \$\{?([a-zA-Z0-9_\$]+)\}? as
-- a scanner.
use statsd_bridge.Prelude.{
  ℕ, zero, suc, ◌+◌, ◌-◌, Bool, true, false, ◌&&◌, ◌||◌, Option, none, some, List, [], ◌∷◌, ◌++◌,
  ltb, leb, length, drop, if◌then◌else◌, Bytes, codes, has_prefix, ◌==◌, atoi, is_digit, ℤ, pos,
  negsuc,
}
use statsd_bridge.Config.{TemplateFormatter}

abbrev pub is_letter : ℕ → Bool
is_letter c = (leb b'a' c && leb c b'z') || (leb b'A' c && leb c b'Z')

-- the class [a-zA-Z0-9_\$]
unfoldable pub is_reference_byte : ℕ → Bool
is_reference_byte c = is_letter c || is_digit c || c == b'_' || c == b'$'

unfoldable pub reference_name : Bytes → Bytes
unfolding is_reference_byte
reference_name [] = []
reference_name (c ∷ s) = let more = reference_name s in if is_reference_byte c then c ∷ more else []

-- the byte, where the text begins with it
unfoldable pub optional : ℕ → Bytes → Bytes
optional b [] = []
optional b (c ∷ s) = if c == b then c ∷ [] else []

-- the match behind a dollar sign: the text that matches and the group
unfoldable pub reference_behind : Bytes → Option (Bytes × Bytes)
unfolding reference_name optional
reference_behind s =
    let brace = optional b'{' s in
    let name = reference_name (drop (length brace) s) in
    let close = optional b'}' (drop (length brace + length name) s) in
    if length name == 0 then none else some (b'$' ∷ (brace ++ (name ++ close)), name)

-- the match at the first byte
unfoldable pub reference_at : Bytes → Option (Bytes × Bytes)
unfolding reference_behind
reference_at [] = none
reference_at (c ∷ s) = if c == b'$' then reference_behind s else none

-- FindAllStringSubmatch behind `skip` bytes that belong to a match
unfoldable pub find_all : ℕ → Bytes → List (Bytes × Bytes)
unfolding reference_at
find_all skip [] = []
find_all (suc skip) (c ∷ s) = find_all skip s
find_all zero (c ∷ s) = elim (reference_at (c ∷ s)) [
  | none ↦ find_all zero s
  | some (matched, name) ↦ (matched, name) ∷ find_all (length matched - 1) s
]

-- strings.Replace(s, old, new, -1) for an `old` that is not empty, behind `skip` bytes of an `old`
unfoldable pub replace_from : ℕ → Bytes → Bytes → Bytes → Bytes
replace_from skip old new [] = []
replace_from (suc skip) old new (c ∷ s) = replace_from skip old new s
replace_from zero old new (c ∷ s) = elim (has_prefix (c ∷ s) old) [
  | true ↦ new ++ replace_from (length old - 1) old new s
  | false ↦ c ∷ replace_from zero old new s
]

unfoldable pub replace : Bytes → Bytes → Bytes → Bytes
unfolding replace_from
replace old new s = replace_from 0 old new s

-- the index for a group, if it is one of the captures
unfoldable pub capture_index : ℕ → Option ℤ → Option ℕ
capture_index count none = none
capture_index count (some (negsuc n)) = none
capture_index count (some (pos zero)) = none
capture_index count (some (pos (suc n))) = if ltb count (suc n) then none else some n

-- the loop over the matches
unfoldable pub format_matches : ℕ → List (Bytes × Bytes) → List ℕ → Bytes → List ℕ × Bytes
unfolding replace capture_index
format_matches count [] indexes value = (indexes, value)
format_matches count ((matched, name) ∷ rest) indexes value =
    elim (capture_index count (atoi name)) [
      | none ↦ format_matches count rest indexes (replace matched [] value)
      | some i ↦ format_matches count rest (indexes ++ i ∷ []) (replace matched (codes "%s") value)
    ]

unfoldable pub formatter_of : ℕ → List (Bytes × Bytes) → Bytes → TemplateFormatter
unfolding format_matches
formatter_of count [] template = record {
  capture_indexes = [];
  capture_count = 0;
  fmt_string = template;
}
formatter_of count (m ∷ ms) template =
    let (indexes, value) = format_matches count (m ∷ ms) [] template in
    record { capture_indexes = indexes; capture_count = length indexes; fmt_string = value }

-- NewTemplateFormatter
unfoldable pub new_template_formatter : Bytes → ℕ → TemplateFormatter
unfolding find_all formatter_of
new_template_formatter template count = formatter_of count (find_all 0 template) template
