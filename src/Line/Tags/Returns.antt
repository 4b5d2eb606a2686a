-- ===== src/Line/Tags/Returns.antt =====
-- The tag parsers on valid UTF-8.
use statsd_bridge.Prelude.{
  ℕ, suc, ◌+◌, ◌-◌, ◌<◌, ◌≡◌, refl, ◌∙◌, ap, ap₂, inl, inr, true, false, ◌&&◌, ◌||◌, ◌==◌, List, [],
  ◌∷◌, ◌++◌, append_assoc, append-nil, Option, none, some, arith, Bool-cases, length, take, drop,
  All, Bytes, cut, leb, Option-cases, Returns, Returns-bind, map,
}
use mathlib.Core.Path.{subst}
use native.Mathlib.Numerals.{add-one}
use statsd_bridge.Prelude.Utf8.{valid_from}
use statsd_bridge.Prelude.Utf8.Parts.{IsUtf8, IsUtf8-parts, IsUtf8-append, cut-eq}
use statsd_bridge.Escape.{slice}
use statsd_bridge.Escape.Correct.{escape_metric_name-eq}
use statsd_bridge.Line.Tags.{
  Parser, Tagged, Named, is_empty, set_label, parse_tag, tags_from, parse_tags, parse_name_tags,
  trim_left_hash, parse_dogstatsd_tags, cut_tags, name_with_tags, index_byte, signalfx_tags,
  signalfx_name, parse_name_and_tags,
}
use statsd_bridge.Line.Tags.Brackets.{index_byte-eq, between-IsUtf8, Misordered, in_order}

abbrev pub Done {ℓ} : {A : Type ℓ} → A → Type 0
Done a = Unit

set_label-Returns : (k v : Bytes) (t : Tagged) → IsUtf8 k → Returns Done (set_label k v t)
unfolding set_label
set_label-Returns k v t h = rw (escape_metric_name-eq k h) tt

parse_tag-Returns :
    (separator : ℕ) (tag : Bytes) (t : Tagged)
    → separator < 0x80
    → IsUtf8 tag
    → Returns Done (parse_tag separator tag t)
unfolding parse_tag
parse_tag-Returns separator tag t small v = elim (Bool-cases (is_empty tag)) [
  | inl nothing ↦ rw nothing tt
  | inr something ↦ rw something (elim (Option-cases (cut separator tag)) [
    | inl missing ↦ rw missing tt
    | inr ((k, w), found) ↦ rw found (elim (Bool-cases (is_empty k || is_empty w)) [
      | inl bad ↦ rw bad tt
      | inr good ↦ rw good (
          set_label-Returns k w t
            (IsUtf8-parts k separator w small (subst IsUtf8 (cut-eq separator tag k w found) v)).0)
    ])
  ])
]

tags_from-IsUtf8 : (tag s : Bytes) → IsUtf8 (tag ++ s) → All IsUtf8 (tags_from tag s)
unfolding tags_from
tags_from-IsUtf8 tag [] v = elim (Bool-cases (is_empty tag)) [
  | inl nothing ↦ rw nothing tt
  | inr something ↦ rw something (rw append-nil at v, tt)
]
tags_from-IsUtf8 tag (c ∷ s) v = elim (Bool-cases (c == b',')) [
  | inl comma ↦
      let (before, after) = IsUtf8-parts tag c s (ground arith) v in
      rw comma (before, tags_from-IsUtf8 [] s after)
  | inr other ↦ rw other (tags_from-IsUtf8 (tag ++ c ∷ []) s (rw (append_assoc tag (c ∷ []) s) v))
]

parse_tags-Returns :
    (separator : ℕ) (tags : List Bytes) (t : Tagged)
    → separator < 0x80
    → All IsUtf8 tags
    → Returns Done (parse_tags separator tags t)
unfolding parse_tags
parse_tags-Returns separator [] t small v = tt
parse_tags-Returns separator (tag ∷ tags) t small v =
    Returns-bind Done Done (parse_tag separator tag t) _
      (λ t' _. parse_tags-Returns separator tags t' small v.1)
      (parse_tag-Returns separator tag t small v.0)

pub parse_name_tags-Returns :
    (component : Bytes) (t : Tagged) → IsUtf8 component → Returns Done (parse_name_tags component t)
unfolding parse_name_tags
parse_name_tags-Returns component t v =
    parse_tags-Returns b'=' (tags_from [] component) t (omega arith)
      (tags_from-IsUtf8 [] component v)

trim_left_hash-IsUtf8 : (s : Bytes) → IsUtf8 s → IsUtf8 (trim_left_hash s)
unfolding trim_left_hash valid_from
trim_left_hash-IsUtf8 [] v = refl
trim_left_hash-IsUtf8 (c ∷ s) v = elim (Bool-cases (c == b'#')) [
  | inl hash ↦ rw hash (IsUtf8-parts [] c s (ground arith) v).1
  | inr other ↦ rw other v
]

trimmed-IsUtf8 : (tags : List Bytes) → All IsUtf8 tags → All IsUtf8 (map trim_left_hash tags)
trimmed-IsUtf8 [] v = tt
trimmed-IsUtf8 (tag ∷ tags) v = (trim_left_hash-IsUtf8 tag v.0, trimmed-IsUtf8 tags v.1)

pub parse_dogstatsd_tags-Returns :
    (p : Parser) (component : Bytes) (t : Tagged)
    → IsUtf8 component
    → Returns Done (parse_dogstatsd_tags p component t)
unfolding parse_dogstatsd_tags
parse_dogstatsd_tags-Returns p component t v = elim (Bool-cases p.dogstatsd_tags_enabled) [
  | inl on ↦ rw on (
      parse_tags-Returns b':' (map trim_left_hash (tags_from [] component)) t (omega arith)
        (trimmed-IsUtf8 (tags_from [] component) (tags_from-IsUtf8 [] component v)))
  | inr off ↦ rw off tt
]

-- The byte at which Librato or InfluxDB tags begin, with the text around it.
cut_tags-eq :
    (p : Parser) (name before after : Bytes)
    → cut_tags p name ≡ some (before, after)
    → (c : ℕ) × (c < 0x80) × (name ≡ before ++ c ∷ after)
unfolding cut_tags
cut_tags-eq p [] before after e = cc
cut_tags-eq p (c ∷ s) before after e =
    elim (Bool-cases
      ((c == b'#' && p.librato_tags_enabled) || (c == b',' && p.influxdb_tags_enabled))) [
        | inl here ↦ (c, ground arith, ground arith)
        | inr other ↦ elim (Option-cases (cut_tags p s)) [
          | inl nothing ↦ absurd (ground arith)
          | inr ((k, v), found) ↦
              let (d, small, eq) = cut_tags-eq p s k v found in
              let at : (c ∷ k ≡ before) × (v ≡ after) = ground arith in
              (d, small, ap (λ (x : Bytes). c ∷ x) eq ∙ ap₂ (λ (x y : Bytes). x ++ d ∷ y) at.0 at.1)
        ]
      ]

abbrev pub NameIsUtf8 : Named → Type 0
NameIsUtf8 n = IsUtf8 n.0

name_with_tags-Returns :
    (p : Parser) (name : Bytes) (t : Tagged)
    → IsUtf8 name
    → Returns NameIsUtf8 (name_with_tags name (cut_tags p name) t)
unfolding name_with_tags
name_with_tags-Returns p name t v = elim (Option-cases (cut_tags p name)) [
  | inl nothing ↦ rw nothing v
  | inr ((before, after), found) ↦
      let (c, small, eq) = cut_tags-eq p name before after found in
      let (v1, v2) = IsUtf8-parts before c after small (subst IsUtf8 eq v) in
      rw found (
        Returns-bind Done NameIsUtf8 (parse_name_tags after t) _ (λ t' _. v1)
          (parse_name_tags-Returns after t v2))
]

signalfx_tags-Returns :
    (name : Bytes) (start end : ℕ) (t : Tagged)
    → IsUtf8 name
    → index_byte b'[' name ≡ some start
    → index_byte b']' name ≡ some end
    → start < end
    → Returns NameIsUtf8 (signalfx_tags name start end t)
unfolding signalfx_tags slice
signalfx_tags-Returns name start end t v at_start at_end lt =
    let (lt1, eq1) = index_byte-eq b'[' name start at_start in
    let (lt2, eq2) = index_byte-eq b']' name end at_end in
    let (v1, _) =
      IsUtf8-parts (take start name) b'[' (drop (suc start) name) (omega arith)
        (subst IsUtf8 eq1 v) in
    let (v2, v3) =
      IsUtf8-parts (take end name) b']' (drop (suc end) name) (omega arith) (subst IsUtf8 eq2 v) in
    let tags = take (end - suc start) (drop (suc start) name) in
    let inside : (leb (suc start) end && leb end (length name)) ≡ true = ground arith in
    rw (add-one start, add-one end, inside)
      (Returns-bind Done NameIsUtf8 (parse_name_tags tags t) _
        (λ t' _. IsUtf8-append (take start name) (drop (suc end) name) v1 v3)
        (parse_name_tags-Returns tags t
          (between-IsUtf8 b'[' [] name start end (omega arith) at_start lt v2)))

signalfx_name-Returns :
    (p : Parser) (name : Bytes) (start end : Option ℕ) (t : Tagged)
    → IsUtf8 name
    → index_byte b'[' name ≡ start
    → index_byte b']' name ≡ end
    → ¬ Misordered start end
    → Returns NameIsUtf8 (signalfx_name p name start end t)
unfolding signalfx_name
signalfx_name-Returns p name (some start) (some end) t v e e' h =
    signalfx_tags-Returns name start end t v e e' (in_order name start end e e' h)
signalfx_name-Returns p name (some start) none t v e e' h = v
signalfx_name-Returns p name none (some end) t v e e' h = v
signalfx_name-Returns p name none none t v e e' h = name_with_tags-Returns p name t v

-- The brackets of a name, where the parser looks at them.
abbrev pub Misbracketed : Parser → Bytes → Type 0
Misbracketed p name =
    (p.signalfx_tags_enabled ≡ true) × Misordered (index_byte b'[' name) (index_byte b']' name)

pub parse_name_and_tags-Returns :
    (p : Parser) (name : Bytes) (t : Tagged)
    → IsUtf8 name
    → ¬ Misbracketed p name
    → Returns NameIsUtf8 (parse_name_and_tags p name t)
unfolding parse_name_and_tags
parse_name_and_tags-Returns p name t v h = elim (Bool-cases p.signalfx_tags_enabled) [
  | inl on ↦ rw on (
      signalfx_name-Returns p name (index_byte b'[' name) (index_byte b']' name) t v refl refl
        (λ m. h (on, m)))
  | inr off ↦ rw off (name_with_tags-Returns p name t v)
]

-- A closing bracket before the opening one makes parseNameAndTags slice out of range.
signalfx_tags_panics :
    (name : Bytes) (start end : ℕ) (t : Tagged)
    → end < start
    → signalfx_tags name start end t ≡ none
unfolding signalfx_tags slice
signalfx_tags_panics name start end t lt =
    let outside : (leb (start + 1) end && leb end (length name)) ≡ false = ground arith in
    rw outside

pub parse_name_and_tags_panics :
    (p : Parser) (name : Bytes) (t : Tagged)
    → Misbracketed p name
    → parse_name_and_tags p name t ≡ none
unfolding parse_name_and_tags
parse_name_and_tags_panics p name t (on, m) =
    rw on (panics (index_byte b'[' name) (index_byte b']' name) m)
  where
    panics : (start end : Option ℕ) → Misordered start end → signalfx_name p name start end t ≡ none
    panics (some start) (some end) m =
        unfold signalfx_name in signalfx_tags_panics name start end t m
    panics (some start) none m = absurd m
    panics none (some end) m = absurd m
    panics none none m = absurd m
