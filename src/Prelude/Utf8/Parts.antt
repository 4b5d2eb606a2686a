-- ===== src/Prelude/Utf8/Parts.antt =====
-- Valid UTF-8 and ASCII separators: parts and joins.
use statsd_bridge.Prelude.{
  ℕ, zero, suc, ◌-◌, ◌≤◌, ◌<◌, ◌≡◌, refl, ◌∙◌, ap, ap₂, inl, inr, Bool, true, false, ◌&&◌, ◌==◌, [],
  ◌∷◌, ◌++◌, append_assoc, append-nil, some, arith, Bool-cases, length, All, Bytes, split, cut, ltb,
  Option-cases,
}
use statsd_bridge.Prelude.Text.{split_from}
use statsd_bridge.Prelude.Utf8.{
  Rune, decode, decode_two, decode_three, decode_four, valid_from, valid_string,
}
use statsd_bridge.Prelude.Utf8.Ascii.{valid_from-ascii, decode_fits}

abbrev pub IsUtf8 : Bytes → Type 0
IsUtf8 s = valid_string s ≡ true

pub IsUtf8-parts :
    (a : Bytes) (c : ℕ) (t : Bytes) → c < 0x80 → IsUtf8 (a ++ c ∷ t) → IsUtf8 a × IsUtf8 t
IsUtf8-parts a c t small h = ground (arith, valid_from-ascii 0 a c t small)

pub IsUtf8-join :
    (a : Bytes) (c : ℕ) (t : Bytes) → c < 0x80 → IsUtf8 a → IsUtf8 t → IsUtf8 (a ++ c ∷ t)
IsUtf8-join a c t small h k = ground (arith, valid_from-ascii 0 a c t small)

abbrev is_bad : Rune → Bool
is_bad r = r.code == 0xfffd && r.width == 1

module _ (t : Bytes) (b : ℕ) where
  decode_two-append :
      (a : Bytes) → is_bad (decode_two b a) ≡ false → decode_two b (a ++ t) ≡ decode_two b a
  unfolding decode_two
  decode_two-append [] h = cc
  decode_two-append (x ∷ a) h = refl

  decode_three-append :
      (a : Bytes) → is_bad (decode_three b a) ≡ false → decode_three b (a ++ t) ≡ decode_three b a
  unfolding decode_three
  decode_three-append [] h = cc
  decode_three-append (x ∷ []) h = cc
  decode_three-append (x ∷ y ∷ a) h = refl

  decode_four-append :
      (a : Bytes) → is_bad (decode_four b a) ≡ false → decode_four b (a ++ t) ≡ decode_four b a
  unfolding decode_four
  decode_four-append [] h = cc
  decode_four-append (x ∷ []) h = cc
  decode_four-append (x ∷ y ∷ []) h = cc
  decode_four-append (x ∷ y ∷ z ∷ a) h = refl

  decode-append : (a : Bytes) → is_bad (decode b a) ≡ false → decode b (a ++ t) ≡ decode b a
  unfolding decode
  decode-append a = elim (Bool-cases (ltb b 0x80)) [
    | inl h ↦ rw h (λ _. refl)
    | inr h1 ↦ rw h1 (elim (Bool-cases (ltb b 0xc2)) [
      | inl h ↦ rw h (λ _. refl)
      | inr h2 ↦ rw h2 (elim (Bool-cases (ltb b 0xe0)) [
        | inl h ↦ rw h (decode_two-append a)
        | inr h3 ↦ rw h3 (elim (Bool-cases (ltb b 0xf0)) [
          | inl h ↦ rw h (decode_three-append a)
          | inr h4 ↦ rw h4 (elim (Bool-cases (ltb b 0xf5)) [
            | inl h ↦ rw h (decode_four-append a)
            | inr h5 ↦ rw h5 (λ _. refl)
          ])
        ])
      ])
    ])
  ]

valid_from-append :
    (k : ℕ) (a t : Bytes)
    → k ≤ length a
    → valid_from k a ≡ true
    → IsUtf8 t
    → valid_from k (a ++ t) ≡ true
unfolding valid_from
valid_from-append zero [] t h v w = w
valid_from-append (suc k) [] t h v w = absurd (omega arith)
valid_from-append (suc k) (b ∷ a) t h v w = valid_from-append k a t (omega arith) v w
valid_from-append zero (b ∷ a) t h v w =
    let r = decode b a in
    elim (Bool-cases (is_bad r)) [
      | inl bad ↦ absurd (ground arith)
      | inr good ↦
          rw (decode-append t b a good, good)
            (valid_from-append (r.width - 1) a t (omega (arith, decode_fits b a)) (rw good at v) w)
    ]

pub IsUtf8-append : (a t : Bytes) → IsUtf8 a → IsUtf8 t → IsUtf8 (a ++ t)
IsUtf8-append a t v w = valid_from-append 0 a t (omega arith) v w

-- What strings.Cut finds, put together, is the text.
pub cut-eq :
    (sep : ℕ) (s before after : Bytes)
    → cut sep s ≡ some (before, after)
    → s ≡ before ++ sep ∷ after
unfolding cut
cut-eq sep [] before after e = cc
cut-eq sep (c ∷ s) before after e = elim (Bool-cases (c == sep)) [
  | inl same ↦ ground arith
  | inr other ↦ elim (Option-cases (cut sep s)) [
    | inl nothing ↦ absurd (ground arith)
    | inr ((k, v), found) ↦
        let at : (c ∷ k ≡ before) × (v ≡ after) = ground arith in
        ap (λ (x : Bytes). c ∷ x) (cut-eq sep s k v found)
        ∙ ap₂ (λ (x y : Bytes). x ++ sep ∷ y) at.0 at.1
  ]
]

split_from-IsUtf8 :
    (sep : ℕ) (cur s : Bytes) → sep < 0x80 → IsUtf8 (cur ++ s) → All IsUtf8 (split_from sep cur s)
unfolding split_from
split_from-IsUtf8 sep cur [] small v = (rw append-nil at v, tt)
split_from-IsUtf8 sep cur (c ∷ s) small v = elim (Bool-cases (c == sep)) [
  | inl same ↦
      let (before, after) = IsUtf8-parts cur c s (ground arith) v in
      rw same (before, split_from-IsUtf8 sep [] s small after)
  | inr other ↦
      rw other (split_from-IsUtf8 sep (cur ++ c ∷ []) s small (rw (append_assoc cur (c ∷ []) s) v))
]

-- The parts that strings.Split gives are valid.
pub split-IsUtf8 : (sep : ℕ) (s : Bytes) → sep < 0x80 → IsUtf8 s → All IsUtf8 (split sep s)
unfolding split
split-IsUtf8 sep s small v = split_from-IsUtf8 sep [] s small v
