-- ===== src/Escape/Names.antt =====
-- The names that EscapeMetricName returns, those that it leaves alone, and where it panics.
use statsd_bridge.Prelude.{
  ℕ, zero, suc, ◌-◌, ◌<◌, ◌≡◌, ◌∙◌, refl, ap, true, false, ◌&&◌, inl, inr, Option, none, some, [],
  ◌∷◌, ◌==◌, Bytes, arith, Bool-cases, All,
}
use statsd_bridge.Prelude.Utf8.{
  decode, valid_from, valid_string, rune_len, decode-ascii, decode-IsDecoded,
}
use statsd_bridge.Escape.{underscore, dash, is_digit, is_name_char, escape_metric_name}
use statsd_bridge.Escape.Correct.{name_of, metric_name_of, escape_metric_name-eq}

abbrev pub IsNameChar : ℕ → Type 0
IsNameChar c = is_name_char c ≡ true

abbrev pub StartsWithoutDigit : Bytes → Type 0
StartsWithoutDigit [] = Unit
StartsWithoutDigit (b ∷ s) = is_digit b ≡ false

-- a name in [a-zA-Z_][a-zA-Z0-9_]*, or the empty name
pub record IsMetricName (s : Bytes) : Type 0 where
  pub chars : All IsNameChar s
  pub first : StartsWithoutDigit s

underscore-IsNameChar : IsNameChar underscore
unfolding is_name_char
underscore-IsNameChar = refl

name_of-chars : (k prev : ℕ) (s : Bytes) → All IsNameChar (name_of k prev s)
unfolding name_of
name_of-chars k prev [] = tt
name_of-chars (suc k) prev (b ∷ s) = name_of-chars k prev s
name_of-chars zero prev (b ∷ s) =
    let r = decode b s in
    let rest = name_of-chars (r.width - 1) r.code s in
    elim (Bool-cases (is_name_char r.code)) [
      | inl good ↦ rw good (good, rest)
      | inr bad ↦ rw bad (elim (Bool-cases (r.code == dash && prev == dash)) [
        | inl twice ↦ rw twice rest
        | inr other ↦ rw other (underscore-IsNameChar, rest)
      ])
    ]

first_char : (b : ℕ) (s : Bytes) → is_digit b ≡ false → StartsWithoutDigit (name_of 0 0 (b ∷ s))
unfolding name_of
first_char b s h =
    let r = decode b s in
    let (_, ascii, _) = decode-IsDecoded b s in
    elim (Bool-cases (is_name_char r.code)) [
      | inl good ↦ rw good (unfold is_name_char in ground arith)
      | inr bad ↦ rw bad (elim (Bool-cases (r.code == dash && 0 == dash)) [
        | inl twice ↦ absurd (ground arith)
        | inr other ↦ rw other (unfold is_digit in refl)
      ])
    ]

metric_name_of-IsMetricName : (name : Bytes) → IsMetricName (metric_name_of name)
unfolding metric_name_of
metric_name_of-IsMetricName [] = record { chars = tt; first = tt }
metric_name_of-IsMetricName (b ∷ s) = elim (Bool-cases (is_digit b)) [
  | inl digit ↦ rw digit (record {
    chars = (underscore-IsNameChar, name_of-chars 0 0 (b ∷ s));
    first = unfold is_digit in refl;
  })
  | inr other ↦
      rw other (record { chars = name_of-chars 0 0 (b ∷ s); first = first_char b s other })
]

-- On valid UTF-8 EscapeMetricName returns a name of letters, digits and underscores that does not
-- begin with a digit.
pub escape_metric_name-IsMetricName :
    (name : Bytes)
    → valid_string name ≡ true
    → (out : Bytes) × (escape_metric_name name ≡ some out) × IsMetricName out
escape_metric_name-IsMetricName name v =
    (metric_name_of name, escape_metric_name-eq name v, metric_name_of-IsMetricName name)

ascii_name_char : (b : ℕ) → IsNameChar b → b < 0x80
unfolding is_name_char
ascii_name_char b h = ground arith

valid_name : (s : Bytes) → All IsNameChar s → valid_string s ≡ true
unfolding valid_from
valid_name [] h = refl
valid_name (b ∷ s) h =
    let small = ascii_name_char b h.0 in
    rw (decode-ascii b s small) (ground (arith, valid_name s h.1))

name_of_name : (prev : ℕ) (s : Bytes) → All IsNameChar s → name_of 0 prev s ≡ s
unfolding name_of
name_of_name prev [] h = refl
name_of_name prev (b ∷ s) h =
    rw (decode-ascii b s (ascii_name_char b h.0), h.0)
      (ap (λ (t : Bytes). b ∷ t) (name_of_name b s h.1))

metric_name_of_name : (name : Bytes) → IsMetricName name → metric_name_of name ≡ name
unfolding metric_name_of
metric_name_of_name [] h = refl
metric_name_of_name (b ∷ s) h = rw h.first (name_of_name 0 (b ∷ s) h.chars)

-- EscapeMetricName leaves a name of letters, digits and underscores that does not begin with a
-- digit as it is.
pub escape_metric_name-fixed :
    (name : Bytes) → IsMetricName name → escape_metric_name name ≡ some name
escape_metric_name-fixed name h =
    escape_metric_name-eq name (valid_name name h.chars)
    ∙ ap {B = Option Bytes} some (metric_name_of_name name h)

-- EscapeMetricName panics on every text that begins with two bytes 0xff, which are no UTF-8: the
-- index after the first is computed as if U+FFFD had been written there with its three bytes.
pub escape_metric_name-panics : (s : Bytes) → escape_metric_name (0xff ∷ 0xff ∷ s) ≡ none
unfolding escape_metric_name decode rune_len
escape_metric_name-panics s = ground arith
