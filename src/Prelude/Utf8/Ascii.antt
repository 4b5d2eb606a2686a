-- ===== src/Prelude/Utf8/Ascii.antt =====
-- Valid UTF-8 around an ASCII byte: a text is cut there into two valid texts, and joined again.
use statsd_bridge.Prelude.{
  ℕ, zero, suc, ◌-◌, ◌≤◌, ◌<◌, ◌≡◌, refl, ◌&&◌, [], ◌∷◌, ◌++◌, arith, length, Bytes,
}
use statsd_bridge.Prelude.Utf8.{
  decode, decode_two, decode_three, decode_four, valid_from, valid_string, decode-ascii,
}

module _ (c : ℕ) (t : Bytes) (small : c < 0x80) where
  decode_two-cut : (b : ℕ) (a : Bytes) → decode_two b (a ++ c ∷ t) ≡ decode_two b a
  unfolding decode_two
  decode_two-cut b [] = ground arith
  decode_two-cut b (x ∷ a) = refl

  decode_three-cut : (b : ℕ) (a : Bytes) → decode_three b (a ++ c ∷ t) ≡ decode_three b a
  unfolding decode_three
  decode_three-cut b [] = three_first t
    where
      three_first : (t : Bytes) → decode_three b (c ∷ t) ≡ decode_three b []
      three_first [] = refl
      three_first (y ∷ t) = ground arith
  decode_three-cut b (x ∷ []) = ground arith
  decode_three-cut b (x ∷ y ∷ a) = refl

  decode_four-cut : (b : ℕ) (a : Bytes) → decode_four b (a ++ c ∷ t) ≡ decode_four b a
  unfolding decode_four
  decode_four-cut b [] = four_first t
    where
      four_first : (t : Bytes) → decode_four b (c ∷ t) ≡ decode_four b []
      four_first [] = refl
      four_first (y ∷ []) = refl
      four_first (y ∷ z ∷ t) = ground arith
  decode_four-cut b (x ∷ []) = four_second t
    where
      four_second : (t : Bytes) → decode_four b (x ∷ c ∷ t) ≡ decode_four b (x ∷ [])
      four_second [] = refl
      four_second (z ∷ t) = ground arith
  decode_four-cut b (x ∷ y ∷ []) = ground arith
  decode_four-cut b (x ∷ y ∷ z ∷ a) = refl

  -- A rune never reaches over an ASCII byte.
  decode-cut : (b : ℕ) (a : Bytes) → decode b (a ++ c ∷ t) ≡ decode b a
  unfolding decode
  decode-cut b a = rw (decode_two-cut b a, decode_three-cut b a, decode_four-cut b a)

decode_two_fits : (b : ℕ) (a : Bytes) → (decode_two b a).width ≤ suc (length a)
unfolding decode_two
decode_two_fits b [] = omega arith
decode_two_fits b (x ∷ a) = ground arith

decode_three_fits : (b : ℕ) (a : Bytes) → (decode_three b a).width ≤ suc (length a)
unfolding decode_three
decode_three_fits b [] = omega arith
decode_three_fits b (x ∷ []) = omega arith
decode_three_fits b (x ∷ y ∷ a) = ground arith

decode_four_fits : (b : ℕ) (a : Bytes) → (decode_four b a).width ≤ suc (length a)
unfolding decode_four
decode_four_fits b [] = omega arith
decode_four_fits b (x ∷ []) = omega arith
decode_four_fits b (x ∷ y ∷ []) = omega arith
decode_four_fits b (x ∷ y ∷ z ∷ a) = ground arith

pub decode_fits : (b : ℕ) (a : Bytes) → (decode b a).width ≤ suc (length a)
unfolding decode
decode_fits b a = ground (arith, decode_two_fits b a, decode_three_fits b a, decode_four_fits b a)

-- An ASCII byte divides the check for valid UTF-8.
pub valid_from-ascii :
    (k : ℕ) (a : Bytes) (c : ℕ) (t : Bytes)
    → c < 0x80
    → k ≤ length a
    → valid_from k (a ++ c ∷ t) ≡ (valid_from k a && valid_string t)
unfolding valid_from
valid_from-ascii zero [] c t small h = rw (decode-ascii c t small) (ground arith)
valid_from-ascii (suc k) [] c t small h = absurd (omega arith)
valid_from-ascii (suc k) (b ∷ a) c t small h = valid_from-ascii k a c t small (omega arith)
valid_from-ascii zero (b ∷ a) c t small h =
    let r = decode b a in
    rw (decode-cut c t small b a)
      (ground (arith, decode_fits b a, valid_from-ascii (r.width - 1) a c t small))
