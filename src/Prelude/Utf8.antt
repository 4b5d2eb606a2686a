-- ===== src/Prelude/Utf8.antt =====
-- Go's reading of a string as UTF-8: the rune at the front, as `range` and utf8.DecodeRune give it.
pub mod Ascii
pub mod Parts
use Prim.Native.Nat.{ℕ, zero, suc, ◌+◌, ◌-◌, ◌*◌, ◌≤◌, ◌<◌}
use mathlib.Core.Path.{◌≡◌}
use mathlib.Core.Bool.{Bool, true, false, ◌&&◌}
use mathlib.Core.List.{List, [], ◌∷◌}
use native.Mathlib.Omega.{arith}
use statsd_bridge.Prelude.Tests.{if◌then◌else◌, ltb, leb, ◌==◌, Bool-cases, ltb→lt, ltb→ge, lt→ltb}
use mathlib.Core.Logic.{inl, inr}

pub record Rune : Type 0 where
  pub code : ℕ
  pub width : ℕ

-- utf8.RuneError for an invalid byte
abbrev pub bad_rune : Rune
bad_rune = record { code = 0xfffd; width = 1 }

abbrev pub in_range : ℕ → ℕ → ℕ → Bool
in_range lo hi b = leb lo b && leb b hi

abbrev is_tail : ℕ → Bool
is_tail b = in_range 0x80 0xbf b

-- the bounds of the second byte, which exclude overlong forms, surrogates and codes over 0x10ffff
second_low : ℕ → ℕ
second_low b = if b == 0xe0 then 0xa0 else if b == 0xf0 then 0x90 else 0x80

second_high : ℕ → ℕ
second_high b = if b == 0xed then 0x9f else if b == 0xf4 then 0x8f else 0xbf

decode_two : ℕ → List ℕ → Rune
decode_two b (x ∷ s) =
    if is_tail x then record { code = (b - 0xc0) * 64 + (x - 0x80); width = 2 } else bad_rune
decode_two b [] = bad_rune

decode_three : ℕ → List ℕ → Rune
unfolding second_low second_high
decode_three b (x ∷ y ∷ s) =
    if in_range (second_low b) (second_high b) x && is_tail y
    then record { code = (b - 0xe0) * 4096 + (x - 0x80) * 64 + (y - 0x80); width = 3 }
    else bad_rune
decode_three b (x ∷ []) = bad_rune
decode_three b [] = bad_rune

decode_four : ℕ → List ℕ → Rune
unfolding second_low second_high
decode_four b (x ∷ y ∷ z ∷ s) =
    if in_range (second_low b) (second_high b) x && (is_tail y && is_tail z)
    then record {
      code = (b - 0xf0) * 262144 + (x - 0x80) * 4096 + (y - 0x80) * 64 + (z - 0x80);
      width = 4;
    }
    else bad_rune
decode_four b (x ∷ y ∷ []) = bad_rune
decode_four b (x ∷ []) = bad_rune
decode_four b [] = bad_rune

-- the rune at the front of `b ∷ s`
unfoldable pub decode : ℕ → List ℕ → Rune
unfolding decode_two decode_three decode_four
decode b s =
    if ltb b 0x80
    then record { code = b; width = 1 }
    else if ltb b 0xc2
    then bad_rune
    else if ltb b 0xe0
    then decode_two b s
    else if ltb b 0xf0
    then decode_three b s
    else if ltb b 0xf5
    then decode_four b s
    else bad_rune

-- utf8.RuneLen, for the codes that `decode` gives
unfoldable pub rune_len : ℕ → ℕ
rune_len c = if ltb c 0x80 then 1 else if ltb c 0x800 then 2 else if ltb c 0x10000 then 3 else 4

-- utf8.ValidString, from a position at which `k` bytes of the present rune are left
unfoldable pub valid_from : ℕ → List ℕ → Bool
valid_from k [] = true
valid_from (suc k) (b ∷ s) = valid_from k s
valid_from zero (b ∷ s) =
    let r = decode b s in
    let rest = valid_from (r.width - 1) s in
    if r.code == 0xfffd && r.width == 1 then false else rest

abbrev pub valid_string : List ℕ → Bool
valid_string = valid_from 0

abbrev pub IsDecoded : ℕ → Rune → Type 0
IsDecoded b r =
    (1 ≤ r.width)
    × (r.code < 0x80 → (r.code ≡ b) × (r.width ≡ 1))
    × ((r.code == 0xfffd && r.width == 1) ≡ false → rune_len r.code ≡ r.width)

decode_two-IsDecoded : (b : ℕ) (s : List ℕ) → 0xc2 ≤ b → b < 0xe0 → IsDecoded b (decode_two b s)
unfolding decode_two rune_len
decode_two-IsDecoded b [] h k = ground arith
decode_two-IsDecoded b (x ∷ s) h k = ground arith

decode_three-IsDecoded : (b : ℕ) (s : List ℕ) → 0xe0 ≤ b → b < 0xf0 → IsDecoded b (decode_three b s)
unfolding decode_three rune_len
decode_three-IsDecoded b [] h k = ground arith
decode_three-IsDecoded b (x ∷ []) h k = ground arith
decode_three-IsDecoded b (x ∷ y ∷ s) h k = ground arith

decode_four-IsDecoded : (b : ℕ) (s : List ℕ) → 0xf0 ≤ b → b < 0xf5 → IsDecoded b (decode_four b s)
unfolding decode_four rune_len
decode_four-IsDecoded b [] h k = ground arith
decode_four-IsDecoded b (x ∷ []) h k = ground arith
decode_four-IsDecoded b (x ∷ y ∷ []) h k = ground arith
decode_four-IsDecoded b (x ∷ y ∷ z ∷ s) h k = ground arith

decode_first-IsDecoded : (b : ℕ) → b < 0x80 → IsDecoded b (record { code = b; width = 1 })
unfolding rune_len
decode_first-IsDecoded b h = ground arith

bad-IsDecoded : (b : ℕ) → IsDecoded b bad_rune
bad-IsDecoded b = ground arith

-- A rune takes at least a byte. An ASCII code is its byte. And RuneLen of the code is the width,
-- unless the byte is invalid.
pub decode-IsDecoded : (b : ℕ) (s : List ℕ) → IsDecoded b (decode b s)
unfolding decode
decode-IsDecoded b s = elim (Bool-cases (ltb b 0x80)) [
  | inl h ↦ rw h (decode_first-IsDecoded b (ltb→lt b 0x80 h))
  | inr h1 ↦ rw h1 (elim (Bool-cases (ltb b 0xc2)) [
    | inl h ↦ rw h (bad-IsDecoded b)
    | inr h2 ↦ rw h2 (elim (Bool-cases (ltb b 0xe0)) [
      | inl h ↦ rw h (decode_two-IsDecoded b s (ltb→ge b 0xc2 h2) (ltb→lt b 0xe0 h))
      | inr h3 ↦ rw h3 (elim (Bool-cases (ltb b 0xf0)) [
        | inl h ↦ rw h (decode_three-IsDecoded b s (ltb→ge b 0xe0 h3) (ltb→lt b 0xf0 h))
        | inr h4 ↦ rw h4 (elim (Bool-cases (ltb b 0xf5)) [
          | inl h ↦ rw h (decode_four-IsDecoded b s (ltb→ge b 0xf0 h4) (ltb→lt b 0xf5 h))
          | inr h5 ↦ rw h5 (bad-IsDecoded b)
        ])
      ])
    ])
  ])
]

-- A byte below 128 is a rune of its own.
pub decode-ascii : (b : ℕ) (s : List ℕ) → b < 0x80 → decode b s ≡ record { code = b; width = 1 }
unfolding decode
decode-ascii b s h = rw (lt→ltb b 0x80 h)
