-- ===== src/Prelude/Text.antt =====
-- Go strings as lists of bytes, and what the program uses of the package strings.
use Prim.Native.Char.{code}
use Prim.Native.String.{String}
use mathlib.Core.List.{List, [], ◌∷◌, ◌++◌}
use Prim.Native.Nat.{ℕ, ◌-◌}
use mathlib.Core.Path.{◌≡◌, refl}
use mathlib.Core.Logic.{◌↔◌}
use mathlib.Core.Bool.{Bool, true, false, ◌&&◌, ◌||◌}
use mathlib.Core.Option
use mathlib.Core.Option.{Option, none, some}
use native.Mathlib.Omega.{arith}
use statsd_bridge.Prelude.Tests.{if◌then◌else◌, ◌==◌, ltb}
use statsd_bridge.Prelude.Lists.{length, take, drop, length-append, take-append, drop-append}
use statsd_bridge.Prelude.Maps.{Eq}

abbrev pub Bytes : Type 0
Bytes = List ℕ

-- The code points of a text; these are its bytes where the text is ASCII.
abbrev pub codes : String → Bytes
codes String.[] = []
codes (String.◌∷◌ c s) = code c ∷ codes s

unfoldable pub bytes_beq : Bytes → Bytes → Bool
bytes_beq [] [] = true
bytes_beq [] (b ∷ bs) = false
bytes_beq (a ∷ as_) [] = false
bytes_beq (a ∷ as_) (b ∷ bs) = a == b && bytes_beq as_ bs

bytes_beq→eq : (a b : Bytes) → bytes_beq a b ≡ true → a ≡ b
unfolding bytes_beq
bytes_beq→eq [] [] h = refl
bytes_beq→eq [] (y ∷ b) h = cc
bytes_beq→eq (x ∷ a) [] h = cc
bytes_beq→eq (x ∷ a) (y ∷ b) h = ground (arith, bytes_beq→eq a b)

bytes_beq_refl : (a : Bytes) → bytes_beq a a ≡ true
unfolding bytes_beq
bytes_beq_refl [] = refl
bytes_beq_refl (x ∷ a) = ground (arith, bytes_beq_refl a)

pub bytes_beq_iff : (a b : Bytes) → (bytes_beq a b ≡ true) ↔ (a ≡ b)
bytes_beq_iff a b = (bytes_beq→eq a b, λ e. rw e (bytes_beq_refl b))

instance abbrev pub bytes_eq : Eq Bytes
bytes_eq = record { beq = bytes_beq; beq_iff = bytes_beq_iff }

-- strings.Split and strings.SplitN at one ASCII byte, the field that is open in front.
unfoldable pub split_from : ℕ → Bytes → Bytes → List Bytes
split_from sep cur [] = cur ∷ []
split_from sep cur (c ∷ s) =
    let next = split_from sep [] s in
    let more = split_from sep (cur ++ c ∷ []) s in if c == sep then cur ∷ next else more

-- strings.Split(s, sep)
unfoldable pub split : ℕ → Bytes → List Bytes
unfolding split_from
split sep s = split_from sep [] s

-- strings.Cut(s, sep): what stands before and behind the first separator
unfoldable pub cut : ℕ → Bytes → Option (Bytes × Bytes)
cut sep [] = none
cut sep (c ∷ s) =
    let rest = cut sep s in
    if c == sep then some ([], s) else Option.map (λ (p : Bytes × Bytes). (c ∷ p.0, p.1)) rest

-- strings.Contains(s, sep) for one byte
unfoldable pub contains_byte : ℕ → Bytes → Bool
contains_byte b [] = false
contains_byte b (c ∷ s) = c == b || contains_byte b s

-- strings.HasPrefix
unfoldable pub has_prefix : Bytes → Bytes → Bool
has_prefix s [] = true
has_prefix [] (p ∷ ps) = false
has_prefix (c ∷ s) (p ∷ ps) = c == p && has_prefix s ps

-- strings.Contains(s, sub)
unfoldable pub contains : Bytes → Bytes → Bool
unfolding has_prefix
contains [] sub = has_prefix [] sub
contains (c ∷ s) sub = has_prefix (c ∷ s) sub || contains s sub

-- strings.HasSuffix(s, suffix)
unfoldable pub has_suffix : Bytes → Bytes → Bool
unfolding bytes_beq
has_suffix s suffix =
    if ltb (length s) (length suffix)
    then false
    else bytes_beq (drop (length s - length suffix) s) suffix

-- strings.TrimSuffix(s, suffix)
unfoldable pub trim_suffix : Bytes → Bytes → Bytes
trim_suffix s suffix = if has_suffix s suffix then take (length s - length suffix) s else s

-- strings.Join(parts, sep)
unfoldable pub join : ℕ → List Bytes → Bytes
join sep [] = []
join sep (p ∷ []) = p
join sep (p ∷ q ∷ ps) = p ++ sep ∷ join sep (q ∷ ps)

module _ (s suffix : Bytes) where
  prefix_length : length (s ++ suffix) - length suffix ≡ length s
  prefix_length = omega (arith, length-append s suffix)

  not_shorter : ltb (length (s ++ suffix)) (length suffix) ≡ false
  not_shorter = rw (length-append s suffix) (ground arith)

  pub has_suffix-append : has_suffix (s ++ suffix) suffix ≡ true
  unfolding has_suffix
  has_suffix-append = rw (not_shorter, prefix_length, drop-append s suffix) (bytes_beq_refl suffix)

  pub trim_suffix-append : trim_suffix (s ++ suffix) suffix ≡ s
  unfolding trim_suffix
  trim_suffix-append = rw (has_suffix-append, prefix_length, take-append s suffix)
