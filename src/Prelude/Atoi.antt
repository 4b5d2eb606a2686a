-- ===== src/Prelude/Atoi.antt =====
-- strconv.Atoi: decimal digits behind an optional sign, in 64 bits.
use Prim.Native.Nat.{ℕ, zero, suc, ◌+◌, ◌-◌, ◌*◌, ◌^◌}
use mathlib.Core.Bool.{Bool, true, false, ◌&&◌}
use mathlib.Core.Option.{Option, none, some}
use mathlib.Core.List.{[], ◌∷◌}
use statsd_bridge.Prelude.Tests.{if◌then◌else◌, ltb, leb, ◌==◌}
use statsd_bridge.Prelude.Text.{Bytes}
use statsd_bridge.Prelude.Int.{ℤ, pos, negsuc}

abbrev pub is_digit : ℕ → Bool
is_digit c = leb b'0' c && leb c b'9'

-- the value of decimal digits behind the value `n`
unfoldable pub digits_from : ℕ → Bytes → Option ℕ
digits_from n [] = some n
digits_from n (c ∷ s) =
    let more = digits_from (10 * n + (c - b'0')) s in if is_digit c then more else none

unfoldable pub digits : Bytes → Option ℕ
unfolding digits_from
digits [] = none
digits (c ∷ s) = digits_from 0 (c ∷ s)

-- an int of 64 bits from a sign and a value
unfoldable pub signed : Bool → Option ℕ → Option ℤ
signed negative none = none
signed true (some zero) = some (pos 0)
signed true (some (suc n)) = if ltb n (2 ^ 63) then some (negsuc n) else none
signed false (some n) = if ltb n (2 ^ 63) then some (pos n) else none

-- strconv.Atoi; `none` is an error.
unfoldable pub atoi : Bytes → Option ℤ
unfolding digits signed
atoi [] = none
atoi (c ∷ s) =
    if c == b'+'
    then signed false (digits s)
    else if c == b'-'
    then signed true (digits s)
    else signed false (digits (c ∷ s))
