-- ===== src/Escape.antt =====
-- pkg/mapper/escape.go: EscapeMetricName, which turns any text into a metric name.
pub mod Correct
pub mod Names
use statsd_bridge.Prelude.{
  ℕ, zero, suc, ◌+◌, ◌-◌, Bool, true, false, not, ◌&&◌, ◌||◌, Option, none, some, List, [], ◌∷◌,
  ◌++◌, ltb, leb, ◌==◌, length, take, drop, if◌then◌else◌, Bytes, ◌>>=◌,
}
use statsd_bridge.Prelude.Utf8.{Rune, decode, rune_len, in_range}

abbrev pub underscore : ℕ
underscore = b'_'

abbrev pub dash : ℕ
dash = b'-'

unfoldable pub is_digit : ℕ → Bool
is_digit c = in_range b'0' b'9' c

-- a-z, A-Z, 0-9 and _
unfoldable pub is_name_char : ℕ → Bool
unfolding is_digit
is_name_char c = in_range b'a' b'z' c || in_range b'A' b'Z' c || is_digit c || c == underscore

-- s[lo:hi]; `none` is the panic of a slice out of range
unfoldable pub slice : Bytes → ℕ → ℕ → Option Bytes
slice s lo hi = if leb lo hi && leb hi (length s) then some (take (hi - lo) (drop lo s)) else none

-- the local variables of the loop
pub record Escaper : Type 0 where
  pub escaped : Bool
  pub sb : Bytes
  pub offset : ℕ
  pub prev_char : ℕ

-- The body of the loop, for the rune `c` at the index `i`.
unfoldable pub escape_rune : Bytes → ℕ → ℕ → Escaper → Option Escaper
escape_rune name i c st =
    if is_name_char c
    then some (record st { prev_char = c })
    else if c == dash && st.prev_char == dash
    then some (record st { offset = i + rune_len c })
    else do
      seen ← slice name st.offset i
      some (record {
        escaped = true;
        sb = st.sb ++ (seen ++ underscore ∷ []);
        offset = i + rune_len c;
        prev_char = c;
      })

-- `for i, c := range metricName`, from the index `i` at which `k` bytes of the present rune are
-- left and the rest of the text begins
unfoldable pub escape_loop : Bytes → ℕ → ℕ → Bytes → Escaper → Option Escaper
escape_loop name i k [] st = some st
escape_loop name i (suc k) (b ∷ s) st = escape_loop name (i + 1) k s st
escape_loop name i zero (b ∷ s) st =
    let r = decode b s in escape_rune name i r.code st >>= escape_loop name (i + 1) (r.width - 1) s

-- the end of the function
unfoldable pub finish : Bytes → Escaper → Bytes
finish name st =
    if st.escaped
    then (if ltb st.offset (length name) then st.sb ++ drop st.offset name else st.sb)
    else name

-- the local variables before the loop: a leading digit gets an underscore in front
unfoldable pub start : Bool → Escaper
start digit = record {
  escaped = digit;
  sb = if digit then underscore ∷ [] else [];
  offset = 0;
  prev_char = 0;
}

-- EscapeMetricName
unfoldable pub escape_metric_name : Bytes → Option Bytes
unfolding start escape_loop escape_rune finish slice is_name_char
escape_metric_name [] = some []
escape_metric_name (b ∷ s) = do
  st ← escape_loop (b ∷ s) 0 0 (b ∷ s) (start (is_digit b))
  some (finish (b ∷ s) st)
