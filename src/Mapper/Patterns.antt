-- ===== src/Mapper/Patterns.antt =====
-- The three patterns of pkg/mapper/mapper.go, as automata that read the text byte by byte. The bytes
-- of a rune that is not ASCII fit nowhere.
use statsd_bridge.Prelude.{
  Bool, true, false, ◌&&◌, ◌||◌, [], ◌∷◌, ◌==◌, if◌then◌else◌, Bytes, is_digit, ℕ,
}
use statsd_bridge.Fsm.Template.{is_letter}

-- the class [a-zA-Z_]
abbrev pub starts_name : ℕ → Bool
starts_name c = is_letter c || c == b'_'

-- the class [a-zA-Z0-9_]
abbrev pub in_name : ℕ → Bool
in_name c = starts_name c || is_digit c

-- metricLineRE: fields between dots, each of which is a star or a name
pub data LineState : Type 0 where
  at_start at_dot behind_star in_word rejected : LineState

unfoldable pub word_or : Bool → LineState
word_or true = LineState.in_word
word_or false = LineState.rejected

unfoldable pub line_step : LineState → ℕ → LineState
unfolding word_or
line_step LineState.at_start c =
    if c == b'*' then LineState.behind_star else word_or (starts_name c)
line_step LineState.at_dot c = if c == b'*' then LineState.behind_star else word_or (in_name c)
line_step LineState.behind_star c = if c == b'.' then LineState.at_dot else LineState.rejected
line_step LineState.in_word c =
    if c == b'.' then LineState.at_dot else word_or (in_name c || c == b'-')
line_step LineState.rejected c = LineState.rejected

unfoldable pub is_line_from : LineState → Bytes → Bool
unfolding line_step
is_line_from LineState.behind_star [] = true
is_line_from LineState.in_word [] = true
is_line_from LineState.at_start [] = false
is_line_from LineState.at_dot [] = false
is_line_from LineState.rejected [] = false
is_line_from st (c ∷ s) = is_line_from (line_step st c) s

-- metricLineRE.MatchString
unfoldable pub is_metric_line : Bytes → Bool
unfolding is_line_from
is_metric_line s = is_line_from LineState.at_start s

-- metricNameRE: a name in which references of digits may stand
pub data NameState : Type 0 where
  first inside behind_dollar behind_brace in_digits rejected : NameState

unfoldable pub name_step : NameState → ℕ → NameState
name_step NameState.first c =
    if c == b'$'
    then NameState.behind_dollar
    else if starts_name c
    then NameState.inside
    else NameState.rejected
name_step NameState.inside c =
    if c == b'$'
    then NameState.behind_dollar
    else if in_name c
    then NameState.inside
    else NameState.rejected
name_step NameState.behind_dollar c =
    if c == b'{'
    then NameState.behind_brace
    else if is_digit c
    then NameState.in_digits
    else NameState.rejected
name_step NameState.behind_brace c = if is_digit c then NameState.in_digits else NameState.rejected
name_step NameState.in_digits c =
    if is_digit c
    then NameState.in_digits
    else if c == b'}' || in_name c
    then NameState.inside
    else if c == b'$'
    then NameState.behind_dollar
    else NameState.rejected
name_step NameState.rejected c = NameState.rejected

unfoldable pub is_name_from : NameState → Bytes → Bool
unfolding name_step
is_name_from NameState.inside [] = true
is_name_from NameState.in_digits [] = true
is_name_from NameState.first [] = false
is_name_from NameState.behind_dollar [] = false
is_name_from NameState.behind_brace [] = false
is_name_from NameState.rejected [] = false
is_name_from st (c ∷ s) = is_name_from (name_step st c) s

-- metricNameRE.MatchString
unfoldable pub is_metric_name : Bytes → Bool
unfolding is_name_from
is_metric_name s = is_name_from NameState.first s

unfoldable pub is_label_rest : Bytes → Bool
is_label_rest [] = true
is_label_rest (c ∷ s) = in_name c && is_label_rest s

-- labelNameRE.MatchString: two bytes at least
unfoldable pub is_label_name : Bytes → Bool
unfolding is_label_rest
is_label_name [] = false
is_label_name (c ∷ []) = false
is_label_name (c ∷ d ∷ s) = starts_name c && is_label_rest (d ∷ s)
