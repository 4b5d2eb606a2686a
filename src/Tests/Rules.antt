-- ===== src/Tests/Rules.antt =====
-- Templates of glob rules, and rules whose order is not kept.
use statsd_bridge.Prelude.{
  ◌≡◌, refl, true, false, Option, none, some, List, [], ◌∷◌, Bytes, codes, split, bytes_beq,
  Returns, contains, has_prefix, atoi, ℕ,
}
use statsd_bridge.Fsm.{
  Fsm, State, find, put, add_state, new_fsm, new_state, transitions, max_remaining_length,
  min_remaining_length, result,
}
use statsd_bridge.Fsm.Search.{get_mapping}
use statsd_bridge.Fsm.Sound.{IfMatch, get_mapping-IfMatch}
use statsd_bridge.Fsm.Template.{new_template_formatter}
use statsd_bridge.Fsm.Needs.{test_if_need_backtracking}
use statsd_bridge.Tests.Fsm.{any_type, machine_of, two_rules, types, answer}

-- The second reference is garbled by the replacement of the first one.
one_and_more : (new_template_formatter (codes "$1 $1_x") 2).fmt_string ≡ codes "%s %s_x"
unfolding new_template_formatter atoi has_prefix
one_and_more = refl

abbrev three : List Bytes
three = codes "a.*.*.d" ∷ codes "a.b.c.d" ∷ codes "a.b.c.e" ∷ []

-- No backtracking is said to be needed,
three_need_none : test_if_need_backtracking three true ≡ false
unfolding test_if_need_backtracking contains split has_prefix bytes_beq
three_need_none = refl

abbrev three_rules : Fsm ℕ
three_rules =
    machine_of
      (any_type (codes "a.*.*.d") 1
        ∷ any_type (codes "a.b.c.d") 2
        ∷ any_type (codes "a.b.c.e") 3
        ∷ [])
      (new_fsm types true)

abbrev three_rules_needed : Fsm ℕ
three_rules_needed = record three_rules { backtracking_needed = true }

-- but without it the metric a.b.x.d is not found, which the first rule matches.
three_miss : answer (get_mapping (codes "a.b.x.d") (codes "gauge") three_rules) ≡ none
unfolding get_mapping split bytes_beq find add_state new_fsm put transitions new_state
    max_remaining_length min_remaining_length result
three_miss = refl

three_hit :
    answer (get_mapping (codes "a.b.x.d") (codes "gauge") three_rules_needed)
    ≡ some (some 1, codes "b" ∷ codes "x" ∷ [] ∷ [] ∷ [])
unfolding get_mapping split bytes_beq find add_state new_fsm put transitions new_state
    max_remaining_length min_remaining_length result
three_hit = refl

abbrev gauge_state : Option (State ℕ)
gauge_state = find (codes "gauge") two_rules.root

abbrev or_new : Option (State ℕ) → State ℕ
or_new none = new_state
or_new (some s) = s

get_mapping-IfMatch_example :
    Returns
      (IfMatch (or_new gauge_state) (split b'.' (codes "a.b.c")))
      (get_mapping (codes "a.b.c") (codes "gauge") two_rules)
unfolding find split bytes_beq add_state new_fsm put
get_mapping-IfMatch_example =
    get_mapping-IfMatch (codes "a.b.c") (codes "gauge") two_rules (or_new gauge_state) refl
