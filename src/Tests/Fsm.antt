-- ===== src/Tests/Fsm.antt =====
-- Glob rules: two rules that match the same metric, and a rule in the shadow of a longer one.
use statsd_bridge.Prelude.{
  ℕ, ◌≡◌, refl, true, false, Option, some, none, List, [], ◌∷◌, Bytes, codes, split, bytes_beq,
  Returns, length,
}
use statsd_bridge.Fsm.{
  Fsm, State, state, nothing, new_fsm, add_state, find, put, result, transitions, new_state,
  max_remaining_length, min_remaining_length, result_priority,
}
use statsd_bridge.Fsm.Search.{Found, get_mapping, search_from, within, rounds}
use statsd_bridge.Fsm.Walk.{field, any, ends, state_at}
use statsd_bridge.Fsm.Rules.{Rule, has_type, types_of}
use statsd_bridge.Fsm.Runs.{Built, created, added}
use statsd_bridge.Fsm.Finds.{Answers, get_mapping-Answers}
use statsd_bridge.Fsm.Shadow.{shadowed, add_state-captures}

abbrev pub types : List Bytes
types = codes "counter" ∷ codes "gauge" ∷ codes "observer" ∷ []

abbrev pub any_type : Bytes → ℕ → Rule ℕ
any_type match r = record { match = match; match_metric_type = []; rule_result = r }

abbrev pub machine_of : List (Rule ℕ) → Fsm ℕ → Fsm ℕ
machine_of [] m = m
machine_of (rule ∷ rules) m =
    elim (add_state rule.match rule.match_metric_type rule.rule_result m) [
      | none ↦ m
      | some (m', captures) ↦ machine_of rules m'
    ]

abbrev middle : Rule ℕ
middle = any_type (codes "a.*.c") 7

abbrev last : Rule ℕ
last = any_type (codes "a.b.*") 8

abbrev one_rule : Fsm ℕ
one_rule = machine_of (middle ∷ []) (new_fsm types false)

abbrev pub two_rules : Fsm ℕ
two_rules = machine_of (last ∷ []) one_rule

two_rules-Built : Built types false (middle ∷ last ∷ []) two_rules
unfolding split bytes_beq find add_state new_fsm put
two_rules-Built =
    added (middle ∷ []) last one_rule two_rules 1
      (added [] middle (new_fsm types false) one_rule 1 created refl) refl

abbrev backtracking : Fsm ℕ → Fsm ℕ
backtracking m = record m { backtracking_needed = true }

abbrev pub answer : Option (Option (Found ℕ)) → Option (Option ℕ × List Bytes)
answer (some (some f)) = some (result f.final_state, f.final_captures)
answer _ = none

-- The search meets the second rule first and ends with the first one. The last capture is left over
-- from the search for the second.
get_mapping_order :
    answer (get_mapping (codes "a.b.c") (codes "gauge") (backtracking two_rules))
    ≡ some (some 7, codes "b" ∷ [] ∷ [] ∷ [])
unfolding split bytes_beq find add_state new_fsm put get_mapping within rounds search_from result
    transitions new_state max_remaining_length min_remaining_length result_priority
get_mapping_order = refl

get_mapping-Answers_example :
    Returns
      (Answers types (codes "gauge") (middle ∷ last ∷ []) (split b'.' (codes "a.b.c")))
      (get_mapping (codes "a.b.c") (codes "gauge") (backtracking two_rules))
get_mapping-Answers_example =
    get_mapping-Answers types (codes "gauge") (codes "a.b.c") (middle ∷ last ∷ []) two_rules
      two_rules-Built (unfold has_type bytes_beq in refl)

add_state-captures_example : length (codes "b" ∷ []) ≡ 1
add_state-captures_example =
    add_state-captures middle (new_fsm types false) one_rule 1 (codes "gauge")
      (codes "a" ∷ codes "b" ∷ codes "c" ∷ []) (codes "b" ∷ [])
      (unfold has_type types_of new_fsm bytes_beq in refl)
      (unfold split bytes_beq find add_state new_fsm put in refl)
      (unfold split in
        field (codes "a") _ _ _ (any (codes "b") _ _ _ (field (codes "c") _ _ _ ends)))
      (unfold bytes_beq in (refl, (refl, (refl, tt))))

abbrev long : Rule ℕ
long = any_type (codes "a.b.c") 7

abbrev short : Rule ℕ
short = any_type (codes "a.b") 8

abbrev long_rule : Fsm ℕ
long_rule = machine_of (long ∷ []) (new_fsm types false)

abbrev short_rule : Fsm ℕ
short_rule = machine_of (short ∷ []) long_rule

short_rule-Built : Built types false (long ∷ short ∷ []) short_rule
unfolding split bytes_beq find add_state new_fsm put
short_rule-Built =
    added (long ∷ []) short long_rule short_rule 0
      (added [] long (new_fsm types false) long_rule 0 created refl) refl

-- The metric a.b has the rule a.b and no match.
get_mapping_shadowed :
    get_mapping (codes "a.b") (codes "gauge") (backtracking short_rule) ≡ some none
unfolding split bytes_beq find add_state new_fsm put get_mapping within rounds search_from result
    transitions new_state max_remaining_length min_remaining_length result_priority
get_mapping_shadowed = refl

abbrev state_or_new : Option (State ℕ) → State ℕ
state_or_new none = state nothing 0 0 none 0
state_or_new (some s) = s

abbrev start : State ℕ
start = state_or_new (find (codes "gauge") short_rule.root)

abbrev behind_a_b : State ℕ
behind_a_b = state_or_new (state_at (codes "a" ∷ codes "b" ∷ []) start)

shadowed_example : result behind_a_b ≡ none
unfolding transitions new_state
shadowed_example =
    shadowed types false (codes "gauge") long (short ∷ []) short_rule start behind_a_b (codes "a")
      (codes "c") (codes "b" ∷ []) [] short_rule-Built
      (unfold split bytes_beq find add_state new_fsm put in refl)
      (unfold has_type types_of bytes_beq in refl) (unfold split in refl)
      (unfold split bytes_beq find add_state new_fsm put state_at in refl)
