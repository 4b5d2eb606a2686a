-- ===== src/Fsm/Runs.antt =====
-- Machines that NewFSM and AddState have made, and what GetMapping answers on them in terms of the
-- rules.
use statsd_bridge.Prelude.{Bool}
use statsd_bridge.Prelude.{
  ℕ, ◌+◌, ◌≡◌, refl, sym, ap, ◌∙◌, inl, inr, Option, none, some, List, [], ◌∷◌, ◌++◌, arith, Bytes,
  bytes_beq, bytes_beq_iff, Bool-cases, Option-cases, length, length-append,
}
use mathlib.Core.Path.{subst}
use mathlib.Core.Option.{some-injective}
use statsd_bridge.Fsm.{
  State, Transitions, nothing, Fsm, find, put, new_state, type_roots, new_fsm, add_state,
  add_from_all, add_from, add_fields, count_captures, transitions,
}
use statsd_bridge.Fsm.Walk.{Bounded-parent}
use statsd_bridge.Fsm.Grow.{view, find-put, find-put_other}
use statsd_bridge.Fsm.Rules.{Rule, types_of, fields_of, meaning}
use statsd_bridge.Fsm.Grown.{Means, Means-snoc, add_from_all-GrownIf}

module _ {R : Type 0} where
  -- The rules that AddState was called with, the first one first; `disabled` tells whether the
  -- ordering is disabled.
  pub data Built (types : List Bytes) (disabled : Bool) : List (Rule R) → Fsm R → Type 0 where
    created : Built types disabled [] (new_fsm types disabled)
    added :
        (rules : List (Rule R)) (rule : Rule R) (m m' : Fsm R) (captures : ℕ)
        → Built types disabled rules m
        → add_state rule.match rule.match_metric_type rule.rule_result m ≡ some (m', captures)
        → Built types disabled (rules ++ rule ∷ []) m'

  type_roots-new :
      (types : List Bytes) (type : Bytes) (root : Transitions R) (s : State R)
      → ((t : State R) → find type root ≡ some t → t ≡ new_state)
      → find type (type_roots types root) ≡ some s
      → s ≡ new_state
  unfolding type_roots
  type_roots-new [] type root s h e = h s e
  type_roots-new (t ∷ types) type root s h e =
      type_roots-new types type (put t new_state root) s (λ u e'. put_new u e') e
    where
      put_new : (u : State R) → find type (put t new_state root) ≡ some u → u ≡ new_state
      put_new u e' = elim (Bool-cases (bytes_beq t type)) [
        | inl same ↦
            let eq : find type (put t new_state root) ≡ some new_state =
              rw (← (bytes_beq_iff t type).0 same) (find-put t new_state root) in
            some-injective u new_state (sym e' ∙ eq)
        | inr other ↦ h u (sym (find-put_other t type new_state root other) ∙ e')
      ]

  Means-new : (types : List Bytes) (type : Bytes) → Means types type [] (new_state {R = R})
  unfolding new_state transitions find view meaning
  Means-new types type = (
    Bounded-parent new_state (λ f u there. absurd (ground arith)),
    λ f q. refl,
    λ f q r e. absurd (ground arith),
  )

  -- What holds of every machine that has been made.
  abbrev pub IsModel : List Bytes → Bool → List (Rule R) → Fsm R → Type 0
  IsModel types disabled rules m =
      (m.metric_types ≡ types)
      × (m.states_count ≡ length rules)
      × (m.ordering_disabled ≡ disabled)
      × ((type : Bytes) (s : State R) → find type m.root ≡ some s → Means types type rules s)

  -- AddState makes no start state.
  add_from_all-absent :
      (fields : List Bytes) (r : R) (n : ℕ) (ts : List Bytes) (root root' : Transitions R)
      (type : Bytes)
      → add_from_all fields r n ts root ≡ some root'
      → find type root ≡ none
      → find type root' ≡ none
  unfolding add_from_all add_from
  add_from_all-absent fields r n [] root root' type e h =
      subst (λ x. find type x ≡ none) (some-injective root root' e) h
  add_from_all-absent fields r n (t ∷ ts) root root' type e h = elim (Option-cases (find t root)) [
    | inl gone ↦ absurd (no_state (rw gone at e))
    | inr (u, there) ↦
        add_from_all-absent fields r n ts (put t (add_fields fields r n u) root) root' type
          (rw there at e)
          (elim (Bool-cases (bytes_beq t type)) [
            | inl same ↦ absurd (
                clash u there
                  (subst (λ x. find x root ≡ none) (sym ((bytes_beq_iff t type).0 same)) h))
            | inr other ↦ find-put_other t type _ root other ∙ h
          ])
  ]
    where
      no_state : none ≡ some root' → ⊥
      no_state e = ground arith

      clash : (u : State R) → find t root ≡ some u → find t root ≡ none → ⊥
      clash u a b = ground arith

  -- what AddState changes
  pub add_state_lem :
      (rule : Rule R) (m m' : Fsm R) (captures : ℕ)
      → add_state rule.match rule.match_metric_type rule.rule_result m ≡ some (m', captures)
      → (root' : Transitions R) × (add_from_all
            (fields_of rule)
            rule.rule_result
            m.states_count
            (types_of m.metric_types rule)
            m.root
          ≡ some root')
        × (m' ≡ record m { root = root'; states_count = m.states_count + 1 })
        × (captures ≡ count_captures (types_of m.metric_types rule) (fields_of rule) 0)
  unfolding add_state types_of
  add_state_lem rule m m' captures e =
      elim (Option-cases (
        add_from_all (fields_of rule) rule.rule_result m.states_count (types_of m.metric_types rule)
          m.root)) [
            | inl gone ↦ absurd (no_root (rw gone at e))
            | inr (root', there) ↦
                let made : Fsm R × ℕ = (
                  record m { root = root'; states_count = m.states_count + 1 },
                  count_captures (types_of m.metric_types rule) (fields_of rule) 0,
                ) in
                let out : Fsm R × ℕ = (m', captures) in
                (
                  root',
                  there,
                  sym (ap (λ (x : Fsm R × ℕ). x.0) (some-injective made out (rw there at e))),
                  sym (ap (λ (x : Fsm R × ℕ). x.1) (some-injective made out (rw there at e))),
                )
          ]
    where
      no_root : ◌≡◌ {A = Option (Fsm R × ℕ)} none (some (m', captures)) → ⊥
      no_root e = ground arith

  pub Built-IsModel :
      (types : List Bytes) (disabled : Bool) (rules : List (Rule R)) (m : Fsm R)
      → Built types disabled rules m
      → IsModel types disabled rules m
  unfolding new_fsm find
  Built-IsModel types disabled _ _ created = (
    refl,
    refl,
    refl,
    λ type s e.
        subst (Means types type [])
          (sym (type_roots-new types type nothing s (λ t e'. absurd (ground arith)) e))
          (Means-new types type),
  )
  Built-IsModel types disabled _ _ (added rules rule m m' captures b e) =
      let (same, count, order, means) = Built-IsModel types disabled rules m b in
      let (root', there, changed, _) = add_state_lem rule m m' captures e in
      subst (IsModel types disabled (rules ++ rule ∷ [])) (sym changed) (
        same,
        rw (count, length-append rules (rule ∷ [])) refl,
        order,
        λ type s' e'. elim (Option-cases (find type m.root)) [
          | inl gone ↦
              absurd (clash type root' s' e' (add_from_all-absent _ _ _ _ _ root' type there gone))
          | inr (s, before) ↦
              let (s'', after, g) = add_from_all-GrownIf _ _ _ _ m.root root' type s there before in
              subst (Means types type (rules ++ rule ∷ [])) (some-injective s'' s' (sym after ∙ e'))
                (Means-snoc types type rules rule s s'' (rw (← same, ← count) g)
                  (means type s before))
        ],
      )
    where
      clash :
          (type : Bytes) (root' : Transitions R) (s' : State R)
          → find type root' ≡ some s'
          → find type root' ≡ none
          → ⊥
      clash type root' s' a b = ground arith
