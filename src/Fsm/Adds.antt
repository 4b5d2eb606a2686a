-- ===== src/Fsm/Adds.antt =====
-- AddState on a machine that NewFSM has made: which metric types it knows.
use statsd_bridge.Prelude.{
  ℕ, ◌≡◌, sym, ◌∙◌, inl, inr, refl, arith, true, Bool, some, List, [], ◌∷◌, ◌++◌, Bytes, bytes_beq,
  bytes_beq_iff, Bool-cases, All, Returns, Returns-bind, Returns-elim, Returns-intro,
}
use mathlib.Core.Path.{subst}
use statsd_bridge.Fsm.{
  State, Transitions, Fsm, find, put, add_state, add_from_all, add_from, add_fields, capture_count,
  count_captures,
}
use statsd_bridge.Fsm.Grow.{find-put, find-put_other}
use statsd_bridge.Fsm.Rules.{Rule, types_of, fields_of, has_type}
use statsd_bridge.Fsm.Runs.{Built, added, Built-IsModel, add_state_lem}
use statsd_bridge.Fsm.Finds.{Built-has_state}

count_captures_lem :
    (types fields : List Bytes)
    → count_captures types fields (capture_count fields) ≡ capture_count fields
unfolding count_captures
count_captures_lem [] fields = refl
count_captures_lem (t ∷ types) fields = count_captures_lem types fields

-- With a metric type, the count is that of the fields.
pub count_captures-has_type :
    (type : Bytes) (types fields : List Bytes)
    → has_type type types ≡ true
    → count_captures types fields 0 ≡ capture_count fields
unfolding count_captures has_type
count_captures-has_type type [] fields h = absurd (ground arith)
count_captures-has_type type (t ∷ types) fields h = count_captures_lem types fields

module _ {R : Type 0} where
  -- There is a start state for the type.
  abbrev HasState : Transitions R → Bytes → Type 0
  HasState root t = (s : State R) × (find t root ≡ some s)

  HasState-put :
      (t type : Bytes) (s : State R) (root : Transitions R)
      → HasState root type
      → HasState (put t s root) type
  HasState-put t type s root (u, there) = elim (Bool-cases (bytes_beq t type)) [
    | inl same ↦ (
      s,
      subst (λ x. find x (put t s root) ≡ some s) ((bytes_beq_iff t type).0 same)
          (find-put t s root),
    )
    | inr other ↦ (u, find-put_other t type s root other ∙ there)
  ]

  HasState-puts :
      (t : Bytes) (s : State R) (root : Transitions R) (ts : List Bytes)
      → All (HasState root) ts
      → All (HasState (put t s root)) ts
  HasState-puts t s root [] h = tt
  HasState-puts t s root (type ∷ ts) (h, hs) =
      (HasState-put t type s root h, HasState-puts t s root ts hs)

  add_from_all-Returns :
      (fields : List Bytes) (r : R) (n : ℕ) (ts : List Bytes) (root : Transitions R)
      → All (HasState root) ts
      → Returns (λ root'. Unit) (add_from_all fields r n ts root)
  unfolding add_from_all add_from
  add_from_all-Returns fields r n [] root h = tt
  add_from_all-Returns fields r n (t ∷ ts) root ((s, there), hs) =
      rw there (
        add_from_all-Returns fields r n ts _ (HasState-puts t (add_fields fields r n s) root ts hs))

  has_types :
      (types : List Bytes) (disabled : Bool) (rules : List (Rule R)) (m : Fsm R) (ts : List Bytes)
      → Built types disabled rules m
      → All (λ t. has_type t types ≡ true) ts
      → All (HasState m.root) ts
  has_types types disabled rules m [] b h = tt
  has_types types disabled rules m (t ∷ ts) b (h, hs) =
      (Built-has_state types disabled rules m t b h, has_types types disabled rules m ts b hs)

  -- The machine after the call, with the rule as its last one, and the number of captures.
  abbrev pub IsAdded : List Bytes → Bool → List (Rule R) → Rule R → Fsm R × ℕ → Type 0
  IsAdded types disabled rules rule x =
      Built types disabled (rules ++ rule ∷ []) x.0
      × (x.1 ≡ count_captures (types_of types rule) (fields_of rule) 0)

  add_state-some :
      (rule : Rule R) (m : Fsm R)
      → All (HasState m.root) (types_of m.metric_types rule)
      → Returns (λ x. Unit) (add_state rule.match rule.match_metric_type rule.rule_result m)
  unfolding add_state types_of
  add_state-some rule m k =
      Returns-bind (λ x. Unit) (λ x. Unit)
        (add_from_all (fields_of rule) rule.rule_result m.states_count
          (types_of m.metric_types rule) m.root)
        _ (λ root' _. tt)
        (add_from_all-Returns (fields_of rule) rule.rule_result m.states_count _ m.root k)

  pub add_state-Returns :
      (types : List Bytes) (disabled : Bool) (rules : List (Rule R)) (rule : Rule R) (m : Fsm R)
      → Built types disabled rules m
      → All (λ t. has_type t types ≡ true) (types_of types rule)
      → Returns
          (IsAdded types disabled rules rule)
          (add_state rule.match rule.match_metric_type rule.rule_result m)
  add_state-Returns types disabled rules rule m b h =
      let (same, _, _, _) = Built-IsModel types disabled rules m b in
      let states =
        subst (λ ts. All (HasState m.root) (types_of ts rule)) (sym same)
          (has_types types disabled rules m (types_of types rule) b h) in
      let (x, e, _) = Returns-elim (λ x. Unit) _ (add_state-some rule m states) in
      let (_, _, _, count) = add_state_lem rule m x.0 x.1 e in
      Returns-intro (IsAdded types disabled rules rule) _ x e (
        added rules rule m x.0 x.1 b e,
        subst (λ ts. x.1 ≡ count_captures (types_of ts rule) (fields_of rule) 0) same count,
      )
