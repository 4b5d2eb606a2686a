-- ===== src/Fsm/Finds.antt =====
-- What GetMapping finds on a machine that NewFSM and AddState have made, in terms of the rules.
use statsd_bridge.Prelude.{Bool}
use statsd_bridge.Prelude.{
  ℕ, ◌≤◌, ◌≡◌, refl, sym, ap, ◌∙◌, ◌⊎◌, inl, inr, true, false, ◌||◌, Option, none, some, List, [],
  ◌∷◌, ◌++◌, arith, Bytes, bytes_beq, bytes_beq_iff, Bool-cases, ◌==◌, length, split, take, Returns,
  Returns-mono,
}
use statsd_bridge.Prelude.Text.{split_from}
use statsd_bridge.Fsm.{
  State, Transitions, nothing, Fsm, find, put, new_state, type_roots, new_fsm, result,
  result_priority,
}
use statsd_bridge.Fsm.Search.{Found, get_mapping}
use statsd_bridge.Fsm.Walk.{Glob, Glob-length, Leads}
use statsd_bridge.Fsm.Best.{IsBest, get_mapping-IsBest}
use statsd_bridge.Fsm.Grow.{find-put, find-put_other}
use statsd_bridge.Fsm.Bounds.{Leads-view, view-Leads}
use statsd_bridge.Fsm.Rank.{Leads-rank}
use statsd_bridge.Fsm.Rules.{Rule, has_type, meaning, last_rule}
use statsd_bridge.Fsm.Grown.{Means, add_from_all-GrownIf}
use statsd_bridge.Fsm.Runs.{Built, created, added, Built-IsModel, add_state_lem}

split_from-length : (sep : ℕ) (cur s : Bytes) → 1 ≤ length (split_from sep cur s)
unfolding split_from
split_from-length sep cur [] = omega arith
split_from-length sep cur (c ∷ s) = elim (Bool-cases (c == sep)) [
  | inl e ↦ rw e (omega arith)
  | inr e ↦ rw e (split_from-length sep (cur ++ c ∷ []) s)
]

pub split-length : (sep : ℕ) (s : Bytes) → 1 ≤ length (split sep s)
unfolding split
split-length sep s = split_from-length sep [] s

module _ {R : Type 0} where
  type_roots-present :
      (types : List Bytes) (type : Bytes) (root : Transitions R)
      → (has_type type types ≡ true) ⊎ ((s : State R) × (find type root ≡ some s))
      → (s : State R) × (find type (type_roots types root) ≡ some s)
  unfolding has_type type_roots
  type_roots-present [] type root (inl h) = absurd (ground arith)
  type_roots-present [] type root (inr h) = h
  type_roots-present (t ∷ types) type root h =
      type_roots-present types type (put t new_state root) (elim (Bool-cases (bytes_beq t type)) [
        | inl same ↦
            inr (new_state, rw (← (bytes_beq_iff t type).0 same) (find-put t new_state root))
        | inr other ↦ still other h
      ])
    where
      still :
          bytes_beq t type ≡ false
          → ((bytes_beq t type || has_type type types) ≡ true)
            ⊎ ((s : State R) × (find type root ≡ some s))
          → (has_type type types ≡ true)
            ⊎ ((s : State R) × (find type (put t new_state root) ≡ some s))
      still other (inl h) = inl (rw other at h)
      still other (inr (s, e)) = inr (s, find-put_other t type new_state root other ∙ e)

  -- Every type of the machine keeps a start state.
  pub Built-has_state :
      (types : List Bytes) (disabled : Bool) (rules : List (Rule R)) (m : Fsm R) (type : Bytes)
      → Built types disabled rules m
      → has_type type types ≡ true
      → (s : State R) × (find type m.root ≡ some s)
  unfolding new_fsm
  Built-has_state types disabled _ _ type created h = type_roots-present types type nothing (inl h)
  Built-has_state types disabled _ _ type (added rules rule m m' captures b e) h =
      let (s, before) = Built-has_state types disabled rules m type b h in
      let (root', there, changed, _) = add_state_lem rule m m' captures e in
      let (s', after, g) = add_from_all-GrownIf _ _ _ _ m.root root' type s there before in
      (s', ap (λ (x : Fsm R). find type x.root) changed ∙ after)

  -- The rules give the result `r` at the fields `p`.
  abbrev pub Gives : List Bytes → Bytes → List (Rule R) → List Bytes → R → Type 0
  Gives types type rules p r = meaning types type rules p ≡ some (some r)

  -- Nothing is found where no fields with a result match. What is found is the result at fields that
  -- match, with what their stars stand for as the first captures; and at all other fields that match
  -- and have a result, the last rule comes no earlier.
  abbrev pub Answers : List Bytes → Bytes → List (Rule R) → List Bytes → Option (Found R) → Type 0
  Answers types type rules fields none =
      (p caps : List Bytes) (r : R) → Glob p fields caps → ¬ Gives types type rules p r
  Answers types type rules fields (some f) =
      (p : List Bytes) × (caps : List Bytes) × (r : R) × (n : ℕ) × Glob p fields caps
      × Gives types type rules p r
      × (result f.final_state ≡ some r)
      × (take (length caps) f.final_captures ≡ caps)
      × (last_rule types type 0 none rules p ≡ some n)
      × ((p' caps' : List Bytes) (r' : R)
          → Glob p' fields caps'
          → Gives types type rules p' r'
          → (n' : ℕ) × (last_rule types type 0 none rules p' ≡ some n') × (n ≤ n'))

  -- The start state has what the rules mean, at all fields but the empty list.
  pub Leads-Gives :
      (types : List Bytes) (type : Bytes) (rules : List (Rule R)) (s t : State R) (p : List Bytes)
      (r : R)
      → Means types type rules s
      → 1 ≤ length p
      → Leads p s t r
      → Gives types type rules p r
        × (last_rule types type 0 none rules p ≡ some (result_priority t))
  Leads-Gives types type rules s t [] r means h leads = absurd (omega arith)
  Leads-Gives types type rules s t (f ∷ p) r (_, view_s, rank_s) h leads =
      let seen = Leads-view (f ∷ p) s t r leads in
      (sym (view_s f p) ∙ seen, sym (rank_s f p r seen) ∙ Leads-rank (f ∷ p) s t r leads)

  Gives-Leads :
      (types : List Bytes) (type : Bytes) (rules : List (Rule R)) (s : State R) (p : List Bytes)
      (r : R)
      → Means types type rules s
      → 1 ≤ length p
      → Gives types type rules p r
      → (t : State R) × Leads p s t r
  Gives-Leads types type rules s [] r means h g = absurd (omega arith)
  Gives-Leads types type rules s (f ∷ p) r (_, view_s, _) h g =
      view-Leads (f ∷ p) s r (view_s f p ∙ g)

  IsBest-Answers :
      (types : List Bytes) (type : Bytes) (rules : List (Rule R)) (s : State R)
      (fields : List Bytes) (found : Option (Found R))
      → Means types type rules s
      → 1 ≤ length fields
      → IsBest s fields found
      → Answers types type rules fields found
  IsBest-Answers types type rules s fields none means h best = λ p caps r g gives.
      let same = Glob-length p fields caps g in
      let (t, leads) = Gives-Leads types type rules s p r means (omega arith) gives in
      best p caps t r g leads
  IsBest-Answers types type rules s fields (some f) means h ((p, caps, r, g, leads, c), least) =
      let same = Glob-length p fields caps g in
      let (gives, last) =
        Leads-Gives types type rules s f.final_state p r means (omega arith) leads in
      (
        p,
        caps,
        r,
        result_priority f.final_state,
        g,
        gives,
        leads.1,
        c,
        last,
        λ p' caps' r' g' gives'.
            let same' = Glob-length p' fields caps' g' in
            let (t', leads') = Gives-Leads types type rules s p' r' means (omega arith) gives' in
            let (_, last') = Leads-Gives types type rules s t' p' r' means (omega arith) leads' in
            (result_priority t', last', least p' caps' t' r' g' leads'),
      )

  -- GetMapping on a machine that NewFSM and AddState have made, the order of the rules kept and
  -- backtracking on: it returns for every type of the machine. It returns nil where no fields to
  -- which the rules give a result match the metric's; else the result at fields that match, with
  -- what their stars stand for as the first captures, and no other fields that match and have a
  -- result are those of an earlier last rule.
  pub get_mapping-Answers :
      (types : List Bytes) (type name : Bytes) (rules : List (Rule R)) (m : Fsm R)
      → Built types false rules m
      → has_type type types ≡ true
      → Returns
          (Answers types type rules (split b'.' name))
          (get_mapping name type (record m { backtracking_needed = true }))
  get_mapping-Answers types type name rules m b h =
      let (_, _, order, means) = Built-IsModel types false rules m b in
      let (s, there) = Built-has_state types false rules m type b h in
      Returns-mono _ _ (get_mapping name type (record m { backtracking_needed = true }))
        (λ found.
          IsBest-Answers types type rules s (split b'.' name) found (means type s there)
            (split-length b'.' name))
        (get_mapping-IsBest name type (record m { backtracking_needed = true }) s (refl, order)
          there (means type s there).0)
