-- ===== src/Fsm/Search.antt =====
-- GetMapping: the loop for a single search, the stack for backtracking, and the loop over it.
use statsd_bridge.Prelude.{
  ℕ, zero, suc, ◌+◌, Bool, true, false, not, ◌||◌, Option, none, some, List, [], ◌∷◌, ltb, length,
  replicate, if◌then◌else◌, Bytes, split, ◌>>=◌,
}
use statsd_bridge.Fsm.{
  State, Transitions, nothing, transition, star, transitions, min_remaining_length,
  max_remaining_length, result, result_priority, find, Fsm,
}

-- captures[i] = v; `none` is the panic of an index out of range
unfoldable pub set {ℓ} : {A : Type ℓ} → List A → ℕ → A → Option (List A)
set [] i v = none
set (x ∷ xs) zero v = some (v ∷ xs)
set (x ∷ xs) (suc i) v = do ys ← set xs i v; some (x ∷ ys)

module _ (R : Type 0) where
  -- fsmBacktrackStackCursor; `rest` stands for the fields behind matchFields[fieldIndex]
  pub record Cursor : Type 0 where
    pub rest : List Bytes
    pub capture_index : ℕ
    pub current_capture : Bytes
    pub target : State R

  -- finalState and finalCaptures
  pub record Found : Type 0 where
    pub final_state : State R
    pub final_captures : List Bytes

  -- the variables that outlive a single search; the top of the stack first
  pub record Search : Type 0 where
    pub captures : List Bytes
    pub best : Option Found
    pub stack : List Cursor

  -- A single search ends by `return`, where the ordering is disabled, or by `break`.
  pub data Round : Type 0 where
    returned : Found → Round
    broken : Search → Round

module _ {R : Type 0} where
  -- the bounds that exclude a state with `left` fields left
  unfoldable pub is_outside : ℕ → State R → Bool
  is_outside left s = ltb (max_remaining_length s) left || ltb left (min_remaining_length s)

  -- a state that is present and within the bounds
  unfoldable pub within : ℕ → Option (State R) → Option (State R)
  unfolding is_outside
  within left none = none
  within left (some s) = if is_outside left s then none else some s

  unfoldable pub has_better : ℕ → Option (Found R) → Bool
  has_better p none = false
  has_better p (some f) = not (ltb p (result_priority f.final_state))

  -- a final state with a result is reached
  unfoldable pub reach : Bool → State R → Search R → Round R
  unfolding has_better
  reach ordering_disabled s st =
      let found : Found R = record { final_state = s; final_captures = st.captures } in
      if ordering_disabled
      then returned found
      else if has_better (result_priority s) st.best
      then broken st
      else broken (record st { best = some found })

  -- the end of the fields
  unfoldable pub at_end : Bool → State R → Search R → Round R
  unfolding reach
  at_end ordering_disabled s st = elim (result s) [
    | none ↦ broken st
    | some r ↦ reach ordering_disabled s st
  ]

  -- the alternative * is put on the stack, if it may match
  unfoldable pub push : Option (State R) → List Bytes → ℕ → Bytes → Search R → Search R
  push none rest i field st = st
  push (some s) rest i field st = record st {
    stack =
        (record { rest = rest; capture_index = i; current_capture = field; target = s }) ∷ st.stack;
  }

  unfoldable pub has_none : Transitions R → Bool
  has_none nothing = true
  has_none (transition f s ts) = false

  -- A single search, from the test for a final state on; `i` is captureIdx.
  unfoldable pub search_from : Bool → Bool → List Bytes → State R → ℕ → Search R → Option (Round R)
  unfolding at_end within push has_none set
  search_from backtracking ordering_disabled [] s i st = some (at_end ordering_disabled s st)
  search_from backtracking ordering_disabled (field ∷ rest) s i st =
      let ts = transitions s in
      let alternative = within (length rest) (find star ts) in
      if has_none ts then some (broken st) else elim (within (length rest) (find field ts)) [
        | some t ↦
            search_from backtracking ordering_disabled rest t i
              (if backtracking then push alternative rest i field st else st)
        | none ↦ elim alternative [
          | none ↦ some (broken st)
          | some t ↦ do
            captures ← set st.captures i field
            search_from backtracking ordering_disabled rest t (suc i)
                (record st { captures = captures })
        ]
      ]

  -- the loop for backtracking
  unfoldable pub backtrack : Bool → Bool → ℕ → Round R → Option (Option (Found R))
  unfolding search_from
  backtrack backtracking ordering_disabled fuel (returned f) = some (some f)
  backtrack backtracking ordering_disabled zero (broken st) = none
  backtrack backtracking ordering_disabled (suc fuel) (broken st) = elim st.stack [
    | [] ↦ some st.best
    | c ∷ stack ↦ do
      captures ← set st.captures c.capture_index c.current_capture
      round ←
          search_from backtracking ordering_disabled c.rest c.target (suc c.capture_index)
            (record st { captures = captures; stack = stack })
      backtrack backtracking ordering_disabled fuel round
  ]

-- the bound on the searches: one for each choice between a field and * at each place
unfoldable pub rounds : List Bytes → ℕ
rounds [] = 1
rounds (f ∷ fields) = rounds fields + rounds fields

-- GetMapping: `some none` is a nil state.
unfoldable pub get_mapping : {R : Type 0} → Bytes → Bytes → Fsm R → Option (Option (Found R))
unfolding backtrack rounds
get_mapping statsd_metric statsd_metric_type m = do
  let fields = split b'.' statsd_metric
  s ← find statsd_metric_type m.root
  round ←
      search_from m.backtracking_needed m.ordering_disabled fields s 0
        (record { captures = replicate (length fields) []; best = none; stack = [] })
  backtrack m.backtracking_needed m.ordering_disabled (rounds fields) round
