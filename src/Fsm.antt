-- ===== src/Fsm.antt =====
-- pkg/mapper/fsm/fsm.go: the glob rules as a tree of states, and the search in it. A state is
-- pointed to by one map only, so the states form a tree. `none` is a panic: a nil map or state, or
-- an index out of range.
pub mod Search
pub mod Formats
pub mod Needs
pub mod Template
pub mod Hits
pub mod Rounds
pub mod Backtrack
pub mod Walk
pub mod Best
pub mod Sound
pub mod Adds
pub mod Grow
pub mod Bounds
pub mod Rank
pub mod Rules
pub mod Grown
pub mod Runs
pub mod Finds
pub mod Shadow
use statsd_bridge.Prelude.{
  ℕ, zero, suc, ◌+◌, ◌-◌, Bool, true, false, not, ◌&&◌, ◌||◌, Option, none, some, List, [], ◌∷◌,
  ◌++◌, ltb, ◌==◌, length, replicate, if◌then◌else◌, Bytes, codes, bytes_beq, split, ◌>>=◌,
}

mutual
  -- mappingState: transitions, minRemainingLength, maxRemainingLength, Result, ResultPriority
  pub data State (R : Type 0) : Type 0 where
    state : Transitions R → ℕ → ℕ → Option R → ℕ → State R

  -- the map of transitions
  pub data Transitions (R : Type 0) : Type 0 where
    nothing : Transitions R
    transition : Bytes → State R → Transitions R → Transitions R

abbrev pub star : Bytes
star = codes "*"

module _ {R : Type 0} where
  unfoldable pub transitions : State R → Transitions R
  transitions (state ts lo hi r p) = ts

  unfoldable pub min_remaining_length : State R → ℕ
  min_remaining_length (state ts lo hi r p) = lo

  unfoldable pub max_remaining_length : State R → ℕ
  max_remaining_length (state ts lo hi r p) = hi

  unfoldable pub result : State R → Option R
  result (state ts lo hi r p) = r

  unfoldable pub result_priority : State R → ℕ
  result_priority (state ts lo hi r p) = p

  -- transitions[field]
  unfoldable pub find : Bytes → Transitions R → Option (State R)
  find field nothing = none
  find field (transition f s ts) = if bytes_beq f field then some s else find field ts

  -- transitions[field] = s
  unfoldable pub put : Bytes → State R → Transitions R → Transitions R
  put field s nothing = transition field s nothing
  put field s (transition f t ts) =
      if bytes_beq f field then transition f s ts else transition f t (put field s ts)

  -- &mappingState{}
  unfoldable pub new_state : State R
  new_state = state nothing 0 0 none 0

-- minmax.go
unfoldable pub min : ℕ → ℕ → ℕ
min x y = if ltb x y then x else y

unfoldable pub max : ℕ → ℕ → ℕ
max x y = if ltb y x then x else y

pub record Fsm (R : Type 0) : Type 0 where
  -- the transitions of the root, by the metric type
  pub root : Transitions R
  pub metric_types : List Bytes
  pub states_count : ℕ
  pub backtracking_needed : Bool
  pub ordering_disabled : Bool

unfoldable pub type_roots : {R : Type 0} → List Bytes → Transitions R → Transitions R
type_roots [] root = root
type_roots (field ∷ fields) root = type_roots fields (put field new_state root)

-- the last field of a rule has none behind it
is_last : List Bytes → Bool
is_last [] = true
is_last (_ ∷ _) = false

unfoldable pub capture_count : List Bytes → ℕ
capture_count [] = 0
capture_count (f ∷ fields) =
    if bytes_beq f star then suc (capture_count fields) else capture_count fields

-- The count that is left behind the loop over the start states: it begins again for each of them, so
-- that it is `n` where there are none.
unfoldable pub count_captures : List Bytes → List Bytes → ℕ → ℕ
unfolding capture_count
count_captures [] fields n = n
count_captures (t ∷ types) fields n = count_captures types fields (capture_count fields)

-- NewFSM
unfoldable pub new_fsm : {R : Type 0} → List Bytes → Bool → Fsm R
unfolding type_roots
new_fsm metric_types ordering_disabled = record {
  root = type_roots metric_types nothing;
  metric_types = metric_types;
  states_count = 0;
  backtracking_needed = false;
  ordering_disabled = ordering_disabled;
}

module _ {R : Type 0} where
  -- the state behind a field of the rule, with `rest` behind it: a new one or the one with wider
  -- bounds
  unfoldable pub entered : List Bytes → R → Option (State R) → State R
  unfolding is_last min max
  entered rest r none =
      state nothing (length rest) (length rest) (if is_last rest then some r else none) 0
  entered rest r (some (state ts lo hi r' p)) =
      state ts (min (length rest) lo) (max (length rest) hi) r' p

  unfoldable pub with_transition : Bytes → State R → State R → State R
  with_transition field t (state ts lo hi r p) = state (put field t ts) lo hi r p

  unfoldable pub with_priority : ℕ → State R → State R
  with_priority q (state ts lo hi r p) = state ts lo hi r q

  -- The loop over the fields of a rule from one start state. The priority of the final state, which
  -- the source sets after the last start state, is set at once.
  unfoldable pub add_fields : List Bytes → R → ℕ → State R → State R
  unfolding entered with_transition with_priority
  add_fields [] r p s = with_priority p s
  add_fields (field ∷ rest) r p s =
      with_transition field (add_fields rest r p (entered rest r (find field (transitions s)))) s

  -- the start state of one metric type
  unfoldable pub add_from : List Bytes → R → ℕ → Bytes → Transitions R → Option (Transitions R)
  unfolding add_fields
  add_from fields r p metric_type root = do
    s ← find metric_type root
    some (put metric_type (add_fields fields r p s) root)

  unfoldable pub add_from_all :
      List Bytes → R → ℕ → List Bytes → Transitions R → Option (Transitions R)
  unfolding add_from
  add_from_all fields r p [] root = some root
  add_from_all fields r p (t ∷ types) root =
      add_from fields r p t root >>= add_from_all fields r p types

  -- AddState: the machine and the number of captures
  unfoldable pub add_state : Bytes → Bytes → R → Fsm R → Option (Fsm R × ℕ)
  unfolding add_from_all count_captures
  add_state match match_metric_type r m = do
    let fields = split b'.' match
    let types = if length match_metric_type == 0 then m.metric_types else match_metric_type ∷ []
    root ← add_from_all fields r m.states_count types m.root
    some
        (record m { root = root; states_count = m.states_count + 1 }, count_captures types fields 0)
