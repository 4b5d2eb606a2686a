-- ===== src/Fsm/Backtrack.antt =====
-- GetMapping: the loop over the stack, and its fuel.
use statsd_bridge.Prelude.{
  ℕ, zero, suc, ◌+◌, ◌≤◌, ◌≡◌, refl, ap, ◌∙◌, true, false, Option, none, some, List, [], ◌∷◌,
  append-nil, arith, length, Bytes, Returns, Returns-bind, split, replicate,
}
use mathlib.Core.Path.{subst}
use statsd_bridge.Fsm.{State, find, Fsm}
use statsd_bridge.Fsm.Search.{
  Found, Cursor, Search, Round, returned, broken, search_from, backtrack, set, rounds, get_mapping,
}
use statsd_bridge.Fsm.Hits.{Hit, hits, choose, Shows}
use statsd_bridge.Fsm.Rounds.{
  pending, weight, Ordered, Ends, search_from-Ends, set_lem, pending_same, Ordered-mono, Ends-mono,
  IsSetAt,
}

pub length-replicate {ℓ} : {A : Type ℓ} (n : ℕ) (a : A) → length (replicate n a) ≡ n
length-replicate zero a = refl
length-replicate (suc n) a = ap suc (length-replicate n a)

module _ {R : Type 0} where
  -- The loop returns what shows the target.
  abbrev Finishes : Option (Hit R) → ℕ → Round R → Type 0
  Finishes target fuel round =
      Returns (λ (found : Option (Found R)). Shows found target) (backtrack true false fuel round)

  -- one round of the loop, by the rounds after it
  backtrack-step :
      (fuel n m : ℕ) (target b : Option (Hit R)) (captures : List Bytes) (best : Option (Found R))
      (stack : List (Cursor R))
      → ((k : ℕ) (round : Round R) → k ≤ fuel → Ends target k m round → Finishes target fuel round)
      → Shows best b
      → choose b (pending captures stack) ≡ target
      → Ordered m m stack
      → length captures ≡ m
      → weight stack ≤ fuel
      → Finishes target
          (suc fuel)
          (broken (record { captures = captures; best = best; stack = stack }))
  unfolding backtrack pending weight choose
  backtrack-step fuel n m target b captures best [] next sh e o l w = subst (Shows best) e sh
  backtrack-step fuel n m target b captures best (c ∷ cs) next sh e (k, room, o) l w =
      let i = c.capture_index in
      Returns-bind (IsSetAt captures i c.current_capture) _ (set captures i c.current_capture) _
        (λ captures' (same, at, keep).
          let st : Search R = record { captures = captures'; best = best; stack = cs } in
          Returns-bind (Ends target (weight cs + rounds c.rest) m) _
            (search_from true false c.rest c.target (suc i) st) _
            (λ round ends. next (weight cs + rounds c.rest) round (omega arith) ends)
            (subst
              (λ t.
                Returns (Ends t (weight cs + rounds c.rest) m)
                  (search_from true false c.rest c.target (suc i) st))
              (rw (at, pending_same m i captures captures' cs o keep) e)
              (search_from-Ends c.rest c.target (suc i) m st b sh
                (Ordered-mono m i (suc i) cs (omega arith) o) (same ∙ l) (omega arith))))
        (set_lem captures i c.current_capture (omega arith))

  backtrack_lem :
      (fuel n m : ℕ) (target : Option (Hit R)) (round : Round R)
      → n ≤ fuel
      → Ends target n m round
      → Finishes target fuel round
  backtrack_lem fuel n m target (returned f) h e = absurd e
  backtrack_lem zero n m target (broken st) h (b, sh, e, o, l, w) = absurd (omega arith)
  backtrack_lem (suc fuel) n m target (broken st) h (b, sh, e, o, l, w) =
      backtrack-step fuel n m target b st.captures st.best st.stack
        (λ k round. backtrack_lem fuel k m target round) sh e o l (omega arith)

  -- The machine that backtracks and keeps the order of the rules.
  abbrev pub IsOrdered : Fsm R → Type 0
  IsOrdered m = (m.backtracking_needed ≡ true) × (m.ordering_disabled ≡ false)

  pub get_mapping-Shows :
      (name type : Bytes) (m : Fsm R) (s : State R)
      → IsOrdered m
      → find type m.root ≡ some s
      → Returns
          (λ found. Shows found (choose none (hits [] s (split b'.' name))))
          (get_mapping name type m)
  unfolding get_mapping pending weight
  get_mapping-Shows name type m s (on, off) e =
      let fields = split b'.' name in
      let empty : Search R = record {
        captures = replicate (length fields) [];
        best = none;
        stack = [];
      } in
      rw (e, on, off)
        (Returns-bind (Ends (choose none (hits [] s fields)) (rounds fields) (length fields)) _
          (search_from true false fields s 0 empty) _
          (λ round.
            backtrack_lem (rounds fields) (rounds fields) (length fields) _ round (omega arith))
          (start fields))
    where
      start :
          (fields : List Bytes)
          → Returns (Ends (choose none (hits [] s fields)) (rounds fields) (length fields)) (
              search_from true false fields s 0
                (record { captures = replicate (length fields) []; best = none; stack = [] }))
      start fields =
          subst
            (λ hs. Returns (Ends (choose none hs) (rounds fields) (length fields)) (
              search_from true false fields s 0
                (record { captures = replicate (length fields) []; best = none; stack = [] })))
            (append-nil (hits [] s fields))
            (Ends-mono _ _ _ (length fields) _ (omega arith) (
              search_from-Ends fields s 0 (length fields)
                (record { captures = replicate (length fields) []; best = none; stack = [] }) none
                tt tt (length-replicate (length fields) []) (omega arith)))
