-- ===== src/Fsm/Sound.antt =====
-- GetMapping whatever the options of the machine: what the search keeps of the place it is at.
use statsd_bridge.Prelude.{
  ℕ, zero, suc, ◌+◌, ◌≤◌, ◌≡◌, refl, sym, ap, ◌∙◌, inl, inr, Bool, Option, none, some, List, [],
  ◌∷◌, ◌++◌, append-nil, append_assoc, arith, length, take, Bytes, Bool-cases, Option-cases,
  Returns, Returns-bind, split, replicate, ◌>>=◌,
}
use mathlib.Core.Path.{subst}
use statsd_bridge.Fsm.{State, Fsm, star, transitions, result, result_priority, find}
use statsd_bridge.Fsm.Search.{
  within, Found, Cursor, Search, Round, returned, broken, has_better, has_none, search_from, at_end,
  reach, push, set, rounds, backtrack, get_mapping,
}
use statsd_bridge.Fsm.Rounds.{
  weight, Ordered, Ordered-mono, set_lem, IsSetAt, length-take, rounds_positive,
}
use statsd_bridge.Fsm.Backtrack.{length-replicate}
use statsd_bridge.Fsm.Walk.{Glob, ends, field, any, state_at, Leads, within-some}

Glob-snoc_field :
    (f : Bytes) (p fields caps : List Bytes)
    → Glob p fields caps
    → Glob (p ++ f ∷ []) (fields ++ f ∷ []) caps
Glob-snoc_field f _ _ _ ends = field f [] [] [] ends
Glob-snoc_field f _ _ _ (field g p fields caps h) =
    field g _ _ _ (Glob-snoc_field f p fields caps h)
Glob-snoc_field f _ _ _ (any g p fields caps h) = any g _ _ _ (Glob-snoc_field f p fields caps h)

Glob-snoc_any :
    (f : Bytes) (p fields caps : List Bytes)
    → Glob p fields caps
    → Glob (p ++ star ∷ []) (fields ++ f ∷ []) (caps ++ f ∷ [])
Glob-snoc_any f _ _ _ ends = any f [] [] [] ends
Glob-snoc_any f _ _ _ (field g p fields caps h) = field g _ _ _ (Glob-snoc_any f p fields caps h)
Glob-snoc_any f _ _ _ (any g p fields caps h) = any g _ _ _ (Glob-snoc_any f p fields caps h)

module _ {R : Type 0} (start : State R) (all : List Bytes) where
  state_at-snoc :
      (p : List Bytes) (f : Bytes) (s t u : State R)
      → state_at p s ≡ some t
      → find f (transitions t) ≡ some u
      → state_at (p ++ f ∷ []) s ≡ some u
  unfolding state_at
  state_at-snoc [] f s t u e h =
      ap (λ (o : Option (State R)). o >>= λ x. find f (transitions x) >>= state_at []) e
      ∙ ap (λ (o : Option (State R)). o >>= state_at []) h
  state_at-snoc (g ∷ p) f s t u e h = elim (Option-cases (find g (transitions s))) [
    | inl gone ↦ absurd (no_state (rw gone at e))
    | inr (v, there) ↦ rw there (state_at-snoc p f v t u (rw there at e) h)
  ]
    where
      no_state : none ≡ some t → ⊥
      no_state e = ground arith

  -- Before the fields `rest` the search is at the state `s`, with the captures `caps`.
  abbrev Placed : List Bytes → State R → List Bytes → Type 0
  Placed caps s rest =
      (p : List Bytes) × (before : List Bytes) × Glob p before caps
      × (state_at p start ≡ some s)
      × (before ++ rest ≡ all)

  Placed-field :
      (caps : List Bytes) (s t : State R) (f : Bytes) (rest : List Bytes)
      → Placed caps s (f ∷ rest)
      → find f (transitions s) ≡ some t
      → Placed caps t rest
  Placed-field caps s t f rest (p, before, g, way, e) h = (
    p ++ f ∷ [],
    before ++ f ∷ [],
    Glob-snoc_field f p before caps g,
    state_at-snoc p f start s t way h,
    append_assoc before (f ∷ []) rest ∙ e,
  )

  Placed-any :
      (caps : List Bytes) (s t : State R) (f : Bytes) (rest : List Bytes)
      → Placed caps s (f ∷ rest)
      → find star (transitions s) ≡ some t
      → Placed (caps ++ f ∷ []) t rest
  Placed-any caps s t f rest (p, before, g, way, e) h = (
    p ++ star ∷ [],
    before ++ f ∷ [],
    Glob-snoc_any f p before caps g,
    state_at-snoc p star start s t way h,
    append_assoc before (f ∷ []) rest ∙ e,
  )

  -- A rule that matches leads to what is found, with what its stars stand for as the first captures
  -- of an array that has a place for each field.
  abbrev pub IsMatch : Found R → Type 0
  IsMatch f =
      ((p : List Bytes) × (caps : List Bytes) × (r : R) × Glob p all caps
        × Leads p start f.final_state r
        × (take (length caps) f.final_captures ≡ caps))
      × (length f.final_captures ≡ length all)

  abbrev pub IfMatch : Option (Found R) → Type 0
  IfMatch none = Unit
  IfMatch (some f) = IsMatch f

  -- Each cursor waits at a place behind a star.
  Waiting : List Bytes → List (Cursor R) → Type 0
  Waiting captures [] = Unit
  Waiting captures (c ∷ cs) =
      Placed (take c.capture_index captures ++ c.current_capture ∷ []) c.target c.rest
      × Waiting captures cs

  Waiting-same :
      (m i : ℕ) (xs ys : List Bytes) (cs : List (Cursor R))
      → Ordered m i cs
      → ((j : ℕ) → j ≤ i → take j ys ≡ take j xs)
      → Waiting xs cs
      → Waiting ys cs
  unfolding Waiting
  Waiting-same m i xs ys [] o h w = tt
  Waiting-same m i xs ys (c ∷ cs) (a, b, o) h (w, ws) = (
    subst (λ t. Placed (t ++ c.current_capture ∷ []) c.target c.rest) (sym (h c.capture_index a)) w,
    Waiting-same m c.capture_index xs ys cs o (λ j k. h j (omega arith)) ws,
  )

  abbrev Keeps : ℕ → Round R → Type 0
  Keeps n (returned f) = IsMatch f
  Keeps n (broken st) =
      IfMatch st.best
      × Waiting st.captures st.stack
      × Ordered (length all) (length all) st.stack
      × (length st.captures ≡ length all)
      × (weight st.stack + 1 ≤ n)

  reach-Keeps :
      (disabled : Bool) (s : State R) (r : R) (i n : ℕ) (st : Search R)
      → result s ≡ some r
      → Placed (take i st.captures) s []
      → IfMatch st.best
      → Waiting st.captures st.stack
      → Ordered (length all) (length all) st.stack
      → length st.captures ≡ length all
      → i ≤ length all
      → weight st.stack + 1 ≤ n
      → Keeps n (reach disabled s st)
  unfolding reach
  reach-Keeps disabled s r i n st e (p, before, g, way, same) best waiting o l h w =
      let m : IsMatch (record { final_state = s; final_captures = st.captures }) = (
        (
          p,
          take i st.captures,
          r,
          subst (λ x. Glob p x (take i st.captures)) (sym (append-nil before) ∙ same) g,
          (way, e),
          rw (length-take i st.captures (omega arith)) refl,
        ),
        l,
      ) in
      elim (Bool-cases disabled) [
        | inl off ↦ rw off m
        | inr on ↦ rw on (elim (Bool-cases (has_better (result_priority s) st.best)) [
          | inl kept ↦ rw kept (best, waiting, o, l, w)
          | inr taken ↦ rw taken (m, waiting, o, l, w)
        ])
      ]

  Keeps-mono :
      (n n' : ℕ) (o : Option (Round R)) → n ≤ n' → Returns (Keeps n) o → Returns (Keeps n') o
  Keeps-mono n n' none h k = k
  Keeps-mono n n' (some (returned f)) h k = k
  Keeps-mono n n' (some (broken st)) h (b, w, o, l, k) = (b, w, o, l, omega arith)

  at_end-Keeps :
      (backtracking disabled : Bool) (s : State R) (i : ℕ) (st : Search R)
      → Placed (take i st.captures) s []
      → IfMatch st.best
      → Waiting st.captures st.stack
      → Ordered (length all) i st.stack
      → length st.captures ≡ length all
      → i + 0 ≤ length all
      → Keeps (weight st.stack + 1) (at_end disabled s st)
  unfolding at_end
  at_end-Keeps backtracking disabled s i st place best waiting o l h =
      let o' : Ordered (length all) (length all) st.stack =
        Ordered-mono (length all) i (length all) st.stack (omega arith) o in
      elim (result s)
          as (λ x.
            result s ≡ x
            → Keeps (weight st.stack + 1)
                (elim x [ none ↦ broken st | some r ↦ reach disabled s st ])) [
                  | none ↦ λ e. (best, waiting, o', l, omega arith)
                  | some r ↦ λ e.
                      reach-Keeps disabled s r i _ st e place best waiting o' l (omega arith)
                        (omega arith)
                ]
        refl

  search_from-Keeps :
      (backtracking disabled : Bool) (fields : List Bytes) (s : State R) (i : ℕ) (st : Search R)
      → Placed (take i st.captures) s fields
      → IfMatch st.best
      → Waiting st.captures st.stack
      → Ordered (length all) i st.stack
      → length st.captures ≡ length all
      → i + length fields ≤ length all
      → Returns
          (Keeps (weight st.stack + rounds fields))
          (search_from backtracking disabled fields s i st)
  unfolding search_from rounds push weight Waiting
  search_from-Keeps backtracking disabled [] s i st place best waiting o l h =
      at_end-Keeps backtracking disabled s i st place best waiting o l h
  search_from-Keeps backtracking disabled (f ∷ rest) s i st place best waiting o l h =
      let pos : 1 ≤ rounds rest = rounds_positive rest in
      let m = length all in
      let o' : Ordered m m st.stack = Ordered-mono m i m st.stack (omega arith) o in
      elim (Bool-cases (has_none (transitions s))) [
        | inl e ↦ rw e (best, waiting, o', l, omega arith)
        | inr e ↦ rw e (elim (Option-cases (within (length rest) (find f (transitions s)))) [
          | inr (t, et) ↦
              let place' =
                Placed-field (take i st.captures) s t f rest place
                  (within-some (length rest) _ t et) in
              rw et (elim (Bool-cases backtracking) [
                | inr once ↦ rw once (
                    Keeps-mono _ _ (search_from backtracking disabled rest t i st) (omega arith) (
                      search_from-Keeps backtracking disabled rest t i st place' best waiting o l
                        (omega arith)))
                | inl again ↦
                    rw again
                      (elim (Option-cases (within (length rest) (find star (transitions s)))) [
                        | inl ea ↦
                            rw (ea, push)
                              (Keeps-mono _ _ (search_from backtracking disabled rest t i st)
                                (omega arith)
                                (search_from-Keeps backtracking disabled rest t i st place' best
                                  waiting o l (omega arith)))
                        | inr (a, ea) ↦
                            let st' = push (some a) rest i f st in
                            let waits =
                              Placed-any (take i st.captures) s a f rest place
                                (within-some (length rest) _ a ea) in
                            rw ea (
                              Keeps-mono _ _ (search_from backtracking disabled rest t i st')
                                (omega arith)
                                (search_from-Keeps backtracking disabled rest t i st' place' best
                                  (waits, waiting) (omega arith, omega arith, o) l (omega arith)))
                      ])
              ])
          | inl et ↦ rw et (elim (Option-cases (within (length rest) (find star (transitions s)))) [
            | inl ea ↦ rw ea (best, waiting, o', l, omega arith)
            | inr (a, ea) ↦ rw ea (
                Returns-bind (IsSetAt st.captures i f) _ (set st.captures i f) _
                  (λ captures (same, at, keep).
                    Keeps-mono _ _
                      (search_from backtracking disabled rest a (suc i)
                        (record st { captures = captures }))
                      (omega arith)
                      (search_from-Keeps backtracking disabled rest a (suc i)
                        (record st { captures = captures })
                        (subst (λ c. Placed c a rest) (sym at)
                          (Placed-any (take i st.captures) s a f rest place
                            (within-some (length rest) _ a ea)))
                        best (Waiting-same m i st.captures captures st.stack o keep waiting)
                        (Ordered-mono m i (suc i) st.stack (omega arith) o) (same ∙ l)
                        (omega arith)))
                  (set_lem st.captures i f (omega arith)))
          ])
        ])
      ]

  abbrev Ends : ℕ → Bool → Bool → Round R → Type 0
  Ends fuel backtracking disabled round =
      Returns IfMatch (backtrack backtracking disabled fuel round)

  backtrack-step :
      (backtracking disabled : Bool) (fuel : ℕ) (captures : List Bytes) (best : Option (Found R))
      (stack : List (Cursor R))
      → ((k : ℕ) (round : Round R)
          → k ≤ fuel
          → Keeps k round
          → Ends fuel backtracking disabled round)
      → IfMatch best
      → Waiting captures stack
      → Ordered (length all) (length all) stack
      → length captures ≡ length all
      → weight stack ≤ fuel
      → Ends
          (suc fuel)
          backtracking
          disabled
          (broken (record { captures = captures; best = best; stack = stack }))
  unfolding backtrack weight Waiting
  backtrack-step backtracking disabled fuel captures best [] next b w o l h = b
  backtrack-step backtracking disabled fuel captures best (c ∷ cs) next b (w, ws) (k, room, o) l h =
      let i = c.capture_index in
      let m = length all in
      Returns-bind (IsSetAt captures i c.current_capture) _ (set captures i c.current_capture) _
        (λ captures' (same, at, keep).
          let st : Search R = record { captures = captures'; best = best; stack = cs } in
          Returns-bind (Keeps (weight cs + rounds c.rest)) _
            (search_from backtracking disabled c.rest c.target (suc i) st) _
            (λ round. next (weight cs + rounds c.rest) round (omega arith))
            (search_from-Keeps backtracking disabled c.rest c.target (suc i) st
              (subst (λ x. Placed x c.target c.rest) (sym at) w) b
              (Waiting-same m i captures captures' cs o keep ws)
              (Ordered-mono m i (suc i) cs (omega arith) o) (same ∙ l) (omega arith)))
        (set_lem captures i c.current_capture (omega arith))

  backtrack-Ends :
      (backtracking disabled : Bool) (fuel n : ℕ) (round : Round R)
      → n ≤ fuel
      → Keeps n round
      → Ends fuel backtracking disabled round
  unfolding backtrack
  backtrack-Ends backtracking disabled zero n (returned f) h k = k
  backtrack-Ends backtracking disabled (suc fuel) n (returned f) h k = k
  backtrack-Ends backtracking disabled zero n (broken st) h (b, w, o, l, k) = absurd (omega arith)
  backtrack-Ends backtracking disabled (suc fuel) n (broken st) h (b, w, o, l, k) =
      backtrack-step backtracking disabled fuel st.captures st.best st.stack
        (λ j round. backtrack-Ends backtracking disabled fuel j round) b w o l (omega arith)

  -- The search for the fields, with the options of any machine.
  pub search-IfMatch :
      (backtracking disabled : Bool)
      → Returns IfMatch (
          search_from backtracking disabled all start 0
            (record { captures = replicate (length all) []; best = none; stack = [] })
          >>= backtrack backtracking disabled (rounds all))
  unfolding weight Waiting state_at
  search-IfMatch backtracking disabled =
      Returns-bind (Keeps (rounds all)) _
        (search_from backtracking disabled all start 0
          (record { captures = replicate (length all) []; best = none; stack = [] }))
        (backtrack backtracking disabled (rounds all))
        (λ round.
          backtrack-Ends backtracking disabled (rounds all) (rounds all) round (omega arith))
        (Keeps-mono _ _ _ (omega arith) (
          search_from-Keeps backtracking disabled all start 0
            (record { captures = replicate (length all) []; best = none; stack = [] })
            ([], [], ends, refl, refl) tt tt tt (length-replicate (length all) []) (omega arith)))

-- GetMapping on any machine that has the metric type: it returns, and a state that it finds is one to
-- which a rule leads that matches the metric; the captures have a place for each field.
pub get_mapping-IfMatch :
    {R : Type 0} (name type : Bytes) (m : Fsm R) (s : State R)
    → find type m.root ≡ some s
    → Returns (IfMatch s (split b'.' name)) (get_mapping name type m)
unfolding get_mapping
get_mapping-IfMatch name type m s e =
    rw e (search-IfMatch s (split b'.' name) m.backtracking_needed m.ordering_disabled)
