-- ===== src/Fsm/Rounds.antt =====
-- GetMapping: a single search, against the hits behind its state and those that wait on the stack.
use statsd_bridge.Prelude.{
  ℕ, zero, suc, ◌+◌, ◌≤◌, ◌≡◌, refl, ap, ◌∙◌, inl, inr, true, false, Option, none, some, List, [],
  ◌∷◌, ◌++◌, append-nil, append_assoc, arith, length, take, Bytes, Bool-cases, Option-cases,
  Returns, Returns-bind,
}
use statsd_bridge.Fsm.{
  State, Transitions, nothing, transition, star, transitions, result, result_priority, find,
}
use statsd_bridge.Fsm.Search.{
  within, Found, Cursor, Search, Round, returned, broken, has_better, has_none, search_from, at_end,
  reach, push, set, rounds,
}
use statsd_bridge.Fsm.Hits.{Hit, hits, final_hits, better, choose, Shows}

-- a list with the value at the place
abbrev pub IsSetAt : {A : Type 0} → List A → ℕ → A → List A → Type 0
IsSetAt xs i v ys =
    (length ys ≡ length xs)
    × (take (suc i) ys ≡ take i xs ++ v ∷ [])
    × ((j : ℕ) → j ≤ i → take j ys ≡ take j xs)

pub set_lem :
    {A : Type 0} (xs : List A) (i : ℕ) (v : A)
    → i + 1 ≤ length xs
    → Returns (IsSetAt xs i v) (set xs i v)
unfolding set
set_lem [] i v h = absurd (omega arith)
set_lem (x ∷ xs) zero v h = (refl, refl, first)
  where
    first : (j : ℕ) → j ≤ 0 → take j (v ∷ xs) ≡ take j (x ∷ xs)
    first zero h = refl
    first (suc j) h = absurd (omega arith)
set_lem (x ∷ xs) (suc i) v h =
    Returns-bind _ _ (set xs i v) (λ ys. some (x ∷ ys))
      (λ ys (l, t, k). (ap suc l, ap (λ (z : List _). x ∷ z) t, later ys k))
      (set_lem xs i v (omega arith))
  where
    later :
        (ys : List _)
        → ((j : ℕ) → j ≤ i → take j ys ≡ take j xs)
        → (j : ℕ) → j ≤ suc i
        → take j (x ∷ ys) ≡ take j (x ∷ xs)
    later ys k zero h = refl
    later ys k (suc j) h = ap (λ (z : List _). x ∷ z) (k j (omega arith))

pub length-take {ℓ} : {A : Type ℓ} (n : ℕ) (xs : List A) → n ≤ length xs → length (take n xs) ≡ n
length-take zero xs h = refl
length-take (suc n) [] h = absurd (omega arith)
length-take (suc n) (x ∷ xs) h = ap suc (length-take n xs (omega arith))

pub rounds_positive : (fields : List Bytes) → 1 ≤ rounds fields
unfolding rounds
rounds_positive [] = omega arith
rounds_positive (f ∷ fields) = omega (arith, rounds_positive fields)

module _ {R : Type 0} where
  -- The hits behind the cursors of the stack; the captures before a cursor's are still in place.
  unfoldable pub pending : List Bytes → List (Cursor R) → List (Hit R)
  pending captures [] = []
  pending captures (c ∷ cs) =
      hits (take c.capture_index captures ++ c.current_capture ∷ []) c.target c.rest
      ++ pending captures cs

  -- the searches that the stack may still need
  unfoldable pub weight : List (Cursor R) → ℕ
  weight [] = 0
  weight (c ∷ cs) = rounds c.rest + weight cs

  -- From the top of the stack on the cursors' captures come no later, and each has room for its
  -- captures.
  abbrev pub Ordered : ℕ → ℕ → List (Cursor R) → Type 0
  Ordered m bound [] = Unit
  Ordered m bound (c ∷ cs) =
      (c.capture_index ≤ bound)
      × (c.capture_index + suc (length c.rest) ≤ m)
      × Ordered m c.capture_index cs

  pub Ordered-mono : (m i j : ℕ) (cs : List (Cursor R)) → i ≤ j → Ordered m i cs → Ordered m j cs
  Ordered-mono m i j [] h o = tt
  Ordered-mono m i j (c ∷ cs) h (a, b, o) = (omega arith, b, o)

  pub pending_same :
      (m i : ℕ) (xs ys : List Bytes) (cs : List (Cursor R))
      → Ordered m i cs
      → ((j : ℕ) → j ≤ i → take j ys ≡ take j xs)
      → pending ys cs ≡ pending xs cs
  unfolding pending
  pending_same m i xs ys [] o h = refl
  pending_same m i xs ys (c ∷ cs) (a, b, o) h =
      rw (h c.capture_index a, pending_same m c.capture_index xs ys cs o (λ j k. h j (omega arith)))

  -- A search ends with what it has found, and the stack, showing `target`.
  abbrev pub Ends : Option (Hit R) → ℕ → ℕ → Round R → Type 0
  Ends target n m (returned f) = ⊥
  Ends target n m (broken st) =
      (b : Option (Hit R)) × Shows st.best b
      × (choose b (pending st.captures st.stack) ≡ target)
      × Ordered m m st.stack
      × (length st.captures ≡ m)
      × (weight st.stack + 1 ≤ n)

  choose-append :
      (b : Option (Hit R)) (xs ys : List (Hit R)) → choose b (xs ++ ys) ≡ choose (choose b xs) ys
  unfolding choose
  choose-append b [] ys = refl
  choose-append b (x ∷ xs) ys = choose-append (better b x) xs ys

  better-kept :
      (f : Option (Found R)) (b : Option (Hit R)) (h : Hit R)
      → Shows f b
      → has_better (result_priority h.final) f ≡ true
      → better b h ≡ b
  unfolding has_better better
  better-kept none none h sh e = absurd (ground arith)
  better-kept none (some b) h sh e = absurd sh
  better-kept (some f) none h sh e = absurd sh
  better-kept (some f) (some b) h (same, _) e = rw (← same) (ground arith)

  better-taken :
      (f : Option (Found R)) (b : Option (Hit R)) (h : Hit R)
      → Shows f b
      → has_better (result_priority h.final) f ≡ false
      → better b h ≡ some h
  unfolding has_better better
  better-taken none none h sh e = refl
  better-taken none (some b) h sh e = absurd sh
  better-taken (some f) none h sh e = absurd sh
  better-taken (some f) (some b) h (same, _) e = rw (← same) (ground arith)

  -- A found state shows what it was found as.
  reach-Ends :
      (s : State R) (i m n : ℕ) (st : Search R) (b : Option (Hit R))
      → Shows st.best b
      → Ordered m m st.stack
      → length st.captures ≡ m
      → i ≤ m
      → weight st.stack + 1 ≤ n
      → Ends
          (choose b
            ((record { final = s; captured = take i st.captures }) ∷ pending st.captures st.stack))
          n
          m
          (reach false s st)
  unfolding reach has_better choose better
  reach-Ends s i m n st b sh o l h w =
      let found : Hit R = record { final = s; captured = take i st.captures } in
      elim (Bool-cases (has_better (result_priority s) st.best)) [
        | inl kept ↦ rw (kept, choose, better-kept st.best b found sh kept) (b, sh, refl, o, l, w)
        | inr taken ↦
            rw (taken, choose, better-taken st.best b found sh taken)
              (some found, (refl, rw (length-take i st.captures (omega arith)) refl), refl, o, l, w)
      ]

  at_end-Ends :
      (s : State R) (i m n : ℕ) (st : Search R) (b : Option (Hit R))
      → Shows st.best b
      → Ordered m m st.stack
      → length st.captures ≡ m
      → i ≤ m
      → weight st.stack + 1 ≤ n
      → Ends
          (choose b (final_hits (take i st.captures) s (result s) ++ pending st.captures st.stack))
          n
          m
          (at_end false s st)
  unfolding at_end final_hits
  at_end-Ends s i m n st b sh o l h w =
      elim (result s)
        as (λ o.
          Ends (choose b (final_hits (take i st.captures) s o ++ pending st.captures st.stack)) n m
            (elim o [ none ↦ broken st | some r ↦ reach false s st ])) [
              | none ↦ (b, sh, refl, o, l, w)
              | some r ↦ reach-Ends s i m n st b sh o l h w
            ]

  pub Ends-mono :
      (target : Option (Hit R)) (n n' m : ℕ) (o : Option (Round R))
      → n ≤ n'
      → Returns (Ends target n m) o
      → Returns (Ends target n' m) o
  Ends-mono target n n' m none h r = r
  Ends-mono target n n' m (some (returned f)) h r = r
  Ends-mono target n n' m (some (broken st)) h (b, sh, e, o, l, w) = (b, sh, e, o, l, omega arith)

  no_transitions :
      (left : ℕ) (field : Bytes) (ts : Transitions R)
      → has_none ts ≡ true
      → within left (find field ts) ≡ none
  unfolding has_none find within
  no_transitions left field nothing e = refl
  no_transitions left field (transition g t ts) e = absurd (ground arith)

  -- A single search, with the stack below it in order.
  pub search_from-Ends :
      (fields : List Bytes) (s : State R) (i m : ℕ) (st : Search R) (b : Option (Hit R))
      → Shows st.best b
      → Ordered m i st.stack
      → length st.captures ≡ m
      → i + length fields ≤ m
      → Returns
          (Ends
            (choose b (hits (take i st.captures) s fields ++ pending st.captures st.stack))
            (weight st.stack + rounds fields)
            m)
          (search_from true false fields s i st)
  unfolding search_from hits rounds push pending weight
  search_from-Ends [] s i m st b sh o l h =
      at_end-Ends s i m (weight st.stack + 1) st b sh (Ordered-mono m i m st.stack (omega arith) o)
        l (omega arith) (omega arith)
  search_from-Ends (field ∷ rest) s i m st b sh o l h =
      let pos : 1 ≤ rounds rest = rounds_positive rest in
      let o' : Ordered m m st.stack = Ordered-mono m i m st.stack (omega arith) o in
      elim (Bool-cases (has_none (transitions s))) [
        | inl e ↦
            rw
              (
                e,
                no_transitions (length rest) field (transitions s) e,
                no_transitions (length rest) star (transitions s) e,
              )
              (b, sh, refl, o', l, omega arith)
        | inr e ↦ rw e (elim (Option-cases (within (length rest) (find field (transitions s)))) [
          | inr (t, et) ↦
              rw et (elim (Option-cases (within (length rest) (find star (transitions s)))) [
                | inl ea ↦
                    rw (ea, push, append-nil (hits (take i st.captures) t rest))
                      (Ends-mono _ _ _ m (search_from true false rest t i st) (omega arith)
                        (search_from-Ends rest t i m st b sh o l (omega arith)))
                | inr (a, ea) ↦
                    let st' = push (some a) rest i field st in
                    rw
                      (
                        ea,
                        push,
                        append_assoc (hits (take i st.captures) t rest)
                            (hits (take i st.captures ++ field ∷ []) a rest)
                            (pending st.captures st.stack),
                      )
                      (Ends-mono _ _ _ m (search_from true false rest t i st') (omega arith) (
                        search_from-Ends rest t i m st' b sh (omega arith, omega arith, o) l
                          (omega arith)))
              ])
          | inl et ↦ rw et (elim (Option-cases (within (length rest) (find star (transitions s)))) [
            | inl ea ↦ rw ea (b, sh, refl, o', l, omega arith)
            | inr (a, ea) ↦ rw ea (
                Returns-bind (IsSetAt st.captures i field) _ (set st.captures i field)
                  (λ captures.
                    search_from true false rest a (suc i) (record st { captures = captures }))
                  (λ captures (same, at, keep).
                    rw (← at, ← pending_same m i st.captures captures st.stack o keep)
                      (Ends-mono _ _ _ m
                        (search_from true false rest a (suc i) (record st { captures = captures }))
                        (omega arith)
                        (search_from-Ends rest a (suc i) m (record st { captures = captures }) b sh
                          (Ordered-mono m i (suc i) st.stack (omega arith) o) (same ∙ l)
                          (omega arith))))
                  (set_lem st.captures i field (omega arith)))
          ])
        ])
      ]
