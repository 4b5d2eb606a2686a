-- ===== src/Fsm/Bounds.antt =====
-- AddState: the lengths by which the search leaves a state out.
use statsd_bridge.Prelude.{
  ℕ, suc, ◌≤◌, ◌≡◌, refl, sym, ap, ◌∙◌, ◌⊎◌, inl, inr, Option, none, some, List, [], ◌∷◌, arith,
  length, Bytes, bytes_beq, bytes_beq_iff, Bool-cases, Option-cases,
}
use mathlib.Core.Path.{subst}
use mathlib.Core.Option.{some-injective}
use statsd_bridge.Fsm.{
  State, state, find, put, transitions, result, min_remaining_length, max_remaining_length, entered,
  with_transition, with_priority, add_fields, min, max,
}
use statsd_bridge.Fsm.Walk.{
  state_at, Leads, Leads-child, Leads-step, Inside, Bounded, Bounded-child, Bounded-parent,
}
use statsd_bridge.Fsm.Grow.{
  or_else, view, entry, view-add_fields, view-entered_new, view-entered_old, find-put,
  find-put_other, transitions-with_transition,
}

module _ {R : Type 0} where
  pub Leads-view :
      (q : List Bytes) (u t : State R) (r : R) → Leads q u t r → view q u ≡ some (some r)
  unfolding view state_at
  Leads-view [] u t r (way, res) = rw (some-injective u t way) (rw res refl)
  Leads-view (f ∷ q) u t r leads =
      let (v, there, l) = Leads-child u t f q r leads in rw there (Leads-view q v t r l)

  pub view-Leads :
      (q : List Bytes) (u : State R) (r : R)
      → view q u ≡ some (some r)
      → (t : State R) × Leads q u t r
  unfolding view state_at
  view-Leads [] u r e = (u, (refl, some-injective (result u) (some r) e))
  view-Leads (f ∷ q) u r e = elim (Option-cases (find f (transitions u))) [
    | inl gone ↦ absurd (below_none (rw gone at e))
    | inr (v, there) ↦
        let (t, l) = view-Leads q v r (rw there at e) in (t, Leads-step u v t f q r there l)
  ]
    where
      below_none : none ≡ some (some r) → ⊥
      below_none e = ground arith

  entry-length :
      (q fields : List Bytes) (r r' : R)
      → entry q fields r ≡ some (some r')
      → length q ≡ length fields
  unfolding entry
  entry-length [] [] r r' e = refl
  entry-length [] (f ∷ fields) r r' e = absurd (ground arith)
  entry-length (g ∷ q) [] r r' e = absurd (ground arith)
  entry-length (g ∷ q) (f ∷ fields) r r' e = elim (Bool-cases (bytes_beq f g)) [
    | inl same ↦ ap suc (entry-length q fields r r' (rw same at e))
    | inr other ↦ absurd (different (rw other at e))
  ]
    where
      different : none ≡ some (some r') → ⊥
      different e = ground arith

  -- the bounds of a state
  abbrev bounds : State R → ℕ × ℕ
  bounds s = (min_remaining_length s, max_remaining_length s)

  bounds-add_fields :
      (fields : List Bytes) (r : R) (n : ℕ) (s : State R)
      → bounds (add_fields fields r n s) ≡ bounds s
  unfolding add_fields with_transition with_priority min_remaining_length max_remaining_length
  bounds-add_fields [] r n (state ts lo hi r' p) = refl
  bounds-add_fields (f ∷ fields) r n (state ts lo hi r' p) = refl

  -- the bounds of the state behind a field include the rule's own length and those of before
  bounds-entered_new :
      (rest : List Bytes) (r : R) → bounds (entered rest r none) ≡ (length rest, length rest)
  unfolding entered min_remaining_length max_remaining_length
  bounds-entered_new rest r = refl

  bounds-entered_old :
      (rest : List Bytes) (r : R) (u : State R) (n : ℕ)
      → ((n ≡ length rest) ⊎ ((min_remaining_length u ≤ n) × (n ≤ max_remaining_length u)))
      → ((bounds (entered rest r (some u))).0 ≤ n) × (n ≤ (bounds (entered rest r (some u))).1)
  unfolding entered min_remaining_length max_remaining_length min max
  bounds-entered_old rest r (state ts lo hi r' p) n h = ground arith

  Inside-entered :
      (fields : List Bytes) (r : R) (n : ℕ) (old : Option (State R))
      → ((u : State R) → old ≡ some u → Inside u)
      → Inside (add_fields fields r n (entered fields r old))
  Inside-entered fields r n old h q t r' leads =
      let e = Leads-view q _ t r' leads in
      let law = view-add_fields q fields r n (entered fields r old) in
      let same = bounds-add_fields fields r n (entered fields r old) in
      subst (λ b. (b.0 ≤ length q) × (length q ≤ b.1)) (sym same) (go old h (sym law ∙ e))
    where
      go :
          (old : Option (State R))
          → ((u : State R) → old ≡ some u → Inside u)
          → or_else (view q (entered fields r old)) (entry q fields r) ≡ some (some r')
          → ((bounds (entered fields r old)).0 ≤ length q)
            × (length q ≤ (bounds (entered fields r old)).1)
      go none h e =
          let l = entry-length q fields r r' (sym (view-entered_new q fields r) ∙ e) in
          subst (λ b. (b.0 ≤ length q) × (length q ≤ b.1)) (sym (bounds-entered_new fields r))
            (omega arith, omega arith)
      go (some u) h e = bounds-entered_old fields r u (length q) (
          found (view q u) refl (
            subst (λ o. or_else o (entry q fields r) ≡ some (some r'))
              (view-entered_old q fields r u) e))
        where
          found :
              (o : Option (Option R))
              → view q u ≡ o
              → or_else o (entry q fields r) ≡ some (some r')
              → (length q ≡ length fields)
                ⊎ ((min_remaining_length u ≤ length q) × (length q ≤ max_remaining_length u))
          found none v e = inl (entry-length q fields r r' e)
          found (some w) v e = let (t, l) = view-Leads q u r' (v ∙ e) in inr (h u refl q t r' l)

  -- The bounds below a state depend on its transitions only.
  Bounded-transitions : (s t : State R) → transitions t ≡ transitions s → Bounded s → Bounded t
  Bounded-transitions s t e h =
      Bounded-parent t
        (λ f u there. Bounded-child s u f h (subst (λ ts. find f ts ≡ some u) e there))

  Bounded-entered :
      (rest : List Bytes) (r : R) (old : Option (State R))
      → ((u : State R) → old ≡ some u → Bounded u)
      → Bounded (entered rest r old)
  unfolding entered transitions find
  Bounded-entered rest r none h =
      Bounded-parent (entered rest r none) (λ f u there. absurd (ground arith))
  Bounded-entered rest r (some u) h =
      Bounded-transitions u (entered rest r (some u)) (same u) (h u refl)
    where
      same : (u : State R) → transitions (entered rest r (some u)) ≡ transitions u
      same (state ts lo hi r' p) = refl

  -- AddState keeps the bounds right.
  pub Bounded-add_fields :
      (fields : List Bytes) (r : R) (n : ℕ) (s : State R)
      → Bounded s
      → Bounded (add_fields fields r n s)
  unfolding add_fields with_priority transitions
  Bounded-add_fields [] r n s h = Bounded-transitions s (with_priority n s) (same n s) h
    where
      same : (n : ℕ) (s : State R) → transitions (with_priority n s) ≡ transitions s
      same n (state ts lo hi r p) = refl
  Bounded-add_fields (f ∷ fields) r n s h =
      let old = find f (transitions s) in
      let t = add_fields fields r n (entered fields r old) in
      Bounded-parent (with_transition f t s) (λ g v there.
        child g v t (subst (λ ts. find g ts ≡ some v) (transitions-with_transition f t s) there) (
          Inside-entered fields r n old (λ u e. (Bounded-child s u f h e).0),
          Bounded-add_fields fields r n (entered fields r old)
              (Bounded-entered fields r old (λ u e. (Bounded-child s u f h e).1)),
        ))
    where
      child :
          (g : Bytes) (v t : State R)
          → find g (put f t (transitions s)) ≡ some v
          → Inside t × Bounded t
          → Inside v × Bounded v
      child g v t there new = elim (Bool-cases (bytes_beq f g)) [
        | inl same ↦
            let e : find g (put f t (transitions s)) ≡ some t =
              rw (← (bytes_beq_iff f g).0 same) (find-put f t (transitions s)) in
            subst (λ x. Inside x × Bounded x) (some-injective t v (sym e ∙ there)) new
        | inr other ↦
            Bounded-child s v g h (sym (find-put_other f g t (transitions s) other) ∙ there)
      ]
