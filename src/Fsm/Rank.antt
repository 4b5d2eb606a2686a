-- ===== src/Fsm/Rank.antt =====
-- AddState and the priorities of the final states.
use statsd_bridge.Prelude.{
  ℕ, ◌≡◌, refl, sym, ap, ◌∙◌, inl, inr, Bool, true, false, ◌&&◌, Option, none, some, List, [], ◌∷◌,
  arith, Bytes, bytes_beq, bytes_beq_iff, Bool-cases, ◌>>=◌,
}
use mathlib.Core.Path.{subst}
use statsd_bridge.Fsm.{
  State, state, find, transitions, result_priority, entered, with_transition, with_priority,
  add_fields,
}
use statsd_bridge.Fsm.Walk.{state_at, Leads, Leads-child}
use statsd_bridge.Fsm.Grow.{
  view, find-put, find-put_other, transitions-with_transition, view-entered_old,
}

unfoldable pub fields_beq : List Bytes → List Bytes → Bool
fields_beq [] [] = true
fields_beq [] (g ∷ fields) = false
fields_beq (f ∷ q) [] = false
fields_beq (f ∷ q) (g ∷ fields) = bytes_beq g f && fields_beq q fields

module _ {R : Type 0} where
  -- the priority of the state to which a rule leads, if there is such a state
  unfoldable pub rank : List Bytes → State R → Option ℕ
  rank [] s = some (result_priority s)
  rank (f ∷ q) s = find f (transitions s) >>= rank q

  pub Leads-rank :
      (q : List Bytes) (u t : State R) (r : R) → Leads q u t r → rank q u ≡ some (result_priority t)
  unfolding rank state_at
  Leads-rank [] u t r (way, res) = ap (λ o. o >>= λ s. some (result_priority s)) way
  Leads-rank (f ∷ q) u t r leads =
      let (v, there, l) = Leads-child u t f q r leads in rw there (Leads-rank q v t r l)

  -- The last of the rules with the same fields sets the priority.
  pub rank_added :
      (fields : List Bytes) (r : R) (n : ℕ) (s : State R)
      → rank fields (add_fields fields r n s) ≡ some n
  unfolding rank add_fields with_priority result_priority
  rank_added [] r n (state ts lo hi r' p) = refl
  rank_added (f ∷ fields) r n s =
      let t = add_fields fields r n (entered fields r (find f (transitions s))) in
      rw (transitions-with_transition f t s, find-put f t (transitions s))
        (rank_added fields r n (entered fields r (find f (transitions s))))

  rank-entered :
      (q rest : List Bytes) (r : R) (u : State R) → rank q (entered rest r (some u)) ≡ rank q u
  unfolding rank entered transitions result_priority
  rank-entered [] rest r (state ts lo hi r' p) = refl
  rank-entered (f ∷ q) rest r (state ts lo hi r' p) = refl

  -- A state that other fields lead to keeps its priority.
  pub rank_kept :
      (q fields : List Bytes) (r : R) (n : ℕ) (s : State R) (v : Option R)
      → fields_beq q fields ≡ false
      → view q s ≡ some v
      → rank q (add_fields fields r n s) ≡ rank q s
  unfolding rank add_fields view with_priority with_transition result_priority transitions
      fields_beq
  rank_kept [] [] r n s v h e = absurd (ground arith)
  rank_kept [] (g ∷ fields) r n (state ts lo hi r' p) v h e = refl
  rank_kept (f ∷ q) [] r n (state ts lo hi r' p) v h e = refl
  rank_kept (f ∷ q) (g ∷ fields) r n s v h e =
      let old = find g (transitions s) in
      let t = add_fields fields r n (entered fields r old) in
      rw (transitions-with_transition g t s) (elim (Bool-cases (bytes_beq g f)) [
        | inr other ↦ rw (find-put_other g f t (transitions s) other) refl
        | inl same ↦
            let g_is_f : g ≡ f = (bytes_beq_iff g f).0 same in
            rw (← g_is_f, find-put g t (transitions s))
              (go old (λ u. rank_kept q fields r n u v (rw same at h))
                (subst (λ x. (find x (transitions s) >>= view q) ≡ some v) (sym g_is_f) e))
      ])
    where
      go :
          (old : Option (State R))
          → ((u : State R) → view q u ≡ some v → rank q (add_fields fields r n u) ≡ rank q u)
          → (old >>= view q) ≡ some v
          → rank q (add_fields fields r n (entered fields r old)) ≡ (old >>= rank q)
      go none ih e = absurd (ground arith)
      go (some u) ih e =
          ih (entered fields r (some u)) (view-entered_old q fields r u ∙ e)
          ∙ rank-entered q fields r u
