-- ===== src/Fsm/Grow.antt =====
-- What AddState does to the tree below a start state.
use statsd_bridge.Prelude.{
  ℕ, ◌≡◌, refl, sym, ap, ◌∙◌, inl, inr, false, Option, none, some, List, [], ◌∷◌, Bytes, bytes_beq,
  bytes_beq_iff, Bool-cases, if◌then◌else◌, ◌>>=◌,
}
use mathlib.Core.Path.{subst}
use statsd_bridge.Fsm.{
  State, Transitions, nothing, transition, state, find, put, transitions, result, entered, is_last,
  with_transition, with_priority, add_fields,
}

abbrev pub or_else {ℓ} : {A : Type ℓ} → Option A → Option A → Option A
or_else none d = d
or_else (some a) d = some a

pub or_else-none {ℓ} : {A : Type ℓ} (o : Option A) → or_else o none ≡ o
or_else-none none = refl
or_else-none (some a) = refl

module _ {R : Type 0} where
  pub find-put : (f : Bytes) (s : State R) (ts : Transitions R) → find f (put f s ts) ≡ some s
  unfolding find put
  find-put f s nothing = rw ((bytes_beq_iff f f).1 refl) refl
  find-put f s (transition g t ts) = elim (Bool-cases (bytes_beq g f)) [
    | inl e ↦ rw (e, e) refl
    | inr e ↦ rw (e, e) (find-put f s ts)
  ]

  pub find-put_other :
      (f g : Bytes) (s : State R) (ts : Transitions R)
      → bytes_beq f g ≡ false
      → find g (put f s ts) ≡ find g ts
  unfolding find put
  find-put_other f g s nothing h = rw h refl
  find-put_other f g s (transition k t ts) h = elim (Bool-cases (bytes_beq k f)) [
    | inl e ↦ rw (e, subst (λ x. bytes_beq x g ≡ false) (sym ((bytes_beq_iff k f).0 e)) h) refl
    | inr e ↦ rw e (ap (λ o. if bytes_beq k g then some t else o) (find-put_other f g s ts h))
  ]

  -- the result of the state to which a rule leads, if there is such a state
  unfoldable pub view : List Bytes → State R → Option (Option R)
  view [] s = some (result s)
  view (f ∷ q) s = find f (transitions s) >>= view q

  -- what a rule with the result `r` leaves at `q`, where nothing was
  unfoldable pub entry : List Bytes → List Bytes → R → Option (Option R)
  entry [] [] r = some (some r)
  entry [] (f ∷ fields) r = some none
  entry (g ∷ q) [] r = none
  entry (g ∷ q) (f ∷ fields) r = if bytes_beq f g then entry q fields r else none

  view-with_priority :
      (q : List Bytes) (n : ℕ) (s : State R) → view q (with_priority n s) ≡ view q s
  unfolding view with_priority result transitions
  view-with_priority [] n (state ts lo hi r p) = refl
  view-with_priority (f ∷ q) n (state ts lo hi r p) = refl

  pub view-entered_old :
      (q rest : List Bytes) (r : R) (u : State R) → view q (entered rest r (some u)) ≡ view q u
  unfolding view entered result transitions
  view-entered_old [] rest r (state ts lo hi r' p) = refl
  view-entered_old (f ∷ q) rest r (state ts lo hi r' p) = refl

  pub view-entered_new :
      (q rest : List Bytes) (r : R)
      → or_else (view q (entered rest r none)) (entry q rest r) ≡ entry q rest r
  unfolding view entered result transitions entry find is_last
  view-entered_new [] [] r = refl
  view-entered_new [] (f ∷ rest) r = refl
  view-entered_new (f ∷ q) rest r = refl

  pub transitions-with_transition :
      (f : Bytes) (t s : State R) → transitions (with_transition f t s) ≡ put f t (transitions s)
  unfolding with_transition transitions
  transitions-with_transition f t (state ts lo hi r p) = refl

  result-with_transition : (f : Bytes) (t s : State R) → result (with_transition f t s) ≡ result s
  unfolding with_transition result
  result-with_transition f t (state ts lo hi r p) = refl

  -- A rule fills the places on its way that are free, its last place with the result, and leaves
  -- what it finds: a result is set only where the last state is new.
  pub view-add_fields :
      (q fields : List Bytes) (r : R) (n : ℕ) (s : State R)
      → view q (add_fields fields r n s) ≡ or_else (view q s) (entry q fields r)
  unfolding view add_fields entry
  view-add_fields [] [] r n s = view-with_priority [] n s
  view-add_fields [] (f ∷ fields) r n s = ap some (result-with_transition f _ s)
  view-add_fields (g ∷ q) [] r n s =
      view-with_priority (g ∷ q) n s ∙ sym (or_else-none (find g (transitions s) >>= view q))
  view-add_fields (g ∷ q) (f ∷ fields) r n s =
      let old = find f (transitions s) in
      let t = add_fields fields r n (entered fields r old) in
      rw (transitions-with_transition f t s) (elim (Bool-cases (bytes_beq f g)) [
        | inr other ↦
            rw (find-put_other f g t (transitions s) other, other)
              (sym (or_else-none (find g (transitions s) >>= view q)))
        | inl same ↦
            rw
              (
                same,
                ← (bytes_beq_iff f g).0 same,
                find-put f t (transitions s),
                view-add_fields q fields r n (entered fields r old),
              )
              (below q fields r old)
      ])
    where
      below :
          (q fields : List Bytes) (r : R) (old : Option (State R))
          → or_else (view q (entered fields r old)) (entry q fields r)
            ≡ or_else (old >>= view q) (entry q fields r)
      below q fields r none = view-entered_new q fields r
      below q fields r (some u) = rw (view-entered_old q fields r u) refl
