-- ===== src/Fsm/Walk.antt =====
-- The states by the rule that leads to them, and which fields a rule matches.
use statsd_bridge.Prelude.{
  ℕ, suc, ◌≤◌, ◌≡◌, refl, sym, ap, ◌∙◌, inl, inr, Option, none, some, List, [], ◌∷◌, ◌++◌,
  append-nil, append_assoc, arith, length, Bytes, Option-cases, All, All-append, All-mono, ◌>>=◌,
}
use mathlib.Core.Path.{subst}
use mathlib.Core.Option.{some-injective}
use mathlib.Core.List.{Memᴰ}
use mathlib.Core.List.Memᴰ
use statsd_bridge.Fsm.{
  State, star, transitions, result, find, min_remaining_length, max_remaining_length,
}
use statsd_bridge.Fsm.Search.{within, is_outside}
use statsd_bridge.Fsm.Hits.{Hit, hits, behind, final_hits}

-- The fields of a rule match the fields of a metric; the third list has what the stars stand for.
pub data Glob : List Bytes → List Bytes → List Bytes → Type 0 where
  ends : Glob [] [] []
  field :
      (f : Bytes) (p fields caps : List Bytes) → Glob p fields caps → Glob (f ∷ p) (f ∷ fields) caps
  any :
      (f : Bytes) (p fields caps : List Bytes)
      → Glob p fields caps
      → Glob (star ∷ p) (f ∷ fields) (f ∷ caps)

pub Glob-length : (p fields caps : List Bytes) → Glob p fields caps → length p ≡ length fields
Glob-length _ _ _ ends = refl
Glob-length _ _ _ (field f p fields caps g) = ap suc (Glob-length p fields caps g)
Glob-length _ _ _ (any f p fields caps g) = ap suc (Glob-length p fields caps g)

module _ {R : Type 0} where
  -- the state to which the fields of a rule lead
  unfoldable pub state_at : List Bytes → State R → Option (State R)
  state_at [] s = some s
  state_at (f ∷ p) s = find f (transitions s) >>= state_at p

  -- A rule leads to the state, which has the result.
  abbrev pub Leads : List Bytes → State R → State R → R → Type 0
  Leads p s t r = (state_at p s ≡ some t) × (result t ≡ some r)

  -- The bounds of a state include the lengths of all ways to a result.
  abbrev pub Inside : State R → Type 0
  Inside u =
      (q : List Bytes) (t : State R) (r : R)
      → Leads q u t r
      → (min_remaining_length u ≤ length q) × (length q ≤ max_remaining_length u)

  -- The bounds of all states below do so.
  abbrev pub Bounded : State R → Type 0
  Bounded s = (f : Bytes) (p : List Bytes) (u : State R) → state_at (f ∷ p) s ≡ some u → Inside u

  pub Bounded-child :
      (s u : State R) (f : Bytes)
      → Bounded s
      → find f (transitions s) ≡ some u
      → Inside u × Bounded u
  unfolding state_at
  Bounded-child s u f h e = (h f [] u (rw e refl), λ g p v k. h f (g ∷ p) v (rw e k))

  pub Bounded-parent :
      (s : State R)
      → ((f : Bytes) (u : State R) → find f (transitions s) ≡ some u → Inside u × Bounded u)
      → Bounded s
  unfolding state_at
  Bounded-parent s h f p v e = elim (Option-cases (find f (transitions s))) [
    | inl gone ↦ absurd (below_none gone)
    | inr (u, there) ↦ below u there p (subst (λ o. (o >>= state_at p) ≡ some v) there e)
  ]
    where
      below_none : find f (transitions s) ≡ none → ⊥
      below_none gone = ground arith

      below :
          (u : State R)
          → find f (transitions s) ≡ some u
          → (p : List Bytes) → state_at p u ≡ some v
          → Inside v
      below u there [] e' = subst Inside (some-injective u v e') (h f u there).0
      below u there (g ∷ p) e' = (h f u there).1 g p v e'

  -- A hit of the search: a rule matches the fields and leads to the state.
  abbrev pub IsHit : List Bytes → State R → List Bytes → Hit R → Type 0
  IsHit caps s fields h =
      (p : List Bytes) × (more : List Bytes) × (r : R) × Glob p fields more
      × Leads p s h.final r
      × (h.captured ≡ caps ++ more)

  pub within-some :
      (left : ℕ) (o : Option (State R)) (t : State R) → within left o ≡ some t → o ≡ some t
  unfolding within
  within-some left none t e = e
  within-some left (some s) t e = ground arith

  pub Leads-step :
      (s t u : State R) (f : Bytes) (p : List Bytes) (r : R)
      → find f (transitions s) ≡ some t
      → Leads p t u r
      → Leads (f ∷ p) s u r
  unfolding state_at
  Leads-step s t u f p r e (way, res) = (rw e way, res)

  pub hits_sound :
      (caps : List Bytes) (s : State R) (fields : List Bytes)
      → All (IsHit caps s fields) (hits caps s fields)
  unfolding hits final_hits state_at
  hits_sound caps s [] = elim (Option-cases (result s)) [
    | inl e ↦ rw e tt
    | inr (r, e) ↦ rw e (([], [], r, ends, (refl, e), sym (append-nil caps)), tt)
  ]
  hits_sound caps s (f ∷ rest) =
      All-append (IsHit caps s (f ∷ rest))
        (behind (within (length rest) (find f (transitions s))) (λ t. hits caps t rest))
        (behind (within (length rest) (find star (transitions s)))
          (λ t. hits (caps ++ f ∷ []) t rest))
        (elim (Option-cases (within (length rest) (find f (transitions s)))) [
          | inl e ↦ rw e tt
          | inr (t, e) ↦ rw e (
              All-mono (IsHit caps t rest) (IsHit caps s (f ∷ rest)) (hits caps t rest)
                (λ h (p, more, r, g, leads, c). (
                  f ∷ p,
                  more,
                  r,
                  field f p rest more g,
                  Leads-step s t h.final f p r (within-some (length rest) _ t e) leads,
                  c,
                ))
                (hits_sound caps t rest))
        ])
        (elim (Option-cases (within (length rest) (find star (transitions s)))) [
          | inl e ↦ rw e tt
          | inr (t, e) ↦ rw e (
              All-mono (IsHit (caps ++ f ∷ []) t rest) (IsHit caps s (f ∷ rest))
                (hits (caps ++ f ∷ []) t rest)
                (λ h (p, more, r, g, leads, c). (
                  star ∷ p,
                  f ∷ more,
                  r,
                  any f p rest more g,
                  Leads-step s t h.final star p r (within-some (length rest) _ t e) leads,
                  c ∙ append_assoc caps (f ∷ []) more,
                ))
                (hits_sound (caps ++ f ∷ []) t rest))
        ])

  pub Leads-child :
      (s t : State R) (f : Bytes) (p : List Bytes) (r : R)
      → Leads (f ∷ p) s t r
      → (u : State R) × (find f (transitions s) ≡ some u) × Leads p u t r
  unfolding state_at
  Leads-child s t f p r (way, res) = elim (Option-cases (find f (transitions s))) [
    | inl gone ↦ absurd (below_none gone)
    | inr (u, there) ↦ (u, there, (subst (λ o. (o >>= state_at p) ≡ some t) there way, res))
  ]
    where
      below_none : find f (transitions s) ≡ none → ⊥
      below_none gone = ground arith

  -- The bounds do not exclude a state from which a rule leads to a result.
  within-Inside :
      (u t : State R) (q fields caps : List Bytes) (r : R) (o : Option (State R))
      → o ≡ some u
      → Inside u
      → Leads q u t r
      → Glob q fields caps
      → within (length fields) o ≡ some u
  unfolding within is_outside
  within-Inside u t q fields caps r o e inside leads g =
      let (lo, hi) = inside q t r leads in
      let same : length q ≡ length fields = Glob-length q fields caps g in rw e (ground arith)

  -- Where the bounds are right, no hit is left out.
  pub hits_complete :
      (caps : List Bytes) (s : State R) (p fields more : List Bytes) (t : State R) (r : R)
      → Bounded s
      → Glob p fields more
      → Leads p s t r
      → Memᴰ (record { final = t; captured = caps ++ more }) (hits caps s fields)
  unfolding hits final_hits state_at
  hits_complete caps s _ _ _ t r b ends (way, res) =
      subst (λ u. Memᴰ (record { final = t; captured = caps ++ [] }) (final_hits caps u (result u)))
        (sym (some-injective s t way)) (rw res (Memᴰ.head (rw (append-nil caps) refl)))
  hits_complete caps s _ _ _ t r b (field f p fields more g) leads =
      let (u, there, l) = Leads-child s t f p r leads in
      let (inside, b') = Bounded-child s u f b there in
      rw (within-Inside u t p fields more r _ there inside l g)
        (Memᴰ.append_left _ (hits_complete caps u p fields more t r b' g l))
  hits_complete caps s _ _ _ t r b (any f p fields more g) leads =
      let (u, there, l) = Leads-child s t star p r leads in
      let (inside, b') = Bounded-child s u star b there in
      rw (within-Inside u t p fields more r _ there inside l g) (
        Memᴰ.append_right _ (
          Memᴰ.cast
            (ap (λ c. record { final = t; captured = c }) (sym (append_assoc caps (f ∷ []) more)))
            (hits_complete (caps ++ f ∷ []) u p fields more t r b' g l)))
